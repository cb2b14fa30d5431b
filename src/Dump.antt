-- ===== src/Dump.antt =====
-- The packet dump (src/util/dump/dump_pcaps.go).
pub mod Files
pub mod Complete
mod Tests
