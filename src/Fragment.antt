-- ===== src/Fragment.antt =====
-- The reassembly of IP fragments (src/common/base.go, `Process_pkt`).
pub mod Process
pub mod Complete
mod Tests
pub mod Sound
