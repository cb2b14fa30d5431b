-- ===== src/Wire.antt =====
-- Numbers as addresses, and the queries that are sent over UDP (src/common/common.go,
-- src/generator/lcg.go, src/common/udp_common/udp_sender.go).
pub mod Bytes
pub mod Query
mod Tests
