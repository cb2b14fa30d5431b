-- ===== src/TcpScan.antt =====
-- The TCP scanner (src/scanner/tcp/tcp_scanner.go) on the base scanner (src/scanner/base_scanner.go).
pub mod State
pub mod Keys
pub mod Handle
pub mod Invariant
pub mod Steps
pub mod Reach
pub mod Payload
pub mod Session
pub mod Dialogue
mod Tests
