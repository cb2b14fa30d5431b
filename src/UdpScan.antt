-- ===== src/UdpScan.antt =====
-- The UDP scanner (src/scanner/udp/udp_scanner.go) on the base scanner.
pub mod State
pub mod Keys
pub mod Valid
pub mod Once
pub mod Replies
mod Tests
