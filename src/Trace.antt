-- ===== src/Trace.antt =====
-- The TCP traceroute (src/traceroute/traceroute_tcp.go).
pub mod State
pub mod Handle
pub mod Run
pub mod Ports
pub mod Timeouts
mod Tests
