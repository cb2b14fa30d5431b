-- ===== src/Tcp.antt =====
-- What the TCP programs share (src/common/tcp_common).
pub mod Flags
pub mod Segment
