-- ===== src/Input.antt =====
-- What the scanners read before a scan: the list of excluded networks, the file of addresses and the
-- argument that names what is scanned (src/scanner/base_scanner.go, src/common/base.go).
pub mod Lines
pub mod Addresses
pub mod Excluded
mod Tests
