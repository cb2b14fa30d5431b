-- ===== src/Cli.antt =====
-- The command line (src/dns_tool.go).
pub mod Flags
pub mod Outcome
pub mod Scanner
pub mod Commands
pub mod Main
pub mod Starts
pub mod Settings
mod Tests
