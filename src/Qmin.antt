-- ===== src/Qmin.antt =====
-- The QMIN scan: the scanner (src/qmin/scanner/scanner.go), the DNS server that it asks about
-- (src/qmin/dns_server/dns_server.go) and the post-processing
-- (src/postprocessing/qmin/postproc_scan_result.go).
pub mod Result
pub mod Query
pub mod Routines
pub mod Server
pub mod Handler
pub mod Pattern
pub mod Eval
pub mod Fields
pub mod Stages
pub mod Recording
pub mod Ids
pub mod Domains
pub mod Sessions
pub mod Runs
pub mod Rendered
pub mod Detect
pub mod Passed
pub mod Observed
pub mod Direct
pub mod Total
pub mod Apart
pub mod Asked
pub mod Rounds
pub mod Rows
pub mod Batches
pub mod Batched
pub mod Writer
pub mod Written
pub mod ScanFile
pub mod Scans
pub mod Kinds
pub mod Starting
pub mod Started
pub mod Files
pub mod Chunks
pub mod Skipped
pub mod Order
pub mod Pairs
mod Tests
mod ServerTests
mod ScanTests
mod StartTests
mod EvalTests
mod FileTests
