-- ===== src/Text.antt =====
-- Strings as bytes, and what the programs use of Go's packages strings and strconv.
pub mod Defs
pub mod Equality
pub mod Parts
pub mod Number
