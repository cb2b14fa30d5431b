-- ===== src/Generator.antt =====
-- The address generator (src/generator/lcg.go).
pub mod Lcg
pub mod Affine
mod Cover
mod Round
mod Run
pub mod Period
pub mod Networks
mod Tests
