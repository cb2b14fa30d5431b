-- ===== src/Rate.antt =====
-- The rate limit tester (src/ratelimit/ratelimit.go).
pub mod State
pub mod Forwarders
pub mod Rounds
pub mod Target
pub mod Pool
pub mod Ends
pub mod Start
pub mod Injected
pub mod Ramp
pub mod Ports
pub mod Counts
pub mod Answers
pub mod Ready
mod Tests
mod RampTests
