-- ===== src/Session/Invariant.antt =====
-- What holds of a session, and of the goroutines that own its attempt, between two steps.
pub mod Defs
pub mod Owners
pub mod Transitions
pub mod Commands
pub mod Stages
pub mod Endings
