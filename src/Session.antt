-- ===== src/Session.antt =====
-- core/sessionapi: the session manager (api.go, restore.go, shutdown.go), as atomic steps.
pub mod Types
pub mod Guards
pub mod Configure
pub mod Control
pub mod Stop
pub mod Ledger
pub mod Attempt
pub mod Candidate
pub mod Health
pub mod Finish
pub mod System
pub mod Invariant
pub mod Safety
pub mod Guarantees
pub mod Progress
pub mod Recovery
pub mod Activation
pub mod Restart
pub mod Actions
pub mod SourceStore
pub mod ConfigLoader
