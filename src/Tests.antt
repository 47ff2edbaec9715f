-- ===== src/Tests.antt =====
-- Concrete runs: each example applies a theorem to an input of the kind the Go tests use.
mod Codec
mod Manager
mod Endings
mod Resources
mod Flows
mod Lookups
mod Attempts
mod Runtimes
mod Engines
mod Dials
mod Devices
mod Associations
mod Histories
mod Migrations
mod Platforms
mod Sources
mod Policies
mod Configs
