-- ===== src/Tests.antt =====
-- Runs of the modelled code on small data, and an instance of each theorem.
mod Data
mod Audit
mod Points
mod Restores
mod Engine
mod Copies
mod Integrity
mod Incremental
mod Dr
mod Access
mod Login
mod Policy
