-- ===== src/Catalog.antt =====
-- The SQLite catalog of src/immutavault/state.py (`StateDB`), one child module for each table.
pub mod Rows
pub mod Audit
pub mod Jobs
pub mod Points
pub mod Copies
pub mod Requests
pub mod DrRuns
pub mod Health
pub mod Summary
