-- ===== src/Dr.antt =====
-- `DROrchestrator` of src/immutavault/dr.py: plans, preflight, failover, failback and the watch over
-- the primary site, on the catalog and the engine.
pub mod Config
pub mod Action
pub mod Plan
pub mod Health
pub mod Fence
pub mod Promote
pub mod Failback
pub mod Sync
pub mod Watch
