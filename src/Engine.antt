-- ===== src/Engine.antt =====
-- `BackupEngine` of src/immutavault/engine.py over the catalog, with the parts of
-- src/immutavault/restic.py and src/immutavault/anomaly.py that decide something.
pub mod Config
pub mod Retention
pub mod Scores
pub mod Anomaly
pub mod Hold
pub mod Verify
pub mod Backup
pub mod Restore
