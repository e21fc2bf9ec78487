-- ===== src/Engine/Backup.antt =====
-- The backup of one virtual machine: `_backup_vm` of src/immutavault/engine.py. Staging directories
-- are made and removed without an effect on the catalog.
pub mod Replicas
pub mod Files
pub mod All
pub mod Protects
use immutavault.Json.{Json, Fields, null, bool, str, obj, end, field, dumped, get_field}
use immutavault.Catalog.Rows.{JobStatus, CopyStatus, PointColumns, Point, Db}
use immutavault.Catalog.Audit.{audit}
use immutavault.Catalog.Jobs.{start_job, finish_job}
use immutavault.Catalog.Points.{upsert_recovery_point, latest_point}
use immutavault.Catalog.Copies.{CopyArgs, upsert_recovery_copy}
use immutavault.Engine.Config.{Platform, Config}
use immutavault.Engine.Anomaly.{Ratios, detect_backup_anomaly}
use immutavault.Engine.Restore.{error_text}
use immutavault.Engine.Verify.{VerifyOutcomes, verify_recovery_point}
use immutavault.Engine.Backup.Replicas.{Times, CopyOutcomes, ReplicaResults, replicate}
use immutavault.Prelude.{
  ℕ, max, String, Bool, true, false, Option, none, some, List, [], ◌∷◌, if◌then◌else◌, Result,
  Error, ok, err, ◌>>=◌, ◌>>◌, ◌++◌,
}
use Prim.Native.String.{◌++◌ as str_append}
use immutavault.Engine.Backup.Files.{
  Vm, Manifest, BackupOutcomes, Stored, consistency_of, store_files, previous_bytes, anomaly_of,
  immutable_days, point_metadata, point_columns, primary_copy, text_or_null, complete_event,
}

-- the answer of `_backup_vm`
pub record BackupSuccess : Type 0 where
  pub snapshot : String
  pub bytes : ℕ
  pub data_added : ℕ
  pub immutable_until : String
  pub suspicious : Bool
  pub suspicious_reason : Option String
  pub replicas : ReplicaResults
  pub verified : Option Bool
  pub application_consistency : Fields

pub data BackupReport : Type 0 where
  would_export : String → BackupReport
  backed_up : BackupSuccess → BackupReport
  backup_failed : String → BackupReport

module _ (sha256 : String → String) (cfg : Config) (times : Times) where
  -- the catalog's part of a backup on the primary repository
  unfoldable pub record_backup :
      Platform → Vm → Json → BackupOutcomes → Stored → Bool × Option String → String → ℕ → Db → Db
  record_backup platform vm platform_info out stored anomaly immutable_until job_id db =
      audit sha256 times.audited "system" "backup.complete" "recovery_point" stored.snapshot_id
        (complete_event platform vm anomaly)
        (finish_job times.finished job_id JobStatus.success (some stored.snapshot_id) none (
          upsert_recovery_copy times.copied times.copied
            (primary_copy cfg stored.snapshot_id immutable_until)
            (upsert_recovery_point
              (point_columns platform vm platform_info out stored anomaly immutable_until) db)))

  -- the handler of the `try`
  unfoldable pub fail_backup : Platform → Vm → ℕ → Error → Db → BackupReport × Db
  fail_backup platform vm job_id e db = (
    backup_failed (error_text e),
    audit sha256 times.fail_audited "system" "backup.failed" "vm"
        (str_append platform.name (str_append ":" vm.id))
        (obj (field "error" (str (error_text e)) end))
        (finish_job times.failed job_id JobStatus.failed none (some (error_text e)) db),
  )

  -- `verify_recovery_point` where the settings ask for it
  unfoldable pub verify_after : BackupOutcomes → String → Db → Result (Option Bool) × Db
  verify_after out snapshot_id db =
      let (verdict, db') =
        verify_recovery_point sha256 out.verify times.verify snapshot_id "system" db in
      if cfg.protection.verify_after_backup
      then (verdict >>= (λ good. ok (some good)), db')
      else (ok none, db)

  -- the steps of the `try` from the first write
  unfoldable pub protect_files :
      Platform → Vm → Json → BackupOutcomes → Stored → ℕ → Db → BackupReport × Db
  protect_files platform vm platform_info out stored job_id db =
      let anomaly = anomaly_of platform vm out stored db in
      let days = immutable_days cfg anomaly.0 in
      let immutable_until = out.until days in
      let recorded =
        record_backup platform vm platform_info out stored anomaly immutable_until job_id db in
      let (replicas, copied) =
        replicate sha256 times out.copies stored.snapshot_id days immutable_until 0 cfg.replicas []
          recorded in
      let (verdict, verified_db) = verify_after out stored.snapshot_id copied in
      elim verdict [
        | err e ↦ fail_backup platform vm job_id e verified_db
        | ok verified ↦ (
          backed_up (record {
            snapshot = stored.snapshot_id;
            bytes = stored.manifest.total_bytes;
            data_added = stored.data_added;
            immutable_until = immutable_until;
            suspicious = anomaly.0;
            suspicious_reason = anomaly.1;
            replicas = replicas;
            verified = verified;
            application_consistency = stored.consistency;
          }),
          verified_db,
        )
      ]

  abbrev pub run_backup :
      Platform → Vm → Json → BackupOutcomes → ℕ → Result Stored → Db → BackupReport × Db
  run_backup platform vm platform_info out job_id (err e) db = fail_backup platform vm job_id e db
  run_backup platform vm platform_info out job_id (ok stored) db =
      protect_files platform vm platform_info out stored job_id db

  -- A dry run raises what the export raises; a backup reports every exception.
  unfoldable pub backup_vm :
      Platform → Vm → Json → BackupOutcomes → Bool → Db → Result BackupReport × Db
  backup_vm platform vm platform_info out true db =
      (out.export >>= λ exported. ok (would_export exported), db)
  backup_vm platform vm platform_info out false db =
      let (job_id, started) = start_job times.started platform.name vm.id vm.name db in
      let (report, db') =
        run_backup platform vm platform_info out job_id (store_files platform out) started in
      (ok report, db')
