-- ===== src/Engine/Backup/Protects.antt =====
-- What `_backup_vm` leaves protected, on every path.
use immutavault.Json.{Json}
use immutavault.Catalog.Rows.{Point, Db}
use immutavault.Catalog.Audit.{audit}
use immutavault.Catalog.Jobs.{start_job, finish_job}
use immutavault.Catalog.Points.{has_id, latest_point, upsert_recovery_point}
use immutavault.Catalog.Points.Immutability.{shields, shields_row, shields-eq-any}
use immutavault.Catalog.Copies.{upsert_recovery_copy}
use immutavault.Engine.Config.{Platform, Config}
use immutavault.Engine.Hold.{shields_same}
use immutavault.Engine.Verify.{verify_recovery_point-keeps}
use immutavault.Engine.Backup.Replicas.{Times, replicate, replicate-points}
use immutavault.Engine.Backup.Files.{
  Vm, BackupOutcomes, Stored, store_files, anomaly_of, immutable_days,
}
use immutavault.Engine.Backup.{record_backup, fail_backup, verify_after, protect_files, backup_vm}
use immutavault.Prelude.{
  ℕ, String, ◌≡◌, refl, eq_iff, Bool, true, false, ◌||◌, Option, List, [], ◌∷◌, ◌++◌, ◌==◌, eq_refl,
  any, Error, ok, Bool-cases, Result-cases, inl, inr, arith,
}
use immutavault.Prelude.Order.{str_ltb}
use immutavault.Prelude.Table.{delete_where}

-- a row at the end of a table
any-append {ℓ} :
    {A : Type ℓ} (p : A → Bool) (xs : List A) (y : A) → any p (xs ++ y ∷ []) ≡ (any p xs || p y)
any-append p [] y = ground arith
any-append p (x ∷ xs) y = ground (arith, any-append p xs y)

-- a deletion by another key
any-delete_where :
    (at id snapshot_id : String) (ps : List Point)
    → (snapshot_id == id) ≡ false
    → any (shields_row at id) (delete_where (has_id snapshot_id) ps) ≡ any (shields_row at id) ps
any-delete_where at id snapshot_id [] other = refl
any-delete_where at id snapshot_id (p ∷ ps) other = ground (
  arith,
  eq_iff p.snapshot_id id,
  eq_iff p.snapshot_id snapshot_id,
  eq_iff snapshot_id id,
  any-delete_where at id snapshot_id ps other,
)

module _ (sha256 : String → String) (cfg : Config) (times : Times) (platform : Platform) (vm : Vm)
    (info : Json) (out : BackupOutcomes) (at id : String) where
  record_backup-protects :
      (stored : Stored) (anomaly : Bool × Option String) (immutable_until : String) (job_id : ℕ)
      (db : Db)
      → str_ltb at immutable_until ≡ true
      → shields at
          (record_backup sha256 cfg times platform vm info out stored anomaly immutable_until job_id
            db)
          stored.snapshot_id
        ≡ true
  unfolding record_backup audit finish_job upsert_recovery_copy upsert_recovery_point
  record_backup-protects stored anomaly immutable_until job_id db later =
      rw
        (
          shields-eq-any at stored.snapshot_id (
              record_backup sha256 cfg times platform vm info out stored anomaly immutable_until
                job_id db),
          any-append (shields_row at stored.snapshot_id)
              (delete_where (has_id stored.snapshot_id) db.points) _,
          later,
          eq_refl stored.snapshot_id,
        )
        (ground arith)

  record_backup-keeps :
      (stored : Stored) (anomaly : Bool × Option String) (immutable_until : String) (job_id : ℕ)
      (db : Db)
      → (stored.snapshot_id == id) ≡ false
      → shields at db id ≡ true
      → shields at
          (record_backup sha256 cfg times platform vm info out stored anomaly immutable_until job_id
            db)
          id
        ≡ true
  unfolding record_backup audit finish_job upsert_recovery_copy upsert_recovery_point
  record_backup-keeps stored anomaly immutable_until job_id db other h =
      rw
        (
          shields-eq-any at id (
              record_backup sha256 cfg times platform vm info out stored anomaly immutable_until
                job_id db),
          any-append (shields_row at id) (delete_where (has_id stored.snapshot_id) db.points) _,
          any-delete_where at id stored.snapshot_id db.points other,
          rw (shields-eq-any at id db) at h,
        )
        refl

  fail_backup-keeps :
      (job_id : ℕ) (e : Error) (db : Db)
      → shields at db id ≡ true
      → shields at (fail_backup sha256 cfg times platform vm job_id e db).1 id ≡ true
  unfolding fail_backup audit finish_job
  fail_backup-keeps job_id e db h = shields_same at id db _ refl h

  verify_after-keeps :
      (snapshot_id : String) (db : Db)
      → shields at db id ≡ true
      → shields at (verify_after sha256 cfg times out snapshot_id db).1 id ≡ true
  unfolding verify_after
  verify_after-keeps snapshot_id db h = elim (Bool-cases cfg.protection.verify_after_backup) [
    | inl wanted ↦
        simp wanted (
          verify_recovery_point-keeps sha256 times.verify snapshot_id "system" out.verify at id db
            h)
    | inr unwanted ↦ simp unwanted h
  ]

  -- After the point has been recorded, replicas and verification keep what is protected.
  protect_files-keeps :
      (stored : Stored) (job_id : ℕ) (db : Db)
      → (let anomaly = anomaly_of platform vm out stored db in
          shields at
            (record_backup sha256 cfg times platform vm info out stored anomaly
              (out.until (immutable_days cfg anomaly.0))
              job_id
              db)
            id
          ≡ true)
      → shields at (protect_files sha256 cfg times platform vm info out stored job_id db).1 id
        ≡ true
  unfolding protect_files
  protect_files-keeps stored job_id db h =
      let anomaly = anomaly_of platform vm out stored db in
      let days = immutable_days cfg anomaly.0 in
      let recorded =
        record_backup sha256 cfg times platform vm info out stored anomaly (out.until days) job_id
          db in
      let copied =
        (replicate sha256 times out.copies stored.snapshot_id days (out.until days) 0 cfg.replicas
          [] recorded).1 in
      let kept = verify_after-keeps stored.snapshot_id copied (
        shields_same at id recorded copied
          (replicate-points sha256 times out.copies stored.snapshot_id days (out.until days) 0
            cfg.replicas [] recorded)
          h) in
      elim (Result-cases (verify_after sha256 cfg times out stored.snapshot_id copied).0) [
        | inl (e, failed) ↦ rw (failed, protect_files) (fail_backup-keeps job_id e _ kept)
        | inr (verified, done) ↦ rw (done, protect_files) kept
      ]

module _ (sha256 : String → String) (cfg : Config) (times : Times) (platform : Platform) (vm : Vm)
    (info : Json) (out : BackupOutcomes) (at : String) where
  -- When the export, the manifest and the restic backup of a virtual machine go through, the new
  -- point is protected after the backup at every time before the hold that the settings give,
  -- whatever the replicas and the verification answer.
  pub backup_vm-protects :
      (stored : Stored) (db : Db)
      → store_files platform out ≡ ok stored
      → str_ltb at (out.until (immutable_days cfg (anomaly_of platform vm out stored db).0)) ≡ true
      → shields at (backup_vm sha256 cfg times platform vm info out false db).1 stored.snapshot_id
        ≡ true
  unfolding backup_vm start_job latest_point
  backup_vm-protects stored db done later =
      let (job_id, started) = start_job times.started platform.name vm.id vm.name db in
      rw (done, backup_vm)
        (protect_files-keeps sha256 cfg times platform vm info out at stored.snapshot_id stored
          job_id started
          (record_backup-protects sha256 cfg times platform vm info out at stored.snapshot_id stored
            (anomaly_of platform vm out stored started) _ job_id started later))

  -- A backup, also a failed one, keeps every point protected that was and whose id restic does not
  -- give to the new snapshot.
  pub backup_vm-keeps :
      (id : String) (db : Db)
      → ((stored : Stored)
          → store_files platform out ≡ ok stored
          → (stored.snapshot_id == id) ≡ false)
      → shields at db id ≡ true
      → shields at (backup_vm sha256 cfg times platform vm info out false db).1 id ≡ true
  unfolding backup_vm start_job
  backup_vm-keeps id db fresh h =
      let (job_id, started) = start_job times.started platform.name vm.id vm.name db in
      let kept = shields_same at id db started refl h in
      elim (Result-cases (store_files platform out)) [
        | inl (e, failed) ↦
            rw (failed, backup_vm)
              (fail_backup-keeps sha256 cfg times platform vm info out at id job_id e started kept)
        | inr (stored, done) ↦
            rw (done, backup_vm)
              (protect_files-keeps sha256 cfg times platform vm info out at id stored job_id started
                (record_backup-keeps sha256 cfg times platform vm info out at id stored
                  (anomaly_of platform vm out stored started) _ job_id started (fresh stored done)
                  kept))
      ]
