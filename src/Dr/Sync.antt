-- ===== src/Dr/Sync.antt =====
-- `sync` of src/immutavault/dr.py: the latest points are copied to the DR replica.
pub mod Ready
use immutavault.Json.{
  Json, Fields, null, str, arr, obj, end, field, Items, nil, cons, get_field, bool, num,
  or_empty_object,
}
use immutavault.Catalog.Rows.{CopyStatus, Point, Db}
use immutavault.Catalog.Audit.{audit}
use immutavault.Catalog.Copies.{CopyArgs, upsert_recovery_copy}
use immutavault.Engine.Backup.Replicas.{s3_provider}
use immutavault.Engine.Config.{Replica, Config, replica}
use immutavault.Engine.Hold.{has_good_copy}
use immutavault.Engine.Restore.{error_text, has_field}
use immutavault.Engine.Retention.{names_json}
use immutavault.Dr.Config.{Workload, DrConfig}
use immutavault.Dr.Plan.{check_enabled, latest_workload_point, concat_text, number_text}
use immutavault.Prelude.{
  ℕ, ◌+◌, String, Bool, true, false, Option, none, some, List, [], ◌∷◌, ◌++◌, is_empty, ◌==◌,
  if◌then◌else◌, Error, Result, ok, err, ◌>>=◌, ◌>>◌, runtime_error,
}

-- what `copy_snapshot` of src/immutavault/restic.py answers for a snapshot, and the readings of
-- `utcnow` by the snapshot of the copy
pub record SyncOutside : Type 0 where
  pub copy_snapshot : String → Replica → ℕ → Result Fields
  pub copied_at : String → String
  pub audited_at : String

-- `result.get("repository", "")`, as SQLite stores it in a TEXT column that is NOT NULL
abbrev pub stored_text : Json → Result String
stored_text null = err (runtime_error "NOT NULL constraint failed: recovery_copies.repository")
stored_text (bool true) = ok "1"
stored_text (bool false) = ok "0"
stored_text (num n) = ok (number_text n)
stored_text (str s) = ok s
stored_text (arr vs) = err (runtime_error "Error binding parameter: type 'list' is not supported")
stored_text (obj fs) = err (runtime_error "Error binding parameter: type 'dict' is not supported")

abbrev pub repository_of : Fields → Result String
repository_of result =
    if has_field "repository" result then stored_text (get_field "repository" result) else ok ""

-- `result.get("object_lock") or {}`
abbrev pub object_lock_of : Fields → Json
object_lock_of result = or_empty_object (some (get_field "object_lock" result))

abbrev pub sync_copy : Replica → Point → String → Fields → CopyArgs
sync_copy r point repository result = record {
  snapshot_id = point.snapshot_id;
  target_name = r.name;
  backend = r.backend;
  provider = s3_provider r;
  repository = repository;
  status = CopyStatus.success;
  immutable_until = some point.immutable_until;
  object_lock = some (object_lock_of result);
  error = none;
  verified = false;
}

-- an entry of `copied`
abbrev pub copied_entry : Workload → Point → String → Fields → Json
copied_entry w point status rest = obj (
    field "workload" (str w.name)
      (field "snapshot_id" (str point.snapshot_id) (field "status" (str status) rest)))

-- the entries and the errors of the loop
abbrev pub Synced : Type 0
Synced = Items × List String

abbrev pub add_entry : Json → Synced → Synced
add_entry entry (entries, errors) = (cons entry entries, errors)

abbrev pub add_error : Workload → String → Synced → Synced
add_error w message (entries, errors) =
    (entries, concat_text (w.name ∷ ": " ∷ message ∷ []) ∷ errors)

pub record SyncReport : Type 0 where
  pub replica : String
  pub entries : Items
  pub errors : List String

module _ (cfg : Config) (out : SyncOutside) (r : Replica) where
  -- A copy that has been made is stored, where its repository can be.
  abbrev pub record_copied : Workload → Point → Fields → Result String → Db → (Synced → Synced) × Db
  record_copied w point result (ok repository) db = (
    add_entry (copied_entry w point "copied" (field "result" (obj result) end)),
    upsert_recovery_copy (out.copied_at point.snapshot_id) (out.copied_at point.snapshot_id)
        (sync_copy r point repository result) db,
  )
  record_copied w point result (err e) db = (add_error w (error_text e), db)

  -- The answer of the copy of one workload's point: its entry or its error, and the new database.
  abbrev pub record_sync : Workload → Point → Result Fields → Db → (Synced → Synced) × Db
  record_sync w point (ok result) db = record_copied w point result (repository_of result) db
  record_sync w point (err e) db = (add_error w (error_text e), db)

  -- one pass of the loop
  unfoldable pub sync_workload : Workload → Option Point → Db → (Synced → Synced) × Db
  sync_workload w none db = (add_error w "no recovery point", db)
  sync_workload w (some point) db =
      if point.suspicious
      then (add_error w "latest point is suspicious and was not promoted to DR", db)
      else if has_good_copy point.snapshot_id r.name db
      then (add_entry (copied_entry w point "already-present" end), db)
      else record_sync w point (out.copy_snapshot point.snapshot_id r cfg.keep_within_days) db

  unfoldable pub sync_workloads : List Workload → Db → Synced × Db
  sync_workloads [] db = ((nil, []), db)
  sync_workloads (w ∷ ws) db =
      let (add, db') = sync_workload w (latest_workload_point w db) db in
      let (synced, db'') = sync_workloads ws db' in (add synced, db'')

unfoldable pub sync :
    (String → String) → Config → DrConfig → SyncOutside → Db → Result SyncReport × Db
sync sha256 cfg dr out db = elim (check_enabled dr >> replica cfg dr.replica) [
  | err e ↦ (err e, db)
  | ok r ↦
      let (synced, db') = sync_workloads cfg out r dr.workloads db in
      (
        ok (record { replica = r.name; entries = synced.0; errors = synced.1 }),
        audit sha256 out.audited_at "dr-sync" "dr.sync" "dr_replica" r.name
            (obj (field "copied" (arr synced.0) (field "errors" (arr (names_json synced.1)) end)))
            db',
      )
]
