-- ===== src/Engine/Backup/Replicas.antt =====
-- The loop of `_backup_vm` in src/immutavault/engine.py that copies a snapshot to the replicas.
use immutavault.Json.{Fields, null, bool, num, str, arr, obj, end, field, nil, get_field}
use immutavault.Catalog.Rows.{CopyStatus, Db}
use immutavault.Catalog.Audit.{audit}
use immutavault.Catalog.Copies.{CopyArgs, upsert_recovery_copy}
use immutavault.Engine.Config.{Replica}
use immutavault.Engine.Restore.{error_text}
use immutavault.Prelude.{
  ℕ, ◌+◌, String, ◌≡◌, refl, ◌∙◌, false, Option, none, some, List, [], ◌∷◌, ◌==◌, eqb,
  if◌then◌else◌, Result, ok, err, type_error, ◌>>=◌, Bool-cases, inl, inr,
}

-- The readings of `utcnow` by the catalog's methods in one backup, by what they date.
pub record Times : Type 0 where
  pub started : String
  pub copied : String
  pub finished : String
  pub audited : String
  pub replica_copied : ℕ → String
  pub replica_audited : ℕ → String
  pub verify : ℕ → String
  pub failed : String
  pub fail_audited : String

-- What `copy_snapshot` of src/immutavault/restic.py and `restic_target_url` of
-- src/immutavault/storage.py answer.
pub record CopyOutcomes : Type 0 where
  pub copy_snapshot : Replica → ℕ → Result Fields
  pub target_url : Replica → Result String

-- `replica_results`: what each replica answered
abbrev pub ReplicaResults : Type 0
ReplicaResults = List (String × Fields)

abbrev pub put_result : String → Fields → ReplicaResults → ReplicaResults
put_result name answer [] = (name, answer) ∷ []
put_result name answer ((other, old) ∷ rest) =
    if other == name then (other, answer) ∷ rest else (other, old) ∷ put_result name answer rest

-- `copied.get("object_lock") or {}`, on which `.get` is called
abbrev pub lock_info : Fields → Result Fields
lock_info copied = elim (get_field "object_lock" copied) [
  | obj fs ↦ ok fs
  | null ↦ ok end
  | bool false ↦ ok end
  | arr nil ↦ ok end
  | num n ↦ if eqb n 0 then ok end else err (type_error "object has no attribute 'get'")
  | str s ↦ if s == "" then ok end else err (type_error "object has no attribute 'get'")
  | other ↦ err (type_error "object has no attribute 'get'")
]

-- `lock_info.get("retain_until") or immutable_until`; the providers' answers hold a text or nothing
abbrev pub retain_until : Fields → String → String
retain_until lock immutable_until = elim (get_field "retain_until" lock) [
  | str s ↦ if s == "" then immutable_until else s
  | other ↦ immutable_until
]

-- `replica.provider if replica.backend == "s3" else None`
abbrev pub s3_provider : Replica → Option String
s3_provider r = if r.backend == "s3" then some r.provider else none

abbrev pub good_copy : String → Replica → String → String → Fields → CopyArgs
good_copy snapshot_id r url immutable_until lock = record {
  snapshot_id = snapshot_id;
  target_name = r.name;
  backend = r.backend;
  provider = s3_provider r;
  repository = url;
  status = CopyStatus.success;
  immutable_until = some (retain_until lock immutable_until);
  object_lock = some (obj lock);
  error = none;
  verified = false;
}

abbrev pub failed_copy : String → Replica → String → String → CopyArgs
failed_copy snapshot_id r url message = record {
  snapshot_id = snapshot_id;
  target_name = r.name;
  backend = r.backend;
  provider = s3_provider r;
  repository = url;
  status = CopyStatus.failed;
  immutable_until = none;
  object_lock = none;
  error = some message;
  verified = false;
}

abbrev pub url_or_unresolved : Result String → String
url_or_unresolved (ok url) = url
url_or_unresolved (err e) = "unresolved"

-- what the `try` of the loop computes before it writes: the answer, its lock and the target's URL
abbrev pub try_copy : CopyOutcomes → Replica → ℕ → Result (Fields × Fields × String)
try_copy out r days = do
  copied ← out.copy_snapshot r days
  lock ← lock_info copied
  url ← out.target_url r
  ok (copied, lock, url)

module _ (sha256 : String → String) (times : Times) (out : CopyOutcomes) (snapshot_id : String)
    (days : ℕ) (immutable_until : String) where
  -- one replica, with the number of the pass
  unfoldable pub record_copy :
      ℕ → Replica → Result (Fields × Fields × String) → ReplicaResults → Db → ReplicaResults × Db
  record_copy n r (ok (copied, lock, url)) results db = (
    put_result r.name copied results,
    audit sha256 (times.replica_audited n) "system" "replica.complete" "recovery_point" snapshot_id
        (obj (
          field "target" (str r.name) (
            field "backend" (str r.backend)
              (field "provider" (str r.provider) (field "object_lock" (obj lock) end)))))
        (upsert_recovery_copy (times.replica_copied n) (times.replica_copied n)
          (good_copy snapshot_id r url immutable_until lock) db),
  )
  record_copy n r (err e) results db = (
    put_result r.name (field "status" (str "failed") (field "error" (str (error_text e)) end))
        results,
    audit sha256 (times.replica_audited n) "system" "replica.failed" "recovery_point" snapshot_id
        (obj (field "target" (str r.name) (field "error" (str (error_text e)) end)))
        (upsert_recovery_copy (times.replica_copied n) (times.replica_copied n)
          (failed_copy snapshot_id r (url_or_unresolved (out.target_url r)) (error_text e)) db),
  )

  unfoldable pub replicate : ℕ → List Replica → ReplicaResults → Db → ReplicaResults × Db
  replicate n [] results db = (results, db)
  replicate n (r ∷ rs) results db =
      let (results', db') = record_copy n r (try_copy out r days) results db in
      let copied = replicate (n + 1) rs results' db' in
      let skipped = replicate (n + 1) rs results db in if r.enabled then copied else skipped

  record_copy-points :
      (n : ℕ) (r : Replica) (answer : Result (Fields × Fields × String)) (results : ReplicaResults)
      (db : Db)
      → (record_copy n r answer results db).1.points ≡ db.points
  unfolding record_copy audit upsert_recovery_copy
  record_copy-points n r (ok (copied, lock, url)) results db = refl
  record_copy-points n r (err e) results db = refl

  -- The replicas leave the recovery points as they are.
  pub replicate-points :
      (n : ℕ) (rs : List Replica) (results : ReplicaResults) (db : Db)
      → (replicate n rs results db).1.points ≡ db.points
  unfolding replicate
  replicate-points n [] results db = refl
  replicate-points n (r ∷ rs) results db =
      let (results', db') = record_copy n r (try_copy out r days) results db in
      elim (Bool-cases r.enabled) [
        | inl on ↦ simp on (
            replicate-points (n + 1) rs results' db'
            ∙ record_copy-points n r (try_copy out r days) results db)
        | inr off ↦ simp off (replicate-points (n + 1) rs results db)
      ]
