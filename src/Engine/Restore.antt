-- ===== src/Engine/Restore.antt =====
-- Restores: `execute_restore` of src/immutavault/engine.py. What the adapter, restic and the staging
-- file system answer is a record of outcomes; `clock n` is the n-th reading of `utcnow` in a call.
pub mod Settles
pub mod Requests
use immutavault.Json.{
  Json, Fields, JsonText, null, bool, num, str, arr, obj, end, field, nil, dumped, garbled, set_key,
  get_field,
}
use immutavault.Json.Print.{decimal}
use immutavault.Catalog.Rows.{CopyStatus, RequestStatus, Request, Point, Db}
use immutavault.Catalog.Audit.{audit}
use immutavault.Catalog.Points.{get_point}
use immutavault.Catalog.Copies.{get_recovery_copy}
use immutavault.Catalog.Requests.{
  status_text, request_text, get_restore_request, create_restore_request, start_restore,
  finish_restore,
}
use immutavault.Catalog.Requests as Catalog_requests
use immutavault.Engine.Config.{Platform, Replica, Config, platform, replica}
use immutavault.Engine.Retention.{names_json}
use immutavault.Engine.Scores.{is_success}
use immutavault.Prelude.{
  ℕ, String, Bool, true, false, not, ◌&&◌, Option, none, some, List, [], ◌∷◌, ◌==◌, take, is_empty,
  if◌then◌else◌, or_default, Error, value_error, permission_error, runtime_error, type_error,
  Result, ok, err, ◌>>=◌, ◌>>◌, raise_if,
}
use Prim.Native.String.{◌++◌ as str_append, slice}

-- `str(exc)`
abbrev pub error_text : Error → String
error_text (value_error m) = m
error_text (permission_error m) = m
error_text (runtime_error m) = m
error_text (type_error m) = m

-- `"; ".join(…)`
abbrev pub join_semicolon : List String → String
join_semicolon [] = ""
join_semicolon (s ∷ []) = s
join_semicolon (s ∷ t ∷ ss) = str_append s (str_append "; " (join_semicolon (t ∷ ss)))

-- `json.loads(…)` of the options, read with `.get`
abbrev pub load_options : JsonText → Result Fields
load_options (dumped (obj fs)) = ok fs
load_options (dumped _) = err (type_error "object has no attribute 'get'")
load_options garbled = err (value_error "JSONDecodeError")

abbrev pub has_field : String → Fields → Bool
has_field k end = false
has_field k (field j v fs) = if j == k then true else has_field k fs

-- the status words from which a dry run may plan
abbrev pub may_plan : RequestStatus → Bool
may_plan RequestStatus.pending_approval = true
may_plan RequestStatus.approved = true
may_plan RequestStatus.ready = true
may_plan _ = false

-- What the code outside the catalog answers in one call of `execute_restore`.
pub record RestoreOutcomes : Type 0 where
  pub build_adapter : Result (Unit {0})
  pub repr : Json → String
  pub staging : String
  pub capacity : Result (Unit {0})
  pub doctor : Result (List String)
  pub repo_restore : Result (Unit {0})
  pub source_exists : Bool
  pub manifest : Result (Bool × List String)
  pub adapter_restore : Result Json

-- what the guards of `execute_restore` establish before anything is written
pub record RestorePlan : Type 0 where
  pub request : Request
  pub point : Point
  pub target : Platform
  pub source_repository : String
  pub source_replica : Option Replica

-- `str(options.get("source_repository", "primary"))`
abbrev pub source_name : (Json → String) → Fields → String
source_name repr fs =
    if has_field "source_repository" fs
    then elim (get_field "source_repository" fs) [ str s ↦ s | other ↦ repr other ]
    else "primary"

abbrev pub require {ℓ} : {A : Type ℓ} → Option A → Error → Result A
require none e = err e
require (some a) e = ok a

-- the copy that a source other than the primary repository must have
abbrev pub check_source : Config → String → String → Db → Result (Option Replica)
check_source cfg snapshot_id name db = if name == "primary" then ok none else do
  found ← replica cfg name
  raise_if
      (elim (get_recovery_copy snapshot_id name db) [
        | none ↦ true
        | some (copy, lock) ↦ not (is_success copy.status)
      ])
      (runtime_error
        (str_append "recovery point is not available on requested source repository " name))
  ok (some found)

-- the guards of `execute_restore` down to the staging path, in their order
unfoldable pub plan_restore : Config → RestoreOutcomes → ℕ → Bool → Db → Result RestorePlan
plan_restore cfg out request_id dry_run db = do
  req ← require (get_restore_request request_id db) (value_error "restore request not found")
  raise_if (dry_run && not (may_plan req.status)) (
      value_error
        (str_append "restore request cannot be planned from status " (status_text req.status)))
  point ← require (get_point req.snapshot_id db) (runtime_error "recovery point metadata missing")
  target ← platform cfg req.target_platform
  out.build_adapter
  options ← load_options req.options_json
  source ← check_source cfg point.snapshot_id (source_name out.repr options) db
  ok (record {
    request = req;
    point = point;
    target = target;
    source_repository = source_name out.repr options;
    source_replica = source;
  })

-- the answer of a dry run
abbrev pub planned : RestoreOutcomes → ℕ → RestorePlan → Json
planned out request_id p = obj (
    field "request_id" (num request_id) (
      field "snapshot" (str p.point.snapshot_id) (
        field "target_platform" (str p.target.name) (
          field "target_name" (str p.request.target_name) (
            field "staging" (str out.staging) (
              field "source_repository" (str p.source_repository) (
                field "note"
                  (str
                    "execution will restore the encrypted snapshot to staging, validate its manifest, then import as a NEW VM")
                  end)))))))

-- `if isinstance(result, dict): result["source_repository"] = …`
abbrev pub with_source : String → Json → Json
with_source name v = elim (set_key "source_repository" (str name) v) [ ok w ↦ w | err _ ↦ v ]

-- the body of the `try`: nothing is imported before the manifest has been verified
unfoldable pub attempt_restore : RestoreOutcomes → RestorePlan → Result Json
attempt_restore out p = do
  out.repo_restore
  raise_if (not out.source_exists) (
      runtime_error
        (str_append "restic restore completed but expected source path is missing: " out.staging))
  checked ← out.manifest
  raise_if (not checked.0) (
      runtime_error (
        str_append "recovery point manifest verification failed: "
          (join_semicolon (take 10 checked.1))))
  result ← out.adapter_restore
  ok (with_source p.source_repository result)

module _ (sha256 : String → String) where
  -- the end of the `try`, or its handler
  unfoldable pub settle_restore : (ℕ → String) → ℕ → String → Result Json → Db → Result Json × Db
  settle_restore clock request_id actor (ok result) db = (
    ok result,
    audit sha256 (clock 3) actor "restore.complete" "restore_request" (request_text request_id)
        result (finish_restore (clock 2) request_id true (some result) none db),
  )
  settle_restore clock request_id actor (err e) db = (
    err e,
    audit sha256 (clock 3) actor "restore.failed" "restore_request" (request_text request_id)
        (obj (field "error" (str (error_text e)) end))
        (finish_restore (clock 2) request_id false none (some (error_text e)) db),
  )

  -- from the start of the request to its end
  unfoldable pub run_restore :
      RestoreOutcomes → (ℕ → String) → ℕ → String → RestorePlan → Db → Result Json × Db
  run_restore out clock request_id actor p db =
      let (started, db') = start_restore sha256 (clock 0) (clock 1) request_id actor db in
      elim started [
        | err e ↦ (err e, db')
        | ok req ↦ settle_restore clock request_id actor (attempt_restore out p) db'
      ]

  -- from what `adapter.doctor()` answers or raises to the end
  unfoldable pub after_doctor :
      Result (List String)
      → RestoreOutcomes
      → (ℕ → String)
      → ℕ
      → String
      → RestorePlan
      → Db
      → Result Json × Db
  after_doctor (err e) out clock request_id actor p db = (err e, db)
  after_doctor (ok []) out clock request_id actor p db = run_restore out clock request_id actor p db
  after_doctor (ok (problem ∷ problems)) out clock request_id actor p db = (
    err (
        runtime_error
          (str_append "restore target preflight failed: " (join_semicolon (problem ∷ problems)))),
    audit sha256 (clock 0) actor "restore.preflight_failed" "restore_request"
        (request_text request_id)
        (obj (field "problems" (arr (names_json (problem ∷ problems))) end)) db,
  )

  unfoldable pub execute_restore :
      Config → RestoreOutcomes → (ℕ → String) → ℕ → String → Bool → Db → Result Json × Db
  execute_restore cfg out clock request_id actor dry_run db =
      elim (plan_restore cfg out request_id dry_run db) [
        | err e ↦ (err e, db)
        | ok p ↦ if dry_run then (ok (planned out request_id p), db) else elim out.capacity [
          | err e ↦ (err e, db)
          | ok _ ↦ after_doctor out.doctor out clock request_id actor p db
        ]
      ]
