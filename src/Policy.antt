-- ===== src/Policy.antt =====
-- Protection policies: src/immutavault/policy.py, with the policies of
-- src/immutavault/management_config.py.
pub mod Scope
use immutavault.Json.{Json, Fields, bool, num, str, arr, obj, end, field}
use immutavault.Catalog.Rows.{Db}
use immutavault.Catalog.Audit.{audit}
use immutavault.Engine.Config.{Platform, Replica, Config}
use immutavault.Engine.Retention.{names_json}
use immutavault.Engine.Backup.{BackupReport, would_export, backed_up, backup_failed}
use immutavault.Engine.Backup.All.{PlatformOutcomes, backup_all}
use immutavault.Prelude.{
  ℕ, ◌+◌, String, Bool, true, false, not, ◌&&◌, Option, none, some, is_some, List, [], ◌∷◌, map,
  any, eqb, ◌==◌, if◌then◌else◌, Result, ok, err, value_error, runtime_error, raise_if, ◌>>◌,
}
use Prim.Native.String.{◌++◌ as str_append}

pub record PolicySelection : Type 0 where
  pub platform : String
  pub vms : List String

-- the fields of `ProtectionPolicy` that a run reads
pub record ProtectionPolicy : Type 0 where
  pub id : String
  pub name : String
  pub enabled : Bool
  pub selections : List PolicySelection
  pub immutable_days : ℕ
  pub replica_targets : List String
  pub verify_after_backup : Bool

-- `{row.platform: row.vms for row in …}.get(name)`, where the last row of a name counts
unfoldable pub selected_vms : String → List PolicySelection → Option (List String)
selected_vms name [] = none
selected_vms name (row ∷ rows) = elim (selected_vms name rows) [
  | some vms ↦ some vms
  | none ↦ if row.platform == name then some row.vms else none
]

abbrev pub or_empty : Option (List String) → List String
or_empty none = []
or_empty (some vms) = vms

abbrev pub narrowed : ProtectionPolicy → Platform → Platform
narrowed policy platform =
    let vms = selected_vms platform.name policy.selections in
    record platform {
      enabled = platform.enabled && is_some vms;
      include = or_empty vms;
      exclude = [];
    }

-- `[replica for replica in … if replica.name in selected]`
unfoldable pub selected_replicas : List String → List Replica → List Replica
selected_replicas names [] = []
selected_replicas names (r ∷ rs) =
    let rest = selected_replicas names rs in if any (λ n. n == r.name) names then r ∷ rest else rest

-- `_PolicyConfigView`
abbrev pub policy_config : Config → ProtectionPolicy → Config
policy_config cfg policy = record cfg {
  platforms = map (narrowed policy) cfg.platforms;
  replicas = selected_replicas policy.replica_targets cfg.replicas;
  protection = record cfg.protection { verify_after_backup = policy.verify_after_backup };
  keep_within_days = policy.immutable_days;
}

-- `ProtectionPolicyRunner.policy`
unfoldable pub find_policy : String → List ProtectionPolicy → Result ProtectionPolicy
find_policy policy_id [] = err (value_error (str_append "unknown protection policy: " policy_id))
find_policy policy_id (p ∷ ps) = if p.id == policy_id then ok p else find_policy policy_id ps

abbrev pub is_failed : BackupReport → Bool
is_failed (backup_failed error) = true
is_failed (backed_up success) = false
is_failed (would_export path) = false

abbrev pub count_failures : List BackupReport → ℕ
count_failures [] = 0
count_failures (r ∷ rs) = (if is_failed r then 1 else 0) + count_failures rs

-- the detail without its results
abbrev pub run_detail : ProtectionPolicy → Bool → ℕ → Fields
run_detail policy dry_run failed = field "policy_id" (str policy.id) (
    field "policy_name" (str policy.name) (
      field "dry_run" (bool dry_run) (
        field "immutable_days" (num policy.immutable_days) (
          field "replica_targets" (arr (names_json policy.replica_targets))
            (field "failed" (num failed) end)))))

pub record PolicyRun : Type 0 where
  pub detail : Fields
  pub results : List BackupReport

module _ (sha256 : String → String) (cfg : Config) (outside : Platform → PlatformOutcomes)
    (dry_run : Bool) where
  -- `capacity` is the check before the backups, and `now` the time of the event
  unfoldable pub run_found :
      Result (Unit {0}) → String → String → ProtectionPolicy → Db → Result PolicyRun × Db
  run_found capacity now actor policy db =
      finish (backup_all sha256 (policy_config cfg policy) outside dry_run capacity db)
    where
      recorded : ℕ → Db → Db
      recorded failed db' =
          if dry_run
          then db'
          else audit sha256 now actor
              (if eqb failed 0 then "policy.backup.complete" else "policy.backup.partial_failure")
              "protection_policy" policy.id (obj (run_detail policy dry_run failed)) db'

      finish : Result (List BackupReport) × Db → Result PolicyRun × Db
      finish (err e, db') = (err e, db')
      finish (ok results, db') =
          let failed = count_failures results in
          (
            ok (record { detail = run_detail policy dry_run failed; results = results }),
            recorded failed db',
          )

  -- `ProtectionPolicyRunner.run`
  unfoldable pub run_policy :
      Result (Unit {0})
      → String
      → String
      → List ProtectionPolicy
      → String
      → Db
      → Result PolicyRun × Db
  run_policy capacity now actor policies policy_id db = elim (find_policy policy_id policies) [
    | err e ↦ (err e, db)
    | ok policy ↦ if policy.enabled then run_found capacity now actor policy db else (
      err (runtime_error (str_append "protection policy " (str_append policy.id " is disabled"))),
      db,
    )
  ]
