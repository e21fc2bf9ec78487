-- ===== src/Dr/Health.antt =====
-- `_wait_workload_health` of src/immutavault/dr.py.
pub mod Rounds
use immutavault.Json.{Json, Fields, bool, num, str, arr, obj, end, field, nil, cons, set_field}
use immutavault.Json.Print.{decimal}
use immutavault.Catalog.Rows.{Direction, RequestStatus, Point, Db}
use immutavault.Catalog.Audit.{audit}
use immutavault.Catalog.Points.{get_point}
use immutavault.Catalog.Requests.{create_restore_request}
use immutavault.Catalog.DrRuns.{WorkloadArgs, create_dr_run, finish_dr_run, add_dr_workload}
use immutavault.Engine.Config.{Config, platform}
use immutavault.Engine.Restore.{error_text, join_semicolon, require, execute_restore}
use immutavault.Engine.Retention.{names_json}
use immutavault.Dr.Config.{HealthCheck, Workload, DrConfig, DrOutside}
use immutavault.Dr.Action.{
  Effect, fence_ran, fence_verified, fence_confirmed, prepared, activated, deactivated, imported,
  powered_on, powered_off, World, Action, ◌>>=◌, ◌>>◌, pure, answer, call, ask, write, update,
  push_restored, guard, on_error, ignore_error, restored_latest_first, clear_restored,
}
use immutavault.Dr.Plan.{
  Candidate, PlanRow, Plan, plan, preflight, already_failed_over, number_text, concat_text,
}
use immutavault.Prelude.{
  ℕ, zero, suc, ◌+◌, max, String, Bool, true, false, not, ◌&&◌, Option, none, some, List, [], ◌∷◌,
  map, ◌==◌, is_empty, if◌then◌else◌, Error, Result, ok, err, runtime_error, Result-cases,
}
use mathlib.Core.List.{reverse}
use Prim.Native.String.{◌++◌ as str_append}

-- `max(x.attempts …)` of the checks
abbrev pub most_attempts : List HealthCheck → ℕ
most_attempts [] = 0
most_attempts (c ∷ cs) = max c.attempts (most_attempts cs)

-- The rounds from attempt `n` on, with `left` more to follow; the waits between them are left out.
unfoldable pub wait_rounds : (ℕ → Bool × Fields) → ℕ → ℕ → Bool × Fields
wait_rounds health n zero = ((health n).0, set_field "attempt" (num n) (health n).1)
wait_rounds health n (suc left) =
    let later = wait_rounds health (n + 1) left in
    if (health n).0 then (true, set_field "attempt" (num n) (health n).1) else later

-- the loop over `range(1, attempts + 1)`
abbrev pub first_round : (ℕ → Bool × Fields) → ℕ → Bool × Fields
first_round health zero = (false, field "ok" (bool false) (field "checks" (arr nil) end))
first_round health (suc left) = wait_rounds health 1 left

-- `_wait_workload_health`: attempts are numbered from 1, and settings have at least one
unfoldable pub wait_workload_health : DrOutside → Workload → Bool × Fields
wait_workload_health out w =
    if is_empty w.health_checks
    then (
      true,
      field "ok" (bool true) (
          field "checks" (arr nil) (field "note" (str "no workload health checks configured") end)),
    )
    else first_round (out.health w) (most_attempts w.health_checks)
