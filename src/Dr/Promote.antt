-- ===== src/Dr/Promote.antt =====
-- The failover: `_fence_primary` and `promote` of src/immutavault/dr.py.
pub mod Fencing
pub mod Blocked
use immutavault.Dr.Health.{wait_workload_health}
use immutavault.Dr.Fence.{run_fence, run_fence_verification}
use immutavault.Json.{Json, Fields, bool, num, str, arr, obj, end, field, nil, cons, set_field}
use immutavault.Json.Print.{decimal}
use immutavault.Catalog.Rows.{Direction, RequestStatus, Point, Db}
use immutavault.Catalog.Audit.{audit}
use immutavault.Catalog.Points.{get_point}
use immutavault.Catalog.Requests.{create_restore_request}
use immutavault.Catalog.DrRuns.{WorkloadArgs, create_dr_run, finish_dr_run, add_dr_workload}
use immutavault.Engine.Config.{Config, platform}
use immutavault.Engine.Restore.{error_text, join_semicolon, require, execute_restore}
use immutavault.Engine.Retention.{names_json}
use immutavault.Dr.Config.{HealthCheck, Workload, DrConfig, DrOutside}
use immutavault.Dr.Action.{
  Effect, fence_ran, fence_verified, fence_confirmed, prepared, activated, deactivated, imported,
  powered_on, powered_off, World, Action, ◌>>=◌, ◌>>◌, pure, answer, call, ask, write, update,
  push_restored, guard, on_error, ignore_error, restored_latest_first, clear_restored,
}
use immutavault.Dr.Plan.{
  Candidate, PlanRow, Plan, plan, preflight, already_failed_over, number_text, concat_text,
}
use immutavault.Prelude.{
  ℕ, zero, suc, ◌+◌, max, String, Bool, true, false, not, ◌&&◌, Option, none, some, List, [], ◌∷◌,
  map, ◌==◌, is_empty, if◌then◌else◌, Error, Result, ok, err, runtime_error, Result-cases,
}
use mathlib.Core.List.{reverse}
use Prim.Native.String.{◌++◌ as str_append}

-- an operation of the catalog that never raises
abbrev pub answered {ℓ} : {A : Type ℓ} → A × Db → Result A × Db
answered (a, db) = (ok a, db)

-- what `promote` answers
pub data Promotion : Type 0 where
  planned : Plan → Promotion
  already_active : Promotion
  promoted : ℕ → Fields → Promotion

abbrev pub snapshot_of : PlanRow → String
snapshot_of row = elim row.candidate [ none ↦ "" | some c ↦ c.snapshot_id ]

abbrev pub names_of : List (Workload × Json) → List String
names_of [] = []
names_of ((w, result) ∷ rest) = w.name ∷ names_of rest

abbrev pub dr_target_name : DrOutside → String → Workload → String
dr_target_name out infix_text w = elim w.target_name [
  | none ↦ concat_text (w.name ∷ infix_text ∷ out.stamp ∷ [])
  | some name ↦ if name == "" then concat_text (w.name ∷ infix_text ∷ out.stamp ∷ []) else name
]

-- the workloads in the order of their restore are powered on and have to become healthy
unfoldable pub start_workloads : DrOutside → String → List (Workload × Json) → Action Fields
start_workloads out label [] = pure end
start_workloads out label ((w, result) ∷ rest) = do
  call (powered_on w.name) (out.power_on w.name)
  guard (not (wait_workload_health out w).0)
      (runtime_error (concat_text (label ∷ " workload " ∷ w.name ∷ " failed health checks" ∷ [])))
  others ← start_workloads out label rest
  pure (field w.name (obj (wait_workload_health out w).1) others)

-- whatever powering off says, the next one follows
unfoldable pub power_off_all : DrOutside → List (Workload × Json) → Action (Unit {0})
power_off_all out [] = pure tt
power_off_all out ((w, result) ∷ rest) =
    ignore_error (call (powered_off w.name) (out.power_off w.name)) >> power_off_all out rest

module _ (sha256 : String → String) (cfg : Config) (dr : DrConfig) (out : DrOutside) where
  abbrev pub audit_site : String → String → Fields → Action (Unit {0})
  audit_site now action details =
      update (audit sha256 now "dr-orchestrator" action "site" dr.primary_site (obj details))

  abbrev pub fence_by_command : Action (Unit {0})
  fence_by_command = do
    run_fence out dr.fence.command_env
    run_fence_verification out dr.fence.verify_command_env
    audit_site out.fenced_at "dr.fence" (field "mode" (str "command") end)

  abbrev pub fence_by_hand : Bool → Bool → Action (Unit {0})
  fence_by_hand manual_confirmed automatic = do
    guard automatic (
        runtime_error
          "automatic DR promotion requires fence.mode=command; manual fencing cannot safely auto-failover")
    guard (not manual_confirmed) (
        runtime_error
          "promotion requires --confirm-primary-fenced after the primary workloads/network have been isolated")
    call fence_confirmed (ok tt)
    audit_site out.fenced_at "dr.fence" (field "mode" (str "manual-confirmation") end)

  unfoldable pub fence_primary : Bool → Bool → Action (Unit {0})
  fence_primary manual_confirmed automatic =
      if dr.fence.mode == "command"
      then fence_by_command
      else fence_by_hand manual_confirmed automatic

  -- `execute_restore` with the import that it may make outside
  abbrev pub restore_request : Workload → ℕ → Action Json
  restore_request w rid = do
    result ← write (
        execute_restore sha256 cfg (out.restore w.name) (out.restore_clock w.name) rid
          "dr-orchestrator" false)
    call (imported w.name) (ok result)

  -- one workload of the restore loop
  unfoldable pub restore_workload : ℕ → Workload → PlanRow → Action (Unit {0})
  restore_workload run_id w row = do
    point ← ask (λ db. require (get_point (snapshot_of row) db) (runtime_error ""))
    rid ← write (λ db. answered (
        create_restore_request sha256 (out.request_clock w.name 0) (out.request_clock w.name 1)
          "dr-orchestrator" point w.target_platform (dr_target_name out "-dr-" w)
          (obj (set_field "source_repository" (str dr.replica) w.restore_options))
          RequestStatus.ready db))
    result ← restore_request w rid
    target ← answer (platform cfg w.target_platform)
    answer (out.build_adapter target)
    push_restored (w, result)
    _ ← write (λ db. answered (
        add_dr_workload
          (record {
            run_id = run_id;
            workload_name = w.name;
            source_platform = w.source_platform;
            target_platform = w.target_platform;
            status = "restored";
            snapshot_id = some (snapshot_of row);
            target_name = some (dr_target_name out "-dr-" w);
            result = some result;
            error = none;
          })
          db))
    pure tt

  -- `zip` of the sorted workloads with the plan's rows, which stand in the same order
  unfoldable pub restore_workloads : ℕ → List PlanRow → Action (Unit {0})
  restore_workloads run_id [] = pure tt
  restore_workloads run_id (row ∷ rows) =
      restore_workload run_id row.workload row >> restore_workloads run_id rows

  abbrev pub failover_details : Fields → List (Workload × Json) → Fields
  failover_details health restored =
      field "replica" (str dr.replica)
        (field "health" (obj health) (field "workloads" (arr (names_json (names_of restored))) end))

  -- the body of the `try`; the restored workloads stand with the latest first
  unfoldable pub run_failover : ℕ → Plan → Action Promotion
  run_failover run_id p = do
    call (prepared dr.dr_site) (out.prepare dr.dr_site)
    call (deactivated dr.primary_site) (out.deactivate dr.primary_site true)
    restore_workloads run_id p.rows
    call (activated dr.dr_site) (out.activate dr.dr_site)
    latest_first ← restored_latest_first
    let restored = reverse latest_first
    health ← start_workloads out "DR" restored
    update (
        finish_dr_run out.finished_at run_id true (some (obj (failover_details health restored)))
          none)
    update (
        audit sha256 out.audited_at "dr-orchestrator" "dr.failover.complete" "dr_run"
          (number_text run_id) (obj (failover_details health restored)))
    pure (promoted run_id (failover_details health restored))

  -- the handler of the `try`
  unfoldable pub abandon_failover : ℕ → Error → Action (Unit {0})
  abandon_failover run_id e = do
    call (deactivated dr.dr_site) (out.deactivate dr.dr_site true)
    restored ← restored_latest_first
    power_off_all out restored
    update (
        finish_dr_run out.finished_at run_id false
          (some (obj (field "restored" (arr (names_json (names_of (reverse restored)))) end)))
          (some (error_text e)))
    update (
        audit sha256 out.audited_at "dr-orchestrator" "dr.failover.failed" "dr_run"
          (number_text run_id) (obj (field "error" (str (error_text e)) end)))

  abbrev pub create_run : Action ℕ
  create_run = write (λ db. answered (
      create_dr_run out.started_at Direction.failover dr.primary_site dr.dr_site
        (some (obj (field "replica" (str dr.replica) end))) db))

  -- from the fence on
  unfoldable pub fail_over : Bool → Bool → Plan → Action Promotion
  fail_over confirmed automatic p = do
    fence_primary confirmed automatic
    run_id ← create_run
    clear_restored
    on_error (run_failover run_id p) (abandon_failover run_id)

  -- the guards before the fence, of which none writes
  abbrev pub check_promotion : Plan → Result (Unit {0})
  check_promotion p =
      if not p.ready
      then err (runtime_error (str_append "DR promotion blocked: " (join_semicolon p.errors)))
      else if is_empty (preflight cfg dr out p).problems
      then ok tt
      else err (
          runtime_error (
            str_append "DR promotion preflight failed before fencing primary: "
              (join_semicolon (preflight cfg dr out p).problems)))

  abbrev pub execute_promotion : Bool → Bool → Plan → Action Promotion
  execute_promotion confirmed automatic p = do
    active ← ask (λ db. ok (already_failed_over db))
    if active
        then pure already_active
        else answer (check_promotion p) >> fail_over confirmed automatic p

  unfoldable pub promote : Bool → Bool → Bool → Action Promotion
  promote execute confirmed automatic = do
    p ← ask (plan cfg dr out)
    if execute then execute_promotion confirmed automatic p else pure (planned p)
