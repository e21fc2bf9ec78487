-- ===== src/Dr/Failback.antt =====
-- The way back: `demote_dr` and `failback` of src/immutavault/dr.py.
use immutavault.Json.{Json, Fields, num, str, obj, end, field, set_field}
use immutavault.Catalog.Rows.{Direction, RunStatus, RequestStatus, DrRun, DrWorkload, Db}
use immutavault.Catalog.Audit.{audit}
use immutavault.Catalog.Points.{get_point}
use immutavault.Catalog.Requests.{create_restore_request}
use immutavault.Catalog.DrRuns.{
  create_dr_run, finish_dr_run, add_dr_workload, list_dr_workloads, latest_dr_run,
}
use immutavault.Engine.Backup.{BackupReport, backed_up, backup_failed, would_export, backup_vm}
use immutavault.Engine.Backup.All.{info_or_error}
use immutavault.Engine.Backup.Files.{Vm}
use immutavault.Engine.Config.{Config, platform}
use immutavault.Engine.Restore.{error_text, require}
use immutavault.Dr.Config.{Workload, DrConfig, DrOutside}
use immutavault.Dr.Action.{
  prepared, activated, deactivated, powered_off, Action, ◌>>=◌, ◌>>◌, pure, answer, ask, call,
  write, update, push_restored, restored_latest_first, clear_restored, guard, on_error,
}
use immutavault.Dr.Plan.{check_enabled, boot_sorted, already_failed_over, number_text, concat_text}
use immutavault.Dr.Promote.{answered, start_workloads, restore_request}
use immutavault.Prelude.{
  ℕ, String, Bool, true, false, not, Option, none, some, List, [], ◌∷◌, ◌==◌, if◌then◌else◌, Error,
  Result, ok, err, runtime_error, value_error,
}
use mathlib.Core.List.{reverse}

-- what the two operations answer
pub data Return : Type 0 where
  nothing_to_demote : Return
  no_active_failover : Return
  return_plan : ℕ → List (DrWorkload × Json) → Return
  demoted : ℕ → List (DrWorkload × Json) → Return
  failed_back : ℕ → Fields → Return

-- `by_name`, in which the last of several workloads of one name stands
abbrev pub workload_named : String → List Workload → Option Workload
workload_named name [] = none
workload_named name (w ∷ ws) = elim (workload_named name ws) [
  | some later ↦ some later
  | none ↦ if w.name == name then some w else none
]

abbrev pub last_failover : Db → Option (DrRun × Json)
last_failover db = latest_dr_run (some Direction.failover) (some RunStatus.success) db

abbrev pub key_error : String → Error
key_error name = value_error (concat_text ("'" ∷ name ∷ "'" ∷ []))

-- `next((vm for vm in … if vm.name == item["target_name"]), None)`
abbrev pub vm_named : Option String → List Vm → Option Vm
vm_named none vms = none
vm_named (some name) [] = none
vm_named (some name) (vm ∷ vms) = if vm.name == name then some vm else vm_named (some name) vms

abbrev pub text_of : Option String → String
text_of none = "None"
text_of (some s) = s

-- the snapshot of a final backup that has succeeded
abbrev pub final_snapshot : Workload → BackupReport → Result String
final_snapshot w (backed_up s) = ok s.snapshot
final_snapshot w (backup_failed message) =
    err (runtime_error (concat_text ("final backup failed for " ∷ w.name ∷ ": " ∷ message ∷ [])))
final_snapshot w (would_export path) =
    err (runtime_error (concat_text ("final backup failed for " ∷ w.name ∷ ": None" ∷ [])))

-- `final_points`, in which the last of several snapshots of one name stands
abbrev pub snapshot_for : String → List (String × String) → Option String
snapshot_for name [] = none
snapshot_for name ((other, snapshot) ∷ rest) = elim (snapshot_for name rest) [
  | some later ↦ some later
  | none ↦ if other == name then some snapshot else none
]

abbrev pub snapshots_json : List (String × String) → Fields
snapshots_json [] = end
snapshots_json ((name, snapshot) ∷ rest) = set_field name (str snapshot) (snapshots_json rest)

module _ (sha256 : String → String) (cfg : Config) (dr : DrConfig) (out : DrOutside) where
  -- the workloads of the DR site, the latest first; a name that the settings have lost is passed over
  unfoldable pub demote_workloads : List (DrWorkload × Json) → Action (Unit {0})
  demote_workloads [] = pure tt
  demote_workloads ((item, result) ∷ rest) = elim (workload_named item.workload_name dr.workloads) [
    | none ↦ demote_workloads rest
    | some w ↦ do
      target ← answer (platform cfg w.target_platform)
      answer (out.build_adapter target)
      call (powered_off w.name) (out.power_off w.name)
      demote_workloads rest
  ]

  abbrev pub demote_run : DrRun → List (DrWorkload × Json) → Action Return
  demote_run last workloads = do
    call (deactivated dr.dr_site) (out.deactivate dr.dr_site false)
    demote_workloads (reverse workloads)
    update (
        audit sha256 out.audited_at "dr-orchestrator" "dr.demote" "site" dr.dr_site
          (obj (field "failover_run" (num last.id) end)))
    pure (demoted last.id workloads)

  unfoldable pub demote_dr : Bool → Action Return
  demote_dr execute = do
    answer (check_enabled dr)
    last ← ask (λ db. ok (last_failover db))
    elim last [
      | none ↦ pure nothing_to_demote
      | some (run, details) ↦ do
        workloads ← ask (λ db. ok (list_dr_workloads run.id db))
        _ ← answer (out.net_plan dr.dr_site)
        if execute then demote_run run workloads else pure (return_plan run.id workloads)
    ]

  -- the final backup of one workload on the DR site
  unfoldable pub final_backup_of : DrWorkload → Action (String × String)
  final_backup_of item = do
    w ←
        answer
          (require (workload_named item.workload_name dr.workloads) (key_error item.workload_name))
    source ← answer (platform cfg w.target_platform)
    answer (out.build_adapter source)
    vms ← answer (out.inventory w.name)
    vm ← answer (
        require (vm_named item.target_name vms) (
          runtime_error (
            concat_text (
              "cannot find active DR VM "
              ∷ text_of item.target_name
              ∷ " for final failback backup"
              ∷ []))))
    report ← write (
        backup_vm sha256 cfg (out.final_times w.name) source vm
          (info_or_error (out.platform_info w.name)) (out.final_backup w.name vm) false)
    snapshot ← answer (final_snapshot w report)
    pure (w.name, snapshot)

  unfoldable pub final_backups : List (DrWorkload × Json) → Action (List (String × String))
  final_backups [] = pure []
  final_backups ((item, result) ∷ rest) = do
    first ← final_backup_of item
    others ← final_backups rest
    pure (first ∷ others)

  abbrev pub failback_name : Workload → String
  failback_name w = concat_text (w.name ∷ "-failback-" ∷ out.stamp ∷ [])

  -- one workload back on the primary site
  unfoldable pub restore_primary : ℕ → List (String × String) → Workload → Action (Unit {0})
  restore_primary run_id finals w = do
    snapshot ← answer (require (snapshot_for w.name finals) (key_error w.name))
    point ← ask (λ db. require (get_point snapshot db) (runtime_error ""))
    rid ← write (λ db. answered (
        create_restore_request sha256 (out.request_clock w.name 0) (out.request_clock w.name 1)
          "dr-orchestrator" point w.source_platform (failback_name w) (obj w.restore_options)
          RequestStatus.ready db))
    result ← restore_request sha256 cfg dr out w rid
    target ← answer (platform cfg w.source_platform)
    answer (out.build_adapter target)
    push_restored (w, result)
    _ ← write (λ db. answered (
        add_dr_workload
          (record {
            run_id = run_id;
            workload_name = w.name;
            source_platform = w.target_platform;
            target_platform = w.source_platform;
            status = "restored";
            snapshot_id = some point.snapshot_id;
            target_name = some (failback_name w);
            result = some result;
            error = none;
          })
          db))
    pure tt

  unfoldable pub restore_all_primary :
      ℕ → List (String × String) → List Workload → Action (Unit {0})
  restore_all_primary run_id finals [] = pure tt
  restore_all_primary run_id finals (w ∷ ws) =
      restore_primary run_id finals w >> restore_all_primary run_id finals ws

  -- the machines of the DR site go off, the latest first; here a failure raises
  unfoldable pub withdraw_workloads : List (DrWorkload × Json) → Action (Unit {0})
  withdraw_workloads [] = pure tt
  withdraw_workloads ((item, result) ∷ rest) = do
    w ←
        answer
          (require (workload_named item.workload_name dr.workloads) (key_error item.workload_name))
    target ← answer (platform cfg w.target_platform)
    answer (out.build_adapter target)
    call (powered_off w.name) (out.power_off w.name)
    withdraw_workloads rest

  abbrev pub failback_details : DrRun → Fields → List (String × String) → Fields
  failback_details last health finals =
      field "source_failover_run" (num last.id)
        (field "health" (obj health) (field "final_snapshots" (obj (snapshots_json finals)) end))

  -- the body of the `try`
  unfoldable pub run_failback : ℕ → DrRun → List (DrWorkload × Json) → Action Return
  run_failback run_id last workloads = do
    call (prepared dr.primary_site) (out.prepare dr.primary_site)
    call (deactivated dr.primary_site) (out.deactivate dr.primary_site false)
    finals ← final_backups workloads
    restore_all_primary run_id finals (boot_sorted dr.workloads)
    call (deactivated dr.dr_site) (out.deactivate dr.dr_site false)
    withdraw_workloads (reverse workloads)
    call (activated dr.primary_site) (out.activate dr.primary_site)
    latest_first ← restored_latest_first
    health ← start_workloads out "failback" (reverse latest_first)
    let details = failback_details last health finals
    update (finish_dr_run out.finished_at run_id true (some (obj details)) none)
    update (
        audit sha256 out.audited_at "dr-orchestrator" "dr.failback.complete" "dr_run"
          (number_text run_id) (obj details))
    pure (failed_back run_id details)

  unfoldable pub abandon_failback : ℕ → Error → Action (Unit {0})
  abandon_failback run_id e = do
    update (finish_dr_run out.finished_at run_id false none (some (error_text e)))
    update (
        audit sha256 out.audited_at "dr-orchestrator" "dr.failback.failed" "dr_run"
          (number_text run_id) (obj (field "error" (str (error_text e)) end)))

  abbrev pub execute_failback : DrRun → List (DrWorkload × Json) → Action Return
  execute_failback last workloads = do
    run_id ← write (λ db. answered (
        create_dr_run out.started_at Direction.failback dr.dr_site dr.primary_site
          (some (obj (field "source_failover_run" (num last.id) end))) db))
    clear_restored
    on_error (run_failback run_id last workloads) (abandon_failback run_id)

  unfoldable pub failback : Bool → Bool → Action Return
  failback execute confirmed = do
    answer (check_enabled dr)
    last ← ask (λ db. ok (last_failover db))
    active ← ask (λ db. ok (already_failed_over db))
    elim last [
      | none ↦ pure no_active_failover
      | some (run, details) ↦ do
        workloads ← ask (λ db. ok (list_dr_workloads run.id db))
        if not active
            then pure no_active_failover
            else if not execute
            then pure (return_plan run.id workloads)
            else guard (not confirmed) (
                runtime_error
                  "failback requires --confirm-primary-isolated: original primary workloads must be powered off/isolated before same-IP recovery")
              >> execute_failback run workloads
    ]
