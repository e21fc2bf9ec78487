-- ===== src/Tests/Dr.antt =====
-- Disaster recovery of one virtual machine.
use immutavault.Dr.Plan.Ready.{IsReady, plan-IsReady}
use immutavault.Dr.Health.Rounds.{wait_workload_health-IsPatient}
use immutavault.Prelude.Order.{str_ltb}
use immutavault.Engine.Restore.{
  attempt_restore, execute_restore, plan_restore, run_restore, settle_restore, after_doctor,
}
use immutavault.Catalog.Requests.{
  create_restore_request, finish_restore, get_restore_request, start_check, start_restore,
}
use immutavault.Catalog.Copies.{get_recovery_copy, upsert_recovery_copy}
use immutavault.Catalog.Points.{list_points, get_point}
use immutavault.Catalog.Audit.{audit}
use immutavault.Catalog.DrRuns.{latest_dr_run, add_dr_workload, create_dr_run, finish_dr_run}
use immutavault.Json.{
  null, obj, end, cons, nil, field, get_field, loads_or_empty, set_field, set_key,
}
use immutavault.Catalog.Rows.{Db, empty_db}
use immutavault.Engine.Config.{Replica, Config, replica, platform}
use immutavault.Dr.Config.{HealthCheck, Workload, DrConfig, DrOutside}
use immutavault.Dr.Action.{
  fence_confirmed, prepared, activated, deactivated, imported, powered_on, World, ask, ◌>>=◌,
  answer, call, update, clear_restored, continue, handle, on_error, pure, push_restored,
  restored_latest_first, write,
}
use immutavault.Dr.Plan.{
  Plan, candidate_of, candidate_errors, plan, plan_row, plan_rows, already_failed_over,
  latest_workload_point, preflight, row_of, row_at,
}
use immutavault.Dr.Promote.{
  promote, fail_over, fence_primary, restore_workload, restore_workloads, run_failover,
  start_workloads,
}
use immutavault.Dr.Health.{wait_rounds, wait_workload_health}
use immutavault.Dr.Promote.Fencing.{IsFencedFirst, promote-IsFencedFirst}
use immutavault.Dr.Promote.Blocked.{promote_blocked}
use immutavault.Dr.Sync.{copied_entry, SyncOutside, SyncReport, sync, sync_workloads, sync_workload}
use immutavault.Dr.Sync.Ready.{IsReplicated, sync-IsReplicated}
use immutavault.Dr.Watch.{WatchOutside, watch, back, ahead, time_left}
use immutavault.Dr.Watch.Quiet.{watch_quiet}
use immutavault.Tests.Data.{tag, new_point, vault}
use immutavault.Tests.Restores.{lab, healthy, noon}
use immutavault.Tests.Engine.{dates, exported, proxmox}
use immutavault.Prelude.{
  ◌≡◌, refl, true, false, none, some, [], ◌∷◌, All, ok, leb, ◌↔◌, ◌⊎◌, ◌≤◌, ℕ,
}

abbrev ping : HealthCheck
ping = record { kind = "tcp"; attempts = 3; interval_seconds = 5 }

abbrev web_workload : Workload
web_workload = record {
  name = "web";
  source_platform = "lab";
  target_platform = "lab";
  boot_order = 1;
  target_name = none;
  health_checks = ping ∷ [];
  restore_options = end;
}

abbrev dr : DrConfig
dr = record {
  enabled = true;
  primary_site = "main";
  dr_site = "standby";
  replica = "vault-b";
  rpo_max_minutes = 60;
  auto_failover = true;
  failure_threshold = 3;
  check_interval_seconds = 30;
  primary_failure_quorum = 0;
  maintenance_file = "/run/dr";
  primary_probes = ping ∷ [];
  fence = record { mode = "manual"; command_env = none; verify_command_env = none };
  workloads = web_workload ∷ [];
}

abbrev vault_b : Replica
vault_b = record {
  name = "vault-b";
  backend = "sftp";
  provider = "";
  enabled = true;
  object_lock_enabled = false;
  r2_bucket_lock_enabled = false;
}

abbrev sites : Config
sites = record lab { replicas = vault_b ∷ [] }

-- everything outside works, and the workload is healthy from the second check on
abbrev outside : DrOutside
outside = record {
  rpo_minutes = λ t. 5;
  net_plan = λ site. ok null;
  replica_health = λ r. ok (true, []);
  doctor = λ p. ok [];
  net_preflight = λ site. ok (true, "");
  run_command = λ name. ok tt;
  prepare = λ site. ok tt;
  activate = λ site. ok tt;
  deactivate = λ site forced. ok tt;
  stamp = "20260108";
  restore = λ name. healthy;
  restore_clock = λ name. noon;
  request_clock = λ name. noon;
  build_adapter = λ p. ok tt;
  power_on = λ name. ok tt;
  power_off = λ name. ok tt;
  health = λ w n. (leb 2 n, end);
  inventory = λ name. ok [];
  platform_info = λ name. ok null;
  final_backup = λ name vm. exported;
  final_times = λ name. dates;
  fenced_at = "2026-01-08";
  started_at = "2026-01-08";
  finished_at = "2026-01-08";
  audited_at = "2026-01-08";
}

-- the newest point is verified
abbrev verified_vault : Db
verified_vault = record empty_db {
  points = record new_point { columns = record new_point.columns { verified = true } } ∷ [];
}

abbrev sync_outside : SyncOutside
sync_outside = record {
  copy_snapshot = λ id r days. ok end;
  copied_at = λ id. "2026-01-08";
  audited_at = "2026-01-08";
}

abbrev synced : Db
synced = (sync tag sites dr sync_outside verified_vault).1

abbrev world : World
world = record { db = synced; effects = []; restored = [] }

-- A promotion goes through, in this order (the latest effect stands first).
promoted_in_order :
    (promote tag sites dr outside true true false world).1.effects
    ≡ powered_on "web"
      ∷ activated "standby"
      ∷ imported "web"
      ∷ deactivated "main"
      ∷ prepared "standby"
      ∷ fence_confirmed
      ∷ []
unfolding sync promote ◌>>=◌ ask plan plan_rows plan_row row_of row_at after_doctor platform
    already_failed_over latest_dr_run audit sync_workloads sync_workload latest_workload_point
    list_points get_recovery_copy upsert_recovery_copy answer preflight fail_over fence_primary call
    update add_dr_workload create_dr_run finish_dr_run get_point create_restore_request
    finish_restore get_restore_request start_check start_restore clear_restored continue handle
    on_error pure push_restored restored_latest_first write restore_workload restore_workloads
    run_failover start_workloads wait_rounds wait_workload_health attempt_restore execute_restore
    plan_restore run_restore settle_restore get_field loads_or_empty set_field set_key str_ltb
    replica
promoted_in_order = refl

promote-IsFencedFirst_example :
    IsFencedFirst dr (promote tag sites dr outside true true false world).1.effects
promote-IsFencedFirst_example = promote-IsFencedFirst tag sites dr outside true true false world tt

-- the plan once the newest point is verified and synced
abbrev ready_plan : Plan
ready_plan = record {
  ready = true;
  networks = (null, null);
  rows =
      record {
        workload = web_workload;
        source = proxmox;
        target = proxmox;
        candidate = some (
            candidate_of dr outside
              (record new_point { columns = record new_point.columns { verified = true } }) synced);
        error = none;
      }
      ∷ [];
  errors = [];
}

planned_ready : plan sites dr outside synced ≡ ok ready_plan
unfolding sync plan plan_rows plan_row row_of row_at platform latest_workload_point list_points
    str_ltb get_recovery_copy upsert_recovery_copy sync_workloads sync_workload audit replica
planned_ready = refl

plan-IsReady_example : (true ≡ true) ↔ All (IsReady sites dr outside synced) (web_workload ∷ [])
plan-IsReady_example = plan-IsReady sites dr outside synced ready_plan planned_ready

-- the plan for the vault without verified points
abbrev unready : Plan
unready = record {
  ready = false;
  networks = (null, null);
  rows =
      record {
        workload = web_workload;
        source = proxmox;
        target = proxmox;
        candidate = some (candidate_of dr outside new_point vault);
        error = none;
      }
      ∷ [];
  errors = candidate_errors dr web_workload (candidate_of dr outside new_point vault);
}

abbrev unready_world : World
unready_world = record { db = vault; effects = []; restored = [] }

planned_unready : plan sites dr outside vault ≡ ok unready
unfolding plan plan_rows plan_row row_of row_at platform latest_workload_point list_points str_ltb
    get_recovery_copy
planned_unready = refl

promote_blocked_example :
    (promote tag sites dr outside true true false unready_world).1 ≡ unready_world
unfolding already_failed_over latest_dr_run
promote_blocked_example =
    promote_blocked tag sites dr outside true true false unready_world unready planned_unready refl

abbrev probe_ok : WatchOutside
probe_ok = record {
  in_maintenance = false;
  age = λ t. none;
  probes = (true, obj end) ∷ [];
  now = "2026-01-08";
  now' = "2026-01-08";
}

-- A check of 10.5 seconds ago leaves 289 whole seconds of five minutes, and one from ahead more.
wait_rounded : time_left (back 10500000) 300 ≡ 289
wait_rounded = refl

wait_ahead : time_left (ahead 1500000) 300 ≡ 301
wait_ahead = refl

watch_quiet_example : (watch tag sites dr outside probe_ok world).1.effects ≡ []
watch_quiet_example = watch_quiet tag sites dr outside probe_ok world refl

abbrev report : SyncReport
report = record {
  replica = "vault-b";
  entries = cons (copied_entry web_workload new_point "copied" (field "result" (obj end) end)) nil;
  errors = [];
}

replica_found : replica sites "vault-b" ≡ ok vault_b
unfolding replica
replica_found = refl

synced_all : (sync tag sites dr sync_outside vault).0 ≡ ok report
unfolding sync replica sync_workloads sync_workload latest_workload_point list_points
    get_recovery_copy str_ltb
synced_all = refl

sync-IsReplicated_example :
    All (IsReplicated vault_b (sync tag sites dr sync_outside vault).1) (web_workload ∷ [])
sync-IsReplicated_example =
    sync-IsReplicated tag sites dr sync_outside vault_b report vault replica_found synced_all refl

wait_workload_health-IsPatient_example :
    ((wait_workload_health outside web_workload).0 ≡ true)
    ↔ ((false ≡ true) ⊎ ((k : ℕ) × (1 ≤ k) × (k ≤ 3) × ((outside.health web_workload k).0 ≡ true)))
wait_workload_health-IsPatient_example = wait_workload_health-IsPatient outside web_workload
