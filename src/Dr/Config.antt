-- ===== src/Dr/Config.antt =====
-- The settings of disaster recovery, from src/immutavault/dr_config.py, and what the code outside
-- answers to the orchestrator.
use immutavault.Json.{Json, Fields}
use immutavault.Engine.Config.{Platform, Replica}
use immutavault.Engine.Restore.{RestoreOutcomes}
use immutavault.Engine.Backup.Replicas.{Times}
use immutavault.Engine.Backup.Files.{Vm, BackupOutcomes}
use immutavault.Prelude.{ℕ, String, Bool, Option, List, Result}

-- the part of `HealthCheckConfig` that the orchestrator reads itself
pub record HealthCheck : Type 0 where
  pub kind : String
  pub attempts : ℕ
  pub interval_seconds : ℕ

-- `DRVMConfig`
pub record Workload : Type 0 where
  pub name : String
  pub source_platform : String
  pub target_platform : String
  pub boot_order : ℕ
  pub target_name : Option String
  pub health_checks : List HealthCheck
  pub restore_options : Fields

-- `FenceConfig`
pub record Fence : Type 0 where
  pub mode : String
  pub command_env : Option String
  pub verify_command_env : Option String

-- `DRConfig`
pub record DrConfig : Type 0 where
  pub enabled : Bool
  pub primary_site : String
  pub dr_site : String
  pub replica : String
  pub rpo_max_minutes : ℕ
  pub auto_failover : Bool
  pub failure_threshold : ℕ
  pub check_interval_seconds : ℕ
  pub primary_failure_quorum : ℕ
  pub maintenance_file : String
  pub primary_probes : List HealthCheck
  pub fence : Fence
  pub workloads : List Workload

-- What gateways, adapters, replicas, commands and clocks answer in one call of the orchestrator.
-- A function of a name or a platform answers for each of them; `health w n` is the `n`-th run of
-- the health checks of a workload.
pub record DrOutside : Type 0 where
  pub rpo_minutes : String → ℕ
  pub net_plan : String → Result Json
  pub replica_health : Replica → Result (Bool × List String)
  pub doctor : Platform → Result (List String)
  pub net_preflight : String → Result (Bool × String)
  pub run_command : String → Result (Unit {0})
  pub prepare : String → Result (Unit {0})
  pub activate : String → Result (Unit {0})
  pub deactivate : String → Bool → Result (Unit {0})
  pub stamp : String
  pub restore : String → RestoreOutcomes
  pub restore_clock : String → ℕ → String
  pub request_clock : String → ℕ → String
  pub build_adapter : Platform → Result (Unit {0})
  pub power_on : String → Result (Unit {0})
  pub power_off : String → Result (Unit {0})
  pub health : Workload → ℕ → Bool × Fields
  pub inventory : String → Result (List Vm)
  pub platform_info : String → Result Json
  pub final_backup : String → Vm → BackupOutcomes
  pub final_times : String → Times
  pub fenced_at : String
  pub started_at : String
  pub finished_at : String
  pub audited_at : String
