-- ===== src/Catalog/DrRuns.antt =====
-- Disaster-recovery runs: `create_dr_run`, `finish_dr_run`, `add_dr_workload`, `list_dr_workloads`
-- and `latest_dr_run` of src/immutavault/state.py.
use immutavault.Json.{Json, dumped, loads_or_empty, or_empty_object}
use immutavault.Catalog.Rows.{RunStatus, Direction, DrRun, DrWorkload, Db}
use immutavault.Prelude.{
  ℕ, ◌+◌, String, Bool, true, false, ◌&&◌, Option, none, some, List, [], ◌∷◌, ◌++◌, map, eqb,
  if◌then◌else◌,
}
use immutavault.Prelude.Table.{select_all, update_where, order_desc}
use mathlib.Core.List.{head?}

abbrev pub same_direction : Direction → Direction → Bool
same_direction Direction.failover Direction.failover = true
same_direction Direction.failback Direction.failback = true
same_direction _ _ = false

abbrev pub same_status : RunStatus → RunStatus → Bool
same_status RunStatus.running RunStatus.running = true
same_status RunStatus.success RunStatus.success = true
same_status RunStatus.failed RunStatus.failed = true
same_status _ _ = false

unfoldable pub create_dr_run : String → Direction → String → String → Option Json → Db → ℕ × Db
create_dr_run now direction source_site target_site details db =
    let id = db.sequences.runs + 1 in
    (
      id,
      record db {
        runs =
            db.runs
            ++ record {
              id = id;
              started_at = now;
              finished_at = none;
              direction = direction;
              source_site = source_site;
              target_site = target_site;
              status = RunStatus.running;
              details_json = dumped (or_empty_object details);
              error = none;
            }
              ∷ [];
        sequences = record (db.sequences) { runs = id };
      },
    )

abbrev pub finished_run : String → Bool → Option Json → Option String → DrRun → DrRun
finished_run now success details error r = record r {
  finished_at = some now;
  status = if success then RunStatus.success else RunStatus.failed;
  details_json = dumped (or_empty_object details);
  error = error;
}

unfoldable pub finish_dr_run : String → ℕ → Bool → Option Json → Option String → Db → Db
finish_dr_run now run_id success details error db = record db {
  runs = update_where (λ r. eqb r.id run_id) (finished_run now success details error) db.runs;
}

-- the arguments of `add_dr_workload`
pub record WorkloadArgs : Type 0 where
  pub run_id : ℕ
  pub workload_name : String
  pub source_platform : String
  pub target_platform : String
  pub status : String
  pub snapshot_id : Option String
  pub target_name : Option String
  pub result : Option Json
  pub error : Option String

unfoldable pub add_dr_workload : WorkloadArgs → Db → ℕ × Db
add_dr_workload a db =
    let id = db.sequences.workloads + 1 in
    (
      id,
      record db {
        workloads =
            db.workloads
            ++ record {
              id = id;
              run_id = a.run_id;
              workload_name = a.workload_name;
              snapshot_id = a.snapshot_id;
              source_platform = a.source_platform;
              target_platform = a.target_platform;
              target_name = a.target_name;
              status = a.status;
              result_json = dumped (or_empty_object a.result);
              error = a.error;
            }
              ∷ [];
        sequences = record (db.sequences) { workloads = id };
      },
    )

-- Rows stand in id order, which is the `ORDER BY`.
unfoldable pub list_dr_workloads : ℕ → Db → List (DrWorkload × Json)
list_dr_workloads run_id db =
    map (λ w. (w, loads_or_empty w.result_json))
      (select_all (λ (w : DrWorkload). eqb w.run_id run_id) db.workloads)

abbrev pub wanted_direction : Option Direction → Direction → Bool
wanted_direction none d = true
wanted_direction (some wanted) d = same_direction d wanted

abbrev pub wanted_status : Option RunStatus → RunStatus → Bool
wanted_status none s = true
wanted_status (some wanted) s = same_status s wanted

abbrev pub is_wanted_run : Option Direction → Option RunStatus → DrRun → Bool
is_wanted_run direction status r =
    wanted_direction direction r.direction && wanted_status status r.status

unfoldable pub latest_dr_run : Option Direction → Option RunStatus → Db → Option (DrRun × Json)
latest_dr_run direction status db =
    elim (head? (
      order_desc (λ (r : DrRun). r.started_at)
        (select_all (is_wanted_run direction status) db.runs))) [
          | none ↦ none
          | some r ↦ some (r, loads_or_empty r.details_json)
        ]
