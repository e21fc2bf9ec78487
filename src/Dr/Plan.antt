-- ===== src/Dr/Plan.antt =====
-- `plan` and `preflight` of src/immutavault/dr.py, which read the catalog and ask outside.
pub mod Ready
use immutavault.Json.{Json}
use immutavault.Json.Print.{decimal}
use immutavault.Catalog.Rows.{Direction, RunStatus, Point, DrRun, Db}
use immutavault.Catalog.Points.{list_points}
use immutavault.Catalog.DrRuns.{latest_dr_run}
use immutavault.Engine.Config.{Platform, Config, platform, replica}
use immutavault.Engine.Hold.{has_good_copy}
use immutavault.Engine.Restore.{error_text}
use immutavault.Engine.Retention.{sorted_set}
use immutavault.Dr.Config.{Workload, DrConfig, DrOutside}
use immutavault.Prelude.{
  ℕ, String, Bool, true, false, not, ◌||◌, ◌&&◌, Option, none, some, List, [], ◌∷◌, ◌++◌, map, ltb,
  eqb, ◌==◌, is_empty, if◌then◌else◌, Result, ok, err, ◌>>=◌, ◌>>◌, raise_if, runtime_error,
}
use immutavault.Prelude.Order.{str_ltb}
use Prim.Native.String.{◌++◌ as str_append}

-- the pieces of an f-string
abbrev pub concat_text : List String → String
concat_text [] = ""
concat_text (s ∷ ss) = str_append s (concat_text ss)

abbrev pub number_text : ℕ → String
number_text n = decimal n ""

-- the first point of the list that is of the machine of that name
abbrev pub point_named : String → List Point → Option Point
point_named name [] = none
point_named name (p ∷ ps) = if p.vm_name == name then some p else point_named name ps

unfoldable pub latest_workload_point : Workload → Db → Option Point
latest_workload_point workload db =
    point_named workload.name (list_points (some workload.source_platform) none 1000 db)

-- the order of `(boot_order, name)`
abbrev pub boots_before : Workload → Workload → Bool
boots_before a b =
    ltb a.boot_order b.boot_order || (eqb a.boot_order b.boot_order && str_ltb a.name b.name)

abbrev pub insert_workload : Workload → List Workload → List Workload
insert_workload w [] = w ∷ []
insert_workload w (x ∷ xs) =
    let rest = insert_workload w xs in if boots_before x w then x ∷ rest else w ∷ x ∷ xs

-- `sorted(…, key=lambda x: (x.boot_order, x.name))`
abbrev pub boot_sorted : List Workload → List Workload
boot_sorted [] = []
boot_sorted (w ∷ ws) = insert_workload w (boot_sorted ws)

-- what a row says where a point has been found
pub record Candidate : Type 0 where
  pub snapshot_id : String
  pub created_at : String
  pub rpo_minutes : ℕ
  pub verified : Bool
  pub suspicious : Bool
  pub replica_ready : Bool

pub record PlanRow : Type 0 where
  pub workload : Workload
  pub source : Platform
  pub target : Platform
  pub candidate : Option Candidate
  pub error : Option String

pub record Plan : Type 0 where
  pub ready : Bool
  pub networks : Json × Json
  pub rows : List PlanRow
  pub errors : List String

abbrev pub complaint : Bool → Workload → List String → List String
complaint false w text = []
complaint true w text = concat_text (w.name ∷ text) ∷ []

-- `_enabled`
abbrev pub check_enabled : DrConfig → Result (Unit {0})
check_enabled dr = raise_if (not dr.enabled) (runtime_error "disaster_recovery.enabled is false")

abbrev pub candidate_of : DrConfig → DrOutside → Point → Db → Candidate
candidate_of dr out point db = record {
  snapshot_id = point.snapshot_id;
  created_at = point.created_at;
  rpo_minutes = out.rpo_minutes point.created_at;
  verified = point.verified;
  suspicious = point.suspicious;
  replica_ready = has_good_copy point.snapshot_id dr.replica db;
}

abbrev pub candidate_errors : DrConfig → Workload → Candidate → List String
candidate_errors dr w c =
    complaint (not c.verified) w (": latest recovery point is not verified" ∷ [])
    ++ complaint c.suspicious w (": latest recovery point is anomaly-flagged" ∷ [])
    ++ complaint (ltb dr.rpo_max_minutes c.rpo_minutes) w (
        ": latest point is "
        ∷ number_text c.rpo_minutes
        ∷ " minutes old; DR RPO limit is "
        ∷ number_text dr.rpo_max_minutes
        ∷ [])
    ++ complaint (not c.replica_ready) w
        (": latest point is not present on DR replica " ∷ dr.replica ∷ [])

abbrev pub refused_row : Workload → Platform → Platform → String → PlanRow × List String
refused_row w src dst message = (
  record { workload = w; source = src; target = dst; candidate = none; error = some message },
  message ∷ [],
)

-- the row of a workload within one hypervisor family, with its latest point
unfoldable pub row_at :
    DrConfig
    → DrOutside
    → Db
    → Workload
    → Platform
    → Platform
    → Option Point
    → PlanRow × List String
row_at dr out db w src dst none =
    refused_row w src dst (concat_text (w.name ∷ ": no recovery point found on " ∷ src.name ∷ []))
row_at dr out db w src dst (some point) = (
  record {
    workload = w;
    source = src;
    target = dst;
    candidate = some (candidate_of dr out point db);
    error = none;
  },
  candidate_errors dr w (candidate_of dr out point db),
)

unfoldable pub row_of :
    DrConfig → DrOutside → Db → Workload → Platform → Platform → PlanRow × List String
row_of dr out db w src dst =
    if not (src.type == dst.type)
    then refused_row w src dst (
        concat_text (
          w.name ∷ ": cross-hypervisor automatic DR is blocked (" ∷ src.type ∷ " -> " ∷ dst.type
          ∷ "); configure the same hypervisor family or a tested conversion plugin" ∷ []))
    else row_at dr out db w src dst (latest_workload_point w db)

-- one pass of the loop: its row and its errors
unfoldable pub plan_row :
    Config → DrConfig → DrOutside → Db → Workload → Result (PlanRow × List String)
plan_row cfg dr out db w = do
  src ← platform cfg w.source_platform
  dst ← platform cfg w.target_platform
  ok (row_of dr out db w src dst)

unfoldable pub plan_rows :
    Config → DrConfig → DrOutside → Db → List Workload → Result (List PlanRow × List String)
plan_rows cfg dr out db [] = ok ([], [])
plan_rows cfg dr out db (w ∷ ws) = do
  row ← plan_row cfg dr out db w
  rest ← plan_rows cfg dr out db ws
  ok (row.0 ∷ rest.0, row.1 ++ rest.1)

unfoldable pub plan : Config → DrConfig → DrOutside → Db → Result Plan
plan cfg dr out db = do
  check_enabled dr
  planned ← plan_rows cfg dr out db (boot_sorted dr.workloads)
  primary ← out.net_plan dr.primary_site
  standby ← out.net_plan dr.dr_site
  ok (record {
    ready = is_empty planned.1;
    networks = (primary, standby);
    rows = planned.0;
    errors = planned.1;
  })

-- what `preflight` finds of the replica, of each target and of the gateway
pub record Preflight : Type 0 where
  pub problems : List String
  pub plan_ready : Bool
  pub replica : Result (Bool × List String)
  pub targets : List (String × List String)
  pub gateway : Result (Bool × String)

abbrev pub prefixed : String → List String → List String
prefixed s ts = map (λ t. str_append s t) ts

abbrev pub replica_problems : Result (Bool × List String) → List String
replica_problems (ok (true, problems)) = []
replica_problems (ok (false, problems)) = prefixed "DR replica: " problems
replica_problems (err e) = str_append "DR replica preflight failed: " (error_text e) ∷ []

abbrev pub gateway_problems : Result (Bool × String) → List String
gateway_problems (ok (true, error)) = []
gateway_problems (ok (false, error)) =
    str_append "DR gateway preflight failed: "
      (if error == "" then "unreachable or missing prerequisites" else error)
    ∷ []
gateway_problems (err e) = str_append "DR gateway preflight failed: " (error_text e) ∷ []

-- an exception of the adapter is an issue
abbrev pub issues_or_error : Result (List String) → List String
issues_or_error (ok issues) = issues
issues_or_error (err e) = error_text e ∷ []

abbrev pub target_issues : Config → DrOutside → String → String × List String
target_issues cfg out name = (name, issues_or_error (platform cfg name >>= out.doctor))

abbrev pub target_problems : List (String × List String) → List String
target_problems [] = []
target_problems ((name, issues) ∷ rest) =
    prefixed (concat_text ("target " ∷ name ∷ ": " ∷ [])) issues ++ target_problems rest

abbrev pub target_platforms : DrConfig → List String
target_platforms dr = sorted_set (map (λ (w : Workload). w.target_platform) dr.workloads)

-- `preflight` of a plan; it is fine where there are no problems
unfoldable pub preflight : Config → DrConfig → DrOutside → Plan → Preflight
preflight cfg dr out p =
    let answered = replica cfg dr.replica >>= out.replica_health in
    let targets = map (target_issues cfg out) (target_platforms dr) in
    let gateway = out.net_preflight dr.dr_site in
    record {
      problems =
          p.errors
          ++ replica_problems answered
          ++ target_problems targets
          ++ gateway_problems gateway;
      plan_ready = p.ready;
      replica = answered;
      targets = targets;
      gateway = gateway;
    }

abbrev pub started_of : Option (DrRun × Json) → Option String
started_of none = none
started_of (some (r, details)) = some r.started_at

-- `bool(failover and (not failback or …))` on the two times
abbrev pub is_after : Option String → Option String → Bool
is_after none failback = false
is_after (some failover) none = true
is_after (some failover) (some failback) = str_ltb failback failover

unfoldable pub already_failed_over : Db → Bool
already_failed_over db =
    is_after (started_of (latest_dr_run (some Direction.failover) (some RunStatus.success) db))
      (started_of (latest_dr_run (some Direction.failback) (some RunStatus.success) db))
