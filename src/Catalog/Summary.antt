-- ===== src/Catalog/Summary.antt =====
-- `list_vms` and `status_summary` of src/immutavault/state.py.
pub mod Counts
use immutavault.Catalog.Rows.{JobStatus, RequestStatus, RunStatus, Job, Point, Request, DrRun, Db}
use immutavault.Catalog.Requests.{status_text}
use immutavault.Prelude.{
  ℕ, ◌+◌, String, Bool, true, false, not, ◌&&◌, ◌||◌, Option, none, some, List, [], ◌∷◌, map, ◌==◌,
  if◌then◌else◌,
}
use immutavault.Prelude.Order.{str_ltb, str_max}
use immutavault.Prelude.Table.{select_all, count_where, order_desc}
use mathlib.Core.List.{head?, foldl}

-- one row of the `GROUP BY` of `list_vms`
pub record VmRow : Type 0 where
  pub platform : String
  pub platform_type : String
  pub vm_id : String
  pub vm_name : String
  pub latest_point : String
  pub restore_points : ℕ
  pub has_verified_point : Bool
  pub has_suspicious_point : Bool

abbrev pub same_group : Point → VmRow → Bool
same_group p r =
    r.platform == p.platform
    && r.platform_type == p.platform_type
    && r.vm_id == p.vm_id
    && r.vm_name == p.vm_name

abbrev pub first_of_group : Point → VmRow
first_of_group p = record {
  platform = p.platform;
  platform_type = p.platform_type;
  vm_id = p.vm_id;
  vm_name = p.vm_name;
  latest_point = p.created_at;
  restore_points = 1;
  has_verified_point = p.verified;
  has_suspicious_point = p.suspicious;
}

abbrev pub grown_group : Point → VmRow → VmRow
grown_group p r = record r {
  latest_point = str_max r.latest_point p.created_at;
  restore_points = r.restore_points + 1;
  has_verified_point = r.has_verified_point || p.verified;
  has_suspicious_point = r.has_suspicious_point || p.suspicious;
}

abbrev pub into_groups : List VmRow → Point → List VmRow
into_groups [] p = first_of_group p ∷ []
into_groups (r ∷ rs) p = if same_group p r then grown_group p r ∷ rs else r ∷ into_groups rs p

-- `(platform, vm_name)` of the first is less
abbrev pub before_row : VmRow → VmRow → Bool
before_row a b =
    str_ltb a.platform b.platform || (a.platform == b.platform && str_ltb a.vm_name b.vm_name)

abbrev pub insert_row : VmRow → List VmRow → List VmRow
insert_row r [] = r ∷ []
insert_row r (s ∷ rows) = if before_row s r then s ∷ insert_row r rows else r ∷ s ∷ rows

abbrev pub order_rows : List VmRow → List VmRow
order_rows [] = []
order_rows (r ∷ rows) = insert_row r (order_rows rows)

unfoldable pub list_vms : Db → List VmRow
list_vms db =
    order_rows (foldl into_groups [] (select_all (λ (p : Point). not p.expired) db.points))

-- `SELECT status, COUNT(*) … GROUP BY status`, with the statuses as their words
abbrev pub count_status : List (String × ℕ) → String → List (String × ℕ)
count_status [] s = (s, 1) ∷ []
count_status ((t, n) ∷ rest) s = if t == s then (t, n + 1) ∷ rest else (t, n) ∷ count_status rest s

abbrev pub job_text : JobStatus → String
job_text JobStatus.running = "running"
job_text JobStatus.success = "success"
job_text JobStatus.failed = "failed"

abbrev pub run_text : RunStatus → String
run_text RunStatus.running = "running"
run_text RunStatus.success = "success"
run_text RunStatus.failed = "failed"

abbrev pub is_success_job : Job → Bool
is_success_job j = job_text j.status == "success"

abbrev pub is_failed_job : Job → Bool
is_failed_job j = job_text j.status == "failed"

-- `ORDER BY finished_at DESC` puts NULL last.
abbrev pub finished_key : Job → String
finished_key j = elim j.finished_at [ none ↦ "" | some t ↦ t ]

pub record Summary : Type 0 where
  pub jobs : List (String × ℕ)
  pub points_total : ℕ
  pub points_verified : ℕ
  pub points_suspicious : ℕ
  pub restore_requests : List (String × ℕ)
  pub dr_runs : List (String × ℕ)
  pub last_dr_run : Option DrRun
  pub last_successful_backup : Option Job
  pub last_failed_backup : Option Job

unfoldable pub status_summary : Db → Summary
status_summary db = record {
  jobs = foldl count_status [] (map (λ (j : Job). job_text j.status) db.jobs);
  points_total = count_where (λ (p : Point). not p.expired) db.points;
  points_verified = count_where (λ (p : Point). not p.expired && p.verified) db.points;
  points_suspicious = count_where (λ (p : Point). not p.expired && p.suspicious) db.points;
  restore_requests =
      foldl count_status [] (map (λ (r : Request). status_text r.status) db.requests);
  dr_runs = foldl count_status [] (map (λ (r : DrRun). run_text r.status) db.runs);
  last_dr_run = head? (order_desc (λ (r : DrRun). r.started_at) db.runs);
  last_successful_backup = head? (order_desc finished_key (select_all is_success_job db.jobs));
  last_failed_backup = head? (order_desc finished_key (select_all is_failed_job db.jobs));
}
