-- ===== src/Tests/Restores.antt =====
-- Restore requests on small data: approval, start, execution and the reachable states.
use immutavault.Json.{Json, null, obj, end, dumped, set_key}
use immutavault.Catalog.Rows.{RequestStatus, Request, Db, empty_db}
use immutavault.Catalog.Requests.{
  may_start, approval_check, start_check, get_restore_request, approved_request,
  create_restore_request, approve_restore, start_restore,
}
use immutavault.Catalog.Requests.Approval.{approve_restore_ok, approve_restore-decides, MayApprove}
use immutavault.Catalog.Requests.Sound.{IsPermitted}
use immutavault.Catalog.Requests.Machine.{Reach, create, approve, start, here, next, four_eyes_hold}
use immutavault.Engine.Config.{Config, platform}
use immutavault.Engine.Restore.{
  RestoreOutcomes, planned, plan_restore, attempt_restore, settle_restore, run_restore,
  execute_restore, after_doctor,
}
use immutavault.Engine.Restore.Settles.{
  settled_request, IsVerifiedRestore, execute_restore-foreseen, execute_restore-settles,
  execute_restore-IsVerifiedRestore,
}
use immutavault.Tests.Data.{tag, old_point, vault}
use immutavault.Prelude.{
  ℕ, String, ◌≡◌, refl, inl, ◌⊎◌, true, false, ◌&&◌, ◌==◌, none, some, [], ◌∷◌, Error, ok, err,
  permission_error,
}
use immutavault.Catalog.Points.{get_point}
use immutavault.Catalog.Audit.{audit}

abbrev requested : Db
requested =
    (create_restore_request tag "1" "2" "ann" old_point "lab" "web-restore" (obj end)
      RequestStatus.pending_approval vault).1

abbrev by_bob : Db
by_bob = (approve_restore tag "3" "4" 1 "bob" true requested).1

bob_may : (approve_restore tag "3" "4" 1 "bob" true requested).0 ≡ ok tt
unfolding approve_restore approval_check get_restore_request create_restore_request audit
bob_may = refl

ann_may_not :
    (approve_restore tag "3" "4" 1 "ann" true requested).0
    ≡ err (permission_error "four-eyes policy requires a different approver")
unfolding approve_restore approval_check get_restore_request create_restore_request audit
ann_may_not = refl

approve_restore_ok_example :
    (req : Request) × (get_restore_request 1 requested ≡ some req)
    × (req.status ≡ RequestStatus.pending_approval)
    × ((true && req.requester == "bob") ≡ false)
    × (get_restore_request 1 (approve_restore tag "3" "4" 1 "bob" true requested).1
        ≡ some (approved_request "3" "bob" req))
approve_restore_ok_example = approve_restore_ok tag "3" "4" 1 "bob" true requested bob_may

approve_restore-decides_example :
    let (r, db') = approve_restore tag "3" "4" 1 "ann" true requested in
    ((r ≡ ok tt) × MayApprove 1 "ann" true requested)
    ⊎ (((e : Error) × (r ≡ err e)) × ¬ MayApprove 1 "ann" true requested × (db' ≡ requested))
approve_restore-decides_example = approve_restore-decides tag "3" "4" 1 "ann" true requested

abbrev pub lab : Config
lab = record {
  repository_url = "/vault";
  keep_within_days = 30;
  platforms =
      record { name = "lab"; type = "proxmox"; enabled = true; include = []; exclude = [] } ∷ [];
  replicas = [];
  protection = record {
    preserve_suspicious_points_days = 90;
    verify_after_backup = true;
    require_four_eyes_restore = true;
  };
}

-- everything outside works
abbrev pub healthy : RestoreOutcomes
healthy = record {
  build_adapter = ok tt;
  repr = λ v. "{}";
  staging = "/staging/1";
  capacity = ok tt;
  doctor = ok [];
  repo_restore = ok tt;
  source_exists = true;
  manifest = ok (true, []);
  adapter_restore = ok null;
}

-- the reading of a clock that stands still
abbrev pub noon : ℕ → String
noon n = "2026-01-08"

imported : (execute_restore tag lab healthy noon 1 "eve" false by_bob).0 ≡ ok null
unfolding execute_restore after_doctor run_restore settle_restore attempt_restore plan_restore
    platform start_restore start_check approve_restore approval_check get_restore_request get_point
    create_restore_request audit set_key
imported = refl

-- Ann's own request does not start before somebody else has approved it.
not_approved : (execute_restore tag lab healthy noon 1 "ann" false requested).1 ≡ requested
unfolding execute_restore after_doctor run_restore settle_restore attempt_restore plan_restore
    platform start_restore start_check approve_restore approval_check get_restore_request get_point
    create_restore_request audit
not_approved = refl

-- the request that Bob has approved
abbrev approved_row : Request
approved_row = record {
  id = 1;
  created_at = "1";
  requester = "ann";
  snapshot_id = "a1";
  source_platform = "lab";
  vm_id = "100";
  vm_name = "web";
  target_platform = "lab";
  target_name = "web-restore";
  options_json = dumped (obj end);
  status = RequestStatus.approved;
  approved_by = some "bob";
  approved_at = some "3";
  started_at = none;
  finished_at = none;
  result_json = none;
  error = none;
}

approved_found : get_restore_request 1 by_bob ≡ some approved_row
unfolding approve_restore approval_check get_restore_request create_restore_request audit
approved_found = refl

-- what a dry run answers for it
abbrev foreseen : Json
foreseen = planned healthy 1 (record {
  request = approved_row;
  point = old_point;
  target = record { name = "lab"; type = "proxmox"; enabled = true; include = []; exclude = [] };
  source_repository = "primary";
  source_replica = none;
})

dry_run : (execute_restore tag lab healthy noon 1 "eve" true by_bob).0 ≡ ok foreseen
unfolding execute_restore plan_restore platform approve_restore approval_check get_restore_request
    get_point create_restore_request audit
dry_run = refl

execute_restore-foreseen_example :
    let (r, db') = execute_restore tag lab healthy noon 1 "eve" false by_bob in
    get_restore_request 1 db' ≡ some (settled_request noon r approved_row)
execute_restore-foreseen_example =
    execute_restore-foreseen tag noon 1 "eve" lab healthy by_bob approved_row foreseen dry_run refl
      refl approved_found refl

execute_restore-settles_example :
    let (r, db') = execute_restore tag lab healthy noon 1 "eve" false by_bob in
    (((e : Error) × (r ≡ err e)) × (db'.requests ≡ by_bob.requests))
    ⊎ ((req : Request) × (get_restore_request 1 by_bob ≡ some req)
        × (may_start req.status ≡ true)
        × (get_restore_request 1 db' ≡ some (settled_request noon r req)))
execute_restore-settles_example = execute_restore-settles tag noon 1 "eve" lab healthy by_bob

execute_restore-IsVerifiedRestore_example : IsVerifiedRestore healthy
execute_restore-IsVerifiedRestore_example =
    execute_restore-IsVerifiedRestore tag noon 1 "eve" lab healthy by_bob null imported

abbrev started : Db
started =
    (start_restore tag "5" "6" 1 "eve"
      (approve_restore tag "3" "4" 1 "bob" true
        (create_restore_request tag "1" "2" "ann" old_point "lab" "web-restore" (obj end)
          RequestStatus.pending_approval empty_db).1).1).1

started-Reach : Reach tag empty_db started
started-Reach =
    next
      (next (next here (create "1" "2" "ann" old_point "lab" "web-restore" (obj end)))
        (approve "3" "4" 1 "bob"))
      (start "5" "6" 1 "eve")

abbrev started_row : Request
started_row = record {
  id = 1;
  created_at = "1";
  requester = "ann";
  snapshot_id = "a1";
  source_platform = "lab";
  vm_id = "100";
  vm_name = "web";
  target_platform = "lab";
  target_name = "web-restore";
  options_json = dumped (obj end);
  status = RequestStatus.running;
  approved_by = some "bob";
  approved_at = some "3";
  started_at = some "5";
  finished_at = none;
  result_json = none;
  error = none;
}

started_found : get_restore_request 1 started ≡ some started_row
unfolding start_restore start_check approve_restore approval_check get_restore_request
    create_restore_request audit
started_found = refl

four_eyes_hold_example : IsPermitted started_row
four_eyes_hold_example =
    four_eyes_hold tag started 1 started_row started-Reach started_found (inl refl)
