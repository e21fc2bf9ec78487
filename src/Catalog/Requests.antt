-- ===== src/Catalog/Requests.antt =====
-- Restore requests: `create_restore_request`, `get_restore_request`, `list_restore_requests`,
-- `approve_restore`, `start_restore` and `finish_restore` of src/immutavault/state.py.
pub mod Approval
pub mod Sound
pub mod Machine
use immutavault.Json.{Json, obj, field, end, str, dumped, or_empty_object}
use immutavault.Json.Print.{decimal}
use immutavault.Catalog.Rows.{RequestStatus, Request, Point, Db}
use immutavault.Catalog.Audit.{audit}
use immutavault.Prelude.{
  ℕ, ◌+◌, String, Bool, true, false, ◌&&◌, Option, none, some, List, [], ◌∷◌, ◌++◌, take, eqb, ◌==◌,
  or_default, if◌then◌else◌, Result, ok, err, value_error, permission_error, raise_if, ◌>>=◌, ◌>>◌,
  not,
}
use immutavault.Prelude.Table.{select_first, update_where, order_desc}
use Prim.Native.String.{◌++◌ as str_append}

-- the word in the column, as the messages quote it
abbrev pub status_text : RequestStatus → String
status_text RequestStatus.pending_approval = "pending_approval"
status_text RequestStatus.ready = "ready"
status_text RequestStatus.approved = "approved"
status_text RequestStatus.running = "running"
status_text RequestStatus.success = "success"
status_text RequestStatus.failed = "failed"

abbrev pub is_pending : RequestStatus → Bool
is_pending RequestStatus.pending_approval = true
is_pending _ = false

-- `in {"approved", "ready"}`
abbrev pub may_start : RequestStatus → Bool
may_start RequestStatus.approved = true
may_start RequestStatus.ready = true
may_start _ = false

abbrev pub is_request : ℕ → Request → Bool
is_request id r = eqb r.id id

abbrev pub request_text : ℕ → String
request_text id = decimal id ""

unfoldable pub get_restore_request : ℕ → Db → Option Request
get_restore_request id db = select_first (is_request id) db.requests

unfoldable pub list_restore_requests : ℕ → Db → List Request
list_restore_requests limit db = take limit (order_desc (λ (r : Request). r.created_at) db.requests)

-- The row that `create_restore_request` inserts.
abbrev pub new_request :
    ℕ → String → String → Point → String → String → Json → RequestStatus → Request
new_request id now requester point target_platform target_name options status = record {
  id = id;
  created_at = now;
  requester = requester;
  snapshot_id = point.snapshot_id;
  source_platform = point.platform;
  vm_id = point.vm_id;
  vm_name = point.vm_name;
  target_platform = target_platform;
  target_name = target_name;
  options_json = dumped options;
  status = status;
  approved_by = none;
  approved_at = none;
  started_at = none;
  finished_at = none;
  result_json = none;
  error = none;
}

abbrev pub approved_request : String → String → Request → Request
approved_request now approver r = record r {
  status = RequestStatus.approved;
  approved_by = some approver;
  approved_at = some now;
}

abbrev pub started_request : String → Request → Request
started_request now r = record r { status = RequestStatus.running; started_at = some now }

abbrev pub finished_request : String → Bool → Option Json → Option String → Request → Request
finished_request now success result error r = record r {
  status = if success then RequestStatus.success else RequestStatus.failed;
  finished_at = some now;
  result_json = some (dumped (or_empty_object result));
  error = error;
}

-- the guards of `approve_restore`, in their order
unfoldable pub approval_check : Bool → String → Option Request → Result (Unit {0})
approval_check four_eyes approver none = err (value_error "restore request not found")
approval_check four_eyes approver (some req) = do
  raise_if (not (is_pending req.status)) (
      value_error (str_append "restore request is not pending approval: " (status_text req.status)))
  raise_if (four_eyes && req.requester == approver)
      (permission_error "four-eyes policy requires a different approver")

-- the guards of `start_restore`, in their order
unfoldable pub start_check : Option Request → Result Request
start_check none = err (value_error "restore request not found")
start_check (some req) = do
  raise_if (not (may_start req.status)) (
      value_error
        (str_append "restore request cannot execute from status " (status_text req.status)))
  ok req

module _ (sha256 : String → String) where
  -- `now` and `now'` are the readings of `utcnow` for the row and for the audit event.
  unfoldable pub create_restore_request :
      String → String → String → Point → String → String → Json → RequestStatus → Db → ℕ × Db
  create_restore_request now now' requester point target_platform target_name options status db =
      let rid = db.sequences.requests + 1 in
      let db' = record db {
        requests =
            db.requests
            ++ new_request rid now requester point target_platform target_name options status ∷ [];
        sequences = record (db.sequences) { requests = rid };
      } in
      (
        rid,
        audit sha256 now' requester "restore.request" "restore_request" (request_text rid)
            (obj (field "snapshot_id" (str point.snapshot_id) end)) db',
      )

  unfoldable pub approve_restore : String → String → ℕ → String → Bool → Db → Result (Unit {0}) × Db
  approve_restore now now' request_id approver four_eyes db =
      elim (approval_check four_eyes approver (get_restore_request request_id db)) [
        | err e ↦ (err e, db)
        | ok _ ↦ (
          ok tt,
          audit sha256 now' approver "restore.approve" "restore_request" (request_text request_id)
              (obj end)
              (record db {
                requests =
                    update_where (is_request request_id) (approved_request now approver)
                      db.requests;
              }),
        )
      ]

  -- the database after the two writes of `start_restore`
  abbrev pub started_db : String → String → ℕ → String → Db → Db
  started_db now now' request_id actor db =
      audit sha256 now' actor "restore.execute" "restore_request" (request_text request_id)
        (obj end)
        (record db {
          requests = update_where (is_request request_id) (started_request now) db.requests;
        })

  unfoldable pub start_restore : String → String → ℕ → String → Db → Result Request × Db
  start_restore now now' request_id actor db =
      elim (start_check (get_restore_request request_id db)) [
        | err e ↦ (err e, db)
        | ok req ↦
            let db' = started_db now now' request_id actor db in
            (ok (or_default (get_restore_request request_id db') req), db')
      ]

unfoldable pub finish_restore : String → ℕ → Bool → Option Json → Option String → Db → Db
finish_restore now request_id success result error db = record db {
  requests =
      update_where (is_request request_id) (finished_request now success result error) db.requests;
}
