-- ===== src/Catalog/Copies.antt =====
-- Copies of a recovery point on storage targets: `upsert_recovery_copy`, `list_recovery_copies`,
-- `get_recovery_copy` and `mark_copy_verified` of src/immutavault/state.py.
pub mod Keys
use immutavault.Json.{Json, obj, end, dumped, loads_or_empty, or_empty_object}
use immutavault.Catalog.Rows.{CopyStatus, Copy, Db}
use immutavault.Prelude.{
  String, Bool, ◌&&◌, Option, none, some, List, [], ◌∷◌, map, ◌==◌, or_default, if◌then◌else◌,
}
use immutavault.Prelude.Order.{str_ltb}
use immutavault.Prelude.Table.{select_first, select_all, update_where, upsert}

-- `WHERE snapshot_id=? AND target_name=?`, the primary key
abbrev pub is_copy : String → String → Copy → Bool
is_copy snapshot_id target_name c = c.snapshot_id == snapshot_id && c.target_name == target_name

abbrev pub copied_if_success : String → CopyStatus → Option String
copied_if_success now CopyStatus.success = some now
copied_if_success now CopyStatus.failed = none

-- the arguments of `upsert_recovery_copy`
pub record CopyArgs : Type 0 where
  pub snapshot_id : String
  pub target_name : String
  pub backend : String
  pub provider : Option String
  pub repository : String
  pub status : CopyStatus
  pub immutable_until : Option String
  pub object_lock : Option Json
  pub error : Option String
  pub verified : Bool

-- the row that `excluded` names, with the two readings of `utcnow`
abbrev pub copy_row : String → String → CopyArgs → Copy
copy_row now_copied now_verified a = record {
  snapshot_id = a.snapshot_id;
  target_name = a.target_name;
  backend = a.backend;
  provider = a.provider;
  repository = a.repository;
  status = a.status;
  copied_at = copied_if_success now_copied a.status;
  verified = a.verified;
  verified_at = if a.verified then some now_verified else none;
  immutable_until = a.immutable_until;
  object_lock_json = dumped (or_empty_object a.object_lock);
  error = a.error;
}

-- On a conflict every column but the key takes the new value: the new row under the old key.
abbrev pub excluded_into : Copy → Copy → Copy
excluded_into new old = record new { snapshot_id = old.snapshot_id; target_name = old.target_name }

unfoldable pub upsert_recovery_copy : String → String → CopyArgs → Db → Db
upsert_recovery_copy now_copied now_verified a db =
    let new = copy_row now_copied now_verified a in
    record db {
      copies = upsert (is_copy a.snapshot_id a.target_name) (excluded_into new) new db.copies;
    }

-- `ORDER BY target_name`: one row into its place
abbrev pub insert_by_target : Copy → List Copy → List Copy
insert_by_target c [] = c ∷ []
insert_by_target c (d ∷ ds) =
    if str_ltb d.target_name c.target_name then d ∷ insert_by_target c ds else c ∷ d ∷ ds

abbrev pub order_by_target : List Copy → List Copy
order_by_target [] = []
order_by_target (c ∷ cs) = insert_by_target c (order_by_target cs)

-- A row as callers get it: its object-lock column is read back, and a garbled one reads as empty.
abbrev pub with_lock : Copy → Copy × Json
with_lock c = (c, loads_or_empty c.object_lock_json)

unfoldable pub list_recovery_copies : String → Db → List (Copy × Json)
list_recovery_copies snapshot_id db =
    map with_lock
      (order_by_target (select_all (λ (c : Copy). c.snapshot_id == snapshot_id) db.copies))

unfoldable pub get_recovery_copy : String → String → Db → Option (Copy × Json)
get_recovery_copy snapshot_id target_name db =
    elim (select_first (is_copy snapshot_id target_name) db.copies) [
      | none ↦ none
      | some c ↦ some (with_lock c)
    ]

abbrev pub with_copy_verdict : String → Bool → Option String → Copy → Copy
with_copy_verdict now verified error c = record c {
  verified = verified;
  verified_at = if verified then some now else none;
  error = error;
}

unfoldable pub mark_copy_verified : String → String → String → Bool → Option String → Db → Db
mark_copy_verified now snapshot_id target_name verified error db = record db {
  copies =
      update_where (is_copy snapshot_id target_name) (with_copy_verdict now verified error)
        db.copies;
}
