-- ===== src/Catalog/Points.antt =====
-- Recovery points: `upsert_recovery_point`, `latest_point`, `protected_snapshot_ids`, `get_point`,
-- `list_points`, `extend_immutability`, `mark_points_expired` and `mark_verified` of
-- src/immutavault/state.py.
pub mod Keys
pub mod Immutability
pub mod Expiry
pub mod Lookup
use immutavault.Json.{Json, obj, field, end, str, dumped, loads_or_empty, set_key, or_empty_object}
use immutavault.Catalog.Rows.{PointColumns, Point, Db}
use immutavault.Catalog.Audit.{audit}
use immutavault.Prelude.{
  ℕ, String, Bool, true, false, not, ◌&&◌, Option, none, some, List, [], ◌∷◌, ◌++◌, map, take, ◌==◌,
  is_empty, or_default, if◌then◌else◌, Result, ok, err, value_error,
}
use immutavault.Prelude.Order.{str_ltb, str_max}
use immutavault.Prelude.Table.{select_first, select_all, update_where, delete_where, order_desc}
use mathlib.Core.List.{head?, foldl}

-- `WHERE snapshot_id=?`
abbrev pub has_id : String → Point → Bool
has_id snapshot_id p = p.snapshot_id == snapshot_id

-- `WHERE snapshot_id=? AND expired=0`
abbrev pub is_live : String → Point → Bool
is_live snapshot_id p = has_id snapshot_id p && not p.expired

-- `INSERT OR REPLACE`: a replaced row is written anew, with the defaults of the other columns.
unfoldable pub upsert_recovery_point : PointColumns → Db → Db
upsert_recovery_point columns db = record db {
  points =
      delete_where (has_id columns.snapshot_id) db.points
      ++ record { columns = columns; expired = false; expired_at = none } ∷ [];
}

unfoldable pub latest_point : String → String → Db → Option Point
latest_point platform vm_id db = head? (
    order_desc (λ (p : Point). p.created_at)
      (select_all (λ p. p.platform == platform && p.vm_id == vm_id && not p.expired) db.points))

-- `immutable_until > at AND expired=0`
abbrev pub is_protected : String → Point → Bool
is_protected at p = str_ltb at p.immutable_until && not p.expired

unfoldable pub protected_snapshot_ids : String → Db → List String
protected_snapshot_ids at db =
    map (λ (p : Point). p.snapshot_id) (select_all (is_protected at) db.points)

unfoldable pub get_point : String → Db → Option Point
get_point snapshot_id db = select_first (is_live snapshot_id) db.points

-- An optional filter: `None` and the empty text ask for nothing.
abbrev pub admits : Option String → String → Bool
admits none value = true
admits (some wanted) value = if wanted == "" then true else value == wanted

unfoldable pub list_points : Option String → Option String → ℕ → Db → List Point
list_points platform vm_id limit db = take limit (
    order_desc (λ (p : Point). p.created_at)
      (select_all (λ p. admits platform p.platform && admits vm_id p.vm_id && not p.expired)
        db.points))

abbrev pub with_until : String → Point → Point
with_until until p = record p { columns = record (p.columns) { immutable_until = until } }

module _ (sha256 : String → String) where
  -- `now` is the reading of `utcnow` in `audit`.
  unfoldable pub extend_immutability :
      String → String → String → String → String → Db → Result String × Db
  unfolding get_point
  extend_immutability now snapshot_id immutable_until actor reason db =
      elim (get_point snapshot_id db) [
        | none ↦ (err (value_error "unknown recovery point"), db)
        | some row ↦
            let new_until = str_max row.immutable_until immutable_until in
            let db' = record db {
              points = update_where (has_id snapshot_id) (with_until new_until) db.points;
            } in
            (
              ok new_until,
              audit sha256 now actor "recovery.hold" "recovery_point" snapshot_id
                  (obj (field "immutable_until" (str new_until) (field "reason" (str reason) end)))
                  db',
            )
      ]

abbrev pub with_expiry : String → Point → Point
with_expiry now p = record p { expired = true; expired_at = some now }

abbrev pub expire_one : String → List Point → String → List Point
expire_one now points snapshot_id = update_where (has_id snapshot_id) (with_expiry now) points

unfoldable pub mark_points_expired : String → List String → Db → Db
mark_points_expired now snapshot_ids db =
    if is_empty snapshot_ids
    then db
    else record db { points = foldl (expire_one now) db.points snapshot_ids }

abbrev pub with_verdict : String → Bool → Json → Point → Point
with_verdict now verified metadata p = record p {
  columns = record (p.columns) {
    verified = verified;
    verified_at = if verified then some now else none;
    metadata_json = dumped metadata;
  };
}

unfoldable pub mark_verified : String → String → Bool → Option Json → Db → Result (Unit {0}) × Db
mark_verified now snapshot_id verified details db =
    elim (select_first (has_id snapshot_id) db.points) [
      | none ↦ (err (value_error "unknown recovery point"), db)
      | some row ↦
          elim (set_key "verification" (or_empty_object details)
            (loads_or_empty row.metadata_json)) [
              | err e ↦ (err e, db)
              | ok metadata ↦ (
                ok tt,
                record db {
                  points =
                      update_where (has_id snapshot_id) (with_verdict now verified metadata)
                        db.points;
                },
              )
            ]
    ]
