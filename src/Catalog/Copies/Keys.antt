-- ===== src/Catalog/Copies/Keys.antt =====
-- `upsert_recovery_copy` and `get_recovery_copy` by the key of the table.
use immutavault.Json.{loads_or_empty, or_empty_object}
use immutavault.Catalog.Rows.{Copy, Db}
use immutavault.Catalog.Copies.{
  is_copy, CopyArgs, copy_row, excluded_into, upsert_recovery_copy, get_recovery_copy,
}
use immutavault.Prelude.{
  String, ◌≡◌, refl, ap, false, ◌&&◌, some, List, [], ◌∷◌, ◌==◌, eq_iff, eq_refl, arith, Bool-cases,
  inl, inr,
}
use immutavault.Prelude.Table.{select_first, upsert}

-- a new row under the old key, which is its own
excluded_into-same :
    (new old : Copy)
    → old.snapshot_id ≡ new.snapshot_id
    → old.target_name ≡ new.target_name
    → excluded_into new old ≡ new
excluded_into-same new old s t = rw (s, t) refl

-- the row of a key after a write under that key
select_first-upsert :
    (snapshot_id target_name : String) (new : Copy) (rows : List Copy)
    → new.snapshot_id ≡ snapshot_id
    → new.target_name ≡ target_name
    → select_first
        (is_copy snapshot_id target_name)
        (upsert (is_copy snapshot_id target_name) (excluded_into new) new rows)
      ≡ some new
select_first-upsert snapshot_id target_name new [] s t =
    rw (s, t, eq_refl snapshot_id, eq_refl target_name) refl
select_first-upsert snapshot_id target_name new (r ∷ rows) s t =
    elim (Bool-cases (is_copy snapshot_id target_name r)) [
      | inl same ↦
          let own : r.snapshot_id ≡ new.snapshot_id =
            ground (arith, eq_iff r.snapshot_id snapshot_id) in
          let name : r.target_name ≡ new.target_name =
            ground (arith, eq_iff r.target_name target_name) in
          rw same (rw same (ap some (excluded_into-same new r own name)))
      | inr other ↦ rw other (rw other (select_first-upsert snapshot_id target_name new rows s t))
    ]

select_first-upsert_ne :
    (snapshot_id target_name other_id other_name : String) (new : Copy) (rows : List Copy)
    → new.snapshot_id ≡ snapshot_id
    → new.target_name ≡ target_name
    → (snapshot_id == other_id && target_name == other_name) ≡ false
    → select_first
        (is_copy other_id other_name)
        (upsert (is_copy snapshot_id target_name) (excluded_into new) new rows)
      ≡ select_first (is_copy other_id other_name) rows
select_first-upsert_ne snapshot_id target_name other_id other_name new [] s t ne =
    ground (arith, s, t)
select_first-upsert_ne snapshot_id target_name other_id other_name new (r ∷ rows) s t ne = ground (
  arith,
  eq_iff r.snapshot_id snapshot_id,
  eq_iff r.target_name target_name,
  select_first-upsert_ne snapshot_id target_name other_id other_name new rows s t ne,
)

-- get_recovery_copy finds under its key the row that upsert_recovery_copy has just written, with
-- the object lock that was given or an empty one.
pub upsert_recovery_copy-stores :
    (now_copied now_verified : String) (a : CopyArgs) (db : Db)
    → get_recovery_copy a.snapshot_id a.target_name
        (upsert_recovery_copy now_copied now_verified a db)
      ≡ some (copy_row now_copied now_verified a, or_empty_object a.object_lock)
unfolding upsert_recovery_copy get_recovery_copy loads_or_empty
upsert_recovery_copy-stores now_copied now_verified a db =
    rw
      (
        select_first-upsert a.snapshot_id a.target_name (copy_row now_copied now_verified a)
            db.copies refl refl,
        get_recovery_copy,
      )
      refl

-- upsert_recovery_copy leaves what get_recovery_copy finds under any other key.
pub upsert_recovery_copy-keeps :
    (now_copied now_verified other_id other_name : String) (a : CopyArgs) (db : Db)
    → (a.snapshot_id == other_id && a.target_name == other_name) ≡ false
    → get_recovery_copy other_id other_name (upsert_recovery_copy now_copied now_verified a db)
      ≡ get_recovery_copy other_id other_name db
unfolding upsert_recovery_copy get_recovery_copy
upsert_recovery_copy-keeps now_copied now_verified other_id other_name a db ne =
    rw
      (
        select_first-upsert_ne a.snapshot_id a.target_name other_id other_name
            (copy_row now_copied now_verified a) db.copies refl refl ne,
        get_recovery_copy,
      )
      refl
