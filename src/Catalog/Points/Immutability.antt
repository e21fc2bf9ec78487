-- ===== src/Catalog/Points/Immutability.antt =====
-- Immutability of recovery points: a point's `immutable_until` is never moved to an earlier time.
use immutavault.Catalog.Rows.{Point, Db}
use immutavault.Catalog.Audit.{audit}
use immutavault.Catalog.Points.{
  has_id, is_protected, protected_snapshot_ids, get_point, with_until, extend_immutability,
}
use immutavault.Catalog.Points.Keys.{HasUniqueIds, HasUniqueIds-found, get_point-update}
use immutavault.Prelude.{
  String, ◌≡◌, refl, Bool, true, false, ◌&&◌, none, some, map, any, ◌==◌, if◌then◌else◌, ok, err,
  value_error, arith, All, All-mono, Bool-cases, Option-cases, inl, inr,
}
use immutavault.Prelude.Order.{
  str_ltb, str_max, str_max-ge_left, str_max-ge_right, lt_le_trans, str_ltb_irrefl,
}
use immutavault.Prelude.Table.{update_where, any-select_all, any-map_mono}

-- The texts `select_all` finds under the condition of `protected_snapshot_ids`, as a test.
abbrev pub shields : String → Db → String → Bool
shields at db snapshot_id = any (λ id. id == snapshot_id) (protected_snapshot_ids at db)

-- a row with the same key and expiry whose hold does not end earlier
abbrev pub NotShorter : Point → Point → Type 0
NotShorter p q =
    (p.snapshot_id ≡ q.snapshot_id)
    × (p.expired ≡ q.expired)
    × (str_ltb q.immutable_until p.immutable_until ≡ false)

-- the test that `shields` makes of a row
abbrev pub shields_row : String → String → Point → Bool
shields_row at id p = is_protected at p && p.snapshot_id == id

pub shields-eq-any :
    (at id : String) (db : Db) → shields at db id ≡ any (shields_row at id) db.points
unfolding protected_snapshot_ids
shields-eq-any at id db =
    any-select_all (λ i. i == id) (λ (p : Point). p.snapshot_id) (is_protected at) db.points

shields_row-NotShorter :
    (at id : String) (p q : Point)
    → NotShorter p q
    → shields_row at id p ≡ true
    → shields_row at id q ≡ true
shields_row-NotShorter at id p q h k =
    ground (arith, lt_le_trans at p.immutable_until q.immutable_until)

-- A map of the rows that shortens no hold keeps every protected id.
pub keeps_shields :
    (at id : String) (g : Point → Point) (db db' : Db)
    → db'.points ≡ map g db.points
    → All (λ p. NotShorter p (g p)) db.points
    → shields at db id ≡ true
    → shields at db' id ≡ true
keeps_shields at id g db db' same h k =
    rw (shields-eq-any at id db', same)
      (any-map_mono (shields_row at id) g db.points
        (All-mono (λ p. NotShorter p (g p)) _ db.points (λ p. shields_row-NotShorter at id p (g p))
          h)
        (rw (shields-eq-any at id db) at k))

pub NotShorter-refl : (p : Point) → NotShorter p p
NotShorter-refl p = (refl, refl, str_ltb_irrefl p.immutable_until)

module _ (sha256 : String → String) (now snapshot_id immutable_until actor reason : String) where
  -- an unknown point is refused, and nothing is written
  pub extend_immutability-unknown :
      (db : Db)
      → get_point snapshot_id db ≡ none
      → extend_immutability sha256 now snapshot_id immutable_until actor reason db
        ≡ (err (value_error "unknown recovery point"), db)
  unfolding extend_immutability
  extend_immutability-unknown db h = rw (h, extend_immutability)

  extend_immutability-found :
      (db : Db) (row : Point)
      → get_point snapshot_id db ≡ some row
      → let (r, db') = extend_immutability sha256 now snapshot_id immutable_until actor reason db in
        (r ≡ ok (str_max row.immutable_until immutable_until))
        × (db'.points
            ≡ update_where
                (has_id snapshot_id)
                (with_until (str_max row.immutable_until immutable_until))
                db.points)
  unfolding extend_immutability audit get_point
  extend_immutability-found db row h = (rw (h, extend_immutability), rw (h, extend_immutability))

  -- With unique keys, a point that is protected at a time is still protected at that time after any
  -- call of extend_immutability.
  pub extend_immutability-keeps :
      (at id : String) (db : Db)
      → HasUniqueIds db.points
      → shields at db id ≡ true
      → shields at (extend_immutability sha256 now snapshot_id immutable_until actor reason db).1 id
        ≡ true
  extend_immutability-keeps at id db unique held = elim (Option-cases (get_point snapshot_id db)) [
    | inl missing ↦ rw (extend_immutability-unknown db missing) held
    | inr (row, found) ↦
        let until = str_max row.immutable_until immutable_until in
        keeps_shields at id (λ p. if has_id snapshot_id p then with_until until p else p) db _
          (extend_immutability-found db row found).1
          (All-mono (λ p. has_id snapshot_id p ≡ true → p ≡ row) _ db.points
            (λ p only. elim (Bool-cases (has_id snapshot_id p)) [
              | inl same ↦
                  rw (same, only same)
                    (refl, refl, str_max-ge_left row.immutable_until immutable_until)
              | inr other ↦ rw other (NotShorter-refl p)
            ])
            (HasUniqueIds-found snapshot_id db.points row unique (unfold get_point in found)))
          held
  ]

  -- For a live point, the hold that extend_immutability returns is the one stored, and it is
  -- smaller than neither the old one nor the one asked for.
  pub extend_immutability-stores :
      (db : Db) (row : Point)
      → get_point snapshot_id db ≡ some row
      → let (r, db') = extend_immutability sha256 now snapshot_id immutable_until actor reason db in
        (until : String) × (r ≡ ok until)
        × (get_point snapshot_id db' ≡ some (with_until until row))
        × (str_ltb until row.immutable_until ≡ false)
        × (str_ltb until immutable_until ≡ false)
  extend_immutability-stores db row h =
      let until = str_max row.immutable_until immutable_until in
      let e = extend_immutability-found db row h in
      (
        until,
        e.0,
        get_point-update snapshot_id (with_until until) db _ row e.1 h (λ p. refl),
        str_max-ge_left row.immutable_until immutable_until,
        str_max-ge_right row.immutable_until immutable_until,
      )
