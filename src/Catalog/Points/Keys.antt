-- ===== src/Catalog/Points/Keys.antt =====
-- `snapshot_id` as the primary key of `recovery_points`, and lookups by it.
use immutavault.Catalog.Rows.{PointColumns, Point, Db}
use immutavault.Catalog.Points.{has_id, is_live, get_point, upsert_recovery_point}
use immutavault.Prelude.{
  String, ◌≡◌, refl, ap, ◌∙◌, true, false, none, some, List, [], ◌∷◌, ◌++◌, map, ◌==◌, eq_iff,
  if◌then◌else◌, arith, All, All-append, All-mono, Bool-cases, inl, inr, some_eq,
}
use immutavault.Prelude.Table.{
  select_first, update_where, delete_where, select_first-map, select_first-holds,
}
use mathlib.Core.Option
use mathlib.Core.Path.{subst}

-- `snapshot_id` is the primary key: no two rows have the same.
abbrev pub Fresh : String → List Point → Type 0
Fresh id = All (λ (p : Point). (p.snapshot_id == id) ≡ false)

abbrev pub HasUniqueIds : List Point → Type 0
HasUniqueIds [] = Unit
HasUniqueIds (p ∷ ps) = Fresh p.snapshot_id ps × HasUniqueIds ps

Fresh-unfound : (id : String) (ps : List Point) → Fresh id ps → select_first (is_live id) ps ≡ none
Fresh-unfound id [] h = refl
Fresh-unfound id (p ∷ ps) h = rw h.0 (Fresh-unfound id ps h.1)

-- The row that a key finds is the only one with that key.
pub HasUniqueIds-found :
    (id : String) (ps : List Point) (row : Point)
    → HasUniqueIds ps
    → select_first (is_live id) ps ≡ some row
    → All (λ p. has_id id p ≡ true → p ≡ row) ps
HasUniqueIds-found id [] row u h = tt
HasUniqueIds-found id (p ∷ ps) row u h = elim (Bool-cases (is_live id p)) [
  | inl live ↦
      let here : p ≡ row = some_eq (rw live at h) in
      let e : p.snapshot_id ≡ id = (eq_iff p.snapshot_id id).0 (ground arith) in
      (
        λ _. here,
        All-mono (λ (x : Point). (x.snapshot_id == p.snapshot_id) ≡ false) _ ps
            (λ x fresh same. cc (e, fresh, same)) u.0,
      )
  | inr other ↦
      let later : select_first (is_live id) ps ≡ some row = rw other at h in
      (
        λ same. cc (
          Fresh-unfound id ps (subst (λ i. Fresh i ps) ((eq_iff p.snapshot_id id).0 same) u.0),
          later,
        ),
        HasUniqueIds-found id ps row u.1 later,
      )
]

-- A live row that an update by its key has changed.
pub get_point-update :
    (id : String) (f : Point → Point) (db db' : Db) (row : Point)
    → db'.points ≡ update_where (has_id id) f db.points
    → get_point id db ≡ some row
    → ((p : Point) → is_live id (f p) ≡ is_live id p)
    → get_point id db' ≡ some (f row)
unfolding get_point
get_point-update id f db db' row same h live =
    let has : has_id id row ≡ true =
      ground (arith, select_first-holds (is_live id) db.points row h) in
    let g = λ (p : Point). if has_id id p then f p else p in
    ap (select_first (is_live id)) same
    ∙ select_first-map (is_live id) g db.points (λ p. ground (arith, live p))
    ∙ ap (Option.map g) h
    ∙ ap some (rw has)

Fresh-delete_where :
    (id key : String) (ps : List Point) → Fresh id ps → Fresh id (delete_where (has_id key) ps)
Fresh-delete_where id key [] h = tt
Fresh-delete_where id key (p ∷ ps) h = ground (arith, Fresh-delete_where id key ps h.1)

Fresh-deleted : (key : String) (ps : List Point) → Fresh key (delete_where (has_id key) ps)
Fresh-deleted key [] = tt
Fresh-deleted key (p ∷ ps) = elim (Bool-cases (has_id key p)) [
  | inl same ↦ rw same (Fresh-deleted key ps)
  | inr other ↦ rw other (other, Fresh-deleted key ps)
]

HasUniqueIds-delete_where :
    (key : String) (ps : List Point) → HasUniqueIds ps → HasUniqueIds (delete_where (has_id key) ps)
HasUniqueIds-delete_where key [] h = tt
HasUniqueIds-delete_where key (p ∷ ps) h = elim (Bool-cases (has_id key p)) [
  | inl same ↦ rw same (HasUniqueIds-delete_where key ps h.1)
  | inr other ↦
      rw other (Fresh-delete_where p.snapshot_id key ps h.0, HasUniqueIds-delete_where key ps h.1)
]

eq_sym : (s t : String) → (s == t) ≡ false → (t == s) ≡ false
eq_sym s t h = ground (arith, eq_iff s t, eq_iff t s)

HasUniqueIds-append :
    (ps : List Point) (q : Point)
    → HasUniqueIds ps
    → Fresh q.snapshot_id ps
    → HasUniqueIds (ps ++ q ∷ [])
HasUniqueIds-append [] q h fresh = (tt, tt)
HasUniqueIds-append (p ∷ ps) q h fresh = (
  All-append (λ (x : Point). (x.snapshot_id == p.snapshot_id) ≡ false) ps (q ∷ []) h.0
      (eq_sym p.snapshot_id q.snapshot_id fresh.0, tt),
  HasUniqueIds-append ps q h.1 fresh.1,
)

-- upsert_recovery_point keeps the snapshot ids of the table unique.
pub upsert_recovery_point-HasUniqueIds :
    (columns : PointColumns) (db : Db)
    → HasUniqueIds db.points
    → HasUniqueIds (upsert_recovery_point columns db).points
unfolding upsert_recovery_point
upsert_recovery_point-HasUniqueIds columns db h =
    HasUniqueIds-append (delete_where (has_id columns.snapshot_id) db.points) _
      (HasUniqueIds-delete_where columns.snapshot_id db.points h)
      (Fresh-deleted columns.snapshot_id db.points)

Fresh-map :
    (id : String) (g : Point → Point) (ps : List Point)
    → ((p : Point) → (g p).snapshot_id ≡ p.snapshot_id)
    → Fresh id ps
    → Fresh id (map g ps)
Fresh-map id g [] same h = tt
Fresh-map id g (p ∷ ps) same h = (rw (same p) h.0, Fresh-map id g ps same h.1)

-- An update of other columns keeps the primary key unique.
pub HasUniqueIds-map :
    (g : Point → Point) (ps : List Point)
    → ((p : Point) → (g p).snapshot_id ≡ p.snapshot_id)
    → HasUniqueIds ps
    → HasUniqueIds (map g ps)
HasUniqueIds-map g [] same h = tt
HasUniqueIds-map g (p ∷ ps) same h =
    (rw (same p) (Fresh-map p.snapshot_id g ps same h.0), HasUniqueIds-map g ps same h.1)
