-- ===== src/Catalog/Points/Lookup.antt =====
-- `latest_point` finds the newest live point of a VM.
use immutavault.Catalog.Rows.{Point, Db}
use immutavault.Catalog.Points.{latest_point}
use immutavault.Prelude.{
  String, ◌≡◌, ◌≢◌, refl, sym, ◌∙◌, Bool, true, false, not, ◌&&◌, Option, none, some, List, [], ◌∷◌,
  ◌==◌, if◌then◌else◌, arith, All, All-mono, Bool-cases, Option-cases, inl, inr, some_eq,
}
use immutavault.Prelude.Order.{str_ltb, str_ltb_irrefl, str_ltb_asymm, le_trans_str}
use immutavault.Prelude.Table.{
  select_all, select_all-holds, All-of_select_all, insert_desc, order_desc,
}
use mathlib.Core.List.{head?}

module _ {ℓ} {A : Type ℓ} (key : A → String) where
  -- the first of a row and the rows behind it
  abbrev newer : A → Option A → A
  newer x none = x
  newer x (some y) = if str_ltb (key x) (key y) then y else x

  head-insert_desc :
      (x : A) (ys : List A) → head? (insert_desc key x ys) ≡ some (newer x (head? ys))
  head-insert_desc x [] = refl
  head-insert_desc x (y ∷ ys) = ground arith

  -- no key of the list is greater
  abbrev pub IsNewest : A → List A → Type 0
  IsNewest m xs = All (λ x. str_ltb (key m) (key x) ≡ false) xs

  newer-ge : (x : A) (o : Option A) → str_ltb (key (newer x o)) (key x) ≡ false
  newer-ge x none = str_ltb_irrefl (key x)
  newer-ge x (some y) = ground (arith, str_ltb_irrefl (key x), str_ltb_asymm (key x) (key y))

  newer-ge_head : (x y : A) → str_ltb (key (newer x (some y))) (key y) ≡ false
  newer-ge_head x y = ground (arith, str_ltb_irrefl (key y))

  head-order_desc-none : (x : A) (xs : List A) → head? (order_desc key (x ∷ xs)) ≢ none
  head-order_desc-none x xs h = cc (h, head-insert_desc x (order_desc key xs))

  none-All {κ} : (P : A → Type κ) (xs : List A) → head? (order_desc key xs) ≡ none → All P xs
  none-All P [] h = tt
  none-All P (x ∷ xs) h = absurd (head-order_desc-none x xs h)

  head-order_desc-holds :
      (p : A → Bool) (xs : List A) (m : A)
      → All (λ x. p x ≡ true) xs
      → head? (order_desc key xs) ≡ some m
      → p m ≡ true
  head-order_desc-holds p [] m hs h = cc
  head-order_desc-holds p (x ∷ xs) m hs h =
      let e = some_eq (sym (head-insert_desc x (order_desc key xs)) ∙ h) in
      elim (Option-cases (head? (order_desc key xs))) [
        | inl nothing ↦ rw (← e, nothing) hs.0
        | inr (y, found) ↦ elim (Bool-cases (str_ltb (key x) (key y))) [
          | inl less ↦ rw (← e, found, less) (head-order_desc-holds p xs y hs.1 found)
          | inr more ↦ rw (← e, found, more) hs.0
        ]
      ]

  -- The head of `ORDER BY key DESC` has the greatest key.
  pub head-order_desc-IsNewest :
      (xs : List A) (m : A) → head? (order_desc key xs) ≡ some m → IsNewest m xs
  head-order_desc-IsNewest [] m h = tt
  head-order_desc-IsNewest (x ∷ xs) m h =
      let e : newer x (head? (order_desc key xs)) ≡ m =
        some_eq (sym (head-insert_desc x (order_desc key xs)) ∙ h) in
      (
        rw (← e) (newer-ge x (head? (order_desc key xs))),
        elim (Option-cases (head? (order_desc key xs))) [
          | inl nothing ↦ none-All (λ z. str_ltb (key m) (key z) ≡ false) xs nothing
          | inr (y, found) ↦
              All-mono (λ z. str_ltb (key y) (key z) ≡ false) _ xs
                (λ z le.
                  le_trans_str (key z) (key y) (key m) le (rw (← e, found) (newer-ge_head x y)))
                (head-order_desc-IsNewest xs y found)
        ],
      )

-- the test of `latest_point`
abbrev pub is_point_of : String → String → Point → Bool
is_point_of platform vm_id p = p.platform == platform && p.vm_id == vm_id && not p.expired

-- The point that latest_point returns is a live point of the VM, and no live point of the VM was
-- created later.
pub latest_point-IsNewest :
    (platform vm_id : String) (db : Db) (p : Point)
    → latest_point platform vm_id db ≡ some p
    → (is_point_of platform vm_id p ≡ true)
      × All
          (λ q. is_point_of platform vm_id q ≡ true → str_ltb p.created_at q.created_at ≡ false)
          db.points
unfolding latest_point
latest_point-IsNewest platform vm_id db p h =
    let key = λ (q : Point). q.created_at in
    let test = is_point_of platform vm_id in
    (
      head-order_desc-holds key test (select_all test db.points) p (select_all-holds test db.points)
          h,
      All-of_select_all (λ (q : Point). str_ltb p.created_at q.created_at ≡ false) test db.points
          (head-order_desc-IsNewest key (select_all test db.points) p h),
    )

-- Where latest_point finds nothing, the VM has no live point.
pub latest_point-none :
    (platform vm_id : String) (db : Db)
    → latest_point platform vm_id db ≡ none
    → All (λ q. is_point_of platform vm_id q ≡ true → ⊥) db.points
unfolding latest_point
latest_point-none platform vm_id db h =
    let key = λ (q : Point). q.created_at in
    let test = is_point_of platform vm_id in
    All-of_select_all (λ q. ⊥) test db.points (none-All key (λ q. ⊥) (select_all test db.points) h)
