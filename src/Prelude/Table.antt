-- ===== src/Prelude/Table.antt =====
-- What the program asks of a SQLite table: a list of rows in rowid order.
use mathlib.Core.Option
use mathlib.Core.Option.{Option, none, some}
use mathlib.Core.Path.{◌≡◌, refl, ap, subst}
use mathlib.Core.Bool.{Bool, true, ◌&&◌}
use mathlib.Core.Logic.{inl, inr}
use mathlib.Core.List.{List, [], ◌∷◌, map}
use Prim.Native.Nat.{ℕ, suc}
use Prim.Native.String.{String}
use native.Mathlib.Omega.{arith}
use immutavault.Prelude.Tests.{if◌then◌else◌, Bool-cases, some_eq}
use immutavault.Prelude.Lists.{length, All, any}
use immutavault.Prelude.Order.{str_ltb}

module _ {ℓ} {A : Type ℓ} where
  -- `SELECT … WHERE p`, `fetchone`
  abbrev pub select_first : (A → Bool) → List A → Option A
  select_first p [] = none
  select_first p (x ∷ xs) = if p x then some x else select_first p xs

  -- `SELECT … WHERE p`, `fetchall`
  abbrev pub select_all : (A → Bool) → List A → List A
  select_all p [] = []
  select_all p (x ∷ xs) = let rest = select_all p xs in if p x then x ∷ rest else rest

  -- `UPDATE … SET f WHERE p`
  abbrev pub update_where : (A → Bool) → (A → A) → List A → List A
  update_where p f = map (λ x. if p x then f x else x)

  -- `DELETE … WHERE p`, as `INSERT OR REPLACE` does it to the row in conflict
  abbrev pub delete_where : (A → Bool) → List A → List A
  delete_where p [] = []
  delete_where p (x ∷ xs) = let rest = delete_where p xs in if p x then rest else x ∷ rest

  -- `SELECT COUNT(*) … WHERE p`
  abbrev pub count_where : (A → Bool) → List A → ℕ
  count_where p xs = length (select_all p xs)

  -- `INSERT … ON CONFLICT DO UPDATE SET f`, where `p` tells the row in conflict
  abbrev pub upsert : (A → Bool) → (A → A) → A → List A → List A
  upsert p f new [] = new ∷ []
  upsert p f new (x ∷ xs) = if p x then f x ∷ xs else x ∷ upsert p f new xs

  -- the row of the greatest id: rows stand in id order
  abbrev pub last_row : List A → Option A
  last_row [] = none
  last_row (x ∷ []) = some x
  last_row (x ∷ y ∷ xs) = last_row (y ∷ xs)

  -- one row into its place under `ORDER BY key DESC`; rows of one key keep their order
  abbrev pub insert_desc : (A → String) → A → List A → List A
  insert_desc key x [] = x ∷ []
  insert_desc key x (y ∷ ys) =
      if str_ltb (key x) (key y) then y ∷ insert_desc key x ys else x ∷ y ∷ ys

  -- `ORDER BY key DESC`
  abbrev pub order_desc : (A → String) → List A → List A
  order_desc key [] = []
  order_desc key (x ∷ xs) = insert_desc key x (order_desc key xs)

module _ {ℓ} {A : Type ℓ} where
  -- A selection by columns that `g` leaves alone finds the row that `g` has changed.
  pub select_first-map :
      (q : A → Bool) (g : A → A) (xs : List A)
      → ((x : A) → q (g x) ≡ q x)
      → select_first q (map g xs) ≡ Option.map g (select_first q xs)
  select_first-map q g [] h = refl
  select_first-map q g (x ∷ xs) h = elim (Bool-cases (q x)) [
    | inl found ↦ rw (h x, found)
    | inr other ↦ rw (h x, other) (select_first-map q g xs h)
  ]

  pub length-map : (g : A → A) (xs : List A) → length (map g xs) ≡ length xs
  length-map g [] = refl
  length-map g (x ∷ xs) = ap suc (length-map g xs)

  pub select_first-holds :
      (q : A → Bool) (xs : List A) (x : A) → select_first q xs ≡ some x → q x ≡ true
  select_first-holds q [] x h = cc
  select_first-holds q (y ∷ ys) x h = ground (arith, select_first-holds q ys x)

module _ {ℓ κ} {A : Type ℓ} (P : A → Type κ) where
  pub All-map : (g : A → A) (xs : List A) → ((x : A) → P x → P (g x)) → All P xs → All P (map g xs)
  All-map g [] h ps = ps
  All-map g (x ∷ xs) h ps = (h x ps.0, All-map g xs h ps.1)

  pub All-select_first :
      (q : A → Bool) (xs : List A) (x : A) → All P xs → select_first q xs ≡ some x → P x
  All-select_first q [] x ps h = cc
  All-select_first q (y ∷ ys) x ps h = elim (Bool-cases (q y)) [
    | inl found ↦ subst P (some_eq (rw found at h)) ps.0
    | inr other ↦ All-select_first q ys x ps.1 (rw other at h)
  ]

module _ {ℓ κ} {A : Type ℓ} {B : Type κ} where
  -- A search among the selected columns is one search among the rows.
  pub any-select_all :
      (r : B → Bool) (f : A → B) (p : A → Bool) (xs : List A)
      → any r (map f (select_all p xs)) ≡ any (λ x. p x && r (f x)) xs
  any-select_all r f p [] = refl
  any-select_all r f p (x ∷ xs) = elim (Bool-cases (p x)) [
    | inl chosen ↦ rw (chosen, any-select_all r f p xs)
    | inr skipped ↦ rw (skipped, any-select_all r f p xs)
  ]

module _ {ℓ} {A : Type ℓ} where
  pub any-map_mono :
      (q : A → Bool) (g : A → A) (xs : List A)
      → All (λ x. q x ≡ true → q (g x) ≡ true) xs
      → any q xs ≡ true
      → any q (map g xs) ≡ true
  any-map_mono q g [] h k = k
  any-map_mono q g (x ∷ xs) h k = elim (Bool-cases (q x)) [
    | inl found ↦ rw (h.0 found)
    | inr other ↦ ground (arith, any-map_mono q g xs h.1)
  ]

module _ {ℓ} {A : Type ℓ} where
  pub select_all-holds : (p : A → Bool) (xs : List A) → All (λ x. p x ≡ true) (select_all p xs)
  select_all-holds p [] = tt
  select_all-holds p (x ∷ xs) = elim (Bool-cases (p x)) [
    | inl chosen ↦ rw chosen (chosen, select_all-holds p xs)
    | inr skipped ↦ rw skipped (select_all-holds p xs)
  ]

module _ {ℓ κ} {A : Type ℓ} (Q : A → Type κ) where
  -- What holds of the selected rows holds of every row that passes the test.
  pub All-of_select_all :
      (p : A → Bool) (xs : List A) → All Q (select_all p xs) → All (λ x. p x ≡ true → Q x) xs
  All-of_select_all p [] h = tt
  All-of_select_all p (x ∷ xs) h = elim (Bool-cases (p x)) [
    | inl chosen ↦
        let h' : Q x × All Q (select_all p xs) = rw chosen at h in
        (λ _. h'.0, All-of_select_all p xs h'.1)
    | inr skipped ↦ (λ passes. cc, All-of_select_all p xs (rw skipped at h))
  ]
