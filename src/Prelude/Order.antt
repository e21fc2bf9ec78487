-- ===== src/Prelude/Order.antt =====
-- Python's and SQLite's order of texts: lexicographic by code point.
use Prim.Native.Nat.{compare, Ordering}
use Prim.Native.Char.{code}
use Prim.Native.String.{String, [], ◌∷◌}
use mathlib.Core.Path.{◌≡◌, refl}
use mathlib.Core.Logic.{inl, inr}
use mathlib.Core.Bool.{Bool, true, false}
use native.Mathlib.Omega.{arith}
use immutavault.Prelude.Tests.{if◌then◌else◌, Bool-cases}

-- `s < t` for `str`, and for TEXT columns with the default collation.
unfoldable pub str_ltb : String → String → Bool
str_ltb [] [] = false
str_ltb [] (d ∷ t) = true
str_ltb (c ∷ s) [] = false
str_ltb (c ∷ s) (d ∷ t) = elim (compare (code c) (code d)) [
  | Ordering.lt ↦ true
  | Ordering.eq ↦ str_ltb s t
  | Ordering.gt ↦ false
]

-- `max(s, t)`: the first of the two, unless the second is greater.
unfoldable pub str_max : String → String → String
str_max s t = if str_ltb s t then t else s

pub str_ltb_irrefl : (s : String) → str_ltb s s ≡ false
unfolding str_ltb
str_ltb_irrefl [] = refl
str_ltb_irrefl (c ∷ s) = ground (arith, str_ltb_irrefl s)

pub str_ltb_trans : (s t u : String) → str_ltb s t ≡ true → str_ltb t u ≡ true → str_ltb s u ≡ true
unfolding str_ltb
str_ltb_trans [] [] u h k = cc
str_ltb_trans [] (d ∷ t) [] h k = cc
str_ltb_trans [] (d ∷ t) (e ∷ u) h k = refl
str_ltb_trans (c ∷ s) [] u h k = cc
str_ltb_trans (c ∷ s) (d ∷ t) [] h k = cc
str_ltb_trans (c ∷ s) (d ∷ t) (e ∷ u) h k = ground (arith, str_ltb_trans s t u)

-- `s < t` and not `u < t` give `s < u`.
pub lt_le_trans : (s t u : String) → str_ltb s t ≡ true → str_ltb u t ≡ false → str_ltb s u ≡ true
unfolding str_ltb
lt_le_trans [] [] u h k = cc
lt_le_trans [] (d ∷ t) [] h k = cc
lt_le_trans [] (d ∷ t) (e ∷ u) h k = refl
lt_le_trans (c ∷ s) [] u h k = cc
lt_le_trans (c ∷ s) (d ∷ t) [] h k = cc
lt_le_trans (c ∷ s) (d ∷ t) (e ∷ u) h k = ground (arith, lt_le_trans s t u)

-- `s < t` excludes `t < s`.
pub str_ltb_asymm : (s t : String) → str_ltb s t ≡ true → str_ltb t s ≡ false
str_ltb_asymm s t h = elim (Bool-cases (str_ltb t s)) [
  | inl back ↦ cc (str_ltb_trans s t s h back, str_ltb_irrefl s)
  | inr done ↦ done
]

-- Not `t < s` and not `u < t` exclude `u < s`.
pub le_trans_str :
    (s t u : String) → str_ltb t s ≡ false → str_ltb u t ≡ false → str_ltb u s ≡ false
le_trans_str s t u h k = elim (Bool-cases (str_ltb u s)) [
  | inl less ↦ cc (lt_le_trans u s t less h, k)
  | inr done ↦ done
]

pub str_max-ge_left : (s t : String) → str_ltb (str_max s t) s ≡ false
unfolding str_max
str_max-ge_left s t = ground (arith, str_ltb_asymm s t, str_ltb_irrefl s)

pub str_max-ge_right : (s t : String) → str_ltb (str_max s t) t ≡ false
unfolding str_max
str_max-ge_right s t = ground (arith, str_ltb_irrefl t)
