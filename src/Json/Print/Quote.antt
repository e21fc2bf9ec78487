-- ===== src/Json/Print/Quote.antt =====
-- A quoted text can be read back: `quote` is injective, also in the text that follows it.
use Prim.Native.Char.{Char, char, code}
use Prim.Native.String.{String, [], ◌∷◌}
use text.Mathlib.TextEquality.{Char-path}
use immutavault.Json.Print.{
  hex_digit, unicode_escape, short_escape, escape_long, escape_char, quote_rest, quote,
}
use immutavault.Prelude.{
  ℕ, ◌+◌, ◌-◌, ◌*◌, ◌/◌, ◌%◌, ◌<◌, ◌≡◌, refl, sym, ap, ◌⊎◌, true, ◌&&◌, Option, none, some, eqb,
  ltb, leb, if◌then◌else◌, arith, some_eq, ◌∙◌, ◌≢◌, inl, inr, Option-cases, Bool-cases, all_below,
  all_below-holds, eqb→eq,
}

hex_value : Char → ℕ
hex_value c = if leb (code c) 57 then code c - 48 else code c - 87

hex_table : all_below 16 (λ d. eqb (hex_value (hex_digit d)) d) ≡ true
unfolding hex_value hex_digit
hex_table = refl

hex_value-hex_digit : (d : ℕ) → d < 16 → hex_value (hex_digit d) ≡ d
hex_value-hex_digit d h =
    eqb→eq _ _ (all_below-holds 16 (λ x. eqb (hex_value (hex_digit x)) x) d hex_table h)

-- a character is no surrogate
code_scalar : (c : Char) → ((code c < 55296) ⊎ (57343 < code c)) × (code c < 1114112)
code_scalar (char n p) = ground arith

-- the number and the rest that `\\uXXXX` stands before, without the two first characters
read_hex : String → Option (ℕ × String)
read_hex (a ∷ b ∷ c ∷ d ∷ rest) =
    some (hex_value a * 4096 + hex_value b * 256 + hex_value c * 16 + hex_value d, rest)
read_hex _ = none

-- the two halves of a surrogate pair
pair_up : ℕ → Option (ℕ × String) → Option (ℕ × String)
pair_up high none = none
pair_up high (some (low, rest)) = some (65536 + (high - 55296) * 1024 + (low - 56320), rest)

read_low : ℕ → String → Option (ℕ × String)
read_low high (slash ∷ u ∷ rest) = pair_up high (read_hex rest)
read_low high _ = none

-- a number read is a character, or the first half of a pair
one_or_pair : Option (ℕ × String) → Option (ℕ × String)
one_or_pair none = none
one_or_pair (some (n, rest)) =
    if leb 55296 n && leb n 56319 then read_low n rest else some (n, rest)

-- what follows a backslash
read_escape : String → Option (ℕ × String)
read_escape [] = none
read_escape (c ∷ rest) =
    let n = code c in
    if eqb n 34
    then some (34, rest)
    else if eqb n 92
    then some (92, rest)
    else if eqb n 110
    then some (10, rest)
    else if eqb n 114
    then some (13, rest)
    else if eqb n 116
    then some (9, rest)
    else if eqb n 102
    then some (12, rest)
    else if eqb n 98
    then some (8, rest)
    else one_or_pair (read_hex rest)

-- the first character of a quoted text and what follows it; `none` at the closing quote
read_char : String → Option (ℕ × String)
read_char [] = none
read_char (c ∷ rest) =
    if eqb (code c) 34
    then none
    else if eqb (code c) 92
    then read_escape rest
    else some (code c, rest)

read_hex-digits :
    (n : ℕ) (rest : String)
    → n < 65536
    → read_hex (
        hex_digit (n / 4096 % 16)
        ∷ hex_digit (n / 256 % 16)
        ∷ hex_digit (n / 16 % 16)
        ∷ hex_digit (n % 16)
        ∷ rest)
      ≡ some (n, rest)
unfolding read_hex
read_hex-digits n rest h =
    rw
      (
        hex_value-hex_digit (n / 4096 % 16) (omega arith),
        hex_value-hex_digit (n / 256 % 16) (omega arith),
        hex_value-hex_digit (n / 16 % 16) (omega arith),
        hex_value-hex_digit (n % 16) (omega arith),
      )
      (ap (λ (m : ℕ). some (m, rest)) (omega arith))

read_char-unicode_escape :
    (n : ℕ) (rest : String)
    → n < 65536
    → read_char (unicode_escape n rest) ≡ one_or_pair (some (n, rest))
unfolding read_char read_escape unicode_escape
read_char-unicode_escape n rest h = ap one_or_pair (read_hex-digits n rest h)

read_low-unicode_escape :
    (high n : ℕ) (rest : String)
    → n < 65536
    → read_low high (unicode_escape n rest) ≡ pair_up high (some (n, rest))
unfolding read_low unicode_escape
read_low-unicode_escape high n rest h = ap (pair_up high) (read_hex-digits n rest h)

one_or_pair-one :
    (n : ℕ) (rest : String)
    → ((n < 55296) ⊎ (57343 < n))
    → one_or_pair (some (n, rest)) ≡ some (n, rest)
unfolding one_or_pair
one_or_pair-one n rest s = ground arith

one_or_pair-high :
    (n : ℕ) (rest : String)
    → n < 1024
    → one_or_pair (some (55296 + n, rest)) ≡ read_low (55296 + n) rest
unfolding one_or_pair
one_or_pair-high n rest s = ground arith

read_char-pair :
    (n : ℕ) (rest : String)
    → n < 1048576
    → read_char (unicode_escape (55296 + n / 1024) (unicode_escape (56320 + n % 1024) rest))
      ≡ some (65536 + n, rest)
unfolding pair_up
read_char-pair n rest h =
    read_char-unicode_escape (55296 + n / 1024) (unicode_escape (56320 + n % 1024) rest)
      (omega arith)
    ∙ one_or_pair-high (n / 1024) (unicode_escape (56320 + n % 1024) rest) (omega arith)
    ∙ read_low-unicode_escape (55296 + n / 1024) (56320 + n % 1024) rest (omega arith)
    ∙ ap (λ (m : ℕ). some (m, rest)) (omega arith)

plain : (n : ℕ) → short_escape n ≡ none → (n ≢ 34) × (n ≢ 92)
unfolding short_escape
plain n h = ground arith

read_char-escape_long :
    (c : Char) (rest : String)
    → short_escape (code c) ≡ none
    → read_char (escape_long c rest) ≡ some (code c, rest)
unfolding escape_long read_char
read_char-escape_long c rest h = elim (Bool-cases (leb 32 (code c) && leb (code c) 126)) [
  | inl printable ↦ rw printable (ground (arith, plain (code c) h))
  | inr other ↦ elim (Bool-cases (ltb (code c) 65536)) [
    | inl narrow ↦
        rw (other, narrow)
          (read_char-unicode_escape (code c) rest (ground arith)
            ∙ one_or_pair-one (code c) rest (code_scalar c).0)
    | inr wide ↦
        rw (other, wide)
          (read_char-pair (code c - 65536) rest (ground (arith, code_scalar c))
            ∙ ap (λ (m : ℕ). some (m, rest)) (ground arith))
  ]
]

-- one test of a ladder of tests against numbers
ladder {ℓ κ} :
    {A : Type ℓ} (G : Type κ) (n k : ℕ) (x e : A) (next : Option A)
    → (n ≡ k → x ≡ e → G)
    → (next ≡ some e → G)
    → (if eqb n k then some x else next) ≡ some e
    → G
ladder G n k x e next here later h = elim (Bool-cases (eqb n k)) [
  | inl same ↦ here (eqb→eq n k same) (some_eq (rw same at h))
  | inr other ↦ later (rw other at h)
]

read_escape-short_escape :
    (n : ℕ) (rest : String) (e : Char)
    → short_escape n ≡ some e
    → read_escape (e ∷ rest) ≡ some (n, rest)
unfolding short_escape read_escape
read_escape-short_escape n rest e =
    let G : Type 0 = read_escape (e ∷ rest) ≡ some (n, rest) in
    ladder G n 34 "\"" e _ (λ p q. rw (p, ← q))
      (ladder G n 92 "\\" e _ (λ p q. rw (p, ← q))
        (ladder G n 10 "n" e _ (λ p q. rw (p, ← q))
          (ladder G n 13 "r" e _ (λ p q. rw (p, ← q))
            (ladder G n 9 "t" e _ (λ p q. rw (p, ← q))
              (ladder G n 12 "f" e _ (λ p q. rw (p, ← q))
                (ladder G n 8 "b" e _ (λ p q. rw (p, ← q)) (λ h. cc)))))))

read_char-escape_char :
    (c : Char) (rest : String) → read_char (escape_char c rest) ≡ some (code c, rest)
unfolding read_char escape_char
read_char-escape_char c rest = elim (Option-cases (short_escape (code c))) [
  | inl long ↦ rw (long, escape_char) (read_char-escape_long c rest long)
  | inr (e, short) ↦ rw (short, escape_char) (read_escape-short_escape (code c) rest e short)
]

read_char-closing : (rest : String) → read_char ("\"" ∷ rest) ≡ none
unfolding read_char
read_char-closing rest = refl

escape_char_injective :
    (c d : Char) (x y : String) → escape_char c x ≡ escape_char d y → (c ≡ d) × (x ≡ y)
escape_char_injective c d x y h =
    let e =
      some_eq (sym (read_char-escape_char c x) ∙ ap read_char h ∙ read_char-escape_char d y) in
    (Char-path c d (ap (λ (p : ℕ × String). p.0) e), ap (λ (p : ℕ × String). p.1) e)

-- Two quoted texts that read alike, with what follows them, are the same text before the same rest.
quote_rest_injective : (s t x y : String) → quote_rest s x ≡ quote_rest t y → (s ≡ t) × (x ≡ y)
unfolding quote_rest
quote_rest_injective [] [] x y h = (refl, cc)
quote_rest_injective [] (d ∷ t) x y h =
    cc (read_char-closing x, read_char-escape_char d (quote_rest t y))
quote_rest_injective (c ∷ s) [] x y h =
    cc (read_char-closing y, read_char-escape_char c (quote_rest s x))
quote_rest_injective (c ∷ s) (d ∷ t) x y h =
    let e = escape_char_injective c d (quote_rest s x) (quote_rest t y) h in
    let r = quote_rest_injective s t x y e.1 in (cc (e.0, r.0), r.1)

pub quote_injective : (s t x y : String) → quote s x ≡ quote t y → (s ≡ t) × (x ≡ y)
unfolding quote
quote_injective s t x y h = quote_rest_injective s t x y (cc)
