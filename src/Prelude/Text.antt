-- ===== src/Prelude/Text.antt =====
-- `str.strip`, and `str.lower` on ASCII letters; other letters stay as they are.
use Prim.Native.Char.{Char, code}
use Prim.Native.String.{String, [], ◌∷◌}
use Prim.Native.Nat.{ℕ, ◌+◌}
use mathlib.Core.Bool.{Bool, true, false, ◌&&◌, ◌||◌}
use immutavault.Prelude.Tests.{leb, eqb, if◌then◌else◌}

-- `str.isspace` of one character
abbrev pub is_space : Char → Bool
is_space c =
    (leb 9 (code c) && leb (code c) 13)
    || (leb 28 (code c) && leb (code c) 32)
    || eqb (code c) 133
    || eqb (code c) 160
    || eqb (code c) 5760
    || (leb 8192 (code c) && leb (code c) 8202)
    || eqb (code c) 8232
    || eqb (code c) 8233
    || eqb (code c) 8239
    || eqb (code c) 8287
    || eqb (code c) 12288

unfoldable pub lstrip : String → String
lstrip [] = []
lstrip (c ∷ s) = let rest = lstrip s in if is_space c then rest else c ∷ s

-- drops the spaces behind the last other character
unfoldable pub rstrip : String → String
rstrip [] = []
rstrip (c ∷ s) = keep c (rstrip s)
  where
    keep : Char → String → String
    keep c [] = if is_space c then [] else c ∷ []
    keep c (d ∷ t) = c ∷ d ∷ t

abbrev pub strip : String → String
strip s = rstrip (lstrip s)

-- the letter in the place of `c` in the second alphabet
abbrev pub translate : String → String → Char → Char
translate [] to c = c
translate (u ∷ us) [] c = c
translate (u ∷ us) (l ∷ ls) c =
    let rest = translate us ls c in if eqb (code u) (code c) then l else rest

unfoldable pub lower : String → String
lower [] = []
lower (c ∷ s) = translate "ABCDEFGHIJKLMNOPQRSTUVWXYZ" "abcdefghijklmnopqrstuvwxyz" c ∷ lower s

-- `s + t`
unfoldable pub followed_by : String → String → String
followed_by [] t = t
followed_by (c ∷ s) t = c ∷ followed_by s t

-- `len(s)`, in characters
unfoldable pub text_length : String → ℕ
text_length [] = 0
text_length (c ∷ s) = 1 + text_length s

unfoldable pub all_chars : (Char → Bool) → String → Bool
all_chars p [] = true
all_chars p (c ∷ s) = p c && all_chars p s

-- `s.rstrip(c)` for one character
unfoldable pub rstrip_char : Char → String → String
rstrip_char d [] = []
rstrip_char d (c ∷ s) = keep (rstrip_char d s)
  where
    keep : String → String
    keep [] = if eqb (code c) (code d) then [] else c ∷ []
    keep (e ∷ t) = c ∷ e ∷ t

-- `s.startswith(t)`
unfoldable pub starts_with : String → String → Bool
starts_with s [] = true
starts_with [] (d ∷ t) = false
starts_with (c ∷ s) (d ∷ t) = eqb (code c) (code d) && starts_with s t
