-- ===== src/Access/Token/Base64.antt =====
-- `_b64url_encode` and `_b64url_decode` of src/immutavault/enterprise_auth.py: padding taken away and
-- put back.
use immutavault.Access.Token.{
  Codec, equals, is_char, strip_padding, split_once, is_ascii, b64url_encode, b64url_decode,
}
use immutavault.Prelude.{
  ℕ, zero, suc, ◌+◌, ◌-◌, ◌%◌, ◌≤◌, String, ◌≡◌, refl, Bool, true, false, ◌&&◌, ◌||◌, some, eqb,
  leb, ltb, code, ok, arith,
}
use immutavault.Prelude.Text.{followed_by, text_length, all_chars, rstrip_char}
use Prim.Native.Char.{Char}
use Prim.Native.String.{[] as nothing, ◌∷◌ as ◌before◌}

-- the letters, digits and signs of the URL-safe alphabet
abbrev pub is_url_char : Char → Bool
is_url_char c =
    (leb 48 (code c) && leb (code c) 57)
    || (leb 65 (code c) && leb (code c) 90)
    || (leb 97 (code c) && leb (code c) 122)
    || eqb (code c) 45
    || eqb (code c) 95

-- What `base64` promises of one encoded text: groups of four signs, of which at most the last two
-- are padding, that can be read back.
pub record IsEncoded (codec : Codec) (raw : String) : Type 0 where
  pub text : String
  pub pads : ℕ
  pub written : codec.urlsafe_b64encode raw ≡ followed_by text (equals pads)
  pub alphabet : all_chars is_url_char text ≡ true
  pub multiple : (text_length text + pads) % 4 ≡ 0
  pub short : pads ≤ 2
  pub read : codec.urlsafe_b64decode (codec.urlsafe_b64encode raw) ≡ ok raw

all_chars-cons :
    (p : Char → Bool) (c : Char) (s : String)
    → all_chars p (c before s) ≡ true
    → (p c ≡ true) × (all_chars p s ≡ true)
unfolding all_chars
all_chars-cons p c s all = (ground arith, ground arith)

-- a sign of the alphabet is no padding, no dot, and ASCII
url_char :
    (c : Char)
    → is_url_char c ≡ true
    → (is_char c "=" ≡ false) × (is_char c "." ≡ false) × (ltb (code c) 128 ≡ true)
url_char c h = (ground arith, ground arith, ground arith)

all_chars-weaken :
    (p q : Char → Bool) (s : String)
    → ((c : Char) → p c ≡ true → q c ≡ true)
    → all_chars p s ≡ true
    → all_chars q s ≡ true
unfolding all_chars
all_chars-weaken p q nothing h all = refl
all_chars-weaken p q (c before s) h all =
    let both = all_chars-cons p c s all in rw (h c both.0, all_chars-weaken p q s h both.1) refl

strip_padding-equals : (k : ℕ) → strip_padding (equals k) ≡ nothing
unfolding rstrip_char equals
strip_padding-equals zero = refl
strip_padding-equals (suc k) = rw (strip_padding-equals k) refl

strip_padding-followed_by :
    (t : String) (k : ℕ)
    → all_chars is_url_char t ≡ true
    → strip_padding (followed_by t (equals k)) ≡ t
unfolding rstrip_char followed_by all_chars
strip_padding-followed_by nothing k all = strip_padding-equals k
strip_padding-followed_by (c before nothing) k all =
    rw (strip_padding-equals k, (url_char c (all_chars-cons is_url_char c nothing all).0).0) refl
strip_padding-followed_by (c before (d before t)) k all =
    rw (strip_padding-followed_by (d before t) k (all_chars-cons is_url_char c (d before t) all).1)
      refl

pub split_once-followed_by :
    (t s : String)
    → all_chars is_url_char t ≡ true
    → split_once (followed_by t ("." before s)) ≡ some (t, s)
unfolding split_once followed_by all_chars
split_once-followed_by nothing s all = refl
split_once-followed_by (c before t) s all =
    let both = all_chars-cons is_url_char c t all in
    rw (split_once-followed_by t s both.1, (url_char c both.0).1) refl

text_length-followed_by :
    (t s : String) → text_length (followed_by t s) ≡ text_length t + text_length s
unfolding text_length followed_by
text_length-followed_by nothing s = omega arith
text_length-followed_by (c before t) s = rw (text_length-followed_by t s) (omega arith)

module _ (codec : Codec) where
  pub encoded-text : (raw : String) (e : IsEncoded codec raw) → b64url_encode codec raw ≡ e.text
  encoded-text raw e = rw e.written (strip_padding-followed_by e.text e.pads e.alphabet)

  -- What has been encoded without its padding is decoded.
  pub b64url_decode-b64url_encode :
      (raw : String) → IsEncoded codec raw → b64url_decode codec (b64url_encode codec raw) ≡ ok raw
  b64url_decode-b64url_encode raw e =
      let padding : (4 - text_length e.text % 4) % 4 ≡ e.pads =
        omega (arith, e.multiple, e.short) in
      rw (encoded-text raw e, b64url_decode, padding) (rw (← e.written) e.read)

  pub is_ascii-encoded :
      (raw : String) → IsEncoded codec raw → is_ascii (b64url_encode codec raw) ≡ true
  is_ascii-encoded raw e =
      rw (encoded-text raw e)
        (all_chars-weaken is_url_char _ e.text (λ c h. (url_char c h).2) e.alphabet)
