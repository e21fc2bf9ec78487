-- ===== src/Access/Token.antt =====
-- `SignedToken` of src/immutavault/enterprise_auth.py.
pub mod Base64
pub mod RoundTrip
use immutavault.Json.{
  Json, Items, Fields, null, bool, num, str, arr, obj, nil, cons, end, field, get_field, is_truthy,
  text_with, text_or,
}
use immutavault.Json.Print.{dumps_sorted}
use immutavault.Access.{Identity, role_order}
use immutavault.Engine.Retention.{names_json}
use immutavault.Prelude.{
  ℕ, zero, suc, ◌+◌, ◌-◌, ◌*◌, ◌%◌, String, Bool, true, false, not, Option, none, some, is_some,
  List, [], ◌∷◌, is_empty, eqb, ltb, code, ◌==◌, ◌&&◌, ◌||◌, if◌then◌else◌, Error, Result, ok, err,
  ◌>>=◌, ◌>>◌, raise_if, permission_error, runtime_error, value_error, type_error,
}
use immutavault.Prelude.Text.{followed_by, text_length, all_chars, rstrip_char}
use Prim.Native.Char.{Char}
use Prim.Native.String.{[] as nothing, ◌∷◌ as ◌before◌, len}

-- What Python's `base64`, `hmac`, `json` and `int` answer; bytes are texts of their characters, and
-- `repr` gives the text of a value that is no text.
pub record Codec : Type 0 where
  pub urlsafe_b64encode : String → String
  pub urlsafe_b64decode : String → Result String
  pub hmac_sha256 : String → String → String
  pub loads : String → Result Json
  pub repr : Json → String
  pub int_of_text : String → Result ℕ

-- `"=" * n`
unfoldable pub equals : ℕ → String
equals zero = nothing
equals (suc n) = "=" before (equals n)

abbrev pub is_char : Char → Char → Bool
is_char c d = eqb (code c) (code d)

-- `rstrip(b"=")`
abbrev pub strip_padding : String → String
strip_padding s = rstrip_char "=" s

-- `s.split(".", 1)`, where there is a dot
unfoldable pub split_once : String → Option (String × String)
split_once nothing = none
split_once (c before s) =
    let rest = split_once s in if is_char c "." then some (nothing, s) else push c rest
  where
    push : Char → Option (String × String) → Option (String × String)
    push c none = none
    push c (some (s, t)) = some (c before s, t)

abbrev pub is_ascii : String → Bool
is_ascii s = all_chars (λ c. ltb (code c) 128) s

-- `hmac.compare_digest` of texts, which takes ASCII only
abbrev pub compare_digest : String → String → Result Bool
compare_digest a b =
    if not (is_ascii a) || not (is_ascii b)
    then err (type_error "comparing strings with non-ASCII characters is not supported")
    else ok (a == b)

-- a value whose `.get` is called
abbrev pub as_object : Json → Result Fields
as_object (obj fs) = ok fs
as_object other = err (type_error "value has no attribute 'get'")

-- `d.get(k, default)`
unfoldable pub get_or : String → Json → Fields → Json
get_or k default end = default
get_or k default (field j v fs) = if j == k then v else get_or k default fs

-- the members of what a loop runs over
unfoldable pub texts_of : (Json → String) → Items → List String
texts_of repr nil = []
texts_of repr (cons v vs) = text_with repr v ∷ texts_of repr vs

abbrev pub chars_of : String → List String
chars_of nothing = []
chars_of (c before s) = (c before nothing) ∷ chars_of s

abbrev pub keys_of : Fields → List String
keys_of end = []
keys_of (field k v fs) = k ∷ keys_of fs

-- `[str(item) for item in value or []]`
unfoldable pub texts_or_none : (Json → String) → Json → Result (List String)
texts_or_none repr null = ok []
texts_or_none repr (bool false) = ok []
texts_or_none repr (bool true) = err (type_error "'bool' object is not iterable")
texts_or_none repr (num n) =
    if eqb n 0 then ok [] else err (type_error "'int' object is not iterable")
texts_or_none repr (str s) = ok (chars_of s)
texts_or_none repr (arr vs) = ok (texts_of repr vs)
texts_or_none repr (obj fs) = ok (keys_of fs)

abbrev pub is_text : Json → String → Bool
is_text (str s) t = s == t
is_text other t = false

-- the constructor, and `from_env` with the value of the variable
abbrev pub signed_token : String → Result String
signed_token secret =
    if ltb (len secret) 32
    then err (value_error "OIDC session secret must contain at least 32 bytes")
    else ok secret

abbrev pub from_env : Option String → Result String
from_env none =
    err (runtime_error "the variable is required when enterprise OIDC/session signing is enabled")
from_env (some value) =
    if value == ""
    then err
        (runtime_error "the variable is required when enterprise OIDC/session signing is enabled")
    else signed_token value

abbrev pub tenant_json : Option String → Json
tenant_json none = null
tenant_json (some t) = str t

-- what `identity_token` signs
abbrev pub session_payload : ℕ → ℕ → Identity → Fields
session_payload now minutes i = field "typ" (str "session") (
    field "iat" (num now) (
      field "exp" (num (now + minutes * 60)) (
        field "sub" (str i.subject) (
          field "name" (str i.name) (
            field "role" (str i.role) (
              field "tenants" (arr (names_json i.tenants)) (
                field "source" (str i.source) (
                  field "mfa" (bool i.mfa) (field "tenant_id" (tenant_json i.tenant_id) end)))))))))

-- the same payload, from the function of the module
abbrev pub identity_to_session_payload : ℕ → ℕ → Identity → Fields
identity_to_session_payload now minutes i = session_payload now minutes i

-- `Identity.public`
abbrev pub public : Identity → Fields
public i = field "subject" (str i.subject) (
    field "name" (str i.name) (
      field "role" (str i.role) (
        field "tenants" (arr (names_json i.tenants)) (
          field "source" (str i.source)
            (field "mfa" (bool i.mfa) (field "tenant_id" (tenant_json i.tenant_id) end))))))

module _ (codec : Codec) where
  abbrev pub b64url_encode : String → String
  b64url_encode raw = strip_padding (codec.urlsafe_b64encode raw)

  -- `-len(value) % 4` signs of padding
  abbrev pub b64url_decode : String → Result String
  b64url_decode value =
      codec.urlsafe_b64decode (followed_by value (equals ((4 - text_length value % 4) % 4)))

  abbrev pub json_b64 : Fields → String
  json_b64 value = b64url_encode (dumps_sorted (obj value))

  -- `int(v)`
  abbrev pub int_of : Json → Result ℕ
  int_of (num n) = ok n
  int_of (bool b) = ok (if b then 1 else 0)
  int_of (str s) = codec.int_of_text s
  int_of other = err (type_error "int() argument must be a string or a number")

  abbrev pub signature_of : String → String → String
  signature_of secret body = b64url_encode (codec.hmac_sha256 secret body)

  unfoldable pub encode : String → Fields → String
  encode secret payload =
      let body = json_b64 payload in followed_by body ("." before (signature_of secret body))

  -- `json.loads(_b64url_decode(body))`, whatever it raises
  abbrev pub payload_of : String → Result Json
  payload_of body = elim (b64url_decode body >>= codec.loads) [
    | err e ↦ err (permission_error "invalid signed token payload")
    | ok v ↦ ok v
  ]

  -- the checks of a payload; an expected type that is empty is not compared
  abbrev pub check_payload : ℕ → Option String → Json → Result Fields
  check_payload now expected_type payload = do
    fs ← as_object payload
    exp ← int_of (get_or "exp" (num 0) fs)
    raise_if (ltb exp now) (permission_error "signed token expired")
    raise_if (is_mismatch expected_type fs) (permission_error "signed token type mismatch")
    ok fs
    where
      is_mismatch : Option String → Fields → Bool
      is_mismatch none fs = false
      is_mismatch (some t) fs = not (t == "") && not (is_text (get_field "typ" fs) t)

  unfoldable pub decode : String → ℕ → Option String → String → Result Fields
  decode secret now expected_type token = elim (split_once token) [
    | none ↦ err (permission_error "invalid signed token")
    | some (body, signature) ↦ do
      same ← compare_digest signature (signature_of secret body)
      raise_if (not same) (permission_error "invalid signed token signature")
      payload ← payload_of body
      check_payload now expected_type payload
  ]

  abbrev pub identity_token : String → ℕ → ℕ → Identity → String
  identity_token secret now minutes i = encode secret (session_payload now minutes i)

  -- `str(value.get("tenant_id")) if value.get("tenant_id") else None`
  abbrev pub tenant_of : Json → Option String
  tenant_of v = if is_truthy v then some (text_with codec.repr v) else none

  -- the identity that a session's payload tells of
  abbrev pub session_identity : Fields → Result Identity
  session_identity value = do
    let role = text_with codec.repr (get_or "role" (str "viewer") value)
    raise_if (not (is_some (role_order role))) (permission_error "invalid session role")
    tenants ← texts_or_none codec.repr (get_field "tenants" value)
    raise_if (is_empty tenants) (permission_error "session has no tenant scope")
    ok (record {
      subject = text_or codec.repr "sub" "" value;
      name = text_or codec.repr "name" (text_or codec.repr "sub" "OIDC user" value) value;
      role = role;
      tenants = tenants;
      source = text_or codec.repr "source" "oidc" value;
      mfa = is_truthy (get_or "mfa" (bool false) value);
      tenant_id = tenant_of (get_field "tenant_id" value);
    })

  unfoldable pub identity_from_token : String → ℕ → String → Result Identity
  identity_from_token secret now token =
      decode secret now (some "session") token >>= session_identity
