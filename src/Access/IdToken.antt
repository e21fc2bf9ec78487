-- ===== src/Access/IdToken.antt =====
-- ID tokens: `validate_id_token` of src/immutavault/enterprise_auth.py.
pub mod Valid
use immutavault.Json.{
  Json, Items, Fields, null, bool, num, str, arr, obj, nil, cons, end, field, get_field, is_truthy,
  text_with, text_or, set_field,
}
use immutavault.Access.{Identity, listed_in}
use immutavault.Access.Token.{
  Codec, is_text, as_object, get_or, compare_digest, texts_or_none, split_once, b64url_encode,
  b64url_decode, int_of, encode, decode,
}
use immutavault.Access.Claims.{OidcConfig, identity_from_claims}
use immutavault.Dr.Plan.{concat_text}
use immutavault.Engine.Restore.{require}
use immutavault.Prelude.{
  ℕ, ◌+◌, ◌-◌, String, Bool, true, false, not, ◌&&◌, ◌||◌, Option, none, some, is_some, List, [],
  ◌∷◌, is_empty, eqb, ltb, ◌==◌, if◌then◌else◌, Error, Result, ok, err, ◌>>=◌, ◌>>◌, raise_if,
  permission_error, runtime_error, value_error, type_error,
}
use immutavault.Prelude.Text.{rstrip_char, starts_with}
use immutavault.Access.Documents.{
  Client, OidcOutside, Call, after, fetch_json, post_form, trimmed, member, check_secure,
  load_metadata, keep_metadata, metadata_of, keep_jwks, load_jwks, jwks_value,
}

-- the three parts between exactly two dots
abbrev pub three_parts : String → Result (String × String × String)
three_parts token = elim (split_once token) [
  | none ↦ err (value_error "not enough values to unpack")
  | some (first, rest) ↦ elim (split_once rest) [
    | none ↦ err (value_error "not enough values to unpack")
    | some (second, third) ↦
        if is_some (split_once third)
        then err (value_error "too many values to unpack")
        else ok (first, second, third)
  ]
]

-- what an ID token says before any of it has been checked
pub record IdToken : Type 0 where
  pub header : Json
  pub claims : Json
  pub signed_text : String
  pub signature : String

-- the keys whose id and type fit, in order; an entry that is no object has no `.get`
unfoldable pub find_in : (Json → String) → String → Items → Result (Option Fields)
find_in repr kid nil = ok none
find_in repr kid (cons (obj fs) vs) =
    let rest = find_in repr kid vs in
    if text_or repr "kid" "" fs == kid && is_text (get_field "kty" fs) "RSA"
    then ok (some fs)
    else rest
find_in repr kid (cons other vs) = err (type_error "value has no attribute 'get'")

-- the keys that a loop can run over; a value that is falsy has none
abbrev pub find_among : (Json → String) → String → Json → Result (Option Fields)
find_among repr kid (arr vs) = find_in repr kid vs
find_among repr kid other =
    if is_truthy other then err (type_error "keys are no list of objects") else ok none

-- `find_key`
abbrev pub find_key : (Json → String) → String → Fields → Result (Option Fields)
find_key repr kid jwks = find_among repr kid (get_field "keys" jwks)

module _ (codec : Codec) (cfg : OidcConfig) (out : OidcOutside) where
  abbrev pub parse_id_token : String → Result IdToken
  parse_id_token token = do
    parts ← three_parts token
    header ← b64url_decode codec parts.0 >>= codec.loads
    claims ← b64url_decode codec parts.1 >>= codec.loads
    signature ← b64url_decode codec parts.2
    ok (record {
      header = header;
      claims = claims;
      signed_text = concat_text (parts.0 ∷ "." ∷ parts.1 ∷ []);
      signature = signature;
    })

  -- the token's parts with the id of its key
  abbrev pub open_id_token : String → Result (IdToken × String)
  open_id_token token = elim (parse_id_token token) [
    | err e ↦ err (permission_error "malformed OIDC ID token")
    | ok parsed ↦ do
      header ← as_object parsed.header
      raise_if (not (is_text (get_field "alg" header) "RS256"))
          (permission_error "only RS256 OIDC ID tokens are accepted")
      raise_if (text_or codec.repr "kid" "" header == "")
          (permission_error "OIDC ID token is missing kid")
      ok (parsed, text_or codec.repr "kid" "" header)
  ]

  abbrev pub require_key : Option Fields → Result Fields
  require_key none = err (permission_error "OIDC signing key is unknown")
  require_key (some key) = ok key

  -- the key that has been found, or that is found in the keys loaded once more
  abbrev pub found_key : String → Option Fields → Call Fields
  found_key kid (some key) client = (ok key, client)
  found_key kid none client = after (jwks_value codec cfg out true client) (λ fresh client₁.
      after (find_key codec.repr kid fresh, client₁)
        (λ again client₂. (require_key again, client₂)))

  -- the key of that id, for which the keys are loaded once more where it is unknown
  abbrev pub signing_key : String → Call Fields
  signing_key kid client =
      after (jwks_value codec cfg out false client) (λ keys client₁.
        after (find_key codec.repr kid keys, client₁) (λ found. found_key kid found))

  abbrev pub audiences_of : Json → Result (List String)
  audiences_of (str s) = ok (s ∷ [])
  audiences_of other = texts_or_none codec.repr other

  -- `int(claims.get("nbf", 0) or 0)`
  abbrev pub not_before : Fields → Result ℕ
  not_before claims = let v = get_field "nbf" claims in if is_truthy v then int_of codec v else ok 0

  -- the checks of the claims, with a skew of 90 seconds
  unfoldable pub check_claims : String → String → Fields → Result Fields
  check_claims issuer nonce claims = do
    raise_if (not (trimmed (text_or codec.repr "iss" "" claims) == trimmed issuer))
        (permission_error "OIDC issuer mismatch")
    audiences ← audiences_of (get_field "aud" claims)
    raise_if (not (listed_in audiences cfg.client_id)) (permission_error "OIDC audience mismatch")
    exp ← int_of codec (get_or "exp" (num 0) claims)
    raise_if (ltb (exp + 90) out.now) (permission_error "OIDC ID token expired")
    nbf ← not_before claims
    raise_if (ltb (out.now + 90) nbf) (permission_error "OIDC ID token is not active yet")
    same ← compare_digest (text_or codec.repr "nonce" "" claims) nonce
    raise_if (not same) (permission_error "OIDC nonce mismatch")
    raise_if
        (not (is_empty cfg.allowed_tenant_ids)
          && not (listed_in cfg.allowed_tenant_ids (text_or codec.repr "tid" "" claims)))
        (permission_error "OIDC tenant is not authorized")
    ok claims

  abbrev pub checked_claims : String → Fields → Fields → Result Fields
  checked_claims nonce claims metadata = do
    issuer ← member "issuer" metadata
    check_claims (text_with codec.repr issuer) nonce claims

  unfoldable pub validate_id_token : String → String → Call Fields
  validate_id_token token nonce client =
      after (open_id_token token, client)
        (λ opened client₀. after (signing_key opened.1 client₀) (λ key client₁.
          after (out.verify_rs256 opened.0.signed_text opened.0.signature key, client₁)
            (λ _ client₂.
              after (as_object opened.0.claims, client₂)
                (λ claims client₃.
                  after (metadata_of codec cfg out client₃)
                    (λ metadata client₄. (checked_claims nonce claims metadata, client₄))))))
