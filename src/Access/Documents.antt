-- ===== src/Access/Documents.antt =====
-- The documents of the identity provider that the OIDC client of src/immutavault/enterprise_auth.py
-- fetches and keeps.
pub mod Yields
use immutavault.Json.{
  Json, Items, Fields, null, bool, num, str, arr, obj, nil, cons, end, field, get_field, is_truthy,
  text_with, text_or, set_field,
}
use immutavault.Access.{Identity, listed_in}
use immutavault.Access.Token.{
  Codec, is_text, as_object, get_or, compare_digest, texts_or_none, split_once, b64url_encode,
  b64url_decode, int_of, encode, decode,
}
use immutavault.Access.Claims.{OidcConfig, identity_from_claims}
use immutavault.Dr.Plan.{concat_text}
use immutavault.Engine.Restore.{require}
use immutavault.Prelude.{
  ℕ, ◌+◌, ◌-◌, String, Bool, true, false, not, ◌&&◌, ◌||◌, Option, none, some, is_some, List, [],
  ◌∷◌, is_empty, eqb, ltb, ◌==◌, if◌then◌else◌, Error, Result, ok, err, ◌>>=◌, ◌>>◌, raise_if,
  permission_error, runtime_error, value_error, type_error,
}
use immutavault.Prelude.Text.{rstrip_char, starts_with}

-- the documents that the client keeps, and when it has loaded the keys
pub record Client : Type 0 where
  pub metadata : Option Fields
  pub jwks : Option Fields
  pub jwks_loaded_at : ℕ

-- What the network, the environment, `openssl` and the clock answer in one call: the JSON object at
-- a URL, also for a form that is posted, the value of the client's secret, whether a signature over
-- a text is one of a key, and the times when the state is read, the keys are asked for, and the
-- claims are checked.
pub record OidcOutside : Type 0 where
  pub get_json : String → Result Fields
  pub post_json : String → Fields → Result Fields
  pub client_secret : String → Option String
  pub verify_rs256 : String → String → Fields → Result (Unit {0})
  pub state_now : ℕ
  pub jwks_now : ℕ
  pub now : ℕ

-- a call that may fill the client's documents, which stay also where it raises
abbrev pub Call {ℓ} : Type ℓ → Type ℓ
Call A = Client → Result A × Client

-- the rest of a call, unless an exception has been raised
unfoldable pub after {ℓ κ} :
    {A : Type ℓ} {B : Type κ} → Result A × Client → (A → Call B) → Result B × Client
after (ok a, client) f = f a client
after (err e, client) f = (err e, client)

-- `_fetch_json` without and with a form
abbrev pub fetch_json : OidcOutside → String → Result Fields
fetch_json out url =
    if starts_with url "https://"
    then out.get_json url
    else err (runtime_error "OIDC metadata/token/JWKS endpoints must use https")

abbrev pub post_form : OidcOutside → String → Fields → Result Fields
post_form out url form =
    if starts_with url "https://"
    then out.post_json url form
    else err (runtime_error "OIDC metadata/token/JWKS endpoints must use https")

abbrev pub trimmed : String → String
trimmed url = rstrip_char "/" url

-- `d[k]`
unfoldable pub member : String → Fields → Result Json
member k end = err (value_error k)
member k (field j v fs) = if j == k then ok v else member k fs

module _ (codec : Codec) (cfg : OidcConfig) (out : OidcOutside) where
  abbrev pub check_secure : String → Fields → Result (Unit {0})
  check_secure key metadata =
      raise_if (not (starts_with (text_or codec.repr key "" metadata) "https://"))
        (runtime_error (concat_text ("OIDC discovery is missing a secure " ∷ key ∷ [])))

  abbrev pub load_metadata : Result Fields
  load_metadata = do
    metadata ←
        fetch_json out (concat_text (trimmed cfg.issuer ∷ "/.well-known/openid-configuration" ∷ []))
    raise_if (not (trimmed (text_or codec.repr "issuer" "" metadata) == trimmed cfg.issuer))
        (runtime_error "OIDC discovery issuer does not match configured issuer")
    check_secure "authorization_endpoint" metadata
    check_secure "token_endpoint" metadata
    check_secure "jwks_uri" metadata
    ok metadata

  abbrev pub keep_metadata : Result Fields → Call Fields
  keep_metadata (err e) client = (err e, client)
  keep_metadata (ok m) client = (ok m, record client { metadata = some m })

  unfoldable pub metadata_of : Call Fields
  metadata_of client = elim client.metadata [
    | some m ↦ (ok m, client)
    | none ↦ keep_metadata load_metadata client
  ]

  abbrev pub keep_jwks : Result Fields → Call Fields
  keep_jwks (err e) client = (err e, client)
  keep_jwks (ok keys) client =
      (ok keys, record client { jwks = some keys; jwks_loaded_at = out.jwks_now })

  abbrev pub load_jwks : Call Fields
  load_jwks client = after (metadata_of client) (λ metadata.
      keep_jwks (member "jwks_uri" metadata >>= (λ uri. fetch_json out (text_with codec.repr uri))))

  -- `_jwks_value`, where keys are old after an hour
  unfoldable pub jwks_value : Bool → Call Fields
  jwks_value force client = elim client.jwks [
    | none ↦ load_jwks client
    | some keys ↦
        if force || ltb 3600 (out.jwks_now - client.jwks_loaded_at)
        then load_jwks client
        else (ok keys, client)
  ]
