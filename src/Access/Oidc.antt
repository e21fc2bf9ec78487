-- ===== src/Access/Oidc.antt =====
-- The login at an identity provider: `begin_login` and `complete_login` of
-- src/immutavault/enterprise_auth.py.
pub mod Authentic
use immutavault.Json.{
  Json, Items, Fields, null, bool, num, str, arr, obj, nil, cons, end, field, get_field, is_truthy,
  text_with, text_or, set_field,
}
use immutavault.Access.{Identity, listed_in}
use immutavault.Access.Token.{
  Codec, is_text, as_object, get_or, compare_digest, texts_or_none, split_once, b64url_encode,
  b64url_decode, int_of, encode, decode,
}
use immutavault.Access.Claims.{OidcConfig, identity_from_claims}
use immutavault.Dr.Plan.{concat_text}
use immutavault.Engine.Restore.{require}
use immutavault.Prelude.{
  ℕ, ◌+◌, ◌-◌, String, Bool, true, false, not, ◌&&◌, ◌||◌, Option, none, some, is_some, List, [],
  ◌∷◌, is_empty, eqb, ltb, ◌==◌, if◌then◌else◌, Error, Result, ok, err, ◌>>=◌, ◌>>◌, raise_if,
  permission_error, runtime_error, value_error, type_error,
}
use immutavault.Prelude.Text.{rstrip_char, starts_with}
use immutavault.Access.Documents.{
  Client, OidcOutside, Call, after, fetch_json, post_form, trimmed, member, check_secure,
  load_metadata, keep_metadata, metadata_of, keep_jwks, load_jwks, jwks_value,
}
use immutavault.Access.IdToken.{
  three_parts, IdToken, find_in, find_among, find_key, parse_id_token, open_id_token, require_key,
  found_key, signing_key, audiences_of, not_before, check_claims, checked_claims, validate_id_token,
}

module _ (codec : Codec) (cfg : OidcConfig) (out : OidcOutside) where
  -- the form with the client's secret, where one is configured
  abbrev pub with_secret : Fields → Result Fields
  with_secret form = elim cfg.client_secret_env [
    | none ↦ ok form
    | some name ↦ if name == "" then ok form else (do
      secret ← require (out.client_secret name) (no_secret name)
      raise_if (secret == "") (no_secret name)
      ok (set_field "client_secret" (str secret) form))
  ]
    where
      no_secret : String → Error
      no_secret name =
          runtime_error (concat_text (name ∷ " is required for OIDC token exchange" ∷ []))

  abbrev pub token_form : String → Fields → Result Fields
  token_form code saved = do
    verifier ← member "verifier" saved
    with_secret (
        field "grant_type" (str "authorization_code") (
          field "client_id" (str cfg.client_id) (
            field "code" (str code) (
              field "redirect_uri" (str cfg.redirect_uri)
                (field "code_verifier" (str (text_with codec.repr verifier)) end)))))

  abbrev pub matches_state : String → Fields → Result Bool
  matches_state state saved =
      if state == "" then ok false else compare_digest state (text_or codec.repr "state" "" saved)

  -- the state that the browser brings back is the one that was signed
  abbrev pub saved_state : String → String → String → String → Result Fields
  saved_state secret code state state_token = do
    saved ← decode codec secret out.state_now (some "oidc_state") state_token
    same ← matches_state state saved
    raise_if (not same) (permission_error "OIDC state mismatch")
    raise_if (code == "") (permission_error "OIDC authorization code is missing")
    ok saved

  -- the ID token of the answer, and the nonce that it has to carry
  abbrev pub id_token_of : Fields → Fields → Result (String × String)
  id_token_of saved response = do
    let id_token = text_or codec.repr "id_token" "" response
    raise_if (id_token == "") (permission_error "OIDC provider did not return an ID token")
    nonce ← member "nonce" saved
    ok (id_token, text_with codec.repr nonce)

  abbrev pub exchange : Fields → Fields → Result Fields
  exchange form metadata = do
    endpoint ← member "token_endpoint" metadata
    post_form out (text_with codec.repr endpoint) form

  abbrev pub finish_login : Fields → Fields → Result (Identity × String)
  finish_login saved claims = do
    identity ← identity_from_claims codec cfg claims
    ok (identity, text_or codec.repr "return_to" "/" saved)

  unfoldable pub complete_login : String → String → String → String → Call (Identity × String)
  complete_login secret code state state_token client =
      after (saved_state secret code state state_token, client)
        (λ saved client₀.
          after (token_form code saved, client₀)
            (λ form client₁. after (metadata_of codec cfg out client₁) (λ metadata client₂.
              after (exchange form metadata, client₂)
                (λ response client₃.
                  after (id_token_of saved response, client₃)
                    (λ token client₄.
                      after (validate_id_token codec cfg out token.0 token.1 client₄)
                        (λ claims client₅. (finish_login saved claims, client₅)))))))

  -- a path of this site
  abbrev pub safe_return : String → String
  safe_return return_to =
      if starts_with return_to "/" && not (starts_with return_to "//") then return_to else "/"

  -- what `begin_login` signs; the three texts are random
  abbrev pub state_payload : ℕ → String → String → String → String → Fields
  state_payload now state nonce verifier return_to = field "typ" (str "oidc_state") (
      field "iat" (num now) (
        field "exp" (num (now + 600)) (
          field "state" (str state) (
            field "nonce" (str nonce) (
              field "verifier" (str verifier)
                (field "return_to" (str (safe_return return_to)) end))))))

  abbrev pub login_query : String → String → String → Fields
  login_query state nonce challenge = field "client_id" (str cfg.client_id) (
      field "response_type" (str "code") (
        field "redirect_uri" (str cfg.redirect_uri) (
          field "response_mode" (str "query") (
            field "scope" (str "openid profile email") (
              field "state" (str state) (
                field "nonce" (str nonce) (
                  field "code_challenge" (str challenge)
                    (field "code_challenge_method" (str "S256") end))))))))

  -- `begin_login`, with its three random texts: the URL to go to, and the token of the state
  unfoldable pub begin_login :
      (String → String)
      → (Fields → String)
      → String
      → ℕ
      → String
      → String
      → String
      → String
      → Call (String × String)
  begin_login sha256 urlencode secret now random random' random'' return_to client =
      let verifier = b64url_encode codec random in
      let challenge = b64url_encode codec (sha256 verifier) in
      let state = b64url_encode codec random' in
      let nonce = b64url_encode codec random'' in
      let state_token = encode codec secret (state_payload now state nonce verifier return_to) in
      after (metadata_of codec cfg out client) (λ metadata client₁. (
        member "authorization_endpoint" metadata >>= (λ endpoint. ok (
          concat_text (
              text_with codec.repr endpoint
              ∷ "?"
              ∷ urlencode (login_query state nonce challenge)
              ∷ []),
          state_token,
        )),
        client₁,
      ))
