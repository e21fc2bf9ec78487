-- ===== src/Tests/Login.antt =====
-- A whole login at an identity provider.
use immutavault.Prelude.Text.{lower, all_chars, rstrip_char, followed_by, text_length, starts_with}
use immutavault.Json.{Fields, num, str, arr, obj, nil, cons, end, field, get_field}
use immutavault.Access.{Identity, role_order}
use immutavault.Access.Token.{Codec, texts_of, texts_or_none, decode, split_once, equals, get_or}
use immutavault.Access.Claims.{
  OidcConfig, identity_from_claims, highest_from, lookup, mapped_roles, mapped_tenants,
}
use immutavault.Access.Documents.{Client, OidcOutside, after, member, metadata_of, jwks_value}
use immutavault.Access.IdToken.{validate_id_token, find_in, check_claims}
use immutavault.Access.Oidc.{complete_login}
use immutavault.Access.Oidc.Authentic.{IsAuthentic, complete_login-IsAuthentic}
use immutavault.Prelude.{◌≡◌, refl, true, none, [], ◌∷◌, ◌==◌, if◌then◌else◌, ok, err, value_error}

abbrev saved_fields : Fields
saved_fields = field "typ" (str "oidc_state") (
    field "exp" (num 1600) (
      field "state" (str "s1") (
        field "nonce" (str "n1")
          (field "verifier" (str "v1") (field "return_to" (str "/vms") end)))))

abbrev header_fields : Fields
header_fields = field "alg" (str "RS256") (field "kid" (str "k1") end)

abbrev claim_fields : Fields
claim_fields = field "iss" (str "https://id.example/") (
    field "aud" (str "vault") (
      field "exp" (num 4000) (
        field "nonce" (str "n1") (
          field "oid" (str "ann") (
            field "groups" (arr (cons (str "operators") nil))
              (field "amr" (arr (cons (str "MFA") nil)) end))))))

abbrev codec : Codec
codec = record {
  urlsafe_b64encode = λ raw. "c2ln";
  urlsafe_b64decode = λ t. ok t;
  hmac_sha256 = λ secret t. "mac";
  loads = λ t.
      if t == "S==="
      then ok (obj saved_fields)
      else if t == "H==="
      then ok (obj header_fields)
      else ok (obj claim_fields);
  repr = λ v. elim v [ str s ↦ s | other ↦ "" ];
  int_of_text = λ t. err (value_error "invalid literal for int()");
}

abbrev provider : OidcConfig
provider = record {
  issuer = "https://id.example";
  client_id = "vault";
  client_secret_env = none;
  redirect_uri = "https://vault.example/callback";
  require_mfa = true;
  allowed_tenant_ids = [];
  required_acrs = [];
  default_role = "viewer";
  default_tenants = [];
  group_role_map = ("operators", "restore_operator") ∷ [];
  group_tenant_map = ("operators", "north" ∷ []) ∷ [];
  app_role_map = [];
  app_role_tenant_map = [];
  tenant_ids = "north" ∷ "south" ∷ [];
}

abbrev documents : Fields
documents = field "issuer" (str "https://id.example") (
    field "authorization_endpoint" (str "https://id.example/authorize") (
      field "token_endpoint" (str "https://id.example/token")
        (field "jwks_uri" (str "https://id.example/keys") end)))

abbrev key_fields : Fields
key_fields = field "kid" (str "k1") (field "kty" (str "RSA") end)

abbrev network : OidcOutside
network = record {
  get_json = λ url.
      if url == "https://id.example/keys"
      then ok (field "keys" (arr (cons (obj key_fields) nil)) end)
      else ok documents;
  post_json = λ url form. ok (field "id_token" (str "H.C.G") end);
  client_secret = λ name. none;
  verify_rs256 = λ t signature key. ok tt;
  state_now = 1200;
  jwks_now = 1200;
  now = 1200;
}

abbrev fresh : Client
fresh = record { metadata = none; jwks = none; jwks_loaded_at = 0 }

abbrev ann : Identity
ann = record {
  subject = "oidc:tenant:ann";
  name = "ann";
  role = "restore_operator";
  tenants = "north" ∷ [];
  source = "oidc";
  mfa = true;
  tenant_id = none;
}

logged_in :
    (complete_login codec provider network "secret" "code" "s1" "S.c2ln" fresh).0 ≡ ok (ann, "/vms")
unfolding complete_login after decode split_once all_chars rstrip_char followed_by equals
    text_length get_or get_field member metadata_of starts_with validate_id_token jwks_value find_in
    check_claims highest_from identity_from_claims lookup mapped_roles mapped_tenants texts_of
    texts_or_none role_order lower
logged_in = refl

complete_login-IsAuthentic_example : IsAuthentic codec provider network "secret" "s1" "S.c2ln" ann
complete_login-IsAuthentic_example =
    complete_login-IsAuthentic codec provider network "secret" "code" "s1" "S.c2ln" fresh
      (ann, "/vms") logged_in
