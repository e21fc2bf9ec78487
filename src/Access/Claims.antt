-- ===== src/Access/Claims.antt =====
-- What an identity provider's claims allow: `identity_from_claims` of
-- src/immutavault/enterprise_auth.py.
pub mod Authorized
use immutavault.Json.{Json, Fields, null, str, get_field, is_truthy, text_with, text_or}
use immutavault.Access.{Identity, role_order, listed_in}
use immutavault.Access.Token.{Codec, texts_or_none}
use immutavault.Dr.Plan.{concat_text}
use immutavault.Engine.Restore.{require}
use immutavault.Engine.Retention.{sorted_set}
use immutavault.Prelude.{
  ℕ, String, Bool, true, false, not, ◌&&◌, ◌||◌, Option, none, some, is_some, List, [], ◌∷◌, ◌++◌,
  map, any, is_empty, ltb, ◌==◌, if◌then◌else◌, Error, Result, ok, err, ◌>>=◌, ◌>>◌, raise_if,
  permission_error, runtime_error, value_error,
}
use immutavault.Prelude.Text.{lower}

-- the fields of `OIDCConfig` that a login reads, and the tenants' ids
pub record OidcConfig : Type 0 where
  pub issuer : String
  pub client_id : String
  pub client_secret_env : Option String
  pub redirect_uri : String
  pub require_mfa : Bool
  pub allowed_tenant_ids : List String
  pub required_acrs : List String
  pub default_role : String
  pub default_tenants : List String
  pub group_role_map : List (String × String)
  pub group_tenant_map : List (String × List String)
  pub app_role_map : List (String × String)
  pub app_role_tenant_map : List (String × List String)
  pub tenant_ids : List String

-- `d.get(k)` for a dict of the settings
unfoldable pub lookup {ℓ} : {A : Type ℓ} → String → List (String × A) → Option A
lookup k [] = none
lookup k ((j, a) ∷ rest) = if j == k then some a else lookup k rest

-- `[m[x] for x in xs if x in m]`
unfoldable pub mapped_roles : List (String × String) → List String → List String
mapped_roles m [] = []
mapped_roles m (x ∷ xs) = elim (lookup x m) [
  | none ↦ mapped_roles m xs
  | some role ↦ role ∷ mapped_roles m xs
]

-- the tenants of all the names
unfoldable pub mapped_tenants : List (String × List String) → List String → List String
mapped_tenants m [] = []
mapped_tenants m (x ∷ xs) = elim (lookup x m) [
  | none ↦ mapped_tenants m xs
  | some tenants ↦ tenants ++ mapped_tenants m xs
]

-- `max` by the order of the roles, of `best` with its rank and the roles that are known
unfoldable pub highest_from : String → ℕ → List String → String
highest_from best rank [] = best
highest_from best rank (role ∷ roles) = elim (role_order role) [
  | none ↦ highest_from best rank roles
  | some n ↦
      let higher = highest_from role n roles in
      let same = highest_from best rank roles in if ltb rank n then higher else same
]

-- `_highest_role`, which needs the default role to be known
abbrev pub highest_role : List String → String → Result String
highest_role roles default_role = do
  rank ← require (role_order default_role) (value_error default_role)
  ok (highest_from default_role rank roles)

abbrev pub shares_one : List String → List String → Bool
shares_one xs ys = any (λ x. listed_in ys x) xs

-- a scope of every tenant, or of a known one
abbrev pub is_known_scope : OidcConfig → String → Bool
is_known_scope cfg scope = scope == "*" || listed_in cfg.tenant_ids scope

abbrev pub non_empty_text : String → Option String
non_empty_text s = if s == "" then none else some s

abbrev pub text_or_tenant : Option String → String
text_or_tenant none = "tenant"
text_or_tenant (some t) = t

module _ (codec : Codec) (cfg : OidcConfig) where
  -- the tenants that groups and application roles give, with the default ones
  abbrev pub scopes_of : List String → List String → List String
  scopes_of groups app_roles =
      cfg.default_tenants
      ++ mapped_tenants cfg.group_tenant_map groups
      ++ mapped_tenants cfg.app_role_tenant_map app_roles

  abbrev pub has_mfa : List String → List String → Bool
  has_mfa amr acrs =
      shares_one ("mfa" ∷ "ngcmfa" ∷ []) (map lower amr)
      || (not (is_empty cfg.required_acrs) && shares_one cfg.required_acrs acrs)

  -- `str(claims.get("oid") or claims.get("sub") or "")`
  abbrev pub subject_of : Fields → String
  subject_of claims = text_or codec.repr "oid" (text_or codec.repr "sub" "" claims) claims

  abbrev pub claimed_name : Fields → String
  claimed_name claims =
      text_or codec.repr "name" (text_or codec.repr "preferred_username" (subject_of claims) claims)
        claims

  abbrev pub claimed_identity : Fields → String → List String → Bool → Identity
  claimed_identity claims role scopes mfa =
      let tid = non_empty_text (text_or codec.repr "tid" "" claims) in
      record {
        subject = concat_text ("oidc:" ∷ text_or_tenant tid ∷ ":" ∷ subject_of claims ∷ []);
        name = claimed_name claims;
        role = role;
        tenants = sorted_set scopes;
        source = "oidc";
        mfa = mfa;
        tenant_id = tid;
      }

  -- the scopes, where there are any and all are known
  abbrev pub checked_scopes : List String → Result (List String)
  checked_scopes scopes = do
    raise_if (is_empty scopes) (permission_error "OIDC identity has no Immutavault tenant scope")
    raise_if (any (λ s. not (is_known_scope cfg s)) scopes)
        (permission_error "OIDC identity resolved an unknown tenant scope")
    ok scopes

  abbrev pub checked_mfa : Bool → Result Bool
  checked_mfa mfa = do
    raise_if (cfg.require_mfa && not mfa) (
        permission_error
          "MFA evidence is required; configure Entra to emit amr (mfa/ngcmfa) or a required authentication-context ID")
    ok mfa

  unfoldable pub identity_from_claims : Fields → Result Identity
  identity_from_claims claims = do
    groups ← texts_or_none codec.repr (get_field "groups" claims)
    app_roles ← texts_or_none codec.repr (get_field "roles" claims)
    role ←
        highest_role
          (mapped_roles cfg.group_role_map groups ++ mapped_roles cfg.app_role_map app_roles)
          cfg.default_role
    scopes ← checked_scopes (scopes_of groups app_roles)
    amr ← texts_or_none codec.repr (get_field "amr" claims)
    acrs ← texts_or_none codec.repr (get_field "acrs" claims)
    mfa ← checked_mfa (has_mfa amr acrs)
    raise_if (subject_of claims == "")
        (permission_error "OIDC token has no stable subject identifier")
    ok (claimed_identity claims role scopes mfa)
