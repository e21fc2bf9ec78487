-- ===== src/Access.antt =====
-- Identities and sessions: src/immutavault/enterprise_auth.py.
pub mod Token
pub mod Claims
pub mod Documents
pub mod IdToken
pub mod Oidc
use immutavault.Prelude.{
  ℕ, String, ◌==◌, ◌||◌, Bool, true, false, Option, none, some, List, [], any, if◌then◌else◌,
}

-- `Identity`
pub record Identity : Type 0 where
  pub subject : String
  pub name : String
  pub role : String
  pub tenants : List String
  pub source : String
  pub mfa : Bool
  pub tenant_id : Option String

abbrev pub listed_in : List String → String → Bool
listed_in names name = any (λ n. n == name) names

abbrev pub allows_tenant : Identity → String → Bool
allows_tenant i tenant_id = listed_in i.tenants "*" || listed_in i.tenants tenant_id

-- `ROLE_ORDER` of src/immutavault/enterprise_config.py
unfoldable pub role_order : String → Option ℕ
role_order role =
    if role == "viewer"
    then some 0
    else if role == "restore_operator"
    then some 1
    else if role == "approver"
    then some 2
    else if role == "admin"
    then some 3
    else none
