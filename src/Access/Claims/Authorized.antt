-- ===== src/Access/Claims/Authorized.antt =====
-- An identity that claims lead to has known tenants and the evidence that is asked for.
use immutavault.Json.{Fields, get_field}
use immutavault.Access.{Identity, role_order}
use immutavault.Access.Token.{Codec, texts_or_none}
use immutavault.Engine.Retention.{insert_name, sorted_set}
use immutavault.Access.Claims.{
  OidcConfig, is_known_scope, highest_from, highest_role, checked_scopes, checked_mfa,
  claimed_identity, identity_from_claims, subject_of, mapped_roles, scopes_of, has_mfa,
}
use immutavault.Prelude.{
  ℕ, String, ◌≡◌, refl, Bool, true, false, not, ◌&&◌, ◌||◌, List, [], ◌∷◌, ◌++◌, any, All, is_empty,
  is_some, ok, Returns, Returns-ok, Returns-bind, Returns-after, Returns-guard, arith, ltb, ◌==◌,
  Bool-cases, Option-cases, inl, inr,
}
use immutavault.Prelude.Order.{str_ltb}

pub record IsAuthorized (cfg : OidcConfig) (i : Identity) : Type 0 where
  pub scoped : is_empty i.tenants ≡ false
  pub known : All (λ (t : String). is_known_scope cfg t ≡ true) i.tenants
  pub evidence : (not cfg.require_mfa || i.mfa) ≡ true
  pub ranked : is_some (role_order i.role) ≡ true

module _ (P : String → Type 0) where
  All-insert_name : (s : String) (xs : List String) → P s → All P xs → All P (insert_name s xs)
  All-insert_name s [] p ps = (p, tt)
  All-insert_name s (x ∷ xs) p ps = elim (Bool-cases (s == x)) [
    | inl same ↦ simp same ps
    | inr other ↦ elim (Bool-cases (str_ltb s x)) [
      | inl before ↦ simp (other, before) (p, ps)
      | inr after ↦ simp (other, after) (ps.0, All-insert_name s xs p ps.1)
    ]
  ]

  All-sorted_set : (xs : List String) → All P xs → All P (sorted_set xs)
  All-sorted_set [] ps = tt
  All-sorted_set (x ∷ xs) ps = All-insert_name x (sorted_set xs) ps.0 (All-sorted_set xs ps.1)

insert_name-some : (s : String) (xs : List String) → is_empty (insert_name s xs) ≡ false
insert_name-some s [] = refl
insert_name-some s (x ∷ xs) = ground arith

sorted_set-some : (xs : List String) → is_empty xs ≡ false → is_empty (sorted_set xs) ≡ false
sorted_set-some [] h = h
sorted_set-some (x ∷ xs) h = insert_name-some x (sorted_set xs)

-- where no scope is unknown, all are known
known_scopes :
    (cfg : OidcConfig) (xs : List String)
    → any (λ s. not (is_known_scope cfg s)) xs ≡ false
    → All (λ (t : String). is_known_scope cfg t ≡ true) xs
known_scopes cfg [] h = tt
known_scopes cfg (x ∷ xs) h = (ground arith, known_scopes cfg xs (ground arith))

highest_from-ranked :
    (best : String) (rank : ℕ) (roles : List String)
    → is_some (role_order best) ≡ true
    → is_some (role_order (highest_from best rank roles)) ≡ true
unfolding highest_from
highest_from-ranked best rank [] h = h
highest_from-ranked best rank (role ∷ roles) h = elim (Option-cases (role_order role)) [
  | inl unknown ↦ simp (unknown, highest_from) (highest_from-ranked best rank roles h)
  | inr (n, known) ↦ elim (Bool-cases (ltb rank n)) [
    | inl higher ↦
        simp (known, higher, highest_from) (highest_from-ranked role n roles (rw known refl))
    | inr lower ↦ simp (known, lower, highest_from) (highest_from-ranked best rank roles h)
  ]
]

highest_role-Returns :
    (roles : List String) (default_role : String)
    → Returns
        (λ (role : String). is_some (role_order role) ≡ true)
        (highest_role roles default_role)
highest_role-Returns roles default_role = elim (Option-cases (role_order default_role)) [
  | inl unknown ↦ simp unknown (record { result = λ b h. cc })
  | inr (n, known) ↦
      simp known (Returns-ok _ _ (highest_from-ranked default_role n roles (rw known refl)))
]

module _ (codec : Codec) (cfg : OidcConfig) where
  checked_scopes-Returns :
      (scopes : List String)
      → Returns
          (λ (xs : List String).
            (is_empty xs ≡ false) × All (λ (t : String). is_known_scope cfg t ≡ true) xs)
          (checked_scopes codec cfg scopes)
  checked_scopes-Returns scopes = Returns-guard _ (is_empty scopes) _ _ (λ some_scope.
      Returns-guard _ (any (λ s. not (is_known_scope cfg s)) scopes) _ _
        (λ no_unknown. Returns-ok _ scopes (some_scope, known_scopes cfg scopes no_unknown)))

  checked_mfa-Returns :
      (mfa : Bool)
      → Returns (λ (b : Bool). (not cfg.require_mfa || b) ≡ true) (checked_mfa codec cfg mfa)
  checked_mfa-Returns mfa =
      Returns-guard _ (cfg.require_mfa && not mfa) _ _ (λ proven. Returns-ok _ mfa (ground arith))

  pub identity_from_claims-Returns :
      (claims : Fields) → Returns (IsAuthorized cfg) (identity_from_claims codec cfg claims)
  unfolding identity_from_claims
  identity_from_claims-Returns claims =
      Returns-after _ (texts_or_none codec.repr (get_field "groups" claims)) _ (λ groups.
        Returns-after _ (texts_or_none codec.repr (get_field "roles" claims)) _ (λ app_roles.
          Returns-bind _ _
            (highest_role
              (mapped_roles cfg.group_role_map groups ++ mapped_roles cfg.app_role_map app_roles)
              cfg.default_role)
            _ (highest_role-Returns _ _)
            (λ role ranked.
              Returns-bind _ _ (checked_scopes codec cfg (scopes_of codec cfg groups app_roles)) _
                (checked_scopes-Returns (scopes_of codec cfg groups app_roles))
                (λ scopes scoped.
                  Returns-after _ (texts_or_none codec.repr (get_field "amr" claims)) _ (λ amr.
                    Returns-after _ (texts_or_none codec.repr (get_field "acrs" claims)) _ (λ acrs.
                      Returns-bind _ _ (checked_mfa codec cfg (has_mfa codec cfg amr acrs)) _
                        (checked_mfa-Returns (has_mfa codec cfg amr acrs))
                        (λ mfa proven.
                          Returns-guard _ (subject_of codec cfg claims == "") _ _ (λ subject.
                            Returns-ok _ (claimed_identity codec cfg claims role scopes mfa)
                              (record {
                                scoped = sorted_set-some scopes scoped.0;
                                known = All-sorted_set _ scopes scoped.1;
                                evidence = proven;
                                ranked = ranked;
                              })))))))))

  -- Whoever the claims lead to has a known role, known tenants and the evidence that is asked for.
  pub identity_from_claims-IsAuthorized :
      (claims : Fields) (i : Identity)
      → identity_from_claims codec cfg claims ≡ ok i
      → IsAuthorized cfg i
  identity_from_claims-IsAuthorized claims i = (identity_from_claims-Returns claims).result i
