-- ===== src/Access/IdToken/Valid.antt =====
-- What a validated ID token has passed.
use mathlib.Core.Path.{subst}
use immutavault.Json.{
  Json, Items, Fields, obj, arr, nil, cons, null, bool, str, is_truthy, num, get_field, text_with,
  text_or,
}
use immutavault.Access.{listed_in}
use immutavault.Access.Token.{Codec, get_or, compare_digest, int_of, as_object, is_text}
use immutavault.Access.Claims.{OidcConfig}
use immutavault.Access.Documents.{Client, OidcOutside, member, trimmed}
use immutavault.Access.IdToken.{
  audiences_of, not_before, check_claims, checked_claims, validate_id_token, find_in, find_key,
  signing_key, IdToken, open_id_token, found_key, require_key, find_among,
}
use immutavault.Prelude.{
  ℕ, ◌+◌, String, ◌≡◌, refl, sym, ◌∙◌, Bool, true, false, not, ◌&&◌, ◌||◌, some, List, is_empty,
  ltb, ◌==◌, ok, err, Returns, Returns-ok, Returns-bind, Returns-after, Returns-guard, Bool-cases,
  inl, inr, arith, Option, none, some_eq, type_error, if◌then◌else◌, ap,
}
use immutavault.Access.Documents.Yields.{
  Yields, Yields-after, Yields-Returns, Returns-itself, Yields-anything, compare_digest-Returns,
}

module _ (codec : Codec) (cfg : OidcConfig) (out : OidcOutside) where
  -- The claims name this client, are in their time, carry the nonce and an allowed tenant.
  pub record IsChecked (issuer nonce : String) (claims : Fields) : Type 0 where
    pub issued : (trimmed (text_or codec.repr "iss" "" claims) == trimmed issuer) ≡ true
    pub audiences : List String
    pub addressed : audiences_of codec cfg out (get_field "aud" claims) ≡ ok audiences
    pub listed : listed_in audiences cfg.client_id ≡ true
    pub exp : ℕ
    pub expires : int_of codec (get_or "exp" (num 0) claims) ≡ ok exp
    pub alive : ltb (exp + 90) out.now ≡ false
    pub answers : (text_or codec.repr "nonce" "" claims == nonce) ≡ true
    pub allowed :
        (is_empty cfg.allowed_tenant_ids
          || listed_in cfg.allowed_tenant_ids (text_or codec.repr "tid" "" claims))
        ≡ true

  check_claims-Returns :
      (issuer nonce : String) (claims : Fields)
      → Returns
          (λ (c : Fields). (c ≡ claims) × IsChecked issuer nonce claims)
          (check_claims codec cfg out issuer nonce claims)
  unfolding check_claims
  check_claims-Returns issuer nonce claims =
      Returns-guard _ (not (trimmed (text_or codec.repr "iss" "" claims) == trimmed issuer)) _ _
        (λ same_issuer.
          Returns-bind _ _ (audiences_of codec cfg out (get_field "aud" claims)) _
            (Returns-itself (audiences_of codec cfg out (get_field "aud" claims)))
            (λ audiences addressed.
              Returns-guard _ (not (listed_in audiences cfg.client_id)) _ _ (λ listed.
                Returns-bind _ _ (int_of codec (get_or "exp" (num 0) claims)) _
                  (Returns-itself (int_of codec (get_or "exp" (num 0) claims)))
                  (λ exp expires. Returns-guard _ (ltb (exp + 90) out.now) _ _ (λ alive.
                    Returns-after _ (not_before codec cfg out claims) _ (λ nbf.
                      Returns-guard _ (ltb (out.now + 90) nbf) _ _ (λ active.
                        Returns-bind _ _
                          (compare_digest (text_or codec.repr "nonce" "" claims) nonce) _
                          (compare_digest-Returns (text_or codec.repr "nonce" "" claims) nonce)
                          (λ same equal. Returns-guard _ (not same) _ _ (λ kept.
                            Returns-guard _
                              (not (is_empty cfg.allowed_tenant_ids)
                                && not (
                                    listed_in cfg.allowed_tenant_ids
                                      (text_or codec.repr "tid" "" claims)))
                              _ _
                              (λ allowed. Returns-ok _ claims (
                                refl,
                                record {
                                  issued = ground arith;
                                  audiences = audiences;
                                  addressed = addressed;
                                  listed = ground arith;
                                  exp = exp;
                                  expires = expires;
                                  alive = alive;
                                  answers = ground arith;
                                  allowed = ground arith;
                                },
                              )))))))))))

  checked_claims-Returns :
      (nonce : String) (claims metadata : Fields)
      → Returns
          (λ (c : Fields). (issuer : String) × (c ≡ claims) × IsChecked issuer nonce c)
          (checked_claims codec cfg out nonce claims metadata)
  checked_claims-Returns nonce claims metadata =
      Returns-after _ (member "issuer" metadata) _ (λ issuer. record {
        result = λ c h.
            let (same, checked) =
              (check_claims-Returns (text_with codec.repr issuer) nonce claims).result c h in
            (
              text_with codec.repr issuer,
              same,
              subst (IsChecked (text_with codec.repr issuer) nonce) (sym same) checked,
            );
      })

  -- a key of that id
  abbrev pub HasId : String → Fields → Type 0
  HasId kid key = (text_or codec.repr "kid" "" key == kid) ≡ true

  abbrev pub FindsId : String → Option Fields → Type 0
  FindsId kid found = (key : Fields) → found ≡ some key → HasId kid key

  find_in-Returns : (kid : String) (vs : Items) → Returns (FindsId kid) (find_in codec.repr kid vs)
  unfolding find_in
  find_in-Returns kid nil = Returns-ok _ none (λ key h. cc)
  find_in-Returns kid (cons null vs) = record { result = λ o h. cc }
  find_in-Returns kid (cons (bool b) vs) = record { result = λ o h. cc }
  find_in-Returns kid (cons (num n) vs) = record { result = λ o h. cc }
  find_in-Returns kid (cons (str s) vs) = record { result = λ o h. cc }
  find_in-Returns kid (cons (arr xs) vs) = record { result = λ o h. cc }
  find_in-Returns kid (cons (obj fs) vs) =
      elim (Bool-cases
        (text_or codec.repr "kid" "" fs == kid && is_text (get_field "kty" fs) "RSA")) [
          | inl fits ↦
              simp fits
                (Returns-ok _ (some fs) (λ key h. subst (HasId kid) (some_eq h) (ground arith)))
          | inr other ↦ simp other (find_in-Returns kid vs)
        ]

  find_key-Returns :
      (kid : String) (jwks : Fields) → Returns (FindsId kid) (find_key codec.repr kid jwks)
  find_key-Returns kid jwks = among (get_field "keys" jwks)
    where
      none_found :
          (broken : Bool)
          → Returns
              (FindsId kid)
              (if broken then err (type_error "keys are no list of objects") else ok none)
      none_found true = record { result = λ o h. cc }
      none_found false = Returns-ok _ none (λ key h. cc)

      among : (v : Json) → Returns (FindsId kid) (find_among codec.repr kid v)
      among (arr vs) = find_in-Returns kid vs
      among null = none_found false
      among (bool b) = none_found b
      among (num n) = none_found (is_truthy (num n))
      among (str t) = none_found (is_truthy (str t))
      among (obj fs) = none_found (is_truthy (obj fs))

  found_key-Yields :
      (kid : String) (found : Option Fields) (client : Client)
      → FindsId kid found
      → Yields (HasId kid) (found_key codec cfg out kid found client)
  found_key-Yields kid (some key) client h =
      Yields-Returns _ _ client (Returns-ok _ key (h key refl))
  found_key-Yields kid none client h = Yields-after _ _ _ _ (Yields-anything _) (λ fresh client₁ _.
      Yields-after _ _ _ _ (Yields-Returns _ _ client₁ (find_key-Returns kid fresh))
        (λ again client₂ finds. required again client₂ finds))
    where
      required :
          (again : Option Fields) (client : Client)
          → FindsId kid again
          → Yields (HasId kid) (require_key codec cfg out again, client)
      required none client finds = record { result = λ key h'. cc }
      required (some key) client finds =
          Yields-Returns _ _ client (Returns-ok _ key (finds key refl))

  signing_key-Yields :
      (kid : String) (client : Client) → Yields (HasId kid) (signing_key codec cfg out kid client)
  signing_key-Yields kid client = Yields-after _ _ _ _ (Yields-anything _) (λ keys client₁ _.
      Yields-after _ _ _ _ (Yields-Returns _ _ client₁ (find_key-Returns kid keys))
        (λ found client₂ finds. found_key-Yields kid found client₂ finds))

  -- The claims are those of the token, which has been signed with a key of the id that it names.
  pub record IsValid (token nonce : String) (claims : Fields) : Type 0 where
    pub parsed : IdToken
    pub kid : String
    pub opened : open_id_token codec cfg out token ≡ ok (parsed, kid)
    pub claimed : as_object parsed.claims ≡ ok claims
    pub key : Fields
    pub key_id : HasId kid key
    pub signed : out.verify_rs256 parsed.signed_text parsed.signature key ≡ ok tt
    pub issuer : String
    pub checked : IsChecked issuer nonce claims

  pub validate_id_token-Yields :
      (token nonce : String) (client : Client)
      → Yields (IsValid token nonce) (validate_id_token codec cfg out token nonce client)
  unfolding validate_id_token
  validate_id_token-Yields token nonce client =
      Yields-after _ _ _ _
        (Yields-Returns _ _ client (Returns-itself (open_id_token codec cfg out token)))
        (λ opened client₀ opens.
          Yields-after _ _ _ _ (signing_key-Yields opened.1 client₀) (λ key client₁ key_id.
            Yields-after _ _ _ _
              (Yields-Returns _ _ client₁
                (Returns-itself (out.verify_rs256 opened.0.signed_text opened.0.signature key)))
              (λ _ client₂ signed.
                Yields-after _ _ _ _
                  (Yields-Returns _ _ client₂ (Returns-itself (as_object opened.0.claims)))
                  (λ claims client₃ claimed.
                    Yields-after _ _ _ _ (Yields-anything _) (λ metadata client₄ _.
                      Yields-Returns _ _ client₄ (record {
                        result = λ c h.
                            let (issuer, same, checked) =
                              (checked_claims-Returns nonce claims metadata).result c h in
                            record {
                              parsed = opened.0;
                              kid = opened.1;
                              opened = opens;
                              claimed = claimed ∙ ap ok (sym same);
                              key = key;
                              key_id = key_id;
                              signed = signed;
                              issuer = issuer;
                              checked = checked;
                            };
                      }))))))
