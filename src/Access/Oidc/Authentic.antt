-- ===== src/Access/Oidc/Authentic.antt =====
-- What a completed login has checked.
use mathlib.Core.Path.{subst}
use immutavault.Json.{Json, Fields, text_with, text_or}
use immutavault.Access.{Identity}
use immutavault.Access.Token.{Codec, decode}
use immutavault.Access.Claims.{OidcConfig, identity_from_claims}
use immutavault.Access.Claims.Authorized.{IsAuthorized, identity_from_claims-IsAuthorized}
use immutavault.Access.Documents.{Client, OidcOutside, member}
use immutavault.Prelude.{
  String, ◌≡◌, refl, ◌∙◌, Bool, true, false, not, some, ◌==◌, ok, Returns, Returns-ok, Returns-bind,
  Returns-guard, Bool-cases, inl, inr, arith,
}
use immutavault.Access.Oidc.{saved_state, matches_state, id_token_of, finish_login, complete_login}
use immutavault.Access.Documents.Yields.{
  Yields, Yields-after, Yields-Returns, Returns-itself, Yields-anything, compare_digest-Returns,
}
use immutavault.Access.IdToken.Valid.{IsValid, validate_id_token-Yields}

module _ (codec : Codec) (cfg : OidcConfig) (out : OidcOutside) where
  matches_state-Returns :
      (state : String) (saved : Fields)
      → Returns
          (λ (same : Bool). same ≡ true → (state == text_or codec.repr "state" "" saved) ≡ true)
          (matches_state codec cfg out state saved)
  matches_state-Returns state saved = elim (Bool-cases (state == "")) [
    | inl missing ↦ simp missing (Returns-ok _ false (λ h. cc))
    | inr given ↦ simp given (record {
      result = λ same h p.
          (compare_digest-Returns state (text_or codec.repr "state" "" saved)).result same h ∙ p;
    })
  ]

  saved_state-Returns :
      (secret code state state_token : String)
      → Returns
          (λ (saved : Fields).
            (decode codec secret out.state_now (some "oidc_state") state_token ≡ ok saved)
            × ((state == text_or codec.repr "state" "" saved) ≡ true))
          (saved_state codec cfg out secret code state state_token)
  saved_state-Returns secret code state state_token =
      Returns-bind _ _ (decode codec secret out.state_now (some "oidc_state") state_token) _
        (Returns-itself (decode codec secret out.state_now (some "oidc_state") state_token))
        (λ saved decoded.
          Returns-bind _ _ (matches_state codec cfg out state saved) _
            (matches_state-Returns state saved)
            (λ same equal. Returns-guard _ (not same) _ _ (λ kept.
              Returns-guard _ (code == "") _ _
                (λ given. Returns-ok _ saved (decoded, equal (ground arith))))))

  id_token_of-Returns :
      (saved response : Fields)
      → Returns
          (λ (token : String × String).
            (nonce : Json) × (member "nonce" saved ≡ ok nonce)
            × (token.1 ≡ text_with codec.repr nonce))
          (id_token_of codec cfg out saved response)
  id_token_of-Returns saved response =
      Returns-guard _ (text_or codec.repr "id_token" "" response == "") _ _ (λ given.
        Returns-bind _ _ (member "nonce" saved) _ (Returns-itself (member "nonce" saved))
          (λ nonce found.
            Returns-ok _ (text_or codec.repr "id_token" "" response, text_with codec.repr nonce)
              (nonce, found, refl)))

  finish_login-Returns :
      (saved claims : Fields)
      → Returns
          (λ (r : Identity × String). identity_from_claims codec cfg claims ≡ ok r.0)
          (finish_login codec cfg out saved claims)
  finish_login-Returns saved claims =
      Returns-bind _ _ (identity_from_claims codec cfg claims) _
        (Returns-itself (identity_from_claims codec cfg claims))
        (λ i named. Returns-ok _ (i, text_or codec.repr "return_to" "/" saved) named)

  -- The login began here: the state is the signed one, and the ID token carries its nonce.
  pub record IsAuthentic (secret state state_token : String) (i : Identity) : Type 0 where
    pub saved : Fields
    pub decoded : decode codec secret out.state_now (some "oidc_state") state_token ≡ ok saved
    pub same_state : (state == text_or codec.repr "state" "" saved) ≡ true
    pub nonce : Json
    pub saved_nonce : member "nonce" saved ≡ ok nonce
    pub claims : Fields
    pub token : String
    pub valid : IsValid codec cfg out token (text_with codec.repr nonce) claims
    pub named : identity_from_claims codec cfg claims ≡ ok i
    pub authorized : IsAuthorized cfg i

  complete_login-Yields :
      (secret code state state_token : String) (client : Client)
      → Yields
          (λ (r : Identity × String). IsAuthentic secret state state_token r.0)
          (complete_login codec cfg out secret code state state_token client)
  unfolding complete_login
  complete_login-Yields secret code state state_token client =
      Yields-after _ _ _ _
        (Yields-Returns _ _ client (saved_state-Returns secret code state state_token))
        (λ saved client₀ began. Yields-after _ _ _ _ (Yields-anything _) (λ form client₁ _.
          Yields-after _ _ _ _ (Yields-anything _) (λ metadata client₂ _.
            Yields-after _ _ _ _ (Yields-anything _) (λ response client₃ _.
              Yields-after _ _ _ _ (Yields-Returns _ _ client₃ (id_token_of-Returns saved response))
                (λ token client₄ carried.
                  Yields-after _ _ _ _
                    (validate_id_token-Yields codec cfg out token.0 token.1 client₄)
                    (λ claims client₅ valid. Yields-Returns _ _ client₅ (record {
                      result = λ r h.
                          let named = (finish_login-Returns saved claims).result r h in
                          record {
                            saved = saved;
                            decoded = began.0;
                            same_state = began.1;
                            nonce = carried.0;
                            saved_nonce = carried.1;
                            claims = claims;
                            token = token.0;
                            valid =
                                subst (λ n. IsValid codec cfg out token.0 n claims) carried.2 valid;
                            named = named;
                            authorized =
                                identity_from_claims-IsAuthorized codec cfg claims r.0 named;
                          };
                    })))))))

  -- A login that completes was begun with the state that the browser brings back, in a token that
  -- decodes. The identity comes from the claims of an ID token that is signed with a key of the id
  -- in its header, names this client among its audiences, has expired no more than 90 seconds ago,
  -- carries the nonce of the state and an allowed tenant. The identity has a known role, at least
  -- one tenant and only known ones, and MFA evidence where it is required.
  pub complete_login-IsAuthentic :
      (secret code state state_token : String) (client : Client) (r : Identity × String)
      → (complete_login codec cfg out secret code state state_token client).0 ≡ ok r
      → IsAuthentic secret state state_token r.0
  complete_login-IsAuthentic secret code state state_token client r =
      (complete_login-Yields secret code state state_token client).result r
