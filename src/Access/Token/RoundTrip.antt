-- ===== src/Access/Token/RoundTrip.antt =====
-- A token that has been issued is read back until it expires.
use immutavault.Json.{Json, Fields, null, bool, num, str, arr, obj, end, field, get_field}
use immutavault.Json.Print.{dumps_sorted}
use immutavault.Access.{Identity, role_order}
use immutavault.Access.Token.{
  Codec, is_ascii, texts_of, texts_or_none, session_payload, b64url_decode, signature_of, encode,
  payload_of, check_payload, decode, get_or, identity_token, session_identity, identity_from_token,
  tenant_of, tenant_json,
}
use immutavault.Engine.Retention.{names_json}
use immutavault.Prelude.{
  ℕ, ◌+◌, ◌*◌, String, ◌≡◌, refl, sym, ap, ◌∙◌, true, false, Option, none, some, is_some, List, [],
  ◌∷◌, is_empty, ltb, ◌==◌, if◌then◌else◌, ok, err, ◌>>=◌, permission_error, eq_refl, Bool-cases,
  inl, inr,
}
use immutavault.Access.Token.Base64.{
  IsEncoded, encoded-text, b64url_decode-b64url_encode, is_ascii-encoded, split_once-followed_by,
}

module _ (codec : Codec) where
  -- A token that has been encoded is split and passes its signature.
  decode-encode :
      (secret : String) (now : ℕ) (expected : Option String) (payload : Fields)
      (body : IsEncoded codec (dumps_sorted (obj payload)))
      → IsEncoded codec (codec.hmac_sha256 secret body.text)
      → decode codec secret now expected (encode codec secret payload)
        ≡ (payload_of codec body.text >>= check_payload codec now expected)
  unfolding decode encode
  decode-encode secret now expected payload body signed =
      let sig = signature_of codec secret body.text in
      let ascii : is_ascii sig ≡ true = is_ascii-encoded codec _ signed in
      rw
        (
          encoded-text codec _ body,
          decode,
          split_once-followed_by body.text sig body.alphabet,
          ascii,
          eq_refl sig,
        )
        refl

  payload_of-encoded :
      (raw : String) (e : IsEncoded codec raw) (v : Json)
      → codec.loads raw ≡ ok v
      → payload_of codec e.text ≡ ok v
  payload_of-encoded raw e v loaded =
      let decoded : b64url_decode codec e.text ≡ ok raw =
        rw (← encoded-text codec raw e) (b64url_decode-b64url_encode codec raw e) in
      rw (payload_of, decoded, loaded) refl

-- Two objects have the same members, perhaps in another order.
abbrev pub IsSameObject : Fields → Fields → Type 0
IsSameObject fs gs = (k : String) (default : Json) → get_or k default fs ≡ get_or k default gs

get_field-get_or : (k : String) (fs : Fields) → get_field k fs ≡ get_or k null fs
unfolding get_field get_or
get_field-get_or k end = refl
get_field-get_or k (field j v fs) = rw (get_field-get_or k fs) refl

same-get_field :
    (fs gs : Fields) (k : String) → IsSameObject fs gs → get_field k fs ≡ get_field k gs
same-get_field fs gs k same = get_field-get_or k fs ∙ same k null ∙ sym (get_field-get_or k gs)

texts_of-names_json :
    (repr : Json → String) (names : List String) → texts_of repr (names_json names) ≡ names
unfolding texts_of
texts_of-names_json repr [] = refl
texts_of-names_json repr (n ∷ names) = ap (λ ns. n ∷ ns) (texts_of-names_json repr names)

-- An identity that a login can have: its role is known, it has a tenant, and no text is empty.
pub record IsSession (i : Identity) : Type 0 where
  pub known : is_some (role_order i.role) ≡ true
  pub scoped : is_empty i.tenants ≡ false
  pub subject : (i.subject == "") ≡ false
  pub name : (i.name == "") ≡ false
  pub source : (i.source == "") ≡ false
  pub tenant : (t : String) → i.tenant_id ≡ some t → (t == "") ≡ false

tenant_of-tenant_json :
    (codec : Codec) (o : Option String)
    → ((t : String) → o ≡ some t → (t == "") ≡ false)
    → tenant_of codec (tenant_json o) ≡ o
tenant_of-tenant_json codec none h = refl
tenant_of-tenant_json codec (some t) h = rw (h t refl) refl

session_identity-payload :
    (codec : Codec) (issued minutes : ℕ) (i : Identity) (fs : Fields)
    → IsSameObject fs (session_payload issued minutes i)
    → IsSession i
    → session_identity codec fs ≡ ok i
unfolding get_field get_or texts_or_none
session_identity-payload codec issued minutes i fs same s =
    let payload = session_payload issued minutes i in
    let role : get_or "role" (str "viewer") fs ≡ str i.role = same "role" (str "viewer") in
    let mfa : get_or "mfa" (bool false) fs ≡ bool i.mfa = same "mfa" (bool false) in
    let tenants : get_field "tenants" fs ≡ arr (names_json i.tenants) =
      same-get_field fs payload "tenants" same in
    let subject : get_field "sub" fs ≡ str i.subject = same-get_field fs payload "sub" same in
    let name : get_field "name" fs ≡ str i.name = same-get_field fs payload "name" same in
    let source : get_field "source" fs ≡ str i.source = same-get_field fs payload "source" same in
    let tenant : get_field "tenant_id" fs ≡ tenant_json i.tenant_id =
      same-get_field fs payload "tenant_id" same in
    simp
      (
        role,
        mfa,
        tenants,
        subject,
        name,
        source,
        tenant,
        s.known,
        s.subject,
        s.name,
        s.source,
        texts_of-names_json codec.repr i.tenants,
        s.scoped,
        tenant_of-tenant_json codec i.tenant_id s.tenant,
      )
      refl

check_payload-session :
    (codec : Codec) (issued minutes now : ℕ) (i : Identity) (fs : Fields)
    → IsSameObject fs (session_payload issued minutes i)
    → check_payload codec now (some "session") (obj fs) ≡ (
        if ltb (issued + minutes * 60) now
        then err (permission_error "signed token expired")
        else ok fs)
unfolding get_field get_or
check_payload-session codec issued minutes now i fs same =
    let payload = session_payload issued minutes i in
    let exp : get_or "exp" (num 0) fs ≡ num (issued + minutes * 60) = same "exp" (num 0) in
    let typ : get_field "typ" fs ≡ str "session" = same-get_field fs payload "typ" same in
    elim (Bool-cases (ltb (issued + minutes * 60) now)) [
      | inl late ↦ simp (exp, typ, late) refl
      | inr early ↦ simp (exp, typ, early) refl
    ]

-- A session token is read back as the identity it was issued for until it expires, and refused as
-- expired from then on, where base64 and JSON read back this payload, and the identity has a known
-- role, a tenant and no empty text.
pub identity_from_token-identity_token :
    (codec : Codec) (secret : String) (issued minutes now : ℕ) (i : Identity) (fs : Fields)
    (body : IsEncoded codec (dumps_sorted (obj (session_payload issued minutes i))))
    → IsEncoded codec (codec.hmac_sha256 secret body.text)
    → codec.loads (dumps_sorted (obj (session_payload issued minutes i))) ≡ ok (obj fs)
    → IsSameObject fs (session_payload issued minutes i)
    → IsSession i
    → identity_from_token codec secret now (identity_token codec secret issued minutes i) ≡ (
        if ltb (issued + minutes * 60) now
        then err (permission_error "signed token expired")
        else ok i)
unfolding identity_from_token
identity_from_token-identity_token codec secret issued minutes now i fs body signed loaded same s =
    let payload = session_payload issued minutes i in
    let read : decode codec secret now (some "session") (encode codec secret payload)
        ≡ check_payload codec now (some "session") (obj fs) =
      decode-encode codec secret now (some "session") payload body signed
      ∙ rw (payload_of-encoded codec _ body (obj fs) loaded) refl in
    let outcome = read ∙ check_payload-session codec issued minutes now i fs same in
    elim (Bool-cases (ltb (issued + minutes * 60) now)) [
      | inl late ↦ simp (outcome, late, identity_from_token) refl
      | inr early ↦
          simp (outcome, early, identity_from_token)
            (session_identity-payload codec issued minutes i fs same s)
    ]
