-- ===== src/Tests/Access.antt =====
-- A session token, with a codec that knows the two texts of the example.
use immutavault.Prelude.Text.{followed_by, text_length, all_chars}
use immutavault.Json.{str, obj}
use immutavault.Json.Print.{dumps_sorted, decimal, quote}
use immutavault.Access.{Identity, role_order}
use immutavault.Access.Token.{Codec, session_payload, identity_token, identity_from_token, equals}
use immutavault.Access.Token.Base64.{IsEncoded}
use immutavault.Access.Token.RoundTrip.{IsSession, identity_from_token-identity_token}
use immutavault.Prelude.{
  String, ◌≡◌, refl, true, some, some_eq, arith, ◌+◌, ◌*◌, [], ◌∷◌, ltb, ◌==◌, if◌then◌else◌, ok,
  err, value_error, permission_error,
}

abbrev ann : Identity
ann = record {
  subject = "oidc:t1:ann";
  name = "Ann";
  role = "approver";
  tenants = "north" ∷ [];
  source = "oidc";
  mfa = true;
  tenant_id = some "t1";
}

abbrev written : String
written = dumps_sorted (obj (session_payload 1000 60 ann))

abbrev codec : Codec
codec = record {
  urlsafe_b64encode = λ raw. if raw == "mac" then "c2ln" else "Ym9keQ==";
  urlsafe_b64decode = λ t. if t == "c2ln" then ok "mac" else ok written;
  hmac_sha256 = λ secret t. "mac";
  loads = λ t. ok (obj (session_payload 1000 60 ann));
  repr = λ v. elim v [ str s ↦ s | other ↦ "" ];
  int_of_text = λ t. err (value_error "invalid literal for int()");
}

body : IsEncoded codec written
unfolding followed_by dumps_sorted quote decimal equals text_length all_chars
body = record {
  text = "Ym9keQ";
  pads = 2;
  written = refl;
  alphabet = refl;
  multiple = refl;
  short = omega arith;
  read = refl;
}

signed : IsEncoded codec "mac"
unfolding followed_by equals text_length all_chars
signed = record {
  text = "c2ln";
  pads = 0;
  written = refl;
  alphabet = refl;
  multiple = refl;
  short = omega arith;
  read = refl;
}

ann-IsSession : IsSession ann
unfolding role_order
ann-IsSession = record {
  known = refl;
  scoped = refl;
  subject = refl;
  name = refl;
  source = refl;
  tenant = λ t h. rw (← some_eq h) refl;
}

identity_from_token-identity_token_example :
    identity_from_token codec "secret" 4600 (identity_token codec "secret" 1000 60 ann)
    ≡ (if ltb (1000 + 60 * 60) 4600 then err (permission_error "signed token expired") else ok ann)
identity_from_token-identity_token_example =
    identity_from_token-identity_token codec "secret" 1000 60 4600 ann (session_payload 1000 60 ann)
      body signed refl (λ k d. refl) ann-IsSession
