-- ===== src/Access/Documents/Yields.antt =====
-- What a call of the OIDC client yields, by the rules for its steps.
use immutavault.Access.Token.{compare_digest, is_ascii}
use immutavault.Access.Documents.{Client, Call, after}
use immutavault.Prelude.{
  String, ◌≡◌, refl, Bool, not, ◌||◌, ◌==◌, Result, ok, err, Returns, Returns-ok, Bool-cases, inl,
  inr,
}

-- what holds of every result of a call of the client
pub record Yields {ℓ} {A : Type 0} (Q : A → Type ℓ) (x : Result A × Client) : Type ℓ where
  pub result : (a : A) → x.0 ≡ ok a → Q a

pub Yields-after {ℓ κ} :
    {A B : Type 0} (P : A → Type ℓ) (Q : B → Type κ) (x : Result A × Client) (f : A → Call B)
    → Yields P x
    → ((a : A) (client : Client) → P a → Yields Q (f a client))
    → Yields Q (after x f)
unfolding after
Yields-after P Q (err e, client) f p q = record { result = λ b h. cc }
Yields-after P Q (ok a, client) f p q = q a client (p.result a refl)

pub Yields-Returns {ℓ} :
    {A : Type 0} (Q : A → Type ℓ) (r : Result A) (client : Client)
    → Returns Q r
    → Yields Q (r, client)
Yields-Returns Q r client q = record { result = q.result }

-- every result is the result
pub Returns-itself : {A : Type 0} (r : Result A) → Returns (λ a. r ≡ ok a) r
Returns-itself r = record { result = λ a h. h }

pub Yields-anything : {A : Type 0} (x : Result A × Client) → Yields (λ a. Unit {0}) x
Yields-anything x = record { result = λ a h. tt }

pub compare_digest-Returns :
    (a b : String) → Returns (λ (same : Bool). (a == b) ≡ same) (compare_digest a b)
compare_digest-Returns a b = elim (Bool-cases (not (is_ascii a) || not (is_ascii b))) [
  | inl foreign ↦ simp foreign (record { result = λ s h. cc })
  | inr plain ↦ simp plain (Returns-ok _ (a == b) refl)
]
