-- ===== src/Dr/Action/Rules.antt =====
-- What calls leave true: a rule for each way to build one.
use immutavault.Json.{Json}
use immutavault.Catalog.Rows.{Db}
use immutavault.Dr.Config.{Workload}
use immutavault.Dr.Action.{
  Effect, World, Action, continue, ◌>>=◌, pure, answer, ask, call, write, update, push_restored,
  restored_latest_first, clear_restored, handle, on_error, ignore_error,
}
use immutavault.Prelude.{Bool, true, false, List, ◌∷◌, if◌then◌else◌, Error, Result, ok, err}

-- From `P`, the call answers with `Q` or raises with `E`.
abbrev pub Ends {ℓ} : {A : Type ℓ} → (World → Type 0) → (World → Type 0) → Result A × World → Type 0
Ends Q E (ok a, w) = Q w
Ends Q E (err e, w) = E w

pub record Triple {ℓ} {A : Type ℓ} (P Q E : World → Type 0) (m : Action A) : Type ℓ where
  pub at : (w : World) → P w → Ends Q E (m w)

-- `m` keeps `P`, whether it answers or raises
abbrev pub Keeps {ℓ} : {A : Type ℓ} → (World → Type 0) → Action A → Type ℓ
Keeps P m = Triple P P P m

-- `P` speaks of the effects alone
pub record IsOfEffects (P : World → Type 0) : Type 0 where
  pub db : (w : World) (d : Db) → P w → P (record w { db = d })
  pub restored : (w : World) (rs : List (Workload × Json)) → P w → P (record w { restored = rs })

Ends-both {ℓ} : {A : Type ℓ} (P : World → Type 0) (r : Result A × World) → P r.1 → Ends P P r
Ends-both P (ok a, w) h = h
Ends-both P (err e, w) h = h

pub Ends-world {ℓ} : {A : Type ℓ} (P : World → Type 0) (r : Result A × World) → Ends P P r → P r.1
Ends-world P (ok a, w) h = h
Ends-world P (err e, w) h = h

Ends-continue {ℓ κ} :
    {A : Type ℓ} {B : Type κ} (Q R E : World → Type 0) (r : Result A × World) (f : A → Action B)
    → Ends Q E r
    → ((a : A) → Triple Q R E (f a))
    → Ends R E (continue r f)
unfolding continue
Ends-continue Q R E (ok a, w) f h rest = (rest a).at w h
Ends-continue Q R E (err e, w) f h rest = h

Ends-weaken {ℓ} :
    {A : Type ℓ} (Q Q' E E' : World → Type 0) (r : Result A × World)
    → ((w : World) → Q w → Q' w)
    → ((w : World) → E w → E' w)
    → Ends Q E r
    → Ends Q' E' r
Ends-weaken Q Q' E E' (ok a, w) q e h = q w h
Ends-weaken Q Q' E E' (err _, w) q e h = e w h

pub Triple-weaken {ℓ} :
    {A : Type ℓ} (P Q E P' Q' E' : World → Type 0) (m : Action A)
    → ((w : World) → P' w → P w)
    → ((w : World) → Q w → Q' w)
    → ((w : World) → E w → E' w)
    → Triple P Q E m
    → Triple P' Q' E' m
Triple-weaken P Q E P' Q' E' m p q e h = record {
  at = λ w k. Ends-weaken Q Q' E E' (m w) q e (h.at w (p w k));
}

pub Triple-bind {ℓ κ} :
    {A : Type ℓ} {B : Type κ} (P Q R E : World → Type 0) (m : Action A) (f : A → Action B)
    → Triple P Q E m
    → ((a : A) → Triple Q R E (f a))
    → Triple P R E (m >>= f)
unfolding ◌>>=◌
Triple-bind P Q R E m f first rest = record {
  at = λ w h. Ends-continue Q R E (m w) f (first.at w h) rest;
}

module _ {P : World → Type 0} where
  pub Keeps-bind {ℓ κ} :
      {A : Type ℓ} {B : Type κ} (m : Action A) (f : A → Action B)
      → Keeps P m
      → ((a : A) → Keeps P (f a))
      → Keeps P (m >>= f)
  Keeps-bind m f first rest = Triple-bind P P P P m f first rest

  pub Keeps-pure {ℓ} : {A : Type ℓ} (a : A) → Keeps P (pure a)
  unfolding pure
  Keeps-pure a = record { at = λ w h. h }

  pub Keeps-answer {ℓ} : {A : Type ℓ} (r : Result A) → Keeps P (answer r)
  unfolding answer
  Keeps-answer r = record { at = λ w h. Ends-both P (r, w) h }

  pub Keeps-ask {ℓ} : {A : Type ℓ} (f : Db → Result A) → Keeps P (ask f)
  unfolding ask
  Keeps-ask f = record { at = λ w h. Ends-both P (f w.db, w) h }

  pub Keeps-latest_first : Keeps P restored_latest_first
  unfolding restored_latest_first
  Keeps-latest_first = record { at = λ w h. h }

  pub Keeps-call {ℓ} :
      {A : Type ℓ} (e : Effect) (r : Result A)
      → ((w : World) → P w → P (record w { effects = e ∷ w.effects }))
      → Keeps P (call e r)
  unfolding call
  Keeps-call e r k = record { at = λ w h. Ends-both P (r, _) (k w h) }

  pub Keeps-ignore_error {ℓ} : {A : Type ℓ} (m : Action A) → Keeps P m → Keeps P (ignore_error m)
  unfolding ignore_error
  Keeps-ignore_error m k = record { at = λ w h. Ends-world P (m w) (k.at w h) }

  pub Keeps-if {ℓ} :
      {A : Type ℓ} (b : Bool) (m n : Action A)
      → Keeps P m
      → Keeps P n
      → Keeps P (if b then m else n)
  Keeps-if true m n km kn = km
  Keeps-if false m n km kn = kn

  handled {ℓ} :
      {A : Type ℓ} (handler : Error → Action (Unit {0})) (r : Result A × World)
      → ((e : Error) → Keeps P (handler e))
      → Ends P P r
      → Ends P P (handle handler r)
  unfolding handle
  handled handler (ok a, w) k h = h
  handled handler (err e, w) k h =
      Ends-continue P P P (handler e w) (λ _ w'. (err e, w')) ((k e).at w h)
        (λ _. record { at = λ w' p. p })

  pub Keeps-on_error {ℓ} :
      {A : Type ℓ} (m : Action A) (handler : Error → Action (Unit {0}))
      → Keeps P m
      → ((e : Error) → Keeps P (handler e))
      → Keeps P (on_error m handler)
  unfolding on_error
  Keeps-on_error m handler km k = record { at = λ w h. handled handler (m w) k (km.at w h) }

  module _ (of_effects : IsOfEffects P) where
    pub Keeps-write {ℓ} : {A : Type ℓ} (f : Db → Result A × Db) → Keeps P (write f)
    unfolding write
    Keeps-write f = record {
      at = λ w h. Ends-both P ((f w.db).0, _) (of_effects.db w (f w.db).1 h);
    }

    pub Keeps-update : (f : Db → Db) → Keeps P (update f)
    unfolding update
    Keeps-update f = record { at = λ w h. of_effects.db w (f w.db) h }

    pub Keeps-push_restored : (x : Workload × Json) → Keeps P (push_restored x)
    unfolding push_restored
    Keeps-push_restored x = record { at = λ w h. of_effects.restored w _ h }

    pub Keeps-clear_restored : Keeps P clear_restored
    unfolding clear_restored
    Keeps-clear_restored = record { at = λ w h. of_effects.restored w _ h }

pub ruleset keeps_rules = (
  Keeps-bind, Keeps-pure, Keeps-answer, Keeps-ask, Keeps-latest_first, Keeps-call,
  Keeps-ignore_error, Keeps-if, Keeps-on_error, Keeps-write, Keeps-update, Keeps-push_restored,
  Keeps-clear_restored,
)
