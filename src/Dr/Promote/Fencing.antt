-- ===== src/Dr/Promote/Fencing.antt =====
-- Nothing starts on the DR site before the primary site has been fenced.
use immutavault.Json.{Json}
use immutavault.Engine.Config.{Config}
use immutavault.Dr.Config.{Workload, DrConfig, DrOutside}
use immutavault.Dr.Action.{
  Effect, fence_ran, fence_verified, fence_confirmed, activated, imported, powered_on, World, call,
  pure, answer, update, ◌>>=◌, continue,
}
use immutavault.Dr.Action.Rules.{
  Triple, Triple-bind, Triple-weaken, Keeps, IsOfEffects, keeps_rules, Ends-world, Keeps-bind,
  Keeps-answer, Keeps-pure,
}
use immutavault.Dr.Plan.{PlanRow, Plan}
use immutavault.Dr.Promote.{
  fence_by_command, fence_by_hand, fence_primary, restore_workload, restore_workloads,
  start_workloads, run_failover, power_off_all, abandon_failover, fail_over, promote,
}
use immutavault.Dr.Fence.{succeeded, fence_command, run_fence_verification}
use immutavault.Prelude.{
  ℕ, String, ◌≡◌, refl, Bool, true, false, not, ◌&&◌, ◌||◌, Option, none, some, List, [], ◌∷◌, any,
  ◌==◌, if◌then◌else◌, Error, Result, ok, err, Bool-cases, inl, inr, arith,
}

abbrev pub is_fence : Effect → Bool
is_fence (fence_ran good) = good
is_fence _ = false

abbrev pub is_fence_verification : Effect → Bool
is_fence_verification (fence_verified good) = good
is_fence_verification _ = false

abbrev pub is_confirmation : Effect → Bool
is_confirmation fence_confirmed = true
is_confirmation _ = false

-- the settings name a command that verifies the fence
abbrev pub has_verification : Option String → Bool
has_verification none = false
has_verification (some name) = not (name == "")

-- What the settings ask of a fence has been done and has succeeded.
abbrev pub is_fenced : DrConfig → List Effect → Bool
is_fenced dr es =
    if dr.fence.mode == "command"
    then any is_fence es
      && (not (has_verification dr.fence.verify_command_env) || any is_fence_verification es)
    else any is_confirmation es

-- the effects that let the workloads of the DR site run
abbrev pub needs_fence : DrConfig → Effect → Bool
needs_fence dr (imported name) = true
needs_fence dr (activated site) = site == dr.dr_site
needs_fence dr (powered_on name) = true
needs_fence dr _ = false

-- Every such effect has the fence behind it; the latest effect stands first.
abbrev pub IsFencedFirst : DrConfig → List Effect → Type 0
IsFencedFirst dr [] = Unit
IsFencedFirst dr (e ∷ es) =
    ((not (needs_fence dr e) || is_fenced dr es) ≡ true) × IsFencedFirst dr es

abbrev pub IsSafe : DrConfig → World → Type 0
IsSafe dr w = IsFencedFirst dr w.effects

-- safe so far, and the fence command has succeeded
HasRun : DrConfig → World → Type 0
HasRun dr w = IsFencedFirst dr w.effects × (any is_fence w.effects ≡ true)

-- safe so far, and fenced
IsFenced : DrConfig → World → Type 0
IsFenced dr w = IsFencedFirst dr w.effects × (is_fenced dr w.effects ≡ true)

IsFenced-IsOfEffects : (dr : DrConfig) → IsOfEffects (IsFenced dr)
unfolding IsFenced
IsFenced-IsOfEffects dr = record { db = λ w d h. h; restored = λ w rs h. h }

pub IsSafe-IsOfEffects : (dr : DrConfig) → IsOfEffects (IsSafe dr)
IsSafe-IsOfEffects dr = record { db = λ w d h. h; restored = λ w rs h. h }

is_fenced-cons :
    (dr : DrConfig) (e : Effect) (es : List Effect)
    → is_fenced dr es ≡ true
    → is_fenced dr (e ∷ es) ≡ true
is_fenced-cons dr e es h = ground arith

-- after the fence any effect is safe
IsFenced-effect :
    (dr : DrConfig) (e : Effect) (w : World)
    → IsFenced dr w
    → IsFenced dr (record w { effects = e ∷ w.effects })
unfolding IsFenced
IsFenced-effect dr e w h = ((ground arith, h.0), is_fenced-cons dr e w.effects h.1)

module _ (sha256 : String → String) (cfg : Config) (dr : DrConfig) (out : DrOutside) where
  restore_workload-Keeps :
      (run_id : ℕ) (w : Workload) (row : PlanRow)
      → Keeps (IsFenced dr) (restore_workload sha256 cfg dr out run_id w row)
  unfolding restore_workload
  restore_workload-Keeps run_id w row =
      search (keeps_rules, IsFenced-IsOfEffects dr, IsFenced-effect) depth 30

  restore_workloads-Keeps :
      (run_id : ℕ) (rows : List PlanRow)
      → Keeps (IsFenced dr) (restore_workloads sha256 cfg dr out run_id rows)
  unfolding restore_workloads
  restore_workloads-Keeps run_id [] = search (keeps_rules)
  restore_workloads-Keeps run_id (row ∷ rows) =
      Keeps-bind _ _ (restore_workload-Keeps run_id row.workload row)
        (λ _. restore_workloads-Keeps run_id rows)

  start_workloads-Keeps :
      (label : String) (restored : List (Workload × Json))
      → Keeps (IsFenced dr) (start_workloads out label restored)
  unfolding start_workloads
  start_workloads-Keeps label [] = search (keeps_rules)
  start_workloads-Keeps label ((w, result) ∷ rest) =
      Keeps-bind _ _ (search (keeps_rules, IsFenced-effect)) (λ _.
        Keeps-bind _ _ (Keeps-answer _)
          (λ _. Keeps-bind _ _ (start_workloads-Keeps label rest) (λ others. Keeps-pure _)))

  run_failover-Keeps :
      (run_id : ℕ) (p : Plan) → Keeps (IsFenced dr) (run_failover sha256 cfg dr out run_id p)
  unfolding run_failover
  run_failover-Keeps run_id p =
      search
        (
          keeps_rules,
          IsFenced-IsOfEffects dr,
          IsFenced-effect,
          restore_workloads-Keeps,
          start_workloads-Keeps,
        )
        depth 30

  power_off_all-Keeps :
      (restored : List (Workload × Json)) → Keeps (IsFenced dr) (power_off_all out restored)
  unfolding power_off_all
  power_off_all-Keeps [] = search (keeps_rules)
  power_off_all-Keeps ((w, result) ∷ rest) =
      Keeps-bind _ _ (search (keeps_rules, IsFenced-effect)) (λ _. power_off_all-Keeps rest)

  abandon_failover-Keeps :
      (run_id : ℕ) (e : Error) → Keeps (IsFenced dr) (abandon_failover sha256 cfg dr out run_id e)
  unfolding abandon_failover
  abandon_failover-Keeps run_id e =
      search (keeps_rules, IsFenced-IsOfEffects dr, IsFenced-effect, power_off_all-Keeps) depth 30

  -- The fence command has run once it has succeeded.
  fence_ran-Triple :
      (r : Result (Unit {0}))
      → Triple (IsSafe dr) (HasRun dr) (IsSafe dr) (call (fence_ran (succeeded r)) r)
  unfolding call HasRun
  fence_ran-Triple (ok _) = record { at = λ w h. ((refl, h), refl) }
  fence_ran-Triple (err e) = record { at = λ w h. (refl, h) }

  verified-Triple :
      (r : Result (Unit {0}))
      → (dr.fence.mode == "command") ≡ true
      → Triple (HasRun dr) (IsFenced dr) (IsSafe dr) (call (fence_verified (succeeded r)) r)
  unfolding call HasRun IsFenced
  verified-Triple (ok _) mode = record { at = λ w h. ((refl, h.0), ground arith) }
  verified-Triple (err e) mode = record { at = λ w h. (refl, h.0) }

  run_fence_verification-Triple :
      (verify : Option String)
      → dr.fence.verify_command_env ≡ verify
      → (dr.fence.mode == "command") ≡ true
      → Triple (HasRun dr) (IsFenced dr) (IsSafe dr) (run_fence_verification out verify)
  unfolding pure HasRun IsFenced
  run_fence_verification-Triple none asked mode = record {
    at = λ w h. (h.0, rw (mode, asked) (ground arith));
  }
  run_fence_verification-Triple (some name) asked mode = elim (Bool-cases (name == "")) [
    | inl empty ↦ rw empty (record { at = λ w h. (h.0, rw (mode, asked, empty) (ground arith)) })
    | inr given ↦ rw given (verified-Triple (out.run_command name) mode)
  ]

  fence_by_command-Triple :
      (dr.fence.mode == "command") ≡ true
      → Triple (IsSafe dr) (IsFenced dr) (IsSafe dr) (fence_by_command sha256 cfg dr out)
  unfolding update IsFenced
  fence_by_command-Triple mode =
      Triple-bind (IsSafe dr) (HasRun dr) (IsFenced dr) (IsSafe dr) _ _
        (fence_ran-Triple (fence_command out dr.fence.command_env "primary fence"))
        (λ _.
          Triple-bind (HasRun dr) (IsFenced dr) (IsFenced dr) (IsSafe dr) _ _
            (run_fence_verification-Triple dr.fence.verify_command_env refl mode)
            (λ _. record { at = λ w h. h }))

  fence_by_hand-Triple :
      (confirmed automatic : Bool)
      → (dr.fence.mode == "command") ≡ false
      → Triple
          (IsSafe dr)
          (IsFenced dr)
          (IsSafe dr)
          (fence_by_hand sha256 cfg dr out confirmed automatic)
  unfolding answer call update ◌>>=◌ continue IsFenced
  fence_by_hand-Triple true true mode = record { at = λ w h. h }
  fence_by_hand-Triple false true mode = record { at = λ w h. h }
  fence_by_hand-Triple false false mode = record { at = λ w h. h }
  fence_by_hand-Triple true false mode = record { at = λ w h. ((refl, h), rw mode refl) }

  -- A fence that goes through has done what the settings ask of it.
  fence_primary-Triple :
      (confirmed automatic : Bool)
      → Triple
          (IsSafe dr)
          (IsFenced dr)
          (IsSafe dr)
          (fence_primary sha256 cfg dr out confirmed automatic)
  unfolding fence_primary
  fence_primary-Triple confirmed automatic = elim (Bool-cases (dr.fence.mode == "command")) [
    | inl mode ↦ rw mode (fence_by_command-Triple mode)
    | inr mode ↦ rw mode (fence_by_hand-Triple confirmed automatic mode)
  ]

  fail_over-Triple :
      (confirmed automatic : Bool) (p : Plan)
      → Triple
          (IsSafe dr)
          (IsFenced dr)
          (IsSafe dr)
          (fail_over sha256 cfg dr out confirmed automatic p)
  unfolding fail_over IsFenced
  fail_over-Triple confirmed automatic p =
      Triple-bind (IsSafe dr) (IsFenced dr) (IsFenced dr) (IsSafe dr) _ _
        (fence_primary-Triple confirmed automatic)
        (λ _.
          Triple-weaken (IsFenced dr) (IsFenced dr) (IsFenced dr) (IsFenced dr) (IsFenced dr)
            (IsSafe dr) _ (λ w h. h) (λ w h. h) (λ w h. h.0)
            (search
              (keeps_rules, IsFenced-IsOfEffects dr, run_failover-Keeps, abandon_failover-Keeps)
              depth 30))

  fail_over-Keeps :
      (confirmed automatic : Bool) (p : Plan)
      → Keeps (IsSafe dr) (fail_over sha256 cfg dr out confirmed automatic p)
  unfolding IsFenced
  fail_over-Keeps confirmed automatic p =
      Triple-weaken (IsSafe dr) (IsFenced dr) (IsSafe dr) (IsSafe dr) (IsSafe dr) (IsSafe dr) _
        (λ w h. h) (λ w h. h.0) (λ w h. h) (fail_over-Triple confirmed automatic p)

  pub promote-Keeps :
      (execute confirmed automatic : Bool)
      → Keeps (IsSafe dr) (promote sha256 cfg dr out execute confirmed automatic)
  unfolding promote
  promote-Keeps execute confirmed automatic = search (keeps_rules, fail_over-Keeps) depth 30

  -- promote keeps the order of the effects outside safe, whatever everything outside answers: the
  -- network of the DR site is activated, a workload imported there or powered on only after the
  -- fence, which is the fence command that has succeeded, with its verification where one is set,
  -- or else the confirmation by hand.
  pub promote-IsFencedFirst :
      (execute confirmed automatic : Bool) (w : World)
      → IsFencedFirst dr w.effects
      → IsFencedFirst dr (promote sha256 cfg dr out execute confirmed automatic w).1.effects
  promote-IsFencedFirst execute confirmed automatic w h =
      Ends-world (IsSafe dr) (promote sha256 cfg dr out execute confirmed automatic w)
        ((promote-Keeps execute confirmed automatic).at w h)
