-- ===== src/Dr/Promote/Blocked.antt =====
-- When `promote` does nothing at all.
use immutavault.Engine.Config.{Config}
use immutavault.Dr.Config.{DrConfig, DrOutside}
use immutavault.Dr.Action.{World, ◌>>=◌, pure, answer, ask, continue}
use immutavault.Dr.Plan.{Plan, plan, preflight, already_failed_over}
use immutavault.Dr.Promote.{execute_promotion, promote}
use immutavault.Prelude.{
  String, ◌≡◌, refl, Bool, true, false, not, ◌||◌, is_empty, ok, Bool-cases, inl, inr, arith,
}

module _ (sha256 : String → String) (cfg : Config) (dr : DrConfig) (out : DrOutside) where
  execute_promotion_blocked :
      (confirmed automatic : Bool) (w : World) (p : Plan)
      → (already_failed_over w.db
          || not p.ready
          || not (is_empty (preflight cfg dr out p).problems))
        ≡ true
      → (execute_promotion sha256 cfg dr out confirmed automatic p w).1 ≡ w
  unfolding ◌>>=◌ continue answer ask pure
  execute_promotion_blocked confirmed automatic w p blocked =
      elim (Bool-cases (already_failed_over w.db)) [
        | inl active ↦ simp active refl
        | inr inactive ↦ elim (Bool-cases p.ready) [
          | inr unready ↦ simp (inactive, unready) refl
          | inl ready ↦ elim (Bool-cases (is_empty (preflight cfg dr out p).problems)) [
            | inr problems ↦ simp (inactive, ready, problems) refl
            | inl fine ↦ ground arith
          ]
        ]
      ]

  -- promote changes nothing at all where it is not to be executed, a failover is already active,
  -- the plan is not ready, or the preflight finds a problem.
  pub promote_blocked :
      (execute confirmed automatic : Bool) (w : World) (p : Plan)
      → plan cfg dr out w.db ≡ ok p
      → (not execute
          || already_failed_over w.db
          || not p.ready
          || not (is_empty (preflight cfg dr out p).problems))
        ≡ true
      → (promote sha256 cfg dr out execute confirmed automatic w).1 ≡ w
  unfolding promote ◌>>=◌ continue answer ask pure
  promote_blocked false confirmed automatic w p found blocked = rw (found, promote) refl
  promote_blocked true confirmed automatic w p found blocked =
      rw (found, promote) (execute_promotion_blocked confirmed automatic w p blocked)
