-- ===== src/Dr/Watch/Quiet.antt =====
-- When the watch may act outside.
use immutavault.Catalog.Rows.{DrHealth}
use immutavault.Catalog.Health.{HealthReport, update_dr_health, get_dr_health}
use immutavault.Engine.Config.{Config}
use immutavault.Dr.Config.{DrConfig, DrOutside}
use immutavault.Dr.Action.{World, ◌>>=◌, pure, answer, ask, write, continue}
use immutavault.Dr.Action.Rules.{
  Ends-world, Keeps, keeps_rules, Keeps-bind, Keeps-write, Keeps-pure,
}
use immutavault.Dr.Promote.Fencing.{IsFencedFirst, IsSafe, promote-Keeps, IsSafe-IsOfEffects}
use immutavault.Dr.Watch.{
  WatchOutside, site_healthy, probe_detail, wait_for, react, check_site, watch,
}
use immutavault.Prelude.{
  ℕ, String, ◌≡◌, refl, Bool, true, false, not, ◌&&◌, ◌||◌, Option, none, some, ltb, Bool-cases,
  inl, inr, arith,
}

module _ (sha256 : String → String) (cfg : Config) (dr : DrConfig) (out : DrOutside) where
  -- the consecutive failures after the check, and whether they call for a failover
  abbrev pub calls_for_failover : WatchOutside → World → Bool
  calls_for_failover outside w =
      not outside.in_maintenance
      && dr.auto_failover
      && not (site_healthy dr outside.probes)
      && not (
          ltb
            (update_dr_health outside.now outside.now' "primary-site"
              (site_healthy dr outside.probes) (probe_detail dr outside.probes)
              w.db).0.consecutive_failures
            dr.failure_threshold)

  react-effects :
      (healthy : Bool) (health : HealthReport) (w : World)
      → (healthy || ltb health.consecutive_failures dr.failure_threshold || not dr.auto_failover)
        ≡ true
      → (react sha256 cfg dr out healthy health w).1.effects ≡ w.effects
  unfolding react pure
  react-effects healthy health w quiet = rw quiet refl

  check_site-effects :
      (outside : WatchOutside) (o : Option (ℕ × DrHealth)) (w : World)
      → outside.in_maintenance ≡ false
      → calls_for_failover outside w ≡ false
      → (check_site sha256 cfg dr out outside o w).1.effects ≡ w.effects
  unfolding ◌>>=◌ continue pure write
  check_site-effects outside (some (seconds, row)) w present quiet = refl
  check_site-effects outside none w present quiet =
      react-effects (site_healthy dr outside.probes) _ _ (ground arith)

  -- watch does nothing outside unless there is no maintenance, automatic failover is on, the
  -- primary site fails its quorum of probes, and its consecutive failures with this one reach the
  -- threshold.
  pub watch_quiet :
      (outside : WatchOutside) (w : World)
      → calls_for_failover outside w ≡ false
      → (watch sha256 cfg dr out outside w).1.effects ≡ w.effects
  unfolding watch ◌>>=◌ continue answer ask pure
  watch_quiet outside w quiet = elim (Bool-cases dr.enabled) [
    | inr disabled ↦ simp disabled refl
    | inl enabled ↦ elim (Bool-cases outside.in_maintenance) [
      | inl maintained ↦ simp (enabled, maintained) refl
      | inr present ↦
          simp (enabled, present)
            (check_site-effects outside (wait_for dr outside (get_dr_health "primary-site" w.db)) w
              present quiet)
    ]
  ]

  react-Keeps :
      (healthy : Bool) (health : HealthReport)
      → Keeps (IsSafe dr) (react sha256 cfg dr out healthy health)
  unfolding react
  react-Keeps healthy health = search (keeps_rules, promote-Keeps) depth 30

  check_site-Keeps :
      (outside : WatchOutside) (o : Option (ℕ × DrHealth))
      → Keeps (IsSafe dr) (check_site sha256 cfg dr out outside o)
  check_site-Keeps outside (some (seconds, row)) = Keeps-pure _
  check_site-Keeps outside none =
      Keeps-bind _ _ (Keeps-write (IsSafe-IsOfEffects dr) _) (λ health. react-Keeps _ health)

  watch-Keeps : (outside : WatchOutside) → Keeps (IsSafe dr) (watch sha256 cfg dr out outside)
  unfolding watch
  watch-Keeps outside = search (keeps_rules, check_site-Keeps) depth 30

  -- watch keeps the order of the effects outside safe: whatever starts at the DR site starts after
  -- the fence.
  pub watch-IsFencedFirst :
      (outside : WatchOutside) (w : World)
      → IsFencedFirst dr w.effects
      → IsFencedFirst dr (watch sha256 cfg dr out outside w).1.effects
  watch-IsFencedFirst outside w h =
      Ends-world (IsSafe dr) (watch sha256 cfg dr out outside w) ((watch-Keeps outside).at w h)
