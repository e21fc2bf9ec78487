-- ===== src/Dr/Health/Rounds.antt =====
-- The waiting for a workload is as patient as its settings say.
use immutavault.Json.{Fields}
use immutavault.Dr.Config.{Workload, DrOutside}
use immutavault.Dr.Health.{most_attempts, wait_rounds, first_round, wait_workload_health}
use immutavault.Prelude.{
  ℕ, zero, suc, ◌+◌, ◌≤◌, ◌≡◌, refl, ◌↔◌, ◌⊎◌, inl, inr, Bool, true, is_empty, Bool-cases, arith,
}

-- an attempt from `n` on, with at most `left` before it, is healthy
abbrev HasHealthy : (ℕ → Bool × Fields) → ℕ → ℕ → Type 0
HasHealthy health n left = (k : ℕ) × (n ≤ k) × (k ≤ n + left) × ((health k).0 ≡ true)

wait_rounds-HasHealthy :
    (health : ℕ → Bool × Fields) (n left : ℕ)
    → (wait_rounds health n left).0 ≡ true
    → HasHealthy health n left
unfolding wait_rounds
wait_rounds-HasHealthy health n zero h = (n, omega arith, omega arith, h)
wait_rounds-HasHealthy health n (suc left) h = elim (Bool-cases (health n).0) [
  | inl good ↦ (n, omega arith, omega arith, good)
  | inr bad ↦
      let (k, low, high, good) = wait_rounds-HasHealthy health (n + 1) left (rw bad at h) in
      (k, omega arith, omega arith, good)
]

HasHealthy-wait_rounds :
    (health : ℕ → Bool × Fields) (n left : ℕ)
    → HasHealthy health n left
    → (wait_rounds health n left).0 ≡ true
unfolding wait_rounds
HasHealthy-wait_rounds health n zero (k, low, high, good) =
    let same : k ≡ n = omega arith in rw (← same) good
HasHealthy-wait_rounds health n (suc left) (k, low, high, good) = elim (Bool-cases (health n).0) [
  | inl good' ↦ rw good' refl
  | inr bad ↦
      rw bad (HasHealthy-wait_rounds health (n + 1) left (k, grind arith, omega arith, good))
]

-- an attempt from the first to the `m`-th is healthy
abbrev HasGoodRound : (ℕ → Bool × Fields) → ℕ → Type 0
HasGoodRound health m = (k : ℕ) × (1 ≤ k) × (k ≤ m) × ((health k).0 ≡ true)

first_round-HasGoodRound :
    (health : ℕ → Bool × Fields) (m : ℕ) → ((first_round health m).0 ≡ true) ↔ HasGoodRound health m
first_round-HasGoodRound health zero = (λ h. cc, λ h. absurd (none_before h.0 h.1 h.2))
  where
    none_before : (k : ℕ) → 1 ≤ k → k ≤ 0 → ⊥
    none_before k low high = omega arith
first_round-HasGoodRound health (suc left) = (
  λ h.
      let (k, low, high, good) = wait_rounds-HasHealthy health 1 left h in
      (k, low, omega arith, good),
  λ h. HasHealthy-wait_rounds health 1 left (h.0, h.1, bound h.0 h.2, h.3),
)
  where
    bound : (k : ℕ) → k ≤ suc left → k ≤ 1 + left
    bound k high = omega arith

-- The wait for a workload ends with a healthy answer exactly if no checks are configured, or one of
-- the attempts from the first to the largest number of attempts in the settings finds the workload
-- healthy.
pub wait_workload_health-IsPatient :
    (out : DrOutside) (w : Workload)
    → ((wait_workload_health out w).0 ≡ true) ↔ (
        (is_empty w.health_checks ≡ true)
        ⊎ ((k : ℕ) × (1 ≤ k) × (k ≤ most_attempts w.health_checks) × ((out.health w k).0 ≡ true)))
unfolding wait_workload_health
wait_workload_health-IsPatient out w = elim (Bool-cases (is_empty w.health_checks)) [
  | inl unchecked ↦ simp unchecked (λ h. inl refl, λ h. refl)
  | inr checked ↦
      let rounds = first_round-HasGoodRound (out.health w) (most_attempts w.health_checks) in
      simp checked (λ h. inr (rounds.0 h), λ h. elim h [ inl e ↦ cc | inr good ↦ rounds.1 good ])
]
