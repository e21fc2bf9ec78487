-- ===== src/Catalog/Health/Failures.antt =====
-- The failure counter of `update_dr_health` against the history of checks.
use immutavault.Json.{Json}
use immutavault.Catalog.Rows.{DrHealth, Db, empty_db}
use immutavault.Catalog.Health.{is_site, previous_failures, excluded_into, update_dr_health}
use immutavault.Prelude.{
  ℕ, ◌+◌, String, ◌≡◌, refl, ◌∙◌, Bool, List, [], ◌∷◌, ◌==◌, eq_iff, eq_refl, if◌then◌else◌, arith,
}
use immutavault.Prelude.Table.{select_first, upsert}

-- one call of `update_dr_health`
pub record Check : Type 0 where
  pub now : String
  pub now' : String
  pub name : String
  pub healthy : Bool
  pub detail : Json

-- The database after a history of checks, the latest first.
abbrev pub after_checks : List Check → Db
after_checks [] = empty_db
after_checks (c ∷ cs) =
    (update_dr_health c.now c.now' c.name c.healthy c.detail (after_checks cs)).1

-- The length of the unbroken run of failures that a history ends with, for one site.
abbrev pub streak : String → List Check → ℕ
streak name [] = 0
streak name (c ∷ cs) =
    let before = streak name cs in
    if c.name == name then (if c.healthy then 0 else before + 1) else before

failures-upsert :
    (name other : String) (new : DrHealth) (rows : List DrHealth)
    → new.name ≡ name
    → previous_failures
        (select_first (is_site other) (upsert (is_site name) (excluded_into new) new rows))
      ≡ (if name == other
          then new.consecutive_failures
          else previous_failures (select_first (is_site other) rows))
failures-upsert name other new [] h = ground (arith, eq_iff new.name other, eq_iff name other)
failures-upsert name other new (r ∷ rows) h = ground (
  arith,
  eq_iff r.name name,
  eq_iff r.name other,
  eq_iff name other,
  failures-upsert name other new rows h,
)

stored_failures :
    (name : String) (cs : List Check)
    → previous_failures (select_first (is_site name) (after_checks cs).health) ≡ streak name cs
unfolding update_dr_health
stored_failures name [] = refl
stored_failures name (c ∷ cs) =
    failures-upsert c.name name _ (after_checks cs).health refl
    ∙ ground (arith, eq_iff c.name name, stored_failures name cs, stored_failures c.name cs)

-- After any history of checks from an empty database, the consecutive failures that
-- update_dr_health reports are the length of the run of failures with which that site's history
-- ends.
pub update_dr_health-streak :
    (c : Check) (cs : List Check)
    → (update_dr_health c.now c.now' c.name c.healthy c.detail
        (after_checks cs)).0.consecutive_failures
      ≡ streak c.name (c ∷ cs)
unfolding update_dr_health
update_dr_health-streak c cs = rw (stored_failures c.name cs, eq_refl)
