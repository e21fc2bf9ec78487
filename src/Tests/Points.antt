-- ===== src/Tests/Points.antt =====
-- Recovery points, retention and counters on small data.
use immutavault.Json.{obj, end}
use immutavault.Catalog.Rows.{Point}
use immutavault.Catalog.Points.{
  latest_point, protected_snapshot_ids, get_point, extend_immutability, with_until,
  mark_points_expired,
}
use immutavault.Catalog.Points.Keys.{HasUniqueIds}
use immutavault.Catalog.Points.Immutability.{
  shields, extend_immutability-keeps, extend_immutability-stores,
}
use immutavault.Catalog.Points.Expiry.{listed, mark_points_expired-unfound}
use immutavault.Catalog.Points.Lookup.{is_point_of, latest_point-IsNewest}
use immutavault.Catalog.Health.{update_dr_health}
use immutavault.Catalog.Health.Failures.{Check, after_checks, streak, update_dr_health-streak}
use immutavault.Catalog.Summary.{list_vms, status_summary, VmRow}
use immutavault.Catalog.Summary.Counts.{grouped, list_vms-points_total, list_vms-flags}
use immutavault.Engine.Retention.{
  repository_retention, retention, retention-spares, retention-keeps,
}
use immutavault.Engine.Scores.{
  recovery_score, recovery_status, verify_first, available, recovery_score_order,
}
use immutavault.Tests.Data.{tag, old_point, new_point, vault}
use immutavault.Prelude.{
  String, ◌≡◌, ◌<◌, refl, inr, true, false, none, some, List, [], ◌∷◌, All, Result, ok, any, ltb,
}
use immutavault.Prelude.Order.{str_ltb}

pub vault-HasUniqueIds : HasUniqueIds vault.points
vault-HasUniqueIds = ((refl, tt), (tt, tt))

pub shielded : shields "2026-02-15" vault "b2" ≡ true
unfolding protected_snapshot_ids str_ltb
shielded = refl

pub found_old : get_point "a1" vault ≡ some old_point
unfolding get_point
found_old = refl

latest : latest_point "lab" "100" vault ≡ some new_point
unfolding latest_point str_ltb
latest = refl

-- a shorter hold does not take the longer one away
extend_immutability-keeps_example :
    shields "2026-02-15"
      (extend_immutability tag "2026-01-06" "b2" "2026-01-07" "ann" "mistake" vault).1
      "b2"
    ≡ true
extend_immutability-keeps_example =
    extend_immutability-keeps tag "2026-01-06" "b2" "2026-01-07" "ann" "mistake" "2026-02-15" "b2"
      vault vault-HasUniqueIds shielded

extend_immutability-stores_example :
    let (r, db') = extend_immutability tag "2026-01-06" "a1" "2026-05-01" "ann" "audit" vault in
    (until : String) × (r ≡ ok until)
    × (get_point "a1" db' ≡ some (with_until until old_point))
    × (str_ltb until old_point.immutable_until ≡ false)
    × (str_ltb until "2026-05-01" ≡ false)
extend_immutability-stores_example =
    extend_immutability-stores tag "2026-01-06" "a1" "2026-05-01" "ann" "audit" vault old_point
      found_old

mark_points_expired-unfound_example :
    get_point "a1" (mark_points_expired "2026-02-15" ("a1" ∷ []) vault) ≡ none
mark_points_expired-unfound_example =
    mark_points_expired-unfound "2026-02-15" "a1" ("a1" ∷ []) vault refl

latest_point-IsNewest_example :
    (is_point_of "lab" "100" new_point ≡ true)
    × All
        (λ q. is_point_of "lab" "100" q ≡ true → str_ltb new_point.created_at q.created_at ≡ false)
        vault.points
latest_point-IsNewest_example = latest_point-IsNewest "lab" "100" vault new_point latest

missing : latest_point "lab" "200" vault ≡ none
unfolding latest_point
missing = refl

abbrev down : Check
down = record { now = "1"; now' = "2"; name = "dr1"; healthy = false; detail = obj end }

abbrev up : Check
up = record { now = "1"; now' = "2"; name = "dr1"; healthy = true; detail = obj end }

update_dr_health-streak_example :
    (update_dr_health "1" "2" "dr1" false
      (obj end)
      (after_checks (down ∷ up ∷ down ∷ []))).0.consecutive_failures
    ≡ streak "dr1" (down ∷ down ∷ up ∷ down ∷ [])
update_dr_health-streak_example = update_dr_health-streak down (down ∷ up ∷ down ∷ [])

streak_two : streak "dr1" (down ∷ down ∷ up ∷ down ∷ []) ≡ 2
streak_two = refl

list_vms-points_total_example : grouped (list_vms vault) ≡ (status_summary vault).points_total
list_vms-points_total_example = list_vms-points_total vault

list_vms-flags_example :
    (any (λ (r : VmRow). r.has_verified_point) (list_vms vault)
      ≡ ltb 0 (status_summary vault).points_verified)
    × (any (λ (r : VmRow). r.has_suspicious_point) (list_vms vault)
        ≡ ltb 0 (status_summary vault).points_suspicious)
list_vms-flags_example = list_vms-flags vault

abbrev answer : Result (List (List String))
answer = ok (("b2" ∷ "a1" ∷ []) ∷ [])

abbrev forgets : List String → Result (Unit {0})
forgets ids = ok tt

removed_old :
    (retention tag answer forgets "2026-02-15" "2026-02-15" "2026-02-15" vault).0 ≡ ok ("a1" ∷ [])
unfolding retention repository_retention protected_snapshot_ids str_ltb
removed_old = refl

retention-spares_example : listed ("a1" ∷ []) "b2" ≡ false
retention-spares_example =
    retention-spares tag answer forgets "2026-02-15" "2026-02-15" "2026-02-15" "b2" vault
      ("a1" ∷ []) shielded removed_old

retention-keeps_example :
    shields "2026-02-15"
      (retention tag answer forgets "2026-02-15" "2026-02-15" "2026-02-15" vault).1
      "b2"
    ≡ true
retention-keeps_example =
    retention-keeps tag answer forgets "2026-02-15" "2026-02-15" "2026-02-15" "b2" vault shielded

abbrev verified_point : Point
verified_point = record old_point { columns = record (old_point.columns) { verified = true } }

old_first : recovery_status old_point true ≡ verify_first
unfolding recovery_status
old_first = refl

verified_available : recovery_status verified_point false ≡ available
unfolding recovery_status
verified_available = refl

recovery_score_order_example : recovery_score old_point true < recovery_score verified_point false
recovery_score_order_example =
    recovery_score_order old_point verified_point true false (inr (old_first, verified_available))
