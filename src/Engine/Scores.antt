-- ===== src/Engine/Scores.antt =====
-- The recovery score and status of `BackupEngine.list_recovery_points` in src/immutavault/engine.py.
use immutavault.Catalog.Rows.{CopyStatus, Copy, Point, Db}
use immutavault.Catalog.Copies.{list_recovery_copies}
use immutavault.Catalog.Points.{list_points}
use immutavault.Json.{Json}
use immutavault.Prelude.{
  ℕ, ◌-◌, ◌<◌, ◌≡◌, ◌↔◌, ◌≢◌, ◌⊎◌, String, Bool, true, false, not, ◌&&◌, Option, List, [], ◌∷◌, map,
  if◌then◌else◌, arith,
}

pub data RecoveryStatus : Type 0 where
  avoid_suspicious preferred verify_first available : RecoveryStatus

-- The subtractions never go below zero, so `max(0, score)` is the score. `immutable` is whether
-- `immutable_until` parses as a time later than now.
unfoldable pub recovery_score : Point → Bool → ℕ
recovery_score p immutable =
    let score : ℕ = 100 in
    let verified = if not p.verified then score - 25 else score in
    let trusted = if p.suspicious then verified - 60 else verified in
    if not immutable then trusted - 10 else trusted

unfoldable pub recovery_status : Point → Bool → RecoveryStatus
recovery_status p immutable =
    if p.suspicious
    then avoid_suspicious
    else if p.verified && immutable
    then preferred
    else if not p.verified
    then verify_first
    else available

-- a point as the callers get it
pub record ListedPoint : Type 0 where
  pub point : Point
  pub score : ℕ
  pub status : RecoveryStatus
  pub copies : List (Copy × Json)
  pub restore_sources : List String

abbrev pub is_success : CopyStatus → Bool
is_success CopyStatus.success = true
is_success CopyStatus.failed = false

abbrev pub successful_targets : List (Copy × Json) → List String
successful_targets [] = []
successful_targets ((c, lock) ∷ cs) =
    let rest = successful_targets cs in if is_success c.status then c.target_name ∷ rest else rest

-- `later` decides whether a text is a time after now; the limit is the default of `list_points`.
unfoldable pub list_recovery_points :
    (String → Bool) → Option String → Option String → Db → List ListedPoint
list_recovery_points later platform vm_id db =
    map
      (λ (p : Point). record {
        point = p;
        score = recovery_score p (later p.immutable_until);
        status = recovery_status p (later p.immutable_until);
        copies = list_recovery_copies p.snapshot_id db;
        restore_sources = successful_targets (list_recovery_copies p.snapshot_id db);
      })
      (list_points platform vm_id 500 db)

-- A point has the full score of 100 exactly if it is of the preferred kind.
pub recovery_score-preferred :
    (p : Point) (immutable : Bool)
    → (recovery_score p immutable ≡ 100) ↔ (recovery_status p immutable ≡ preferred)
unfolding recovery_score recovery_status
recovery_score-preferred p immutable = ground arith

-- A point to avoid scores less than a point of any other kind, and a point to verify first scores
-- less than an available one.
pub recovery_score_order :
    (p q : Point) (i j : Bool)
    → (recovery_status p i ≡ avoid_suspicious) × (recovery_status q j ≢ avoid_suspicious)
      ⊎ (recovery_status p i ≡ verify_first) × (recovery_status q j ≡ available)
    → recovery_score p i < recovery_score q j
unfolding recovery_score recovery_status
recovery_score_order p q i j h = ground arith
