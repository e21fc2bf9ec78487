-- ===== src/Engine/Anomaly.antt =====
-- `detect_backup_anomaly` of src/immutavault/anomaly.py.
use immutavault.Engine.Restore.{join_semicolon}
use immutavault.Prelude.{
  ℕ, ◌+◌, ◌-◌, String, ◌≡◌, refl, Bool, not, ◌&&◌, Option, none, some, List, [], ◌∷◌, ◌++◌, ltb,
  is_empty, is_some, if◌then◌else◌,
}

-- The floating-point parts: whether a quotient reaches the threshold of the settings, and the text
-- that reports it.
pub record Ratios : Type 0 where
  pub high_churn : ℕ → ℕ → Bool
  pub churn_text : ℕ → ℕ → String
  pub high_change : ℕ → ℕ → Bool
  pub change_text : ℕ → ℕ → String

-- `abs(current_bytes - previous_bytes)`
abbrev pub byte_distance : ℕ → ℕ → ℕ
byte_distance a b = (a - b) + (b - a)

abbrev pub churn_reasons : Ratios → ℕ → ℕ → ℕ → List String
churn_reasons ratios previous_bytes current_bytes data_added =
    if ltb 0 previous_bytes
      && ltb 0 current_bytes
      && ltb 0 data_added
      && ratios.high_churn data_added current_bytes
    then ratios.churn_text data_added current_bytes ∷ []
    else []

abbrev pub change_reasons : Ratios → ℕ → ℕ → List String
change_reasons ratios previous_bytes current_bytes =
    if ltb 0 previous_bytes
      && ratios.high_change (byte_distance current_bytes previous_bytes) previous_bytes
    then ratios.change_text (byte_distance current_bytes previous_bytes) previous_bytes ∷ []
    else []

abbrev pub anomaly_reasons : Ratios → Option ℕ → ℕ → ℕ → List String
anomaly_reasons ratios none current_bytes data_added = []
anomaly_reasons ratios (some previous_bytes) current_bytes data_added =
    churn_reasons ratios previous_bytes current_bytes data_added
    ++ change_reasons ratios previous_bytes current_bytes

unfoldable pub detect_backup_anomaly : Ratios → Option ℕ → ℕ → ℕ → Bool × Option String
detect_backup_anomaly ratios previous_bytes current_bytes data_added =
    let reasons = anomaly_reasons ratios previous_bytes current_bytes data_added in
    (not (is_empty reasons), if is_empty reasons then none else some (join_semicolon reasons))

-- detect_backup_anomaly calls a backup suspicious exactly if it gives a reason.
pub detect_backup_anomaly-reason :
    (ratios : Ratios) (previous_bytes : Option ℕ) (current_bytes data_added : ℕ)
    → let (suspicious, reason) =
        detect_backup_anomaly ratios previous_bytes current_bytes data_added in
      suspicious ≡ is_some reason
unfolding detect_backup_anomaly
detect_backup_anomaly-reason ratios previous_bytes current_bytes data_added =
    go (anomaly_reasons ratios previous_bytes current_bytes data_added)
  where
    go :
        (reasons : List String)
        → not (is_empty reasons)
          ≡ is_some (if is_empty reasons then none else some (join_semicolon reasons))
    go [] = refl
    go (r ∷ rs) = refl
