-- ===== src/Catalog/Health.antt =====
-- Health of a DR site: `update_dr_health` and `get_dr_health` of src/immutavault/state.py.
pub mod Failures
use immutavault.Json.{Json, dumped, loads_or_empty}
use immutavault.Catalog.Rows.{DrHealth, Db}
use immutavault.Prelude.{ℕ, ◌+◌, String, Bool, Option, none, some, ◌==◌, if◌then◌else◌}
use immutavault.Prelude.Table.{select_first, upsert}

abbrev pub is_site : String → DrHealth → Bool
is_site name h = h.name == name

-- what the caller of `update_dr_health` gets
pub record HealthReport : Type 0 where
  pub name : String
  pub healthy : Bool
  pub consecutive_failures : ℕ
  pub checked_at : String
  pub detail : Json

abbrev pub previous_failures : Option DrHealth → ℕ
previous_failures none = 0
previous_failures (some row) = row.consecutive_failures

abbrev pub excluded_into : DrHealth → DrHealth → DrHealth
excluded_into new old = record new { name = old.name }

-- `now` and `now'` are the readings of `utcnow` for the row and for the report.
unfoldable pub update_dr_health : String → String → String → Bool → Json → Db → HealthReport × Db
update_dr_health now now' name healthy detail db =
    let failures =
      if healthy then 0 else previous_failures (select_first (is_site name) db.health) + 1 in
    let new : DrHealth = record {
      name = name;
      checked_at = now;
      healthy = healthy;
      consecutive_failures = failures;
      detail_json = dumped detail;
    } in
    (
      record {
        name = name;
        healthy = healthy;
        consecutive_failures = failures;
        checked_at = now';
        detail = detail;
      },
      record db { health = upsert (is_site name) (excluded_into new) new db.health },
    )

unfoldable pub get_dr_health : String → Db → Option (DrHealth × Json)
get_dr_health name db = elim (select_first (is_site name) db.health) [
  | none ↦ none
  | some row ↦ some (row, loads_or_empty row.detail_json)
]
