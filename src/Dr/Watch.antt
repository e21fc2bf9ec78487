-- ===== src/Dr/Watch.antt =====
-- `maintenance` and `watch` of src/immutavault/dr.py, with `run_health_checks` of
-- src/immutavault/health.py.
pub mod Quiet
use immutavault.Json.{Json, Fields, Items, bool, num, str, arr, obj, end, field, nil, cons}
use immutavault.Catalog.Rows.{DrHealth, Db}
use immutavault.Catalog.Audit.{audit}
use immutavault.Catalog.Health.{HealthReport, update_dr_health, get_dr_health}
use immutavault.Engine.Config.{Config}
use immutavault.Dr.Config.{DrConfig, DrOutside}
use immutavault.Dr.Action.{World, Action, ◌>>=◌, ◌>>◌, pure, answer, ask, write}
use immutavault.Dr.Plan.{check_enabled, already_failed_over}
use immutavault.Dr.Promote.{answered, Promotion, promote}
use immutavault.Prelude.{
  ℕ, ◌+◌, ◌-◌, max, String, Bool, true, false, not, ◌&&◌, ◌||◌, Option, none, some, List, [], ◌∷◌,
  length, ltb, eqb, ◌==◌, if◌then◌else◌, Result, ok, err, value_error, ◌≤◌, ◌*◌, ◌/◌,
}

-- `run_health_checks`: every check passes, or there is none
abbrev pub all_pass : List (Bool × Json) → Bool
all_pass [] = true
all_pass ((good, detail) ∷ rest) = good && all_pass rest

abbrev pub count_failed : List (Bool × Json) → ℕ
count_failed [] = 0
count_failed ((good, detail) ∷ rest) = (if good then 0 else 1) + count_failed rest

abbrev pub details_of : List (Bool × Json) → Items
details_of [] = nil
details_of ((good, detail) ∷ rest) = cons detail (details_of rest)

-- The age of a check in microseconds: its time lies so far back, or so far ahead where the clock was
-- set back. `total_seconds` is a float that is exact to the microsecond.
pub data Age : Type 0 where
  back : ℕ → Age
  ahead : ℕ → Age

-- What a run of the watch meets: the maintenance file, the age of the last check (none for a time
-- that does not parse), the probes' answers, and the readings of `utcnow`.
pub record WatchOutside : Type 0 where
  pub in_maintenance : Bool
  pub age : String → Option Age
  pub probes : List (Bool × Json)
  pub now : String
  pub now' : String

pub data WatchResult : Type 0 where
  suppressed : WatchResult
  not_due : ℕ → DrHealth → WatchResult
  checked : HealthReport → WatchResult
  still_failed_over : HealthReport → WatchResult
  has_promoted : HealthReport → Promotion → WatchResult

-- `self.cfg.primary_failure_quorum or max(1, len(results))`
abbrev pub required_failures : DrConfig → List (Bool × Json) → ℕ
required_failures dr probes =
    if eqb dr.primary_failure_quorum 0 then max 1 (length probes) else dr.primary_failure_quorum

abbrev pub site_healthy : DrConfig → List (Bool × Json) → Bool
site_healthy dr probes = ltb (count_failed probes) (required_failures dr probes)

abbrev pub probe_detail : DrConfig → List (Bool × Json) → Json
probe_detail dr probes = obj (
    field "ok" (bool (all_pass probes)) (
      field "checks" (arr (details_of probes)) (
        field "failed_probes" (num (count_failed probes)) (
          field "failure_quorum" (num (required_failures dr probes))
            (field "site_healthy" (bool (site_healthy dr probes)) end)))))

abbrev pub second : ℕ
second = 1000000

-- `age < interval`
abbrev pub is_younger : Age → ℕ → Bool
is_younger (back age) interval = ltb age (interval * second)
is_younger (ahead gap) interval = true

-- `max(1, int(interval - age))`, of a check that is younger than the interval
abbrev pub time_left : Age → ℕ → ℕ
time_left (back age) interval = max 1 ((interval * second - age) / second)
time_left (ahead gap) interval = max 1 ((interval * second + gap) / second)

-- The seconds until the next check, where it is not due yet; an empty time of a check is falsy.
abbrev pub wait_for : DrConfig → WatchOutside → Option (DrHealth × Json) → Option (ℕ × DrHealth)
wait_for dr watch none = none
wait_for dr watch (some (row, detail)) =
    if not (ltb 60 dr.check_interval_seconds) || row.checked_at == ""
    then none
    else elim (watch.age row.checked_at) [
      | none ↦ none
      | some age ↦
          if is_younger age dr.check_interval_seconds
          then some (time_left age dr.check_interval_seconds, row)
          else none
    ]

module _ (sha256 : String → String) (cfg : Config) (dr : DrConfig) (out : DrOutside) where
  -- `maintenance`: whether the file is there afterwards; `action` is the lower-case word
  unfoldable pub maintenance : String → String → String → Bool → Db → Result Bool × Db
  maintenance now actor action exists db = elim (check_enabled dr) [
    | err e ↦ (err e, db)
    | ok _ ↦
        if action == "on"
        then (ok true, site_event "dr.maintenance.on")
        else if action == "off"
        then (ok false, site_event "dr.maintenance.off")
        else if action == "status"
        then (ok exists, db)
        else (err (value_error "DR maintenance action must be on, off, or status"), db)
  ]
    where
      site_event : String → Db
      site_event event =
          audit sha256 now actor event "site" dr.primary_site
            (obj (field "file" (str dr.maintenance_file) end)) db

  -- the end of the watch: a failover only after enough failures in a row, and where it is wanted
  unfoldable pub react : Bool → HealthReport → Action WatchResult
  react healthy health =
      if healthy || ltb health.consecutive_failures dr.failure_threshold || not dr.auto_failover
      then pure (checked health)
      else (do
        active ← ask (λ db. ok (already_failed_over db))
        if active then pure (still_failed_over health) else do
          promoted ← promote sha256 cfg dr out true false true
          pure (has_promoted health promoted))

  abbrev pub record_health : WatchOutside → Action HealthReport
  record_health watch = write (λ db. answered (
      update_dr_health watch.now watch.now' "primary-site" (site_healthy dr watch.probes)
        (probe_detail dr watch.probes) db))

  abbrev pub check_site : WatchOutside → Option (ℕ × DrHealth) → Action WatchResult
  check_site watch (some (seconds, row)) = pure (not_due seconds row)
  check_site watch none = do
    health ← record_health watch
    react (site_healthy dr watch.probes) health

  unfoldable pub watch : WatchOutside → Action WatchResult
  watch outside = do
    answer (check_enabled dr)
    if outside.in_maintenance then pure suppressed else do
      previous ← ask (λ db. ok (get_dr_health "primary-site" db))
      check_site outside (wait_for dr outside previous)
