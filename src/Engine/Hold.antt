-- ===== src/Engine/Hold.antt =====
-- `hold_recovery_point` of src/immutavault/engine.py.
use immutavault.Json.{Json, str, obj, end, field}
use immutavault.Catalog.Rows.{Point, Db}
use immutavault.Catalog.Audit.{audit}
use immutavault.Catalog.Points.{get_point, extend_immutability, with_until, protected_snapshot_ids}
use immutavault.Catalog.Points.Keys.{HasUniqueIds}
use immutavault.Catalog.Points.Immutability.{
  shields, extend_immutability-keeps, extend_immutability-stores,
}
use immutavault.Catalog.Copies.{get_recovery_copy}
use immutavault.Engine.Config.{Replica, Config}
use immutavault.Engine.Restore.{error_text}
use immutavault.Engine.Scores.{is_success}
use immutavault.Prelude.{
  ℕ, ◌+◌, String, ◌≡◌, refl, ◌∙◌, Bool, true, false, ◌&&◌, ◌||◌, none, some, List, [], ◌∷◌, ◌==◌,
  ltb, if◌then◌else◌, Result, ok, err, value_error, Result-cases, Bool-cases, Option-cases, inl,
  inr,
}
use immutavault.Prelude.Order.{str_ltb}

-- the answer of the storage provider to the extension of a lock
abbrev pub ProviderLock : Type 0
ProviderLock = Replica → ℕ → Result Json

-- `provider_lock` of the loop
abbrev pub has_provider_lock : Replica → Bool
has_provider_lock r =
    r.enabled
    && r.backend == "s3"
    && (r.object_lock_enabled || (r.provider == "cloudflare_r2" && r.r2_bucket_lock_enabled))

-- `not copy or copy.get("status") != "success"`, negated
abbrev pub has_good_copy : String → String → Db → Bool
has_good_copy snapshot_id target_name db = elim (get_recovery_copy snapshot_id target_name db) [
  | none ↦ false
  | some (copy, lock) ↦ is_success copy.status
]

pub shields_same :
    (at id : String) (db db' : Db)
    → db'.points ≡ db.points
    → shields at db id ≡ true
    → shields at db' id ≡ true
unfolding protected_snapshot_ids
shields_same at id db db' same h = rw same h

pub get_point_same :
    (id : String) (db db' : Db) → db'.points ≡ db.points → get_point id db' ≡ get_point id db
unfolding get_point
get_point_same id db db' same = rw same refl

module _ (sha256 : String → String) where
  -- the audit event of one replica
  abbrev pub lock_event : String → String → String → String → Replica → Result Json → Db → Db
  lock_event now actor snapshot_id saved replica (ok lock) =
      audit sha256 now actor "replica.hold_extended" "storage_target" replica.name (
        obj (
          field "snapshot_id" (str snapshot_id)
            (field "requested_until" (str saved) (field "provider_lock" lock end))))
  lock_event now actor snapshot_id saved replica (err e) =
      audit sha256 now actor "replica.hold_extend_failed" "storage_target" replica.name
        (obj (field "snapshot_id" (str snapshot_id) (field "error" (str (error_text e)) end)))

  -- The loop over the replicas; the readings of `utcnow` go on from the `n`-th.
  unfoldable pub extend_locks :
      ProviderLock → (ℕ → String) → ℕ → String → String → String → ℕ → List Replica → Db → Db
  extend_locks lock clock n actor snapshot_id saved days [] db = db
  extend_locks lock clock n actor snapshot_id saved days (r ∷ rs) db =
      let skipped = extend_locks lock clock n actor snapshot_id saved days rs db in
      let extended =
        extend_locks lock clock (n + 1) actor snapshot_id saved days rs
          (lock_event (clock n) actor snapshot_id saved r (lock r days) db) in
      if has_provider_lock r && has_good_copy snapshot_id r.name db then extended else skipped

  -- `until` is the time that many days from now.
  unfoldable pub hold_recovery_point :
      Config
      → ProviderLock
      → (ℕ → String)
      → String
      → String
      → String
      → ℕ
      → String
      → Db
      → Result String × Db
  hold_recovery_point cfg lock clock until snapshot_id actor days reason db =
      if ltb days 1 || ltb 36500 days
      then (err (value_error "hold days must be between 1 and 36500"), db)
      else elim (get_point snapshot_id db) [
        | none ↦ (err (value_error "unknown recovery point"), db)
        | some point ↦
            let (saved, db') =
              extend_immutability sha256 (clock 0) snapshot_id until actor reason db in
            elim saved [
              | err e ↦ (err e, db')
              | ok new_until ↦ (
                ok new_until,
                extend_locks lock clock 1 actor snapshot_id new_until days cfg.replicas db',
              )
            ]
      ]

  extend_locks-points :
      (lock : ProviderLock) (clock : ℕ → String) (n : ℕ) (actor snapshot_id saved : String)
      (days : ℕ) (rs : List Replica) (db : Db)
      → (extend_locks lock clock n actor snapshot_id saved days rs db).points ≡ db.points
  unfolding extend_locks audit
  extend_locks-points lock clock n actor snapshot_id saved days [] db = refl
  extend_locks-points lock clock n actor snapshot_id saved days (r ∷ rs) db =
      elim (Bool-cases (has_provider_lock r && has_good_copy snapshot_id r.name db)) [
        | inl locked ↦ rw locked (
            extend_locks-points lock clock (n + 1) actor snapshot_id saved days rs
              (lock_event (clock n) actor snapshot_id saved r (lock r days) db)
            ∙ lock_event-points (lock r days))
        | inr free ↦ rw free (extend_locks-points lock clock n actor snapshot_id saved days rs db)
      ]
    where
      lock_event-points :
          (answer : Result Json)
          → (lock_event (clock n) actor snapshot_id saved r answer db).points ≡ db.points
      lock_event-points (ok v) = refl
      lock_event-points (err e) = refl

  -- With unique keys, hold_recovery_point keeps every protected point protected, whatever its
  -- arguments and the storage providers' answers.
  pub hold_recovery_point-keeps :
      (cfg : Config) (lock : ProviderLock) (clock : ℕ → String) (until snapshot_id actor : String)
      (days : ℕ) (reason at id : String) (db : Db)
      → HasUniqueIds db.points
      → shields at db id ≡ true
      → shields at (hold_recovery_point cfg lock clock until snapshot_id actor days reason db).1 id
        ≡ true
  unfolding hold_recovery_point
  hold_recovery_point-keeps cfg lock clock until snapshot_id actor days reason at id db unique h =
      let extended = extend_immutability sha256 (clock 0) snapshot_id until actor reason db in
      let kept =
        extend_immutability-keeps sha256 (clock 0) snapshot_id until actor reason at id db unique
          h in
      elim (Bool-cases (ltb days 1 || ltb 36500 days)) [
        | inl refused ↦ rw (refused, hold_recovery_point) h
        | inr allowed ↦ elim (Option-cases (get_point snapshot_id db)) [
          | inl unknown ↦ rw (allowed, hold_recovery_point, unknown) h
          | inr (point, found) ↦ elim (Result-cases extended.0) [
            | inl (e, failed) ↦ rw (allowed, hold_recovery_point, found, failed) kept
            | inr (saved, done) ↦
                rw (allowed, hold_recovery_point, found, done)
                  (shields_same at id extended.1 _
                    (extend_locks-points lock clock 1 actor snapshot_id saved days cfg.replicas
                      extended.1)
                    kept)
          ]
        ]
      ]

  -- For 1 to 36500 days and a live point, the hold that hold_recovery_point returns is the one
  -- stored, and it is smaller than neither the old one nor the time asked for.
  pub hold_recovery_point-stores :
      (cfg : Config) (lock : ProviderLock) (clock : ℕ → String) (until snapshot_id actor : String)
      (days : ℕ) (reason : String) (db : Db) (row : Point)
      → (ltb days 1 || ltb 36500 days) ≡ false
      → get_point snapshot_id db ≡ some row
      → let (r, db') = hold_recovery_point cfg lock clock until snapshot_id actor days reason db in
        (saved : String) × (r ≡ ok saved)
        × (get_point snapshot_id db' ≡ some (with_until saved row))
        × (str_ltb saved row.immutable_until ≡ false)
        × (str_ltb saved until ≡ false)
  unfolding hold_recovery_point
  hold_recovery_point-stores cfg lock clock until snapshot_id actor days reason db row allowed
        found =
      let extended = extend_immutability sha256 (clock 0) snapshot_id until actor reason db in
      let (saved, done, stored, old, asked) =
        extend_immutability-stores sha256 (clock 0) snapshot_id until actor reason db row found in
      let same =
        extend_locks-points lock clock 1 actor snapshot_id saved days cfg.replicas extended.1 in
      (
        saved,
        rw (allowed, hold_recovery_point, found, done) refl,
        rw (allowed, hold_recovery_point, found, done)
            (get_point_same snapshot_id extended.1 _ same ∙ stored),
        old,
        asked,
      )
