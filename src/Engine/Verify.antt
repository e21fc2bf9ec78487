-- ===== src/Engine/Verify.antt =====
-- `verify_recovery_point` of src/immutavault/engine.py.
use immutavault.Json.{
  Json, bool, str, arr, obj, end, field, set_key, loads_or_empty, or_empty_object,
}
use immutavault.Catalog.Rows.{Point, Db}
use immutavault.Catalog.Audit.{audit}
use immutavault.Catalog.Points.{has_id, get_point, with_verdict, mark_verified}
use immutavault.Catalog.Points.Keys.{get_point-update}
use immutavault.Catalog.Points.Immutability.{shields}
use immutavault.Catalog.Points.Expiry.{mark_verified-keeps}
use immutavault.Engine.Hold.{shields_same, get_point_same}
use immutavault.Engine.Retention.{names_json}
use immutavault.Prelude.{
  ℕ, String, ◌≡◌, refl, sym, ap, ◌∙◌, Bool, true, false, ◌&&◌, Option, none, some, List, take,
  Result, ok, err, value_error, Result-cases, Option-cases, inl, inr,
}
use immutavault.Prelude.Table.{select_first}

-- What the staging file system and restic answer in one call.
pub record VerifyOutcomes : Type 0 where
  pub capacity : Result (Unit {0})
  pub restore : Result (Unit {0})
  pub restored_exists : Bool
  pub manifest : Result (Bool × List String)

-- `{"errors": errors[:20]}`
abbrev pub error_fields : List String → Json
error_fields errors = obj (field "errors" (arr (names_json (take 20 errors))) end)

-- `{"success": ok, "errors": errors[:20]}`
abbrev pub verdict_event : Bool → List String → Json
verdict_event good errors =
    obj (field "success" (bool good) (field "errors" (arr (names_json (take 20 errors))) end))

-- an answer after a write that may raise
abbrev pub after_write {ℓ} : {A : Type ℓ} → Result (Unit {0}) × Db → (Db → A × Db) → Result A × Db
after_write (err e, db) k = (err e, db)
after_write (ok _, db) k = (ok (k db).0, (k db).1)

module _ (sha256 : String → String) where
  -- what is recorded when restic has restored the files
  unfoldable pub record_verdict :
      (ℕ → String) → String → String → Bool → Result (Bool × List String) → Db → Result Bool × Db
  record_verdict clock snapshot_id actor false manifest db =
      after_write
        (mark_verified (clock 0) snapshot_id false
          (some (obj (field "error" (str "restored path missing") end))) db)
        (λ db'. (false, db'))
  record_verdict clock snapshot_id actor true (err e) db = (err e, db)
  record_verdict clock snapshot_id actor true (ok (good, errors)) db =
      after_write (mark_verified (clock 0) snapshot_id good (some (error_fields errors)) db) (λ db'.
        (
          good,
          audit sha256 (clock 1) actor "recovery.verify" "recovery_point" snapshot_id
              (verdict_event good errors) db',
        ))

  -- Staging directories are removed before and after; no state of the catalog depends on it.
  unfoldable pub verify_recovery_point :
      VerifyOutcomes → (ℕ → String) → String → String → Db → Result Bool × Db
  verify_recovery_point out clock snapshot_id actor db = elim (get_point snapshot_id db) [
    | none ↦ (err (value_error "unknown recovery point"), db)
    | some point ↦ elim out.capacity [
      | err e ↦ (err e, db)
      | ok _ ↦ elim out.restore [
        | err e ↦ (err e, db)
        | ok _ ↦ record_verdict clock snapshot_id actor out.restored_exists out.manifest db
      ]
    ]
  ]

-- the manifest has been read and is right
abbrev pub passed : Result (Bool × List String) → Bool
passed (err e) = false
passed (ok (good, errors)) = good

-- A verdict that is stored is found in the row again.
mark_verified-stores :
    (now snapshot_id : String) (verified : Bool) (details : Option Json) (row : Point) (db : Db)
    → get_point snapshot_id db ≡ some row
    → (mark_verified now snapshot_id verified details db).0 ≡ ok tt
    → (row' : Point) × (get_point snapshot_id (mark_verified now snapshot_id verified details db).1
        ≡ some row')
      × (row'.verified ≡ verified)
unfolding mark_verified
mark_verified-stores now snapshot_id verified details row db found done =
    elim (Option-cases (select_first (has_id snapshot_id) db.points)) [
      | inl missing ↦ cc (rw (missing, mark_verified) at done)
      | inr (first, here) ↦
          let marked =
            set_key "verification" (or_empty_object details) (loads_or_empty first.metadata_json) in
          elim (Result-cases marked) [
            | inl (e, failed) ↦ cc (rw (here, mark_verified, failed) at done)
            | inr (metadata, set) ↦ (
              with_verdict now verified metadata row,
              get_point-update snapshot_id (with_verdict now verified metadata) db _ row
                  (rw (here, mark_verified, set) refl) found (λ p. refl),
              refl,
            )
          ]
    ]

-- An answer after a write: the write went through, and the rest has run on its database.
after_write_ok {ℓ} :
    {A : Type ℓ} (w : Result (Unit {0}) × Db) (k : Db → A × Db) (a : A)
    → (after_write w k).0 ≡ ok a
    → (w.0 ≡ ok tt) × ((k w.1).0 ≡ a) × ((after_write w k).1 ≡ (k w.1).1)
after_write_ok (err e, db) k a h = cc
after_write_ok (ok _, db) k a h = (refl, cc, refl)

after_write-points {ℓ} :
    {A : Type ℓ} (w : Result (Unit {0}) × Db) (k : Db → A × Db)
    → ((db : Db) → (k db).1.points ≡ db.points)
    → (after_write w k).1.points ≡ w.1.points
after_write-points (err e, db) k same = refl
after_write-points (ok _, db) k same = same db

module _ (sha256 : String → String) (clock : ℕ → String) (snapshot_id actor : String) where
  record_verdict-stores :
      (exists : Bool) (manifest : Result (Bool × List String)) (row : Point) (db : Db) (good : Bool)
      → get_point snapshot_id db ≡ some row
      → (record_verdict sha256 clock snapshot_id actor exists manifest db).0 ≡ ok good
      → (row' : Point) × (get_point snapshot_id
            (record_verdict sha256 clock snapshot_id actor exists manifest db).1
          ≡ some row')
        × (row'.verified ≡ good)
        × (good ≡ (exists && passed manifest))
  unfolding record_verdict audit
  record_verdict-stores false manifest row db good found h =
      let details = some (obj (field "error" (str "restored path missing") end)) in
      let (done, verdict, same) =
        after_write_ok (mark_verified (clock 0) snapshot_id false details db) (λ db'. (false, db'))
          good h in
      let (row', stored, verified) =
        mark_verified-stores (clock 0) snapshot_id false details row db found done in
      (row', ap (get_point snapshot_id) same ∙ stored, verified ∙ verdict, sym verdict)
  record_verdict-stores true (err e) row db good found h = cc
  record_verdict-stores true (ok (checked, errors)) row db good found h =
      let details = some (error_fields errors) in
      let (done, verdict, same) =
        after_write_ok (mark_verified (clock 0) snapshot_id checked details db) _ good h in
      let (row', stored, verified) =
        mark_verified-stores (clock 0) snapshot_id checked details row db found done in
      (
        row',
        ap (get_point snapshot_id) same ∙ get_point_same snapshot_id _ _ refl ∙ stored,
        verified ∙ verdict,
        sym verdict,
      )

  record_verdict-keeps :
      (exists : Bool) (manifest : Result (Bool × List String)) (at id : String) (db : Db)
      → shields at db id ≡ true
      → shields at (record_verdict sha256 clock snapshot_id actor exists manifest db).1 id ≡ true
  unfolding record_verdict audit
  record_verdict-keeps false manifest at id db h =
      shields_same at id _ _
        (after_write-points (mark_verified (clock 0) snapshot_id false _ db) _ (λ db'. refl))
        (mark_verified-keeps (clock 0) snapshot_id at id false _ db h)
  record_verdict-keeps true (err e) at id db h = h
  record_verdict-keeps true (ok (checked, errors)) at id db h =
      shields_same at id _ _
        (after_write-points (mark_verified (clock 0) snapshot_id checked _ db) _ (λ db'. refl))
        (mark_verified-keeps (clock 0) snapshot_id at id checked _ db h)

  -- A verdict that verify_recovery_point returns is stored in the live point, and is positive
  -- exactly if the files exist after the restore and the manifest passes.
  pub verify_recovery_point-stores :
      (out : VerifyOutcomes) (db : Db) (good : Bool)
      → (verify_recovery_point sha256 out clock snapshot_id actor db).0 ≡ ok good
      → (row : Point) × (get_point snapshot_id
            (verify_recovery_point sha256 out clock snapshot_id actor db).1
          ≡ some row)
        × (row.verified ≡ good)
        × (good ≡ (out.restored_exists && passed out.manifest))
  unfolding verify_recovery_point
  verify_recovery_point-stores out db good h = elim (Option-cases (get_point snapshot_id db)) [
    | inl unknown ↦ cc (rw (unknown, verify_recovery_point) at h)
    | inr (row, found) ↦ elim (Result-cases out.capacity) [
      | inl (e, full) ↦ cc (rw (found, verify_recovery_point, full) at h)
      | inr (_, fits) ↦ elim (Result-cases out.restore) [
        | inl (e, failed) ↦ cc (rw (found, verify_recovery_point, fits, failed) at h)
        | inr (_, restored) ↦
            simp (found, verify_recovery_point, fits, restored)
              (record_verdict-stores out.restored_exists out.manifest row db good found
                (simp (found, verify_recovery_point, fits, restored) at h))
      ]
    ]
  ]

  -- verify_recovery_point keeps every protected point protected, whatever it finds.
  pub verify_recovery_point-keeps :
      (out : VerifyOutcomes) (at id : String) (db : Db)
      → shields at db id ≡ true
      → shields at (verify_recovery_point sha256 out clock snapshot_id actor db).1 id ≡ true
  unfolding verify_recovery_point
  verify_recovery_point-keeps out at id db h = elim (Option-cases (get_point snapshot_id db)) [
    | inl unknown ↦ rw (unknown, verify_recovery_point) h
    | inr (row, found) ↦ elim (Result-cases out.capacity) [
      | inl (e, full) ↦ rw (found, verify_recovery_point, full) h
      | inr (_, fits) ↦ elim (Result-cases out.restore) [
        | inl (e, failed) ↦ rw (found, verify_recovery_point, fits, failed) h
        | inr (_, restored) ↦
            simp (found, verify_recovery_point, fits, restored)
              (record_verdict-keeps out.restored_exists out.manifest at id db h)
      ]
    ]
  ]
