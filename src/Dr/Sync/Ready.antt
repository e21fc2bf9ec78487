-- ===== src/Dr/Sync/Ready.antt =====
-- After a `sync` without errors every workload has its latest point on the DR replica.
use immutavault.Json.{Fields}
use immutavault.Catalog.Rows.{Point, Db}
use immutavault.Catalog.Audit.{audit}
use immutavault.Catalog.Points.{list_points}
use immutavault.Catalog.Copies.{get_recovery_copy, upsert_recovery_copy}
use immutavault.Catalog.Copies.Keys.{upsert_recovery_copy-stores, upsert_recovery_copy-keeps}
use immutavault.Engine.Config.{Replica, Config, replica}
use immutavault.Engine.Hold.{has_good_copy}
use immutavault.Dr.Config.{Workload, DrConfig}
use immutavault.Dr.Plan.{latest_workload_point}
use immutavault.Dr.Sync.{
  SyncOutside, sync_copy, record_sync, sync_workload, sync_workloads, sync, SyncReport, Synced,
  record_copied, repository_of,
}
use immutavault.Prelude.{
  String, ◌≡◌, refl, ◌∙◌, true, false, Option, none, some, List, [], ◌∷◌, All, All-mono, ◌==◌,
  eq_iff, Result, ok, err, Bool-cases, inl, inr, arith,
}

-- the workload's latest point has a copy on the replica that has succeeded, and is not suspicious
pub record IsReplicated (r : Replica) (db : Db) (w : Workload) : Type 0 where
  pub point : Point
  pub latest : latest_workload_point w db ≡ some point
  pub trusted : point.suspicious ≡ false
  pub copied : has_good_copy point.snapshot_id r.name db ≡ true

latest_same :
    (w : Workload) (db db' : Db)
    → db'.points ≡ db.points
    → latest_workload_point w db' ≡ latest_workload_point w db
unfolding latest_workload_point list_points
latest_same w db db' same = rw same refl

-- a copy that succeeds takes no good copy away
upsert-keeps_good :
    (r : Replica) (point : Point) (repository : String) (result : Fields) (now id : String)
    (db : Db)
    → has_good_copy id r.name db ≡ true
    → has_good_copy id r.name
        (upsert_recovery_copy now now (sync_copy r point repository result) db)
      ≡ true
upsert-keeps_good r point repository result now id db h =
    elim (Bool-cases (point.snapshot_id == id)) [
      | inl same ↦
          let path : point.snapshot_id ≡ id = (eq_iff point.snapshot_id id).0 same in
          rw (← path) (
            rw
              (
                upsert_recovery_copy-stores now now (sync_copy r point repository result) db,
                has_good_copy,
              )
              refl)
      | inr other ↦
          rw
            (
              upsert_recovery_copy-keeps now now id r.name (sync_copy r point repository result) db
                  (ground arith),
              has_good_copy,
            )
            h
    ]

-- what holds of a workload goes on to hold where the points stay and good copies stay
IsReplicated-keeps :
    (r : Replica) (db db' : Db) (w : Workload)
    → db'.points ≡ db.points
    → ((id : String) → has_good_copy id r.name db ≡ true → has_good_copy id r.name db' ≡ true)
    → IsReplicated r db w
    → IsReplicated r db' w
IsReplicated-keeps r db db' w same good h = record {
  point = h.point;
  latest = latest_same w db db' same ∙ h.latest;
  trusted = h.trusted;
  copied = good h.point.snapshot_id h.copied;
}

module _ (cfg : Config) (out : SyncOutside) (r : Replica) where
  record_copied-points :
      (w : Workload) (p : Point) (result : Fields) (text : Result String) (db : Db)
      → (record_copied cfg out r w p result text db).1.points ≡ db.points
  unfolding upsert_recovery_copy
  record_copied-points w p result (ok repository) db = refl
  record_copied-points w p result (err e) db = refl

  record_sync-points :
      (w : Workload) (p : Point) (answer : Result Fields) (db : Db)
      → (record_sync cfg out r w p answer db).1.points ≡ db.points
  record_sync-points w p (ok result) db = record_copied-points w p result (repository_of result) db
  record_sync-points w p (err e) db = refl

  record_copied-keeps :
      (w : Workload) (p : Point) (result : Fields) (text : Result String) (id : String) (db : Db)
      → has_good_copy id r.name db ≡ true
      → has_good_copy id r.name (record_copied cfg out r w p result text db).1 ≡ true
  record_copied-keeps w p result (ok repository) id db h =
      upsert-keeps_good r p repository result (out.copied_at p.snapshot_id) id db h
  record_copied-keeps w p result (err e) id db h = h

  record_sync-keeps :
      (w : Workload) (p : Point) (answer : Result Fields) (id : String) (db : Db)
      → has_good_copy id r.name db ≡ true
      → has_good_copy id r.name (record_sync cfg out r w p answer db).1 ≡ true
  record_sync-keeps w p (ok result) id db h =
      record_copied-keeps w p result (repository_of result) id db h
  record_sync-keeps w p (err e) id db h = h

  record_copied-ready :
      (w : Workload) (p : Point) (result : Fields) (text : Result String) (s : Synced) (db : Db)
      → ((record_copied cfg out r w p result text db).0 s).1 ≡ []
      → (s.1 ≡ [])
        × (has_good_copy p.snapshot_id r.name (record_copied cfg out r w p result text db).1 ≡ true)
  record_copied-ready w p result (ok repository) s db h = (
    h,
    rw
        (
          upsert_recovery_copy-stores (out.copied_at p.snapshot_id) (out.copied_at p.snapshot_id)
              (sync_copy r p repository result) db,
          has_good_copy,
        )
        refl,
  )
  record_copied-ready w p result (err e) s db h = cc

  record_sync-ready :
      (w : Workload) (p : Point) (answer : Result Fields) (s : Synced) (db : Db)
      → ((record_sync cfg out r w p answer db).0 s).1 ≡ []
      → (s.1 ≡ [])
        × (has_good_copy p.snapshot_id r.name (record_sync cfg out r w p answer db).1 ≡ true)
  record_sync-ready w p (ok result) s db h =
      record_copied-ready w p result (repository_of result) s db h
  record_sync-ready w p (err e) s db h = cc

  sync_workload-points :
      (w : Workload) (o : Option Point) (db : Db)
      → (sync_workload cfg out r w o db).1.points ≡ db.points
  unfolding sync_workload
  sync_workload-points w none db = refl
  sync_workload-points w (some p) db = elim (Bool-cases p.suspicious) [
    | inl doubtful ↦ simp doubtful refl
    | inr trusted ↦ elim (Bool-cases (has_good_copy p.snapshot_id r.name db)) [
      | inl present ↦ simp (trusted, present) refl
      | inr absent ↦
          simp (trusted, absent)
            (record_sync-points w p (out.copy_snapshot p.snapshot_id r cfg.keep_within_days) db)
    ]
  ]

  sync_workload-keeps :
      (w : Workload) (o : Option Point) (id : String) (db : Db)
      → has_good_copy id r.name db ≡ true
      → has_good_copy id r.name (sync_workload cfg out r w o db).1 ≡ true
  unfolding sync_workload
  sync_workload-keeps w none id db h = h
  sync_workload-keeps w (some p) id db h = elim (Bool-cases p.suspicious) [
    | inl doubtful ↦ simp doubtful h
    | inr trusted ↦ elim (Bool-cases (has_good_copy p.snapshot_id r.name db)) [
      | inl present ↦ simp (trusted, present) h
      | inr absent ↦
          simp (trusted, absent)
            (record_sync-keeps w p (out.copy_snapshot p.snapshot_id r cfg.keep_within_days) id db h)
    ]
  ]

  sync_workload-ready :
      (w : Workload) (o : Option Point) (s : Synced) (db : Db)
      → ((sync_workload cfg out r w o db).0 s).1 ≡ []
      → (s.1 ≡ [])
        × ((p : Point) × (o ≡ some p)
            × (p.suspicious ≡ false)
            × (has_good_copy p.snapshot_id r.name (sync_workload cfg out r w o db).1 ≡ true))
  unfolding sync_workload
  sync_workload-ready w none s db h = cc
  sync_workload-ready w (some p) s db h = elim (Bool-cases p.suspicious) [
    | inl doubtful ↦ cc (simp doubtful at h)
    | inr trusted ↦ elim (Bool-cases (has_good_copy p.snapshot_id r.name db)) [
      | inl present ↦
          (simp (trusted, present) at h, (p, refl, trusted, simp (trusted, present) refl))
      | inr absent ↦
          let (rest, good) =
            record_sync-ready w p (out.copy_snapshot p.snapshot_id r cfg.keep_within_days) s db
              (simp (trusted, absent) at h) in
          (rest, (p, refl, trusted, simp (trusted, absent) good))
    ]
  ]

  sync_workloads-points :
      (ws : List Workload) (db : Db) → (sync_workloads cfg out r ws db).1.points ≡ db.points
  unfolding sync_workloads
  sync_workloads-points [] db = refl
  sync_workloads-points (w ∷ ws) db =
      sync_workloads-points ws (sync_workload cfg out r w (latest_workload_point w db) db).1
      ∙ sync_workload-points w (latest_workload_point w db) db

  sync_workloads-keeps :
      (ws : List Workload) (id : String) (db : Db)
      → has_good_copy id r.name db ≡ true
      → has_good_copy id r.name (sync_workloads cfg out r ws db).1 ≡ true
  unfolding sync_workloads
  sync_workloads-keeps [] id db h = h
  sync_workloads-keeps (w ∷ ws) id db h =
      sync_workloads-keeps ws id (sync_workload cfg out r w (latest_workload_point w db) db).1
        (sync_workload-keeps w (latest_workload_point w db) id db h)

  sync_workloads-ready :
      (ws : List Workload) (db : Db)
      → (sync_workloads cfg out r ws db).0.1 ≡ []
      → All (IsReplicated r (sync_workloads cfg out r ws db).1) ws
  unfolding sync_workloads
  sync_workloads-ready [] db h = tt
  sync_workloads-ready (w ∷ ws) db h =
      let first = (sync_workload cfg out r w (latest_workload_point w db) db).1 in
      let rest = sync_workloads cfg out r ws first in
      let (others, (p, latest, trusted, good)) =
        sync_workload-ready w (latest_workload_point w db) rest.0 db h in
      (
        IsReplicated-keeps r first rest.1 w (sync_workloads-points ws first)
            (λ id. sync_workloads-keeps ws id first)
            (record {
              point = p;
              latest =
                  latest_same w db first (sync_workload-points w (latest_workload_point w db) db)
                  ∙ latest;
              trusted = trusted;
              copied = good;
            }),
        sync_workloads-ready ws first others,
      )

-- After a sync that reports no errors, every workload has a latest recovery point that is not
-- suspicious and has a successful copy on the DR replica.
pub sync-IsReplicated :
    (sha256 : String → String) (cfg : Config) (dr : DrConfig) (out : SyncOutside) (r : Replica)
    (report : SyncReport) (db : Db)
    → replica cfg dr.replica ≡ ok r
    → (sync sha256 cfg dr out db).0 ≡ ok report
    → report.errors ≡ []
    → All (IsReplicated r (sync sha256 cfg dr out db).1) dr.workloads
unfolding sync audit get_recovery_copy
sync-IsReplicated sha256 cfg dr out r report db found done clean = elim (Bool-cases dr.enabled) [
  | inr disabled ↦ cc (simp (disabled, sync) at done)
  | inl enabled ↦
      let (synced, db') = sync_workloads cfg out r dr.workloads db in
      let errors : synced.1 ≡ [] = cc (simp (enabled, found, sync) at done, clean) in
      simp (enabled, found, sync)
        (All-mono (IsReplicated r db') _ dr.workloads
          (λ w. IsReplicated-keeps r db' _ w refl (λ id h. h))
          (sync_workloads-ready cfg out r dr.workloads db errors))
]
