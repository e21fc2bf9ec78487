-- ===== src/Dr/Plan/Ready.antt =====
-- What a plan of src/immutavault/dr.py that calls itself ready says of the workloads.
use immutavault.Catalog.Rows.{Point, Db}
use immutavault.Engine.Config.{Platform, Config, platform}
use immutavault.Engine.Hold.{has_good_copy}
use immutavault.Dr.Config.{Workload, DrConfig, DrOutside}
use immutavault.Dr.Plan.{
  latest_workload_point, insert_workload, boots_before, boot_sorted, Candidate, PlanRow, Plan,
  complaint, candidate_of, candidate_errors, plan_row, plan_rows, plan, row_at, row_of,
  check_enabled,
}
use immutavault.Prelude.{
  String, ◌≡◌, ◌≤◌, refl, ap, ◌∙◌, sym, Bool, true, false, none, some, List, [], ◌∷◌, ◌++◌, ltb,
  ◌==◌, eq_iff, is_empty, is_empty→nil, append-eq_nil, All, ok, Result-cases, Bool-cases, inl, inr,
  ◌↔◌, arith, not, Option, Returns, Returns-after, Returns-bind, Returns-ok,
}

-- The workload can fail over within its hypervisor family to its latest point, which is verified,
-- not suspicious, young enough, and on the DR replica.
pub record IsReady (cfg : Config) (dr : DrConfig) (out : DrOutside) (db : Db) (w : Workload)
    : Type 0 where
  pub source : Platform
  pub target : Platform
  pub point : Point
  pub has_source : platform cfg w.source_platform ≡ ok source
  pub has_target : platform cfg w.target_platform ≡ ok target
  pub same_family : source.type ≡ target.type
  pub latest : latest_workload_point w db ≡ some point
  pub verified : point.verified ≡ true
  pub trusted : point.suspicious ≡ false
  pub recent : out.rpo_minutes point.created_at ≤ dr.rpo_max_minutes
  pub copied : has_good_copy point.snapshot_id dr.replica db ≡ true

-- the order of the boots keeps what holds of all workloads
insert_workload-All {ℓ} :
    (P : Workload → Type ℓ) (w : Workload) (ws : List Workload)
    → All P (insert_workload w ws) ↔ (P w × All P ws)
insert_workload-All P w [] = ((λ h. h), (λ h. h))
insert_workload-All P w (x ∷ ws) = elim (Bool-cases (boots_before x w)) [
  | inl later ↦ rw later (
    (λ h. let r = (insert_workload-All P w ws).0 h.1 in (r.0, (h.0, r.1))),
    (λ h. (h.1.0, (insert_workload-All P w ws).1 (h.0, h.1.1))),
  )
  | inr first ↦ rw first ((λ h. h), (λ h. h))
]

boot_sorted-All {ℓ} :
    (P : Workload → Type ℓ) (ws : List Workload) → All P (boot_sorted ws) ↔ All P ws
boot_sorted-All P [] = ((λ h. h), (λ h. h))
boot_sorted-All P (w ∷ ws) =
    let one = insert_workload-All P w (boot_sorted ws) in
    let rest = boot_sorted-All P ws in
    ((λ h. let r = one.0 h in (r.0, rest.0 r.1)), (λ h. one.1 (h.0, rest.1 h.1)))

-- four complaints of which none is made
complaints-nil :
    (w : Workload) (a b c d : Bool) (s t u v : List String)
    → complaint a w s ++ complaint b w t ++ complaint c w u ++ complaint d w v ≡ []
    → (a ≡ false) × (b ≡ false) × (c ≡ false) × (d ≡ false)
complaints-nil w true b c d s t u v h = cc
complaints-nil w false true c d s t u v h = cc
complaints-nil w false false true d s t u v h = cc
complaints-nil w false false false true s t u v h = cc
complaints-nil w false false false false s t u v h = (refl, refl, refl, refl)

-- a candidate without complaints
candidate_errors-nil :
    (dr : DrConfig) (w : Workload) (c : Candidate)
    → candidate_errors dr w c ≡ []
    → (not c.verified ≡ false)
      × (c.suspicious ≡ false)
      × (ltb dr.rpo_max_minutes c.rpo_minutes ≡ false)
      × (not c.replica_ready ≡ false)
candidate_errors-nil dr w c h =
    complaints-nil w (not c.verified) c.suspicious (ltb dr.rpo_max_minutes c.rpo_minutes)
      (not c.replica_ready) _ _ _ _ h

module _ (cfg : Config) (dr : DrConfig) (out : DrOutside) (db : Db) where
  row_at-IsReady :
      (w : Workload) (src dst : Platform) (o : Option Point)
      → platform cfg w.source_platform ≡ ok src
      → platform cfg w.target_platform ≡ ok dst
      → src.type ≡ dst.type
      → latest_workload_point w db ≡ o
      → (row_at dr out db w src dst o).1 ≡ []
      → IsReady cfg dr out db w
  unfolding row_at
  row_at-IsReady w src dst none found found' same latest h = cc
  row_at-IsReady w src dst (some point) found found' same latest h =
      let (verified, trusted, recent, copied) =
        candidate_errors-nil dr w (candidate_of dr out point db) h in
      record {
        source = src;
        target = dst;
        point = point;
        has_source = found;
        has_target = found';
        same_family = same;
        latest = latest;
        verified = ground (arith, verified);
        trusted = trusted;
        recent = ground (arith, recent);
        copied = ground (arith, copied);
      }

  row_of-IsReady :
      (w : Workload) (src dst : Platform)
      → platform cfg w.source_platform ≡ ok src
      → platform cfg w.target_platform ≡ ok dst
      → (row_of dr out db w src dst).1 ≡ []
      → IsReady cfg dr out db w
  unfolding row_of
  row_of-IsReady w src dst found found' h = elim (Bool-cases (src.type == dst.type)) [
    | inl same ↦
        row_at-IsReady w src dst (latest_workload_point w db) found found'
          ((eq_iff src.type dst.type).0 same) refl (simp (same, row_of) at h)
    | inr other ↦ cc (simp (other, row_of) at h)
  ]

  plan_row-cases :
      (w : Workload) (row : PlanRow × List String)
      → plan_row cfg dr out db w ≡ ok row
      → (src : Platform) × (dst : Platform) × (platform cfg w.source_platform ≡ ok src)
        × (platform cfg w.target_platform ≡ ok dst)
        × (row ≡ row_of dr out db w src dst)
  unfolding plan_row
  plan_row-cases w row h = elim (Result-cases (platform cfg w.source_platform)) [
    | inl (e, unknown) ↦ cc (simp (unknown, plan_row) at h)
    | inr (src, found) ↦ elim (Result-cases (platform cfg w.target_platform)) [
      | inl (e, unknown) ↦ cc (simp (found, unknown, plan_row) at h)
      | inr (dst, found') ↦ (src, dst, found, found', cc (simp (found, found', plan_row) at h))
    ]
  ]

  row_of-ready :
      (w : Workload) (src dst : Platform)
      → platform cfg w.source_platform ≡ ok src
      → platform cfg w.target_platform ≡ ok dst
      → IsReady cfg dr out db w
      → (row_of dr out db w src dst).1 ≡ []
  unfolding row_of row_at
  row_of-ready w src dst found found' r =
      let same : (src.type == dst.type) ≡ true =
        (eq_iff src.type dst.type).1
          (cc (found, found', r.has_source, r.has_target, r.same_family)) in
      let late : ltb dr.rpo_max_minutes (out.rpo_minutes r.point.created_at) ≡ false =
        ground (arith, r.recent) in
      simp (same, r.latest, r.verified, r.trusted, late, r.copied, row_of, row_at) refl

  plan_row-IsReady :
      (w : Workload) (row : PlanRow × List String)
      → plan_row cfg dr out db w ≡ ok row
      → (row.1 ≡ []) ↔ IsReady cfg dr out db w
  plan_row-IsReady w row h =
      let (src, dst, found, found', same) = plan_row-cases w row h in
      (
        (λ clean. row_of-IsReady w src dst found found' (sym (ap (λ x. x.1) same) ∙ clean)),
        (λ r. ap (λ x. x.1) same ∙ row_of-ready w src dst found found' r),
      )

  plan_rows-IsReady :
      (ws : List Workload) (rows : List PlanRow × List String)
      → plan_rows cfg dr out db ws ≡ ok rows
      → (rows.1 ≡ []) ↔ All (IsReady cfg dr out db) ws
  unfolding plan_rows
  plan_rows-IsReady [] rows h = ((λ _. tt), (λ _. cc))
  plan_rows-IsReady (w ∷ ws) rows h = elim (Result-cases (plan_row cfg dr out db w)) [
    | inl (e, refused) ↦ cc (simp (refused, plan_rows) at h)
    | inr (row, planned) ↦ elim (Result-cases (plan_rows cfg dr out db ws)) [
      | inl (e, refused) ↦ cc (simp (planned, refused, plan_rows) at h)
      | inr (rest, others) ↦
          let both : rows.1 ≡ row.1 ++ rest.1 = cc (simp (planned, others, plan_rows) at h) in
          let one = plan_row-IsReady w row planned in
          let more = plan_rows-IsReady ws rest others in
          (
            (λ clean.
                let (a, b) = append-eq_nil row.1 rest.1 (sym both ∙ clean) in (one.0 a, more.0 b)),
            (λ ready. both ∙ rw (one.1 ready.0) (more.1 ready.1)),
          )
    ]
  ]

  -- the rows of a plan, and when it is ready
  HasRows : Plan → Type 0
  HasRows p =
      (rows : List PlanRow × List String) × (plan_rows cfg dr out db (boot_sorted dr.workloads)
        ≡ ok rows)
      × (p.ready ≡ is_empty rows.1)

  plan-HasRows : Returns HasRows (plan cfg dr out db)
  unfolding plan HasRows
  plan-HasRows = Returns-after HasRows (check_enabled dr) _ (λ _.
      Returns-bind (λ rows. plan_rows cfg dr out db (boot_sorted dr.workloads) ≡ ok rows) HasRows
        (plan_rows cfg dr out db (boot_sorted dr.workloads)) _ (record { result = λ rows h. h })
        (λ rows planned. Returns-after HasRows (out.net_plan dr.primary_site) _ (λ primary.
          Returns-after HasRows (out.net_plan dr.dr_site) _
            (λ standby. Returns-ok HasRows _ (rows, planned, refl)))))

  -- A plan that plan returns is ready exactly if every workload has platforms of one hypervisor
  -- family and a latest point that is verified, not suspicious, no older than the RPO allows, and
  -- present on the DR replica.
  pub plan-IsReady :
      (p : Plan)
      → plan cfg dr out db ≡ ok p
      → (p.ready ≡ true) ↔ All (IsReady cfg dr out db) dr.workloads
  unfolding HasRows
  plan-IsReady p h =
      let (rows, planned, ready) = plan-HasRows.result p h in
      let all = plan_rows-IsReady (boot_sorted dr.workloads) rows planned in
      let sorted = boot_sorted-All (IsReady cfg dr out db) dr.workloads in
      (
        (λ yes. sorted.0 (all.0 (is_empty→nil rows.1 (sym ready ∙ yes)))),
        (λ every. ready ∙ ap is_empty (all.1 (sorted.1 every))),
      )
