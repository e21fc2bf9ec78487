-- ===== src/Engine/Restore/Settles.antt =====
-- What a call of `execute_restore` leaves behind, on every path.
use immutavault.Json.{Json}
use immutavault.Catalog.Rows.{Request, Db}
use immutavault.Catalog.Audit.{audit}
use immutavault.Catalog.Requests.{
  may_start, get_restore_request, started_request, finished_request, finish_restore, start_check,
  start_restore,
}
use immutavault.Catalog.Requests.Approval.{get_restore_request-update, start_restore-cases}
use immutavault.Engine.Config.{Config}
use immutavault.Engine.Verify.{passed}
use immutavault.Engine.Restore.{
  error_text, RestoreOutcomes, RestorePlan, plan_restore, attempt_restore, settle_restore,
  run_restore, after_doctor, execute_restore, may_plan,
}
use immutavault.Prelude.{
  ℕ, String, ◌≡◌, refl, sym, ap, ◌∙◌, true, false, none, some, Result, Error, Result-cases,
  Bool-cases, ok, err, inl, inr, ◌⊎◌, arith, List, [], ◌∷◌, Option-cases,
}

-- the row of a request that has run to its end
abbrev pub settled_request : (ℕ → String) → Result Json → Request → Request
settled_request clock (ok result) req =
    finished_request (clock 2) true (some result) none (started_request (clock 0) req)
settled_request clock (err e) req =
    finished_request (clock 2) false none (some (error_text e)) (started_request (clock 0) req)

-- everything that has to be in order before a virtual machine is imported
pub record IsVerifiedRestore (out : RestoreOutcomes) : Type 0 where
  pub repository : out.repo_restore ≡ ok tt
  pub source : out.source_exists ≡ true
  pub manifest : passed out.manifest ≡ true

attempt_restore_ok :
    (out : RestoreOutcomes) (p : RestorePlan) (v : Json)
    → attempt_restore out p ≡ ok v
    → IsVerifiedRestore out
unfolding attempt_restore
attempt_restore_ok out p v h = record {
  repository = ground arith;
  source = ground arith;
  manifest = ground arith;
}

module _ (sha256 : String → String) (clock : ℕ → String) (request_id : ℕ) (actor : String) where
  settle_restore-result :
      (r : Result Json) (db : Db) → (settle_restore sha256 clock request_id actor r db).0 ≡ r
  unfolding settle_restore
  settle_restore-result (ok v) db = refl
  settle_restore-result (err e) db = refl

  settle_restore-row :
      (r : Result Json) (req : Request) (db : Db)
      → get_restore_request request_id db ≡ some (started_request (clock 0) req)
      → get_restore_request request_id (settle_restore sha256 clock request_id actor r db).1
        ≡ some (settled_request clock r req)
  unfolding settle_restore audit finish_restore
  settle_restore-row (ok v) req db h =
      get_restore_request-update request_id (finished_request (clock 2) true (some v) none) db _ _
        refl h (λ r. refl)
  settle_restore-row (err e) req db h =
      get_restore_request-update request_id
        (finished_request (clock 2) false none (some (error_text e))) db _ _ refl h (λ r. refl)

  run_restore-settles :
      (out : RestoreOutcomes) (p : RestorePlan) (db : Db)
      → let (r, db') = run_restore sha256 out clock request_id actor p db in
        (((e : Error) × (r ≡ err e)) × (db'.requests ≡ db.requests))
        ⊎ ((req : Request) × (get_restore_request request_id db ≡ some req)
            × (may_start req.status ≡ true)
            × (r ≡ attempt_restore out p)
            × (get_restore_request request_id db' ≡ some (settled_request clock r req)))
  unfolding run_restore
  run_restore-settles out p db =
      elim (start_restore-cases sha256 (clock 0) (clock 1) request_id actor db) [
        | inl ((e, refused), same) ↦
            inl ((e, rw (refused, run_restore)), rw (refused, run_restore, same) refl)
        | inr (req, found, may, started, rows, _) ↦ inr (
          req,
          found,
          may,
          rw (started, run_restore, settle_restore-result (attempt_restore out p) _) refl,
          rw (started, run_restore, settle_restore-result (attempt_restore out p) _)
              (settle_restore-row (attempt_restore out p) req _ (
                get_restore_request-update request_id (started_request (clock 0)) db _ req rows
                  found (λ r. refl))),
        )
      ]

  after_doctor-cases :
      (answer : Result (List String)) (out : RestoreOutcomes) (p : RestorePlan) (db : Db)
      → let (r, db') = after_doctor sha256 answer out clock request_id actor p db in
        (((e : Error) × (r ≡ err e)) × (db'.requests ≡ db.requests))
        ⊎ ((answer ≡ ok [])
            × (after_doctor sha256 answer out clock request_id actor p db
                ≡ run_restore sha256 out clock request_id actor p db))
  unfolding after_doctor audit
  after_doctor-cases (err e) out p db = inl ((e, refl), refl)
  after_doctor-cases (ok []) out p db = inr (refl, refl)
  after_doctor-cases (ok (problem ∷ problems)) out p db = inl ((_, refl), refl)

  -- the call has failed before the request was started, or it has run the request
  execute_restore-cases :
      (cfg : Config) (out : RestoreOutcomes) (db : Db)
      → let (r, db') = execute_restore sha256 cfg out clock request_id actor false db in
        (((e : Error) × (r ≡ err e)) × (db'.requests ≡ db.requests))
        ⊎ ((p : RestorePlan) × (execute_restore sha256 cfg out clock request_id actor false db
              ≡ run_restore sha256 out clock request_id actor p db))
  unfolding execute_restore
  execute_restore-cases cfg out db =
      elim (Result-cases (plan_restore cfg out request_id false db)) [
        | inl (e, refused) ↦
            inl ((e, rw (refused, execute_restore) refl), rw (refused, execute_restore) refl)
        | inr (p, passed) ↦ elim (Result-cases out.capacity) [
          | inl (e, full) ↦ inl (
            (e, rw (passed, execute_restore, full) refl),
            rw (passed, execute_restore, full) refl,
          )
          | inr (u, fits) ↦ elim (after_doctor-cases out.doctor out p db) [
            | inl refused ↦ simp (passed, execute_restore, fits) (inl refused)
            | inr (_, same) ↦ inr (p, simp (passed, execute_restore, fits, same))
          ]
        ]
      ]

  -- A call of execute_restore that is not a dry run fails and leaves all requests as they were, or
  -- it finds the request approved or ready and ends it as a success with the result it returns or
  -- as a failure with the text of the error it raises.
  pub execute_restore-settles :
      (cfg : Config) (out : RestoreOutcomes) (db : Db)
      → let (r, db') = execute_restore sha256 cfg out clock request_id actor false db in
        (((e : Error) × (r ≡ err e)) × (db'.requests ≡ db.requests))
        ⊎ ((req : Request) × (get_restore_request request_id db ≡ some req)
            × (may_start req.status ≡ true)
            × (get_restore_request request_id db' ≡ some (settled_request clock r req)))
  execute_restore-settles cfg out db = elim (execute_restore-cases cfg out db) [
    | inl unchanged ↦ inl unchanged
    | inr (p, same) ↦ elim (run_restore-settles out p db) [
      | inl (raised, rows) ↦ rw same (inl (raised, rows))
      | inr (req, found, may, _, row) ↦ rw same (inr (req, found, may, row))
    ]
  ]

  -- A call of execute_restore that is not a dry run and returns a result has restored the
  -- repository files, found the virtual machine among them and verified the manifest.
  pub execute_restore-IsVerifiedRestore :
      (cfg : Config) (out : RestoreOutcomes) (db : Db) (v : Json)
      → (execute_restore sha256 cfg out clock request_id actor false db).0 ≡ ok v
      → IsVerifiedRestore out
  execute_restore-IsVerifiedRestore cfg out db v h = elim (execute_restore-cases cfg out db) [
    | inl ((e, raised), _) ↦ cc
    | inr (p, same) ↦ elim (run_restore-settles out p db) [
      | inl ((e, raised), _) ↦ cc
      | inr (req, _, _, attempted, _) ↦
          attempt_restore_ok out p v (sym attempted ∙ ap (λ x. x.0) (sym same) ∙ h)
    ]
  ]

  -- the guards of a dry run let nothing through that the real call would stop
  plan_restore-dry_run :
      (cfg : Config) (out : RestoreOutcomes) (db : Db) (p : RestorePlan)
      → plan_restore cfg out request_id true db ≡ ok p
      → plan_restore cfg out request_id false db ≡ ok p
  unfolding plan_restore
  plan_restore-dry_run cfg out db p h = elim (Option-cases (get_restore_request request_id db)) [
    | inl missing ↦ cc (simp (missing, plan_restore) at h)
    | inr (req, found) ↦ elim (Bool-cases (may_plan req.status)) [
      | inl may ↦ simp (found, plan_restore) (simp (found, may, plan_restore) at h)
      | inr may_not ↦ cc (simp (found, may_not, plan_restore) at h)
    ]
  ]

  execute_restore-plans :
      (cfg : Config) (out : RestoreOutcomes) (db : Db) (v : Json)
      → (execute_restore sha256 cfg out clock request_id actor true db).0 ≡ ok v
      → (p : RestorePlan) × (plan_restore cfg out request_id true db ≡ ok p)
  unfolding execute_restore
  execute_restore-plans cfg out db v h =
      elim (Result-cases (plan_restore cfg out request_id true db)) [
        | inl (e, refused) ↦ cc (simp (refused, execute_restore) at h)
        | inr found ↦ found
      ]

  -- a request that may start is started, and comes to its end
  run_restore-runs :
      (out : RestoreOutcomes) (p : RestorePlan) (req : Request) (db : Db)
      → get_restore_request request_id db ≡ some req
      → may_start req.status ≡ true
      → let (r, db') = run_restore sha256 out clock request_id actor p db in
        get_restore_request request_id db' ≡ some (settled_request clock r req)
  unfolding start_restore start_check run_restore
  run_restore-runs out p req db found may =
      elim (start_restore-cases sha256 (clock 0) (clock 1) request_id actor db) [
        | inl ((e, refused), _) ↦ cc (simp (found, may, start_restore, start_check) at refused)
        | inr (req', found', _, started, rows, _) ↦
            let same : req' ≡ req = cc (found, found') in
            rw (started, run_restore, settle_restore-result (attempt_restore out p) _)
              (settle_restore-row (attempt_restore out p) req _ (
                rw (← same) (
                  get_restore_request-update request_id (started_request (clock 0)) db _ req' rows
                    found' (λ r. refl))))
      ]

  -- Where a dry run of execute_restore returns, the capacity and the doctor are in order and the
  -- request is approved or ready, the real call ends the request: as a success with the result it
  -- returns, or as a failure with the text of the error it raises.
  pub execute_restore-foreseen :
      (cfg : Config) (out : RestoreOutcomes) (db : Db) (req : Request) (v : Json)
      → (execute_restore sha256 cfg out clock request_id actor true db).0 ≡ ok v
      → out.capacity ≡ ok tt
      → out.doctor ≡ ok []
      → get_restore_request request_id db ≡ some req
      → may_start req.status ≡ true
      → let (r, db') = execute_restore sha256 cfg out clock request_id actor false db in
        get_restore_request request_id db' ≡ some (settled_request clock r req)
  unfolding execute_restore after_doctor
  execute_restore-foreseen cfg out db req v returned fits healthy found may =
      let (p, planned_ok) = execute_restore-plans cfg out db v returned in
      simp
        (plan_restore-dry_run cfg out db p planned_ok, execute_restore, fits, healthy, after_doctor)
        (run_restore-runs out p req db found may)
