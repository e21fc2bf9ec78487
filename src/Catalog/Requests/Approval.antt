-- ===== src/Catalog/Requests/Approval.antt =====
-- What `approve_restore` and `start_restore` check, and that they leave the other rows alone.
use immutavault.Catalog.Rows.{RequestStatus, Request, Db}
use immutavault.Catalog.Audit.{audit}
use immutavault.Catalog.Requests.{
  approval_check, start_check, started_db, may_start, is_request, get_restore_request,
  approved_request, started_request, approve_restore, start_restore,
}
use immutavault.Prelude.{
  ℕ, String, ◌≡◌, ◌≢◌, refl, sym, ap, ◌∙◌, Bool, true, false, ◌&&◌, Option, none, some, List, [],
  ◌∷◌, ◌==◌, if◌then◌else◌, Error, Result-cases, ok, err, arith, inl, inr, ◌⊎◌,
}
use immutavault.Prelude.Table.{select_first, update_where, select_first-map, select_first-holds}
use mathlib.Core.Option

-- A request that an update by its id has changed.
pub get_restore_request-update :
    (id : ℕ) (f : Request → Request) (db db' : Db) (req : Request)
    → db'.requests ≡ update_where (is_request id) f db.requests
    → get_restore_request id db ≡ some req
    → ((r : Request) → (f r).id ≡ r.id)
    → get_restore_request id db' ≡ some (f req)
unfolding get_restore_request
get_restore_request-update id f db db' req same h ids =
    let has : is_request id req ≡ true = select_first-holds (is_request id) db.requests req h in
    let g = λ (r : Request). if is_request id r then f r else r in
    ap (select_first (is_request id)) same
    ∙ select_first-map (is_request id) g db.requests (λ r. ground (arith, ids r))
    ∙ ap (Option.map g) h
    ∙ ap some (rw has)

-- A request of another id is as it was.
pub get_restore_request-update_ne :
    (id other : ℕ) (f : Request → Request) (db db' : Db)
    → db'.requests ≡ update_where (is_request id) f db.requests
    → ((r : Request) → (f r).id ≡ r.id)
    → id ≢ other
    → get_restore_request other db' ≡ get_restore_request other db
unfolding get_restore_request
get_restore_request-update_ne id other f db db' same ids ne =
    ap (select_first (is_request other)) same ∙ unchanged db.requests
  where
    unchanged :
        (rs : List Request)
        → select_first (is_request other) (update_where (is_request id) f rs)
          ≡ select_first (is_request other) rs
    unchanged [] = refl
    unchanged (r ∷ rs) = ground (arith, ids r, unchanged rs)

approval_check_ok :
    (approver : String) (four_eyes : Bool) (o : Option Request)
    → approval_check four_eyes approver o ≡ ok tt
    → (req : Request) × (o ≡ some req)
      × (req.status ≡ RequestStatus.pending_approval)
      × ((four_eyes && req.requester == approver) ≡ false)
unfolding approval_check
approval_check_ok approver four_eyes none h = cc
approval_check_ok approver four_eyes (some req) h = (req, refl, ground arith, ground arith)

start_check_ok :
    (o : Option Request) (req : Request)
    → start_check o ≡ ok req
    → (o ≡ some req) × (may_start req.status ≡ true)
unfolding start_check
start_check_ok none req h = cc
start_check_ok (some r) req h = ground arith

-- An approver may approve a pending request, and not their own one under the four-eyes policy.
abbrev pub MayApprove : ℕ → String → Bool → Db → Type 0
MayApprove request_id approver four_eyes db =
    (req : Request) × (get_restore_request request_id db ≡ some req)
    × (req.status ≡ RequestStatus.pending_approval)
    × ((four_eyes && req.requester == approver) ≡ false)

approval_check-MayApprove :
    (request_id : ℕ) (approver : String) (four_eyes : Bool) (db : Db)
    → MayApprove request_id approver four_eyes db
    → approval_check four_eyes approver (get_restore_request request_id db) ≡ ok tt
unfolding approval_check
approval_check-MayApprove request_id approver four_eyes db (req, found, pending, other) =
    rw found (simp (pending, other, approval_check) refl)

module _ (sha256 : String → String) (now now' : String) (request_id : ℕ) where
  approve_restore-eq :
      (approver : String) (four_eyes : Bool) (db : Db)
      → approval_check four_eyes approver (get_restore_request request_id db) ≡ ok tt
      → (approve_restore sha256 now now' request_id approver four_eyes db).1.requests
        ≡ update_where (is_request request_id) (approved_request now approver) db.requests
  unfolding approve_restore audit
  approve_restore-eq approver four_eyes db h = rw (h, approve_restore)

  approve_restore-check :
      (approver : String) (four_eyes : Bool) (db : Db)
      → (approve_restore sha256 now now' request_id approver four_eyes db).0
        ≡ approval_check four_eyes approver (get_restore_request request_id db)
  unfolding approve_restore
  approve_restore-check approver four_eyes db =
      elim (Result-cases (approval_check four_eyes approver (get_restore_request request_id db))) [
        | inl (e, refused) ↦ rw (refused, approve_restore)
        | inr (u, passed) ↦ rw (passed, approve_restore)
      ]

  -- An approval that goes through was of a pending request, not of the approver's own one under the
  -- four-eyes policy, and the request is then stored as approved in that name.
  pub approve_restore_ok :
      (approver : String) (four_eyes : Bool) (db : Db)
      → (approve_restore sha256 now now' request_id approver four_eyes db).0 ≡ ok tt
      → (req : Request) × (get_restore_request request_id db ≡ some req)
        × (req.status ≡ RequestStatus.pending_approval)
        × ((four_eyes && req.requester == approver) ≡ false)
        × (get_restore_request request_id
              (approve_restore sha256 now now' request_id approver four_eyes db).1
            ≡ some (approved_request now approver req))
  approve_restore_ok approver four_eyes db h =
      let check = approve_restore-check approver four_eyes db in
      let passed = sym check ∙ h in
      let (req, found, pending, other) =
        approval_check_ok approver four_eyes (get_restore_request request_id db) passed in
      (
        req,
        found,
        pending,
        other,
        get_restore_request-update request_id (approved_request now approver) db _ req
            (approve_restore-eq approver four_eyes db passed) found (λ r. refl),
      )

  -- approve_restore goes through when, and only when, the request is there, is pending, and under
  -- the four-eyes policy is not the approver's own; otherwise it raises and changes nothing in the
  -- database.
  pub approve_restore-decides :
      (approver : String) (four_eyes : Bool) (db : Db)
      → let (r, db') = approve_restore sha256 now now' request_id approver four_eyes db in
        ((r ≡ ok tt) × MayApprove request_id approver four_eyes db)
        ⊎ (((e : Error) × (r ≡ err e)) × ¬ MayApprove request_id approver four_eyes db × (db' ≡ db))
  unfolding approve_restore get_restore_request
  approve_restore-decides approver four_eyes db =
      elim (Result-cases (approval_check four_eyes approver (get_restore_request request_id db))) [
        | inl (e, refused) ↦ inr (
          (e, rw (refused, approve_restore) refl),
          λ may. cc (approval_check-MayApprove request_id approver four_eyes db may, refused),
          rw (refused, approve_restore) refl,
        )
        | inr (u, passed) ↦ inl (
          rw (passed, approve_restore) refl,
          approval_check_ok approver four_eyes (get_restore_request request_id db) passed,
        )
      ]

  -- `approve_restore` writes nothing, or approves the request that passed its guards.
  pub approve_restore-cases :
      (approver : String) (four_eyes : Bool) (db : Db)
      → let db' = (approve_restore sha256 now now' request_id approver four_eyes db).1 in
        (db' ≡ db)
        ⊎ ((req : Request) × (get_restore_request request_id db ≡ some req)
            × ((four_eyes && req.requester == approver) ≡ false)
            × (db'.requests
                ≡ update_where (is_request request_id) (approved_request now approver) db.requests)
            × (db'.sequences.requests ≡ db.sequences.requests))
  unfolding approve_restore audit
  approve_restore-cases approver four_eyes db =
      elim (Result-cases (approval_check four_eyes approver (get_restore_request request_id db))) [
        | inl (e, refused) ↦ inl (rw (refused, approve_restore))
        | inr (u, passed) ↦
            let (req, found, _, other) =
              approval_check_ok approver four_eyes (get_restore_request request_id db) passed in
            inr (req, found, other, rw (passed, approve_restore), rw (passed, approve_restore))
      ]

  -- `start_restore` writes nothing, or starts the request that passed its guards.
  pub start_restore-cases :
      (actor : String) (db : Db)
      → let (r, db') = start_restore sha256 now now' request_id actor db in
        (((e : Error) × (r ≡ err e)) × (db' ≡ db))
        ⊎ ((req : Request) × (get_restore_request request_id db ≡ some req)
            × (may_start req.status ≡ true)
            × (r ≡ ok (started_request now req))
            × (db'.requests
                ≡ update_where (is_request request_id) (started_request now) db.requests)
            × (db'.sequences.requests ≡ db.sequences.requests))
  unfolding start_restore audit
  start_restore-cases actor db =
      elim (Result-cases (start_check (get_restore_request request_id db))) [
        | inl (e, refused) ↦ inl ((e, rw (refused, start_restore)), rw (refused, start_restore))
        | inr (req, passed) ↦
            let (found, may) = start_check_ok (get_restore_request request_id db) req passed in
            inr (
              req,
              found,
              may,
              rw (
                passed,
                start_restore,
                get_restore_request-update request_id (started_request now) db
                    (started_db sha256 now now' request_id actor db) req refl found (λ r. refl),
              ),
              rw (passed, start_restore),
              rw (passed, start_restore),
            )
      ]
