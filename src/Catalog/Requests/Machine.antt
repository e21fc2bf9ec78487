-- ===== src/Catalog/Requests/Machine.antt =====
-- Restore requests as a state machine: the steps that the engine takes under the four-eyes policy,
-- and what holds of every request that such steps can reach.
use immutavault.Json.{Json}
use immutavault.Catalog.Rows.{RequestStatus, Request, Point, Db, empty_db}
use immutavault.Catalog.Audit.{audit}
use immutavault.Catalog.Requests.{
  get_restore_request, approved_request, started_request, finished_request, create_restore_request,
  approve_restore, start_restore, finish_restore,
}
use immutavault.Catalog.Requests.Approval.{approve_restore-cases, start_restore-cases}
use immutavault.Prelude.{
  ℕ, ◌+◌, ◌≤◌, String, ◌≡◌, refl, Bool, true, Option, some, arith, eq_iff, All-append, All-mono,
  inl, inr, ◌⊎◌,
}
use mathlib.Core.Path.{subst}
use immutavault.Catalog.Requests.Sound.{
  IsPermitted, ClearedAt, IsCleared, IsSound, MayFinish, update-IsSound,
  get_restore_request-IsCleared, started_cleared, finished-IsCleared, unique-append,
}

module _ (sha256 : String → String) where
  -- One step of the system with `require_four_eyes_restore` set.
  pub data Step (db : Db) : Db → Type 0 where
    create :
        (now now' requester : String) (point : Point) (target_platform target_name : String)
        (options : Json)
        → Step db
            (create_restore_request sha256 now now' requester point target_platform target_name
              options RequestStatus.pending_approval db).1
    -- the failover and the failback of src/immutavault/dr.py
    create_ready :
        (now now' : String) (point : Point) (target_platform target_name : String) (options : Json)
        → Step db
            (create_restore_request sha256 now now' "dr-orchestrator" point target_platform
              target_name options RequestStatus.ready db).1
    approve :
        (now now' : String) (id : ℕ) (approver : String)
        → Step db (approve_restore sha256 now now' id approver true db).1
    start :
        (now now' : String) (id : ℕ) (actor : String)
        → Step db (start_restore sha256 now now' id actor db).1
    finish :
        (now : String) (id : ℕ) (success : Bool) (result : Option Json) (error : Option String)
        (req : Request)
        → get_restore_request id db ≡ some req
        → MayFinish success req.status
        → Step db (finish_restore now id success result error db)
    -- any change of the other tables
    elsewhere :
        (db' : Db)
        → db'.requests ≡ db.requests
        → db'.sequences.requests ≡ db.sequences.requests
        → Step db db'

  pub data Reach (db : Db) : Db → Type 0 where
    here : Reach db db
    next : {db' db'' : Db} → Reach db db' → Step db' db'' → Reach db db''

module _ (sha256 : String → String) where
  create-IsSound :
      (now now' requester : String) (point : Point) (target_platform target_name : String)
      (options : Json) (status : RequestStatus) (db : Db)
      → ((r : Request) → r.requester ≡ requester → ClearedAt status r)
      → IsSound db
      → IsSound
          (create_restore_request sha256 now now' requester point target_platform target_name
            options status db).1
  unfolding create_restore_request audit
  create-IsSound now now' requester point target_platform target_name options status db clear s =
      let n = db.sequences.requests in
      record {
        unique = unique-append n db.requests _ s.bounded (omega arith) s.unique;
        bounded =
            All-append (λ (r : Request). r.id ≤ n + 1) db.requests _
              (All-mono (λ (r : Request). r.id ≤ n) _ db.requests (λ r h. omega arith) s.bounded)
              (omega arith, tt);
        cleared = All-append IsCleared db.requests _ s.cleared (clear _ refl, tt);
      }

  finish-IsSound :
      (now : String) (id : ℕ) (success : Bool) (result : Option Json) (error : Option String)
      (req : Request) (db : Db)
      → get_restore_request id db ≡ some req
      → MayFinish success req.status
      → IsSound db
      → IsSound (finish_restore now id success result error db)
  unfolding finish_restore
  finish-IsSound now id success result error req db found may s =
      update-IsSound id (finished_request now success result error) req db _ found (λ r. refl)
        (λ r. refl)
        (finished-IsCleared now success result error req may
          (get_restore_request-IsCleared id req db s found))
        refl refl s

  Step-IsSound : {db db' : Db} → Step sha256 db db' → IsSound db → IsSound db'
  Step-IsSound {db} (create now now' requester point tp tn options) s =
      create-IsSound now now' requester point tp tn options RequestStatus.pending_approval db
        (λ r h. tt) s
  Step-IsSound {db} (create_ready now now' point tp tn options) s =
      create-IsSound now now' "dr-orchestrator" point tp tn options RequestStatus.ready db
        (λ r h. h) s
  Step-IsSound {db} (approve now now' id approver) s =
      elim (approve_restore-cases sha256 now now' id approver true db) [
        | inl same ↦ rw same s
        | inr (req, found, other, rows, seq) ↦
            update-IsSound id (approved_request now approver) req db _ found (λ r. refl) (λ r. refl)
              (approver, refl, ground (arith, eq_iff req.requester approver)) rows seq s
      ]
  Step-IsSound {db} (start now now' id actor) s =
      elim (start_restore-cases sha256 now now' id actor db) [
        | inl (_, same) ↦ rw same s
        | inr (req, found, may, _, rows, seq) ↦
            update-IsSound id (started_request now) req db _ found (λ r. refl) (λ r. refl)
              (started_cleared req.status req may (get_restore_request-IsCleared id req db s found))
              rows seq s
      ]
  Step-IsSound {db} (finish now id success result error req found may) s =
      finish-IsSound now id success result error req db found may s
  Step-IsSound {db} (elsewhere db' rows seq) s = record {
    unique = rw rows s.unique;
    bounded = rw (rows, seq) s.bounded;
    cleared = rw rows s.cleared;
  }

  Reach-IsSound : {db db' : Db} → Reach sha256 db db' → IsSound db → IsSound db'
  Reach-IsSound here s = s
  Reach-IsSound (next r step) s = Step-IsSound step (Reach-IsSound r s)

  -- In every database that steps under the four-eyes policy reach from an empty one, a request that
  -- is running or has succeeded carries the approval of somebody other than its requester, or is
  -- one of the DR orchestrator, which makes its requests ready.
  pub four_eyes_hold :
      (db : Db) (id : ℕ) (req : Request)
      → Reach sha256 empty_db db
      → get_restore_request id db ≡ some req
      → (req.status ≡ RequestStatus.running) ⊎ (req.status ≡ RequestStatus.success)
      → IsPermitted req
  four_eyes_hold db id req r found status =
      let sound = Reach-IsSound r (record { unique = tt; bounded = tt; cleared = tt }) in
      let cleared = get_restore_request-IsCleared id req db sound found in
      elim status [
        | inl running ↦ subst (λ s. ClearedAt s req) running cleared
        | inr success ↦ subst (λ s. ClearedAt s req) success cleared
      ]
