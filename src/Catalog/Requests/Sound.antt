-- ===== src/Catalog/Requests/Sound.antt =====
-- When the rows of `restore_requests` are sound under the four-eyes policy, and how a write to one
-- row keeps them so.
use immutavault.Json.{Json}
use immutavault.Catalog.Rows.{RequestStatus, Request, Db}
use immutavault.Catalog.Requests.{is_request, may_start, get_restore_request, finished_request}
use immutavault.Prelude.{
  ℕ, ◌≤◌, ◌<◌, String, ◌≡◌, ◌≢◌, Bool, true, false, Option, some, List, [], ◌∷◌, ◌++◌, map, eqb,
  if◌then◌else◌, arith, All, All-append, All-mono, Bool-cases, inl, inr, some_eq, ◌⊎◌,
}
use immutavault.Prelude.Table.{select_first, update_where, All-select_first}

-- somebody other than the requester has approved
abbrev pub HasOtherApprover : Request → Type 0
HasOtherApprover r =
    (approver : String) × (r.approved_by ≡ some approver) × (r.requester ≢ approver)

-- or else it is a request that the DR orchestrator makes for itself
abbrev pub IsPermitted : Request → Type 0
IsPermitted r = HasOtherApprover r ⊎ (r.requester ≡ "dr-orchestrator")

-- what a status says under the four-eyes policy
abbrev pub ClearedAt : RequestStatus → Request → Type 0
ClearedAt RequestStatus.pending_approval r = Unit
ClearedAt RequestStatus.ready r = r.requester ≡ "dr-orchestrator"
ClearedAt RequestStatus.approved r = HasOtherApprover r
ClearedAt RequestStatus.running r = IsPermitted r
ClearedAt RequestStatus.success r = IsPermitted r
ClearedAt RequestStatus.failed r = Unit

abbrev pub IsCleared : Request → Type 0
IsCleared r = ClearedAt r.status r

abbrev pub HasUniqueIds : List Request → Type 0
HasUniqueIds [] = Unit
HasUniqueIds (r ∷ rs) = All (λ (q : Request). eqb q.id r.id ≡ false) rs × HasUniqueIds rs

pub record IsSound (db : Db) : Type 0 where
  pub unique : HasUniqueIds db.requests
  pub bounded : All (λ (r : Request). r.id ≤ db.sequences.requests) db.requests
  pub cleared : All IsCleared db.requests

-- A success is reported of a request that runs, or that a recovery test has seen succeed.
abbrev pub MayFinish : Bool → RequestStatus → Type 0
MayFinish true RequestStatus.running = Unit
MayFinish true RequestStatus.success = Unit
MayFinish true _ = ⊥
MayFinish false _ = Unit

-- the row that an id finds is the only one of that id
found_only :
    (id : ℕ) (rs : List Request) (req : Request)
    → HasUniqueIds rs
    → select_first (is_request id) rs ≡ some req
    → All (λ r. is_request id r ≡ true → r ≡ req) rs
found_only id [] req u h = tt
found_only id (r ∷ rs) req u h = elim (Bool-cases (is_request id r)) [
  | inl same ↦
      let here : r ≡ req = some_eq (rw same at h) in
      (
        λ _. here,
        All-mono (λ (q : Request). eqb q.id r.id ≡ false) _ rs (λ q ne s. ground arith) u.0,
      )
  | inr other ↦ (λ same. cc, found_only id rs req u.1 (rw other at h))
]

absent-map :
    (f : Request → Request) (id : ℕ) (rs : List Request)
    → ((r : Request) → (f r).id ≡ r.id)
    → All (λ (q : Request). eqb q.id id ≡ false) rs
    → All (λ (q : Request). eqb q.id id ≡ false) (map f rs)
absent-map f id [] same h = tt
absent-map f id (r ∷ rs) same h = (rw (same r) h.0, absent-map f id rs same h.1)

unique-map :
    (f : Request → Request) (rs : List Request)
    → ((r : Request) → (f r).id ≡ r.id)
    → HasUniqueIds rs
    → HasUniqueIds (map f rs)
unique-map f [] same u = tt
unique-map f (r ∷ rs) same u =
    (rw (same r) (absent-map f r.id rs same u.0), unique-map f rs same u.1)

bounded-map :
    (f : Request → Request) (n : ℕ) (rs : List Request)
    → ((r : Request) → (f r).id ≡ r.id)
    → All (λ (r : Request). r.id ≤ n) rs
    → All (λ (r : Request). r.id ≤ n) (map f rs)
bounded-map f n [] same h = tt
bounded-map f n (r ∷ rs) same h = (rw (same r) h.0, bounded-map f n rs same h.1)

IsCleared-update_where :
    (id : ℕ) (f : Request → Request) (req : Request) (rs : List Request)
    → All (λ r. is_request id r ≡ true → r ≡ req) rs
    → IsCleared (f req)
    → All IsCleared rs
    → All IsCleared (update_where (is_request id) f rs)
IsCleared-update_where id f req [] only cleared h = tt
IsCleared-update_where id f req (r ∷ rs) only cleared h = elim (Bool-cases (is_request id r)) [
  | inl same ↦
      rw (same, only.0 same) (cleared, IsCleared-update_where id f req rs only.1 cleared h.1)
  | inr other ↦ rw other (h.0, IsCleared-update_where id f req rs only.1 cleared h.1)
]

-- A write to the one request that an id finds keeps the invariant if the new row is cleared.
pub update-IsSound :
    (id : ℕ) (f : Request → Request) (req : Request) (db db' : Db)
    → get_restore_request id db ≡ some req
    → ((r : Request) → is_request id (f r) ≡ is_request id r)
    → ((r : Request) → (f r).id ≡ r.id)
    → IsCleared (f req)
    → db'.requests ≡ update_where (is_request id) f db.requests
    → db'.sequences.requests ≡ db.sequences.requests
    → IsSound db
    → IsSound db'
unfolding get_restore_request
update-IsSound id f req db db' found keeps ids cleared same seq s =
    let g = λ (r : Request). if is_request id r then f r else r in
    let g_ids : (r : Request) → (g r).id ≡ r.id = λ r. ground (arith, ids r) in
    record {
      unique = rw same (unique-map g db.requests g_ids s.unique);
      bounded = rw (same, seq) (bounded-map g db.sequences.requests db.requests g_ids s.bounded);
      cleared = rw same (
          IsCleared-update_where id f req db.requests (found_only id db.requests req s.unique found)
            cleared s.cleared);
    }

pub get_restore_request-IsCleared :
    (id : ℕ) (req : Request) (db : Db)
    → IsSound db
    → get_restore_request id db ≡ some req
    → IsCleared req
unfolding get_restore_request
get_restore_request-IsCleared id req db s found =
    All-select_first IsCleared (is_request id) db.requests req s.cleared found

pub started_cleared :
    (status : RequestStatus) (req : Request)
    → may_start status ≡ true
    → ClearedAt status req
    → IsPermitted req
started_cleared RequestStatus.approved req may c = inl c
started_cleared RequestStatus.ready req may c = inr c
started_cleared _ req may c = cc

finished_cleared :
    (status : RequestStatus) (req : Request)
    → MayFinish true status
    → ClearedAt status req
    → IsPermitted req
finished_cleared RequestStatus.running req may c = c
finished_cleared RequestStatus.success req may c = c
finished_cleared _ req may c = absurd may

pub finished-IsCleared :
    (now : String) (success : Bool) (result : Option Json) (error : Option String) (req : Request)
    → MayFinish success req.status
    → IsCleared req
    → IsCleared (finished_request now success result error req)
finished-IsCleared now true result error req may c = finished_cleared req.status req may c
finished-IsCleared now false result error req may c = tt

-- a new row whose id is above all others
pub unique-append :
    (n : ℕ) (rs : List Request) (q : Request)
    → All (λ (r : Request). r.id ≤ n) rs
    → n < q.id
    → HasUniqueIds rs
    → HasUniqueIds (rs ++ q ∷ [])
unique-append n [] q b lt u = (tt, tt)
unique-append n (r ∷ rs) q b lt u = (
  All-append (λ (x : Request). eqb x.id r.id ≡ false) rs (q ∷ []) u.0 (ground arith, tt),
  unique-append n rs q b.1 lt u.1,
)
