-- ===== src/Catalog/Audit/Chain.antt =====
-- The audit log stays a verified chain: `audit` and the backfill against `verify_audit_chain`.
use immutavault.Json.{Json}
use immutavault.Catalog.Rows.{AuditEvent, Db}
use immutavault.Catalog.Audit.{
  AuditError, genesis, non_empty, audit_hash, expected_hash, backfill_from, backfill_audit_hashes,
  chain_head, audit, errors_at, verify_from, verify_audit_chain,
}
use immutavault.Prelude.{
  String, ◌≡◌, refl, sym, ap, ◌∙◌, Bool, true, false, Option, none, some, List, [], ◌∷◌, ◌++◌, ◌==◌,
  eq_iff, eq_refl, or_default, if◌then◌else◌, is_empty→nil, append-eq_nil, arith, All,
}
use immutavault.Prelude.Table.{last_row}
use mathlib.Core.List.{append_assoc}

-- A digest is a text of 64 characters, and so never the empty one.
abbrev pub IsDigest : (String → String) → Type 0
IsDigest sha256 = (t : String) → (sha256 t == "") ≡ false

-- both tests of an event pass where no error is reported
tests_pass :
    (a b : Bool) (x y : AuditError)
    → (if a then [] else x ∷ []) ++ (if b then [] else y ∷ []) ≡ []
    → (a ≡ true) × (b ≡ true)
tests_pass a b x y h = ground arith

-- a stored hash that equals a hash which is not empty
stored_hash :
    (o : Option String) (e : String)
    → (e == "") ≡ false
    → (or_default o "" == e) ≡ true
    → non_empty o ≡ some e
stored_hash none e h k = cc (h, eq_refl e, (eq_iff "" e).0 k)
stored_hash (some t) e h k = rw ((eq_iff t e).0 k, h)

module _ (sha256 : String → String) where
  -- The log passes `verify_audit_chain`.
  abbrev pub IsVerified : Db → Type 0
  IsVerified db = (verify_audit_chain sha256 db).0 ≡ true

  -- the hash that the loop of `verify_audit_chain` goes on from after these events
  abbrev pub after : String → List AuditEvent → String
  after prev_hash [] = prev_hash
  after prev_hash (row ∷ rows) =
      after (or_default (non_empty row.event_hash) (expected_hash sha256 row prev_hash)) rows

  pub verify_from-append :
      (prev_hash : String) (xs ys : List AuditEvent)
      → verify_from sha256 prev_hash (xs ++ ys)
        ≡ verify_from sha256 prev_hash xs ++ verify_from sha256 (after prev_hash xs) ys
  unfolding verify_from
  verify_from-append prev_hash [] ys = refl
  verify_from-append prev_hash (row ∷ rows) ys =
      rw
        (verify_from-append
          (or_default (non_empty row.event_hash) (expected_hash sha256 row prev_hash)) rows ys)
        (sym (append_assoc (errors_at sha256 row prev_hash) _ _))

  pub verify_from-genesis :
      (db : Db) → IsVerified db → verify_from sha256 genesis db.audit_events ≡ []
  unfolding verify_audit_chain
  verify_from-genesis db h = is_empty→nil _ h

  module _ (digest : IsDigest sha256) where
    non_empty-digest : (t : String) → non_empty (some (sha256 t)) ≡ some (sha256 t)
    non_empty-digest t = rw (digest t)

    -- an event without an error carries the hash that it should, and the hash before it
    pub errors_at_nil :
        (row : AuditEvent) (prev_hash : String)
        → errors_at sha256 row prev_hash ≡ []
        → (non_empty row.event_hash ≡ some (expected_hash sha256 row prev_hash))
          × (or_default row.prev_hash "" ≡ prev_hash)
    unfolding audit_hash
    errors_at_nil row prev_hash h =
        let e = expected_hash sha256 row prev_hash in
        let parts =
          tests_pass (or_default row.prev_hash "" == prev_hash) (or_default row.event_hash "" == e)
            _ _ h in
        (stored_hash row.event_hash e (digest _) parts.1, (eq_iff _ _).0 parts.0)

    head_of : String → List AuditEvent → String
    head_of prev_hash xs = elim (last_row xs) [
      | none ↦ prev_hash
      | some row ↦ or_default (non_empty row.event_hash) genesis
    ]

    head_of-cons :
        (p q : String) (x : AuditEvent) (xs : List AuditEvent)
        → head_of p (x ∷ xs) ≡ head_of q (x ∷ xs)
    unfolding head_of
    head_of-cons p q x [] = refl
    head_of-cons p q x (y ∷ ys) = head_of-cons p q y ys

    after-eq-head_of :
        (prev_hash : String) (xs : List AuditEvent)
        → verify_from sha256 prev_hash xs ≡ []
        → after prev_hash xs ≡ head_of prev_hash xs
    unfolding verify_from head_of
    after-eq-head_of prev_hash [] h = refl
    after-eq-head_of prev_hash (row ∷ []) h =
        let e = append-eq_nil (errors_at sha256 row prev_hash) [] h in
        rw (errors_at_nil row prev_hash e.0).0
    after-eq-head_of prev_hash (row ∷ next ∷ rows) h =
        let e = append-eq_nil (errors_at sha256 row prev_hash) _ h in
        after-eq-head_of
          (or_default (non_empty row.event_hash) (expected_hash sha256 row prev_hash)) (next ∷ rows)
          e.1
        ∙ head_of-cons _ prev_hash next rows

    -- After a log without errors the loop stands where `audit` chains the next event.
    pub after-eq-chain_head :
        (xs : List AuditEvent)
        → verify_from sha256 genesis xs ≡ []
        → after genesis xs ≡ chain_head sha256 xs
    unfolding chain_head head_of
    after-eq-chain_head xs h = after-eq-head_of genesis xs h

    -- For a digest that is never empty, audit keeps a log that passes verify_audit_chain passing.
    pub audit-IsVerified :
        (now actor action object_type object_id : String) (details : Json) (db : Db)
        → IsVerified db
        → IsVerified (audit sha256 now actor action object_type object_id details db)
    unfolding audit verify_audit_chain
    audit-IsVerified now actor action object_type object_id details db h =
        let e = verify_from-genesis db h in
        rw (
          verify_from-append genesis db.audit_events,
          e,
          after-eq-chain_head db.audit_events e,
          eq_refl,
          eq_refl,
        )

    -- rows older than the hash chain
    abbrev pub Unhashed : AuditEvent → Type 0
    Unhashed row = non_empty row.event_hash ≡ none

    -- an unhashed row as the backfill writes it
    abbrev rehashed : AuditEvent → String → AuditEvent
    rehashed row prev_hash = record row {
      prev_hash = some prev_hash;
      event_hash = some (expected_hash sha256 row prev_hash);
    }

    backfill_from-Unhashed :
        (prev_hash : String) (row : AuditEvent) (rows : List AuditEvent)
        → Unhashed row
        → backfill_from sha256 prev_hash (row ∷ rows)
          ≡ rehashed row prev_hash ∷ backfill_from sha256 (expected_hash sha256 row prev_hash) rows
    unfolding backfill_from
    backfill_from-Unhashed prev_hash row rows h = rw (h, backfill_from)

    backfill_from-hashed :
        (prev_hash : String) (row : AuditEvent) (rows : List AuditEvent) {t : String}
        → non_empty row.event_hash ≡ some t
        → backfill_from sha256 prev_hash (row ∷ rows) ≡ row ∷ backfill_from sha256 t rows
    unfolding backfill_from
    backfill_from-hashed prev_hash row rows h = rw (h, backfill_from)

    errors_at-rehashed :
        (row : AuditEvent) (prev_hash : String)
        → (errors_at sha256 (rehashed row prev_hash) prev_hash ≡ [])
          × (or_default
                (non_empty (rehashed row prev_hash).event_hash)
                (expected_hash sha256 row prev_hash)
              ≡ expected_hash sha256 row prev_hash)
    unfolding audit_hash
    errors_at-rehashed row prev_hash = (rw (eq_refl, eq_refl), rw non_empty-digest)

    backfill_from-verified :
        (prev_hash : String) (ys : List AuditEvent)
        → All Unhashed ys
        → verify_from sha256 prev_hash (backfill_from sha256 prev_hash ys) ≡ []
    unfolding verify_from backfill_from
    backfill_from-verified prev_hash [] h = refl
    backfill_from-verified prev_hash (row ∷ rows) h =
        let e = errors_at-rehashed row prev_hash in
        rw (backfill_from-Unhashed prev_hash row rows h.0, e.0, e.1)
          (backfill_from-verified (expected_hash sha256 row prev_hash) rows h.1)

    backfill_from-append :
        (prev_hash : String) (xs ys : List AuditEvent)
        → verify_from sha256 prev_hash xs ≡ []
        → backfill_from sha256 prev_hash (xs ++ ys)
          ≡ xs ++ backfill_from sha256 (after prev_hash xs) ys
    unfolding verify_from
    backfill_from-append prev_hash [] ys h = refl
    backfill_from-append prev_hash (row ∷ rows) ys h =
        let e = append-eq_nil (errors_at sha256 row prev_hash) _ h in
        let stored = (errors_at_nil row prev_hash e.0).0 in
        backfill_from-hashed prev_hash row (rows ++ ys) stored
        ∙ rw stored (
            ap (λ zs. row ∷ zs)
              (backfill_from-append (expected_hash sha256 row prev_hash) rows ys
                (rw stored at e.1)))

    -- For a digest that is never empty and a log that is a part without errors followed by rows
    -- without hashes, the backfill gives a log that verifies and begins with that part.
    pub backfill-IsVerified :
        (db : Db) (xs ys : List AuditEvent)
        → db.audit_events ≡ xs ++ ys
        → verify_from sha256 genesis xs ≡ []
        → All Unhashed ys
        → IsVerified (backfill_audit_hashes sha256 db)
          × ((zs : List AuditEvent) × ((backfill_audit_hashes sha256 db).audit_events ≡ xs ++ zs))
    unfolding backfill_audit_hashes verify_audit_chain
    backfill-IsVerified db xs ys split verified unhashed =
        let kept =
          ap (backfill_from sha256 genesis) split ∙ backfill_from-append genesis xs ys verified in
        (
          rw (
            kept,
            verify_from-append genesis xs,
            verified,
            backfill_from-verified (after genesis xs) ys unhashed,
          ),
          (backfill_from sha256 (after genesis xs) ys, kept),
        )
