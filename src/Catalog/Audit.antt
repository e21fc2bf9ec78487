-- ===== src/Catalog/Audit.antt =====
-- The hash-chained audit log: `_audit_hash`, `_backfill_audit_hashes`, `audit`,
-- `verify_audit_chain` and `list_audit` of src/immutavault/state.py.
pub mod Chain
pub mod Payload
pub mod Tamper
use immutavault.Json.{Json, obj, field, end, str}
use immutavault.Json.Print.{dumps_sorted}
use immutavault.Catalog.Rows.{AuditEvent, Db}
use immutavault.Prelude.{
  ℕ, ◌+◌, String, Bool, true, false, Option, none, some, List, [], ◌∷◌, ◌++◌, not, take, is_empty,
  ◌==◌, or_default, if◌then◌else◌,
}
use immutavault.Prelude.Table.{last_row}
use mathlib.Core.List.{reverse}

-- what `verify_audit_chain` reports of an event, by its id
pub data AuditError : Type 0 where
  previous_hash_mismatch : ℕ → AuditError
  hash_mismatch : ℕ → AuditError

abbrev pub genesis : String
genesis = "GENESIS"

-- `str(row["event_hash"]) if row["event_hash"] else …`: NULL and the empty text are falsy
abbrev pub non_empty : Option String → Option String
non_empty none = none
non_empty (some h) = if h == "" then none else some h

-- the text that `_audit_hash` hashes
unfoldable pub payload : String → String → String → String → String → String → String → String
payload created_at actor action object_type object_id details_json prev_hash = dumps_sorted (
    obj (
      field "created_at" (str created_at) (
        field "actor" (str actor) (
          field "action" (str action) (
            field "object_type" (str object_type) (
              field "object_id" (str object_id) (
                field "details_json" (str details_json)
                  (field "prev_hash" (str prev_hash) end))))))))

-- `sha256` stands for `hashlib.sha256(text.encode()).hexdigest()`.
module _ (sha256 : String → String) where
  unfoldable pub audit_hash : String → String → String → String → String → String → String → String
  audit_hash created_at actor action object_type object_id details_json prev_hash =
      sha256 (payload created_at actor action object_type object_id details_json prev_hash)

  -- the hash that an event should have after an event whose hash is `prev_hash`
  abbrev pub expected_hash : AuditEvent → String → String
  expected_hash row prev_hash =
      audit_hash row.created_at row.actor row.action row.object_type row.object_id row.details_json
        prev_hash

  unfoldable pub backfill_from : String → List AuditEvent → List AuditEvent
  backfill_from prev_hash [] = []
  backfill_from prev_hash (row ∷ rows) = elim (non_empty row.event_hash) [
    | none ↦
        let expected = expected_hash row prev_hash in
        record row { prev_hash = some prev_hash; event_hash = some expected }
        ∷ backfill_from expected rows
    | some event_hash ↦ row ∷ backfill_from event_hash rows
  ]

  unfoldable pub backfill_audit_hashes : Db → Db
  unfolding backfill_from
  backfill_audit_hashes db = record db { audit_events = backfill_from genesis db.audit_events }

  -- the hash that the next event is chained to
  unfoldable pub chain_head : List AuditEvent → String
  chain_head events = elim (last_row events) [
    | none ↦ genesis
    | some row ↦ or_default (non_empty row.event_hash) genesis
  ]

  -- `now` is the reading of `utcnow`.
  unfoldable pub audit : String → String → String → String → String → Json → Db → Db
  unfolding chain_head
  audit now actor action object_type object_id details db =
      let details_json = dumps_sorted details in
      let prev_hash = chain_head db.audit_events in
      let id = db.sequences.audit + 1 in
      record db {
        audit_events =
            db.audit_events
            ++ record {
              id = id;
              created_at = now;
              actor = actor;
              action = action;
              object_type = object_type;
              object_id = object_id;
              details_json = details_json;
              prev_hash = some prev_hash;
              event_hash =
                  some (audit_hash now actor action object_type object_id details_json prev_hash);
            }
              ∷ [];
        sequences = record (db.sequences) { audit = id };
      }

  abbrev pub errors_at : AuditEvent → String → List AuditError
  errors_at row prev_hash =
      (if or_default row.prev_hash "" == prev_hash then [] else previous_hash_mismatch row.id ∷ [])
      ++ (if or_default row.event_hash "" == expected_hash row prev_hash
          then []
          else hash_mismatch row.id ∷ [])

  -- the loop of `verify_audit_chain`
  unfoldable pub verify_from : String → List AuditEvent → List AuditError
  verify_from prev_hash [] = []
  verify_from prev_hash (row ∷ rows) =
      errors_at row prev_hash
      ++ verify_from (or_default (non_empty row.event_hash) (expected_hash row prev_hash)) rows

  unfoldable pub verify_audit_chain : Db → Bool × List AuditError
  unfolding verify_from
  verify_audit_chain db =
      let errors = verify_from genesis db.audit_events in (is_empty errors, errors)

-- `ORDER BY id DESC LIMIT ?`
unfoldable pub list_audit : ℕ → Db → List AuditEvent
list_audit limit db = take limit (reverse db.audit_events)
