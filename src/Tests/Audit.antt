-- ===== src/Tests/Audit.antt =====
-- The audit log on small data.
use immutavault.Json.{obj, end}
use immutavault.Catalog.Rows.{AuditEvent, Db, empty_db}
use immutavault.Catalog.Audit.{backfill_audit_hashes, audit, verify_audit_chain}
use immutavault.Catalog.Audit.Chain.{IsDigest, IsVerified, audit-IsVerified, backfill-IsVerified}
use immutavault.Catalog.Audit.Payload.{payload_injective}
use immutavault.Catalog.Audit.Tamper.{IsCollisionFree, content, chain_head-pins_log}
use immutavault.Tests.Data.{tag}
use immutavault.Prelude.{
  String, ◌≡◌, refl, none, List, [], ◌∷◌, ◌++◌, map, ◌==◌, eq_iff, ◌≢◌, Bool-cases, inl, inr,
}

apart : (t : String) → tag t ≢ ""
apart t h = cc

tag-IsDigest : IsDigest tag
tag-IsDigest t = elim (Bool-cases (tag t == "")) [
  | inl same ↦ absurd (apart t ((eq_iff (tag t) "").0 same))
  | inr other ↦ other
]

tag-IsCollisionFree : IsCollisionFree tag
tag-IsCollisionFree s t h = cc

abbrev logged : Db
logged = audit tag "2026-01-01" "ann" "recovery.hold" "recovery_point" "a1" (obj end) empty_db

empty_db-IsVerified : IsVerified tag empty_db
unfolding verify_audit_chain
empty_db-IsVerified = refl

logged-IsVerified : IsVerified tag logged
logged-IsVerified =
    audit-IsVerified tag tag-IsDigest "2026-01-01" "ann" "recovery.hold" "recovery_point" "a1"
      (obj end) empty_db empty_db-IsVerified

audit-IsVerified_example :
    IsVerified tag
      (audit tag "2026-01-02" "bob" "restore.approve" "restore_request" "1" (obj end) logged)
audit-IsVerified_example =
    audit-IsVerified tag tag-IsDigest "2026-01-02" "bob" "restore.approve" "restore_request" "1"
      (obj end) logged logged-IsVerified

-- an event that an older version has written
abbrev plain_event : AuditEvent
plain_event = record {
  id = 1;
  created_at = "2025-01-01";
  actor = "ann";
  action = "platform.test";
  object_type = "platform";
  object_id = "lab";
  details_json = "{}";
  prev_hash = none;
  event_hash = none;
}

abbrev plain_log : Db
plain_log = record empty_db { audit_events = plain_event ∷ [] }

backfill-IsVerified_example :
    IsVerified tag (backfill_audit_hashes tag plain_log)
    × ((zs : List AuditEvent) × ((backfill_audit_hashes tag plain_log).audit_events ≡ [] ++ zs))
unfolding verify_audit_chain
backfill-IsVerified_example =
    backfill-IsVerified tag tag-IsDigest plain_log [] (plain_event ∷ []) refl refl (refl, tt)

abbrev word : String
word = "ann"

payload_injective_example :
    (word ≡ word)
    × (word ≡ word)
    × (word ≡ word)
    × (word ≡ word)
    × (word ≡ word)
    × (word ≡ word)
    × (word ≡ word)
payload_injective_example =
    payload_injective word word word word word word word word word word word word word word refl

chain_head-pins_log_example : map content logged.audit_events ≡ map content logged.audit_events
chain_head-pins_log_example =
    chain_head-pins_log tag tag-IsDigest tag-IsCollisionFree logged logged logged-IsVerified
      logged-IsVerified refl refl
