-- ===== src/Catalog/Audit/Tamper.antt =====
-- The last hash of a verified audit log fixes every event of the log.
use immutavault.Catalog.Rows.{AuditEvent, Db}
use immutavault.Catalog.Audit.{
  genesis, audit_hash, expected_hash, chain_head, errors_at, verify_from,
}
use immutavault.Catalog.Audit.Chain.{
  IsDigest, IsVerified, verify_from-genesis, after, after-eq-chain_head, errors_at_nil,
}
use immutavault.Catalog.Audit.Payload.{payload_injective}
use immutavault.Prelude.{
  String, ◌≡◌, refl, sym, ◌∙◌, List, [], ◌∷◌, length, arith, append-eq_nil, map,
}

-- what the hash of an event covers
pub record Content : Type 0 where
  pub created_at : String
  pub actor : String
  pub action : String
  pub object_type : String
  pub object_id : String
  pub details_json : String

abbrev pub content : AuditEvent → Content
content row = record {
  created_at = row.created_at;
  actor = row.actor;
  action = row.action;
  object_type = row.object_type;
  object_id = row.object_id;
  details_json = row.details_json;
}

-- No two texts have one digest.
abbrev pub IsCollisionFree : (String → String) → Type 0
IsCollisionFree sha256 = (s t : String) → sha256 s ≡ sha256 t → s ≡ t

module _ (sha256 : String → String) (digest : IsDigest sha256)
    (collision_free : IsCollisionFree sha256) where
  expected_hash_injective :
      (row row' : AuditEvent) (p p' : String)
      → expected_hash sha256 row p ≡ expected_hash sha256 row' p'
      → (content row ≡ content row') × (p ≡ p')
  unfolding audit_hash
  expected_hash_injective row row' p p' h =
      let e = payload_injective _ _ _ _ _ _ _ _ _ _ _ _ _ _ (collision_free _ _ h) in
      (cc (e.0, e.1, e.2, e.3, e.4, e.5), e.6)

  pinned :
      (xs ys : List AuditEvent) (p p' : String)
      → verify_from sha256 p xs ≡ []
      → verify_from sha256 p' ys ≡ []
      → length xs ≡ length ys
      → after sha256 p xs ≡ after sha256 p' ys
      → (map content xs ≡ map content ys) × (p ≡ p')
  unfolding verify_from
  pinned [] [] p p' hx hy l h = (refl, h)
  pinned [] (y ∷ ys) p p' hx hy l h = absurd (omega arith)
  pinned (x ∷ xs) [] p p' hx hy l h = absurd (omega arith)
  pinned (x ∷ xs) (y ∷ ys) p p' hx hy l h =
      let ex = append-eq_nil (errors_at sha256 x p) _ hx in
      let ey = append-eq_nil (errors_at sha256 y p') _ hy in
      let sx = (errors_at_nil sha256 digest x p ex.0).0 in
      let sy = (errors_at_nil sha256 digest y p' ey.0).0 in
      let ih =
        pinned xs ys (expected_hash sha256 x p) (expected_hash sha256 y p') (rw sx at ex.1)
          (rw sy at ey.1) (omega arith) (rw (sx, sy) at h) in
      let e = expected_hash_injective x y p p' ih.1 in (cc (ih.0, e.0), e.1)

  -- For a digest that is never empty and has no collisions, two verified logs of the same length
  -- with the same last hash hold the same events.
  pub chain_head-pins_log :
      (db db' : Db)
      → IsVerified sha256 db
      → IsVerified sha256 db'
      → length db.audit_events ≡ length db'.audit_events
      → chain_head sha256 db.audit_events ≡ chain_head sha256 db'.audit_events
      → map content db.audit_events ≡ map content db'.audit_events
  chain_head-pins_log db db' h h' l same =
      let e = verify_from-genesis sha256 db h in
      let e' = verify_from-genesis sha256 db' h' in
      (pinned db.audit_events db'.audit_events genesis genesis e e' l (
        after-eq-chain_head sha256 digest db.audit_events e
        ∙ same
        ∙ sym (after-eq-chain_head sha256 digest db'.audit_events e'))).0
