-- ===== src/Catalog/Points/Expiry.antt =====
-- `mark_points_expired` and `mark_verified`: which points stay live and protected.
use immutavault.Json.{Json, set_key, loads_or_empty, or_empty_object}
use immutavault.Catalog.Rows.{Point, Db}
use immutavault.Catalog.Points.{
  has_id, is_live, get_point, with_expiry, expire_one, mark_points_expired, with_verdict,
  mark_verified,
}
use immutavault.Catalog.Points.Immutability.{
  shields, shields-eq-any, shields_row, NotShorter, NotShorter-refl, keeps_shields,
}
use immutavault.Prelude.{
  String, ◌≡◌, ◌⊎◌, refl, Bool, true, false, Option, none, List, [], ◌∷◌, any, ◌==◌, eq_iff,
  if◌then◌else◌, Result-cases, arith, All-every, Bool-cases, Option-cases, inl, inr,
}
use immutavault.Prelude.Order.{str_ltb_irrefl}
use immutavault.Prelude.Table.{select_first, any-map_mono}
use mathlib.Core.List.{foldl}

-- the names in a list, as a test
abbrev pub listed : List String → String → Bool
listed ids id = any (λ i. i == id) ids

row_kept :
    (now at id other : String) (x : Point)
    → (other == id) ≡ false
    → shields_row at id x ≡ true
    → shields_row at id (if has_id other x then with_expiry now x else x) ≡ true
row_kept now at id other x ne h =
    ground (arith, eq_iff x.snapshot_id other, eq_iff x.snapshot_id id, eq_iff other id)

any-expire_one :
    (now at id other : String) (ps : List Point)
    → (other == id) ≡ false
    → any (shields_row at id) ps ≡ true
    → any (shields_row at id) (expire_one now ps other) ≡ true
any-expire_one now at id other ps ne h =
    any-map_mono (shields_row at id) _ ps (All-every _ ps (λ x. row_kept now at id other x ne)) h

any-foldl :
    (now at id : String) (ids : List String) (ps : List Point)
    → listed ids id ≡ false
    → any (shields_row at id) ps ≡ true
    → any (shields_row at id) (foldl (expire_one now) ps ids) ≡ true
any-foldl now at id [] ps h k = k
any-foldl now at id (i ∷ ids) ps h k =
    any-foldl now at id ids (expire_one now ps i) (ground arith)
      (any-expire_one now at id i ps (ground arith) k)

-- A protected point that is not in the list stays protected when the list is marked expired.
pub mark_points_expired-keeps :
    (now at id : String) (ids : List String) (db : Db)
    → listed ids id ≡ false
    → shields at db id ≡ true
    → shields at (mark_points_expired now ids db) id ≡ true
unfolding mark_points_expired
mark_points_expired-keeps now at id [] db h k = k
mark_points_expired-keeps now at id (i ∷ ids) db h k =
    rw (shields-eq-any at id)
      (any-foldl now at id (i ∷ ids) db.points h (rw (shields-eq-any at id db) at k))

-- The one step of the loop: the row of a marked id is gone, and stays gone.
unfound-expire_one :
    (now id other : String) (ps : List Point)
    → ((other == id) ≡ true) ⊎ (select_first (is_live id) ps ≡ none)
    → select_first (is_live id) (expire_one now ps other) ≡ none
unfound-expire_one now id other [] h = refl
unfound-expire_one now id other (p ∷ ps) h = ground (
  arith,
  eq_iff p.snapshot_id other,
  eq_iff p.snapshot_id id,
  eq_iff other id,
  unfound-expire_one now id other ps,
)

unfound-foldl :
    (now id : String) (ids : List String) (ps : List Point)
    → (listed ids id ≡ true) ⊎ (select_first (is_live id) ps ≡ none)
    → select_first (is_live id) (foldl (expire_one now) ps ids) ≡ none
unfound-foldl now id [] ps (inl h) = cc
unfound-foldl now id [] ps (inr h) = h
unfound-foldl now id (i ∷ ids) ps (inr h) =
    unfound-foldl now id ids (expire_one now ps i) (inr (unfound-expire_one now id i ps (inr h)))
unfound-foldl now id (i ∷ ids) ps (inl h) =
    unfound-foldl now id ids (expire_one now ps i) (elim (Bool-cases (i == id)) [
      | inl same ↦ inr (unfound-expire_one now id i ps (inl same))
      | inr other ↦ inl (ground arith)
    ])

-- A point that is marked expired is found by get_point no more.
pub mark_points_expired-unfound :
    (now id : String) (ids : List String) (db : Db)
    → listed ids id ≡ true
    → get_point id (mark_points_expired now ids db) ≡ none
unfolding mark_points_expired get_point
mark_points_expired-unfound now id [] db h = cc
mark_points_expired-unfound now id (i ∷ ids) db h = unfound-foldl now id (i ∷ ids) db.points (inl h)

with_verdict-NotShorter :
    (now snapshot_id : String) (verified : Bool) (metadata : Json) (p : Point)
    → NotShorter p (if has_id snapshot_id p then with_verdict now verified metadata p else p)
with_verdict-NotShorter now snapshot_id verified metadata p =
    elim (Bool-cases (has_id snapshot_id p)) [
      | inl same ↦ rw same (refl, refl, str_ltb_irrefl p.immutable_until)
      | inr other ↦ rw other (NotShorter-refl p)
    ]

-- A verdict on any point keeps every protected point protected.
pub mark_verified-keeps :
    (now snapshot_id at id : String) (verified : Bool) (details : Option Json) (db : Db)
    → shields at db id ≡ true
    → shields at (mark_verified now snapshot_id verified details db).1 id ≡ true
unfolding mark_verified
mark_verified-keeps now snapshot_id at id verified details db h =
    elim (Option-cases (select_first (has_id snapshot_id) db.points)) [
      | inl missing ↦ rw (missing, mark_verified) h
      | inr (row, found) ↦
          elim (Result-cases
            (set_key "verification" (or_empty_object details) (loads_or_empty row.metadata_json))) [
              | inl (e, refused) ↦ rw (found, refused, mark_verified) h
              | inr (metadata, stored) ↦
                  rw (found, stored, mark_verified)
                    (keeps_shields at id
                      (λ p.
                        if has_id snapshot_id p then with_verdict now verified metadata p else p)
                      db _ refl
                      (All-every _ db.points
                        (λ p. with_verdict-NotShorter now snapshot_id verified metadata p))
                      h)
            ]
    ]
