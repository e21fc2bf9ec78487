-- ===== src/Engine/Retention.antt =====
-- The retention job: `ResticRepository.retention` of src/immutavault/restic.py and
-- `BackupEngine.retention` of src/immutavault/engine.py.
use immutavault.Json.{Items, nil, cons, obj, field, end, str, num, arr}
use immutavault.Catalog.Rows.{Db}
use immutavault.Catalog.Audit.{audit}
use immutavault.Catalog.Points.{protected_snapshot_ids, mark_points_expired}
use immutavault.Catalog.Points.Immutability.{shields}
use immutavault.Catalog.Points.Expiry.{listed, mark_points_expired-keeps}
use immutavault.Prelude.{
  String, ◌≡◌, refl, true, false, not, ◌&&◌, List, [], ◌∷◌, ◌++◌, length, ◌==◌, eq_iff, is_empty,
  if◌then◌else◌, Result, ok, err, arith, inl, inr, Result-cases,
}
use immutavault.Prelude.Order.{str_ltb}

-- `sorted(set(…))`: one name into a sorted list without repetitions
abbrev pub insert_name : String → List String → List String
insert_name s [] = s ∷ []
insert_name s (t ∷ ts) =
    if s == t then t ∷ ts else if str_ltb s t then s ∷ t ∷ ts else t ∷ insert_name s ts

abbrev pub sorted_set : List String → List String
sorted_set [] = []
sorted_set (s ∷ ss) = insert_name s (sorted_set ss)

-- `if sid and sid not in protected: remove.append(sid)`
abbrev pub removable : List String → List String → List String
removable protected [] = []
removable protected (sid ∷ sids) =
    let rest = removable protected sids in
    if not (sid == "") && not (listed protected sid) then sid ∷ rest else rest

-- the two nested loops over the groups of the preview
abbrev pub removals : List String → List (List String) → List String
removals protected [] = []
removals protected (group ∷ groups) = removable protected group ++ removals protected groups

-- `ResticRepository.retention`. `preview` is what the dry run of `restic forget` names for removal,
-- group by group, or the exception; `forget` is how `restic forget` and `restic prune` end.
unfoldable pub repository_retention :
    Result (List (List String))
    → (List String → Result (Unit {0}))
    → List String
    → Result (List String)
repository_retention (err e) forget protected = err e
repository_retention (ok groups) forget protected =
    let remove = sorted_set (removals protected groups) in
    if is_empty remove then ok remove else elim (forget remove) [ err e ↦ err e | ok _ ↦ ok remove ]

abbrev pub names_json : List String → Items
names_json [] = nil
names_json (s ∷ ss) = cons (str s) (names_json ss)

module _ (sha256 : String → String) (preview : Result (List (List String)))
    (forget : List String → Result (Unit {0})) where
  -- `BackupEngine.retention`; the three times are the readings of `utcnow`, in order.
  unfoldable pub retention : String → String → String → Db → Result (List String) × Db
  retention at now now' db =
      let protected = protected_snapshot_ids at db in
      elim (repository_retention preview forget protected) [
        | err e ↦ (err e, db)
        | ok removed ↦ (
          ok removed,
          audit sha256 now' "root-maintenance" "retention.complete" "repository" "primary"
              (obj (
                field "removed" (arr (names_json removed))
                  (field "protected_count" (num (length (sorted_set protected))) end)))
              (mark_points_expired now removed db),
        )
      ]

-- what is named by a sorted list was named by the list
listed-insert_name :
    (s id : String) (ts : List String)
    → (s == id) ≡ false
    → listed ts id ≡ false
    → listed (insert_name s ts) id ≡ false
listed-insert_name s id [] h k = ground arith
listed-insert_name s id (t ∷ ts) h k = ground (arith, listed-insert_name s id ts)

listed-sorted_set :
    (id : String) (ss : List String) → listed ss id ≡ false → listed (sorted_set ss) id ≡ false
listed-sorted_set id [] h = refl
listed-sorted_set id (s ∷ ss) h =
    listed-insert_name s id (sorted_set ss) (ground arith) (listed-sorted_set id ss (ground arith))

listed-append :
    (id : String) (ss ts : List String)
    → listed ss id ≡ false
    → listed ts id ≡ false
    → listed (ss ++ ts) id ≡ false
listed-append id [] ts h k = k
listed-append id (s ∷ ss) ts h k = ground (arith, listed-append id ss ts)

-- a protected name is never among the removable ones
listed-removable :
    (protected : List String) (id : String) (sids : List String)
    → listed protected id ≡ true
    → listed (removable protected sids) id ≡ false
listed-removable protected id [] h = refl
listed-removable protected id (sid ∷ sids) h =
    ground (arith, eq_iff sid id, listed-removable protected id sids h)

listed-removals :
    (protected : List String) (id : String) (groups : List (List String))
    → listed protected id ≡ true
    → listed (removals protected groups) id ≡ false
listed-removals protected id [] h = refl
listed-removals protected id (group ∷ groups) h =
    listed-append id (removable protected group) (removals protected groups)
      (listed-removable protected id group h) (listed-removals protected id groups h)

repository_retention-removed :
    (groups : List (List String)) (forget : List String → Result (Unit {0}))
    (protected removed : List String)
    → repository_retention (ok groups) forget protected ≡ ok removed
    → sorted_set (removals protected groups) ≡ removed
unfolding repository_retention
repository_retention-removed groups forget protected removed k =
    elim (Result-cases (forget (sorted_set (removals protected groups)))) [
      | inl (e, failed) ↦ ground arith
      | inr (u, done) ↦ ground arith
    ]

repository_retention-spares :
    (preview : Result (List (List String))) (forget : List String → Result (Unit {0}))
    (protected removed : List String) (id : String)
    → listed protected id ≡ true
    → repository_retention preview forget protected ≡ ok removed
    → listed removed id ≡ false
unfolding repository_retention
repository_retention-spares (err e) forget protected removed id h k = cc
repository_retention-spares (ok groups) forget protected removed id h k =
    rw (← repository_retention-removed groups forget protected removed k)
      (listed-sorted_set id (removals protected groups) (listed-removals protected id groups h))

module _ (sha256 : String → String) (preview : Result (List (List String)))
    (forget : List String → Result (Unit {0})) where
  -- What a retention run reports as removed has no point that was protected when it began.
  pub retention-spares :
      (at now now' id : String) (db : Db) (removed : List String)
      → shields at db id ≡ true
      → (retention sha256 preview forget at now now' db).0 ≡ ok removed
      → listed removed id ≡ false
  unfolding retention
  retention-spares at now now' id db removed h k =
      let outcome = repository_retention preview forget (protected_snapshot_ids at db) in
      elim (Result-cases outcome) [
        | inl (e, failed) ↦ cc (rw (failed, retention) at k)
        | inr (removed', done) ↦
            let spared =
              repository_retention-spares preview forget (protected_snapshot_ids at db) removed' id
                h done in
            cc (rw (done, retention) at k, spared)
      ]

  -- A point that is protected when a retention run begins is protected after it, whatever the
  -- repository answers.
  pub retention-keeps :
      (at now now' id : String) (db : Db)
      → shields at db id ≡ true
      → shields at (retention sha256 preview forget at now now' db).1 id ≡ true
  unfolding retention
  retention-keeps at now now' id db h =
      let outcome = repository_retention preview forget (protected_snapshot_ids at db) in
      elim (Result-cases outcome) [
        | inl (e, failed) ↦ rw (failed, retention) h
        | inr (removed, done) ↦
            let spared =
              repository_retention-spares preview forget (protected_snapshot_ids at db) removed id h
                done in
            rw (done, retention)
              (unfold audit protected_snapshot_ids in
                mark_points_expired-keeps now at id removed db spared h)
      ]
