-- ===== src/Catalog/Summary/Counts.antt =====
-- `list_vms` and `status_summary` count the same recovery points.
use immutavault.Catalog.Rows.{Point, Db}
use immutavault.Catalog.Summary.{
  VmRow, into_groups, insert_row, order_rows, list_vms, status_summary, first_of_group, grown_group,
}
use immutavault.Prelude.{
  ℕ, ◌+◌, ◌≡◌, refl, Bool, not, ◌&&◌, List, [], ◌∷◌, length, arith, any, ◌∙◌, ◌||◌, ltb,
}
use immutavault.Prelude.Table.{select_all, count_where}
use mathlib.Core.List.{foldl}

-- the points that the groups count together
abbrev pub grouped : List VmRow → ℕ
grouped [] = 0
grouped (r ∷ rs) = r.restore_points + grouped rs

grouped-into_groups : (rs : List VmRow) (p : Point) → grouped (into_groups rs p) ≡ grouped rs + 1
grouped-into_groups [] p = refl
grouped-into_groups (r ∷ rs) p = ground (arith, grouped-into_groups rs p)

grouped-foldl :
    (ps : List Point) (rs : List VmRow) → grouped (foldl into_groups rs ps) ≡ grouped rs + length ps
grouped-foldl [] rs = omega arith
grouped-foldl (p ∷ ps) rs =
    omega (arith, grouped-foldl ps (into_groups rs p), grouped-into_groups rs p)

grouped-insert_row :
    (r : VmRow) (rs : List VmRow) → grouped (insert_row r rs) ≡ r.restore_points + grouped rs
grouped-insert_row r [] = refl
grouped-insert_row r (s ∷ rs) = ground (arith, grouped-insert_row r rs)

grouped-order_rows : (rs : List VmRow) → grouped (order_rows rs) ≡ grouped rs
grouped-order_rows [] = refl
grouped-order_rows (r ∷ rs) =
    omega (arith, grouped-insert_row r (order_rows rs), grouped-order_rows rs)

-- The restore points that list_vms counts for its VMs add up to the live points that status_summary
-- counts.
pub list_vms-points_total : (db : Db) → grouped (list_vms db) ≡ (status_summary db).points_total
unfolding list_vms status_summary
list_vms-points_total db =
    let live = select_all (λ (p : Point). not p.expired) db.points in
    omega (arith, grouped-order_rows (foldl into_groups [] live), grouped-foldl live [])

any-insert_row :
    (column : VmRow → Bool) (r : VmRow) (rs : List VmRow)
    → any column (insert_row r rs) ≡ (column r || any column rs)
any-insert_row column r [] = refl
any-insert_row column r (s ∷ rs) = ground (arith, any-insert_row column r rs)

any-order_rows :
    (column : VmRow → Bool) (rs : List VmRow) → any column (order_rows rs) ≡ any column rs
any-order_rows column [] = refl
any-order_rows column (r ∷ rs) =
    ground (arith, any-insert_row column r (order_rows rs), any-order_rows column rs)

any-count :
    (flag : Point → Bool) (ps : List Point)
    → any flag (select_all (λ (p : Point). not p.expired) ps)
      ≡ ltb 0 (count_where (λ (p : Point). not p.expired && flag p) ps)
any-count flag [] = refl
any-count flag (p ∷ ps) = ground (arith, any-count flag ps)

-- A column of list_vms that is set in a group as soon as one of its points has the flag.
module _ (column : VmRow → Bool) (flag : Point → Bool)
    (first : (p : Point) → column (first_of_group p) ≡ flag p)
    (grown : (p : Point) (r : VmRow) → column (grown_group p r) ≡ (column r || flag p)) where
  any-into_groups :
      (rs : List VmRow) (p : Point) → any column (into_groups rs p) ≡ (any column rs || flag p)
  any-into_groups [] p = ground (arith, first p)
  any-into_groups (r ∷ rs) p = ground (arith, grown p r, any-into_groups rs p)

  any-foldl :
      (ps : List Point) (rs : List VmRow)
      → any column (foldl into_groups rs ps) ≡ (any column rs || any flag ps)
  any-foldl [] rs = ground arith
  any-foldl (p ∷ ps) rs = ground (arith, any-foldl ps (into_groups rs p), any-into_groups rs p)

  any-list_vms :
      (db : Db)
      → any column (list_vms db)
        ≡ ltb 0 (count_where (λ (p : Point). not p.expired && flag p) db.points)
  unfolding list_vms
  any-list_vms db =
      let live = select_all (λ (p : Point). not p.expired) db.points in
      any-order_rows column (foldl into_groups [] live)
      ∙ any-foldl live []
      ∙ any-count flag db.points

-- Some VM of list_vms has a verified point exactly when status_summary counts a verified point, and
-- some VM has a suspicious point exactly when status_summary counts a suspicious one.
pub list_vms-flags :
    (db : Db)
    → (any (λ (r : VmRow). r.has_verified_point) (list_vms db)
        ≡ ltb 0 (status_summary db).points_verified)
      × (any (λ (r : VmRow). r.has_suspicious_point) (list_vms db)
          ≡ ltb 0 (status_summary db).points_suspicious)
unfolding status_summary
list_vms-flags db = (
  any-list_vms (λ r. r.has_verified_point) (λ p. p.verified) (λ p. refl) (λ p r. refl) db,
  any-list_vms (λ r. r.has_suspicious_point) (λ p. p.suspicious) (λ p. refl) (λ p r. refl) db,
)
