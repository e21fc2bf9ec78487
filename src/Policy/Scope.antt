-- ===== src/Policy/Scope.antt =====
-- The run of a policy reaches no platform that the policy does not select.
use immutavault.Engine.Backup.Files.{Vm}
use immutavault.Json.{Json}
use immutavault.Catalog.Rows.{Db}
use immutavault.Engine.Config.{Platform, Config}
use immutavault.Engine.Backup.{BackupReport}
use immutavault.Engine.Backup.All.{
  PlatformOutcomes, then_more, backup_vms, backup_platform, backup_platforms, backup_all,
}
use immutavault.Policy.{
  ProtectionPolicy, selected_vms, narrowed, policy_config, run_found, run_policy, find_policy,
}
use immutavault.Prelude.{
  String, ◌≡◌, refl, ap, ◌∙◌, Bool, true, false, ◌&&◌, is_some, List, [], ◌∷◌, map, Result, ok, err,
  if◌then◌else◌, Result-cases, inl, inr, arith, ◌>>◌,
}

-- The same answers come from all platforms that the policy selects, as they are narrowed.
abbrev pub AgreeOn : ProtectionPolicy → (outside outside' : Platform → PlatformOutcomes) → Type 0
AgreeOn policy outside outside' =
    (p : Platform)
    → is_some (selected_vms p.name policy.selections) ≡ true
    → outside (narrowed policy p) ≡ outside' (narrowed policy p)

then_more_same :
    (x : Result (List BackupReport) × Db) (f g : Db → Result (List BackupReport) × Db)
    → ((db : Db) → f db ≡ g db)
    → then_more x f ≡ then_more x g
then_more_same (err e, db) f g same = refl
then_more_same (ok reports, db) f g same = rw (same db) refl

either_way :
    (on : Bool) (x y : Result (List BackupReport) × Db) (f g : Db → Result (List BackupReport) × Db)
    (db : Db)
    → (on ≡ true → x ≡ y)
    → ((db' : Db) → f db' ≡ g db')
    → (if on then then_more x f else f db) ≡ (if on then then_more y g else g db)
either_way true x y f g db same rest =
    ap (λ z. then_more z f) (same refl) ∙ then_more_same y f g rest
either_way false x y f g db same rest = rest db

module _ (sha256 : String → String) (policy : ProtectionPolicy)
    (outside outside' : Platform → PlatformOutcomes) (dry_run : Bool) (view : Config) where
  backup_vms_agree :
      (p : Platform) (info : Json) (vms : List Vm) (db : Db)
      → outside p ≡ outside' p
      → backup_vms sha256 view outside dry_run p info vms db
        ≡ backup_vms sha256 view outside' dry_run p info vms db
  unfolding backup_vms
  backup_vms_agree p info [] db same = refl
  backup_vms_agree p info (vm ∷ vms) db same =
      rw same (then_more_same _ _ _ (λ db'. backup_vms_agree p info vms db' same))

  backup_platform_agree :
      (p : Platform) (db : Db)
      → outside p ≡ outside' p
      → backup_platform sha256 view outside dry_run p db
        ≡ backup_platform sha256 view outside' dry_run p db
  backup_platform_agree p db same =
      elim (Result-cases ((outside' p).build_adapter >> (outside' p).inventory)) [
        | inl (e, raised) ↦ simp (same, raised, backup_platform) refl
        | inr (vms, found) ↦ simp (same, found, backup_platform) (backup_vms_agree p _ vms db same)
      ]

  backup_platforms_agree :
      (ps : List Platform) (db : Db)
      → AgreeOn policy outside outside'
      → backup_platforms sha256 view outside dry_run (map (narrowed policy) ps) db
        ≡ backup_platforms sha256 view outside' dry_run (map (narrowed policy) ps) db
  unfolding backup_platforms
  backup_platforms_agree [] db agree = refl
  backup_platforms_agree (p ∷ ps) db agree =
      either_way (p.enabled && is_some (selected_vms p.name policy.selections)) _ _ _ _ db
        (λ on. backup_platform_agree (narrowed policy p) db (agree p (ground arith)))
        (λ db'. backup_platforms_agree ps db' agree)

module _ (sha256 : String → String) (cfg : Config) (outside outside' : Platform → PlatformOutcomes)
    (dry_run : Bool) (policy : ProtectionPolicy) (agree : AgreeOn policy outside outside') where
  backup_all_agree :
      (capacity : Result (Unit {0})) (db : Db)
      → backup_all sha256 (policy_config cfg policy) outside dry_run capacity db
        ≡ backup_all sha256 (policy_config cfg policy) outside' dry_run capacity db
  unfolding backup_all
  backup_all_agree (err e) db = refl
  backup_all_agree (ok _) db =
      backup_platforms_agree sha256 policy outside outside' dry_run (policy_config cfg policy)
        cfg.platforms db agree

  -- What a run of a policy returns and leaves in the database depends only on the platforms that
  -- the policy selects: the answers of every other platform make no difference.
  pub run_policy-AgreeOn :
      (capacity : Result (Unit {0})) (now actor : String) (policies : List ProtectionPolicy)
      (policy_id : String) (db : Db)
      → find_policy policy_id policies ≡ ok policy
      → run_policy sha256 cfg outside dry_run capacity now actor policies policy_id db
        ≡ run_policy sha256 cfg outside' dry_run capacity now actor policies policy_id db
  unfolding run_policy run_found
  run_policy-AgreeOn capacity now actor policies policy_id db found =
      simp (found, backup_all_agree capacity db, run_policy, run_found) refl
