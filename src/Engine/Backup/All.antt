-- ===== src/Engine/Backup/All.antt =====
-- The run over all platforms: `backup_all` of src/immutavault/engine.py.
use immutavault.Json.{Json, str, obj, end, field}
use immutavault.Catalog.Rows.{Db}
use immutavault.Engine.Config.{Platform, Config}
use immutavault.Engine.Restore.{error_text}
use immutavault.Engine.Backup.Replicas.{Times}
use immutavault.Prelude.{
  String, Bool, List, [], ◌∷◌, if◌then◌else◌, Result, ok, err, ◌>>=◌, ◌>>◌, ◌++◌,
}
use immutavault.Engine.Backup.Files.{Vm, BackupOutcomes}
use immutavault.Engine.Backup.{BackupReport, backup_vm}

-- What one platform answers in a run over all of them. A platform that does not tell its version is
-- backed up all the same.
pub record PlatformOutcomes : Type 0 where
  pub build_adapter : Result (Unit {0})
  pub platform_info : Result Json
  pub inventory : Result (List Vm)
  pub backup : Vm → BackupOutcomes
  pub times : Vm → Times

abbrev pub info_or_error : Result Json → Json
info_or_error (ok info) = info
info_or_error (err e) = obj (field "error" (str (error_text e)) end)

-- the first answer, and then the rest unless it is an exception
abbrev pub then_more :
    Result (List BackupReport) × Db
    → (Db → Result (List BackupReport) × Db)
    → Result (List BackupReport) × Db
then_more (err e, db) more = (err e, db)
then_more (ok reports, db) more = ((more db).0 >>= (λ rest. ok (reports ++ rest)), (more db).1)

abbrev pub one_report : Result BackupReport × Db → Result (List BackupReport) × Db
one_report (err e, db) = (err e, db)
one_report (ok report, db) = (ok (report ∷ []), db)

module _ (sha256 : String → String) (cfg : Config) (outside : Platform → PlatformOutcomes)
    (dry_run : Bool) where
  unfoldable pub backup_vms : Platform → Json → List Vm → Db → Result (List BackupReport) × Db
  backup_vms platform info [] db = (ok [], db)
  backup_vms platform info (vm ∷ vms) db =
      let out = outside platform in
      then_more
        (one_report
          (backup_vm sha256 cfg (out.times vm) platform vm info (out.backup vm) dry_run db))
        (backup_vms platform info vms)

  abbrev pub backup_platform : Platform → Db → Result (List BackupReport) × Db
  backup_platform platform db =
      let out = outside platform in
      elim (out.build_adapter >> out.inventory) [
        | err e ↦ (err e, db)
        | ok vms ↦ backup_vms platform (info_or_error out.platform_info) vms db
      ]

  unfoldable pub backup_platforms : List Platform → Db → Result (List BackupReport) × Db
  backup_platforms [] db = (ok [], db)
  backup_platforms (p ∷ ps) db =
      let backed_up = then_more (backup_platform p db) (backup_platforms ps) in
      let skipped = backup_platforms ps db in if p.enabled then backed_up else skipped

  -- `capacity` is the check of the staging file system; the lock file keeps other runs away.
  unfoldable pub backup_all : Result (Unit {0}) → Db → Result (List BackupReport) × Db
  backup_all (err e) db = (err e, db)
  backup_all (ok _) db = backup_platforms cfg.platforms db
