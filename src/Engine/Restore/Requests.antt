-- ===== src/Engine/Restore/Requests.antt =====
-- The requests for restores: `request_restore` and `approve_restore` of src/immutavault/engine.py.
use immutavault.Json.{Json, or_empty_object}
use immutavault.Catalog.Rows.{RequestStatus, Point, Db}
use immutavault.Catalog.Points.{get_point}
use immutavault.Catalog.Requests.{
  status_text, request_text, get_restore_request, create_restore_request, start_restore,
  finish_restore,
}
use immutavault.Catalog.Requests as Catalog_requests
use immutavault.Engine.Config.{Platform, Config, platform}
use immutavault.Prelude.{
  ℕ, String, not, Option, none, some, ◌==◌, if◌then◌else◌, value_error, Result, ok, err, ◌>>=◌,
  ◌>>◌, raise_if,
}
use Prim.Native.String.{◌++◌ as str_append, slice}
use immutavault.Engine.Restore.{require}

module _ (sha256 : String → String) where
  -- `BackupEngine.approve_restore`
  unfoldable pub approve_restore :
      Config → String → String → ℕ → String → Db → Result (Unit {0}) × Db
  approve_restore cfg now now' request_id approver =
      Catalog_requests.approve_restore sha256 now now' request_id approver
        cfg.protection.require_four_eyes_restore

  -- the guards of `request_restore`, in their order
  abbrev pub check_target : Config → String → String → Db → Result (Point × Platform)
  check_target cfg snapshot_id target_platform db = do
    point ← require (get_point snapshot_id db) (value_error "unknown recovery point")
    target ← platform cfg target_platform
    raise_if (not target.enabled) (value_error "target platform is disabled")
    raise_if (not (target.type == point.platform_type)) (
        value_error (
          str_append "cross-hypervisor restore from " (
            str_append point.platform_type (
              str_append " to " (
                str_append target.type
                  " is not enabled in the safe core; restore to the same hypervisor family or install a tested conversion plugin")))))
    ok (point, target)

  abbrev pub initial_status : Config → RequestStatus
  initial_status cfg =
      if cfg.protection.require_four_eyes_restore
      then RequestStatus.pending_approval
      else RequestStatus.ready

  -- `target_name or f"{point['vm_name']}-restore-{snapshot_id[:8]}"`
  abbrev pub default_name : Option String → Point → String → String
  default_name wanted point snapshot_id =
      let fresh = str_append point.vm_name (str_append "-restore-" (slice snapshot_id 0 8)) in
      elim wanted [ none ↦ fresh | some name ↦ if name == "" then fresh else name ]

  unfoldable pub request_restore :
      Config
      → String
      → String
      → String
      → String
      → String
      → Option String
      → Option Json
      → Db
      → Result ℕ × Db
  request_restore cfg now now' snapshot_id requester target_platform target_name options db =
      elim (check_target cfg snapshot_id target_platform db) [
        | err e ↦ (err e, db)
        | ok (point, target) ↦
            let (rid, db') =
              create_restore_request sha256 now now' requester point target.name
                (default_name target_name point snapshot_id) (or_empty_object options)
                (initial_status cfg) db in
            (ok rid, db')
      ]
