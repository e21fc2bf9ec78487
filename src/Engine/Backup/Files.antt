-- ===== src/Engine/Backup/Files.antt =====
-- What one backup stores outside, and the rows that `_backup_vm` of src/immutavault/engine.py makes
-- of it. Adapter, manifest, restic and replicas answer by a record of outcomes.
use immutavault.Json.{Json, Fields, null, bool, str, obj, end, field, dumped}
use immutavault.Catalog.Rows.{CopyStatus, PointColumns, Point, Db}
use immutavault.Catalog.Points.{latest_point}
use immutavault.Catalog.Copies.{CopyArgs}
use immutavault.Engine.Config.{Platform, Config}
use immutavault.Engine.Anomaly.{Ratios, detect_backup_anomaly}
use immutavault.Engine.Verify.{VerifyOutcomes}
use immutavault.Engine.Backup.Replicas.{CopyOutcomes}
use immutavault.Prelude.{
  ℕ, max, String, Bool, true, false, Option, none, some, if◌then◌else◌, Result, ok, ◌>>=◌,
}
use Prim.Native.String.{◌++◌ as str_append}

-- `VM` of src/immutavault/adapters/base.py
pub record Vm : Type 0 where
  pub id : String
  pub name : String
  pub power_state : String
  pub kind : String

-- what `build_manifest` finds in the staging directory
pub record Manifest : Type 0 where
  pub total_bytes : ℕ
  pub file_count : ℕ
  pub digest : String

-- What the outside answers in one backup. `until n` is the time `n` days after its beginning.
pub record BackupOutcomes : Type 0 where
  pub now : String
  pub until : ℕ → String
  pub staging_root : String
  pub export : Result String
  pub consistency : Option Fields
  pub manifest : Result Manifest
  pub backup : Result (String × ℕ)
  pub ratios : Ratios
  pub copies : CopyOutcomes
  pub verify : VerifyOutcomes

-- what is known when restic has stored the files
pub record Stored : Type 0 where
  pub exported : String
  pub consistency : Fields
  pub manifest : Manifest
  pub snapshot_id : String
  pub data_added : ℕ

-- `read_consistency(exported) or {…}`: a missing and an empty attestation are falsy
abbrev pub consistency_of : String → Option Fields → Fields
consistency_of type (some (field k v fs)) = field k v fs
consistency_of type _ = field "state" (str "snapshot-consistent") (
    field "method" (str (str_append type "-snapshot-export")) (
      field "requested" (bool false) (
        field "strict" (bool false) (
          field "provider_attested" (bool false) (
            field "application_consistent" (bool false) (
              field "detail"
                (str "transport did not publish an application-consistency attestation") end))))))

-- the steps of the `try` that come before any write
unfoldable pub store_files : Platform → BackupOutcomes → Result Stored
store_files platform out = do
  exported ← out.export
  manifest ← out.manifest
  stored ← out.backup
  ok (record {
    exported = exported;
    consistency = consistency_of platform.type out.consistency;
    manifest = manifest;
    snapshot_id = stored.0;
    data_added = stored.1;
  })

-- `int(previous["backup_bytes"]) if previous else None`
abbrev pub previous_bytes : Option Point → Option ℕ
previous_bytes none = none
previous_bytes (some p) = some p.backup_bytes

abbrev pub anomaly_of : Platform → Vm → BackupOutcomes → Stored → Db → Bool × Option String
anomaly_of platform vm out stored db =
    detect_backup_anomaly out.ratios (previous_bytes (latest_point platform.name vm.id db))
      stored.manifest.total_bytes stored.data_added

-- a suspicious point is held for longer
abbrev pub immutable_days : Config → Bool → ℕ
immutable_days cfg suspicious =
    if suspicious
    then max cfg.keep_within_days cfg.protection.preserve_suspicious_points_days
    else cfg.keep_within_days

abbrev pub point_metadata : Vm → Json → Stored → Json
point_metadata vm platform_info stored = obj (
    field "exported" (str stored.exported) (
      field "vm_kind" (str vm.kind) (
        field "platform_info" platform_info
          (field "application_consistency" (obj stored.consistency) end))))

abbrev pub point_columns :
    Platform → Vm → Json → BackupOutcomes → Stored → Bool × Option String → String → PointColumns
point_columns platform vm platform_info out stored (suspicious, reason) immutable_until = record {
  snapshot_id = stored.snapshot_id;
  created_at = out.now;
  platform = platform.name;
  platform_type = platform.type;
  vm_id = vm.id;
  vm_name = vm.name;
  power_state = some vm.power_state;
  source_path = out.staging_root;
  backup_bytes = stored.manifest.total_bytes;
  data_added = stored.data_added;
  file_count = stored.manifest.file_count;
  manifest_sha256 = some stored.manifest.digest;
  immutable_until = immutable_until;
  suspicious = suspicious;
  suspicious_reason = reason;
  verified = false;
  verified_at = none;
  metadata_json = dumped (point_metadata vm platform_info stored);
}

abbrev pub primary_copy : Config → String → String → CopyArgs
primary_copy cfg snapshot_id immutable_until = record {
  snapshot_id = snapshot_id;
  target_name = "primary";
  backend = "rest";
  provider = none;
  repository = cfg.repository_url;
  status = CopyStatus.success;
  immutable_until = some immutable_until;
  object_lock =
      some (
        obj
          (field "type" (str "append-only-vault") (field "logical_immutability" (bool true) end)));
  error = none;
  verified = false;
}

abbrev pub text_or_null : Option String → Json
text_or_null none = null
text_or_null (some s) = str s

abbrev pub complete_event : Platform → Vm → Bool × Option String → Json
complete_event platform vm (suspicious, reason) = obj (
    field "platform" (str platform.name) (
      field "vm" (str vm.name)
        (field "suspicious" (bool suspicious) (field "reason" (text_or_null reason) end))))
