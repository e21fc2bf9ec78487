-- ===== src/Tests/Data.antt =====
-- Rows, settings and a digest for the tests.
use immutavault.Json.{dumped, obj, end}
use immutavault.Catalog.Rows.{PointColumns, Point, Db, empty_db}
use immutavault.Prelude.{String, ◌∷◌, false, none, []}
use Prim.Native.String.{◌∷◌ as before}

-- a stand-in for SHA-256 that is easy to see through
abbrev pub tag : String → String
tag t = before "x" t

abbrev pub columns_of : String → String → String → PointColumns
columns_of snapshot_id created_at immutable_until = record {
  snapshot_id = snapshot_id;
  created_at = created_at;
  platform = "lab";
  platform_type = "proxmox";
  vm_id = "100";
  vm_name = "web";
  power_state = none;
  source_path = "/vm/100";
  backup_bytes = 10;
  data_added = 4;
  file_count = 2;
  manifest_sha256 = none;
  immutable_until = immutable_until;
  suspicious = false;
  suspicious_reason = none;
  verified = false;
  verified_at = none;
  metadata_json = dumped (obj end);
}

abbrev pub point_of : String → String → String → Point
point_of snapshot_id created_at immutable_until = record {
  columns = columns_of snapshot_id created_at immutable_until;
  expired = false;
  expired_at = none;
}

abbrev pub old_point : Point
old_point = point_of "a1" "2026-01-01" "2026-02-01"

abbrev pub new_point : Point
new_point = point_of "b2" "2026-01-05" "2026-03-01"

-- two points of one virtual machine
abbrev pub vault : Db
vault = record empty_db { points = old_point ∷ new_point ∷ [] }
