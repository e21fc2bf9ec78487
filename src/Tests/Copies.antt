-- ===== src/Tests/Copies.antt =====
-- Copies of recovery points on small data.
use immutavault.Json.{or_empty_object}
use immutavault.Catalog.Rows.{CopyStatus}
use immutavault.Catalog.Copies.{CopyArgs, copy_row, upsert_recovery_copy, get_recovery_copy}
use immutavault.Catalog.Copies.Keys.{upsert_recovery_copy-stores}
use immutavault.Tests.Data.{vault}
use immutavault.Prelude.{◌≡◌, false, none, some}

abbrev copied : CopyArgs
copied = record {
  snapshot_id = "a1";
  target_name = "offsite";
  backend = "rest";
  provider = none;
  repository = "/offsite";
  status = CopyStatus.success;
  immutable_until = none;
  object_lock = none;
  error = none;
  verified = false;
}

upsert_recovery_copy-stores_example :
    get_recovery_copy "a1" "offsite" (upsert_recovery_copy "1" "2" copied vault)
    ≡ some (copy_row "1" "2" copied, or_empty_object copied.object_lock)
upsert_recovery_copy-stores_example = upsert_recovery_copy-stores "1" "2" copied vault
