-- ===== src/Tests/Engine.antt =====
-- Holds, verification and backups on small data.
use immutavault.Json.{null, set_key, loads_or_empty}
use immutavault.Catalog.Rows.{Point}
use immutavault.Catalog.Points.{get_point, with_until, mark_verified}
use immutavault.Catalog.Points.Immutability.{shields}
use immutavault.Engine.Anomaly.{Ratios}
use immutavault.Engine.Hold.{
  ProviderLock, hold_recovery_point, hold_recovery_point-keeps, hold_recovery_point-stores,
}
use immutavault.Engine.Verify.{
  VerifyOutcomes, record_verdict, passed, verify_recovery_point, verify_recovery_point-stores,
  verify_recovery_point-keeps,
}
use immutavault.Engine.Backup.Replicas.{Times}
use immutavault.Engine.Backup.Files.{Vm, BackupOutcomes, Stored, consistency_of, store_files}
use immutavault.Engine.Backup.{backup_vm}
use immutavault.Engine.Backup.Protects.{backup_vm-protects, backup_vm-keeps}
use immutavault.Engine.Config.{Platform}
use immutavault.Tests.Data.{tag, old_point, vault}
use immutavault.Tests.Points.{vault-HasUniqueIds, shielded, found_old}
use immutavault.Tests.Restores.{lab, noon}
use immutavault.Prelude.{
  String, ◌≡◌, refl, true, false, ◌&&◌, none, some, [], ok, err, runtime_error, leb, ◌*◌, ◌==◌,
}
use immutavault.Prelude.Order.{str_ltb}

-- ratios of a half, and texts that do not tell the number
abbrev halves : Ratios
halves = record {
  high_churn = λ n d. leb d (n * 2);
  churn_text = λ n d. "high repository churn";
  high_change = λ n d. leb d (n * 2);
  change_text = λ n d. "unusual backup size change";
}

abbrev no_lock : ProviderLock
no_lock r days = err (runtime_error "no lock")

hold_recovery_point-keeps_example :
    shields "2026-02-15"
      (hold_recovery_point tag lab no_lock noon "2026-01-09" "b2" "ann" 1 "short" vault).1
      "b2"
    ≡ true
hold_recovery_point-keeps_example =
    hold_recovery_point-keeps tag lab no_lock noon "2026-01-09" "b2" "ann" 1 "short" "2026-02-15"
      "b2" vault vault-HasUniqueIds shielded

hold_recovery_point-stores_example :
    let (r, db') =
      hold_recovery_point tag lab no_lock noon "2026-05-01" "a1" "ann" 90 "audit" vault in
    (saved : String) × (r ≡ ok saved)
    × (get_point "a1" db' ≡ some (with_until saved old_point))
    × (str_ltb saved old_point.immutable_until ≡ false)
    × (str_ltb saved "2026-05-01" ≡ false)
hold_recovery_point-stores_example =
    hold_recovery_point-stores tag lab no_lock noon "2026-05-01" "a1" "ann" 90 "audit" vault
      old_point refl found_old

-- everything is there, and the manifest is right
abbrev intact : VerifyOutcomes
intact = record {
  capacity = ok tt;
  restore = ok tt;
  restored_exists = true;
  manifest = ok (true, []);
}

found_intact : (verify_recovery_point tag intact noon "a1" "ann" vault).0 ≡ ok true
unfolding verify_recovery_point record_verdict mark_verified get_point set_key loads_or_empty
found_intact = refl

verify_recovery_point-stores_example :
    (row : Point) × (get_point "a1" (verify_recovery_point tag intact noon "a1" "ann" vault).1
      ≡ some row)
    × (row.verified ≡ true)
    × (true ≡ (intact.restored_exists && passed intact.manifest))
verify_recovery_point-stores_example =
    verify_recovery_point-stores tag noon "a1" "ann" intact vault true found_intact

verify_recovery_point-keeps_example :
    shields "2026-02-15" (verify_recovery_point tag intact noon "b2" "ann" vault).1 "b2" ≡ true
verify_recovery_point-keeps_example =
    verify_recovery_point-keeps tag noon "b2" "ann" intact "2026-02-15" "b2" vault shielded

abbrev pub dates : Times
dates = record {
  started = "2026-01-08";
  copied = "2026-01-08";
  finished = "2026-01-08";
  audited = "2026-01-08";
  replica_copied = noon;
  replica_audited = noon;
  verify = noon;
  failed = "2026-01-08";
  fail_audited = "2026-01-08";
}

abbrev pub web : Vm
web = record { id = "100"; name = "web"; power_state = "running"; kind = "vm" }

abbrev pub proxmox : Platform
proxmox = record { name = "lab"; type = "proxmox"; enabled = true; include = []; exclude = [] }

-- the export works, and restic stores the snapshot "c3"
abbrev pub exported : BackupOutcomes
exported = record {
  now = "2026-01-08";
  until = λ days. "2026-04-01";
  staging_root = "/staging/web";
  export = ok "/staging/web/disk";
  consistency = none;
  manifest = ok (record { total_bytes = 12; file_count = 2; digest = "d" });
  backup = ok ("c3", 1);
  ratios = halves;
  copies = record {
    copy_snapshot = λ r days. err (runtime_error "offline");
    target_url = λ r. ok "/replica";
  };
  verify = intact;
}

abbrev files : Stored
files = record {
  exported = "/staging/web/disk";
  consistency = consistency_of "proxmox" none;
  manifest = record { total_bytes = 12; file_count = 2; digest = "d" };
  snapshot_id = "c3";
  data_added = 1;
}

files_stored : store_files proxmox exported ≡ ok files
unfolding store_files
files_stored = refl

backup_vm-protects_example :
    shields "2026-03-15" (backup_vm tag lab dates proxmox web null exported false vault).1 "c3"
    ≡ true
unfolding str_ltb
backup_vm-protects_example =
    backup_vm-protects tag lab dates proxmox web null exported "2026-03-15" files vault files_stored
      refl

only_c3 :
    (stored : Stored)
    → store_files proxmox exported ≡ ok stored
    → (stored.snapshot_id == "b2") ≡ false
unfolding store_files
only_c3 stored h = rw (← ok_snapshot h) refl
  where
    ok_snapshot : {a b : Stored} → ok a ≡ ok b → a.snapshot_id ≡ b.snapshot_id
    ok_snapshot e = cc

backup_vm-keeps_example :
    shields "2026-02-15" (backup_vm tag lab dates proxmox web null exported false vault).1 "b2"
    ≡ true
backup_vm-keeps_example =
    backup_vm-keeps tag lab dates proxmox web null exported "2026-02-15" "b2" vault only_c3 shielded
