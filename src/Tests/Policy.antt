-- ===== src/Tests/Policy.antt =====
-- A policy over one of two platforms, of which the other answers or not.
use immutavault.Json.{null}
use immutavault.Engine.Config.{Platform, Config}
use immutavault.Engine.Backup.All.{PlatformOutcomes}
use immutavault.Policy.{ProtectionPolicy, selected_vms, find_policy, run_policy}
use immutavault.Policy.Scope.{AgreeOn, run_policy-AgreeOn}
use immutavault.Tests.Data.{tag, vault}
use immutavault.Tests.Restores.{lab}
use immutavault.Tests.Engine.{dates, exported, web, proxmox}
use immutavault.Prelude.{
  ◌≡◌, refl, true, false, [], ◌∷◌, ◌==◌, if◌then◌else◌, ok, err, runtime_error, Bool-cases, inl,
  inr,
}

abbrev nightly : ProtectionPolicy
nightly = record {
  id = "nightly";
  name = "Nightly";
  enabled = true;
  selections = record { platform = "lab"; vms = "web" ∷ [] } ∷ [];
  immutable_days = 14;
  replica_targets = [];
  verify_after_backup = false;
}

abbrev two_platforms : Config
two_platforms = record lab { platforms = proxmox ∷ record proxmox { name = "far" } ∷ [] }

abbrev answering : PlatformOutcomes
answering = record {
  build_adapter = ok tt;
  platform_info = ok null;
  inventory = ok (web ∷ []);
  backup = λ vm. exported;
  times = λ vm. dates;
}

abbrev both_up : Platform → PlatformOutcomes
both_up p = answering

abbrev far_down : Platform → PlatformOutcomes
far_down p =
    if "lab" == p.name
    then answering
    else record answering { build_adapter = err (runtime_error "unreachable") }

agree : AgreeOn nightly both_up far_down
unfolding selected_vms
agree p selected = elim (Bool-cases ("lab" == p.name)) [
  | inl same ↦ rw same refl
  | inr other ↦ cc (rw other at selected)
]

nightly_found : find_policy "nightly" (nightly ∷ []) ≡ ok nightly
unfolding find_policy
nightly_found = refl

run_policy-AgreeOn_example :
    run_policy tag two_platforms both_up false
      (ok tt)
      "2026-01-09"
      "ann"
      (nightly ∷ [])
      "nightly"
      vault
    ≡ run_policy tag two_platforms far_down false
        (ok tt)
        "2026-01-09"
        "ann"
        (nightly ∷ [])
        "nightly"
        vault
run_policy-AgreeOn_example =
    run_policy-AgreeOn tag two_platforms both_up far_down false nightly agree (ok tt) "2026-01-09"
      "ann" (nightly ∷ []) "nightly" vault nightly_found
