-- ===== src/Tests/Integrity.antt =====
-- Manifests of a small directory.
use immutavault.Json.Print.{decimal, dumps_sorted, quote}
use immutavault.Integrity.{
  File, Manifest, Root, missing, stored, manifest_of, manifest_digest, build_manifest,
  verify_manifest, item_errors,
}
use immutavault.Integrity.Manifests.{
  HasUniquePaths, HasFile, verify_manifest-HasFile, verify_manifest-build_manifest,
}
use immutavault.Tests.Data.{tag}
use immutavault.Prelude.{String, ◌≡◌, refl, ◌↔◌, true, false, none, some, List, [], ◌∷◌, All, ok}

abbrev disk : File
disk = record {
  path = "vm/disk.vmdk";
  name = "disk.vmdk";
  size = 4;
  mtime_ns = 7;
  content = "abcd";
}

abbrev settings : File
settings = record { path = "vm/vm.vmx"; name = "vm.vmx"; size = 2; mtime_ns = 8; content = "ef" }

abbrev directory : Root
directory = record { files = disk ∷ settings ∷ []; elsewhere = λ path. none; manifest = missing }

-- the directory with its manifest, of which the second file has been cut short since
abbrev damaged_directory : Root
damaged_directory = record {
  files = disk ∷ record settings { size = 1; content = "e" } ∷ [];
  elsewhere = λ path. none;
  manifest = stored (manifest_of tag directory.files);
}

abbrev digest : String
digest = manifest_digest tag (manifest_of tag directory.files)

damage_is_found :
    verify_manifest tag (some digest) damaged_directory
    ≡ ok (false, "size mismatch: vm/vm.vmx" ∷ [])
unfolding verify_manifest dumps_sorted quote decimal item_errors
damage_is_found = refl

verify_manifest-HasFile_example :
    ((errors : List String) × (verify_manifest tag (some digest) damaged_directory
        ≡ ok (true, errors)))
    ↔ ((m : Manifest) × (damaged_directory.manifest ≡ stored m)
        × (manifest_digest tag m ≡ digest)
        × All (HasFile tag damaged_directory.elsewhere damaged_directory.files) m.files)
unfolding dumps_sorted quote decimal
verify_manifest-HasFile_example = verify_manifest-HasFile tag digest damaged_directory refl

directory-HasUniquePaths : HasUniquePaths directory.files
directory-HasUniquePaths = ((refl, tt), (tt, tt))

verify_manifest-build_manifest_example :
    let ((m, made), root) = build_manifest tag directory in
    verify_manifest tag (some made) root ≡ ok (true, [])
verify_manifest-build_manifest_example =
    verify_manifest-build_manifest tag directory directory-HasUniquePaths
