-- ===== src/Integrity.antt =====
-- Manifests of a backup directory: `build_manifest` and `verify_manifest` of
-- src/immutavault/integrity.py.
pub mod Manifests
use immutavault.Json.{Json, Items, null, num, str, arr, obj, end, field, nil, cons}
use immutavault.Json.Print.{dumps_sorted}
use immutavault.Prelude.{
  ℕ, ◌+◌, ◌*◌, String, Bool, true, false, not, ◌&&◌, ◌||◌, Option, none, some, List, [], ◌∷◌, ◌++◌,
  length, leb, eqb, ◌==◌, is_empty, if◌then◌else◌, Result, ok, err, value_error,
}
use Prim.Native.String.{◌++◌ as str_append}

abbrev pub small_file_hash_limit : ℕ
small_file_hash_limit = 64 * 1024 * 1024

abbrev pub manifest_name : String
manifest_name = ".immutavault-manifest.json"

-- a file below the root, by its relative path; `name` is the last part of the path
pub record File : Type 0 where
  pub path : String
  pub name : String
  pub size : ℕ
  pub mtime_ns : ℕ
  pub content : String

pub record FileRecord : Type 0 where
  pub path : String
  pub size : ℕ
  pub mtime_ns : ℕ
  pub sha256 : Option String

pub record Manifest : Type 0 where
  pub files : List FileRecord
  pub total_bytes : ℕ
  pub file_count : ℕ

-- what stands in the manifest file: nothing, text that is no manifest, or a manifest
pub data StoredManifest : Type 0 where
  missing : StoredManifest
  damaged : StoredManifest
  stored : Manifest → StoredManifest

-- A directory: its files in the order of `sorted`, what the file system finds at a path that is not
-- the relative path of one of them (one with dot segments, or an absolute one), and its manifest.
pub record Root : Type 0 where
  pub files : List File
  pub elsewhere : String → Option File
  pub manifest : StoredManifest

abbrev pub sha_json : Option String → Json
sha_json none = null
sha_json (some h) = str h

abbrev pub record_json : FileRecord → Json
record_json r = obj (
    field "path" (str r.path) (
      field "size" (num r.size)
        (field "mtime_ns" (num r.mtime_ns) (field "sha256" (sha_json r.sha256) end))))

abbrev pub records_json : List FileRecord → Items
records_json [] = nil
records_json (r ∷ rs) = cons (record_json r) (records_json rs)

abbrev pub manifest_json : Manifest → Json
manifest_json m = obj (
    field "version" (num 1) (
      field "files" (arr (records_json m.files))
        (field "total_bytes" (num m.total_bytes) (field "file_count" (num m.file_count) end))))

-- `root / path`, where it is a file
abbrev pub file_at : (String → Option File) → String → List File → Option File
file_at elsewhere path [] = elsewhere path
file_at elsewhere path (f ∷ fs) = if f.path == path then some f else file_at elsewhere path fs

-- `sha256` stands for the hexadecimal digest of a file's content, or of a text.
module _ (sha256 : String → String) where
  abbrev pub file_record : File → FileRecord
  file_record f = record {
    path = f.path;
    size = f.size;
    mtime_ns = f.mtime_ns;
    sha256 = if leb f.size small_file_hash_limit then some (sha256 f.content) else none;
  }

  -- the loop over the files; an earlier manifest is no part of the next one
  abbrev pub records_of : List File → List FileRecord
  records_of [] = []
  records_of (f ∷ fs) =
      let rest = records_of fs in if f.name == manifest_name then rest else file_record f ∷ rest

  abbrev pub bytes_of : List FileRecord → ℕ
  bytes_of [] = 0
  bytes_of (r ∷ rs) = r.size + bytes_of rs

  abbrev pub manifest_of : List File → Manifest
  manifest_of files =
      let records = records_of files in
      record { files = records; total_bytes = bytes_of records; file_count = length records }

  abbrev pub manifest_digest : Manifest → String
  manifest_digest m = sha256 (dumps_sorted (manifest_json m))

  -- the manifest, its digest, and the directory with the manifest in it
  unfoldable pub build_manifest : Root → (Manifest × String) × Root
  build_manifest root =
      let m = manifest_of root.files in
      ((m, manifest_digest m), record root { manifest = stored m })

  -- `item.get("sha256") and sha256_file(path) != item["sha256"]`, where an empty hash is falsy
  abbrev pub hash_differs : Option String → File → Bool
  hash_differs none f = false
  hash_differs (some h) f = not (h == "") && not (sha256 f.content == h)

  abbrev pub file_errors : FileRecord → Option File → List String
  file_errors item none = str_append "missing: " item.path ∷ []
  file_errors item (some f) =
      if not (eqb f.size item.size)
      then str_append "size mismatch: " item.path ∷ []
      else if hash_differs item.sha256 f
      then str_append "hash mismatch: " item.path ∷ []
      else []

  unfoldable pub item_errors : (String → Option File) → List File → List FileRecord → List String
  item_errors elsewhere files [] = []
  item_errors elsewhere files (item ∷ items) =
      file_errors item (file_at elsewhere item.path files) ++ item_errors elsewhere files items

  -- no expected digest, or an empty one, is not compared
  abbrev pub digest_errors : Option String → Manifest → List String
  digest_errors none m = []
  digest_errors (some expected) m =
      if expected == "" || manifest_digest m == expected
      then []
      else "manifest digest mismatch" ∷ []

  unfoldable pub verify_manifest : Option String → Root → Result (Bool × List String)
  verify_manifest expected root = elim root.manifest [
    | missing ↦ ok (false, "manifest missing" ∷ [])
    | damaged ↦ err (value_error "JSONDecodeError")
    | stored m ↦
        let errors = digest_errors expected m ++ item_errors root.elsewhere root.files m.files in
        ok (is_empty errors, errors)
  ]
