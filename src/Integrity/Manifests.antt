-- ===== src/Integrity/Manifests.antt =====
-- What a verified manifest says of a directory.
use immutavault.Integrity.{
  File, FileRecord, Manifest, Root, StoredManifest, stored, missing, damaged, manifest_name,
  file_at, file_record, records_of, manifest_digest, build_manifest, hash_differs, file_errors,
  item_errors, digest_errors, verify_manifest,
}
use immutavault.Prelude.{
  String, ◌≡◌, refl, true, false, some, List, [], ◌∷◌, ◌++◌, eqb→eq, eqb_refl, ◌==◌, eq_iff,
  eq_refl, is_empty→nil, append-eq_nil, All, ok, Bool-cases, Option-cases, inl, inr, ◌↔◌, arith,
  Option,
}

-- a path names one file only
abbrev pub HasUniquePaths : List File → Type 0
HasUniquePaths [] = Unit
HasUniquePaths (f ∷ fs) = All (λ (g : File). (g.path == f.path) ≡ false) fs × HasUniquePaths fs

module _ (sha256 : String → String) where
  -- the file of a record is there, of the size and of the hash that the record says
  pub record HasFile (elsewhere : String → Option File) (files : List File) (item : FileRecord)
      : Type 0 where
    pub file : File
    pub at : file_at elsewhere item.path files ≡ some file
    pub size : file.size ≡ item.size
    pub hash : hash_differs sha256 item.sha256 file ≡ false

  file_errors-HasFile :
      (elsewhere : String → Option File) (files : List File) (item : FileRecord)
      → file_errors sha256 item (file_at elsewhere item.path files) ≡ []
      → HasFile elsewhere files item
  file_errors-HasFile elsewhere files item h =
      elim (Option-cases (file_at elsewhere item.path files)) [
        | inl gone ↦ cc (rw gone at h)
        | inr (f, found) ↦
            let h' : file_errors sha256 item (some f) ≡ [] = rw found at h in
            record {
              file = f;
              at = found;
              size = ground (arith, eqb→eq f.size item.size);
              hash = ground (arith, eqb→eq f.size item.size);
            }
      ]

  item_errors-HasFile :
      (elsewhere : String → Option File) (files : List File) (items : List FileRecord)
      → item_errors sha256 elsewhere files items ≡ []
      → All (HasFile elsewhere files) items
  unfolding item_errors
  item_errors-HasFile elsewhere files [] h = tt
  item_errors-HasFile elsewhere files (item ∷ items) h =
      let (first, rest) =
        append-eq_nil (file_errors sha256 item (file_at elsewhere item.path files))
          (item_errors sha256 elsewhere files items) h in
      (
        file_errors-HasFile elsewhere files item first,
        item_errors-HasFile elsewhere files items rest,
      )

  HasFile-file_errors :
      (elsewhere : String → Option File) (files : List File) (item : FileRecord)
      → HasFile elsewhere files item
      → file_errors sha256 item (file_at elsewhere item.path files) ≡ []
  HasFile-file_errors elsewhere files item h =
      rw h.at (ground (arith, eqb_refl item.size, h.size, h.hash))

  HasFile-item_errors :
      (elsewhere : String → Option File) (files : List File) (items : List FileRecord)
      → All (HasFile elsewhere files) items
      → item_errors sha256 elsewhere files items ≡ []
  unfolding item_errors
  HasFile-item_errors elsewhere files [] h = refl
  HasFile-item_errors elsewhere files (item ∷ items) h =
      rw (HasFile-file_errors elsewhere files item h.0)
        (HasFile-item_errors elsewhere files items h.1)

  digest_errors_nil :
      (digest : String) (m : Manifest)
      → (digest == "") ≡ false
      → digest_errors sha256 (some digest) m ≡ []
      → manifest_digest sha256 m ≡ digest
  digest_errors_nil digest m given h = ground (arith, eq_iff (manifest_digest sha256 m) digest)

  no_digest_errors :
      (digest : String) (m : Manifest)
      → manifest_digest sha256 m ≡ digest
      → digest_errors sha256 (some digest) m ≡ []
  no_digest_errors digest m same = ground (arith, eq_iff (manifest_digest sha256 m) digest)

  verified-HasFile :
      (digest : String) (root : Root) (errors : List String)
      → (digest == "") ≡ false
      → verify_manifest sha256 (some digest) root ≡ ok (true, errors)
      → (m : Manifest) × (root.manifest ≡ stored m)
        × (manifest_digest sha256 m ≡ digest)
        × All (HasFile root.elsewhere root.files) m.files
  unfolding verify_manifest
  verified-HasFile digest root errors given h = go root.manifest refl
    where
      go :
          (s : StoredManifest)
          → root.manifest ≡ s
          → (m : Manifest) × (root.manifest ≡ stored m)
            × (manifest_digest sha256 m ≡ digest)
            × All (HasFile root.elsewhere root.files) m.files
      go missing same = cc (simp (same, verify_manifest) at h)
      go damaged same = cc (simp (same, verify_manifest) at h)
      go (stored m) same =
          let checked : digest_errors sha256 (some digest) m
                ++ item_errors sha256 root.elsewhere root.files m.files
              ≡ [] =
            is_empty→nil _ (cc (simp (same, verify_manifest) at h)) in
          let (first, rest) =
            append-eq_nil (digest_errors sha256 (some digest) m)
              (item_errors sha256 root.elsewhere root.files m.files) checked in
          (
            m,
            same,
            digest_errors_nil digest m given first,
            item_errors-HasFile root.elsewhere root.files m.files rest,
          )

  HasFile-verified :
      (digest : String) (root : Root) (m : Manifest)
      → root.manifest ≡ stored m
      → manifest_digest sha256 m ≡ digest
      → All (HasFile root.elsewhere root.files) m.files
      → verify_manifest sha256 (some digest) root ≡ ok (true, [])
  unfolding verify_manifest
  HasFile-verified digest root m same digests files = simp (
    same,
    verify_manifest,
    no_digest_errors digest m digests,
    HasFile-item_errors root.elsewhere root.files m.files files,
  )

  -- verify_manifest with a digest that is not empty passes exactly if there is a manifest of this
  -- digest, and for each of its records a file at its path, of the same size, and of the same hash
  -- where the record has one.
  pub verify_manifest-HasFile :
      (digest : String) (root : Root)
      → (digest == "") ≡ false
      → ((errors : List String) × (verify_manifest sha256 (some digest) root ≡ ok (true, errors)))
        ↔ ((m : Manifest) × (root.manifest ≡ stored m)
            × (manifest_digest sha256 m ≡ digest)
            × All (HasFile root.elsewhere root.files) m.files)
  verify_manifest-HasFile digest root given = (
    λ h. verified-HasFile digest root h.0 given h.1,
    λ h. ([], HasFile-verified digest root h.0 h.1 h.2 h.3),
  )

  -- the file of a path that no earlier file has
  found_by_path :
      (elsewhere : String → Option File) (files : List File)
      → HasUniquePaths files
      → All (λ (f : File). file_at elsewhere f.path files ≡ some f) files
  found_by_path elsewhere [] u = tt
  found_by_path elsewhere (f ∷ files) u =
      (rw (eq_refl f.path) refl, All-both files u.0 (found_by_path elsewhere files u.1))
    where
      All-both :
          (gs : List File)
          → All (λ (g : File). (g.path == f.path) ≡ false) gs
          → All (λ (g : File). file_at elsewhere g.path files ≡ some g) gs
          → All (λ (g : File). file_at elsewhere g.path (f ∷ files) ≡ some g) gs
      All-both [] n h = tt
      All-both (g ∷ gs) n h =
          (ground (arith, eq_iff f.path g.path, eq_iff g.path f.path), All-both gs n.1 h.1)

  file_record-HasFile :
      (elsewhere : String → Option File) (files : List File) (f : File)
      → file_at elsewhere f.path files ≡ some f
      → HasFile elsewhere files (file_record sha256 f)
  file_record-HasFile elsewhere files f found = record {
    file = f;
    at = found;
    size = refl;
    hash = ground (arith, eq_refl (sha256 f.content));
  }

  records_of-HasFile :
      (elsewhere : String → Option File) (files gs : List File)
      → All (λ (f : File). file_at elsewhere f.path files ≡ some f) gs
      → All (HasFile elsewhere files) (records_of sha256 gs)
  records_of-HasFile elsewhere files [] h = tt
  records_of-HasFile elsewhere files (g ∷ gs) h = elim (Bool-cases (g.name == manifest_name)) [
    | inl own ↦ simp own (records_of-HasFile elsewhere files gs h.1)
    | inr other ↦
        simp other
          (file_record-HasFile elsewhere files g h.0, records_of-HasFile elsewhere files gs h.1)
  ]

  -- A directory whose files have different paths passes verify_manifest against the manifest and
  -- the digest that build_manifest has just made of it.
  pub verify_manifest-build_manifest :
      (root : Root)
      → HasUniquePaths root.files
      → let ((m, digest), root') = build_manifest sha256 root in
        verify_manifest sha256 (some digest) root' ≡ ok (true, [])
  unfolding build_manifest
  verify_manifest-build_manifest root u =
      let ((m, digest), root') = build_manifest sha256 root in
      HasFile-verified digest root' m refl refl (
        records_of-HasFile root.elsewhere root.files root.files
          (found_by_path root.elsewhere root.files u))
