-- ===== src/Lfs/Integrity.antt =====
-- What the store of src/lfs.rs holds under the name of an object hashes to that name, whatever the
-- upstream and the disk answer.
use git_cache_proxy.Base.{
  ℕ, Bytes, bytes_eq, bytes_eq_iff, bytes_eq_refl, [], true, false, Option, some, ok, ◌≡◌, ◌⊎◌, sym,
  ◌∙◌, arith, Bool-cases, inl, inr,
}
use git_cache_proxy.Repo.{lfs_object_path, valid_lfs_oid}
use git_cache_proxy.Lfs.{
  Lfs, Upstream, Disk, LfsConfig, find_file, remove_file, write_file, tmp_path, sha256_hex,
  write_chunks, download_to_file, drop_tmp, move_into_place,
}
use git_cache_proxy.Lfs.Batch.{Headers}
use git_cache_proxy.Lfs.Files.{
  find-remove_file, find-write_file, tmp-ne-object, lfs_object_path-injective,
}

-- The content of an object's file.
abbrev pub object_in : Bytes → Lfs → Option Bytes
object_in oid s = find_file (lfs_object_path s.cfg.cache_root oid) s.files

-- Every object's file has the content that its name says.
abbrev pub IsIntact : Upstream → Lfs → Type 0
IsIntact up s =
    (oid content : Bytes)
    → valid_lfs_oid oid ≡ true
    → object_in oid s ≡ some content
    → sha256_hex up content ≡ oid

pub IsIntact-same :
    (up : Upstream) (s t : Lfs) → t.cfg ≡ s.cfg → t.files ≡ s.files → IsIntact up s → IsIntact up t
IsIntact-same up s t c f h k content v e = h k content v (cc (c, f, e))

module _ (up : Upstream) (disk : Disk) (oid : Bytes) (well : valid_lfs_oid oid ≡ true) where
  -- The objects are as before, but that `oid` may have been stored well.
  pub record Stores (s t : Lfs) : Type 0 where
    pub same_cfg : t.cfg ≡ s.cfg
    pub change :
        (k : Bytes)
        → valid_lfs_oid k ≡ true
        → (object_in k t ≡ object_in k s)
          ⊎ ((k ≡ oid) × ((c : Bytes) × (object_in k t ≡ some c) × (sha256_hex up c ≡ oid)))

  pub Stores-same : (s t : Lfs) → t.cfg ≡ s.cfg → t.files ≡ s.files → Stores s t
  Stores-same s t c f = record { same_cfg = c; change = λ k h. inl (cc (c, f)) }

  pub Stores-trans : (s t u : Lfs) → Stores s t → Stores t u → Stores s u
  Stores-trans s t u a b = record {
    same_cfg = b.same_cfg ∙ a.same_cfg;
    change = λ k h. elim (b.change k h) [
      | inr good ↦ inr good
      | inl e ↦ elim (a.change k h) [
        | inl d ↦ inl (e ∙ d)
        | inr (same, (c, there, hash)) ↦ inr (same, (c, e ∙ there, hash))
      ]
    ];
  }

  other_path :
      (cfg : LfsConfig) (n : ℕ) (k : Bytes)
      → valid_lfs_oid k ≡ true
      → bytes_eq (tmp_path cfg n) (lfs_object_path cfg.cache_root k) ≡ false
  other_path cfg n k h = ground (
    arith,
    bytes_eq_iff (tmp_path cfg n) (lfs_object_path cfg.cache_root k),
    tmp-ne-object cfg n k h,
  )

  pub Stores-download :
      (href : Bytes) (headers : Headers) (n : ℕ) (s : Lfs)
      → Stores s (download_to_file up disk href headers (tmp_path s.cfg n) s).1
  unfolding download_to_file
  Stores-download href headers n s = record {
    same_cfg = ground arith;
    change = λ k h. inl (
        ground (
          arith,
          other_path s.cfg n k h,
          find-write_file (tmp_path s.cfg n) (lfs_object_path s.cfg.cache_root k)
              (write_chunks disk (up.get href headers).chunks []).0 s.files,
        ));
  }

  pub Stores-drop_tmp : (n : ℕ) (s : Lfs) → Stores s (drop_tmp disk (tmp_path s.cfg n) s)
  Stores-drop_tmp n s = record {
    same_cfg = ground arith;
    change = λ k h. inl (
        ground (
          arith,
          other_path s.cfg n k h,
          find-remove_file (tmp_path s.cfg n) (lfs_object_path s.cfg.cache_root k) s.files,
        ));
  }

  -- The stored object is there, with the right hash.
  abbrev pub Holds : Lfs → Type 0
  Holds s = (c : Bytes) × (object_in oid s ≡ some c) × (sha256_hex up c ≡ oid)

  moved :
      (n : ℕ) (c : Bytes) (s : Lfs) (k : Bytes)
      → sha256_hex up c ≡ oid
      → valid_lfs_oid k ≡ true
      → let final = lfs_object_path s.cfg.cache_root oid in
        (find_file
            (lfs_object_path s.cfg.cache_root k)
            (write_file final c (remove_file (tmp_path s.cfg n) s.files))
          ≡ find_file (lfs_object_path s.cfg.cache_root k) s.files)
        ⊎ ((k ≡ oid)
            × ((d : Bytes) × (find_file
                    (lfs_object_path s.cfg.cache_root k)
                    (write_file final c (remove_file (tmp_path s.cfg n) s.files))
                  ≡ some d)
                × (sha256_hex up d ≡ oid)))
  moved n c s k hash h =
      let final : Bytes = lfs_object_path s.cfg.cache_root oid in
      let here : Bytes = lfs_object_path s.cfg.cache_root k in
      let written = find-write_file final here c (remove_file (tmp_path s.cfg n) s.files) in
      elim (Bool-cases (bytes_eq final here)) [
        | inl e ↦
            let same : oid ≡ k =
              lfs_object_path-injective s.cfg.cache_root oid k well h
                ((bytes_eq_iff final here).0 e) in
            inr (sym same, (c, ground (arith, written, e), hash))
        | inr e ↦ inl (
            ground (
              arith,
              written,
              e,
              other_path s.cfg n k h,
              find-remove_file (tmp_path s.cfg n) here s.files,
            ))
      ]

  pub Stores-move_into_place :
      (n : ℕ) (c : Bytes) (s : Lfs)
      → sha256_hex up c ≡ oid
      → Stores s
          (move_into_place disk oid (tmp_path s.cfg n) (lfs_object_path s.cfg.cache_root oid) c s).1
  unfolding move_into_place
  Stores-move_into_place n c s hash = record {
    same_cfg = ground arith;
    change = λ k h. ground (arith, moved n c s k hash h);
  }

  pub move-Holds :
      (n : ℕ) (c : Bytes) (s : Lfs)
      → sha256_hex up c ≡ oid
      → let r =
          move_into_place disk oid (tmp_path s.cfg n) (lfs_object_path s.cfg.cache_root oid) c s in
        r.0 ≡ ok tt → Holds r.1
  unfolding move_into_place
  move-Holds n c s hash e =
      let final : Bytes = lfs_object_path s.cfg.cache_root oid in
      (
        c,
        ground (
          arith,
          e,
          bytes_eq_refl final,
          find-write_file final final c (remove_file (tmp_path s.cfg n) s.files),
        ),
        hash,
      )
