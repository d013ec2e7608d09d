-- ===== src/Lfs/Downloads/Apart.antt =====
-- Where the files of src/lfs.rs lie: two downloads with different numbers never share a file.
use git_cache_proxy.Base.{
  ℕ, ◌<◌, u64_mod, Bytes, ◌∷◌, ◌++◌, Bool, true, false, Option, bytes_eq_iff, ◌≡◌, ◌≢◌, refl, sym,
  ap, ◌∙◌, arith, append_left_cancel, to_decimal, to_decimal-relative, parse_u64,
  parse_u64-to_decimal,
}
use git_cache_proxy.FilePath.{path_join}
use git_cache_proxy.Repo.{lfs_objects_dir, lfs_object_path, valid_lfs_oid}
use git_cache_proxy.Lfs.{LfsConfig, incoming_dir, find_file, remove_file, write_file, tmp_path}
use git_cache_proxy.Lfs.Files.{
  find-remove_file, find-write_file, tmp-ne-object, join-relative, base_of,
}
use git_cache_proxy.Lfs.Downloads.{Files, after_drop}

to_decimal-injective : (n m : ℕ) → n < u64_mod → m < u64_mod → to_decimal n ≡ to_decimal m → n ≡ m
to_decimal-injective n m h k e =
    cc (sym (parse_u64-to_decimal n h) ∙ (ap parse_u64 e ∙ parse_u64-to_decimal m k))

tmp_in :
    (cfg : LfsConfig) (n : ℕ)
    → tmp_path cfg n
      ≡ base_of (path_join (path_join cfg.cache_root lfs_objects_dir) incoming_dir)
        ++ (to_decimal cfg.process_id ++ (b'-' ∷ to_decimal n))
unfolding tmp_path
tmp_in cfg n =
    join-relative (path_join (path_join cfg.cache_root lfs_objects_dir) incoming_dir)
      (to_decimal cfg.process_id ++ (b'-' ∷ to_decimal n))
      (to_decimal-relative cfg.process_id (b'-' ∷ to_decimal n))

-- The number of a download can be read off its path.
pub tmp_path-injective :
    (cfg : LfsConfig) (n m : ℕ)
    → n < u64_mod
    → m < u64_mod
    → tmp_path cfg n ≡ tmp_path cfg m
    → n ≡ m
tmp_path-injective cfg n m h k e =
    let dir : Bytes = base_of (path_join (path_join cfg.cache_root lfs_objects_dir) incoming_dir) in
    let names =
      append_left_cancel dir (to_decimal cfg.process_id ++ (b'-' ∷ to_decimal n))
        (to_decimal cfg.process_id ++ (b'-' ∷ to_decimal m))
        (sym (tmp_in cfg n) ∙ (e ∙ tmp_in cfg m)) in
    let tails =
      append_left_cancel (to_decimal cfg.process_id) (b'-' ∷ to_decimal n) (b'-' ∷ to_decimal m)
        names in
    to_decimal-injective n m h k (cc tails)

module _ (cfg : LfsConfig) where
  -- The file of a download and that of an object, as keys of the map of files.
  abbrev pub tmp_in_files : ℕ → Files → Option Bytes
  tmp_in_files n f = find_file (tmp_path cfg n) f

  abbrev pub object_in_files : Bytes → Files → Option Bytes
  object_in_files oid f = find_file (lfs_object_path cfg.cache_root oid) f

  pub object-write_tmp :
      (n : ℕ) (k c : Bytes) (f : Files)
      → valid_lfs_oid k ≡ true
      → object_in_files k (write_file (tmp_path cfg n) c f) ≡ object_in_files k f
  object-write_tmp n k c f v = ground (
    arith,
    find-write_file (tmp_path cfg n) (lfs_object_path cfg.cache_root k) c f,
    bytes_eq_iff (tmp_path cfg n) (lfs_object_path cfg.cache_root k),
    tmp-ne-object cfg n k v,
  )

  pub object-remove_tmp :
      (n : ℕ) (k : Bytes) (f : Files)
      → valid_lfs_oid k ≡ true
      → object_in_files k (remove_file (tmp_path cfg n) f) ≡ object_in_files k f
  object-remove_tmp n k f v = ground (
    arith,
    find-remove_file (tmp_path cfg n) (lfs_object_path cfg.cache_root k) f,
    bytes_eq_iff (tmp_path cfg n) (lfs_object_path cfg.cache_root k),
    tmp-ne-object cfg n k v,
  )

  pub object-after_drop :
      (b : Bool) (n : ℕ) (k : Bytes) (f : Files)
      → valid_lfs_oid k ≡ true
      → object_in_files k (after_drop b (tmp_path cfg n) f) ≡ object_in_files k f
  object-after_drop true n k f v = object-remove_tmp n k f v
  object-after_drop false n k f v = refl

  -- For paths that differ.
  pub find-write_other :
      (p q c : Bytes) (f : Files) → p ≢ q → find_file q (write_file p c f) ≡ find_file q f
  find-write_other p q c f n = ground (arith, find-write_file p q c f, bytes_eq_iff p q, n)

  pub find-remove_other :
      (p q : Bytes) (f : Files) → p ≢ q → find_file q (remove_file p f) ≡ find_file q f
  find-remove_other p q f n = ground (arith, find-remove_file p q f, bytes_eq_iff p q, n)

  pub find-drop_other :
      (b : Bool) (p q : Bytes) (f : Files) → p ≢ q → find_file q (after_drop b p f) ≡ find_file q f
  find-drop_other true p q f n = find-remove_other p q f n
  find-drop_other false p q f n = refl
