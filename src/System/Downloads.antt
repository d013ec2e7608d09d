-- ===== src/System/Downloads.antt =====
-- What the parts of a download of src/lfs.rs tell the index about the object that it stores.
use git_cache_proxy.Base.{
  ℕ, Bytes, bytes_eq, bytes_eq_iff, bytes_eq_refl, List, [], ◌∷◌, Bool, true, false, not, ◌||◌,
  is_some, if◌then◌else◌, ◌≡◌, ◌⊎◌, refl, sym, ap, ◌∙◌, arith, Bool-cases, inl, inr,
}
use git_cache_proxy.Repo.{lfs_object_key, lfs_object_path, valid_lfs_oid}
use git_cache_proxy.Lfs
use git_cache_proxy.Lfs.{
  Lfs, LfsConfig, LfsEvent, Upstream, Disk, Stored, Answer, LfsError, note, slot, touch, find_file,
  remove_file, write_file, tmp_path, drop_tmp, move_into_place, verify, download_to_file,
  fetch_from, fetch_object, download_action, post_batch, missed, ensure_locked, ensure_object,
  sha256_hex, cached, batch_request, read_action, credential, batch_url, no_size,
}
use git_cache_proxy.Lfs.Files.{find-write_file, lfs_object_path-injective}
use git_cache_proxy.Lfs.Downloads.Apart.{object_in_files, object-write_tmp, object-remove_tmp}

abbrev pub is_record : Bytes → LfsEvent → Bool
is_record k (Lfs.index_record_blob j size) = bytes_eq j k
is_record k (Lfs.index_touch j) = false
is_record k (Lfs.upstream_post u) = false
is_record k (Lfs.upstream_get u) = false

-- Whether the index was told that the object was stored.
abbrev pub recorded : Bytes → List LfsEvent → Bool
recorded k [] = false
recorded k (e ∷ l) = is_record k e || recorded k l

abbrev pub there : Bytes → Lfs → Bool
there o s = is_some (object_in_files s.cfg o s.files)

-- From one state to another: the configuration stays, no record is lost, and there is no new object but
-- the one of the call, which is recorded.
pub record Records (oid : Bytes) (s t : Lfs) : Type 0 where
  pub same_cfg : t.cfg ≡ s.cfg
  pub kept : (k : Bytes) → recorded k s.events ≡ true → recorded k t.events ≡ true
  pub news :
      (o : Bytes)
      → valid_lfs_oid o ≡ true
      → there o t ≡ true
      → (there o s ≡ true) ⊎ ((o ≡ oid) × (recorded (lfs_object_key oid) t.events ≡ true))

module _ (oid : Bytes) where
  pub Records-refl : (s : Lfs) → Records oid s s
  Records-refl s = record { same_cfg = refl; kept = λ k e. e; news = λ o v e. inl e }

  pub Records-trans : (s t u : Lfs) → Records oid s t → Records oid t u → Records oid s u
  Records-trans s t u a b = record {
    same_cfg = b.same_cfg ∙ a.same_cfg;
    kept = λ k e. b.kept k (a.kept k e);
    news = λ o v e. elim (b.news o v e) [
      | inl old ↦ elim (a.news o v old) [
        | inl older ↦ inl older
        | inr (is, m) ↦ inr (is, b.kept (lfs_object_key oid) m)
      ]
      | inr new ↦ inr new
    ];
  }

  pub Records-if :
      (b : Bool) (s t u : Lfs)
      → Records oid s t
      → Records oid s u
      → Records oid s (if b then t else u)
  Records-if true s t u a b = a
  Records-if false s t u a b = b

  Records-on :
      (b : Bool) (s t u : Lfs) → b ≡ true → Records oid s t → Records oid s (if b then t else u)
  Records-on true s t u e a = a
  Records-on false s t u e a = absurd (cc e)

  pub Records-either :
      (b : Bool) (s : Lfs) (t u : Stored)
      → Records oid s t.1
      → Records oid s u.1
      → Records oid s (if b then t else u).1
  Records-either true s t u a b = a
  Records-either false s t u a b = b

  pub Records-note : (e : LfsEvent) (s : Lfs) → Records oid s (note e s)
  Records-note e s = record {
    same_cfg = refl;
    kept = λ k h. ground (arith, h);
    news = λ o v h. inl h;
  }

  pub Records-touch : (s : Lfs) → Records oid s (touch oid s)
  unfolding touch
  Records-touch s = Records-if s.cfg.has_index s _ s (Records-note _ s) (Records-refl s)

  -- A write to a temporary file, and its removal.
  pub Records-write :
      (n : ℕ) (c : Bytes) (s : Lfs)
      → Records oid s (record s { files = write_file (tmp_path s.cfg n) c s.files })
  Records-write n c s = record {
    same_cfg = refl;
    kept = λ k h. h;
    news = λ o v h. inl (ap is_some (sym (object-write_tmp s.cfg n o c s.files v)) ∙ h);
  }

  pub Records-drop :
      (disk : Disk) (n : ℕ) (s : Lfs) → Records oid s (drop_tmp disk (tmp_path s.cfg n) s)
  Records-drop disk n s =
      Records-if disk.removed s (record s { files = remove_file (tmp_path s.cfg n) s.files }) s
        (record {
          same_cfg = refl;
          kept = λ k h. h;
          news = λ o v h. inl (ap is_some (sym (object-remove_tmp s.cfg n o s.files v)) ∙ h);
        })
        (Records-refl s)

  module _ (well : valid_lfs_oid oid ≡ true) where
    Records-moved :
        (n size : ℕ) (c : Bytes) (s : Lfs)
        → let final = lfs_object_path s.cfg.cache_root oid in
          let moved = record s {
            files = write_file final c (remove_file (tmp_path s.cfg n) s.files);
          } in
          Records oid s (note (Lfs.index_record_blob (lfs_object_key oid) size) moved)
    Records-moved n size c s = record {
      same_cfg = refl;
      kept = λ k h. ground (arith, h);
      news = λ o v h.
          let final : Bytes = lfs_object_path s.cfg.cache_root oid in
          let here : Bytes = lfs_object_path s.cfg.cache_root o in
          let found = find-write_file final here c (remove_file (tmp_path s.cfg n) s.files) in
          elim (Bool-cases (bytes_eq final here)) [
            | inl e ↦ inr (
              sym (
                  lfs_object_path-injective s.cfg.cache_root oid o well v
                    ((bytes_eq_iff final here).0 e)),
              ground (arith, bytes_eq_refl (lfs_object_key oid)),
            )
            | inr e ↦ inl (
                ap is_some (sym (object-remove_tmp s.cfg n o s.files v))
                ∙ ground (arith, found, e, h))
          ];
    }

    pub Records-move :
        (disk : Disk) (n : ℕ) (c : Bytes) (s : Lfs)
        → s.cfg.has_index ≡ true
        → Records oid s
            (move_into_place disk oid
              (tmp_path s.cfg n)
              (lfs_object_path s.cfg.cache_root oid)
              c
              s).1
    unfolding move_into_place
    Records-move disk n c s on = Records-either (not disk.shard_created) s _ _ (Records-refl s) (
        Records-either (not disk.renamed) s _ _ (Records-refl s)
          (Records-on s.cfg.has_index s _ _ on (Records-moved n _ c s)))
