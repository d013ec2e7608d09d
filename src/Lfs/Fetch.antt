-- ===== src/Lfs/Fetch.antt =====
-- The download of src/lfs.rs, from the batch action to the object's place: what it stores, and when it
-- says so.
use git_cache_proxy.Base.{
  ℕ, ◌+◌, ◌%◌, u64_mod, Bytes, bytes_eq, bytes_eq_iff, Bool, true, false, not, none, some, ok, err,
  if◌then◌else◌, ◌≡◌, refl, sym, subst, arith, Bool-cases, Option-cases, inl, inr,
}
use git_cache_proxy.Json.{Json}
use git_cache_proxy.Repo.{lfs_object_path, valid_lfs_oid}
use git_cache_proxy.Lfs.{
  Lfs, Upstream, Disk, Stored, LfsError, hash_failed, integrity_failed, download_failed,
  incoming_failed, find_file, tmp_path, sha256_hex, post_batch, download_action, download_to_file,
  drop_tmp, move_into_place, verify, fetch_from, fetch_object,
}
use git_cache_proxy.Lfs.Batch.{Headers}
use git_cache_proxy.Lfs.Integrity.{
  Stores-download, Stores, Stores-drop_tmp, Stores-same, Holds, Stores-move_into_place, move-Holds,
  Stores-trans,
}

module _ (up : Upstream) (disk : Disk) (oid : Bytes) (well : valid_lfs_oid oid ≡ true) where
  -- A step of a download, from its result.
  pub record Fetches (s : Lfs) (r : Stored) : Type 0 where
    pub stores : Stores up disk oid well s r.1
    pub holds : r.0 ≡ ok tt → Holds up disk oid well r.1

  failed : (s t : Lfs) (e : LfsError) → Stores up disk oid well s t → Fetches s (err e, t)
  failed s t e h = record { stores = h; holds = λ q. cc }

  Fetches-later : (s t : Lfs) (r : Stored) → Stores up disk oid well s t → Fetches t r → Fetches s r
  Fetches-later s t r a b = record {
    stores = Stores-trans up disk oid well s t r.1 a b.stores;
    holds = b.holds;
  }

  pub verify-none :
      (n : ℕ) (s : Lfs)
      → find_file (tmp_path s.cfg n) s.files ≡ none
      → verify up disk oid (tmp_path s.cfg n) (lfs_object_path s.cfg.cache_root oid) s
        ≡ (err hash_failed, s)
  unfolding verify
  verify-none n s e = rw (verify, e) refl

  pub verify-unread :
      (n : ℕ) (s : Lfs) (c : Bytes)
      → find_file (tmp_path s.cfg n) s.files ≡ some c
      → disk.hashed ≡ false
      → verify up disk oid (tmp_path s.cfg n) (lfs_object_path s.cfg.cache_root oid) s
        ≡ (err hash_failed, s)
  unfolding verify
  verify-unread n s c e h = rw (verify, e, h) refl

  pub verify-wrong :
      (n : ℕ) (s : Lfs) (c : Bytes)
      → find_file (tmp_path s.cfg n) s.files ≡ some c
      → disk.hashed ≡ true
      → bytes_eq (sha256_hex up c) oid ≡ false
      → verify up disk oid (tmp_path s.cfg n) (lfs_object_path s.cfg.cache_root oid) s
        ≡ (err (integrity_failed (sha256_hex up c)), drop_tmp disk (tmp_path s.cfg n) s)
  unfolding verify
  verify-wrong n s c e h b = rw (verify, e, h, b) refl

  pub verify-right :
      (n : ℕ) (s : Lfs) (c : Bytes)
      → find_file (tmp_path s.cfg n) s.files ≡ some c
      → disk.hashed ≡ true
      → bytes_eq (sha256_hex up c) oid ≡ true
      → verify up disk oid (tmp_path s.cfg n) (lfs_object_path s.cfg.cache_root oid) s
        ≡ move_into_place disk oid (tmp_path s.cfg n) (lfs_object_path s.cfg.cache_root oid) c s
  unfolding verify
  verify-right n s c e h b = rw (verify, e, h, b) refl

  Fetches-verify :
      (n : ℕ) (s : Lfs)
      → Fetches s (verify up disk oid (tmp_path s.cfg n) (lfs_object_path s.cfg.cache_root oid) s)
  Fetches-verify n s = elim (Option-cases (find_file (tmp_path s.cfg n) s.files)) [
    | inl e ↦
        subst (Fetches s) (sym (verify-none n s e))
          (failed s s hash_failed (Stores-same up disk oid well s s refl refl))
    | inr (c, e) ↦ elim (Bool-cases disk.hashed) [
      | inr h ↦
          subst (Fetches s) (sym (verify-unread n s c e h))
            (failed s s hash_failed (Stores-same up disk oid well s s refl refl))
      | inl h ↦ elim (Bool-cases (bytes_eq (sha256_hex up c) oid)) [
        | inr b ↦ subst (Fetches s) (sym (verify-wrong n s c e h b)) (
            failed s (drop_tmp disk (tmp_path s.cfg n) s) (integrity_failed (sha256_hex up c))
              (Stores-drop_tmp up disk oid well n s))
        | inl b ↦
            let hash : sha256_hex up c ≡ oid = (bytes_eq_iff (sha256_hex up c) oid).0 b in
            subst (Fetches s) (sym (verify-right n s c e h b)) (record {
              stores = Stores-move_into_place up disk oid well n c s hash;
              holds = move-Holds up disk oid well n c s hash;
            })
      ]
    ]
  ]

  Fetches-if :
      (s : Lfs) (b : Bool) (r t : Stored)
      → Fetches s r
      → Fetches s t
      → Fetches s (if b then r else t)
  Fetches-if s true r t f g = f
  Fetches-if s false r t f g = g

  Fetches-fetch_from :
      (href : Bytes) (headers : Headers) (s : Lfs)
      → Fetches s (fetch_from up disk href headers oid (lfs_object_path s.cfg.cache_root oid) s)
  unfolding fetch_from
  Fetches-fetch_from href headers s =
      let numbered : Lfs = record s { tmp_counter = (s.tmp_counter + 1) % u64_mod } in
      let tmp : Bytes = tmp_path s.cfg s.tmp_counter in
      let got : Lfs = (download_to_file up disk href headers tmp numbered).1 in
      let start : Stores up disk oid well s numbered =
        Stores-same up disk oid well s numbered refl refl in
      let reached : Stores up disk oid well s got =
        Stores-trans up disk oid well s numbered got start
          (Stores-download up disk oid well href headers s.tmp_counter numbered) in
      let checked : Fetches got
          (verify up disk oid tmp (lfs_object_path s.cfg.cache_root oid) got) =
        subst
          (λ c.
            Fetches got (
              verify up disk oid (tmp_path c s.tmp_counter) (lfs_object_path c.cache_root oid) got))
          reached.same_cfg (Fetches-verify s.tmp_counter got) in
      let dropped : Stores up disk oid well got (drop_tmp disk tmp got) =
        subst (λ c. Stores up disk oid well got (drop_tmp disk (tmp_path c s.tmp_counter) got))
          reached.same_cfg (Stores-drop_tmp up disk oid well s.tmp_counter got) in
      Fetches-if s (not disk.incoming_created) _ _
        (failed s s incoming_failed (Stores-same up disk oid well s s refl refl))
        (Fetches-if s (download_to_file up disk href headers tmp numbered).0 _ _
          (Fetches-later s got (verify up disk oid tmp (lfs_object_path s.cfg.cache_root oid) got)
            reached checked)
          (failed s (drop_tmp disk tmp got) download_failed
            (Stores-trans up disk oid well s got (drop_tmp disk tmp got) reached dropped)))

  module _ (json : Json) where
    Stores-download_action :
        (repo : Bytes) (size : ℕ) (s : Lfs)
        → Stores up disk oid well s (download_action json up repo oid size s).1
    unfolding download_action post_batch
    Stores-download_action repo size s =
        Stores-same up disk oid well s (download_action json up repo oid size s).1 (ground arith)
          (ground arith)

    pub Fetches-fetch_object :
        (repo : Bytes) (size : ℕ) (s : Lfs)
        → Fetches s
            (fetch_object json up disk repo oid size (lfs_object_path s.cfg.cache_root oid) s)
    unfolding fetch_object
    Fetches-fetch_object repo size s =
        let asked : Lfs = (download_action json up repo oid size s).1 in
        let sent : Stores up disk oid well s asked = Stores-download_action repo size s in
        elim (download_action json up repo oid size s).0
          as (λ r. Fetches s (elim r [
            | err e ↦ (err e, asked)
            | ok (href, headers) ↦
                fetch_from up disk href headers oid (lfs_object_path s.cfg.cache_root oid) asked
          ])) [
            | err e ↦ failed s asked e sent
            | ok (href, headers) ↦ Fetches-later s asked _ sent (
                subst
                  (λ c.
                    Fetches asked (
                      fetch_from up disk href headers oid (lfs_object_path c.cache_root oid) asked))
                  sent.same_cfg (Fetches-fetch_from href headers asked))
          ]
