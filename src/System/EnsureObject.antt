-- ===== src/System/EnsureObject.antt =====
-- What a call of `ensure_object` of src/lfs.rs tells the index about the object that it stores.
use git_cache_proxy.Base.{
  ℕ, ◌+◌, ◌%◌, ◌&&◌, u64_mod, Bytes, bytes_eq, Bool, true, false, not, Option, none, some, ok, err,
  if◌then◌else◌, ◌≡◌, refl, sym, subst, Bool-cases, Option-cases, inl, inr,
}
use git_cache_proxy.Json.{Json}
use git_cache_proxy.Repo.{lfs_object_path, valid_lfs_oid}
use git_cache_proxy.Lfs
use git_cache_proxy.Lfs.{
  Lfs, LfsConfig, LfsEvent, Upstream, Disk, Stored, Answer, LfsError, note, slot, touch, find_file,
  remove_file, write_file, tmp_path, drop_tmp, move_into_place, verify, download_to_file,
  fetch_from, fetch_object, download_action, post_batch, missed, ensure_locked, ensure_object,
  sha256_hex, cached, batch_request, read_action, credential, batch_url, no_size,
}
use git_cache_proxy.Lfs.Batch.{Headers}
use git_cache_proxy.Lfs.Fetch.{verify-none, verify-unread, verify-wrong, verify-right}
use git_cache_proxy.Lfs.Downloads.Alone.{Action, act, unserialized, posted}
use git_cache_proxy.Lfs.Downloads.Fetches.{finish, refused, written_to}
use git_cache_proxy.System.{same_store}
use git_cache_proxy.System.Downloads.{
  Records, Records-refl, Records-trans, Records-either, Records-note, Records-touch, Records-write,
  Records-drop, Records-move,
}

module _ (oid : Bytes) (well : valid_lfs_oid oid ≡ true) (up : Upstream) (disk : Disk) where
  Records-verify :
      (n : ℕ) (s : Lfs)
      → s.cfg.has_index ≡ true
      → Records oid s
          (verify up disk oid (tmp_path s.cfg n) (lfs_object_path s.cfg.cache_root oid) s).1
  Records-verify n s on =
      let P : Stored → Type 0 = λ r. Records oid s r.1 in
      elim (Option-cases (find_file (tmp_path s.cfg n) s.files)) [
        | inl e ↦ subst P (sym (verify-none up disk oid well n s e)) (Records-refl oid s)
        | inr (c, e) ↦ elim (Bool-cases disk.hashed) [
          | inr h ↦ subst P (sym (verify-unread up disk oid well n s c e h)) (Records-refl oid s)
          | inl h ↦ elim (Bool-cases (bytes_eq (sha256_hex up c) oid)) [
            | inr b ↦
                subst P (sym (verify-wrong up disk oid well n s c e h b))
                  (Records-drop oid disk n s)
            | inl b ↦
                subst P (sym (verify-right up disk oid well n s c e h b))
                  (Records-move oid well disk n c s on)
          ]
        ]
      ]

  Records-finish :
      (b : Bool) (n : ℕ) (s t : Lfs)
      → t.cfg.has_index ≡ true
      → Records oid s t
      → Records oid s
          (finish up disk oid well
            (tmp_path t.cfg n)
            (lfs_object_path t.cfg.cache_root oid)
            (b, t)).1
  Records-finish true n s t on a = Records-trans oid s t _ a (Records-verify n t on)
  Records-finish false n s t on a = Records-trans oid s t _ a (Records-drop oid disk n t)

  Records-download :
      (href : Bytes) (headers : Headers) (n : ℕ) (s : Lfs)
      → s.cfg.has_index ≡ true
      → Records oid s
          (finish up disk oid well
            (tmp_path s.cfg n)
            (lfs_object_path s.cfg.cache_root oid)
            (download_to_file up disk href headers (tmp_path s.cfg n) s)).1
  Records-download href headers n s on =
      let tmp : Bytes = tmp_path s.cfg n in
      let asked : Lfs = note (Lfs.upstream_get href) s in
      let P : Bool × Lfs → Type 0 = λ d.
        Records oid s (finish up disk oid well tmp (lfs_object_path s.cfg.cache_root oid) d).1 in
      elim (Bool-cases (not ((up.get href headers).connected && disk.file_created))) [
        | inl e ↦
            subst P (sym (refused up disk oid well href headers tmp s e))
              (Records-finish false n s asked on (Records-note oid (Lfs.upstream_get href) s))
        | inr e ↦ subst P (sym (written_to up disk oid well href headers tmp s e)) (
            Records-finish _ n s _ on (
              Records-trans oid s asked _ (Records-note oid (Lfs.upstream_get href) s)
                (Records-write oid n _ asked)))
      ]

  Records-fetch_from :
      (href : Bytes) (headers : Headers) (s : Lfs)
      → s.cfg.has_index ≡ true
      → Records oid s
          (fetch_from up disk href headers oid (lfs_object_path s.cfg.cache_root oid) s).1
  unfolding fetch_from
  Records-fetch_from href headers s on =
      let numbered : Lfs = record s { tmp_counter = (s.tmp_counter + 1) % u64_mod } in
      Records-either oid (not disk.incoming_created) s _ _ (Records-refl oid s) (
        Records-trans oid s numbered _
          (record { same_cfg = refl; kept = λ k h. h; news = λ o v h. inl h })
          (Records-download href headers s.tmp_counter numbered on))

  Records-act :
      (a : Action up disk oid well) (s : Lfs)
      → s.cfg.has_index ≡ true
      → Records oid s (act up disk oid well (lfs_object_path s.cfg.cache_root oid) (a, s)).1
  Records-act (err e) s on = Records-refl oid s
  Records-act (ok (href, headers)) s on = Records-fetch_from href headers s on

  module _ (json : Json) (repo : Bytes) where
    Records-fetch_object :
        (size : ℕ) (s : Lfs)
        → s.cfg.has_index ≡ true
        → Records oid s
            (fetch_object json up disk repo oid size (lfs_object_path s.cfg.cache_root oid) s).1
    unfolding fetch_object
    Records-fetch_object size s on =
        let P : Action up disk oid well × Lfs → Type 0 =
          λ d. Records oid s (act up disk oid well (lfs_object_path s.cfg.cache_root oid) d).1 in
        elim (Option-cases (json.to_vec (batch_request json oid size))) [
          | inl e ↦
              subst P (sym (unserialized up disk oid well json repo size s e)) (Records-refl oid s)
          | inr (text, e) ↦
              let url = batch_url s.cfg.upstream_base repo in
              let asked : Lfs = note (Lfs.upstream_post url) s in
              subst P (sym (posted up disk oid well json repo size s text e)) (
                Records-trans oid s asked _ (Records-note oid (Lfs.upstream_post url) s) (
                  Records-act (read_action json up (up.post url (credential up s.cfg) text)) asked
                    on))
        ]

    Records-missed :
        (path : Bytes) (s : Lfs) (r : Stored)
        → Records oid s r.1
        → Records oid s (missed json path r).1
    Records-missed path s (err e, t) h = h
    Records-missed path s (ok u, t) h = h

    Records-answer :
        (b : Bool) (s : Lfs) (t u : Answer json)
        → Records oid s t.1
        → Records oid s u.1
        → Records oid s (if b then t else u).1
    Records-answer true s t u a b = a
    Records-answer false s t u a b = b

    Records-size :
        (size : Option ℕ) (path : Bytes) (s : Lfs)
        → s.cfg.has_index ≡ true
        → path ≡ lfs_object_path s.cfg.cache_root oid
        → Records oid s
            (elim size as (λ _. Answer json) [
              | none ↦ (err no_size, s)
              | some n ↦ missed json path (fetch_object json up disk repo oid n path s)
            ]).1
    Records-size none path s on e = Records-refl oid s
    Records-size (some n) path s on e =
        subst (λ p. Records oid s (missed json p (fetch_object json up disk repo oid n p s)).1)
          (sym e)
          (Records-missed (lfs_object_path s.cfg.cache_root oid) s
            (fetch_object json up disk repo oid n (lfs_object_path s.cfg.cache_root oid) s)
            (Records-fetch_object n s on))

    pub Records-ensure_object :
        (size : Option ℕ) (s : Lfs)
        → s.cfg.has_index ≡ true
        → Records oid s (ensure_object json up disk same_store repo oid size s).1
    unfolding ensure_object ensure_locked slot
    Records-ensure_object size s on =
        let path : Bytes = lfs_object_path s.cfg.cache_root oid in
        let held : Lfs = slot oid s in
        Records-answer (cached disk.first_stat path s) s _ _ (Records-touch oid s) (
          Records-trans oid s held _
            (record { same_cfg = refl; kept = λ k h. h; news = λ o v h. inl h })
            (Records-answer (cached disk.second_stat path held) held _ _ (Records-touch oid held)
              (Records-size size path held on refl)))
