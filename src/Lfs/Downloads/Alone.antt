-- ===== src/Lfs/Downloads/Alone.antt =====
-- The download of src/lfs.rs that nothing interrupts, as a run of the moves: the code of one call, read
-- from the top to the bottom, takes no step that the moves do not have.
use git_cache_proxy.Base.{
  ℕ, Bytes, Bool, true, false, Option, none, some, is_some, ok, err, Result, if◌then◌else◌, ◌≡◌,
  refl, sym, subst, arith, inl, inr, ◌⊎◌, Bool-cases, Option-cases,
}
use git_cache_proxy.Json.{Json}
use git_cache_proxy.Repo.{lfs_object_path, valid_lfs_oid}
use git_cache_proxy.Lfs.{
  Lfs, LfsConfig, Upstream, Disk, Stored, find_file, remove_file, write_file, tmp_path, sha256_hex,
  drop_tmp, move_into_place, verify, write_chunks, download_to_file, fetch_from, fetch_object,
  batch_request, read_action, credential, batch_url, post_batch, not_serialized, missed, slot,
  ensure_object, Answer, no_size, LfsError, note, upstream_get, upstream_post, download_failed,
  download_action, ensure_locked, cached, touch,
}
use git_cache_proxy.Lfs.Batch.{Headers}
use git_cache_proxy.Lfs.Downloads.{
  Files, Pc, waiting, locked, finished, Move, hit, hit_locked, no_action, still, next,
}
use git_cache_proxy.Lfs.Downloads.Parts.{Ends, Ends-if}
use git_cache_proxy.Lfs.Downloads.Fetches.{Run-fetch_from}

module _ (up : Upstream) (disk : Disk) (oid : Bytes) (well : valid_lfs_oid oid ≡ true) where
  abbrev pub Action : Type 0
  Action = Result LfsError (Bytes × Headers)

  abbrev pub act : Bytes → Action × Lfs → Stored
  act final (action, t) = elim action [
    | err e ↦ (err e, t)
    | ok (href, headers) ↦ fetch_from up disk href headers oid final t
  ]

  Run-act :
      (a : Action) (s : Lfs)
      → Ends up s.cfg oid s.files s.tmp_counter locked
          (act (lfs_object_path s.cfg.cache_root oid) (a, s)).1
  Run-act (err e) s = next no_action still
  Run-act (ok (href, headers)) s = Run-fetch_from up disk oid well href headers s

  pub cached-found :
      (stat : Bool) (path : Bytes) (s : Lfs)
      → cached stat path s ≡ true
      → is_some (find_file path s.files) ≡ true
  unfolding cached
  cached-found stat path s e = ground (arith, e)

  Run-touch :
      (s : Lfs) (p : Pc)
      → Move up s.cfg oid s.files s.tmp_counter p s.files s.tmp_counter finished
      → Ends up s.cfg oid s.files s.tmp_counter p (touch oid s)
  unfolding touch
  Run-touch s p move =
      Ends-if up disk oid well s.cfg s.files s.tmp_counter p s.cfg.has_index _ _ (next move still)
        (next move still)

  module _ (json : Json) (repo : Bytes) where
    pub found_at_once :
        (meanwhile : Lfs → Lfs) (size : Option ℕ) (s : Lfs)
        → cached disk.first_stat (lfs_object_path s.cfg.cache_root oid) s ≡ true
        → ensure_object json up disk meanwhile repo oid size s
          ≡ (ok (lfs_object_path s.cfg.cache_root oid, git_cache_proxy.Lfs.hit), touch oid s)
    unfolding ensure_object
    found_at_once meanwhile size s e = rw (ensure_object, e) refl

    pub locked_then :
        (meanwhile : Lfs → Lfs) (size : Option ℕ) (s : Lfs)
        → cached disk.first_stat (lfs_object_path s.cfg.cache_root oid) s ≡ false
        → ensure_object json up disk meanwhile repo oid size s
          ≡ ensure_locked json up disk repo oid size
              (lfs_object_path s.cfg.cache_root oid)
              (meanwhile (slot oid s))
    unfolding ensure_object
    locked_then meanwhile size s e = rw (ensure_object, e) refl

    Ends-answer :
        (cfg : LfsConfig) (f : Files) (k : ℕ) (p : Pc) (b : Bool) (r t : Answer json)
        → (b ≡ true → Ends up cfg oid f k p r.1)
        → Ends up cfg oid f k p t.1
        → Ends up cfg oid f k p (if b then r else t).1
    Ends-answer cfg f k p true r t a b = a refl
    Ends-answer cfg f k p false r t a b = b

    pub unserialized :
        (size : ℕ) (s : Lfs)
        → json.to_vec (batch_request json oid size) ≡ none
        → download_action json up repo oid size s ≡ (err not_serialized, s)
    unfolding download_action
    unserialized size s e = rw (download_action, e) refl

    pub posted :
        (size : ℕ) (s : Lfs) (body : Bytes)
        → json.to_vec (batch_request json oid size) ≡ some body
        → let url = batch_url s.cfg.upstream_base repo in
          download_action json up repo oid size s ≡ (
            read_action json up (up.post url (credential up s.cfg) body),
            note (upstream_post url) s,
          )
    unfolding download_action post_batch
    posted size s body e = rw (download_action, e) refl

    Run-fetch_object :
        (size : ℕ) (s : Lfs)
        → Ends up s.cfg oid s.files s.tmp_counter locked
            (fetch_object json up disk repo oid size (lfs_object_path s.cfg.cache_root oid) s).1
    unfolding fetch_object
    Run-fetch_object size s =
        let P : Action × Lfs → Type 0 = λ d.
          Ends up s.cfg oid s.files s.tmp_counter locked
            (act (lfs_object_path s.cfg.cache_root oid) d).1 in
        elim (Option-cases (json.to_vec (batch_request json oid size))) [
          | inl e ↦ subst P (sym (unserialized size s e)) (Run-act (err not_serialized) s)
          | inr (body, e) ↦
              let url = batch_url s.cfg.upstream_base repo in
              subst P (sym (posted size s body e)) (
                Run-act (read_action json up (up.post url (credential up s.cfg) body))
                  (note (upstream_post url) s))
        ]

    Run-missed :
        (f : Files) (k : ℕ) (cfg : LfsConfig) (path : Bytes) (r : Stored)
        → Ends up cfg oid f k locked r.1
        → Ends up cfg oid f k locked (missed json path r).1
    Run-missed f k cfg path (err e, t) h = h
    Run-missed f k cfg path (ok u, t) h = h

    Run-ensure_locked :
        (size : Option ℕ) (s : Lfs)
        → Ends up s.cfg oid s.files s.tmp_counter locked
            (ensure_locked json up disk repo oid size (lfs_object_path s.cfg.cache_root oid) s).1
    unfolding ensure_locked
    Run-ensure_locked size s =
        let path : Bytes = lfs_object_path s.cfg.cache_root oid in
        let fetched : (o : Option ℕ)
            → Ends up s.cfg oid s.files s.tmp_counter locked
                (elim o as (λ _. Answer json) [
                  | none ↦ (err no_size, s)
                  | some n ↦ missed json path (fetch_object json up disk repo oid n path s)
                ]).1 =
          λ o.
            elim o
              as (λ o'.
                Ends up s.cfg oid s.files s.tmp_counter locked
                  (elim o' as (λ _. Answer json) [
                    | none ↦ (err no_size, s)
                    | some n ↦ missed json path (fetch_object json up disk repo oid n path s)
                  ]).1) [
                    | none ↦ next no_action still
                    | some n ↦
                        Run-missed s.files s.tmp_counter s.cfg path
                          (fetch_object json up disk repo oid n path s) (Run-fetch_object n s)
                  ] in
        Ends-answer s.cfg s.files s.tmp_counter locked (cached disk.second_stat path s) _ _
          (λ e. Run-touch s locked (hit_locked (cached-found disk.second_stat path s e)))
          (fetched size)

    -- Whatever the disk and the upstream answer: a call of `ensure_object` that finds the object at
    -- once does what moves of a waiting call do; any other does, from the state in which it holds the
    -- lock of the object, what moves of a call with the lock do, up to the end of the call.
    pub ensure_object_moves :
        (meanwhile : Lfs → Lfs)
        → ((t : Lfs) → (meanwhile t).cfg ≡ t.cfg)
        → (size : Option ℕ) (s : Lfs)
        → let t = meanwhile (slot oid s) in
          let r = (ensure_object json up disk meanwhile repo oid size s).1 in
          Ends up s.cfg oid s.files s.tmp_counter waiting r
          ⊎ Ends up s.cfg oid t.files t.tmp_counter locked r
    unfolding slot
    ensure_object_moves meanwhile same size s =
        let t : Lfs = meanwhile (slot oid s) in
        elim (Bool-cases (cached disk.first_stat (lfs_object_path s.cfg.cache_root oid) s)) [
          | inl e ↦ inl (
              subst (λ (a : Answer json). Ends up s.cfg oid s.files s.tmp_counter waiting a.1)
                (sym (found_at_once meanwhile size s e))
                (Run-touch s waiting
                  (hit (cached-found disk.first_stat (lfs_object_path s.cfg.cache_root oid) s e))))
          | inr e ↦ inr (
              subst (λ (a : Answer json). Ends up s.cfg oid t.files t.tmp_counter locked a.1)
                (sym (locked_then meanwhile size s e))
                (subst
                  (λ (c : LfsConfig).
                    Ends up c oid t.files t.tmp_counter locked
                      (ensure_locked json up disk repo oid size (lfs_object_path c.cache_root oid)
                        t).1)
                  (same (slot oid s)) (Run-ensure_locked size t)))
        ]
