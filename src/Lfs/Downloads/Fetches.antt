-- ===== src/Lfs/Downloads/Fetches.antt =====
-- The download of src/lfs.rs from the action on, as a run of the moves.
use git_cache_proxy.Base.{
  ℕ, ◌+◌, ◌%◌, ◌&&◌, u64_mod, Bytes, [], Bool, true, false, not, err, if◌then◌else◌, ◌≡◌, refl, sym,
  subst, inl, inr, Bool-cases,
}
use git_cache_proxy.Repo.{lfs_object_path, valid_lfs_oid}
use git_cache_proxy.Lfs.{
  Lfs, Upstream, Disk, Stored, write_file, tmp_path, drop_tmp, verify, write_chunks,
  download_to_file, fetch_from, note, upstream_get, download_failed,
}
use git_cache_proxy.Lfs.Batch.{Headers}
use git_cache_proxy.Lfs.Downloads.{
  locked, named, no_action, number, no_answer, create, broken, flush, still, next,
}
use git_cache_proxy.Lfs.Downloads.Parts.{
  Run-then, after_chunks, Run-write_chunks, Ends, Ends-either, after_wrong, Run-verify,
}

module _ (up : Upstream) (disk : Disk) (oid : Bytes) (well : valid_lfs_oid oid ≡ true) where
  abbrev pub finish : Bytes → Bytes → Bool × Lfs → Stored
  finish tmp final (done, t) =
      if done then verify up disk oid tmp final t else (err download_failed, drop_tmp disk tmp t)

  Run-finish :
      (written_all complete flushed : Bool) (n : ℕ) (t : Lfs)
      → Ends up t.cfg oid t.files t.tmp_counter
          (after_chunks up t.cfg oid written_all n)
          (finish
            (tmp_path t.cfg n)
            (lfs_object_path t.cfg.cache_root oid)
            (written_all && complete && flushed, t)).1
  Run-finish false c b n t = after_wrong up disk oid well n t
  Run-finish true true true n t = next flush (Run-verify up disk oid well n t)
  Run-finish true true false n t = next broken (after_wrong up disk oid well n t)
  Run-finish true false b n t = next broken (after_wrong up disk oid well n t)

  module _ (href : Bytes) (headers : Headers) where
    pub refused :
        (tmp : Bytes) (s : Lfs)
        → not ((up.get href headers).connected && disk.file_created) ≡ true
        → download_to_file up disk href headers tmp s ≡ (false, note (upstream_get href) s)
    unfolding download_to_file
    refused tmp s e = rw e refl

    pub written_to :
        (tmp : Bytes) (s : Lfs)
        → not ((up.get href headers).connected && disk.file_created) ≡ false
        → let t = up.get href headers in
          let w = write_chunks disk t.chunks [] in
          download_to_file up disk href headers tmp s ≡ (
            w.1 && t.complete && disk.flushed,
            record (note (upstream_get href) s) { files = write_file tmp w.0 s.files },
          )
    unfolding download_to_file
    written_to tmp s e = rw e refl

    Run-download :
        (n : ℕ) (s : Lfs)
        → Ends up s.cfg oid s.files s.tmp_counter
            (named n)
            (finish
              (tmp_path s.cfg n)
              (lfs_object_path s.cfg.cache_root oid)
              (download_to_file up disk href headers (tmp_path s.cfg n) s)).1
    Run-download n s =
        let tmp : Bytes = tmp_path s.cfg n in
        let P : Bool × Lfs → Type 0 = λ d.
          Ends up s.cfg oid s.files s.tmp_counter (named n)
            (finish tmp (lfs_object_path s.cfg.cache_root oid) d).1 in
        let t = up.get href headers in
        let w : Bytes × Bool = write_chunks disk t.chunks [] in
        elim (Bool-cases (not (t.connected && disk.file_created))) [
          | inl e ↦
              subst P (sym (refused tmp s e))
                (next no_answer (after_wrong up disk oid well n (note (upstream_get href) s)))
          | inr e ↦ subst P (sym (written_to tmp s e)) (
              next create (
                Run-then up s.cfg oid
                  (Run-write_chunks up s.cfg oid disk n s.tmp_counter s.files t.chunks [])
                  (Run-finish w.1 t.complete disk.flushed n
                    (record (note (upstream_get href) s) { files = write_file tmp w.0 s.files }))))
        ]

    pub Run-fetch_from :
        (s : Lfs)
        → Ends up s.cfg oid s.files s.tmp_counter locked
            (fetch_from up disk href headers oid (lfs_object_path s.cfg.cache_root oid) s).1
    unfolding fetch_from
    Run-fetch_from s =
        Ends-either up disk oid well s.cfg s.files s.tmp_counter locked (not disk.incoming_created)
          _ _ (next no_action still)
          (next number
            (Run-download s.tmp_counter (record s { tmp_counter = (s.tmp_counter + 1) % u64_mod })))
