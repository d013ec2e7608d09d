-- ===== src/Server/Ready.antt =====
-- The readiness probe of src/server.rs: it writes and removes a file in the cache root.
use git_cache_proxy.Base.{
  Bytes, codes, bytes_eq_iff, List, [], Bool, true, false, not, ◌&&◌, some, if◌then◌else◌, ◌≡◌, ◌≢◌,
  arith,
}
use git_cache_proxy.FilePath.{path_join}
use git_cache_proxy.Lfs.{find_file, remove_file, write_file}
use git_cache_proxy.Lfs.Files.{find-remove_file, find-write_file}
use git_cache_proxy.Server.{Response, respond}

-- What the disk answers to `create_dir_all`, `write` and `remove_file`.
pub record Probe : Type 0 where
  pub created : Bool
  pub written : Bool
  pub removed : Bool

abbrev pub probe_path : Bytes → Bytes
probe_path cache_root = path_join cache_root (codes ".readyz-probe")

-- Whether the root is writable, and the files then.
unfoldable pub cache_writable : Probe → Bytes → List (Bytes × Bytes) → Bool × List (Bytes × Bytes)
unfolding remove_file write_file
cache_writable disk cache_root files =
    let probe = probe_path cache_root in
    if not (disk.created && disk.written) then (false, files) else (
      true,
      if disk.removed
          then remove_file probe (write_file probe [] files)
          else write_file probe [] files,
    )

unfoldable pub readyz : Probe → Bytes → List (Bytes × Bytes) → Response × List (Bytes × Bytes)
unfolding cache_writable
readyz disk cache_root files =
    let (writable, after) = cache_writable disk cache_root files in
    (
      if writable then (200, some (codes "ok")) else respond 503 (codes "cache root not writable"),
      after,
    )

-- The probe answers 200 exactly if the directory can be made and the file be written, and 503
-- otherwise; no other file is changed.
pub readyz_lem :
    (disk : Probe) (cache_root p : Bytes) (files : List (Bytes × Bytes))
    → p ≢ probe_path cache_root
    → ((readyz disk cache_root files).0.0 ≡ (if disk.created && disk.written then 200 else 503))
      × (find_file p (readyz disk cache_root files).1 ≡ find_file p files)
unfolding readyz
readyz_lem disk cache_root p files n =
    let probe = probe_path cache_root in
    (
      ground arith,
      ground (
        arith,
        n,
        bytes_eq_iff probe p,
        bytes_eq_iff p probe,
        find-remove_file probe p (write_file probe [] files),
        find-write_file probe p [] files,
      ),
    )
