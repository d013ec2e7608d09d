-- ===== src/Start.antt =====
-- src/main.rs and src/config.rs: how the configuration becomes the state that serves requests. The
-- command line is read by `clap`; what it gives is the argument.
pub mod Session
mod Tests
use git_cache_proxy.Base.{
  ℕ, zero, suc, ◌+◌, ◌-◌, ◌*◌, ◌≤◌, ◌<◌, Bytes, codes, bytes_eq, bytes_eq_iff, List, [], ◌∷◌, ◌++◌,
  Bool, true, false, not, Option, none, some, if◌then◌else◌, ltb, trim_end_matches, u64_mod, ◌≡◌,
  ◌≢◌, refl, sym, ap, ◌∙◌, arith, Bool-cases, inl, inr, is_some,
}
use git_cache_proxy.FilePath.{path_join, path_starts_with}
use git_cache_proxy.Repo.{lfs_objects_dir, valid_lfs_oid, lfs_object_path}
use git_cache_proxy.Git.Mirrors.{GitConfig, GitCache}
use git_cache_proxy.Git.Commands.{CommandConfig}
use git_cache_proxy.Lfs.{Lfs, LfsConfig, Upstream, incoming_dir, find_file, sha256_hex}
use git_cache_proxy.Lfs.Integrity.{IsIntact}
use git_cache_proxy.Server.{App}

-- The options that the state is made from.
pub record Config : Type 0 where
  pub cache_root : Bytes
  pub upstream : Bytes
  pub upstream_auth_header : Option Bytes
  pub serve_token : Option Bytes
  pub fetch_ttl_seconds : ℕ
  pub max_concurrent_upload_packs : ℕ
  pub max_decoded_body_mb : ℕ
  pub cache_max_mb : ℕ
  pub max_wants : ℕ
  pub git_binary : Bytes
  pub big_file_threshold : Bytes
  pub pack_threads : Option ℕ
  pub pack_window_memory : Option Bytes

-- `u64::saturating_mul`; a `usize` has 64 bits too.
unfoldable pub saturating_mul : ℕ → ℕ → ℕ
saturating_mul a b = if ltb (a * b) u64_mod then a * b else u64_mod - 1

-- A header that is blank is none; `trim` is `str::trim`.
unfoldable pub nonblank_header : (Bytes → Bytes) → Option Bytes → Option Bytes
nonblank_header trim none = none
nonblank_header trim (some raw) = if bytes_eq (trim raw) [] then none else some (trim raw)

unfoldable pub cache_cap : Config → ℕ
unfolding saturating_mul
cache_cap cfg = saturating_mul cfg.cache_max_mb (1024 * 1024)

-- The cap of the index, if there is one.
unfoldable pub index_cap : Config → Option ℕ
unfolding cache_cap
index_cap cfg = if ltb 0 cfg.cache_max_mb then some (cache_cap cfg) else none

unfoldable pub git_cfg : Config → GitConfig
git_cfg cfg = record {
  fetch_ttl = cfg.fetch_ttl_seconds;
  max_wants = cfg.max_wants;
  has_index = ltb 0 cfg.cache_max_mb;
}

unfoldable pub command_cfg : (Bytes → Bytes) → Config → CommandConfig
unfolding nonblank_header
command_cfg trim cfg = record {
  git_binary = cfg.git_binary;
  upstream_auth_header = nonblank_header trim cfg.upstream_auth_header;
  big_file_threshold = cfg.big_file_threshold;
  pack_threads = cfg.pack_threads;
  pack_window_memory = cfg.pack_window_memory;
}

unfoldable pub upstream_base : Config → Bytes
upstream_base cfg = trim_end_matches b'/' cfg.upstream

unfoldable pub lfs_cfg : (Bytes → Bytes) → ℕ → Config → LfsConfig
unfolding nonblank_header upstream_base
lfs_cfg trim process_id cfg = record {
  upstream_base = upstream_base cfg;
  cache_root = cfg.cache_root;
  upstream_auth_header = nonblank_header trim cfg.upstream_auth_header;
  serve_token = cfg.serve_token;
  has_index = ltb 0 cfg.cache_max_mb;
  process_id = process_id;
}

-- `remove_dir_all`, if it succeeds: the files at or below the directory are gone.
unfoldable pub remove_dir_all : Bytes → List (Bytes × Bytes) → List (Bytes × Bytes)
remove_dir_all dir [] = []
remove_dir_all dir ((p, c) ∷ l) =
    let rest = remove_dir_all dir l in if path_starts_with p dir then rest else (p, c) ∷ rest

-- `files` and `mirrors` are what is below the cache root.
unfoldable pub start : (Bytes → Bytes) → ℕ → Bool → Config → List (Bytes × Bytes) → List Bytes → App
unfolding git_cfg lfs_cfg upstream_base saturating_mul remove_dir_all
start trim process_id removed cfg files mirrors = record {
  serve_token = cfg.serve_token;
  upstream_base = upstream_base cfg;
  cache_root = cfg.cache_root;
  max_decoded_body = saturating_mul cfg.max_decoded_body_mb (1024 * 1024);
  cache = record { cfg = git_cfg cfg; slots = []; mirrors = mirrors; events = [] };
  lfs = record {
    cfg = lfs_cfg trim process_id cfg;
    files =
        if removed
        then remove_dir_all (path_join (path_join cfg.cache_root lfs_objects_dir) incoming_dir)
            files
        else files;
    slots = [];
    tmp_counter = 0;
    events = [];
  };
  recorded = [];
}

abbrev pub smaller : ℕ → ℕ → ℕ
smaller a b = if ltb b a then b else a

find-remove_dir_all :
    (dir p : Bytes) (files : List (Bytes × Bytes))
    → find_file p (remove_dir_all dir files)
      ≡ (if path_starts_with p dir then none else find_file p files)
unfolding remove_dir_all find_file
find-remove_dir_all dir p [] = ground arith
find-remove_dir_all dir p ((q, c) ∷ l) =
    ground (arith, find-remove_dir_all dir p l, bytes_eq_iff q p)

-- A header that is sent to the upstream is what was configured without the blanks around it, and is
-- not empty.
header_given :
    (trim : Bytes → Bytes) (raw : Option Bytes) (h : Bytes)
    → nonblank_header trim raw ≡ some h
    → (h ≢ []) × ((r : Bytes) × (raw ≡ some r) × (trim r ≡ h))
unfolding nonblank_header
header_given trim none h e = absurd (ground (arith, e))
header_given trim (some r) h e =
    (ground (arith, e, bytes_eq_iff (trim r) []), (r, refl, ground (arith, e)))

pub store_started :
    (up : Upstream) (trim : Bytes → Bytes) (process_id : ℕ) (removed : Bool) (cfg : Config)
    (files : List (Bytes × Bytes)) (mirrors : List Bytes)
    → ((oid content : Bytes)
        → valid_lfs_oid oid ≡ true
        → find_file (lfs_object_path cfg.cache_root oid) files ≡ some content
        → sha256_hex up content ≡ oid)
    → IsIntact up (start trim process_id removed cfg files mirrors).lfs
unfolding start lfs_cfg
store_started up trim process_id true cfg files mirrors intact oid content v f =
    let dir = path_join (path_join cfg.cache_root lfs_objects_dir) incoming_dir in
    intact oid content v
      (ground (arith, f, find-remove_dir_all dir (lfs_object_path cfg.cache_root oid) files))
store_started up trim process_id false cfg files mirrors intact oid content v f =
    intact oid content v f

-- If every object's file on the disk has the content that its name says, the store that the process
-- starts with is intact, whether or not the downloads that a crash left could be removed; and a header
-- that its requests carry is the configured one without the blanks around it, and not empty.
pub start-IsIntact :
    (up : Upstream) (trim : Bytes → Bytes) (process_id : ℕ) (removed : Bool) (cfg : Config)
    (files : List (Bytes × Bytes)) (mirrors : List Bytes) (h : Bytes)
    → ((oid content : Bytes)
        → valid_lfs_oid oid ≡ true
        → find_file (lfs_object_path cfg.cache_root oid) files ≡ some content
        → sha256_hex up content ≡ oid)
    → (start trim process_id removed cfg files mirrors).lfs.cfg.upstream_auth_header ≡ some h
    → IsIntact up (start trim process_id removed cfg files mirrors).lfs
      × (h ≢ [])
      × ((r : Bytes) × (cfg.upstream_auth_header ≡ some r) × (trim r ≡ h))
unfolding start lfs_cfg
start-IsIntact up trim process_id removed cfg files mirrors h intact e =
    let (full, raw) = header_given trim cfg.upstream_auth_header h e in
    (store_started up trim process_id removed cfg files mirrors intact, full, raw)

-- With a cap of zero there is no index; otherwise the cap of the index is the configured number of
-- mebibytes in bytes, or the largest `u64` if that is less. It is never zero, and git and the store
-- of objects keep the index exactly when there is one.
pub index_cap_lem :
    (trim : Bytes → Bytes) (process_id : ℕ) (removed : Bool) (cfg : Config)
    (files : List (Bytes × Bytes)) (mirrors : List Bytes)
    → (index_cap cfg ≡ (
        if ltb 0 cfg.cache_max_mb
        then some (smaller (cfg.cache_max_mb * 1048576) (u64_mod - 1))
        else none))
      × (index_cap cfg ≢ some 0)
      × ((start trim process_id removed cfg files mirrors).cache.cfg.has_index
          ≡ is_some (index_cap cfg))
      × ((start trim process_id removed cfg files mirrors).lfs.cfg.has_index
          ≡ is_some (index_cap cfg))
unfolding start lfs_cfg git_cfg index_cap cache_cap saturating_mul
index_cap_lem trim process_id removed cfg files mirrors =
    (ground arith, ground arith, ground arith, ground arith)
