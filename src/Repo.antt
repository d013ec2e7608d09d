-- ===== src/Repo.antt =====
-- src/repo.rs: from a request path to the repository's name, its upstream URL and its place on disk.
pub mod Resolve
pub mod Staging
pub mod Objects
pub mod Endpoints
mod Tests
use git_cache_proxy.Base.{
  ℕ, Bytes, codes, bytes_eq, strip_suffix, trim_start_matches, trim_end_matches, find, contains,
  starts_with, split, take, drop, length, all, List, [], ◌∷◌, ◌++◌, Bool, true, false, ◌&&◌, ◌||◌,
  not, Option, none, some, Result, ok, err, leb, ◌==◌, if◌then◌else◌,
}
use mathlib.Core.Option
use git_cache_proxy.FilePath.{path_join, path_starts_with}

pub record RepoRef : Type 0 where
  pub name : Bytes
  pub upstream_url : Bytes
  pub cache_dir : Bytes

-- The four refusals of `resolve`, each with the name that its message quotes.
pub data ResolveError : Type 0 where
  invalid_path : Bytes → ResolveError
  invalid_component : Bytes → ResolveError
  reserved_suffix : Bytes → ResolveError
  escapes_root : Bytes → ResolveError

abbrev pub incoming_suffix : Bytes
incoming_suffix = codes ".__incoming__"

abbrev pub evicting_suffix : Bytes
evicting_suffix = codes ".__evicting__"

abbrev pub lfs_objects_dir : Bytes
lfs_objects_dir = codes ".__lfs__"

abbrev pub lfs_marker : Bytes
lfs_marker = codes "/info/lfs/objects/"

unfoldable pub repo_name_from_path : Bytes → Bytes → Option Bytes
repo_name_from_path path suffix =
    Option.map (trim_end_matches b'/')
      (strip_suffix (trim_start_matches b'/' suffix) (trim_start_matches b'/' path))

unfoldable pub lfs_batch_repo : Bytes → Option Bytes
unfolding repo_name_from_path
lfs_batch_repo path = repo_name_from_path path (lfs_marker ++ codes "batch")

unfoldable pub is_oid_byte : ℕ → Bool
is_oid_byte b = (leb b'0' b && leb b b'9') || (leb b'a' b && leb b b'f')

unfoldable pub valid_lfs_oid : Bytes → Bool
unfolding is_oid_byte
valid_lfs_oid oid = length oid == 64 && all is_oid_byte oid

unfoldable pub split_object : Bytes → ℕ → Option (Bytes × Bytes)
split_object p idx =
    let repo = take idx p in
    let oid = drop (length lfs_marker) (drop idx p) in
    if bytes_eq repo [] || not (valid_lfs_oid oid) then none else some (repo, oid)

unfoldable pub lfs_object_from_path : Bytes → Option (Bytes × Bytes)
unfolding split_object
lfs_object_from_path path =
    let p = trim_start_matches b'/' path in
    elim (find lfs_marker p) [ none ↦ none | some idx ↦ split_object p idx ]

unfoldable pub lfs_object_key : Bytes → Bytes
lfs_object_key oid = lfs_objects_dir ++ (b'/' ∷ (take 2 oid ++ (b'/' ∷ oid)))

unfoldable pub lfs_object_path : Bytes → Bytes → Bytes
unfolding lfs_object_key
lfs_object_path cache_root oid = path_join cache_root (lfs_object_key oid)

abbrev pub bad_component : Bytes → Bool
bad_component comp = bytes_eq comp [] || bytes_eq comp (codes ".") || bytes_eq comp (codes "..")

-- The three reserved texts of `resolve`.
abbrev pub is_reserved : Bytes → Bool
is_reserved name =
    contains incoming_suffix name || contains evicting_suffix name || contains lfs_objects_dir name

abbrev pub malformed : Bytes → Bool
malformed name = bytes_eq name [] || contains (0 ∷ []) name || starts_with (codes "/") name

unfoldable pub resolve : Bytes → Bytes → Bytes → Result ResolveError RepoRef
resolve name upstream_base cache_root =
    let cache_dir = path_join cache_root name in
    if malformed name
    then err (invalid_path name)
    else if not (all (λ comp. not (bad_component comp)) (split b'/' name))
    then err (invalid_component name)
    else if is_reserved name
    then err (reserved_suffix name)
    else if not (path_starts_with cache_dir cache_root)
    then err (escapes_root name)
    else ok (record {
      name = name;
      upstream_url = trim_end_matches b'/' upstream_base ++ (b'/' ∷ name);
      cache_dir = cache_dir;
    })
