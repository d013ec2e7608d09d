-- ===== src/Repo/Tests.antt =====
-- Runs of src/repo.rs, after its own unit tests, and the theorems at concrete inputs.
use git_cache_proxy.Base.{
  Bytes, codes, bytes_eq, contains, split, trim_start_matches, trim_end_matches, find, [], ◌++◌,
  map, ◌≡◌, ◌≢◌, refl, true, some, ok, err, All, ◌↔◌,
}
use git_cache_proxy.FilePath.{normal, components, path_join, path_starts_with, need_sep, body, lead}
use git_cache_proxy.FilePath.Join.{IsPlain}
use git_cache_proxy.Repo.{
  RepoRef, invalid_component, reserved_suffix, incoming_suffix, evicting_suffix,
  lfs_object_from_path, valid_lfs_oid, lfs_object_path, resolve,
}
use git_cache_proxy.Repo.Resolve.{IsRepoName, resolve_contained, resolve_iff}
use git_cache_proxy.Repo.Staging.{staging_disjoint}
use git_cache_proxy.Repo.Objects.{repo_outside_store}

abbrev name : Bytes
name = codes "g/r.git"

abbrev base : Bytes
base = codes "https://up/"

abbrev root : Bytes
root = codes "/cache"

abbrev mirror : RepoRef
mirror = record {
  name = name;
  upstream_url = codes "https://up/g/r.git";
  cache_dir = codes "/cache/g/r.git";
}

abbrev oid : Bytes
oid = codes "0123456789abcdef0123456789abcdef0123456789abcdef0123456789abcdef"

resolves : resolve name base root ≡ ok mirror
unfolding resolve bytes_eq contains split path_join need_sep path_starts_with body lead
    trim_end_matches
resolves = refl

rejects_traversal :
    resolve (codes "a/../../b") base root ≡ err (invalid_component (codes "a/../../b"))
unfolding resolve bytes_eq contains split
rejects_traversal = refl

rejects_staging :
    resolve (codes "a/b.__incoming__") base root ≡ err (reserved_suffix (codes "a/b.__incoming__"))
unfolding resolve bytes_eq contains split
rejects_staging = refl

oid_valid : valid_lfs_oid oid ≡ true
unfolding valid_lfs_oid
oid_valid = refl

name-IsRepoName : IsRepoName name
name-IsRepoName = (resolve_iff name base root).1 (mirror, resolves)

resolve_contained_example :
    (components mirror.cache_dir ≡ components root ++ map normal (split b'/' name))
    × All IsPlain (split b'/' name)
    × (split b'/' name ≢ [])
resolve_contained_example = resolve_contained name base root mirror resolves

resolve_iff_example : IsRepoName name ↔ ((r : RepoRef) × (resolve name base root ≡ ok r))
resolve_iff_example = resolve_iff name base root

staging_disjoint_example :
    (components (mirror.cache_dir ++ incoming_suffix) ≢ components mirror.cache_dir)
    × (components (mirror.cache_dir ++ evicting_suffix) ≢ components mirror.cache_dir)
    × (components (mirror.cache_dir ++ incoming_suffix)
        ≢ components (mirror.cache_dir ++ evicting_suffix))
staging_disjoint_example = staging_disjoint name name base root mirror mirror resolves resolves

repo_outside_store_example :
    (components mirror.cache_dir ++ [] ≢ components (lfs_object_path root oid))
    × (components mirror.cache_dir ≢ components (lfs_object_path root oid) ++ [])
repo_outside_store_example = repo_outside_store name base root oid mirror [] resolves oid_valid

object_url_path : Bytes
object_url_path = codes "/g/r.git/info/lfs/objects/" ++ oid

object_parsed : lfs_object_from_path object_url_path ≡ some (name, oid)
unfolding object_url_path lfs_object_from_path valid_lfs_oid find trim_start_matches bytes_eq
object_parsed = refl
