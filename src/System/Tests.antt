-- ===== src/System/Tests.antt =====
-- A process that starts on an empty disk and clones one repository, step by step.
use git_cache_proxy.Base.{
  Bytes, codes, to_decimal, bytes_eq, bytes_eq_refl, contains, ends_with, split, strip_suffix,
  trim_end_matches, [], mem, insert, true, false, some, ok, ◌≡◌, ◌⊎◌, refl, arith,
}
use git_cache_proxy.FilePath.{path_join, path_starts_with, need_sep, body, lead}
use git_cache_proxy.Lru.{lookup}
use git_cache_proxy.Lru.ListCache.{list_cache}
use git_cache_proxy.Repo.{RepoRef, resolve, lfs_object_key, lfs_object_path}
use git_cache_proxy.Repo.Resolve.{resolve-eq-ok}
use git_cache_proxy.Evict.{State, mark_changed, record_blob, reconcile_missing, cache_dir}
use git_cache_proxy.Evict.Maintain.{is_lfs_blob}
use git_cache_proxy.Evict.Refetched.{sweep_meanwhile}
use git_cache_proxy.Git.Retry.{run_upstream, run_attempt}
use git_cache_proxy.Git.Diagnostics.{transient_upstream_error}
use git_cache_proxy.Git.Wants.{parse_wants, frame_length}
use git_cache_proxy.Git.Mirrors.{ensure_fresh, find_slot, clone_mirror, fetch, is_stale, last}
use git_cache_proxy.Git.MirrorTests.{empty, answers_at, steady}
use git_cache_proxy.Lfs.Integrity.{IsIntact}
use git_cache_proxy.Lfs.Samples.{
  sample_json, sample_upstream, sample_disk, sample_store, sample_store-IsIntact, sample_oid,
  sample_oid_valid,
}
use git_cache_proxy.System.{
  World, idle, git_call, lfs_call, repo_asked, object_asked, Reach, initial, after,
}
use git_cache_proxy.System.Tracked.{is_tracked, names}
use git_cache_proxy.System.Names.{keys_lead_home}
use git_cache_proxy.System.Accounted.{victims_of}
use git_cache_proxy.Lfs.{find_file, ensure_object, write_file, tmp_path, sha256_hex}
use git_cache_proxy.Lfs.Batch.{parse_download_action}
use git_cache_proxy.System.Downloads.{there}
use git_cache_proxy.System.Objects.Safety.{HasObjects, at_start, calmly, objects_accounted}
use git_cache_proxy.System.Safety.{Starts, mirrors_accounted, reached-IsIntact}

abbrev name : Bytes
name = codes "g/r.git"

abbrev base : Bytes
base = codes "https://up/"

abbrev root : Bytes
root = codes "/c"

abbrev mirror : RepoRef
mirror = record {
  name = name;
  upstream_url = codes "https://up/g/r.git";
  cache_dir = codes "/c/g/r.git";
}

resolves : resolve name base root ≡ ok mirror
unfolding resolve bytes_eq contains split path_join need_sep path_starts_with body lead
    trim_end_matches
resolves = refl

abbrev index : State list_cache
index = record {
  cache_root = root;
  max_bytes = 60;
  cache = list_cache.unbounded;
  dirty = [];
  total = 0;
  effects = [];
}

abbrev first : World list_cache
first = record { index = index; git = empty; lfs = sample_store; phase = idle; escaped = [] }

first-Starts : Starts list_cache sample_json sample_upstream base root first
first-Starts = record {
  on = refl;
  at_root = refl;
  at_rest = refl;
  in_index = λ k legal there. absurd (cc there);
}

abbrev cloned : World list_cache
cloned = git_call list_cache mirror true [] (answers_at 5 steady) first

clone-Reach : Reach list_cache sample_json sample_upstream base first cloned
clone-Reach = after initial (repo_asked name mirror true [] (answers_at 5 steady) resolves)

cloned_there : mem (path_join root name) cloned.git.mirrors ≡ true
unfolding git_call ensure_fresh run_upstream transient_upstream_error contains ends_with split
    strip_suffix bytes_eq insert find_slot clone_mirror fetch is_stale last run_attempt path_join
    need_sep parse_wants frame_length
cloned_there = refl

mirrors_accounted_example :
    (is_tracked list_cache name cloned.index ≡ true)
    ⊎ ((mem name (names list_cache (victims_of cloned.phase)) ≡ true)
        ⊎ (mem name cloned.escaped ≡ true))
mirrors_accounted_example =
    mirrors_accounted list_cache sample_json sample_upstream base root first cloned name
      first-Starts clone-Reach (resolve-eq-ok name base root mirror resolves).0 cloned_there

abbrev downloaded : World list_cache
downloaded =
    lfs_call list_cache sample_json sample_upstream sample_disk name sample_oid (some 4) cloned

downloaded-IsIntact : IsIntact sample_upstream downloaded.lfs
downloaded-IsIntact =
    reached-IsIntact list_cache sample_json sample_upstream base root first downloaded
      sample_store-IsIntact
      (after clone-Reach (object_asked sample_disk name sample_oid (some 4) sample_oid_valid))

keys_lead_home_example :
    (mirror.name ≡ name)
    × (cache_dir list_cache index name ≡ mirror.cache_dir)
    × (is_lfs_blob name ≡ false)
    × (cache_dir list_cache index (lfs_object_key sample_oid) ≡ lfs_object_path root sample_oid)
    × (is_lfs_blob (lfs_object_key sample_oid) ≡ true)
keys_lead_home_example =
    keys_lead_home list_cache index name base sample_oid mirror resolves sample_oid_valid

-- An object whose file an operator deleted.
abbrev key : Bytes
key = lfs_object_key sample_oid

abbrev lost : State list_cache
lost = record_blob list_cache key 4 index

lost_tracked : is_tracked list_cache key lost ≡ true
unfolding record_blob lookup
lost_tracked = ground (arith, bytes_eq_refl key)

sweep_meanwhile_example :
    (is_tracked list_cache key
        (reconcile_missing list_cache (λ d. true) true (mark_changed list_cache key) lost)
      ≡ true)
    × (is_tracked list_cache key
          (reconcile_missing list_cache (λ d. true) true (record_blob list_cache key 4) lost)
        ≡ false)
unfolding record_blob
sweep_meanwhile_example = sweep_meanwhile list_cache (λ d. true) lost key 4 lost_tracked refl refl

first-HasObjects : HasObjects list_cache sample_json sample_upstream base root first
unfolding find_file
first-HasObjects = record { on = refl; at_root = refl; in_index = λ o valid e. absurd (cc e) }

abbrev stored : World list_cache
stored = lfs_call list_cache sample_json sample_upstream sample_disk name sample_oid (some 4) first

stored_there : there sample_oid stored.lfs ≡ true
unfolding lfs_call ensure_object find_file parse_download_action bytes_eq write_file tmp_path
    path_join to_decimal sha256_hex lfs_object_path
stored_there = refl

objects_accounted_example :
    (is_tracked list_cache key stored.index ≡ true)
    ⊎ ((mem key (names list_cache (victims_of stored.phase)) ≡ true)
        ⊎ (mem key stored.escaped ≡ true))
objects_accounted_example =
    objects_accounted list_cache sample_json sample_upstream base root first stored sample_oid
      first-Starts first-HasObjects
      (calmly at_start (object_asked sample_disk name sample_oid (some 4) sample_oid_valid) refl)
      sample_oid_valid stored_there
