-- ===== src/Git/MirrorTests.antt =====
-- The retries and the mirrors of src/git.rs at concrete inputs.
use git_cache_proxy.Base.{
  ℕ, zero, suc, ◌+◌, Bytes, codes, bytes_eq, strip_suffix, contains, ends_with, split, List, [],
  ◌∷◌, map, Bool, true, false, Option, none, some, ok, err, ◌≡◌, ◌↔◌, refl, arith, insert, All,
}
use git_cache_proxy.Repo.{RepoRef}
use git_cache_proxy.Git.Diagnostics.{transient_status, dns_failed, transient_upstream_error}
use git_cache_proxy.Git.Retry.{
  Attempt, run_attempt, Exit, exited, dir_removed, dir_not_found, run_upstream, upstream_failed,
}
use git_cache_proxy.Git.Retry.Attempts.{EndsWell, run_upstream_iff}
use git_cache_proxy.Git.Mirrors.{
  clone_mirror, fetch, GitCache, GitConfig, Answers, cloned, fetched, cached, upstream,
  ensure_fresh, evict_mirror, last, find_slot, is_stale,
}
use git_cache_proxy.Git.Mirrors.Freshness.{ensure_fresh_lem, pulled_once}
use git_cache_proxy.Git.Mirrors.Pulled.{needed, Pulled}
use git_cache_proxy.Git.Mirrors.Pulls.{pulls}
use git_cache_proxy.Git.Mirrors.Failures.{named, ensure_fresh_failed, ensure_fresh_succeeds}
use git_cache_proxy.Git.Mirrors.Pins.{capped, wants_capped}
use git_cache_proxy.Git.Mirrors.Lines.{IsLine, IsClear, terminate, reply_line}

reads_status :
    transient_upstream_error (codes "fatal: The requested URL returned error: 503 \n")
    ≡ some transient_status
unfolding transient_upstream_error contains ends_with split strip_suffix bytes_eq
reads_status = refl

reads_dns :
    transient_upstream_error (codes "fatal: Could not resolve host: example.com") ≡ some dns_failed
unfolding transient_upstream_error contains ends_with split strip_suffix bytes_eq
reads_dns = refl

permanent_first :
    transient_upstream_error (codes "curl 56 Recv failure: Connection reset\nAuthentication failed")
    ≡ none
unfolding transient_upstream_error contains ends_with split strip_suffix bytes_eq
permanent_first = refl

abbrev pub ends : Exit → List Bytes → Attempt
ends e chunks = record {
  clean_before = dir_not_found;
  spawned = true;
  chunks = chunks;
  read_ok = true;
  exit = some e;
  clean_after = dir_removed;
}

-- The first attempt is cut off, the others succeed.
abbrev flaky : ℕ → Attempt
flaky zero = ends (exited 128) (codes "error: Connection " ∷ codes "reset" ∷ [])
flaky (suc n) = ends (exited 0) []

abbrev refused : ℕ → Attempt
refused n = ends (exited 128) (codes "fatal: Authentication failed" ∷ [])

flaky_succeeds : (run_upstream true flaky).1 ≡ ok tt
unfolding run_upstream transient_upstream_error contains ends_with split strip_suffix bytes_eq
    run_attempt
flaky_succeeds = refl

refused_fails : (run_upstream true refused).1 ≡ err (upstream_failed 1 none)
unfolding run_upstream transient_upstream_error contains ends_with split strip_suffix bytes_eq
    run_attempt
refused_fails = refl

run_upstream_iff_example : ((run_upstream true flaky).1 ≡ ok tt) ↔ EndsWell true flaky 0 4
run_upstream_iff_example = run_upstream_iff true flaky

abbrev repo : RepoRef
repo = record {
  name = codes "a/b";
  upstream_url = codes "https://example.com/a/b";
  cache_dir = codes "/cache/a/b";
}

abbrev pub answers_at : ℕ → (ℕ → Attempt) → Answers
answers_at t world = record {
  started = t;
  now = t;
  parent_created = true;
  clone = world;
  renamed = true;
  fetch = world;
  cat_file = some (codes "1111 missing\n2222 commit 9\n");
  want_fetch = some true;
  for_each_ref = some (codes "refs/proxy-wants/3\nrefs/proxy-wants/2\n");
  update_ref = true;
}

abbrev pub config : GitConfig
config = record { fetch_ttl = 10; max_wants = 1; has_index = true }

abbrev pub empty : GitCache
empty = record { cfg = config; slots = []; mirrors = []; events = [] }

-- The mirror is there, pulled at 5.
abbrev warm : GitCache
warm = record {
  cfg = config;
  slots = (repo.name, some 5) ∷ [];
  mirrors = repo.cache_dir ∷ [];
  events = [];
}

clones : (ensure_fresh repo true [] (answers_at 5 flaky) empty).0 ≡ ok cloned
unfolding ensure_fresh run_upstream transient_upstream_error contains ends_with split strip_suffix
    bytes_eq insert find_slot clone_mirror fetch is_stale last run_attempt
clones = refl

clone_refused :
    (ensure_fresh repo true [] (answers_at 5 refused) empty).0
    ≡ err (upstream (upstream_failed 1 none))
unfolding ensure_fresh run_upstream transient_upstream_error contains ends_with split strip_suffix
    bytes_eq insert find_slot clone_mirror fetch is_stale last run_attempt
clone_refused = refl

fetches : (ensure_fresh repo true [] (answers_at 20 flaky) warm).0 ≡ ok fetched
unfolding ensure_fresh run_upstream transient_upstream_error contains ends_with split strip_suffix
    bytes_eq insert find_slot clone_mirror fetch is_stale last run_attempt
fetches = refl

evicts : (evict_mirror repo.name repo.cache_dir true warm).0 ≡ true
unfolding evict_mirror bytes_eq find_slot
evicts = refl

reclones :
    (ensure_fresh repo true []
      (answers_at 6 flaky)
      (evict_mirror repo.name repo.cache_dir true warm).1).0
    ≡ ok cloned
unfolding ensure_fresh evict_mirror run_upstream transient_upstream_error contains ends_with split
    strip_suffix bytes_eq insert find_slot clone_mirror fetch is_stale last run_attempt
reclones = refl

ensure_fresh_lem_example :
    (cloned ≡ needed repo true (answers_at 5 flaky) empty)
    × Pulled repo
        (answers_at 5 flaky)
        empty
        cloned
        (ensure_fresh repo true [] (answers_at 5 flaky) empty).1
ensure_fresh_lem_example = ensure_fresh_lem repo true [] (answers_at 5 flaky) empty cloned clones

pulled_once_example :
    ((ensure_fresh repo true []
        (answers_at 9 refused)
        (ensure_fresh repo true [] (answers_at 5 flaky) empty).1).0
      ≡ ok cached)
    × (pulls
          (ensure_fresh repo true []
            (answers_at 9 refused)
            (ensure_fresh repo true [] (answers_at 5 flaky) empty).1).1.events
        ≡ 1 + pulls empty.events)
pulled_once_example =
    pulled_once repo true true [] [] (answers_at 5 flaky) (answers_at 9 refused) empty cloned clones
      refl (omega arith)

ensure_fresh_failed_example :
    ((j : Bytes) → last j (ensure_fresh repo true [] (answers_at 5 refused) empty).1 ≡ last j empty)
    × ((ensure_fresh repo true [] (answers_at 5 refused) empty).1.mirrors ≡ [])
    × (named (ensure_fresh repo true [] (answers_at 5 refused) empty).1.events ≡ [])
ensure_fresh_failed_example =
    ensure_fresh_failed repo true [] (answers_at 5 refused) empty
      (upstream (upstream_failed 1 none)) clone_refused

abbrev pub steady : ℕ → Attempt
steady n = ends (exited 0) []

steady_succeeds : (staging : Bool) → (run_upstream staging steady).1 ≡ ok tt
unfolding run_upstream run_attempt
steady_succeeds true = refl
steady_succeeds false = refl

ensure_fresh_succeeds_example :
    (ensure_fresh repo true [] (answers_at 20 steady) warm).0
    ≡ ok (needed repo true (answers_at 20 steady) warm)
ensure_fresh_succeeds_example =
    ensure_fresh_succeeds repo true [] (answers_at 20 steady) warm (steady_succeeds true)
      (steady_succeeds false) refl refl

wants_capped_example :
    capped 1 (ensure_fresh repo true [] (answers_at 20 flaky) warm).1.events ≡ true
wants_capped_example = wants_capped repo true [] (answers_at 20 flaky) warm (omega arith) refl

abbrev replies : List (Bytes × Option Bytes)
replies = (codes "11", none) ∷ (codes "22", some (codes "22 commit 9")) ∷ []

abbrev pins : List Bytes
pins = codes "p/3" ∷ codes "p/2" ∷ []

-- The same, with git's answers about `replies` and `pins`.
abbrev listing_answers : Answers
listing_answers = record (answers_at 5 steady) {
  cat_file = some (terminate (map reply_line replies));
  for_each_ref = some (terminate pins);
}

pins-IsLine : All IsLine pins
unfolding strip_suffix bytes_eq
pins-IsLine =
    (record { one = omega arith; no_cr = refl }, (record { one = omega arith; no_cr = refl }, tt))

replies-IsLine : All IsLine (map reply_line replies)
unfolding strip_suffix bytes_eq
replies-IsLine =
    (record { one = omega arith; no_cr = refl }, (record { one = omega arith; no_cr = refl }, tt))

replies-IsClear : All IsClear replies
unfolding strip_suffix bytes_eq
replies-IsClear = (tt, (refl, tt))
