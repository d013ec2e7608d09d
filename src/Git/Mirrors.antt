-- ===== src/Git/Mirrors.antt =====
-- `GitCache` of src/git.rs: the mirrors, when they are pulled from upstream, and how they are
-- evicted. A call holds the slot of its repository to its end, so it is one function of the state;
-- what git, the disk and the clock answer is its argument `Answers`.
pub mod Slots
pub mod Pulls
pub mod Pulled
pub mod Freshness
pub mod Failures
pub mod Pins
pub mod Lines
use git_cache_proxy.Base.{
  ℕ, zero, suc, ◌+◌, ◌-◌, Bytes, codes, bytes_eq, List, [], ◌∷◌, ◌++◌, map, Bool, true, false, not,
  ◌&&◌, ◌||◌, Option, none, some, Result, ok, err, length, take, drop, ltb, leb, ◌==◌,
  if◌then◌else◌, split, strip_suffix, mem, insert,
}
use git_cache_proxy.Repo.{RepoRef, incoming_suffix, evicting_suffix}
use git_cache_proxy.Git.Retry.{Attempt, Call, UpstreamError, Finished, run_upstream}
use git_cache_proxy.Git.Wants.{parse_wants}

abbrev pub proxy_wants_ns : Bytes
proxy_wants_ns = codes "refs/proxy-wants"

pub data CacheOutcome : Type 0 where
  cloned fetched cached : CacheOutcome

pub data UpstreamOp : Type 0 where
  clone_op fetch_op want_fetch_op : UpstreamOp

pub data Status : Type 0 where
  status_ok status_error : Status

-- What a call does to the index, the metrics and git. A pull has what `run_upstream` did for it.
pub data Event : Type 0 where
  index_touch index_mark_changed : Bytes → Event
  record_upstream : UpstreamOp → Status → Bytes → Event
  observe_upstream : UpstreamOp → Bytes → Event
  git_clone : Bytes → Bytes → List Call → Event
  git_fetch : Bytes → List Call → Event
  git_fetch_wants : Bytes → List Bytes → Event
  git_update_ref : Bytes → Bytes → Event
  remove_dir : Bytes → Event

-- The fields of `GitConfig` that decide, in the clock's unit.
pub record GitConfig : Type 0 where
  pub fetch_ttl : ℕ
  pub max_wants : ℕ
  pub has_index : Bool

-- `slots` has the start of the last pull of each repository that was asked for. `mirrors` has the
-- directories that hold a `HEAD`. Events are newest first.
pub record GitCache : Type 0 where
  pub cfg : GitConfig
  pub slots : List (Bytes × Option ℕ)
  pub mirrors : List Bytes
  pub events : List Event

-- `started` and `now` are the two readings of the clock. An output is its text, `none` when git could
-- not be started or fed, or failed.
pub record Answers : Type 0 where
  pub started : ℕ
  pub now : ℕ
  pub parent_created : Bool
  pub clone : ℕ → Attempt
  pub renamed : Bool
  pub fetch : ℕ → Attempt
  pub cat_file : Option Bytes
  pub want_fetch : Option Bool
  pub for_each_ref : Option Bytes
  pub update_ref : Bool

pub data FreshError : Type 0 where
  parent_failed rename_failed : FreshError
  upstream : UpstreamError → FreshError

-- The errors that `ensure_fresh` only logs.
pub data WantsError : Type 0 where
  cat_file_failed want_fetch_not_started for_each_ref_failed update_ref_failed : WantsError

unfoldable pub find_slot : Bytes → List (Bytes × Option ℕ) → Option (Option ℕ)
find_slot name [] = none
find_slot name ((k, v) ∷ l) = if bytes_eq k name then some v else find_slot name l

unfoldable pub set_slot : Bytes → Option ℕ → List (Bytes × Option ℕ) → List (Bytes × Option ℕ)
set_slot name w [] = []
set_slot name w ((k, v) ∷ l) =
    let rest = set_slot name w l in if bytes_eq k name then (k, w) ∷ rest else (k, v) ∷ rest

unfoldable pub slot : Bytes → GitCache → GitCache
slot name g = elim (find_slot name g.slots) [
  | none ↦ record g { slots = (name, none) ∷ g.slots }
  | some v ↦ g
]

unfoldable pub last : Bytes → GitCache → Option ℕ
last name g = elim (find_slot name g.slots) [ none ↦ none | some v ↦ v ]

abbrev pub emit : Event → GitCache → GitCache
emit e g = record g { events = e ∷ g.events }

unfoldable pub mark_repo : Bytes → GitCache → GitCache
mark_repo name g = if g.cfg.has_index then emit (index_mark_changed name) g else g

unfoldable pub touch_repo : Bytes → GitCache → GitCache
touch_repo name g = if g.cfg.has_index then emit (index_touch name) g else g

unfoldable pub remove_mirror : Bytes → List Bytes → List Bytes
remove_mirror dir [] = []
remove_mirror dir (d ∷ l) =
    let rest = remove_mirror dir l in if bytes_eq d dir then rest else d ∷ rest

-- `evict`: `renamed` says whether the rename succeeded.
unfoldable pub evict_mirror : Bytes → Bytes → Bool → GitCache → Bool × GitCache
unfolding slot remove_mirror
evict_mirror name dir renamed g0 =
    let g = slot name g0 in
    let trash = dir ++ evicting_suffix in
    if not (mem dir g.mirrors)
    then (true, g)
    else if renamed
    then (
      true,
      record g {
        mirrors = remove_mirror dir g.mirrors;
        events = remove_dir trash ∷ remove_dir trash ∷ g.events;
      },
    )
    else (false, emit (remove_dir trash) g)

-- A successful `clone --mirror`, renamed into place, is a directory with a `HEAD`.
unfoldable pub clone_mirror : RepoRef → Answers → GitCache → Result FreshError (Unit {0}) × GitCache
unfolding mark_repo
clone_mirror repo a g =
    let tmp = repo.cache_dir ++ incoming_suffix in
    let (calls, result) = run_upstream true a.clone in
    let g' = emit (git_clone repo.upstream_url tmp calls) g in
    if not a.parent_created then (err parent_failed, g) else elim result [
      | err e ↦ (err (upstream e), emit (record_upstream clone_op status_error (codes "-")) g')
      | ok _ ↦ if not a.renamed then (err rename_failed, g') else (
        ok tt,
        mark_repo repo.name (
            emit (observe_upstream clone_op repo.name) (
              emit (record_upstream clone_op status_ok repo.name)
                (record g' { mirrors = insert repo.cache_dir g'.mirrors }))),
      )
    ]

unfoldable pub fetch : RepoRef → Answers → GitCache → Result FreshError (Unit {0}) × GitCache
unfolding mark_repo
fetch repo a g =
    let (calls, result) = run_upstream false a.fetch in
    let g' = emit (git_fetch repo.cache_dir calls) g in
    elim result [
      | err e ↦ (err (upstream e), emit (record_upstream fetch_op status_error (codes "-")) g')
      | ok _ ↦ (
        ok tt,
        mark_repo repo.name (
            emit (observe_upstream fetch_op repo.name)
              (emit (record_upstream fetch_op status_ok repo.name) g')),
      )
    ]

-- `str::lines`
unfoldable pub strip_cr : Bytes → Bytes
strip_cr l = elim (strip_suffix (b'\r' ∷ []) l) [ none ↦ l | some r ↦ r ]

unfoldable pub lines_of : List Bytes → List Bytes
unfolding strip_cr
lines_of [] = []
lines_of (l ∷ []) = if bytes_eq l [] then [] else l ∷ []
lines_of (l ∷ m ∷ ls) = strip_cr l ∷ lines_of (m ∷ ls)

unfoldable pub lines : Bytes → List Bytes
unfolding lines_of
lines text = lines_of (split b'\n' text)

unfoldable pub missing_lines : List Bytes → List Bytes
missing_lines [] = []
missing_lines (l ∷ ls) =
    let rest = missing_lines ls in
    elim (strip_suffix (codes " missing") l) [ none ↦ rest | some oid ↦ oid ∷ rest ]

unfoldable pub missing_oids : Answers → Result WantsError (List Bytes)
unfolding missing_lines lines
missing_oids a = elim a.cat_file [
  | none ↦ err cat_file_failed
  | some out ↦ ok (missing_lines (lines out))
]

unfoldable pub deletions : List Bytes → Bytes
deletions [] = []
deletions (r ∷ rs) = codes "delete " ++ (r ++ (b'\n' ∷ deletions rs))

unfoldable pub prune_wants : RepoRef → Answers → GitCache → Result WantsError (Unit {0}) × GitCache
unfolding deletions lines
prune_wants repo a g = if g.cfg.max_wants == 0 then (ok tt, g) else elim a.for_each_ref [
  | none ↦ (err for_each_ref_failed, g)
  | some listing ↦
      let refs = lines listing in
      if leb (length refs) g.cfg.max_wants then (ok tt, g) else (
        if a.update_ref then ok tt else err update_ref_failed,
        emit (git_update_ref repo.cache_dir (deletions (drop g.cfg.max_wants refs))) g,
      )
]

unfoldable pub cap_wants : ℕ → List Bytes → List Bytes
cap_wants cap missing = if ltb 0 cap && ltb cap (length missing) then take cap missing else missing

unfoldable pub fetch_wants :
    RepoRef → Answers → List Bytes → GitCache → Result WantsError (Unit {0}) × GitCache
unfolding mark_repo prune_wants
fetch_wants repo a missing g =
    let g' = emit (git_fetch_wants repo.cache_dir missing) g in
    elim a.want_fetch [
      | none ↦ (err want_fetch_not_started, g)
      | some false ↦ (ok tt, emit (record_upstream want_fetch_op status_error (codes "-")) g')
      | some true ↦ (
        ok tt,
        (prune_wants repo a (
            mark_repo repo.name (
              emit (observe_upstream want_fetch_op repo.name)
                (emit (record_upstream want_fetch_op status_ok repo.name) g')))).1,
      )
    ]

-- From the answer of `missing_oids` on.
unfoldable pub fetch_missing :
    RepoRef
    → Answers
    → Result WantsError (List Bytes)
    → GitCache
    → Result WantsError (Unit {0}) × GitCache
unfolding cap_wants fetch_wants
fetch_missing repo a (err e) g = (err e, g)
fetch_missing repo a (ok []) g = (ok tt, g)
fetch_missing repo a (ok (m ∷ ms)) g = fetch_wants repo a (cap_wants g.cfg.max_wants (m ∷ ms)) g

unfoldable pub satisfy_wants :
    RepoRef → Answers → List Bytes → GitCache → Result WantsError (Unit {0}) × GitCache
unfolding missing_oids fetch_missing
satisfy_wants repo a [] g = (ok tt, g)
satisfy_wants repo a (w ∷ ws) g = fetch_missing repo a (missing_oids a) g

unfoldable pub ensure_wanted_oids :
    RepoRef → Bytes → Answers → GitCache → Result WantsError (Unit {0}) × GitCache
unfolding satisfy_wants
ensure_wanted_oids repo body a g = satisfy_wants repo a (parse_wants body) g

-- Whether a mirror has to be fetched; `Instant::elapsed` is not negative.
unfoldable pub is_stale : GitConfig → Option ℕ → ℕ → Bool
is_stale cfg none now = true
is_stale cfg (some t) now = cfg.fetch_ttl == 0 || leb cfg.fetch_ttl (now - t)

unfoldable pub stamp : Bytes → ℕ → GitCache → GitCache
stamp name started g = record g { slots = set_slot name (some started) g.slots }

-- The end of a pull: the start is stamped only if it succeeded.
unfoldable pub finish_pull :
    CacheOutcome
    → Bytes
    → ℕ
    → Result FreshError (Unit {0}) × GitCache
    → Result FreshError CacheOutcome × GitCache
unfolding stamp
finish_pull outcome name started (err e, g) = (err e, g)
finish_pull outcome name started (ok _, g) = (ok outcome, stamp name started g)

-- The pull, if one is needed.
unfoldable pub pull :
    RepoRef → Bool → Answers → GitCache → Result FreshError CacheOutcome × GitCache
unfolding finish_pull
pull repo want_fetch a g =
    if not (mem repo.cache_dir g.mirrors)
    then finish_pull cloned repo.name a.started (clone_mirror repo a g)
    else if want_fetch && is_stale g.cfg (last repo.name g) a.now
    then finish_pull fetched repo.name a.started (fetch repo a g)
    else (ok cached, g)

-- The want-by-SHA fetch after a pull that succeeded; its own failure is only logged.
unfoldable pub after_pull :
    RepoRef
    → Bytes
    → Answers
    → Result FreshError CacheOutcome × GitCache
    → Result FreshError CacheOutcome × GitCache
unfolding ensure_wanted_oids
after_pull repo body a (err e, g) = (err e, g)
after_pull repo body a (ok outcome, g) = (ok outcome, (ensure_wanted_oids repo body a g).1)

unfoldable pub ensure_fresh :
    RepoRef → Bool → Bytes → Answers → GitCache → Result FreshError CacheOutcome × GitCache
unfolding pull slot touch_repo after_pull
ensure_fresh repo want_fetch body a g =
    after_pull repo body a (pull repo want_fetch a (touch_repo repo.name (slot repo.name g)))
