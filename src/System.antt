-- ===== src/System.antt =====
-- The parts of a running proxy together: the index of src/evict.rs, which the calls of src/git.rs and
-- src/lfs.rs tell what they did, and the one background task that deletes what the index gives up. A
-- call of `ensure_fresh` or `ensure_object` that runs to its end is one step, and so is one whose
-- client goes away in the middle; between any two steps of the background task there may be any number
-- of them.
pub mod Calls
pub mod Downloads
pub mod EnsureObject
pub mod Tracked
pub mod Accesses
pub mod Names
pub mod Accounted
pub mod Deletions
pub mod Departures
pub mod Safety
pub mod Objects
mod Tests
use git_cache_proxy.Base.{
  ℕ, Bytes, List, [], ◌∷◌, insert, ◌+◌, ◌%◌, u64_mod, map, mem, Bool, true, false, Option, none,
  some, Result, ok, if◌then◌else◌, ◌≡◌,
}
use git_cache_proxy.Json.{Json}
use git_cache_proxy.Lru.{LruCache}
use git_cache_proxy.Repo.{RepoRef, resolve, valid_lfs_oid, lfs_object_key, lfs_object_path}
use git_cache_proxy.Evict.{
  State, touch, record_blob, mark_changed, take_dirty, set_size, take_victims, sweep, tracked,
  finish,
}
use git_cache_proxy.Evict.Maintain.{is_lfs_blob}
use git_cache_proxy.Git.Mirrors.{
  slot, touch_repo, GitCache, Answers, Event, index_touch, index_mark_changed, record_upstream,
  observe_upstream, git_clone, git_fetch, git_fetch_wants, git_update_ref, remove_dir, ensure_fresh,
  evict_mirror, remove_mirror,
}
use git_cache_proxy.Lfs
use git_cache_proxy.Lfs.{
  Lfs, LfsEvent, Upstream, Disk, find_file, remove_file, write_file, tmp_path, sha256_hex,
  ensure_object,
}

-- Where the background task stands: between two turns; after it has measured; with victims that it
-- has still to delete; or after a sweep that found these names gone.
pub data Phase : Type 0 where
  idle measured : Phase
  deleting : List (Bytes × Bytes) → Phase
  sweeping : List Bytes → Phase

abbrev pub forget_git : GitCache → GitCache
forget_git g = record g { events = [] }

abbrev pub forget_lfs : Lfs → Lfs
forget_lfs s = record s { events = [] }

abbrev pub same_store : Lfs → Lfs
same_store s = s

module _ (lru : LruCache) where
  -- `escaped` has the names that the background task is not told of: those that could not be deleted,
  -- which are logged, and those whose client was gone when they had been moved into place, so that the
  -- future that would have told the index was dropped.
  pub record World : Type 0 where
    pub index : State lru
    pub git : GitCache
    pub lfs : Lfs
    pub phase : Phase
    pub escaped : List Bytes

  -- What an event of a call does to the index.
  unfoldable pub git_access : Event → State lru → State lru
  git_access (index_touch n) i = touch lru n i
  git_access (index_mark_changed n) i = mark_changed lru n i
  git_access (record_upstream o s n) i = i
  git_access (observe_upstream o n) i = i
  git_access (git_clone u d c) i = i
  git_access (git_fetch d c) i = i
  git_access (git_fetch_wants d l) i = i
  git_access (git_update_ref d t) i = i
  git_access (remove_dir d) i = i

  -- The events of a call, the newest first.
  unfoldable pub git_accesses : List Event → State lru → State lru
  unfolding git_access
  git_accesses [] i = i
  git_accesses (e ∷ l) i = git_access e (git_accesses l i)

  unfoldable pub lfs_access : LfsEvent → State lru → State lru
  lfs_access (Lfs.index_touch k) i = touch lru k i
  lfs_access (Lfs.index_record_blob k size) i = record_blob lru k size i
  lfs_access (Lfs.upstream_post u) i = i
  lfs_access (Lfs.upstream_get u) i = i

  unfoldable pub lfs_accesses : List LfsEvent → State lru → State lru
  unfolding lfs_access
  lfs_accesses [] i = i
  lfs_accesses (e ∷ l) i = lfs_access e (lfs_accesses l i)

  -- A call for a repository, and one for an object.
  unfoldable pub git_call : RepoRef → Bool → Bytes → Answers → World → World
  unfolding git_accesses
  git_call repo want_fetch body a w =
      let g = (ensure_fresh repo want_fetch body a (forget_git w.git)).1 in
      record w { index = git_accesses g.events w.index; git = g }

  unfoldable pub lfs_call : Json → Upstream → Disk → Bytes → Bytes → Option ℕ → World → World
  unfolding lfs_accesses
  lfs_call json up disk repo oid size w =
      let s = (ensure_object json up disk same_store repo oid size (forget_lfs w.lfs)).1 in
      record w { index = lfs_accesses s.events w.index; lfs = s }

  -- A call for a repository whose client goes away: it is touched, its clone or fetch is killed; but
  -- the rename of a finished clone, once the disk was asked for it, is done, and the index is not
  -- told.
  unfoldable pub leave_repo : RepoRef → Bool → World → World
  unfolding touch_repo slot git_accesses
  leave_repo repo renamed w =
      let g = touch_repo repo.name (slot repo.name (forget_git w.git)) in
      record w {
        index = git_accesses g.events w.index;
        git = if renamed then record g { mirrors = insert repo.cache_dir g.mirrors } else g;
        escaped = if renamed then repo.name ∷ w.escaped else w.escaped;
      }

  -- A call for an object whose client goes away: before it has a temporary file, with some content in
  -- it, or when the disk was asked to move it into place, so that it is, and the index is not told.
  unfoldable pub leave_object : Bytes → Option Bytes → Bool → World → World
  unfolding Lfs.slot
  leave_object oid none stored w = record w { lfs = Lfs.slot oid (forget_lfs w.lfs) }
  leave_object oid (some c) stored w =
      let s = Lfs.slot oid (forget_lfs w.lfs) in
      let path =
        if stored then lfs_object_path s.cfg.cache_root oid else tmp_path s.cfg s.tmp_counter in
      record w {
        lfs = record s {
          tmp_counter = (s.tmp_counter + 1) % u64_mod;
          files = write_file path c s.files;
        };
        escaped = if stored then lfs_object_key oid ∷ w.escaped else w.escaped;
      }

  -- The deletion of a victim.
  unfoldable pub delete_mirror : Bytes → Bytes → List (Bytes × Bytes) → Bool → World → World
  delete_mirror name dir rest renamed w =
      let (deleted, g) = evict_mirror name dir renamed w.git in
      record w {
        git = g;
        phase = deleting rest;
        escaped = if deleted then w.escaped else name ∷ w.escaped;
      }

  unfoldable pub delete_object : Bytes → Bytes → List (Bytes × Bytes) → Bool → World → World
  delete_object name path rest removed w = record w {
    lfs = if removed then record w.lfs { files = remove_file path w.lfs.files } else w.lfs;
    phase = deleting rest;
    escaped = if removed then w.escaped else name ∷ w.escaped;
  }

  unfoldable pub take_all : World → World
  take_all w =
      let (victims, i) = take_victims lru w.index in
      record w { index = i; phase = deleting victims }

  -- A step of a call, of the background task, or of an operator who deletes by hand.
  pub data Step (json : Json) (up : Upstream) (base : Bytes) : World → World → Type 0 where
    repo_asked :
        {w : World} (name : Bytes) (repo : RepoRef) (want_fetch : Bool) (body : Bytes) (a : Answers)
        → resolve name base w.index.cache_root ≡ ok repo
        → Step json up base w (git_call repo want_fetch body a w)
    object_asked :
        {w : World} (disk : Disk) (repo oid : Bytes) (size : Option ℕ)
        → valid_lfs_oid oid ≡ true
        → Step json up base w (lfs_call json up disk repo oid size w)
    repo_left :
        {w : World} (name : Bytes) (repo : RepoRef) (renamed : Bool)
        → resolve name base w.index.cache_root ≡ ok repo
        → (renamed ≡ true → mem repo.cache_dir w.git.mirrors ≡ false)
        → Step json up base w (leave_repo repo renamed w)
    object_left :
        {w : World} (oid : Bytes) (tmp : Option Bytes) (stored : Bool)
        → valid_lfs_oid oid ≡ true
        → ((c : Bytes) → tmp ≡ some c → stored ≡ true → sha256_hex up c ≡ oid)
        → Step json up base w (leave_object oid tmp stored w)
    by_hand :
        {w : World} (path : Bytes)
        → Step json up base w (record w {
          git = record w.git { mirrors = remove_mirror path w.git.mirrors };
          lfs = record w.lfs { files = remove_file path w.lfs.files };
        })
    drain :
        {w : World}
        → w.phase ≡ idle
        → Step json up base w (record w { index = (take_dirty lru w.index).1; phase = measured })
    resize :
        {w : World} (name : Bytes) (size : ℕ)
        → w.phase ≡ measured
        → Step json up base w (record w { index = set_size lru name size w.index })
    take : {w : World} → w.phase ≡ measured → Step json up base w (take_all w)
    evict_repo :
        {w : World} (name dir : Bytes) (rest : List (Bytes × Bytes)) (renamed : Bool)
        → w.phase ≡ deleting ((name, dir) ∷ rest)
        → is_lfs_blob name ≡ false
        → Step json up base w (delete_mirror name dir rest renamed w)
    evict_object :
        {w : World} (name path : Bytes) (rest : List (Bytes × Bytes)) (removed : Bool)
        → w.phase ≡ deleting ((name, path) ∷ rest)
        → is_lfs_blob name ≡ true
        → Step json up base w (delete_object name path rest removed w)
    all_deleted :
        {w : World} → w.phase ≡ deleting [] → Step json up base w (record w { phase = idle })
    sweep_disk :
        {w : World} (gone : Bytes → Bool)
        → w.phase ≡ idle
        → ((d : Bytes) → gone d ≡ true → mem d w.git.mirrors ≡ false)
        → ((d : Bytes) → gone d ≡ true → find_file d w.lfs.files ≡ none)
        → Step json up base w (record w { phase = sweeping (sweep gone (tracked lru w.index)) })
    drop :
        {w : World} (missing : List Bytes)
        → w.phase ≡ sweeping missing
        → Step json up base w (record w { index = finish lru missing w.index; phase = idle })

  -- The states that are reached.
  pub data Reach (json : Json) (up : Upstream) (base : Bytes) (init : World) : World → Type 0 where
    initial : Reach json up base init init
    after :
        {v w : World}
        → Reach json up base init v
        → Step json up base v w
        → Reach json up base init w
