-- ===== src/Evict/Maintain.antt =====
-- The maintenance pass of src/evict.rs: measure the changed mirrors, then evict and delete.
use git_cache_proxy.Base.{
  ℕ, Bytes, bytes_eq, split, List, [], ◌∷◌, map, Bool, true, false, if◌then◌else◌,
}
use git_cache_proxy.Lru.{LruCache}
use git_cache_proxy.Repo.{lfs_objects_dir}
use git_cache_proxy.Evict.{State, record_eviction, cache_dir, take_dirty, set_size, take_victims}

-- What `tokio::fs::remove_file` says.
pub data Removed : Type 0 where
  removed not_found failed : Removed

unfoldable pub is_lfs_blob : Bytes → Bool
is_lfs_blob name = elim (split b'/' name) [ [] ↦ false | p ∷ ps ↦ bytes_eq p lfs_objects_dir ]

-- The disk as the maintenance pass meets it: the size that `measure` finds, whether the blocking
-- walk came back, the outcome of unlinking an object, and whether `GitCache::evict` succeeded.
pub record Disk : Type 0 where
  pub measured : Bytes → ℕ
  pub joined : Bool
  pub remove_file : Bytes → Removed
  pub evict : Bytes → Bytes → Bool

unfoldable pub delete : Disk → Bytes × Bytes → Bool
unfolding is_lfs_blob
delete disk (name, dir) =
    if is_lfs_blob name
    then elim (disk.remove_file dir) [ removed ↦ true | not_found ↦ true | failed ↦ false ]
    else disk.evict name dir

module _ (lru : LruCache) where
  -- The critical sections of other tasks that run inside a pass: behind the take of the pending names,
  -- behind each size that is set, behind the choice of the victims, and behind each deletion.
  pub record Gaps : Type 0 where
    pub after_drain : State lru → State lru
    pub after_size : Bytes → State lru → State lru
    pub after_take : State lru → State lru
    pub after_delete : Bytes → State lru → State lru

  -- No other task runs.
  abbrev pub no_gaps : Gaps
  no_gaps = record {
    after_drain = λ i. i;
    after_size = λ n i. i;
    after_take = λ i. i;
    after_delete = λ n i. i;
  }

  unfoldable pub set_sizes :
      (Bytes → State lru → State lru) → List (Bytes × ℕ) → State lru → State lru
  set_sizes gap [] i = i
  set_sizes gap ((name, size) ∷ l) i = set_sizes gap l (gap name (set_size lru name size i))

  unfoldable pub measure_all : Disk → State lru → List Bytes → List (Bytes × ℕ)
  measure_all disk i dirty =
      if disk.joined then map (λ n. (n, disk.measured (cache_dir lru i n))) dirty else []

  unfoldable pub delete_one : Disk → Bytes × Bytes → State lru → State lru
  delete_one disk v i =
      if delete disk v then record i { effects = record_eviction ∷ i.effects } else i

  unfoldable pub delete_all :
      Disk → (Bytes → State lru → State lru) → List (Bytes × Bytes) → State lru → State lru
  unfolding delete_one
  delete_all disk gap [] i = i
  delete_all disk gap (v ∷ l) i = delete_all disk gap l (gap v.0 (delete_one disk v i))

  -- The first half of a pass: every pending mirror is measured.
  unfoldable pub measure_pass : Disk → Gaps → State lru → State lru
  unfolding set_sizes measure_all
  measure_pass disk gaps i =
      let (dirty, i') = take_dirty lru i in
      set_sizes gaps.after_size (measure_all disk i' dirty) (gaps.after_drain i')

  -- One pass, with what other tasks do to the index between its critical sections.
  unfoldable pub maintain : Disk → Gaps → State lru → State lru
  unfolding measure_pass delete_all
  maintain disk gaps i =
      let (victims, i') = take_victims lru (measure_pass disk gaps i) in
      delete_all disk gaps.after_delete victims (gaps.after_take i')
