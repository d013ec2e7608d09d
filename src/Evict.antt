-- ===== src/Evict.antt =====
-- src/evict.rs, the index: an in-memory record of what the cache holds, kept in access order by an
-- `LruCache`, with the running byte total, and the background pass that measures and evicts. Each
-- function below is one critical section of the index's mutex. What the source hands to other
-- parts (the gauges of `Metrics`, the `Notify` that wakes the task) is recorded in `effects`,
-- newest first. A `HashSet` is a list without repetitions.
pub mod Maintain
pub mod Loop
pub mod Totals
pub mod Consistent
pub mod Startup
pub mod Victims
pub mod Reconcile
pub mod Refetched
pub mod Pass
pub mod Scan
pub mod Run
mod Tests
use git_cache_proxy.Base.{
  ℕ, zero, suc, ◌+◌, ◌-◌, ◌%◌, ◌^◌, Bytes, codes, bytes_eq, split, List, [], ◌∷◌, ◌++◌, map, Bool,
  true, false, not, ◌&&◌, Option, none, some, ltb, leb, if◌then◌else◌, add64, sub64, mem, insert,
}
use git_cache_proxy.FilePath.{path_join}
use git_cache_proxy.Lru.{LruCache, Entry}
use git_cache_proxy.Lru.Entries.{or_zero}
use git_cache_proxy.Repo.{lfs_objects_dir}

pub data Effect : Type 0 where
  set_cache_size : ℕ → ℕ → Effect
  notify_one : Effect
  record_eviction : Effect

pub record Scanned : Type 0 where
  pub name : Bytes
  pub size : ℕ
  pub mtime : ℕ

-- `CacheIndex` with its `Inner`.
pub record Index (Cache : Type 0) : Type 0 where
  pub cache_root : Bytes
  pub max_bytes : ℕ
  pub cache : Cache
  pub dirty : List Bytes
  pub total : ℕ
  pub effects : List Effect

-- `sort_by_key(|m| m.mtime)`: a stable sort.
unfoldable pub insert_by_mtime : Scanned → List Scanned → List Scanned
insert_by_mtime s [] = s ∷ []
insert_by_mtime s (t ∷ l) =
    let rest = insert_by_mtime s l in if leb s.mtime t.mtime then s ∷ t ∷ l else t ∷ rest

unfoldable pub sort_by_mtime : List Scanned → List Scanned
unfolding insert_by_mtime
sort_by_mtime [] = []
sort_by_mtime (s ∷ l) = insert_by_mtime s (sort_by_mtime l)

-- The names whose directory is definitely gone.
unfoldable pub sweep : (Bytes → Bool) → List (Bytes × Bytes) → List Bytes
sweep gone [] = []
sweep gone ((name, dir) ∷ l) = let rest = sweep gone l in if gone dir then name ∷ rest else rest

module _ (lru : LruCache) where
  open lru use {Cache, entries, unbounded, get, put, peek, write_peeked, pop, pop_lru, len}

  abbrev pub State : Type 0
  State = Index Cache

  unfoldable pub set_gauges : State → State
  set_gauges i = record i { effects = set_cache_size i.total (len i.cache) ∷ i.effects }

  abbrev pub notify : State → State
  notify i = record i { effects = notify_one ∷ i.effects }

  -- The loop of `CacheIndex::new` over the scanned entries.
  unfoldable pub load : List Scanned → Cache × ℕ → Cache × ℕ
  load [] acc = acc
  load (m ∷ l) acc = load l ((put acc.0 m.name m.size).1, add64 acc.1 m.size)

  -- `scanned` is what `find_mirrors` and then `find_lfs_blobs` found.
  unfoldable pub new : Bytes → ℕ → List Scanned → State
  unfolding load
  new cache_root max_bytes scanned =
      let loaded = load (sort_by_mtime scanned) (unbounded, 0) in
      let idx : State = record {
        cache_root = cache_root;
        max_bytes = max_bytes;
        cache = loaded.0;
        dirty = [];
        total = loaded.1;
        effects = set_cache_size loaded.1 (len loaded.0) ∷ [];
      } in
      if ltb max_bytes loaded.1 then notify idx else idx

  unfoldable pub touch : Bytes → State → State
  touch name i = record i { cache = (get i.cache name).1 }

  unfoldable pub record_blob : Bytes → ℕ → State → State
  unfolding set_gauges
  record_blob key size i =
      let (old, cache) = put i.cache key size in
      notify
        (set_gauges (record i { cache = cache; total = add64 (sub64 i.total (or_zero old)) size }))

  -- The entry is promoted, or tracked with size 0 until it is measured.
  unfoldable pub track : Bytes → Option ℕ × Cache → Cache
  track name (some _, cache) = cache
  track name (none, cache) = (put cache name 0).1

  unfoldable pub mark_changed : Bytes → State → State
  unfolding set_gauges track
  mark_changed name i =
      notify (
        set_gauges
          (record i { cache = track name (get i.cache name); dirty = insert name i.dirty }))

  unfoldable pub cache_dir : State → Bytes → Bytes
  cache_dir i name = path_join i.cache_root name

  unfoldable pub totals : State → ℕ × ℕ
  totals i = (i.total, len i.cache)

  unfoldable pub take_dirty : State → List Bytes × State
  take_dirty i = (i.dirty, record i { dirty = [] })

  unfoldable pub set_size : Bytes → ℕ → State → State
  unfolding set_gauges
  set_size name size i = elim (peek i.cache name) [
    | none ↦ i
    | some old ↦ set_gauges (record i {
      cache = write_peeked i.cache name size;
      total = add64 (sub64 i.total old) size;
    })
  ]

  -- `while total > max_bytes`, with fuel for the entries and one more round.
  unfoldable pub evict_loop : ℕ → State → List (Bytes × Bytes) × State
  evict_loop zero i = ([], i)
  evict_loop (suc f) i = elim (ltb i.max_bytes i.total) [
    | false ↦ ([], i)
    | true ↦
        let (popped, cache) = pop_lru i.cache in
        elim popped [
          | none ↦ ([], record i { cache = cache })
          | some (name, size) ↦
              let rest = evict_loop f (record i { cache = cache; total = sub64 i.total size }) in
              ((name, path_join i.cache_root name) ∷ rest.0, rest.1)
        ]
  ]

  unfoldable pub take_victims : State → List (Bytes × Bytes) × State
  unfolding set_gauges
  take_victims i = let (victims, i') = evict_loop (suc (len i.cache)) i in (victims, set_gauges i')

  -- `reconcile_missing` in its two critical sections, around a sweep of the disk.
  unfoldable pub tracked : State → List (Bytes × Bytes)
  tracked i = map (λ (e : Entry). (e.0, path_join i.cache_root e.0)) (entries i.cache)

  unfoldable pub drop_one : Bytes → State → State
  drop_one name i =
      if mem name i.dirty
      then i
      else let (popped, cache) = pop i.cache name in
        elim popped [
          | none ↦ record i { cache = cache }
          | some size ↦ record i { cache = cache; total = sub64 i.total size }
        ]

  unfoldable pub drop_all : List Bytes → State → State
  unfolding drop_one
  drop_all [] i = i
  drop_all (name ∷ l) i = drop_all l (drop_one name i)

  unfoldable pub drop_missing : List Bytes → State → State
  unfolding drop_all set_gauges
  drop_missing missing i = set_gauges (drop_all missing i)

  -- The second critical section is skipped when nothing is missing.
  unfoldable pub finish : List Bytes → State → State
  unfolding drop_missing
  finish [] i = i
  finish (m ∷ ms) i = drop_missing (m ∷ ms) i

  -- `gone` is the `NotFound` of `symlink_metadata`, `joined` says that the blocking task came back,
  -- and `meanwhile` is what other tasks did to the index during the sweep.
  unfoldable pub reconcile_missing : (Bytes → Bool) → Bool → (State → State) → State → State
  unfolding tracked finish
  reconcile_missing gone joined meanwhile i = elim (tracked i) [
    | [] ↦ i
    | t ∷ ts ↦ finish (if joined then sweep gone (t ∷ ts) else []) (meanwhile i)
  ]
