-- ===== src/Evict/Pass.antt =====
-- One maintenance pass: what it leaves in the index, and what it counts.
use git_cache_proxy.Base.{
  mem, ℕ, ◌+◌, ◌≤◌, ◌<◌, u64_mod, All, Bytes, bytes_eq, bytes_eq_iff, List, [], ◌∷◌, map, Bool,
  true, false, Option, none, some, ◌≡◌, refl, ap, sym, ◌∙◌, Option-cases, inl, inr, if◌then◌else◌,
  arith,
}
use mathlib.Core.Option
use git_cache_proxy.FilePath.{path_join}
use git_cache_proxy.Lru.{LruCache, lookup}
use git_cache_proxy.Lru.Entries.{sum_sizes, lookup-assign}
use git_cache_proxy.Evict.{
  Effect, set_cache_size, notify_one, record_eviction, State, cache_dir, take_dirty, set_size,
  take_victims,
}
use git_cache_proxy.Evict.Maintain.{
  Disk, delete, delete_one, set_sizes, measure_all, no_gaps, measure_pass, delete_all, maintain,
}
use git_cache_proxy.Evict.Totals.{IsCounted, set_size-IsCounted}
use git_cache_proxy.Evict.Victims.{Evicts, take_victims-Evicts}

unfoldable pub count_evictions : List Effect → ℕ
count_evictions [] = 0
count_evictions (record_eviction ∷ l) = count_evictions l + 1
count_evictions (set_cache_size b c ∷ l) = count_evictions l
count_evictions (notify_one ∷ l) = count_evictions l

-- How many of the victims were deleted.
unfoldable pub count_deleted : Disk → List (Bytes × Bytes) → ℕ
count_deleted disk [] = 0
count_deleted disk (v ∷ l) =
    if delete disk v then count_deleted disk l + 1 else count_deleted disk l

module _ (lru : LruCache) where
  open lru use {entries, peek, write_peeked, peek_value, entries-write_peeked}

  pub lookup-set_size :
      (k j : Bytes) (v : ℕ) (i : State lru)
      → lookup j (entries (set_size lru k v i).cache) ≡ (
          if bytes_eq k j
          then Option.map (λ _. v) (lookup j (entries i.cache))
          else lookup j (entries i.cache))
  unfolding set_size
  lookup-set_size k j v i = elim (Option-cases (peek i.cache k)) [
    | inl e ↦ rw (e, set_size) (ground (arith, sym (peek_value i.cache k) ∙ e, bytes_eq_iff k j))
    | inr (old, e) ↦ rw (e, set_size) (written old (sym (peek_value i.cache k) ∙ e))
  ]
    where
      written :
          (old : ℕ)
          → lookup k (entries i.cache) ≡ some old
          → lookup j (entries (write_peeked i.cache k v)) ≡ (
              if bytes_eq k j
              then Option.map (λ _. v) (lookup j (entries i.cache))
              else lookup j (entries i.cache))
      written old found =
          ap (lookup j) (entries-write_peeked i.cache k v)
          ∙ ground (arith, lookup-assign k j v (entries i.cache))

  count-delete_one :
      (disk : Disk) (v : Bytes × Bytes) (i : State lru)
      → count_evictions (delete_one lru disk v i).effects
        ≡ count_evictions i.effects + (if delete disk v then 1 else 0)
  unfolding delete_one count_evictions
  count-delete_one disk v i = ground arith

  cache-delete_one :
      (disk : Disk) (v : Bytes × Bytes) (i : State lru) → (delete_one lru disk v i).cache ≡ i.cache
  unfolding delete_one
  cache-delete_one disk v i = ground arith

  dirty-delete_one :
      (disk : Disk) (v : Bytes × Bytes) (i : State lru) → (delete_one lru disk v i).dirty ≡ i.dirty
  unfolding delete_one
  dirty-delete_one disk v i = ground arith

  -- What deleting the victims leaves alone, and what it counts.
  delete_all_lem :
      (disk : Disk) (l : List (Bytes × Bytes)) (i : State lru)
      → (count_evictions (delete_all lru disk (λ n s. s) l i).effects
          ≡ count_evictions i.effects + count_deleted disk l)
        × ((delete_all lru disk (λ n s. s) l i).cache ≡ i.cache)
        × ((delete_all lru disk (λ n s. s) l i).dirty ≡ i.dirty)
  unfolding delete_all count_deleted
  delete_all_lem disk [] i = (omega arith, refl, refl)
  delete_all_lem disk (v ∷ l) i =
      let (count, cache, dirty) = delete_all_lem disk l (delete_one lru disk v i) in
      (
        count ∙ counted (delete disk v) _ _ _ (count-delete_one disk v i),
        cache ∙ cache-delete_one disk v i,
        dirty ∙ dirty-delete_one disk v i,
      )
    where
      counted :
          (b : Bool) (x y d : ℕ)
          → x ≡ y + (if b then 1 else 0)
          → x + d ≡ y + (if b then d + 1 else d)
      counted true x y d e = omega arith
      counted false x y d e = omega arith

  dirty-set_size : (k : Bytes) (v : ℕ) (i : State lru) → (set_size lru k v i).dirty ≡ i.dirty
  unfolding set_size
  dirty-set_size k v i = ground arith

  -- The measured sizes go to the entries that are still tracked, and to no other.
  lookup-set_sizes :
      (f : Bytes → ℕ) (ks : List Bytes) (j : Bytes) (i : State lru)
      → (lookup j (entries (set_sizes lru (λ n s. s) (map (λ n. (n, f n)) ks) i).cache) ≡ (
          if mem j ks
          then Option.map (λ _. f j) (lookup j (entries i.cache))
          else lookup j (entries i.cache)))
        × ((set_sizes lru (λ n s. s) (map (λ n. (n, f n)) ks) i).dirty ≡ i.dirty)
  unfolding set_sizes
  lookup-set_sizes f [] j i = (refl, refl)
  lookup-set_sizes f (k ∷ ks) j i =
      let (found, dirty) = lookup-set_sizes f ks j (set_size lru k (f k) i) in
      (
        found
            ∙ merge (mem j ks) (bytes_eq k j) (lookup j (entries i.cache)) _ (f k) (f j)
                (lookup-set_size k j (f k) i) (λ e. ap f ((bytes_eq_iff k j).0 e)),
        dirty ∙ dirty-set_size k (f k) i,
      )
    where
      merge :
          (m b : Bool) (o o' : Option ℕ) (x y : ℕ)
          → o' ≡ (if b then Option.map (λ _. x) o else o)
          → (b ≡ true → x ≡ y)
          → (if m then Option.map (λ _. y) o' else o')
            ≡ (if if b then true else m then Option.map (λ _. y) o else o)
      merge true true none o' x y e h = rw e
      merge true true (some v) o' x y e h = rw e
      merge false true none o' x y e h = rw e
      merge false true (some v) o' x y e h = rw (e, h refl)
      merge m false o o' x y e h = rw e

  set_sizes-IsCounted :
      (l : List (Bytes × ℕ)) (i : State lru)
      → All (λ p. p.1 < u64_mod) l
      → IsCounted lru i
      → IsCounted lru (set_sizes lru (λ n s. s) l i)
  unfolding set_sizes
  set_sizes-IsCounted [] i f h = h
  set_sizes-IsCounted ((k, v) ∷ l) i f h =
      set_sizes-IsCounted l (set_size lru k v i) f.1 (set_size-IsCounted lru k v i f.0 h)

  kept-set_size :
      (k : Bytes) (v : ℕ) (i : State lru)
      → ((set_size lru k v i).dirty ≡ i.dirty)
        × ((set_size lru k v i).max_bytes ≡ i.max_bytes)
        × ((set_size lru k v i).cache_root ≡ i.cache_root)
  unfolding set_size
  kept-set_size k v i = ground arith

  kept-set_sizes :
      (l : List (Bytes × ℕ)) (i : State lru)
      → ((set_sizes lru (λ n s. s) l i).dirty ≡ i.dirty)
        × ((set_sizes lru (λ n s. s) l i).max_bytes ≡ i.max_bytes)
        × ((set_sizes lru (λ n s. s) l i).cache_root ≡ i.cache_root)
  unfolding set_sizes
  kept-set_sizes [] i = (refl, refl, refl)
  kept-set_sizes ((k, v) ∷ l) i =
      let (a, b, c) = kept-set_sizes l (set_size lru k v i) in
      let (a', b', c') = kept-set_size k v i in (a ∙ a', b ∙ b', c ∙ c')

  measure_pass-IsCounted :
      (disk : Disk) (i : State lru)
      → ((d : Bytes) → disk.measured d < u64_mod)
      → IsCounted lru i
      → IsCounted lru (measure_pass lru disk (no_gaps lru) i)
  unfolding measure_pass take_dirty
  measure_pass-IsCounted disk i f h = set_sizes-IsCounted _ _ (sizes disk.joined i.dirty) h
    where
      sizes :
          (b : Bool) (l : List Bytes)
          → All {A = Bytes × ℕ}
              (λ p. p.1 < u64_mod)
              (if b
                then map (λ n. (n, disk.measured (cache_dir lru (record i { dirty = [] }) n))) l
                else [])
      sizes false l = tt
      sizes true [] = tt
      sizes true (n ∷ l) = (f _, sizes true l)

  kept-measure_pass :
      (disk : Disk) (i : State lru)
      → ((measure_pass lru disk (no_gaps lru) i).dirty ≡ [])
        × ((measure_pass lru disk (no_gaps lru) i).max_bytes ≡ i.max_bytes)
        × ((measure_pass lru disk (no_gaps lru) i).cache_root ≡ i.cache_root)
  unfolding measure_pass take_dirty
  kept-measure_pass disk i =
      kept-set_sizes (measure_all lru disk (record i { dirty = [] }) i.dirty)
        (record i { dirty = [] })

  -- Where the blocking walk comes back and no other task runs in between, the first half of a pass
  -- takes every pending mirror off the list, and gives each that is still tracked the size that was
  -- measured in its directory, and no other entry another size.
  pub measure_pass_lem :
      (disk : Disk) (i : State lru) (k : Bytes)
      → disk.joined ≡ true
      → (lookup k (entries (measure_pass lru disk (no_gaps lru) i).cache) ≡ (
          if mem k i.dirty
          then Option.map
              (λ _. disk.measured (path_join i.cache_root k))
              (lookup k (entries i.cache))
          else lookup k (entries i.cache)))
        × ((measure_pass lru disk (no_gaps lru) i).dirty ≡ [])
  unfolding measure_pass take_dirty cache_dir
  measure_pass_lem disk i k back = rw back (
      lookup-set_sizes (λ n. disk.measured (path_join i.cache_root n)) i.dirty k
        (record i { dirty = [] }))

  -- A pass over an index whose counted total is right, where every measured size is below 2^64, the
  -- sum of the entries' sizes after the measurement is, and no other task runs between its critical
  -- sections, leaves the entries within the cap and no measurement pending. What left is a tail of the
  -- access order, no more of it than needed, and exactly the victims that could be deleted from disk
  -- are counted as evictions.
  pub maintain_lem :
      (disk : Disk) (i : State lru)
      → ((d : Bytes) → disk.measured d < u64_mod)
      → IsCounted lru i
      → sum_sizes (entries (measure_pass lru disk (no_gaps lru) i).cache) < u64_mod
      → let before = measure_pass lru disk (no_gaps lru) i in
        let taken = take_victims lru before in
        let after = maintain lru disk (no_gaps lru) i in
        (sum_sizes (entries after.cache) ≤ i.max_bytes)
        × (after.dirty ≡ [])
        × Evicts lru before taken
        × (after.cache ≡ taken.1.cache)
        × (count_evictions after.effects
            ≡ count_evictions taken.1.effects + count_deleted disk taken.0)
  unfolding maintain
  maintain_lem disk i f h fits =
      let before : State lru = measure_pass lru disk (no_gaps lru) i in
      let v = take_victims-Evicts lru before (measure_pass-IsCounted disk i f h, fits) in
      let taken = take_victims lru before in
      let (count, cache, dirty) = delete_all_lem disk taken.0 taken.1 in
      let (_, max, _) = kept-measure_pass disk i in
      (
        fits_cap cache v.under max,
        dirty ∙ (v.pending ∙ (kept-measure_pass disk i).0),
        v,
        cache,
        count,
      )
    where
      fits_cap :
          {c d : lru.Cache} {m n : ℕ}
          → c ≡ d
          → sum_sizes (entries d) ≤ m
          → m ≡ n
          → sum_sizes (entries c) ≤ n
      fits_cap e h e' = rw e (omega (arith, h, e'))
