-- ===== src/Evict/Reconcile.antt =====
-- `CacheIndex::reconcile_missing`: what leaves the index after a sweep of the disk.
use git_cache_proxy.Base.{
  mem, ℕ, Bytes, bytes_eq, bytes_eq_iff, List, [], ◌∷◌, map, Bool, true, not, ◌&&◌, Option, none,
  is_some, ◌≡◌, ◌≢◌, refl, ◌∙◌, Option-cases, Bool-cases, inl, inr, if◌then◌else◌, arith,
}
use git_cache_proxy.FilePath.{path_join}
use git_cache_proxy.Lru.{LruCache, Entry, lookup}
use git_cache_proxy.Lru.Entries.{lookup-without}
use git_cache_proxy.Evict.{State, sweep, drop_one, drop_all, finish, reconcile_missing}

pub mem-sweep :
    (gone : Bytes → Bool) (root k : Bytes) (es : List Entry)
    → mem k (sweep gone (map (λ (e : Entry). (e.0, path_join root e.0)) es))
      ≡ (is_some (lookup k es) && gone (path_join root k))
unfolding sweep lookup
mem-sweep gone root k [] = refl
mem-sweep gone root k ((j, v) ∷ es) = ground (arith, mem-sweep gone root k es, bytes_eq_iff j k)

regroup :
    (m a b c : Bool) (o : Option ℕ)
    → m ≡ (a && b)
    → (if m && c then none else o) ≡ (if a && b && c then none else o)
regroup m a b c o e = ground arith

module _ (lru : LruCache) where
  open lru use {entries, pop, pop_value, entries-pop}

  dirty-drop_one : (k : Bytes) (i : State lru) → (drop_one lru k i).dirty ≡ i.dirty
  unfolding drop_one
  dirty-drop_one k i = ground arith

  lookup-drop_one :
      (k j : Bytes) (i : State lru)
      → lookup j (entries (drop_one lru k i).cache)
        ≡ (if not (mem k i.dirty) && bytes_eq k j then none else lookup j (entries i.cache))
  unfolding drop_one
  lookup-drop_one k j i = elim (Bool-cases (mem k i.dirty)) [
    | inl busy ↦ rw busy refl
    | inr idle ↦ elim (Option-cases (pop i.cache k).0) [
      | inl e ↦
          rw (idle, drop_one)
            (rw (e, drop_one) (rw entries-pop (lookup-without k j (entries i.cache))))
      | inr (v, e) ↦
          rw (idle, drop_one)
            (rw (e, drop_one) (rw entries-pop (lookup-without k j (entries i.cache))))
    ]
  ]

  lookup-drop_all :
      (ks : List Bytes) (j : Bytes) (i : State lru)
      → lookup j (entries (drop_all lru ks i).cache)
        ≡ (if mem j ks && not (mem j i.dirty) then none else lookup j (entries i.cache))
  unfolding drop_all
  lookup-drop_all [] j i = refl
  lookup-drop_all (k ∷ ks) j i = ground (
    arith,
    lookup-drop_all ks j (drop_one lru k i),
    lookup-drop_one k j i,
    dirty-drop_one k i,
    bytes_eq_iff k j,
  )

  pub lookup-finish :
      (ks : List Bytes) (j : Bytes) (i : State lru)
      → lookup j (entries (finish lru ks i).cache)
        ≡ (if mem j ks && not (mem j i.dirty) then none else lookup j (entries i.cache))
  unfolding finish
  lookup-finish [] j i = refl
  lookup-finish (k ∷ ks) j i = lookup-drop_all (k ∷ ks) j i

  -- After a sweep that came back, over an index that tracked something: an entry is dropped exactly
  -- if it was tracked when the sweep began, its path was definitely gone, and it is not pending
  -- measurement now. Every other entry has the size that other tasks left it with.
  pub reconcile_exactly :
      (gone : Bytes → Bool) (meanwhile : State lru → State lru) (i : State lru) (k : Bytes)
      → entries i.cache ≢ []
      → lookup k (entries (reconcile_missing lru gone true meanwhile i).cache) ≡ (
          if is_some (lookup k (entries i.cache))
            && gone (path_join i.cache_root k)
            && not (mem k (meanwhile i).dirty)
          then none
          else lookup k (entries (meanwhile i).cache))
  unfolding reconcile_missing
  reconcile_exactly gone meanwhile i k h = swept (entries i.cache) refl
    where
      names : List Entry → List Bytes
      names es = sweep gone (map (λ (e : Entry). (e.0, path_join i.cache_root e.0)) es)

      swept :
          (es : List Entry)
          → entries i.cache ≡ es
          → lookup k (entries (reconcile_missing lru gone true meanwhile i).cache) ≡ (
              if is_some (lookup k (entries i.cache))
                && gone (path_join i.cache_root k)
                && not (mem k (meanwhile i).dirty)
              then none
              else lookup k (entries (meanwhile i).cache))
      swept [] e = absurd (h e)
      swept (x ∷ es) e =
          rw (e, reconcile_missing)
            (lookup-finish (names (x ∷ es)) k (meanwhile i)
              ∙ regroup (mem k (names (x ∷ es))) (is_some (lookup k (x ∷ es))) _ _ _
                  (mem-sweep gone i.cache_root k (x ∷ es)))
