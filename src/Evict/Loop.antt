-- ===== src/Evict/Loop.antt =====
-- The loop of `CacheIndex::take_victims`, round by round, and the rule to reason about it.
use git_cache_proxy.Base.{
  ℕ, zero, suc, ◌<◌, Bytes, List, [], ◌∷◌, ◌≡◌, sym, ap, ◌∙◌, none, some, Option-cases, inl, inr,
  Bool-cases, true, false, ltb, length, sub64, arith, subst,
}
use git_cache_proxy.FilePath.{path_join}
use git_cache_proxy.Lru.{LruCache, Entry, last?, init}
use git_cache_proxy.Lru.Entries.{length-init, last?-eq-none}
use git_cache_proxy.Evict.{State, evict_loop}

module _ (lru : LruCache) where
  open lru use {entries, pop_lru, len, pop_lru_value, entries-pop_lru, len-entries}

  abbrev pub Victims : Type 0
  Victims = List (Bytes × Bytes) × State lru

  -- The state after one round that pops `e`, and the state after a round that finds nothing.
  abbrev pub popped : State lru → Entry → State lru
  popped i e = record i { cache = (pop_lru i.cache).1; total = sub64 i.total e.1 }

  abbrev pub emptied : State lru → State lru
  emptied i = record i { cache = (pop_lru i.cache).1 }

  module _ (n : ℕ) (i : State lru) where
    loop_under : ltb i.max_bytes i.total ≡ false → evict_loop lru (suc n) i ≡ ([], i)
    unfolding evict_loop
    loop_under under = rw (under, evict_loop)

    loop_empty :
        ltb i.max_bytes i.total ≡ true
        → (pop_lru i.cache).0 ≡ none
        → evict_loop lru (suc n) i ≡ ([], emptied i)
    unfolding evict_loop
    loop_empty over e = rw (over, evict_loop) (rw (e, evict_loop))

    loop_pop :
        (e : Entry)
        → ltb i.max_bytes i.total ≡ true
        → (pop_lru i.cache).0 ≡ some e
        → evict_loop lru (suc n) i ≡ (
          (e.0, path_join i.cache_root e.0) ∷ (evict_loop lru n (popped i e)).0,
          (evict_loop lru n (popped i e)).1,
        )
    unfolding evict_loop
    loop_pop e over q = rw (over, evict_loop) (rw (q, evict_loop))

  shorter :
      (i : State lru) (e : Entry)
      → last? (entries i.cache) ≡ some e
      → suc (length (entries (pop_lru i.cache).1)) ≡ length (entries i.cache)
  shorter i e last = rw entries-pop_lru (length-init (entries i.cache) e last)

  -- What holds of the three ways that a round can go holds of the whole loop, with fuel for every
  -- entry and one more round.
  pub loop_rule {ℓ} :
      (P : State lru → Victims → Type ℓ)
      → ((i : State lru) → ltb i.max_bytes i.total ≡ false → P i ([], i))
      → ((i : State lru)
          → entries i.cache ≡ []
          → entries (pop_lru i.cache).1 ≡ []
          → P i ([], emptied i))
      → ((i : State lru) (e : Entry) (r : Victims)
          → ltb i.max_bytes i.total ≡ true
          → last? (entries i.cache) ≡ some e
          → P (popped i e) r
          → P i ((e.0, path_join i.cache_root e.0) ∷ r.0, r.1))
      → (n : ℕ) (i : State lru) → length (entries i.cache) < n
      → P i (evict_loop lru n i)
  loop_rule P under empty pop zero i h = elim h [ ]
  loop_rule P under empty pop (suc n) i h = elim (Bool-cases (ltb i.max_bytes i.total)) [
    | inr below ↦ subst (P i) (sym (loop_under n i below)) (under i below)
    | inl over ↦ elim (Option-cases (pop_lru i.cache).0) [
      | inl none_left ↦
          let nil : entries i.cache ≡ [] =
            last?-eq-none (entries i.cache) (sym (pop_lru_value i.cache) ∙ none_left) in
          subst (P i) (sym (loop_empty n i over none_left))
            (empty i nil (entries-pop_lru i.cache ∙ ap init nil))
      | inr (e, found) ↦
          let last : last? (entries i.cache) ≡ some e = sym (pop_lru_value i.cache) ∙ found in
          subst (P i) (sym (loop_pop n i e over found)) (
            pop i e _ over last
              (loop_rule P under empty pop n (popped i e) (omega (arith, shorter i e last, h))))
    ]
  ]

  -- `take_victims` gives the loop the fuel that it needs.
  pub victims_rule {ℓ} :
      (P : State lru → Victims → Type ℓ)
      → ((i : State lru) → ltb i.max_bytes i.total ≡ false → P i ([], i))
      → ((i : State lru)
          → entries i.cache ≡ []
          → entries (pop_lru i.cache).1 ≡ []
          → P i ([], emptied i))
      → ((i : State lru) (e : Entry) (r : Victims)
          → ltb i.max_bytes i.total ≡ true
          → last? (entries i.cache) ≡ some e
          → P (popped i e) r
          → P i ((e.0, path_join i.cache_root e.0) ∷ r.0, r.1))
      → (i : State lru) → P i (evict_loop lru (suc (len i.cache)) i)
  victims_rule P under empty pop i =
      loop_rule P under empty pop (suc (len i.cache)) i (omega (arith, len-entries i.cache))
