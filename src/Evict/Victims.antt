-- ===== src/Evict/Victims.antt =====
-- `CacheIndex::take_victims` against its contract: the least recently used entries, no more of them
-- than it takes to come back under the cap.
use git_cache_proxy.Base.{
  ℕ, ◌+◌, ◌≤◌, ◌<◌, ◌%◌, u64_mod, Bytes, bytes_eq_iff, List, [], ◌∷◌, ◌++◌, map, append_assoc,
  append-nil, some, ◌≡◌, ◌⊎◌, inl, inr, refl, ap, sym, ◌∙◌, ltb, ltb→lt, true, false, arith,
}
use mathlib.Core.List.{reverse, reverse-cons, reverse-append}
use git_cache_proxy.FilePath.{path_join}
use git_cache_proxy.Lru.{LruCache, Entry, lookup, last?, init, promote, without}
use git_cache_proxy.Lru.Entries.{sum_sizes, sum_sizes-init, last?-eq-some, sum_sizes-promote}
use git_cache_proxy.Evict.{State, take_victims, touch}
use git_cache_proxy.Evict.Loop.{Victims, popped, emptied, victims_rule}
use git_cache_proxy.Evict.Totals.{IsCounted, pop_lru-Counts, touch-IsCounted}

-- The name and the directory that are reported for an entry.
abbrev pub report : Bytes → Entry → Bytes × Bytes
report root e = (e.0, path_join root e.0)

module _ (lru : LruCache) where
  open lru use {
    entries, get, pop_lru, pop_lru_value, entries-pop_lru, entries-get, entries-Distinct,
  }

  -- The total did not wrap.
  abbrev pub IsExact : State lru → Type 0
  IsExact i = IsCounted lru i × (sum_sizes (entries i.cache) < u64_mod)

  -- What a call that takes `i` to the victims and the state `r` has done.
  pub record Evicts (i : State lru) (r : Victims lru) : Type 0 where
    -- the evicted entries, the first evicted first
    pub evicted : List Entry
    -- they are the tail of the access order, taken from its end
    pub order : entries i.cache ≡ entries r.1.cache ++ reverse evicted
    pub reported : r.0 ≡ map (report i.cache_root) evicted
    pub under : sum_sizes (entries r.1.cache) ≤ i.max_bytes
    -- with the last one still there the cache would be over its cap
    pub needed :
        (evicted ≡ [])
        ⊎ ((e : Entry) × (last? evicted ≡ some e)
            × (i.max_bytes < sum_sizes (entries r.1.cache) + e.1))
    pub pending : r.1.dirty ≡ i.dirty
    pub exact : IsExact r.1

  exact_total : (i : State lru) → IsExact i → i.total ≡ sum_sizes (entries i.cache)
  exact_total i h = omega (arith, h.0.total_eq, h.1)

  stop-Evicts : (i : State lru) → ltb i.max_bytes i.total ≡ false → IsExact i → Evicts i ([], i)
  stop-Evicts i below h = record {
    evicted = [];
    order = sym (append-nil (entries i.cache));
    reported = refl;
    under = ground (arith, exact_total i h, below);
    needed = inl refl;
    pending = refl;
    exact = h;
  }

  empty-Evicts :
      (i : State lru)
      → entries i.cache ≡ []
      → entries (pop_lru i.cache).1 ≡ []
      → IsExact i
      → Evicts i ([], emptied lru i)
  unfolding sum_sizes
  empty-Evicts i e e' h = record {
    evicted = [];
    order = e ∙ sym (append-nil _ ∙ e');
    reported = refl;
    under = rw e' (omega arith);
    needed = inl refl;
    pending = refl;
    exact = (
      record {
        total_eq = h.0.total_eq ∙ ap (λ l. sum_sizes l % u64_mod) (e ∙ sym e');
        sizes_fit = rw e' tt;
      },
      rw e' (omega arith),
    );
  }

  popped-IsExact :
      (i : State lru) (e : Entry)
      → last? (entries i.cache) ≡ some e
      → IsExact i
      → IsExact (popped lru i e)
  popped-IsExact i e last h = (
    pop_lru-Counts lru i.total i.cache e (pop_lru_value i.cache ∙ last) h.0,
    rw entries-pop_lru (omega (arith, sum_sizes-init (entries i.cache) e last, h.1)),
  )

  pop-Evicts :
      (i : State lru) (e : Entry) (r : Victims lru)
      → ltb i.max_bytes i.total ≡ true
      → last? (entries i.cache) ≡ some e
      → IsExact i
      → Evicts (popped lru i e) r
      → Evicts i ((e.0, path_join i.cache_root e.0) ∷ r.0, r.1)
  pop-Evicts i e r over last h v = record {
    evicted = e ∷ v.evicted;
    order =
        last?-eq-some (entries i.cache) e last
        ∙ (ap (λ l. l ++ e ∷ []) (sym (entries-pop_lru i.cache) ∙ v.order)
            ∙ (append_assoc (entries r.1.cache) (reverse v.evicted) (e ∷ [])
                ∙ ap (λ l. entries r.1.cache ++ l) (sym (reverse-cons e v.evicted))));
    reported = ap (λ l. report i.cache_root e ∷ l) v.reported;
    under = v.under;
    needed = inr (last_needed v.evicted alone v.needed);
    pending = v.pending;
    exact = v.exact;
  }
    where
      alone : v.evicted ≡ [] → i.max_bytes < sum_sizes (entries r.1.cache) + e.1
      alone nil = omega (
        arith,
        ltb→lt i.max_bytes i.total over,
        exact_total i h,
        sum_sizes-init (entries i.cache) e last,
        ap sum_sizes (sym (entries-pop_lru i.cache) ∙ v.order),
        ap sum_sizes
            (ap (λ l. entries r.1.cache ++ reverse l) nil ∙ append-nil (entries r.1.cache)),
      )

      last_needed :
          (l : List Entry)
          → (l ≡ [] → i.max_bytes < sum_sizes (entries r.1.cache) + e.1)
          → (l ≡ [])
            ⊎ ((x : Entry) × (last? l ≡ some x)
                × (i.max_bytes < sum_sizes (entries r.1.cache) + x.1))
          → (x : Entry) × (last? (e ∷ l) ≡ some x)
            × (i.max_bytes < sum_sizes (entries r.1.cache) + x.1)
      last_needed [] f k = (e, refl, f refl)
      last_needed (y ∷ l) f (inl k) = cc
      last_needed (y ∷ l) f (inr k) = k

  -- From an index whose total did not wrap, `take_victims` evicts a tail of the access order, the
  -- least recently used entry first, and reports for each its name and directory. What stays is
  -- within the cap and keeps its order, and with the last victim it would be over the cap: no
  -- entry is evicted without need. The pending measurements are kept.
  pub take_victims-Evicts : (i : State lru) → IsExact i → Evicts i (take_victims lru i)
  unfolding take_victims
  take_victims-Evicts i h =
      let v =
        victims_rule lru (λ j r. IsExact j → Evicts j r) stop-Evicts empty-Evicts
          (λ j e r over last rest g.
            pop-Evicts j e r over last g (rest (popped-IsExact j e last g)))
          i h in
      record {
        evicted = v.evicted;
        order = v.order;
        reported = v.reported;
        under = v.under;
        needed = v.needed;
        pending = v.pending;
        exact = v.exact;
      }

  last_evicted : (l : List Entry) (e : Entry) → last? l ≡ some e → reverse l ≡ e ∷ reverse (init l)
  last_evicted l e last = ap reverse (last?-eq-some l e last) ∙ reverse-append (init l) (e ∷ [])

  head_survives :
      (max v : ℕ) (k : Bytes) (l es evicted : List Entry)
      → (k, v) ∷ l ≡ es ++ reverse evicted
      → v ≤ max
      → (evicted ≡ []) ⊎ ((e : Entry) × (last? evicted ≡ some e) × (max < sum_sizes es + e.1))
      → lookup k es ≡ some v
  unfolding lookup sum_sizes
  head_survives max v k l [] evicted e fits (inl nil) = cc (e ∙ ap reverse nil)
  head_survives max v k l [] evicted e fits (inr (x, last, over)) =
      absurd (ground (arith, e ∙ last_evicted evicted x last, over))
  head_survives max v k l ((j, w) ∷ es) evicted e fits needed = ground (arith, e, bytes_eq_iff j k)

  -- What a client has just used is not evicted, unless it alone is over the cap.
  pub touched_survives :
      (i : State lru) (k : Bytes) (v : ℕ)
      → IsExact i
      → lookup k (entries i.cache) ≡ some v
      → v ≤ i.max_bytes
      → lookup k (entries (take_victims lru (touch lru k i)).1.cache) ≡ some v
  touched_survives i k v h found fits =
      let t = take_victims-Evicts (touch lru k i) (touch-IsExact i k h) in
      head_survives i.max_bytes v k (without k (entries i.cache))
        (entries (take_victims lru (touch lru k i)).1.cache) t.evicted
        (sym (front i k v found) ∙ t.order) fits (unfold touch in t.needed)
    where
      front :
          (i : State lru) (k : Bytes) (v : ℕ)
          → lookup k (entries i.cache) ≡ some v
          → entries (touch lru k i).cache ≡ (k, v) ∷ without k (entries i.cache)
      front i k v found = unfold touch promote in entries-get i.cache k ∙ rw (found, promote) refl

      touch-IsExact : (i : State lru) (k : Bytes) → IsExact i → IsExact (touch lru k i)
      touch-IsExact i k h = (
        touch-IsCounted lru k i h.0,
        unfold touch in
            rw entries-get
              (rw (sum_sizes-promote k (entries i.cache) (entries-Distinct i.cache)) h.1),
      )
