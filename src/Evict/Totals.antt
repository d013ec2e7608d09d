-- ===== src/Evict/Totals.antt =====
-- The running total of the index is the sum of the sizes of its entries, whatever is done to it.
use git_cache_proxy.Base.{
  mem, ℕ, ◌%◌, ◌<◌, u64_mod, add64, sub64, add64-sub64, sub64_lem, Bytes, List, [], ◌∷◌, ◌≡◌, sym,
  ◌∙◌, ap, subst, none, some, Option-cases, inl, inr, Bool-cases, arith,
}
use git_cache_proxy.Lru.{LruCache, Entry, lookup, without, promote}
use git_cache_proxy.Lru.Entries.{
  or_zero, sum_sizes, SizesFit, sum_sizes-without, sum_sizes-promote, sum_sizes-assign,
  sum_sizes-init, without-absent, lookup-SizesFit, without-SizesFit, assign-SizesFit,
  promote-SizesFit, init-SizesFit, last-SizesFit,
}
use git_cache_proxy.Evict.{
  State, track, touch, record_blob, mark_changed, set_size, take_victims, drop_one, drop_all,
  drop_missing,
}
use git_cache_proxy.Evict.Loop.{victims_rule}

-- A total that counts a list of entries.
pub record Counts (total : ℕ) (l : List Entry) : Type 0 where
  pub total_eq : total ≡ sum_sizes l % u64_mod
  pub sizes_fit : SizesFit l

module _ (lru : LruCache) where
  open lru use {
    Cache, entries, unbounded, get, put, peek, write_peeked, pop, pop_lru, len, entries-Distinct,
    entries-unbounded, get_value, entries-get, put_value, entries-put, peek_value,
    entries-write_peeked, pop_value, entries-pop, pop_lru_value, entries-pop_lru,
  }

  abbrev pub IsCounted : State lru → Type 0
  IsCounted i = Counts i.total (entries i.cache)

  get-Counts :
      (t : ℕ) (c : Cache) (k : Bytes) → Counts t (entries c) → Counts t (entries (get c k).1)
  get-Counts t c k h = rw entries-get (record {
    total_eq = rw (sum_sizes-promote k (entries c) (entries-Distinct c)) h.total_eq;
    sizes_fit = promote-SizesFit k (entries c) h.sizes_fit;
  })

  put-Counts :
      (t : ℕ) (c : Cache) (k : Bytes) (v : ℕ)
      → v < u64_mod
      → Counts t (entries c)
      → Counts (add64 (sub64 t (or_zero (put c k v).0)) v) (entries (put c k v).1)
  unfolding sum_sizes
  put-Counts t c k v f h =
      rw (entries-put, put_value)
        (record {
          total_eq = rw h.total_eq (
              add64-sub64 (sum_sizes (entries c)) _ (or_zero (lookup k (entries c))) v
                (omega (arith, sum_sizes-without k (entries c) (entries-Distinct c)))
                (lookup-SizesFit k (entries c) h.sizes_fit));
          sizes_fit = (f, without-SizesFit k (entries c) h.sizes_fit);
        })

  -- A tracked entry keeps its size, a new one has size 0; either way it goes to the front.
  pub entries-track :
      (c : Cache) (k : Bytes)
      → entries (track lru k (get c k))
        ≡ (k, or_zero (lookup k (entries c))) ∷ without k (entries c)
  unfolding track promote
  entries-track c k = elim (Option-cases (lookup k (entries c))) [
    | inr (v, e) ↦ rw (get_value c k ∙ e, track) (rw (entries-get, e, promote))
    | inl e ↦ rw (get_value c k ∙ e, track) (rw (entries-put, entries-get) (rw (e, promote)))
  ]

  track-Counts :
      (t : ℕ) (c : Cache) (k : Bytes)
      → Counts t (entries c)
      → Counts t (entries (track lru k (get c k)))
  unfolding sum_sizes
  track-Counts t c k h = rw entries-track (record {
    total_eq =
        h.total_eq
        ∙ ap (λ n. n % u64_mod)
            (omega (arith, sum_sizes-without k (entries c) (entries-Distinct c)));
    sizes_fit =
        (lookup-SizesFit k (entries c) h.sizes_fit, without-SizesFit k (entries c) h.sizes_fit);
  })

  pop-Counts :
      (t : ℕ) (c : Cache) (k : Bytes) (v : ℕ)
      → (pop c k).0 ≡ some v
      → Counts t (entries c)
      → Counts (sub64 t v) (entries (pop c k).1)
  pop-Counts t c k v e h =
      let found : lookup k (entries c) ≡ some v = sym (pop_value c k) ∙ e in
      rw entries-pop (record {
        total_eq = rw h.total_eq (
            sub64_lem (sum_sizes (entries c)) _ v
              (ground (arith, sum_sizes-without k (entries c) (entries-Distinct c), found))
              (ground (arith, lookup-SizesFit k (entries c) h.sizes_fit, found)));
        sizes_fit = without-SizesFit k (entries c) h.sizes_fit;
      })

  pub pop_lru-Counts :
      (t : ℕ) (c : Cache) (e : Entry)
      → (pop_lru c).0 ≡ some e
      → Counts t (entries c)
      → Counts (sub64 t e.1) (entries (pop_lru c).1)
  pop_lru-Counts t c e q h = rw entries-pop_lru (record {
    total_eq = rw h.total_eq (
        sub64_lem (sum_sizes (entries c)) _ e.1
          (sum_sizes-init (entries c) e (sym (pop_lru_value c) ∙ q))
          (last-SizesFit (entries c) e h.sizes_fit (sym (pop_lru_value c) ∙ q)));
    sizes_fit = init-SizesFit (entries c) h.sizes_fit;
  })

  pub touch-IsCounted : (k : Bytes) (i : State lru) → IsCounted i → IsCounted (touch lru k i)
  unfolding touch
  touch-IsCounted k i h = get-Counts i.total i.cache k h

  pub record_blob-IsCounted :
      (k : Bytes) (v : ℕ) (i : State lru)
      → v < u64_mod
      → IsCounted i
      → IsCounted (record_blob lru k v i)
  unfolding record_blob
  record_blob-IsCounted k v i f h = put-Counts i.total i.cache k v f h

  pub mark_changed-IsCounted :
      (k : Bytes) (i : State lru) → IsCounted i → IsCounted (mark_changed lru k i)
  unfolding mark_changed
  mark_changed-IsCounted k i h = track-Counts i.total i.cache k h

  pub set_size-IsCounted :
      (k : Bytes) (v : ℕ) (i : State lru)
      → v < u64_mod
      → IsCounted i
      → IsCounted (set_size lru k v i)
  unfolding set_size
  set_size-IsCounted k v i f h = elim (Option-cases (peek i.cache k)) [
    | inl e ↦ rw (e, set_size) h
    | inr (old, e) ↦
        let found : lookup k (entries i.cache) ≡ some old = sym (peek_value i.cache k) ∙ e in
        rw (e, set_size) (written i.total i.cache old found h)
  ]
    where
      written :
          (t : ℕ) (c : Cache) (old : ℕ)
          → lookup k (entries c) ≡ some old
          → Counts t (entries c)
          → Counts (add64 (sub64 t old) v) (entries (write_peeked c k v))
      written t c old found g = rw entries-write_peeked (record {
        total_eq = rw g.total_eq (
            add64-sub64 (sum_sizes (entries c)) _ old v
              (ground (arith, sum_sizes-assign k v (entries c) (entries-Distinct c), found))
              (ground (arith, lookup-SizesFit k (entries c) g.sizes_fit, found)));
        sizes_fit = assign-SizesFit k v (entries c) f g.sizes_fit;
      })

  pub take_victims-IsCounted : (i : State lru) → IsCounted i → IsCounted (take_victims lru i).1
  unfolding take_victims
  take_victims-IsCounted =
      victims_rule lru (λ i r. IsCounted i → IsCounted r.1) (λ i _ h. h)
        (λ i e e' h. record {
          total_eq = h.total_eq ∙ ap (λ l. sum_sizes l % u64_mod) (e ∙ sym e');
          sizes_fit = subst SizesFit (e ∙ sym e') h.sizes_fit;
        })
        (λ i e r _ last rest h.
          rest (pop_lru-Counts i.total i.cache e (pop_lru_value i.cache ∙ last) h))

  drop_one-IsCounted : (k : Bytes) (i : State lru) → IsCounted i → IsCounted (drop_one lru k i)
  unfolding drop_one
  drop_one-IsCounted k i h = elim (Bool-cases (mem k i.dirty)) [
    | inl busy ↦ rw busy h
    | inr idle ↦ elim (Option-cases (pop i.cache k).0) [
      | inl e ↦ rw (idle, drop_one) (rw (e, drop_one) (absent e))
      | inr (v, e) ↦ rw (idle, drop_one) (rw (e, drop_one) (pop-Counts i.total i.cache k v e h))
    ]
  ]
    where
      absent : (pop i.cache k).0 ≡ none → Counts i.total (entries (pop i.cache k).1)
      absent e =
          rw (entries-pop, without-absent k (entries i.cache) (sym (pop_value i.cache k) ∙ e)) h

  pub drop_all-IsCounted :
      (ks : List Bytes) (i : State lru) → IsCounted i → IsCounted (drop_all lru ks i)
  unfolding drop_all
  drop_all-IsCounted [] i h = h
  drop_all-IsCounted (k ∷ ks) i h =
      drop_all-IsCounted ks (drop_one lru k i) (drop_one-IsCounted k i h)

  pub drop_missing-IsCounted :
      (ks : List Bytes) (i : State lru) → IsCounted i → IsCounted (drop_missing lru ks i)
  unfolding drop_missing
  drop_missing-IsCounted ks i h = drop_all-IsCounted ks i h
