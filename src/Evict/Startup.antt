-- ===== src/Evict/Startup.antt =====
-- `CacheIndex::new`: the entries after the startup scan, their order and their total.
use git_cache_proxy.Base.{
  ℕ, ◌+◌, ◌≤◌, ◌<◌, ◌%◌, u64_mod, add64, add64_lem, All, All-append, Bytes, bytes_eq, bytes_eq_iff,
  List, [], ◌∷◌, ◌++◌, map, append_assoc, append-nil, none, some, ◌≡◌, refl, ap, sym, ◌∙◌, ltb, leb,
  if◌then◌else◌, Bool-cases, inl, inr, arith, subst,
}
use mathlib.Core.List.{reverse, reverse-cons}
use git_cache_proxy.Lru.{LruCache, Entry, lookup, without, Distinct}
use git_cache_proxy.Lru.Entries.{sum_sizes, SizesFit, without-absent, sum_sizes-append}
use git_cache_proxy.Evict.{
  Scanned, insert_by_mtime, sort_by_mtime, load, new, set_cache_size, notify_one,
}
use git_cache_proxy.Evict.Consistent.{IsConsistent, last_gauge}

abbrev pub as_entries : List Scanned → List Entry
as_entries = map (λ m. (m.name, m.size))

-- Oldest first.
abbrev pub IsSorted : List Scanned → Type 0
IsSorted [] = Unit
IsSorted (s ∷ l) = All (λ t. s.mtime ≤ t.mtime) l × IsSorted l

insert-All :
    (n : ℕ) (s : Scanned) (l : List Scanned)
    → n ≤ s.mtime
    → All (λ t. n ≤ t.mtime) l
    → All (λ t. n ≤ t.mtime) (insert_by_mtime s l)
unfolding insert_by_mtime
insert-All n s [] h k = (h, tt)
insert-All n s (t ∷ l) h k = ground (arith, insert-All n s l h k.1, k.0, k.1)

All-mono :
    (m n : ℕ) (l : List Scanned) → m ≤ n → All (λ t. n ≤ t.mtime) l → All (λ t. m ≤ t.mtime) l
All-mono m n [] h k = tt
All-mono m n (t ∷ l) h k = (omega (arith, k.0), All-mono m n l h k.1)

insert-IsSorted : (s : Scanned) (l : List Scanned) → IsSorted l → IsSorted (insert_by_mtime s l)
unfolding insert_by_mtime
insert-IsSorted s [] h = (tt, tt)
insert-IsSorted s (t ∷ l) h = elim (Bool-cases (leb s.mtime t.mtime)) [
  | inl e ↦ rw e ((ground arith, All-mono s.mtime t.mtime l (ground arith) h.0), h)
  | inr e ↦ rw e (insert-All t.mtime s l (ground arith) h.0, insert-IsSorted s l h.1)
]

pub sort_by_mtime-IsSorted : (l : List Scanned) → IsSorted (sort_by_mtime l)
unfolding sort_by_mtime
sort_by_mtime-IsSorted [] = tt
sort_by_mtime-IsSorted (s ∷ l) = insert-IsSorted s (sort_by_mtime l) (sort_by_mtime-IsSorted l)

-- Sorting keeps what is tracked under each name, where no name stands twice.
lookup-insert :
    (k : Bytes) (s : Scanned) (l : List Scanned)
    → Distinct (as_entries (s ∷ l))
    → lookup k (as_entries (insert_by_mtime s l)) ≡ lookup k (as_entries (s ∷ l))
unfolding insert_by_mtime lookup
lookup-insert k s [] h = refl
lookup-insert k s (t ∷ l) h = ground (
  arith,
  lookup-insert k s l (ground arith, h.1.1),
  bytes_eq_iff s.name k,
  bytes_eq_iff t.name k,
  bytes_eq_iff t.name s.name,
  h.0,
)

insert-Distinct :
    (s : Scanned) (l : List Scanned)
    → Distinct (as_entries (s ∷ l))
    → Distinct (as_entries (insert_by_mtime s l))
unfolding insert_by_mtime lookup
insert-Distinct s [] h = h
insert-Distinct s (t ∷ l) h =
    let d : Distinct (as_entries (s ∷ l)) = (ground arith, h.1.1) in
    elim (Bool-cases (leb s.mtime t.mtime)) [
      | inl e ↦ rw e h
      | inr e ↦ rw e (
        lookup-insert t.name s l d
            ∙ ground (arith, h.0, h.1.0, bytes_eq_iff s.name t.name, bytes_eq_iff t.name s.name),
        insert-Distinct s l d,
      )
    ]

sum_sizes-insert :
    (s : Scanned) (l : List Scanned)
    → sum_sizes (as_entries (insert_by_mtime s l)) ≡ s.size + sum_sizes (as_entries l)
unfolding insert_by_mtime sum_sizes
sum_sizes-insert s [] = refl
sum_sizes-insert s (t ∷ l) = ground (arith, sum_sizes-insert s l)

-- The sorted list tracks the same sizes under the same names.
record SameEntries (a b : List Scanned) : Type 0 where
  distinct : Distinct (as_entries a)
  same : (k : Bytes) → lookup k (as_entries a) ≡ lookup k (as_entries b)
  same_sum : sum_sizes (as_entries a) ≡ sum_sizes (as_entries b)

lookup-cons :
    (s : Scanned) (a b : List Scanned) (k : Bytes)
    → lookup k (as_entries a) ≡ lookup k (as_entries b)
    → lookup k (as_entries (s ∷ a)) ≡ lookup k (as_entries (s ∷ b))
unfolding lookup
lookup-cons s a b k e = ap (λ r. if bytes_eq s.name k then some s.size else r) e

sum_sizes-cons :
    (s : Scanned) (a b : List Scanned)
    → sum_sizes (as_entries a) ≡ sum_sizes (as_entries b)
    → s.size + sum_sizes (as_entries a) ≡ sum_sizes (as_entries (s ∷ b))
unfolding sum_sizes
sum_sizes-cons s a b e = ap (λ r. s.size + r) e

sort-SameEntries : (l : List Scanned) → Distinct (as_entries l) → SameEntries (sort_by_mtime l) l
unfolding sort_by_mtime
sort-SameEntries [] h = record { distinct = tt; same = λ k. refl; same_sum = refl }
sort-SameEntries (s ∷ l) h =
    let ih = sort-SameEntries l h.1 in
    let d : Distinct (as_entries (s ∷ sort_by_mtime l)) = (ih.same s.name ∙ h.0, ih.distinct) in
    record {
      distinct = insert-Distinct s (sort_by_mtime l) d;
      same = λ k.
          lookup-insert k s (sort_by_mtime l) d ∙ lookup-cons s (sort_by_mtime l) l k (ih.same k);
      same_sum =
          sum_sizes-insert s (sort_by_mtime l) ∙ sum_sizes-cons s (sort_by_mtime l) l ih.same_sum;
    }

insert-SizesFit :
    (s : Scanned) (l : List Scanned)
    → s.size < u64_mod
    → SizesFit (as_entries l)
    → SizesFit (as_entries (insert_by_mtime s l))
unfolding insert_by_mtime
insert-SizesFit s [] h k = (h, tt)
insert-SizesFit s (t ∷ l) h k = ground (arith, insert-SizesFit s l h k.1, h, k.0, k.1)

sort-SizesFit :
    (l : List Scanned) → SizesFit (as_entries l) → SizesFit (as_entries (sort_by_mtime l))
unfolding sort_by_mtime
sort-SizesFit [] h = tt
sort-SizesFit (s ∷ l) h = insert-SizesFit s (sort_by_mtime l) h.0 (sort-SizesFit l h.1)

reverse-SizesFit : (l : List Entry) → SizesFit l → SizesFit (reverse l)
reverse-SizesFit [] h = tt
reverse-SizesFit (e ∷ l) h = subst SizesFit (sym (reverse-cons e l)) (
    All-append (λ (x : Entry). x.1 < u64_mod) (reverse l) (e ∷ []) (reverse-SizesFit l h.1)
      (h.0, tt))

abbrev Fresh : List Entry → List Scanned → Type 0
Fresh es = All (λ m. lookup m.name es ≡ none)

Fresh-cons :
    (k : Bytes) (v : ℕ) (es : List Entry) (l : List Scanned)
    → lookup k (as_entries l) ≡ none
    → Fresh es l
    → Fresh ((k, v) ∷ es) l
unfolding lookup
Fresh-cons k v es [] h f = tt
Fresh-cons k v es (m ∷ l) h f = (
  ground (arith, f.0, bytes_eq_iff k m.name, bytes_eq_iff m.name k),
  Fresh-cons k v es l (ground arith) f.1,
)

module _ (lru : LruCache) where
  open lru use {Cache, entries, unbounded, put, len, entries-unbounded, entries-put}

  load_lem :
      (l : List Scanned) (c : Cache) (t : ℕ) (es : List Entry)
      → entries c ≡ es
      → t ≡ sum_sizes es % u64_mod
      → Distinct (as_entries l)
      → Fresh es l
      → (entries (load lru l (c, t)).0 ≡ reverse (as_entries l) ++ es)
        × ((load lru l (c, t)).1 ≡ (sum_sizes (as_entries l) + sum_sizes es) % u64_mod)
  unfolding load sum_sizes
  load_lem [] c t es e h d f = (e, h ∙ ap (λ n. n % u64_mod) (omega arith))
  load_lem (m ∷ l) c t es e h d f =
      let (order, total) =
        load_lem l (put c m.name m.size).1 (add64 t m.size) ((m.name, m.size) ∷ es)
          (entries-put c m.name m.size
            ∙ ap (λ r. (m.name, m.size) ∷ r) (ap (without m.name) e ∙ without-absent m.name es f.0))
          (rw h (add64_lem (sum_sizes es) m.size ∙ ap (λ n. n % u64_mod) (omega arith))) d.1
          (Fresh-cons m.name m.size es l d.0 f.1) in
      (
        order
            ∙ sym (
                ap (λ r. r ++ es) (reverse-cons (m.name, m.size) (as_entries l))
                ∙ append_assoc (reverse (as_entries l)) ((m.name, m.size) ∷ []) es),
        total ∙ ap (λ n. n % u64_mod) (omega arith),
      )

  Fresh-nil : (l : List Scanned) → Fresh [] l
  unfolding lookup
  Fresh-nil [] = tt
  Fresh-nil (m ∷ l) = (refl, Fresh-nil l)

  sum_sizes-reverse : (l : List Entry) → sum_sizes (reverse l) ≡ sum_sizes l
  unfolding sum_sizes
  sum_sizes-reverse [] = refl
  sum_sizes-reverse ((k, v) ∷ l) = omega (
    arith,
    ap sum_sizes (reverse-cons (k, v) l),
    sum_sizes-append (reverse l) ((k, v) ∷ []),
    sum_sizes-reverse l,
  )

  module _ (root : Bytes) (max : ℕ) (scanned : List Scanned)
      (distinct : Distinct (as_entries scanned)) where
    loaded :
        (entries (load lru (sort_by_mtime scanned) (unbounded, 0)).0
          ≡ reverse (as_entries (sort_by_mtime scanned)) ++ [])
        × ((load lru (sort_by_mtime scanned) (unbounded, 0)).1
            ≡ (sum_sizes (as_entries (sort_by_mtime scanned)) + sum_sizes []) % u64_mod)
    loaded =
        load_lem (sort_by_mtime scanned) unbounded 0 [] entries-unbounded (unfold sum_sizes in refl)
          (sort-SameEntries scanned distinct).distinct (Fresh-nil (sort_by_mtime scanned))

    -- After the startup scan of entries with different names: the entries are those scanned, the
    -- newest modification time first, so that the oldest is the first to be evicted; the total is
    -- the sum of their sizes as a `u64`; the gauges show it; and the evictor is woken exactly
    -- when the total is over the cap.
    pub new_lem :
        let i = new lru root max scanned in
        (entries i.cache ≡ reverse (as_entries (sort_by_mtime scanned)))
        × IsSorted (sort_by_mtime scanned)
        × (i.total ≡ sum_sizes (as_entries scanned) % u64_mod)
        × (last_gauge i.effects ≡ some (i.total, len i.cache))
        × (i.effects ≡ (
            if ltb max i.total
            then notify_one ∷ set_cache_size i.total (len i.cache) ∷ []
            else set_cache_size i.total (len i.cache) ∷ []))
    unfolding new last_gauge
    new_lem = elim (Bool-cases (ltb max (load lru (sort_by_mtime scanned) (unbounded, 0)).1)) [
      | inl over ↦ rw over (order, sort_by_mtime-IsSorted scanned, total, refl, rw over)
      | inr under ↦ rw under (order, sort_by_mtime-IsSorted scanned, total, refl, rw under)
    ]
      where
        final : Cache × ℕ
        final = load lru (sort_by_mtime scanned) (unbounded, 0)

        order : entries final.0 ≡ reverse (as_entries (sort_by_mtime scanned))
        order = loaded.0 ∙ append-nil _

        total : final.1 ≡ sum_sizes (as_entries scanned) % u64_mod
        total =
            loaded.1
            ∙ ap (λ n. n % u64_mod)
                (unfold sum_sizes in omega (arith, (sort-SameEntries scanned distinct).same_sum))

    -- An index starts out consistent.
    pub new-IsConsistent :
        SizesFit (as_entries scanned) → IsConsistent lru (new lru root max scanned)
    new-IsConsistent fit =
        let (order, _, total, shown, _) = new_lem in
        record {
          counted = record {
            total_eq =
                total
                ∙ ap (λ n. n % u64_mod)
                    (sym (
                      ap sum_sizes order
                      ∙ (sum_sizes-reverse (as_entries (sort_by_mtime scanned))
                          ∙ (sort-SameEntries scanned distinct).same_sum)));
            sizes_fit =
                subst SizesFit (sym order) (
                  reverse-SizesFit (as_entries (sort_by_mtime scanned))
                    (sort-SizesFit scanned fit));
          };
          shown = shown;
        }
