-- ===== src/System/Tracked.antt =====
-- What the operations of the index of src/evict.rs do to the set of names that it tracks.
use git_cache_proxy.Base.{
  ℕ, Bytes, bytes_eq, bytes_eq_iff, List, [], ◌∷◌, map, Bool, true, ◌||◌, Option, some, is_some,
  mem, mem-insert, ◌≡◌, ◌⊎◌, refl, sym, ap, ◌∙◌, subst, arith, Bool-cases, Option-cases, All, inl,
  inr,
}
use git_cache_proxy.FilePath.{path_join}
use git_cache_proxy.Lru.{LruCache, Entry, lookup, promote, init, last?}
use git_cache_proxy.Lru.Entries.{lookup-without}
use git_cache_proxy.Evict.{
  State, touch, record_blob, mark_changed, track, take_dirty, set_size, take_victims, drop_one,
  drop_all, finish, sweep, tracked,
}
use git_cache_proxy.Evict.Loop.{Victims, victims_rule}
use git_cache_proxy.Evict.Pass.{lookup-set_size}
use git_cache_proxy.Evict.Reconcile.{lookup-finish, mem-sweep}

lookup-promote : (n k : Bytes) (l : List Entry) → lookup k (promote n l) ≡ lookup k l
unfolding promote lookup
lookup-promote n k l = ground (arith, lookup-without n k l, bytes_eq_iff n k)

-- The last entry, or one of the others.
lookup-last :
    (k : Bytes) (l : List Entry)
    → is_some (lookup k l) ≡ true
    → (is_some (lookup k (init l)) ≡ true) ⊎ ((v : ℕ) × (last? l ≡ some (k, v)))
unfolding lookup
lookup-last k [] e = absurd (ground (arith, e))
lookup-last k ((j, v) ∷ []) e = inr (v, ground (arith, e, bytes_eq_iff j k))
lookup-last k ((j, v) ∷ x ∷ l) e = elim (Bool-cases (bytes_eq j k)) [
  | inl same ↦ inl (ground (arith, same))
  | inr other ↦ elim (lookup-last k (x ∷ l) (ground (arith, e, other))) [
    | inl h ↦ inl (ground (arith, other, h))
    | inr h ↦ inr h
  ]
]

module _ (lru : LruCache) where
  open lru use {
    entries, get, put, peek, get_value, entries-get, put_value, entries-put, peek_value,
    entries-write_peeked, pop_lru, pop_lru_value, entries-pop_lru,
  }

  abbrev pub is_tracked : Bytes → State lru → Bool
  is_tracked k i = is_some (lookup k (entries i.cache))

  tracked-touch : (n k : Bytes) (i : State lru) → is_tracked k (touch lru n i) ≡ is_tracked k i
  unfolding touch
  tracked-touch n k i =
      ap is_some (ap (lookup k) (entries-get i.cache n) ∙ lookup-promote n k (entries i.cache))

  tracked-put :
      (n k : Bytes) (v : ℕ) (c : lru.Cache)
      → is_some (lookup k (entries (put c n v).1))
        ≡ (bytes_eq n k || is_some (lookup k (entries c)))
  unfolding lookup
  tracked-put n k v c =
      ap (λ l. is_some (lookup k l)) (entries-put c n v)
      ∙ ground (arith, lookup-without n k (entries c))

  pub tracked-record :
      (n k : Bytes) (v : ℕ) (i : State lru)
      → is_tracked k (record_blob lru n v i) ≡ (bytes_eq n k || is_tracked k i)
  unfolding record_blob
  tracked-record n k v i = tracked-put n k v i.cache

  pub tracked-mark :
      (n k : Bytes) (i : State lru)
      → is_tracked k (mark_changed lru n i) ≡ (bytes_eq n k || is_tracked k i)
  unfolding mark_changed track touch
  tracked-mark n k i = elim (Option-cases (get i.cache n).0) [
    | inl e ↦
        rw (mark_changed, track, e)
          (tracked-put n k 0 (get i.cache n).1 ∙ ap (λ b. bytes_eq n k || b) (tracked-touch n k i))
    | inr (v, e) ↦
        rw (mark_changed, track, e)
          (tracked-touch n k i
            ∙ ground (
              arith,
              bytes_eq_iff n k,
              ap (λ (o : Option ℕ). is_some o) (sym (get_value i.cache n) ∙ e),
            ))
  ]

  pub dirty-mark :
      (n k : Bytes) (i : State lru)
      → mem k (mark_changed lru n i).dirty ≡ (bytes_eq n k || mem k i.dirty)
  unfolding mark_changed
  dirty-mark n k i = ground (arith, mem-insert n k i.dirty)

  -- From one state to another: the root stays, no name is lost, and none stops being pending.
  pub record Keeps (i j : State lru) : Type 0 where
    pub same_root : j.cache_root ≡ i.cache_root
    pub tracked : (k : Bytes) → is_tracked k i ≡ true → is_tracked k j ≡ true
    pub pending : (k : Bytes) → mem k i.dirty ≡ true → mem k j.dirty ≡ true

  pub Keeps-same : (i j : State lru) → i ≡ j → Keeps i j
  Keeps-same i j e =
      subst (Keeps i) e (record { same_root = refl; tracked = λ k h. h; pending = λ k h. h })

  pub Keeps-trans : (i j k : State lru) → Keeps i j → Keeps j k → Keeps i k
  Keeps-trans i j k a b = record {
    same_root = b.same_root ∙ a.same_root;
    tracked = λ n h. b.tracked n (a.tracked n h);
    pending = λ n h. b.pending n (a.pending n h);
  }

  pub Keeps-touch : (n : Bytes) (i : State lru) → Keeps i (touch lru n i)
  Keeps-touch n i = record {
    same_root = unfold touch in refl;
    tracked = λ k h. tracked-touch n k i ∙ h;
    pending = λ k h. unfold touch in h;
  }

  pub Keeps-mark : (n : Bytes) (i : State lru) → Keeps i (mark_changed lru n i)
  Keeps-mark n i = record {
    same_root = unfold mark_changed in refl;
    tracked = λ k h. ground (arith, tracked-mark n k i, h);
    pending = λ k h. ground (arith, dirty-mark n k i, h);
  }

  pub Keeps-record : (n : Bytes) (v : ℕ) (i : State lru) → Keeps i (record_blob lru n v i)
  Keeps-record n v i = record {
    same_root = unfold record_blob in refl;
    tracked = λ k h. ground (arith, tracked-record n k v i, h);
    pending = λ k h. unfold record_blob in h;
  }

  pub Keeps-set_size : (n : Bytes) (v : ℕ) (i : State lru) → Keeps i (set_size lru n v i)
  unfolding set_size
  Keeps-set_size n v i = record {
    same_root = ground arith;
    tracked = λ k h. ground (arith, lookup-set_size lru n k v i, h);
    pending = λ k h. ground (arith, h);
  }

  pub Keeps-drain :
      (i : State lru)
      → ((take_dirty lru i).1.cache_root ≡ i.cache_root)
        × ((k : Bytes) → is_tracked k (take_dirty lru i).1 ≡ is_tracked k i)
  unfolding take_dirty
  Keeps-drain i = (refl, λ k. refl)

  root-drop_one : (k : Bytes) (i : State lru) → (drop_one lru k i).cache_root ≡ i.cache_root
  unfolding drop_one
  root-drop_one k i = ground arith

  root-drop_all : (ks : List Bytes) (i : State lru) → (drop_all lru ks i).cache_root ≡ i.cache_root
  unfolding drop_all
  root-drop_all [] i = refl
  root-drop_all (k ∷ ks) i = root-drop_all ks (drop_one lru k i) ∙ root-drop_one k i

  pub finish-root :
      (missing : List Bytes) (i : State lru) → (finish lru missing i).cache_root ≡ i.cache_root
  unfolding finish
  finish-root [] i = refl
  finish-root (k ∷ ks) i = root-drop_all (k ∷ ks) i

  -- The index after `finish`: what is not tracked any more was missing and not pending.
  pub finish-tracked :
      (missing : List Bytes) (k : Bytes) (i : State lru)
      → is_tracked k i ≡ true
      → (mem k missing ≡ true → mem k i.dirty ≡ true)
      → is_tracked k (finish lru missing i) ≡ true
  finish-tracked missing k i h busy = elim (Bool-cases (mem k missing)) [
    | inl gone ↦ ground (arith, lookup-finish lru missing k i, h, busy gone)
    | inr there ↦ ground (arith, lookup-finish lru missing k i, h, there)
  ]

  -- What a sweep finds gone is gone.
  pub sweep-gone :
      (gone : Bytes → Bool) (k : Bytes) (i : State lru)
      → mem k (sweep gone (tracked lru i)) ≡ true
      → gone (path_join i.cache_root k) ≡ true
  unfolding tracked
  sweep-gone gone k i h = ground (arith, mem-sweep gone i.cache_root k (entries i.cache), h)

  abbrev pub names : List (Bytes × Bytes) → List Bytes
  names l = map (λ (v : Bytes × Bytes). v.0) l

  abbrev pub DirsUnder : Bytes → List (Bytes × Bytes) → Type 0
  DirsUnder root l = All (λ (v : Bytes × Bytes). v.1 ≡ path_join root v.0) l

  -- A name that the index tracks is a victim or still tracked; a victim's path is that of its name.
  pub record Takes (i : State lru) (r : Victims lru) : Type 0 where
    pub same_root : r.1.cache_root ≡ i.cache_root
    pub dirs : DirsUnder i.cache_root r.0
    pub kept :
        (k : Bytes) → is_tracked k i ≡ true → (is_tracked k r.1 ≡ true) ⊎ (mem k (names r.0) ≡ true)

  pub take_victims-Takes : (i : State lru) → Takes i (take_victims lru i)
  unfolding take_victims
  take_victims-Takes i =
      let t =
        victims_rule lru Takes
          (λ j under. record { same_root = refl; dirs = tt; kept = λ k h. inl h })
          (λ j nil nil'. record {
            same_root = refl;
            dirs = tt;
            kept = λ k h. inl (ap (λ l. is_some (lookup k l)) (nil' ∙ sym nil) ∙ h);
          })
          (λ j e r over last rest. record {
            same_root = rest.same_root;
            dirs = (refl, rest.dirs);
            kept = λ k h. elim (lookup-last k (entries j.cache) h) [
              | inl there ↦
                  elim (rest.kept k
                    (ap (λ l. is_some (lookup k l)) (entries-pop_lru j.cache) ∙ there)) [
                      | inl still ↦ inl still
                      | inr after ↦ inr (ground (arith, after))
                    ]
              | inr (v, here) ↦ inr (ground (arith, bytes_eq_iff e.0 k, sym last ∙ here))
            ];
          })
          i in
      record { same_root = t.same_root; dirs = t.dirs; kept = t.kept }
