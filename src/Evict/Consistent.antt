-- ===== src/Evict/Consistent.antt =====
-- Any interleaving of the critical sections of the index, from any tasks, keeps it consistent.
use git_cache_proxy.Base.{
  ℕ, ◌<◌, u64_mod, All, Bytes, List, [], ◌∷◌, Option, none, some, ◌≡◌, refl, arith,
}
use git_cache_proxy.Lru.{LruCache}
use git_cache_proxy.Lru.Entries.{length-promote}
use git_cache_proxy.Evict.{
  Effect, set_cache_size, notify_one, record_eviction, State, touch, record_blob, mark_changed,
  set_size, take_dirty, take_victims, drop_missing,
}
use git_cache_proxy.Evict.Totals.{
  IsCounted, touch-IsCounted, record_blob-IsCounted, mark_changed-IsCounted, set_size-IsCounted,
  take_victims-IsCounted, drop_missing-IsCounted,
}

-- What the gauges show: the last size that they were set to.
unfoldable pub last_gauge : List Effect → Option (ℕ × ℕ)
last_gauge [] = none
last_gauge (set_cache_size bytes count ∷ l) = some (bytes, count)
last_gauge (notify_one ∷ l) = last_gauge l
last_gauge (record_eviction ∷ l) = last_gauge l

-- The critical sections that change the index.
pub data Section : Type 0 where
  touches : Bytes → Section
  records : Bytes → ℕ → Section
  marks : Bytes → Section
  drains : Section
  sets_size : Bytes → ℕ → Section
  evicts : Section
  drops : List Bytes → Section

-- Sizes of files are `u64`.
abbrev pub Fits : Section → Type 0
Fits (records k v) = v < u64_mod
Fits (sets_size k v) = v < u64_mod
Fits _ = Unit

module _ (lru : LruCache) where
  open lru use {entries, get, len, peek, entries-Distinct, entries-get, len-entries}

  unfoldable pub step : Section → State lru → State lru
  step (touches k) i = touch lru k i
  step (records k v) i = record_blob lru k v i
  step (marks k) i = mark_changed lru k i
  step drains i = (take_dirty lru i).1
  step (sets_size k v) i = set_size lru k v i
  step evicts i = (take_victims lru i).1
  step (drops ks) i = drop_missing lru ks i

  unfoldable pub run : List Section → State lru → State lru
  unfolding step
  run [] i = i
  run (s ∷ l) i = run l (step s i)

  pub record IsConsistent (i : State lru) : Type 0 where
    pub counted : IsCounted lru i
    pub shown : last_gauge i.effects ≡ some (i.total, len i.cache)

  len-get : (c : lru.Cache) (k : Bytes) → len (get c k).1 ≡ len c
  len-get c k =
      rw (len-entries (get c k).1, len-entries c, entries-get)
        (length-promote k (entries c) (entries-Distinct c))

  set_size-shown :
      (k : Bytes) (v : ℕ) (i : State lru)
      → last_gauge i.effects ≡ some (i.total, len i.cache)
      → last_gauge (set_size lru k v i).effects
        ≡ some ((set_size lru k v i).total, len (set_size lru k v i).cache)
  unfolding set_size last_gauge
  set_size-shown k v i h = ground arith

  pub step-IsConsistent :
      (s : Section) (i : State lru) → Fits s → IsConsistent i → IsConsistent (step s i)
  unfolding step
  step-IsConsistent (touches k) i f h = record {
    counted = touch-IsCounted lru k i h.counted;
    shown = unfold touch in rw (len-get i.cache k) h.shown;
  }
  step-IsConsistent (records k v) i f h = record {
    counted = record_blob-IsCounted lru k v i f h.counted;
    shown = unfold record_blob last_gauge in refl;
  }
  step-IsConsistent (marks k) i f h = record {
    counted = mark_changed-IsCounted lru k i h.counted;
    shown = unfold mark_changed last_gauge in refl;
  }
  step-IsConsistent drains i f h = record {
    counted = unfold take_dirty in h.counted;
    shown = unfold take_dirty in h.shown;
  }
  step-IsConsistent (sets_size k v) i f h = record {
    counted = set_size-IsCounted lru k v i f h.counted;
    shown = set_size-shown k v i h.shown;
  }
  step-IsConsistent evicts i f h = record {
    counted = take_victims-IsCounted lru i h.counted;
    shown = unfold take_victims last_gauge in refl;
  }
  step-IsConsistent (drops ks) i f h = record {
    counted = drop_missing-IsCounted lru ks i h.counted;
    shown = unfold drop_missing last_gauge in refl;
  }

  -- From a consistent index, whatever critical sections run in whatever order: the total is the sum
  -- of the sizes of the entries, as a `u64`, and the gauges show that total and the entry count.
  pub run-IsConsistent :
      (l : List Section) (i : State lru) → All Fits l → IsConsistent i → IsConsistent (run l i)
  unfolding run
  run-IsConsistent [] i f h = h
  run-IsConsistent (s ∷ l) i f h = run-IsConsistent l (step s i) f.1 (step-IsConsistent s i f.0 h)
