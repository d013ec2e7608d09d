-- ===== src/Evict/Run.antt =====
-- The background task of src/evict.rs: its loop over passes, reconciliations and the shutdown.
use git_cache_proxy.Base.{
  ℕ, ◌<◌, u64_mod, All, Bytes, List, [], ◌∷◌, map, Bool, true, false, ◌||◌, if◌then◌else◌, ◌≡◌,
  refl,
}
use git_cache_proxy.Lru.{LruCache}
use git_cache_proxy.Evict.{
  State, take_dirty, take_victims, set_size, record_eviction, cache_dir, reconcile_missing, finish,
  sweep, tracked,
}
use git_cache_proxy.Evict.Maintain.{
  Disk, Gaps, delete, set_sizes, measure_all, delete_one, delete_all, measure_pass, maintain,
}
use git_cache_proxy.Evict.Consistent.{
  Section, Fits, drains, sets_size, evicts, drops, step, run, IsConsistent, step-IsConsistent,
  run-IsConsistent, last_gauge,
}

-- One turn of the loop: how the disk answers to the pass; what other tasks do to the index inside the
-- pass, behind each of its critical sections, and before the task wakes; which of the three it can
-- wake for; and, if it reconciles, what the sweep finds, whether it comes back, and what other tasks
-- do during it.
pub record Turn : Type 0 where
  pub disk : Disk
  pub after_drain : List Section
  pub after_size : Bytes → List Section
  pub after_take : List Section
  pub after_delete : Bytes → List Section
  pub others : List Section
  pub shutdown : Bool
  pub tick : Bool
  pub gone : Bytes → Bool
  pub joined : Bool
  pub during : List Section

-- Sizes of files are `u64`.
pub record TurnFits (t : Turn) : Type 0 where
  pub sizes : (d : Bytes) → t.disk.measured d < u64_mod
  pub after_drain : All Fits t.after_drain
  pub after_size : (n : Bytes) → All Fits (t.after_size n)
  pub after_take : All Fits t.after_take
  pub after_delete : (n : Bytes) → All Fits (t.after_delete n)
  pub others : All Fits t.others
  pub during : All Fits t.during

abbrev pub any_shutdown : List Turn → Bool
any_shutdown [] = false
any_shutdown (t ∷ l) = t.shutdown || any_shutdown l

module _ (lru : LruCache) where
  open lru use {entries}

  abbrev pub gaps_of : Turn → Gaps lru
  gaps_of t = record {
    after_drain = run lru t.after_drain;
    after_size = λ n. run lru (t.after_size n);
    after_take = run lru t.after_take;
    after_delete = λ n. run lru (t.after_delete n);
  }

  -- The index after the turns, and whether the task has stopped. The shutdown comes first, then the
  -- tick; a turn for neither is one for work.
  unfoldable pub evictor : List Turn → State lru → State lru × Bool
  unfolding maintain run reconcile_missing
  evictor [] i = (i, false)
  evictor (t ∷ l) i =
      let i' = run lru t.others (maintain lru t.disk (gaps_of t) i) in
      let reconciled = evictor l (reconcile_missing lru t.gone t.joined (run lru t.during) i') in
      let worked = evictor l i' in
      if t.shutdown then (i', true) else if t.tick then reconciled else worked

  set_sizes-IsConsistent :
      (gap : Bytes → List Section) (l : List (Bytes × ℕ)) (i : State lru)
      → ((n : Bytes) → All Fits (gap n))
      → All (λ (e : Bytes × ℕ). e.1 < u64_mod) l
      → IsConsistent lru i
      → IsConsistent lru (set_sizes lru (λ n. run lru (gap n)) l i)
  unfolding set_sizes step
  set_sizes-IsConsistent gap [] i g f h = h
  set_sizes-IsConsistent gap ((n, s) ∷ l) i g f h =
      set_sizes-IsConsistent gap l (run lru (gap n) (set_size lru n s i)) g f.1 (
        run-IsConsistent lru (gap n) (set_size lru n s i) (g n)
          (step-IsConsistent lru (sets_size n s) i f.0 h))

  counted_deletion :
      (b : Bool) (i : State lru)
      → IsConsistent lru i
      → IsConsistent lru (if b then record i { effects = record_eviction ∷ i.effects } else i)
  unfolding last_gauge
  counted_deletion false i h = h
  counted_deletion true i h = record {
    counted = record { total_eq = h.counted.total_eq; sizes_fit = h.counted.sizes_fit };
    shown = h.shown;
  }

  delete_all-IsConsistent :
      (disk : Disk) (gap : Bytes → List Section) (l : List (Bytes × Bytes)) (i : State lru)
      → ((n : Bytes) → All Fits (gap n))
      → IsConsistent lru i
      → IsConsistent lru (delete_all lru disk (λ n. run lru (gap n)) l i)
  unfolding delete_all delete_one
  delete_all-IsConsistent disk gap [] i g h = h
  delete_all-IsConsistent disk gap (v ∷ l) i g h =
      delete_all-IsConsistent disk gap l (run lru (gap v.0) (delete_one lru disk v i)) g (
        run-IsConsistent lru (gap v.0) (delete_one lru disk v i) (g v.0)
          (counted_deletion (delete disk v) i h))

  measured-fits :
      (disk : Disk) (i : State lru) (l : List Bytes)
      → ((d : Bytes) → disk.measured d < u64_mod)
      → All (λ (e : Bytes × ℕ). e.1 < u64_mod) (map (λ n. (n, disk.measured (cache_dir lru i n))) l)
  measured-fits disk i [] f = tt
  measured-fits disk i (n ∷ l) f = (f (cache_dir lru i n), measured-fits disk i l f)

  guarded-fits :
      (b : Bool) (l : List (Bytes × ℕ))
      → All (λ (e : Bytes × ℕ). e.1 < u64_mod) l
      → All (λ (e : Bytes × ℕ). e.1 < u64_mod) (if b then l else [])
  guarded-fits true l f = f
  guarded-fits false l f = tt

  maintain-IsConsistent :
      (t : Turn) (i : State lru)
      → TurnFits t
      → IsConsistent lru i
      → IsConsistent lru (maintain lru t.disk (gaps_of t) i)
  unfolding maintain measure_pass measure_all take_dirty step
  maintain-IsConsistent t i f h =
      let drained : State lru = (take_dirty lru i).1 in
      let sizes = map (λ n. (n, t.disk.measured (cache_dir lru drained n))) i.dirty in
      let given = if t.disk.joined then sizes else [] in
      let met : State lru = run lru t.after_drain drained in
      let measured : State lru = set_sizes lru (λ n. run lru (t.after_size n)) given met in
      let taken : State lru = (take_victims lru measured).1 in
      delete_all-IsConsistent t.disk t.after_delete (take_victims lru measured).0
        (run lru t.after_take taken) f.after_delete
        (run-IsConsistent lru t.after_take taken f.after_take (
          step-IsConsistent lru evicts measured tt (
            set_sizes-IsConsistent t.after_size given met f.after_size
              (guarded-fits t.disk.joined sizes (measured-fits t.disk drained i.dirty f.sizes))
              (run-IsConsistent lru t.after_drain drained f.after_drain
                (step-IsConsistent lru drains i tt h)))))

  finish-IsConsistent :
      (missing : List Bytes) (i : State lru)
      → IsConsistent lru i
      → IsConsistent lru (finish lru missing i)
  unfolding finish step
  finish-IsConsistent [] i h = h
  finish-IsConsistent (m ∷ ms) i h = step-IsConsistent lru (drops (m ∷ ms)) i tt h

  reconcile-IsConsistent :
      (gone : Bytes → Bool) (joined : Bool) (during : List Section) (i : State lru)
      → All Fits during
      → IsConsistent lru i
      → IsConsistent lru (reconcile_missing lru gone joined (run lru during) i)
  unfolding reconcile_missing
  reconcile-IsConsistent gone joined during i f h =
      elim (tracked lru i)
        as (λ (l : List (Bytes × Bytes)). IsConsistent lru (elim l [
          | [] ↦ i
          | t ∷ ts ↦ finish lru (if joined then sweep gone (t ∷ ts) else []) (run lru during i)
        ])) [
          | [] ↦ h
          | t ∷ ts ↦
              finish-IsConsistent (if joined then sweep gone (t ∷ ts) else []) (run lru during i)
                (run-IsConsistent lru during i f h)
        ]

  stopped_if :
      (b c : Bool) (r t : State lru × Bool) (i : State lru) (d : Bool)
      → r.1 ≡ d
      → t.1 ≡ d
      → (if b then (i, true) else if c then r else t).1 ≡ (b || d)
  stopped_if true c r t i d h k = refl
  stopped_if false true r t i d h k = h
  stopped_if false false r t i d h k = k

  IsConsistent-if :
      (b : Bool) (r t : State lru × Bool)
      → IsConsistent lru r.0
      → IsConsistent lru t.0
      → IsConsistent lru (if b then r else t).0
  IsConsistent-if true r t h k = h
  IsConsistent-if false r t h k = k

  -- Whatever the turns of the background task, the answers of the disk and the critical sections of
  -- other tasks behind each of its own, with sizes below 2^64: from a consistent index it leaves a
  -- consistent one (the total is the sum of the entry sizes as a `u64`, and the gauges show it), and
  -- it has stopped exactly if it was told to in one of the turns.
  pub evictor-IsConsistent :
      (l : List Turn) (i : State lru)
      → All TurnFits l
      → IsConsistent lru i
      → IsConsistent lru (evictor l i).0 × ((evictor l i).1 ≡ any_shutdown l)
  unfolding evictor
  evictor-IsConsistent [] i f h = (h, refl)
  evictor-IsConsistent (t ∷ l) i f h =
      let passed : State lru = run lru t.others (maintain lru t.disk (gaps_of t) i) in
      let k =
        run-IsConsistent lru t.others (maintain lru t.disk (gaps_of t) i) f.0.others
          (maintain-IsConsistent t i f.0 h) in
      let again : State lru = reconcile_missing lru t.gone t.joined (run lru t.during) passed in
      let (first, a) =
        evictor-IsConsistent l again f.1
          (reconcile-IsConsistent t.gone t.joined t.during passed f.0.during k) in
      let (second, b) = evictor-IsConsistent l passed f.1 k in
      (
        IsConsistent-if t.shutdown (passed, true) _ k
            (IsConsistent-if t.tick (evictor l again) (evictor l passed) first second),
        stopped_if t.shutdown t.tick (evictor l again) (evictor l passed) passed (any_shutdown l) a
            b,
      )
