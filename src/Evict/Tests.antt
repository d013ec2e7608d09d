-- ===== src/Evict/Tests.antt =====
-- Runs of the index over a list cache, and the theorems at concrete inputs.
use git_cache_proxy.Evict.Run.{Turn, TurnFits, evictor, evictor-IsConsistent}
use git_cache_proxy.Base.{
  All, false, mem, ◌<◌, ◌≤◌, u64_mod, Bytes, codes, bytes_eq, add64, sub64, List, [], ◌∷◌, Bool,
  true, not, ◌&&◌, none, is_some, ◌≡◌, refl, if◌then◌else◌, arith,
}
use git_cache_proxy.FilePath.{path_join, need_sep}
use git_cache_proxy.Lru.{Distinct, lookup, without}
use git_cache_proxy.Lru.Entries.{sum_sizes, SizesFit}
use git_cache_proxy.Lru.ListCache.{list_cache}
use git_cache_proxy.Evict.{
  Scanned, State, new, evict_loop, take_victims, take_dirty, sort_by_mtime, reconcile_missing,
}
use git_cache_proxy.Evict.Maintain.{Disk, removed, no_gaps, measure_pass, maintain}
use git_cache_proxy.Evict.Startup.{as_entries, new-IsConsistent}
use git_cache_proxy.Evict.Consistent.{touches, marks, IsConsistent}
use git_cache_proxy.Evict.Victims.{IsExact, Evicts, take_victims-Evicts}
use git_cache_proxy.Evict.Reconcile.{reconcile_exactly}
use git_cache_proxy.Evict.Pass.{maintain_lem}

abbrev root : Bytes
root = codes "/c"

-- The older mirror is `b`.
abbrev scanned : List Scanned
scanned =
    record { name = codes "a"; size = 30; mtime = 2 }
    ∷ record { name = codes "b"; size = 50; mtime = 1 }
    ∷ []

scanned-Distinct : Distinct (as_entries scanned)
unfolding lookup bytes_eq
scanned-Distinct = (refl, (refl, tt))

scanned-SizesFit : SizesFit (as_entries scanned)
scanned-SizesFit = omega arith

started : State list_cache
started = new list_cache root 60 scanned

started-IsConsistent : IsConsistent list_cache started
unfolding started
started-IsConsistent = new-IsConsistent list_cache root 60 scanned scanned-Distinct scanned-SizesFit

started_entries : list_cache.entries started.cache ≡ (codes "a", 30) ∷ (codes "b", 50) ∷ []
unfolding started new sort_by_mtime without bytes_eq add64
started_entries = refl

started-IsExact : IsExact list_cache started
unfolding sum_sizes
started-IsExact = (started-IsConsistent.counted, rw started_entries (omega arith))

evicts_oldest : (take_victims list_cache started).0 ≡ (codes "b", codes "/c/b") ∷ []
unfolding started new sort_by_mtime without bytes_eq take_victims evict_loop add64 sub64 path_join
    need_sep
evicts_oldest = refl

take_victims-Evicts_example : Evicts list_cache started (take_victims list_cache started)
take_victims-Evicts_example = take_victims-Evicts list_cache started started-IsExact

-- A disk on which `a` is gone.
abbrev gone : Bytes → Bool
gone dir = bytes_eq dir (codes "/c/a")

reconcile_exactly_example :
    lookup
      (codes "a")
      (list_cache.entries (reconcile_missing list_cache gone true (λ i. i) started).cache)
    ≡ (if is_some (lookup (codes "a") (list_cache.entries started.cache))
          && gone (path_join root (codes "a"))
          && not (mem (codes "a") started.dirty)
        then none
        else lookup (codes "a") (list_cache.entries started.cache))
unfolding started new sort_by_mtime without bytes_eq add64
reconcile_exactly_example =
    reconcile_exactly list_cache gone (λ i. i) started (codes "a") (λ e. cc e)

-- A disk on which every mirror measures 40 bytes and every deletion succeeds.
abbrev disk : Disk
disk = record { measured = λ d. 40; joined = true; remove_file = λ d. removed; evict = λ n d. true }

measured-fits : (d : Bytes) → disk.measured d < u64_mod
measured-fits d = omega arith

maintain_lem_example :
    sum_sizes (list_cache.entries (maintain list_cache disk (no_gaps list_cache) started).cache)
    ≤ started.max_bytes
unfolding started new sort_by_mtime without bytes_eq add64 measure_pass take_dirty sum_sizes
maintain_lem_example =
    (maintain_lem list_cache disk started measured-fits started-IsConsistent.counted
      (omega arith)).0

-- A turn for work, with another task's request, and then the shutdown.
abbrev turns : List Turn
turns =
    record {
      disk = disk;
      after_drain = marks (codes "m") ∷ [];
      after_size = λ n. touches n ∷ [];
      after_take = touches (codes "b") ∷ [];
      after_delete = λ n. marks n ∷ [];
      others = touches (codes "b") ∷ [];
      shutdown = false;
      tick = true;
      gone = gone;
      joined = true;
      during = marks (codes "m") ∷ [];
    }
    ∷ record {
      disk = disk;
      after_drain = [];
      after_size = λ n. [];
      after_take = [];
      after_delete = λ n. [];
      others = [];
      shutdown = true;
      tick = false;
      gone = gone;
      joined = true;
      during = [];
    }
    ∷ []

turns-TurnFits : All TurnFits turns
turns-TurnFits = (
  record {
    sizes = measured-fits;
    after_drain = (tt, tt);
    after_size = λ n. (tt, tt);
    after_take = (tt, tt);
    after_delete = λ n. (tt, tt);
    others = (tt, tt);
    during = (tt, tt);
  },
  (
    record {
      sizes = measured-fits;
      after_drain = tt;
      after_size = λ n. tt;
      after_take = tt;
      after_delete = λ n. tt;
      others = tt;
      during = tt;
    },
    tt,
  ),
)

evictor-IsConsistent_example :
    IsConsistent list_cache (evictor list_cache turns started).0
    × ((evictor list_cache turns started).1 ≡ true)
evictor-IsConsistent_example =
    evictor-IsConsistent list_cache turns started turns-TurnFits started-IsConsistent
