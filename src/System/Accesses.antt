-- ===== src/System/Accesses.antt =====
-- What the events of a call do to the index of src/evict.rs, replayed on it.
use git_cache_proxy.Base.{Bytes, List, [], ◌∷◌, true, mem, ◌≡◌, refl, arith, Bool-cases, inl, inr}
use git_cache_proxy.Lru.{LruCache}
use git_cache_proxy.Evict.{State}
use git_cache_proxy.Git.Mirrors.{
  Event, index_touch, index_mark_changed, record_upstream, observe_upstream, git_clone, git_fetch,
  git_fetch_wants, git_update_ref, remove_dir,
}
use git_cache_proxy.Lfs
use git_cache_proxy.Lfs.{LfsEvent}
use git_cache_proxy.System.{git_access, git_accesses, lfs_access, lfs_accesses}
use git_cache_proxy.System.Downloads.{is_record, recorded}
use git_cache_proxy.System.Calls.{is_mark, marked}
use git_cache_proxy.System.Tracked.{
  is_tracked, Keeps, Keeps-same, Keeps-trans, Keeps-touch, Keeps-mark, Keeps-record, tracked-record,
  tracked-mark, dirty-mark,
}

module _ (lru : LruCache) where
  Keeps-git_access : (e : Event) (i : State lru) → Keeps lru i (git_access lru e i)
  unfolding git_access
  Keeps-git_access (index_touch n) i = Keeps-touch lru n i
  Keeps-git_access (index_mark_changed n) i = Keeps-mark lru n i
  Keeps-git_access (record_upstream o s n) i = Keeps-same lru i i refl
  Keeps-git_access (observe_upstream o n) i = Keeps-same lru i i refl
  Keeps-git_access (git_clone u d c) i = Keeps-same lru i i refl
  Keeps-git_access (git_fetch d c) i = Keeps-same lru i i refl
  Keeps-git_access (git_fetch_wants d l) i = Keeps-same lru i i refl
  Keeps-git_access (git_update_ref d t) i = Keeps-same lru i i refl
  Keeps-git_access (remove_dir d) i = Keeps-same lru i i refl

  pub Keeps-git_accesses : (l : List Event) (i : State lru) → Keeps lru i (git_accesses lru l i)
  unfolding git_accesses
  Keeps-git_accesses [] i = Keeps-same lru i i refl
  Keeps-git_accesses (e ∷ l) i =
      Keeps-trans lru i (git_accesses lru l i) (git_access lru e (git_accesses lru l i))
        (Keeps-git_accesses l i) (Keeps-git_access e (git_accesses lru l i))

  Keeps-lfs_access : (e : LfsEvent) (i : State lru) → Keeps lru i (lfs_access lru e i)
  unfolding lfs_access
  Keeps-lfs_access (Lfs.index_touch k) i = Keeps-touch lru k i
  Keeps-lfs_access (Lfs.index_record_blob k v) i = Keeps-record lru k v i
  Keeps-lfs_access (Lfs.upstream_post u) i = Keeps-same lru i i refl
  Keeps-lfs_access (Lfs.upstream_get u) i = Keeps-same lru i i refl

  pub Keeps-lfs_accesses : (l : List LfsEvent) (i : State lru) → Keeps lru i (lfs_accesses lru l i)
  unfolding lfs_accesses
  Keeps-lfs_accesses [] i = Keeps-same lru i i refl
  Keeps-lfs_accesses (e ∷ l) i =
      Keeps-trans lru i (lfs_accesses lru l i) (lfs_access lru e (lfs_accesses lru l i))
        (Keeps-lfs_accesses l i) (Keeps-lfs_access e (lfs_accesses lru l i))

  access-marked :
      (k : Bytes) (e : Event) (i : State lru)
      → is_mark k e ≡ true
      → (is_tracked lru k (git_access lru e i) ≡ true) × (mem k (git_access lru e i).dirty ≡ true)
  unfolding git_access
  access-marked k (index_touch n) i h = absurd (cc h)
  access-marked k (index_mark_changed n) i h =
      (ground (arith, tracked-mark lru n k i, h), ground (arith, dirty-mark lru n k i, h))
  access-marked k (record_upstream o s n) i h = absurd (cc h)
  access-marked k (observe_upstream o n) i h = absurd (cc h)
  access-marked k (git_clone u d c) i h = absurd (cc h)
  access-marked k (git_fetch d c) i h = absurd (cc h)
  access-marked k (git_fetch_wants d l) i h = absurd (cc h)
  access-marked k (git_update_ref d t) i h = absurd (cc h)
  access-marked k (remove_dir d) i h = absurd (cc h)

  -- A mirror that a call marked is tracked after it, and pending.
  pub accesses-marked :
      (k : Bytes) (l : List Event) (i : State lru)
      → marked k l ≡ true
      → (is_tracked lru k (git_accesses lru l i) ≡ true)
        × (mem k (git_accesses lru l i).dirty ≡ true)
  unfolding git_accesses
  accesses-marked k [] i h = absurd (cc h)
  accesses-marked k (e ∷ l) i h = elim (Bool-cases (is_mark k e)) [
    | inl now ↦ access-marked k e (git_accesses lru l i) now
    | inr earlier ↦
        let before = accesses-marked k l i (ground (arith, h, earlier)) in
        let keeps = Keeps-git_access e (git_accesses lru l i) in
        (keeps.tracked k before.0, keeps.pending k before.1)
  ]

  access-recorded :
      (k : Bytes) (e : LfsEvent) (i : State lru)
      → is_record k e ≡ true
      → is_tracked lru k (lfs_access lru e i) ≡ true
  unfolding lfs_access
  access-recorded k (Lfs.index_touch j) i h = absurd (cc h)
  access-recorded k (Lfs.index_record_blob j v) i h = ground (arith, tracked-record lru j k v i, h)
  access-recorded k (Lfs.upstream_post u) i h = absurd (cc h)
  access-recorded k (Lfs.upstream_get u) i h = absurd (cc h)

  -- An object that a call recorded is tracked after it.
  pub accesses-recorded :
      (k : Bytes) (l : List LfsEvent) (i : State lru)
      → recorded k l ≡ true
      → is_tracked lru k (lfs_accesses lru l i) ≡ true
  unfolding lfs_accesses
  accesses-recorded k [] i h = absurd (cc h)
  accesses-recorded k (e ∷ l) i h = elim (Bool-cases (is_record k e)) [
    | inl now ↦ access-recorded k e (lfs_accesses lru l i) now
    | inr earlier ↦
        (Keeps-lfs_access e (lfs_accesses lru l i)).tracked k
          (accesses-recorded k l i (ground (arith, h, earlier)))
  ]
