-- ===== src/Lfs/Downloads/Safety.antt =====
-- What the clients of src/lfs.rs can rely on while any number of downloads and evictions run at once.
use git_cache_proxy.Base.{
  ℕ, suc, ◌<◌, u64_mod, Bytes, bytes_eq_iff, bytes_eq, true, Option, none, some, ◌≡◌, ◌⊎◌, refl,
  sym, ap, ◌∙◌, arith, inl, inr, Bool-cases,
}
use git_cache_proxy.Repo.{lfs_object_path, valid_lfs_oid}
use git_cache_proxy.Lfs.{LfsConfig, Upstream, tmp_path, sha256_hex}
use git_cache_proxy.Lfs.Files.{find-remove_file, lfs_object_path-injective}
use git_cache_proxy.Lfs.Downloads.{
  Files, ask, ask_slot, slot_at, holds, number_of, System, Step, acquire, proceed, evict, Reach,
  quiet,
}
use git_cache_proxy.Lfs.Downloads.Apart.{object_in_files, tmp_path-injective}
use git_cache_proxy.Lfs.Downloads.Moves.{Facts-Move}
use git_cache_proxy.Lfs.Downloads.Locks.{Locks-reach}
use git_cache_proxy.Lfs.Downloads.Invariant.{AllGood, Inv-reach}

-- The store as its clients see it: a content for each oid.
abbrev pub store_of : LfsConfig → System → Bytes → Option Bytes
store_of cfg s o = object_in_files cfg o s.files

-- What may happen to it: one object gets a content whose hash is its oid, or one object goes.
pub data Change (up : Upstream) (s t : Bytes → Option Bytes) : Type 0 where
  fetched :
      (oid : Bytes)
      → ((o : Bytes)
          → valid_lfs_oid o ≡ true
          → (t o ≡ s o) ⊎ ((o ≡ oid) × ((c : Bytes) × (t o ≡ some c) × (sha256_hex up c ≡ oid))))
      → Change up s t
  evicted :
      (oid : Bytes)
      → ((o : Bytes) → valid_lfs_oid o ≡ true → (t o ≡ s o) ⊎ ((o ≡ oid) × (t o ≡ none)))
      → Change up s t

-- From any disk, after any steps of calls, of tasks that evict, and of clients that go away, in any
-- order: no two calls download the same object, for two that hold the lock of their object, and ask
-- for the same, are the same call.
pub single_flight :
    (up : Upstream) (cfg : LfsConfig) (oid : ℕ → Bytes) (f : Files) (n : ℕ) (s : System)
    → Reach up cfg oid (quiet f) n s
    → (i j : ℕ) → oid i ≡ oid j
    → holds (s.pc i) ≡ true
    → holds (s.pc j) ≡ true
    → i ≡ j
single_flight up cfg oid f n s reached i j same on on' =
    let h = Locks-reach oid up cfg f n s reached in
    let (l, mine) = h.owned i on in
    let (m, other) = h.owned j on' in
    let first = h.slotted i l mine in
    let second = h.slotted j m other in
    let lock : some l ≡ some m = sym first ∙ (ap (λ o. slot_at o s.slots) same ∙ second) in
    h.alone i j l mine (other ∙ sym lock) on on'

module _ (up : Upstream) (cfg : LfsConfig) (oid : ℕ → Bytes)
    (well : (i : ℕ) → valid_lfs_oid (oid i) ≡ true) (f : Files) (good : AllGood up cfg f) (n : ℕ)
    (room : n < u64_mod) (s : System) (reached : Reach up cfg oid (quiet f) n s) where
  -- From a disk with good objects, after fewer than 2^64 steps of any calls, of tasks that evict, and
  -- of clients that go away, in any order: the file of every object has the content that its name
  -- says.
  pub objects_stay_good :
      (o c : Bytes)
      → valid_lfs_oid o ≡ true
      → object_in_files cfg o s.files ≡ some c
      → sha256_hex up c ≡ o
  objects_stay_good = (Inv-reach up cfg oid well f n s good room reached).good

  -- From a disk with good objects, after fewer than 2^64 such steps: two calls whose temporary files
  -- have the same path are the same call.
  pub downloads_apart :
      (i j a b : ℕ)
      → number_of (s.pc i) ≡ some a
      → number_of (s.pc j) ≡ some b
      → tmp_path cfg a ≡ tmp_path cfg b
      → i ≡ j
  downloads_apart i j a b p q same =
      let h = Inv-reach up cfg oid well f n s good room reached in
      let equal : a ≡ b =
        tmp_path-injective cfg a b (omega (arith, h.given i a p, h.few, room))
          (omega (arith, h.given j b q, h.few, room)) same in
      h.unique i j a p (q ∙ ap some (sym equal))

  -- From a disk with good objects, after fewer than 2^64 such steps, and if one more keeps their number
  -- below 2^64: whatever a call, a client or the task
  -- that evicts does next, for the clients of the store at most one object changes, and it gets a
  -- content whose hash is its oid, or goes.
  pub step_changes :
      (t : System)
      → suc n < u64_mod
      → Step up cfg oid s t
      → Change up (store_of cfg s) (store_of cfg t)
  step_changes _ more (ask_slot i w o) = unfold ask in fetched (oid i) (λ o v. inl refl)
  step_changes _ more (acquire i l w mine free) = fetched (oid i) (λ o v. inl refl)
  step_changes _ more (proceed i mv) =
      let h = Inv-reach up cfg oid well f n s good room reached in
      fetched (oid i)
        (Facts-Move up cfg (oid i) (well i) (omega (arith, h.few, more))
          (λ m e. omega (arith, h.given i m e, h.few, room)) (h.sound i) mv).objects
  step_changes _ more (evict k v) = evicted k (λ o w.
      let gone =
        find-remove_file (lfs_object_path cfg.cache_root k) (lfs_object_path cfg.cache_root o)
          s.files in
      elim (Bool-cases
        (bytes_eq (lfs_object_path cfg.cache_root k) (lfs_object_path cfg.cache_root o))) [
          | inl e ↦ inr (
            sym (
                lfs_object_path-injective cfg.cache_root k o v w (
                  (bytes_eq_iff (lfs_object_path cfg.cache_root k)
                      (lfs_object_path cfg.cache_root o)).0
                    e)),
            ground (arith, gone, e),
          )
          | inr e ↦ inl (ground (arith, gone, e))
        ])
