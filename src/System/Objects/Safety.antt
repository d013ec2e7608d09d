-- ===== src/System/Objects/Safety.antt =====
-- Which objects of a running proxy its background task comes to, and how others escape it.
use git_cache_proxy.Base.{Bytes, mem, true, false, ◌≡◌, ◌⊎◌, refl, sym, ap, ◌∙◌, subst, inl, inr}
use git_cache_proxy.Json.{Json}
use git_cache_proxy.Lru.{LruCache}
use git_cache_proxy.Repo.{lfs_object_key, valid_lfs_oid}
use git_cache_proxy.Evict.{take_victims, take_dirty, set_size, finish, sweep, tracked}
use git_cache_proxy.Git.Mirrors.{GitCache, ensure_fresh}
use git_cache_proxy.Lfs.{Upstream}
use git_cache_proxy.System.{
  idle, measured, deleting, sweeping, World, forget_git, git_accesses, git_call, take_all, Step,
  repo_left, object_left, repo_asked, object_asked, by_hand, drain, resize, take, evict_repo,
  evict_object, all_deleted, sweep_disk, drop,
}
use git_cache_proxy.System.Downloads.{there}
use git_cache_proxy.System.Accesses.{Keeps-git_accesses}
use git_cache_proxy.System.Tracked.{
  is_tracked, Keeps-set_size, Keeps-drain, finish-tracked, names, DirsUnder, take_victims-Takes,
}
use git_cache_proxy.System.Accounted.{victims_of, missing_of, Inv}
use git_cache_proxy.System.Safety.{Starts, Inv-start, Inv-step}
use git_cache_proxy.System.Objects.{
  ObjectInv, ObjectInv-Keeps, ObjectInv-lfs_call, ObjectInv-turn, no_victims, ObjectInv-removed,
  ObjectInv-delete_mirror, ObjectInv-delete_object, spared,
}
use git_cache_proxy.System.Departures.{ObjectInv-leave_repo, ObjectInv-leave_object}

module _ (lru : LruCache) where
  module _ (json : Json) (up : Upstream) (base root : Bytes) where
    -- No request for an object that a sweep under way has found gone.
    abbrev pub IsCalm : {w v : World lru} → Step lru json up base w v → Type 0
    IsCalm (object_asked {w = w} disk repo oid size valid) =
        mem (lfs_object_key oid) (missing_of w.phase) ≡ false
    IsCalm (repo_asked name repo want_fetch body a e) = Unit
    IsCalm (repo_left name repo renamed e absent) = Unit
    IsCalm (object_left oid tmp stored valid hash) = Unit
    IsCalm (by_hand path) = Unit
    IsCalm (drain at) = Unit
    IsCalm (resize name size at) = Unit
    IsCalm (take at) = Unit
    IsCalm (evict_repo name dir rest renamed at mirror) = Unit
    IsCalm (evict_object name path rest removed at blob) = Unit
    IsCalm (all_deleted at) = Unit
    IsCalm (sweep_disk gone at absent absent') = Unit
    IsCalm (drop missing at) = Unit

    -- The states that are reached by such steps.
    pub data CalmReach (init : World lru) : World lru → Type 0 where
      at_start : CalmReach init init
      calmly :
          {v w : World lru}
          → CalmReach init v
          → (last : Step lru json up base v w) → IsCalm last
          → CalmReach init w

    ObjectInv-step :
        (w v : World lru) (s : Step lru json up base w v)
        → IsCalm s
        → Inv lru root w
        → ObjectInv lru root w
        → ObjectInv lru root v
    ObjectInv-step w _ (repo_asked name repo want_fetch body a e) c i h =
        let g : GitCache = (ensure_fresh repo want_fetch body a (forget_git w.git)).1 in
        unfold git_call in
        ObjectInv-Keeps lru root w (git_accesses lru g.events w.index) g
          (Keeps-git_accesses lru g.events w.index) h
    ObjectInv-step w _ (object_asked disk repo oid size valid) c i h =
        ObjectInv-lfs_call lru root json up disk repo oid size w valid c h
    ObjectInv-step w _ (repo_left name repo renamed e absent) c i h =
        ObjectInv-leave_repo lru root repo renamed w h
    ObjectInv-step w _ (object_left oid tmp stored valid hash) c i h =
        ObjectInv-leave_object lru root oid tmp stored w valid h
    ObjectInv-step w _ (by_hand path) c i h = ObjectInv-removed lru root path w _ h
    ObjectInv-step w _ (drain at) c i h =
        ObjectInv-turn lru root w (take_dirty lru w.index).1 measured
          (λ o v e held. elim (no_victims lru w (lfs_object_key o) (ap victims_of at) held) [
            | inl t ↦ inl ((Keeps-drain lru w.index).1 (lfs_object_key o) ∙ t, refl)
            | inr f ↦ inr (inr f)
          ])
          h
    ObjectInv-step w _ (resize name size at) c i h =
        ObjectInv-Keeps lru root w (set_size lru name size w.index) w.git
          (Keeps-set_size lru name size w.index) h
    ObjectInv-step w _ (take at) c i h =
        let t = take_victims-Takes lru w.index in
        unfold take_all in
        ObjectInv-turn lru root w (take_victims lru w.index).1
          (deleting (take_victims lru w.index).0)
          (λ o v e held. elim (no_victims lru w (lfs_object_key o) (ap victims_of at) held) [
            | inl is ↦ elim (t.kept (lfs_object_key o) is) [
              | inl still ↦ inl (still, refl)
              | inr victim ↦ inr (inl victim)
            ]
            | inr f ↦ inr (inr f)
          ])
          h
    ObjectInv-step w _ (evict_repo name dir rest renamed at mirror) c i h =
        ObjectInv-delete_mirror lru root name dir rest renamed w at mirror h
    ObjectInv-step w _ (evict_object name path rest removed at blob) c i h =
        ObjectInv-delete_object lru root name path rest removed w at
          (subst (λ p. DirsUnder lru root (victims_of p)) at i.dirs) h
    ObjectInv-step w _ (all_deleted at) c i h =
        ObjectInv-turn lru root w w.index idle
          (λ o v e held. elim (no_victims lru w (lfs_object_key o) (ap victims_of at) held) [
            | inl t ↦ inl (t, refl)
            | inr f ↦ inr (inr f)
          ])
          h
    ObjectInv-step w _ (sweep_disk gone at absent absent') c i h =
        ObjectInv-turn lru root w w.index (sweeping (sweep gone (tracked lru w.index)))
          (λ o v e held. elim (no_victims lru w (lfs_object_key o) (ap victims_of at) held) [
            | inl t ↦ inl (t, spared lru gone w o (i.rooted ∙ sym h.stored) absent' e)
            | inr f ↦ inr (inr f)
          ])
          h
    ObjectInv-step w _ (drop missing at) c i h =
        ObjectInv-turn lru root w (finish lru missing w.index) idle
          (λ o v e held. elim held [
            | inl (t, m) ↦ inl (
              finish-tracked lru missing (lfs_object_key o) w.index t (λ gone.
                  let kept : mem (lfs_object_key o) missing ≡ false =
                    sym (ap (λ p. mem (lfs_object_key o) (missing_of p)) at) ∙ m in
                  absurd (cc (gone, kept))),
              refl,
            )
            | inr (inl victim) ↦
                let nothing : mem (lfs_object_key o) (names lru (victims_of w.phase)) ≡ false =
                  ap (λ p. mem (lfs_object_key o) (names lru (victims_of p))) at in
                absurd (cc (victim, nothing))
            | inr (inr f) ↦ inr (inr f)
          ])
          h

    -- A process whose index also has the objects that are on the disk.
    pub record HasObjects (w : World lru) : Type 0 where
      pub on : w.lfs.cfg.has_index ≡ true
      pub at_root : w.lfs.cfg.cache_root ≡ root
      pub in_index :
          (o : Bytes)
          → valid_lfs_oid o ≡ true
          → there o w.lfs ≡ true
          → is_tracked lru (lfs_object_key o) w.index ≡ true

    ObjectInv-reach :
        (v w : World lru)
        → Starts lru json up base root v
        → HasObjects v
        → CalmReach v w
        → Inv lru root w × ObjectInv lru root w
    ObjectInv-reach v _ s h at_start = (
      Inv-start lru json up base root v s,
      record {
        on = h.on;
        stored = h.at_root;
        objects = λ o valid e.
            inl (h.in_index o valid e, ap (λ p. mem (lfs_object_key o) (missing_of p)) s.at_rest);
      },
    )
    ObjectInv-reach v w s h (calmly {v = u} before last calm) =
        let (i, j) = ObjectInv-reach v u s h before in
        (Inv-step lru json up base root u w last i, ObjectInv-step u w last calm i j)

    -- A process whose index has the mirrors and the objects that are on the disk when it starts, and
    -- after it any steps of calls, of clients that go away in the middle of one, of the background
    -- task and of an operator, in any order, but for requests for an object that a sweep under way has
    -- found gone: an object that is on the disk is tracked by the index, or is a victim that is still
    -- to be deleted, or its key once escaped: it could not be deleted, or its client was gone when the
    -- download was moved into place. A call that runs to its end is one step, so this is about the
    -- moments between calls.
    pub objects_accounted :
        (v w : World lru) (o : Bytes)
        → Starts lru json up base root v
        → HasObjects v
        → CalmReach v w
        → valid_lfs_oid o ≡ true
        → there o w.lfs ≡ true
        → let k = lfs_object_key o in
          (is_tracked lru k w.index ≡ true)
          ⊎ ((mem k (names lru (victims_of w.phase)) ≡ true) ⊎ (mem k w.escaped ≡ true))
    objects_accounted v w o s h run valid e =
        elim ((ObjectInv-reach v w s h run).1.objects o valid e) [
          | inl (t, _) ↦ inl t
          | inr other ↦ inr other
        ]
