-- ===== src/System/Safety.antt =====
-- What holds in every state that a running proxy reaches.
use git_cache_proxy.Base.{
  Bytes, mem, Bool, true, false, if◌then◌else◌, ◌≡◌, ◌⊎◌, refl, sym, ap, ◌∙◌, subst, arith, inl,
  inr,
}
use git_cache_proxy.Json.{Json}
use git_cache_proxy.FilePath.{path_join}
use git_cache_proxy.Lru.{LruCache}
use git_cache_proxy.Repo.Resolve.{IsRepoName}
use git_cache_proxy.Evict.{State, take_dirty, set_size}
use git_cache_proxy.Repo.{lfs_object_path}
use git_cache_proxy.Lfs.{Lfs, Upstream, remove_file}
use git_cache_proxy.Lfs.Files.{find-remove_file}
use git_cache_proxy.Lfs.Integrity.{IsIntact}
use git_cache_proxy.Lfs.Served.{ensure_object-IsIntact}
use git_cache_proxy.System.{
  idle, measured, World, forget_lfs, same_store, git_call, lfs_call, leave_repo, repo_left,
  object_left, delete_mirror, delete_object, take_all, Step, repo_asked, object_asked, by_hand,
  drain, resize, take, evict_repo, evict_object, all_deleted, sweep_disk, drop, Reach, initial,
  after,
}
use git_cache_proxy.System.Tracked.{
  is_tracked, Keeps, Keeps-set_size, Keeps-drain, names, DirsUnder,
}
use git_cache_proxy.System.Accounted.{
  victims_of, missing_of, Accounted-Keeps, Inv, Inv-git_call, Inv-lfs_call, Inv-take,
}
use git_cache_proxy.System.Deletions.{
  Inv-delete_mirror, Inv-delete_object, Inv-sweep, Inv-drop, Inv-turn, Inv-by_hand,
}
use git_cache_proxy.System.Departures.{Inv-leave_repo, Inv-leave_object, IsIntact-leave_object}

module _ (lru : LruCache) where
  module _ (json : Json) (up : Upstream) (base root : Bytes) where
    pub Inv-step : (w v : World lru) → Step lru json up base w v → Inv lru root w → Inv lru root v
    Inv-step w _ (repo_asked name repo want_fetch body a e) h =
        Inv-git_call lru root name base repo want_fetch body a w e h
    Inv-step w _ (object_asked disk repo oid size valid) h =
        Inv-lfs_call lru root json up disk repo oid size w h
    Inv-step w _ (repo_left name repo renamed e absent) h =
        Inv-leave_repo lru root name base repo renamed w e h
    Inv-step w _ (object_left oid tmp stored valid hash) h =
        Inv-leave_object lru root oid tmp stored w h
    Inv-step w _ (by_hand path) h = Inv-by_hand lru root path w _ h
    Inv-step w _ (drain at) h =
        let (r, t) = Keeps-drain lru w.index in
        Inv-turn lru root w (take_dirty lru w.index).1 measured (ap victims_of at) refl refl r
          (λ k e. t k ∙ e) h
    Inv-step w _ (resize name size at) h =
        let keeps = Keeps-set_size lru name size w.index in
        Inv-measure w (set_size lru name size w.index) keeps h
      where
        Inv-measure :
            (v : World lru) (j : State lru)
            → Keeps lru v.index j
            → Inv lru root v
            → Inv lru root (record v { index = j })
        Inv-measure v j keeps h' = record {
          on = h'.on;
          rooted = keeps.same_root ∙ h'.rooted;
          dirs = h'.dirs;
          repos =
              λ k legal there. Accounted-Keeps lru v j v.git v.lfs k keeps (h'.repos k legal there);
        }
    Inv-step w _ (take at) h = Inv-take lru root w at h
    Inv-step w _ (evict_repo name dir rest renamed at mirror) h =
        Inv-delete_mirror lru root name dir rest renamed w at h
    Inv-step w _ (evict_object name path rest removed at blob) h =
        Inv-delete_object lru root name path rest removed w at blob h
    Inv-step w _ (all_deleted at) h =
        Inv-turn lru root w w.index idle (ap victims_of at) refl refl refl (λ k e. e) h
    Inv-step w _ (sweep_disk gone at absent absent') h = Inv-sweep lru root w gone at absent h
    Inv-step w _ (drop missing at) h = Inv-drop lru root w missing at h

    -- A process that starts with its mirrors in the index, and that is idle.
    pub record Starts (w : World lru) : Type 0 where
      pub on : w.git.cfg.has_index ≡ true
      pub at_root : w.index.cache_root ≡ root
      pub at_rest : w.phase ≡ idle
      pub in_index :
          (k : Bytes)
          → IsRepoName k
          → mem (path_join root k) w.git.mirrors ≡ true
          → is_tracked lru k w.index ≡ true

    pub Inv-start : (w : World lru) → Starts w → Inv lru root w
    Inv-start w h = record {
      on = h.on;
      rooted = h.at_root;
      dirs = subst (λ p. DirsUnder lru root (victims_of p)) (sym h.at_rest) tt;
      repos = λ k legal there. inl (
        h.in_index k legal there,
        λ m.
            let nothing : mem k (missing_of w.phase) ≡ false =
              ap (λ p. mem k (missing_of p)) h.at_rest in
            absurd (cc (m, nothing)),
      );
    }

    Inv-reach : (v w : World lru) → Starts v → Reach lru json up base v w → Inv lru root w
    Inv-reach v _ h initial = Inv-start v h
    Inv-reach v w h (after {v = u} before last) = Inv-step u w last (Inv-reach v u h before)

    -- A process whose index has the mirrors that are on the disk when it starts, and after it any
    -- steps of calls for repositories and objects, of clients that go away in the middle of one, of
    -- the background task and of an operator who deletes by hand, in any order: a mirror that is on
    -- the disk is tracked by the index, or is a victim that the background task has still to delete,
    -- or its name once escaped: it could not be deleted, or its client was gone when the clone was
    -- moved into place. A call that runs to its end is one step, so this is about the moments between
    -- calls.
    pub mirrors_accounted :
        (v w : World lru) (k : Bytes)
        → Starts v
        → Reach lru json up base v w
        → IsRepoName k
        → mem (path_join root k) w.git.mirrors ≡ true
        → (is_tracked lru k w.index ≡ true)
          ⊎ ((mem k (names lru (victims_of w.phase)) ≡ true) ⊎ (mem k w.escaped ≡ true))
    mirrors_accounted v w k h run legal there = elim ((Inv-reach v w h run).repos k legal there) [
      | inl (t, _) ↦ inl t
      | inr other ↦ inr other
    ]

    IsIntact-removed :
        (path : Bytes) (s : Lfs)
        → IsIntact up s
        → IsIntact up (record s { files = remove_file path s.files })
    IsIntact-removed path s h oid c valid e =
        h oid c valid
          (ground (arith, e, find-remove_file path (lfs_object_path s.cfg.cache_root oid) s.files))

    IsIntact-if :
        (b : Bool) (s t : Lfs) → IsIntact up s → IsIntact up t → IsIntact up (if b then s else t)
    IsIntact-if true s t h k = h
    IsIntact-if false s t h k = k

    IsIntact-step :
        (w v : World lru) → Step lru json up base w v → IsIntact up w.lfs → IsIntact up v.lfs
    unfolding git_call lfs_call leave_repo delete_mirror delete_object take_all
    IsIntact-step w _ (repo_asked name repo want_fetch body a e) h = h
    IsIntact-step w _ (object_asked disk repo oid size valid) h =
        ensure_object-IsIntact json up disk same_store (λ t h'. h') (λ t. refl) repo oid size valid
          (forget_lfs w.lfs) h
    IsIntact-step w _ (repo_left name repo renamed e absent) h = h
    IsIntact-step w _ (object_left oid tmp stored valid hash) h =
        IsIntact-leave_object lru up oid tmp stored w valid hash h
    IsIntact-step w _ (by_hand path) h = IsIntact-removed path w.lfs h
    IsIntact-step w _ (drain at) h = h
    IsIntact-step w _ (resize name size at) h = h
    IsIntact-step w _ (take at) h = h
    IsIntact-step w _ (evict_repo name dir rest renamed at mirror) h = h
    IsIntact-step w _ (evict_object name path rest removed at blob) h =
        IsIntact-if removed _ w.lfs (IsIntact-removed path w.lfs h) h
    IsIntact-step w _ (all_deleted at) h = h
    IsIntact-step w _ (sweep_disk gone at absent absent') h = h
    IsIntact-step w _ (drop missing at) h = h

    -- From an intact store, after any such steps: the file of every object has the content that its
    -- name says.
    pub reached-IsIntact :
        (v w : World lru) → IsIntact up v.lfs → Reach lru json up base v w → IsIntact up w.lfs
    reached-IsIntact v _ h initial = h
    reached-IsIntact v w h (after {v = u} before last) =
        IsIntact-step u w last (reached-IsIntact v u h before)
