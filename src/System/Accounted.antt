-- ===== src/System/Accounted.antt =====
-- What the calls of src/git.rs and src/lfs.rs, and the choice of the victims, leave accounted for.
use git_cache_proxy.Base.{
  ℕ, Bytes, List, [], mem, Bool, true, false, Option, ok, ◌≡◌, ◌⊎◌, sym, ap, ◌∙◌, subst, inl, inr,
}
use git_cache_proxy.Json.{Json}
use git_cache_proxy.FilePath.{path_join}
use git_cache_proxy.Lru.{LruCache}
use git_cache_proxy.Repo.{RepoRef, resolve}
use git_cache_proxy.Repo.Resolve.{IsRepoName, resolve-eq-ok}
use git_cache_proxy.Evict.{State, take_victims}
use git_cache_proxy.Git.Mirrors.{GitCache, Answers, ensure_fresh}
use git_cache_proxy.Lfs.{Lfs, Upstream, Disk, ensure_object}
use git_cache_proxy.System.{
  Phase, idle, measured, deleting, sweeping, World, forget_git, forget_lfs, same_store,
  git_accesses, lfs_accesses, git_call, lfs_call, take_all,
}
use git_cache_proxy.System.Calls.{Marks-ensure_fresh}
use git_cache_proxy.System.Accesses.{Keeps-git_accesses, Keeps-lfs_accesses, accesses-marked}
use git_cache_proxy.System.Tracked.{is_tracked, Keeps, names, DirsUnder, take_victims-Takes}
use git_cache_proxy.System.Names.{repo_key, same_path}

-- The victims that are left to delete, and the names that a sweep found gone.
abbrev pub victims_of : Phase → List (Bytes × Bytes)
victims_of idle = []
victims_of measured = []
victims_of (deleting l) = l
victims_of (sweeping l) = []

abbrev pub missing_of : Phase → List Bytes
missing_of idle = []
missing_of measured = []
missing_of (deleting l) = []
missing_of (sweeping l) = l

module _ (lru : LruCache) where
  -- A name that the background task will come to: it is tracked, and a sweep that is under way will not
  -- drop it; or it is a victim that is still to be deleted; or it escaped: its
  -- deletion failed, or the client that had it stored was gone before the index was told.
  abbrev pub Accounted : World lru → Bytes → Type 0
  Accounted w k =
      ((is_tracked lru k w.index ≡ true)
        × (mem k (missing_of w.phase) ≡ true → mem k w.index.dirty ≡ true))
      ⊎ ((mem k (names lru (victims_of w.phase)) ≡ true) ⊎ (mem k w.escaped ≡ true))

  pub record Inv (root : Bytes) (w : World lru) : Type 0 where
    pub on : w.git.cfg.has_index ≡ true
    pub rooted : w.index.cache_root ≡ root
    pub dirs : DirsUnder lru root (victims_of w.phase)
    pub repos :
        (k : Bytes) → IsRepoName k → mem (path_join root k) w.git.mirrors ≡ true → Accounted w k

  -- The parts of a state that are not about the index change nothing.
  pub Accounted-Keeps :
      (w : World lru) (j : State lru) (g : GitCache) (s : Lfs) (k : Bytes)
      → Keeps lru w.index j
      → Accounted w k
      → Accounted (record w { index = j; git = g; lfs = s }) k
  Accounted-Keeps w j g s k keeps (inl (t, busy)) =
      inl (keeps.tracked k t, λ m. keeps.pending k (busy m))
  Accounted-Keeps w j g s k keeps (inr other) = inr other

  pub Inv-git_call :
      (root name base : Bytes) (repo : RepoRef) (want_fetch : Bool) (body : Bytes) (a : Answers)
      (w : World lru)
      → resolve name base w.index.cache_root ≡ ok repo
      → Inv root w
      → Inv root (git_call lru repo want_fetch body a w)
  unfolding git_call
  Inv-git_call root name base repo want_fetch body a w e h =
      let g : GitCache = (ensure_fresh repo want_fetch body a (forget_git w.git)).1 in
      let marks = Marks-ensure_fresh repo want_fetch body a (forget_git w.git) h.on in
      let keeps = Keeps-git_accesses lru g.events w.index in
      let (same, dir, _) = repo_key name base w.index.cache_root repo e in
      let (legal, _) = resolve-eq-ok name base w.index.cache_root repo e in
      record {
        on = ap (λ c. c.has_index) marks.same_cfg ∙ h.on;
        rooted = keeps.same_root ∙ h.rooted;
        dirs = h.dirs;
        repos = λ k legal' there. elim (marks.news (path_join root k) there) [
          | inl old ↦
              Accounted-Keeps w (git_accesses lru g.events w.index) g w.lfs k keeps
                (h.repos k legal' old)
          | inr (is, m) ↦
              let its =
                same_path k name base root legal' legal
                  (is ∙ (sym dir ∙ ap (λ r. path_join r name) h.rooted)) in
              let (t, busy) = accesses-marked lru repo.name g.events w.index m in
              let own : repo.name ≡ k = same ∙ sym its in
              inl (
                subst (λ n. is_tracked lru n (git_accesses lru g.events w.index) ≡ true) own t,
                λ _. subst (λ n. mem n (git_accesses lru g.events w.index).dirty ≡ true) own busy,
              )
        ];
      }

  pub Inv-lfs_call :
      (root : Bytes) (json : Json) (up : Upstream) (disk : Disk) (repo oid : Bytes)
      (size : Option ℕ) (w : World lru)
      → Inv root w
      → Inv root (lfs_call lru json up disk repo oid size w)
  unfolding lfs_call
  Inv-lfs_call root json up disk repo oid size w h =
      let s : Lfs = (ensure_object json up disk same_store repo oid size (forget_lfs w.lfs)).1 in
      let keeps = Keeps-lfs_accesses lru s.events w.index in
      record {
        on = h.on;
        rooted = keeps.same_root ∙ h.rooted;
        dirs = h.dirs;
        repos = λ k legal there.
            Accounted-Keeps w (lfs_accesses lru s.events w.index) w.git s k keeps
              (h.repos k legal there);
      }

  pub Inv-take :
      (root : Bytes) (w : World lru) → w.phase ≡ measured → Inv root w → Inv root (take_all lru w)
  unfolding take_all
  Inv-take root w at h =
      let t = take_victims-Takes lru w.index in
      record {
        on = h.on;
        rooted = t.same_root ∙ h.rooted;
        dirs = subst (λ r. DirsUnder lru r (take_victims lru w.index).0) h.rooted t.dirs;
        repos = λ k legal there. elim (h.repos k legal there) [
          | inl (is, _) ↦ elim (t.kept k is) [
            | inl still ↦ inl (still, λ m. absurd (cc m))
            | inr victim ↦ inr (inl victim)
          ]
          | inr (inl v) ↦
              let none_yet : mem k (names lru (victims_of w.phase)) ≡ false =
                ap (λ p. mem k (names lru (victims_of p))) at in
              absurd (cc (v, none_yet))
          | inr (inr f) ↦ inr (inr f)
        ];
      }
