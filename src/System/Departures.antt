-- ===== src/System/Departures.antt =====
-- What a client of src/git.rs or src/lfs.rs that goes away in the middle of its call leaves behind.
use git_cache_proxy.Base.{
  ◌∷◌, Bytes, bytes_eq, bytes_eq_iff, mem, mem-insert, Bool, true, false, Option, none, some, ok,
  is_some, ◌≡◌, ◌⊎◌, refl, sym, ap, ◌∙◌, arith, Bool-cases, inl, inr,
}
use git_cache_proxy.FilePath.{path_join}
use git_cache_proxy.Lru.{LruCache}
use git_cache_proxy.Repo.{RepoRef, resolve, valid_lfs_oid, lfs_object_key, lfs_object_path}
use git_cache_proxy.Repo.Resolve.{resolve-eq-ok}
use git_cache_proxy.Git.Mirrors.{GitCache, slot, touch_repo}
use git_cache_proxy.Lfs
use git_cache_proxy.Lfs.{Lfs, Upstream, LfsConfig, find_file, write_file, tmp_path, sha256_hex}
use git_cache_proxy.Lfs.Files.{find-write_file, lfs_object_path-injective}
use git_cache_proxy.Lfs.Integrity.{IsIntact}
use git_cache_proxy.Lfs.Downloads.{Files}
use git_cache_proxy.Lfs.Downloads.Apart.{object_in_files, object-write_tmp}
use git_cache_proxy.System.{World, forget_git, git_accesses, leave_repo, leave_object}
use git_cache_proxy.System.Accesses.{Keeps-git_accesses}
use git_cache_proxy.System.Names.{repo_key, same_path}
use git_cache_proxy.System.Accounted.{Accounted, Accounted-Keeps, Inv}
use git_cache_proxy.System.Objects.{Held, ObjectInv, ObjectInv-Keeps}

module _ (lru : LruCache) where
  asked-same :
      (name : Bytes) (g : GitCache)
      → let t = touch_repo name (slot name (forget_git g)) in
        (t.cfg ≡ g.cfg) × (t.mirrors ≡ g.mirrors)
  unfolding touch_repo slot
  asked-same name g = ground arith

  -- One more name that escaped.
  escaped-Accounted :
      (w : World lru) (n k : Bytes)
      → Accounted lru w k
      → Accounted lru (record w { escaped = n ∷ w.escaped }) k
  escaped-Accounted w n k (inl t) = inl t
  escaped-Accounted w n k (inr (inl v)) = inr (inl v)
  escaped-Accounted w n k (inr (inr f)) = inr (inr (ground (arith, f)))

  pub Inv-leave_repo :
      (root name base : Bytes) (repo : RepoRef) (renamed : Bool) (w : World lru)
      → resolve name base w.index.cache_root ≡ ok repo
      → Inv lru root w
      → Inv lru root (leave_repo lru repo renamed w)
  unfolding leave_repo
  Inv-leave_repo root name base repo false w e h =
      let g : GitCache = touch_repo repo.name (slot repo.name (forget_git w.git)) in
      let (same_cfg, mirrors) = asked-same repo.name w.git in
      let keeps = Keeps-git_accesses lru g.events w.index in
      record {
        on = ap (λ c. c.has_index) same_cfg ∙ h.on;
        rooted = keeps.same_root ∙ h.rooted;
        dirs = h.dirs;
        repos = λ k legal there'.
            Accounted-Keeps lru w (git_accesses lru g.events w.index) g w.lfs k keeps
              (h.repos k legal (ap (mem (path_join root k)) (sym mirrors) ∙ there'));
      }
  Inv-leave_repo root name base repo true w e h =
      let g : GitCache = touch_repo repo.name (slot repo.name (forget_git w.git)) in
      let (same_cfg, mirrors) = asked-same repo.name w.git in
      let keeps = Keeps-git_accesses lru g.events w.index in
      let (same, dir, _) = repo_key name base w.index.cache_root repo e in
      let (legal, _) = resolve-eq-ok name base w.index.cache_root repo e in
      record {
        on = ap (λ c. c.has_index) same_cfg ∙ h.on;
        rooted = keeps.same_root ∙ h.rooted;
        dirs = h.dirs;
        repos = λ k legal' there'. elim (Bool-cases (bytes_eq repo.cache_dir (path_join root k))) [
          | inl at ↦
              let is = (bytes_eq_iff repo.cache_dir (path_join root k)).0 at in
              let its =
                same_path k name base root legal' legal
                  (sym is ∙ (sym dir ∙ ap (λ r. path_join r name) h.rooted)) in
              let own : repo.name ≡ k = same ∙ sym its in
              inr (inr (ground (arith, bytes_eq_iff repo.name k, own)))
          | inr d ↦
              let old : mem (path_join root k) w.git.mirrors ≡ true =
                ap (mem (path_join root k)) (sym mirrors)
                ∙ ground
                    (arith, mem-insert repo.cache_dir (path_join root k) g.mirrors, d, there') in
              escaped-Accounted (record w { index = git_accesses lru g.events w.index; git = g })
                repo.name k
                (Accounted-Keeps lru w (git_accesses lru g.events w.index) g w.lfs k keeps
                  (h.repos k legal' old))
        ];
      }

  pub Inv-leave_object :
      (root oid : Bytes) (tmp : Option Bytes) (stored : Bool) (w : World lru)
      → Inv lru root w
      → Inv lru root (leave_object lru oid tmp stored w)
  unfolding leave_object
  Inv-leave_object root oid none stored w h = record {
    on = h.on;
    rooted = h.rooted;
    dirs = h.dirs;
    repos = h.repos;
  }
  Inv-leave_object root oid (some c) false w h = record {
    on = h.on;
    rooted = h.rooted;
    dirs = h.dirs;
    repos = h.repos;
  }
  Inv-leave_object root oid (some c) true w h = record {
    on = h.on;
    rooted = h.rooted;
    dirs = h.dirs;
    repos = λ k legal there'. escaped-Accounted w (lfs_object_key oid) k (h.repos k legal there');
  }

  -- The object that was moved into place, or another, as it was.
  stored-cases :
      (cfg : LfsConfig) (o oid c : Bytes) (f : Files)
      → valid_lfs_oid o ≡ true
      → valid_lfs_oid oid ≡ true
      → let g = write_file (lfs_object_path cfg.cache_root oid) c f in
        ((oid ≡ o) × (object_in_files cfg o g ≡ some c))
        ⊎ (object_in_files cfg o g ≡ object_in_files cfg o f)
  stored-cases cfg o oid c f v valid =
      let p = lfs_object_path cfg.cache_root oid in
      let q = lfs_object_path cfg.cache_root o in
      let found = find-write_file p q c f in
      elim (Bool-cases (bytes_eq p q)) [
        | inl e ↦ inl (
          lfs_object_path-injective cfg.cache_root oid o valid v ((bytes_eq_iff p q).0 e),
          ground (arith, found, e),
        )
        | inr e ↦ inr (ground (arith, found, e))
      ]

  escaped-Held :
      (w : World lru) (n k : Bytes)
      → Held lru w k
      → Held lru (record w { escaped = n ∷ w.escaped }) k
  escaped-Held w n k (inl t) = inl t
  escaped-Held w n k (inr (inl v)) = inr (inl v)
  escaped-Held w n k (inr (inr f)) = inr (inr (ground (arith, f)))

  pub ObjectInv-leave_repo :
      (root : Bytes) (repo : RepoRef) (renamed : Bool) (w : World lru)
      → ObjectInv lru root w
      → ObjectInv lru root (leave_repo lru repo renamed w)
  unfolding leave_repo
  ObjectInv-leave_repo root repo false w h =
      let g : GitCache = touch_repo repo.name (slot repo.name (forget_git w.git)) in
      ObjectInv-Keeps lru root w (git_accesses lru g.events w.index) g
        (Keeps-git_accesses lru g.events w.index) h
  ObjectInv-leave_repo root repo true w h =
      let g : GitCache = touch_repo repo.name (slot repo.name (forget_git w.git)) in
      let j =
        ObjectInv-Keeps lru root w (git_accesses lru g.events w.index) g
          (Keeps-git_accesses lru g.events w.index) h in
      record {
        on = j.on;
        stored = j.stored;
        objects = λ o v e.
            escaped-Held (record w { index = git_accesses lru g.events w.index; git = g }) repo.name
              (lfs_object_key o) (j.objects o v e);
      }

  pub ObjectInv-leave_object :
      (root oid : Bytes) (tmp : Option Bytes) (stored : Bool) (w : World lru)
      → valid_lfs_oid oid ≡ true
      → ObjectInv lru root w
      → ObjectInv lru root (leave_object lru oid tmp stored w)
  unfolding leave_object Lfs.slot
  ObjectInv-leave_object root oid none stored w valid h = record {
    on = h.on;
    stored = h.stored;
    objects = h.objects;
  }
  ObjectInv-leave_object root oid (some c) false w valid h = record {
    on = h.on;
    stored = h.stored;
    objects = λ o v e.
        h.objects o v
          (ap is_some (sym (object-write_tmp w.lfs.cfg w.lfs.tmp_counter o c w.lfs.files v)) ∙ e);
  }
  ObjectInv-leave_object root oid (some c) true w valid h = record {
    on = h.on;
    stored = h.stored;
    objects = λ o v e. elim (stored-cases w.lfs.cfg o oid c w.lfs.files v valid) [
      | inl (is, _) ↦ inr (
          inr (
            ground
              (arith, bytes_eq_iff (lfs_object_key oid) (lfs_object_key o), ap lfs_object_key is)))
      | inr same ↦
          escaped-Held w (lfs_object_key oid) (lfs_object_key o)
            (h.objects o v (ap is_some (sym same) ∙ e))
    ];
  }

  pub IsIntact-leave_object :
      (up : Upstream) (oid : Bytes) (tmp : Option Bytes) (stored : Bool) (w : World lru)
      → valid_lfs_oid oid ≡ true
      → ((c : Bytes) → tmp ≡ some c → stored ≡ true → sha256_hex up c ≡ oid)
      → IsIntact up w.lfs
      → IsIntact up (leave_object lru oid tmp stored w).lfs
  unfolding leave_object Lfs.slot
  IsIntact-leave_object up oid none stored w valid hash h = h
  IsIntact-leave_object up oid (some c) false w valid hash h =
      λ o d v e. h o d v (sym (object-write_tmp w.lfs.cfg w.lfs.tmp_counter o c w.lfs.files v) ∙ e)
  IsIntact-leave_object up oid (some c) true w valid hash h = λ o d v e.
      elim (stored-cases w.lfs.cfg o oid c w.lfs.files v valid) [
        | inl (is, at) ↦
            let good = hash c refl refl in
            let same : some c ≡ some d = sym at ∙ e in ground (arith, good, same, is)
        | inr same ↦ h o d v (sym same ∙ e)
      ]
