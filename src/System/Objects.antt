-- ===== src/System/Objects.antt =====
-- What each step leaves accounted for of the objects of src/lfs.rs.
pub mod Safety
use git_cache_proxy.Base.{
  ℕ, Bytes, bytes_eq, bytes_eq_iff, bytes_eq_refl, List, [], ◌∷◌, map, mem, Bool, true, false,
  Option, ok, none, some, is_some, if◌then◌else◌, ◌≡◌, ◌⊎◌, refl, sym, ap, ◌∙◌, subst, arith,
  Bool-cases, inl, inr,
}
use git_cache_proxy.Json.{Json}
use git_cache_proxy.FilePath.{path_join}
use git_cache_proxy.Lru.{LruCache}
use git_cache_proxy.Repo.{lfs_object_key, lfs_object_path, valid_lfs_oid}
use git_cache_proxy.Evict.{State, take_victims, take_dirty, set_size, finish, sweep, tracked}
use git_cache_proxy.Evict.Maintain.{is_lfs_blob}
use git_cache_proxy.Git.Mirrors.{GitCache, ensure_fresh}
use git_cache_proxy.Lfs.{Lfs, Upstream, Disk, find_file, remove_file, ensure_object}
use git_cache_proxy.Lfs.Files.{find-remove_file}
use git_cache_proxy.System.{
  Phase, idle, measured, deleting, sweeping, World, forget_git, forget_lfs, same_store,
  git_accesses, lfs_accesses, git_call, lfs_call, delete_mirror, delete_object, take_all, Step,
  repo_asked, object_asked, by_hand, drain, resize, take, evict_repo, evict_object, all_deleted,
  sweep_disk, drop,
}
use git_cache_proxy.System.Downloads.{there}
use git_cache_proxy.System.EnsureObject.{Records-ensure_object}
use git_cache_proxy.System.Accesses.{Keeps-git_accesses, Keeps-lfs_accesses, accesses-recorded}
use git_cache_proxy.System.Tracked.{
  is_tracked, Keeps, Keeps-set_size, Keeps-drain, finish-tracked, sweep-gone, names, DirsUnder,
  take_victims-Takes,
}
use git_cache_proxy.System.Names.{object_key}
use git_cache_proxy.System.Accounted.{victims_of, missing_of, Inv}
use git_cache_proxy.System.Deletions.{front}

module _ (lru : LruCache) where
  -- A key that the background task will come to, and that it did not find gone.
  abbrev pub Held : World lru → Bytes → Type 0
  Held w k =
      ((is_tracked lru k w.index ≡ true) × (mem k (missing_of w.phase) ≡ false))
      ⊎ ((mem k (names lru (victims_of w.phase)) ≡ true) ⊎ (mem k w.escaped ≡ true))

  pub record ObjectInv (root : Bytes) (w : World lru) : Type 0 where
    pub on : w.lfs.cfg.has_index ≡ true
    pub stored : w.lfs.cfg.cache_root ≡ root
    pub objects :
        (o : Bytes) → valid_lfs_oid o ≡ true → there o w.lfs ≡ true → Held w (lfs_object_key o)

  -- A step that leaves the phase, the names that escaped and the store alone.
  pub ObjectInv-Keeps :
      (root : Bytes) (w : World lru) (j : State lru) (g : GitCache)
      → Keeps lru w.index j
      → ObjectInv root w
      → ObjectInv root (record w { index = j; git = g })
  ObjectInv-Keeps root w j g keeps h = record {
    on = h.on;
    stored = h.stored;
    objects = λ o v e. elim (h.objects o v e) [
      | inl (t, m) ↦ inl (keeps.tracked (lfs_object_key o) t, m)
      | inr other ↦ inr other
    ];
  }

  pub ObjectInv-lfs_call :
      (root : Bytes) (json : Json) (up : Upstream) (disk : Disk) (repo oid : Bytes)
      (size : Option ℕ) (w : World lru)
      → valid_lfs_oid oid ≡ true
      → mem (lfs_object_key oid) (missing_of w.phase) ≡ false
      → ObjectInv root w
      → ObjectInv root (lfs_call lru json up disk repo oid size w)
  unfolding lfs_call
  ObjectInv-lfs_call root json up disk repo oid size w valid calm h =
      let s : Lfs = (ensure_object json up disk same_store repo oid size (forget_lfs w.lfs)).1 in
      let r = Records-ensure_object oid valid up disk json repo size (forget_lfs w.lfs) h.on in
      let keeps = Keeps-lfs_accesses lru s.events w.index in
      record {
        on = ap (λ c. c.has_index) r.same_cfg ∙ h.on;
        stored = ap (λ c. c.cache_root) r.same_cfg ∙ h.stored;
        objects = λ o v e. elim (r.news o v e) [
          | inl old ↦ elim (h.objects o v old) [
            | inl (t, m) ↦ inl (keeps.tracked (lfs_object_key o) t, m)
            | inr other ↦ inr other
          ]
          | inr (is, m) ↦ inl (
            subst
                (λ k. is_tracked lru (lfs_object_key k) (lfs_accesses lru s.events w.index) ≡ true)
                (sym is) (accesses-recorded lru (lfs_object_key oid) s.events w.index m),
            subst (λ k. mem (lfs_object_key k) (missing_of w.phase) ≡ false) (sym is) calm,
          )
        ];
      }

  -- A turn of the background task that leaves the store alone.
  pub ObjectInv-turn :
      (root : Bytes) (w : World lru) (j : State lru) (p : Phase)
      → ((o : Bytes)
          → valid_lfs_oid o ≡ true
          → there o w.lfs ≡ true
          → Held w (lfs_object_key o)
          → Held (record w { index = j; phase = p }) (lfs_object_key o))
      → ObjectInv root w
      → ObjectInv root (record w { index = j; phase = p })
  ObjectInv-turn root w j p on_held h = record {
    on = h.on;
    stored = h.stored;
    objects = λ o v e. on_held o v e (h.objects o v e);
  }

  -- Without victims, a key that is held is tracked or escaped.
  pub no_victims :
      (w : World lru) (k : Bytes)
      → victims_of w.phase ≡ []
      → Held w k
      → (is_tracked lru k w.index ≡ true) ⊎ (mem k w.escaped ≡ true)
  no_victims w k none_left (inl (t, _)) = inl t
  no_victims w k none_left (inr (inl v)) =
      let nothing : mem k (names lru (victims_of w.phase)) ≡ false =
        ap (λ l. mem k (names lru l)) none_left in
      absurd (cc (v, nothing))
  no_victims w k none_left (inr (inr f)) = inr f

  pub ObjectInv-removed :
      (root path : Bytes) (w : World lru) (g : GitCache)
      → ObjectInv root w
      → ObjectInv root
          (record w { git = g; lfs = record w.lfs { files = remove_file path w.lfs.files } })
  ObjectInv-removed root path w g h = record {
    on = h.on;
    stored = h.stored;
    objects = λ o v e. h.objects o v (
        ground
          (arith, e, find-remove_file path (lfs_object_path w.lfs.cfg.cache_root o) w.lfs.files));
  }

  pub ObjectInv-delete_mirror :
      (root name dir : Bytes) (rest : List (Bytes × Bytes)) (renamed : Bool) (w : World lru)
      → w.phase ≡ deleting ((name, dir) ∷ rest)
      → is_lfs_blob name ≡ false
      → ObjectInv root w
      → ObjectInv root (delete_mirror lru name dir rest renamed w)
  unfolding delete_mirror
  ObjectInv-delete_mirror root name dir rest renamed w at mirror h = record {
    on = h.on;
    stored = h.stored;
    objects = λ o v e. elim (h.objects o v e) [
      | inl (t, _) ↦ inl (t, refl)
      | inr (inl victim) ↦ elim (front lru (lfs_object_key o) name dir rest w at victim) [
        | inl is ↦ let own = ap is_lfs_blob is in absurd (cc (own, mirror, object_key o v))
        | inr behind ↦ inr (inl behind)
      ]
      | inr (inr f) ↦ inr (inr (ground (arith, f)))
    ];
  }

  -- A deletion that succeeds, and one that fails.
  pub ObjectInv-delete_object :
      (root name path : Bytes) (rest : List (Bytes × Bytes)) (removed : Bool) (w : World lru)
      → w.phase ≡ deleting ((name, path) ∷ rest)
      → DirsUnder lru root ((name, path) ∷ rest)
      → ObjectInv root w
      → ObjectInv root (delete_object lru name path rest removed w)
  unfolding delete_object lfs_object_path
  ObjectInv-delete_object root name path rest true w at ds h = record {
    on = h.on;
    stored = h.stored;
    objects = λ o v e.
        let found = find-remove_file path (lfs_object_path w.lfs.cfg.cache_root o) w.lfs.files in
        elim (h.objects o v (ground (arith, e, found))) [
          | inl (t, _) ↦ inl (t, refl)
          | inr (inl victim) ↦ elim (front lru (lfs_object_key o) name path rest w at victim) [
            | inl is ↦
                let same : path ≡ lfs_object_path w.lfs.cfg.cache_root o =
                  ds.0
                  ∙ (ap (path_join root) is
                      ∙ ap (λ r. path_join r (lfs_object_key o)) (sym h.stored)) in
                absurd (
                  ground (
                    arith,
                    e,
                    found,
                    bytes_eq_iff path (lfs_object_path w.lfs.cfg.cache_root o),
                    same,
                  ))
            | inr behind ↦ inr (inl behind)
          ]
          | inr (inr f) ↦ inr (inr f)
        ];
  }
  ObjectInv-delete_object root name path rest false w at ds h = record {
    on = h.on;
    stored = h.stored;
    objects = λ o v e. elim (h.objects o v e) [
      | inl (t, _) ↦ inl (t, refl)
      | inr (inl victim) ↦ elim (front lru (lfs_object_key o) name path rest w at victim) [
        | inl is ↦ inr (inr (ground (arith, bytes_eq_iff name (lfs_object_key o), is)))
        | inr behind ↦ inr (inl behind)
      ]
      | inr (inr f) ↦ inr (inr (ground (arith, f)))
    ];
  }

  -- A sweep does not find an object gone that is on the disk.
  pub spared :
      (gone : Bytes → Bool) (w : World lru) (o : Bytes)
      → w.index.cache_root ≡ w.lfs.cfg.cache_root
      → ((d : Bytes) → gone d ≡ true → find_file d w.lfs.files ≡ none)
      → there o w.lfs ≡ true
      → mem (lfs_object_key o) (sweep gone (tracked lru w.index)) ≡ false
  unfolding lfs_object_path
  spared gone w o same absent e =
      elim (Bool-cases (mem (lfs_object_key o) (sweep gone (tracked lru w.index)))) [
        | inl m ↦
            let missing =
              absent (path_join w.index.cache_root (lfs_object_key o))
                (sweep-gone lru gone (lfs_object_key o) w.index m) in
            let nothing : there o w.lfs ≡ false =
              ap (λ r. is_some (find_file (path_join r (lfs_object_key o)) w.lfs.files)) (sym same)
              ∙ ap is_some missing in
            absurd (cc (e, nothing))
        | inr m ↦ m
      ]
