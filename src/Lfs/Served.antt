-- ===== src/Lfs/Served.antt =====
-- What `ensure_object` of src/lfs.rs promises to the handler that serves the object.
use git_cache_proxy.Base.{
  ℕ, Bytes, Bool, true, false, Option, none, some, ok, err, if◌then◌else◌, ◌≡◌, refl, sym, ap, ◌∙◌,
  subst, arith, Option-cases, inl, inr,
}
use git_cache_proxy.Json.{Json}
use git_cache_proxy.Repo.{lfs_object_path, valid_lfs_oid}
use git_cache_proxy.Lfs.{
  Lfs, Upstream, Disk, Stored, LfsConfig, no_size, find_file, sha256_hex, cached, touch, slot,
  fetch_object, ensure_locked, ensure_object, Outcome, hit, missed, Answer,
}
use git_cache_proxy.Lfs.Integrity.{IsIntact, IsIntact-same, Stores}
use git_cache_proxy.Lfs.Fetch.{Fetches, Fetches-fetch_object}

module _ (json : Json) (up : Upstream) (disk : Disk) (oid : Bytes)
    (well : valid_lfs_oid oid ≡ true) where
  -- A result with the object in its place, or an error; the store is intact in any case.
  record IsServed (root : Bytes) (r : Answer json) : Type 0 where
    intact : IsIntact up r.1
    kept_root : r.1.cfg.cache_root ≡ root
    placed :
        (path : Bytes) (outcome : Outcome)
        → r.0 ≡ ok (path, outcome)
        → (path ≡ lfs_object_path root oid)
          × ((c : Bytes) × (find_file path r.1.files ≡ some c) × (sha256_hex up c ≡ oid))

  IsServed-if :
      (root : Bytes) (b : Bool) (r t : Answer json)
      → (b ≡ true → IsServed root r)
      → (b ≡ false → IsServed root t)
      → IsServed root (if b then r else t)
  IsServed-if root true r t f g = f refl
  IsServed-if root false r t f g = g refl

  kept-touch : (s : Lfs) → ((touch oid s).files ≡ s.files) × ((touch oid s).cfg ≡ s.cfg)
  unfolding touch
  kept-touch s = ground arith

  IsIntact-Stores : (s t : Lfs) → Stores up disk oid well s t → IsIntact up s → IsIntact up t
  IsIntact-Stores s t st h k content v e = elim (st.change k v) [
    | inl same ↦ h k content v (sym same ∙ e)
    | inr (same, (c, there, hash)) ↦ cc (hash, same, there, e)
  ]

  found :
      (stat : Bool) (path : Bytes) (s : Lfs)
      → cached stat path s ≡ true
      → (c : Bytes) × (find_file path s.files ≡ some c)
  unfolding cached
  found stat path s h = elim (Option-cases (find_file path s.files)) [
    | inl e ↦ absurd (ground (arith, h, e))
    | inr r ↦ r
  ]

  IsServed-hit :
      (root : Bytes) (stat : Bool) (s : Lfs)
      → s.cfg.cache_root ≡ root
      → IsIntact up s
      → cached stat (lfs_object_path root oid) s ≡ true
      → IsServed root (ok (lfs_object_path root oid, hit), touch oid s)
  IsServed-hit root stat s r h there =
      let (files, cfg) = kept-touch s in
      let (c, at) = found stat (lfs_object_path root oid) s there in
      record {
        intact = IsIntact-same up s (touch oid s) cfg files h;
        kept_root = ap (λ (x : LfsConfig). x.cache_root) cfg ∙ r;
        placed = λ path outcome e.
            let same : path ≡ lfs_object_path root oid = cc e in
            (same, (c, cc (same, files, at), h oid c well (cc (r, at))));
      }

  IsServed-missed :
      (root : Bytes) (s : Lfs) (r : Stored)
      → s.cfg.cache_root ≡ root
      → IsIntact up s
      → Fetches up disk oid well s r
      → IsServed root (missed json (lfs_object_path root oid) r)
  IsServed-missed root s (err x, t) c h f = record {
    intact = IsIntact-Stores s t f.stores h;
    kept_root = ap (λ (x : LfsConfig). x.cache_root) f.stores.same_cfg ∙ c;
    placed = λ path outcome e. absurd (ground (arith, e));
  }
  IsServed-missed root s (ok _, t) c h f =
      let (content, there, hash) = f.holds refl in
      let same_root : t.cfg.cache_root ≡ root =
        ap (λ (x : LfsConfig). x.cache_root) f.stores.same_cfg ∙ c in
      record {
        intact = IsIntact-Stores s t f.stores h;
        kept_root = same_root;
        placed = λ path outcome e.
            let same : path ≡ lfs_object_path root oid = cc e in
            (same, (content, cc (same, same_root, there), hash));
      }

  IsServed-ensure_locked :
      (repo : Bytes) (size : Option ℕ) (root : Bytes) (s : Lfs)
      → s.cfg.cache_root ≡ root
      → IsIntact up s
      → IsServed root (ensure_locked json up disk repo oid size (lfs_object_path root oid) s)
  unfolding ensure_locked
  IsServed-ensure_locked repo size root s r h =
      IsServed-if root (cached disk.second_stat (lfs_object_path root oid) s) _ _
        (IsServed-hit root disk.second_stat s r h)
        (λ absent.
          elim size
            as (λ n. IsServed root (elim n [
              | none ↦ (err no_size, s)
              | some k ↦
                  missed json (lfs_object_path root oid)
                    (fetch_object json up disk repo oid k (lfs_object_path root oid) s)
            ])) [
              | none ↦ record {
                intact = h;
                kept_root = r;
                placed = λ path outcome e. absurd (ground (arith, e));
              }
              | some k ↦
                  IsServed-missed root s
                    (fetch_object json up disk repo oid k (lfs_object_path root oid) s) r h
                    (subst
                      (λ (q : Bytes).
                        Fetches up disk oid well s
                          (fetch_object json up disk repo oid k (lfs_object_path q oid) s))
                      r (Fetches-fetch_object up disk oid well json repo k s))
            ])

  IsServed-ensure_object :
      (meanwhile : Lfs → Lfs) (repo : Bytes) (size : Option ℕ) (s : Lfs)
      → ((t : Lfs) → IsIntact up t → IsIntact up (meanwhile t))
      → ((t : Lfs) → (meanwhile t).cfg ≡ t.cfg)
      → IsIntact up s
      → IsServed s.cfg.cache_root (ensure_object json up disk meanwhile repo oid size s)
  unfolding ensure_object slot
  IsServed-ensure_object meanwhile repo size s keeps same h =
      IsServed-if s.cfg.cache_root (cached disk.first_stat (lfs_object_path s.cfg.cache_root oid) s)
        _ _ (IsServed-hit s.cfg.cache_root disk.first_stat s refl h)
        (λ absent.
          IsServed-ensure_locked repo size s.cfg.cache_root (meanwhile (slot oid s))
            (ap (λ (x : LfsConfig). x.cache_root) (same (slot oid s))) (keeps (slot oid s) h))

module _ (json : Json) (up : Upstream) (disk : Disk) (meanwhile : Lfs → Lfs)
    (keeps : (t : Lfs) → IsIntact up t → IsIntact up (meanwhile t))
    (same : (t : Lfs) → (meanwhile t).cfg ≡ t.cfg) (repo oid : Bytes) (size : Option ℕ)
    (well : valid_lfs_oid oid ≡ true) (s : Lfs) (h : IsIntact up s) where
  -- Whatever the upstream and the disk answer, and whatever other tasks do as long as they keep the
  -- store intact: after a request for an object every object's file has the content that its name
  -- says.
  pub ensure_object-IsIntact : IsIntact up (ensure_object json up disk meanwhile repo oid size s).1
  ensure_object-IsIntact =
      (IsServed-ensure_object json up disk oid well meanwhile repo size s keeps same h).intact

  -- From an intact store: the path that is handed to the server is that of the object, there is a
  -- file, and the hash of its content is the oid.
  pub served_intact :
      (path : Bytes) (outcome : Outcome)
      → (ensure_object json up disk meanwhile repo oid size s).0 ≡ ok (path, outcome)
      → (path ≡ lfs_object_path s.cfg.cache_root oid)
        × ((c : Bytes) × (find_file path
                (ensure_object json up disk meanwhile repo oid size s).1.files
              ≡ some c)
            × (sha256_hex up c ≡ oid))
  served_intact =
      (IsServed-ensure_object json up disk oid well meanwhile repo size s keeps same h).placed

hit_now :
    (json : Json) (up : Upstream) (disk : Disk) (meanwhile : Lfs → Lfs) (repo oid : Bytes)
    (size : Option ℕ) (s : Lfs) (c : Bytes)
    → disk.first_stat ≡ true
    → find_file (lfs_object_path s.cfg.cache_root oid) s.files ≡ some c
    → ensure_object json up disk meanwhile repo oid size s
      ≡ (ok (lfs_object_path s.cfg.cache_root oid, hit), touch oid s)
unfolding ensure_object cached
hit_now json up disk meanwhile repo oid size s c stat there = ground (arith, stat, there)

-- From an intact store, which other tasks keep intact: in the state that a request which was served
-- leaves, another request for the object that can look for the file finds it, whatever it says about
-- the size, and asks the upstream for nothing.
pub served_again :
    (json : Json) (up : Upstream) (disk later : Disk) (meanwhile after : Lfs → Lfs)
    (repo oid : Bytes) (size size' : Option ℕ) (s : Lfs) (path : Bytes) (outcome : Outcome)
    → valid_lfs_oid oid ≡ true
    → ((t : Lfs) → IsIntact up t → IsIntact up (meanwhile t))
    → ((t : Lfs) → (meanwhile t).cfg ≡ t.cfg)
    → IsIntact up s
    → (ensure_object json up disk meanwhile repo oid size s).0 ≡ ok (path, outcome)
    → later.first_stat ≡ true
    → ensure_object json up later after repo oid size'
        (ensure_object json up disk meanwhile repo oid size s).1
      ≡ (ok (path, hit), touch oid (ensure_object json up disk meanwhile repo oid size s).1)
served_again json up disk later meanwhile after repo oid size size' s path outcome well keeps same h
      e stat =
    let t : Lfs = (ensure_object json up disk meanwhile repo oid size s).1 in
    let served = IsServed-ensure_object json up disk oid well meanwhile repo size s keeps same h in
    let (at, (c, there, hash)) = served.placed path outcome e in
    let at' : path ≡ lfs_object_path t.cfg.cache_root oid =
      at ∙ ap (λ (r : Bytes). lfs_object_path r oid) (sym served.kept_root) in
    let there' : find_file (lfs_object_path t.cfg.cache_root oid) t.files ≡ some c =
      ap (λ p. find_file p t.files) (sym at') ∙ there in
    hit_now json up later after repo oid size' t c stat there'
    ∙ ap (λ p. (ok (p, hit), touch oid t)) (sym at')
