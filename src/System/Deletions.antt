-- ===== src/System/Deletions.antt =====
-- What the deletions and the sweeps of src/evict.rs leave accounted for.
use git_cache_proxy.Base.{
  Bytes, bytes_eq, bytes_eq_iff, bytes_eq_refl, List, [], ◌∷◌, mem, Bool, true, false, ◌≡◌, ◌⊎◌,
  sym, ap, ◌∙◌, subst, arith, Bool-cases, inl, inr,
}
use git_cache_proxy.FilePath.{path_join}
use git_cache_proxy.Lru.{LruCache}
use git_cache_proxy.Evict.{State, finish, sweep, tracked}
use git_cache_proxy.Evict.Maintain.{is_lfs_blob}
use git_cache_proxy.Git.Mirrors.{GitCache, evict_mirror, remove_mirror, slot}
use git_cache_proxy.Git.Mirrors.Slots.{mem-remove_mirror}
use git_cache_proxy.Lfs.{Lfs}
use git_cache_proxy.System.{Phase, idle, deleting, sweeping, World, delete_mirror, delete_object}
use git_cache_proxy.System.Tracked.{
  is_tracked, finish-tracked, finish-root, sweep-gone, names, DirsUnder,
}
use git_cache_proxy.System.Names.{blob-IsReserved}
use git_cache_proxy.System.Accounted.{victims_of, missing_of, Inv}

module _ (lru : LruCache) where
  evict_mirror-left :
      (name dir : Bytes) (renamed : Bool) (g : GitCache)
      → let r = evict_mirror name dir renamed g in
        (r.1.cfg ≡ g.cfg)
        × ((d : Bytes) → mem d r.1.mirrors ≡ true → mem d g.mirrors ≡ true)
        × (mem dir r.1.mirrors ≡ true → r.0 ≡ false)
  unfolding evict_mirror slot
  evict_mirror-left name dir renamed g = (
    ground arith,
    λ d h. ground (arith, h, mem-remove_mirror dir d g.mirrors),
    λ h. ground (arith, h, mem-remove_mirror dir dir g.mirrors, bytes_eq_refl dir),
  )

  -- The name at the front of the victims is the one that is looked for, or not.
  pub front :
      (k name dir : Bytes) (rest : List (Bytes × Bytes)) (w : World lru)
      → w.phase ≡ deleting ((name, dir) ∷ rest)
      → mem k (names lru (victims_of w.phase)) ≡ true
      → (name ≡ k) ⊎ (mem k (names lru rest) ≡ true)
  front k name dir rest w at v =
      let listed : mem k (name ∷ names lru rest) ≡ true =
        sym (ap (λ p. mem k (names lru (victims_of p))) at) ∙ v in
      elim (Bool-cases (bytes_eq name k)) [
        | inl is ↦ inl ((bytes_eq_iff name k).0 is)
        | inr other ↦ inr (ground (arith, listed, other))
      ]

  pub Inv-delete_mirror :
      (root name dir : Bytes) (rest : List (Bytes × Bytes)) (renamed : Bool) (w : World lru)
      → w.phase ≡ deleting ((name, dir) ∷ rest)
      → Inv lru root w
      → Inv lru root (delete_mirror lru name dir rest renamed w)
  unfolding delete_mirror
  Inv-delete_mirror root name dir rest renamed w at h =
      let (same_cfg, before, failing) = evict_mirror-left name dir renamed w.git in
      let left : GitCache = (evict_mirror name dir renamed w.git).1 in
      let deleted : Bool = (evict_mirror name dir renamed w.git).0 in
      let ds : DirsUnder lru root ((name, dir) ∷ rest) =
        subst (λ p. DirsUnder lru root (victims_of p)) at h.dirs in
      record {
        on = ap (λ c. c.has_index) same_cfg ∙ h.on;
        rooted = h.rooted;
        dirs = ds.1;
        repos = λ k legal there. elim (h.repos k legal (before (path_join root k) there)) [
          | inl (t, _) ↦ inl (t, λ m. absurd (cc m))
          | inr (inl v) ↦ elim (front k name dir rest w at v) [
            | inl is ↦
                let here : mem dir left.mirrors ≡ true =
                  subst (λ d. mem d left.mirrors ≡ true) (ap (path_join root) (sym is) ∙ sym ds.0)
                    there in
                inr (inr (ground (arith, failing here, bytes_eq_iff name k, is)))
            | inr behind ↦ inr (inl behind)
          ]
          | inr (inr f) ↦ inr (inr (ground (arith, f)))
        ];
      }

  pub Inv-delete_object :
      (root name path : Bytes) (rest : List (Bytes × Bytes)) (removed : Bool) (w : World lru)
      → w.phase ≡ deleting ((name, path) ∷ rest)
      → is_lfs_blob name ≡ true
      → Inv lru root w
      → Inv lru root (delete_object lru name path rest removed w)
  unfolding delete_object
  Inv-delete_object root name path rest removed w at blob h =
      let ds : DirsUnder lru root ((name, path) ∷ rest) =
        subst (λ p. DirsUnder lru root (victims_of p)) at h.dirs in
      record {
        on = h.on;
        rooted = h.rooted;
        dirs = ds.1;
        repos = λ k legal there. elim (h.repos k legal there) [
          | inl (t, _) ↦ inl (t, λ m. absurd (cc m))
          | inr (inl v) ↦ elim (front k name path rest w at v) [
            | inl is ↦
                let own = ap is_lfs_blob is in absurd (cc (own, blob, blob-IsReserved k legal))
            | inr behind ↦ inr (inl behind)
          ]
          | inr (inr f) ↦ inr (inr (ground (arith, f)))
        ];
      }

  pub Inv-sweep :
      (root : Bytes) (w : World lru) (gone : Bytes → Bool)
      → w.phase ≡ idle
      → ((d : Bytes) → gone d ≡ true → mem d w.git.mirrors ≡ false)
      → Inv lru root w
      → Inv lru root (record w { phase = sweeping (sweep gone (tracked lru w.index)) })
  Inv-sweep root w gone at absent h = record {
    on = h.on;
    rooted = h.rooted;
    dirs = tt;
    repos = λ k legal there. elim (h.repos k legal there) [
      | inl (t, _) ↦ inl (
        t,
        λ m.
            let is_gone = sweep-gone lru gone k w.index m in
            let not_there =
              absent (path_join root k) (ap (λ r. gone (path_join r k)) (sym h.rooted) ∙ is_gone) in
            absurd (cc (there, not_there)),
      )
      | inr (inl v) ↦
          let none_yet : mem k (names lru (victims_of w.phase)) ≡ false =
            ap (λ p. mem k (names lru (victims_of p))) at in
          absurd (cc (v, none_yet))
      | inr (inr f) ↦ inr (inr f)
    ];
  }

  pub Inv-drop :
      (root : Bytes) (w : World lru) (missing : List Bytes)
      → w.phase ≡ sweeping missing
      → Inv lru root w
      → Inv lru root (record w { index = finish lru missing w.index; phase = idle })
  Inv-drop root w missing at h = record {
    on = h.on;
    rooted = finish-root lru missing w.index ∙ h.rooted;
    dirs = tt;
    repos = λ k legal there. elim (h.repos k legal there) [
      | inl (t, busy) ↦ inl (
        finish-tracked lru missing k w.index t (λ m. busy (ap (λ p. mem k (missing_of p)) at ∙ m)),
        λ m. absurd (cc m),
      )
      | inr (inl v) ↦
          let none_yet : mem k (names lru (victims_of w.phase)) ≡ false =
            ap (λ p. mem k (names lru (victims_of p))) at in
          absurd (cc (v, none_yet))
      | inr (inr f) ↦ inr (inr f)
    ];
  }

  -- A turn from one phase without victims and without missing names to another.
  pub Inv-turn :
      (root : Bytes) (w : World lru) (j : State lru) (p : Phase)
      → victims_of w.phase ≡ []
      → victims_of p ≡ []
      → missing_of p ≡ []
      → j.cache_root ≡ w.index.cache_root
      → ((k : Bytes) → is_tracked lru k w.index ≡ true → is_tracked lru k j ≡ true)
      → Inv lru root w
      → Inv lru root (record w { index = j; phase = p })
  Inv-turn root w j p v v' m r t h = record {
    on = h.on;
    rooted = r ∙ h.rooted;
    dirs = subst (DirsUnder lru root) (sym v') tt;
    repos = λ k legal there. elim (h.repos k legal there) [
      | inl (is, _) ↦ inl (
        t k is,
        λ gone.
            let nothing : mem k (missing_of p) ≡ false = ap (mem k) m in
            absurd (cc (gone, nothing)),
      )
      | inr (inl victim) ↦
          let nothing : mem k (names lru (victims_of w.phase)) ≡ false =
            ap (λ l. mem k (names lru l)) v in
          absurd (cc (victim, nothing))
      | inr (inr f) ↦ inr (inr f)
    ];
  }

  pub Inv-by_hand :
      (root path : Bytes) (w : World lru) (s : Lfs)
      → Inv lru root w
      → Inv lru root
          (record w { git = record w.git { mirrors = remove_mirror path w.git.mirrors }; lfs = s })
  Inv-by_hand root path w s h = record {
    on = h.on;
    rooted = h.rooted;
    dirs = h.dirs;
    repos = λ k legal there.
        h.repos k legal
          (ground (arith, there, mem-remove_mirror path (path_join root k) w.git.mirrors));
  }
