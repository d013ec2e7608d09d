-- ===== src/System/Calls.antt =====
-- What a call of `ensure_fresh` of src/git.rs tells the index about the mirrors that it makes.
use git_cache_proxy.Base.{
  ℕ, Bytes, bytes_eq, bytes_eq_iff, bytes_eq_refl, List, [], ◌∷◌, Bool, true, false, not, ◌&&◌,
  ◌||◌, Result, ok, err, if◌then◌else◌, mem, mem-insert, ◌≡◌, ◌⊎◌, refl, sym, ap, ◌∙◌, arith,
  Bool-cases, inl, inr,
}
use git_cache_proxy.Repo.{RepoRef}
use git_cache_proxy.Git.Wants.{parse_wants}
use git_cache_proxy.Git.Mirrors.{
  GitCache, Answers, CacheOutcome, cloned, fetched, cached, last, is_stale, Event, index_touch,
  index_mark_changed, record_upstream, observe_upstream, git_clone, git_fetch, git_fetch_wants,
  git_update_ref, remove_dir, FreshError, WantsError, slot, stamp, mark_repo, touch_repo,
  clone_mirror, fetch, missing_oids, prune_wants, fetch_wants, cap_wants, fetch_missing,
  satisfy_wants, after_pull, ensure_wanted_oids, finish_pull, pull, ensure_fresh,
}

abbrev pub is_mark : Bytes → Event → Bool
is_mark n (index_mark_changed k) = bytes_eq k n
is_mark n (index_touch k) = false
is_mark n (record_upstream o s k) = false
is_mark n (observe_upstream o k) = false
is_mark n (git_clone u d c) = false
is_mark n (git_fetch d c) = false
is_mark n (git_fetch_wants d l) = false
is_mark n (git_update_ref d t) = false
is_mark n (remove_dir d) = false

-- Whether the index was told that the mirror changed.
abbrev pub marked : Bytes → List Event → Bool
marked n [] = false
marked n (e ∷ l) = is_mark n e || marked n l

-- From one state to another: the configuration stays, no mark is lost, and there is no new mirror but
-- the repository's own, which is marked.
pub record Marks (repo : RepoRef) (g h : GitCache) : Type 0 where
  pub same_cfg : h.cfg ≡ g.cfg
  pub kept : (n : Bytes) → marked n g.events ≡ true → marked n h.events ≡ true
  pub news :
      (d : Bytes)
      → mem d h.mirrors ≡ true
      → (mem d g.mirrors ≡ true) ⊎ ((d ≡ repo.cache_dir) × (marked repo.name h.events ≡ true))

Marks-refl : (repo : RepoRef) (g : GitCache) → Marks repo g g
Marks-refl repo g = record { same_cfg = refl; kept = λ n e. e; news = λ d e. inl e }

Marks-trans : (repo : RepoRef) (g h k : GitCache) → Marks repo g h → Marks repo h k → Marks repo g k
Marks-trans repo g h k a b = record {
  same_cfg = b.same_cfg ∙ a.same_cfg;
  kept = λ n e. b.kept n (a.kept n e);
  news = λ d e. elim (b.news d e) [
    | inl old ↦ elim (a.news d old) [
      | inl older ↦ inl older
      | inr (is, m) ↦ inr (is, b.kept repo.name m)
    ]
    | inr new ↦ inr new
  ];
}

module _ (repo : RepoRef) where
  Marks-slot : (g : GitCache) → Marks repo g (slot repo.name g)
  unfolding slot
  Marks-slot g = record {
    same_cfg = ground arith;
    kept = λ n e. ground (arith, e);
    news = λ d e. inl (ground (arith, e));
  }

  Marks-touch : (g : GitCache) → Marks repo g (touch_repo repo.name g)
  unfolding touch_repo
  Marks-touch g = record {
    same_cfg = ground arith;
    kept = λ n e. ground (arith, e);
    news = λ d e. inl (ground (arith, e));
  }

  Marks-clone :
      (a : Answers) (g : GitCache) → g.cfg.has_index ≡ true → Marks repo g (clone_mirror repo a g).1
  unfolding clone_mirror mark_repo
  Marks-clone a g on = record {
    same_cfg = ground arith;
    kept = λ n e. ground (arith, e);
    news = λ d e. elim (Bool-cases (bytes_eq repo.cache_dir d)) [
      | inl is ↦ elim (Bool-cases (mem d g.mirrors)) [
        | inl old ↦ inl old
        | inr new ↦ inr (
          sym ((bytes_eq_iff repo.cache_dir d).0 is),
          ground (arith, e, new, on, bytes_eq_refl repo.name),
        )
      ]
      | inr not_is ↦ inl (ground (arith, e, not_is, mem-insert repo.cache_dir d g.mirrors))
    ];
  }

  Marks-fetch : (a : Answers) (g : GitCache) → Marks repo g (fetch repo a g).1
  unfolding fetch mark_repo
  Marks-fetch a g = record {
    same_cfg = ground arith;
    kept = λ n e. ground (arith, e);
    news = λ d e. inl (ground (arith, e));
  }

  Marks-fetch_wants :
      (a : Answers) (l : List Bytes) (g : GitCache) → Marks repo g (fetch_wants repo a l g).1
  unfolding fetch_wants mark_repo prune_wants
  Marks-fetch_wants a l g = record {
    same_cfg = ground arith;
    kept = λ n e. ground (arith, e);
    news = λ d e. inl (ground (arith, e));
  }

  Marks-fetch_missing :
      (a : Answers) (r : Result WantsError (List Bytes)) (g : GitCache)
      → Marks repo g (fetch_missing repo a r g).1
  unfolding fetch_missing
  Marks-fetch_missing a (err e) g = Marks-refl repo g
  Marks-fetch_missing a (ok []) g = Marks-refl repo g
  Marks-fetch_missing a (ok (m ∷ ms)) g = Marks-fetch_wants a (cap_wants g.cfg.max_wants (m ∷ ms)) g

  Marks-satisfy :
      (a : Answers) (l : List Bytes) (g : GitCache) → Marks repo g (satisfy_wants repo a l g).1
  unfolding satisfy_wants
  Marks-satisfy a [] g = Marks-refl repo g
  Marks-satisfy a (w ∷ ws) g = Marks-fetch_missing a (missing_oids a) g

  Marks-after :
      (body : Bytes) (a : Answers) (g : GitCache) (p : Result FreshError CacheOutcome × GitCache)
      → Marks repo g p.1
      → Marks repo g (after_pull repo body a p).1
  unfolding after_pull ensure_wanted_oids
  Marks-after body a g (err e, h) m = m
  Marks-after body a g (ok o, h) m =
      Marks-trans repo g h (satisfy_wants repo a (parse_wants body) h).1 m
        (Marks-satisfy a (parse_wants body) h)

  Marks-finish :
      (c : CacheOutcome) (t : ℕ) (g : GitCache) (p : Result FreshError (Unit {0}) × GitCache)
      → Marks repo g p.1
      → Marks repo g (finish_pull c repo.name t p).1
  unfolding finish_pull stamp
  Marks-finish c t g (err e, h) m = m
  Marks-finish c t g (ok o, h) m = record { same_cfg = m.same_cfg; kept = m.kept; news = m.news }

  Marks-if :
      (b : Bool) (g : GitCache) (p q : Result FreshError CacheOutcome × GitCache)
      → Marks repo g p.1
      → Marks repo g q.1
      → Marks repo g (if b then p else q).1
  Marks-if true g p q a b = a
  Marks-if false g p q a b = b

  Marks-pull :
      (want_fetch : Bool) (a : Answers) (g : GitCache)
      → g.cfg.has_index ≡ true
      → Marks repo g (pull repo want_fetch a g).1
  unfolding pull
  Marks-pull want_fetch a g on =
      let cloning = finish_pull cloned repo.name a.started (clone_mirror repo a g) in
      let fetching = finish_pull fetched repo.name a.started (fetch repo a g) in
      let stale = want_fetch && is_stale g.cfg (last repo.name g) a.now in
      Marks-if (not (mem repo.cache_dir g.mirrors)) g cloning
        (if stale then fetching else (ok cached, g))
        (Marks-finish cloned a.started g (clone_mirror repo a g) (Marks-clone a g on))
        (Marks-if stale g fetching (ok cached, g)
          (Marks-finish fetched a.started g (fetch repo a g) (Marks-fetch a g)) (Marks-refl repo g))

  pub Marks-ensure_fresh :
      (want_fetch : Bool) (body : Bytes) (a : Answers) (g : GitCache)
      → g.cfg.has_index ≡ true
      → Marks repo g (ensure_fresh repo want_fetch body a g).1
  unfolding ensure_fresh
  Marks-ensure_fresh want_fetch body a g on =
      let s : GitCache = slot repo.name g in
      let t : GitCache = touch_repo repo.name s in
      let first : Marks repo g t = Marks-trans repo g s t (Marks-slot g) (Marks-touch s) in
      Marks-after body a g (pull repo want_fetch a t) (
        Marks-trans repo g t (pull repo want_fetch a t).1 first
          (Marks-pull want_fetch a t (ap (λ c. c.has_index) first.same_cfg ∙ on)))
