-- ===== src/Git/Mirrors/Pins.antt =====
-- The want-by-SHA pins of src/git.rs: how many are fetched and which are pruned.
use git_cache_proxy.Base.{
  ℕ, ◌<◌, Bytes, List, [], ◌∷◌, Bool, true, ◌&&◌, Result, ok, err, length, length-take, leb, ◌≡◌,
  refl, ap, ◌∙◌, subst, arith,
}
use git_cache_proxy.Repo.{RepoRef}
use git_cache_proxy.Git.Wants.{parse_wants}
use git_cache_proxy.Git.Mirrors.{
  GitCache, Answers, CacheOutcome, cloned, fetched, Event, index_touch, index_mark_changed,
  record_upstream, observe_upstream, git_clone, git_fetch, git_fetch_wants, git_update_ref,
  remove_dir, FreshError, WantsError, slot, mark_repo, touch_repo, clone_mirror, fetch, finish_pull,
  pull, after_pull, stamp, ensure_fresh, cap_wants, fetch_wants, fetch_missing, satisfy_wants,
  ensure_wanted_oids, prune_wants, missing_oids,
}

-- Every want-by-SHA fetch is for at most `cap` ids.
abbrev pub capped : ℕ → List Event → Bool
capped cap [] = true
capped cap (index_touch n ∷ l) = capped cap l
capped cap (index_mark_changed n ∷ l) = capped cap l
capped cap (record_upstream o s n ∷ l) = capped cap l
capped cap (observe_upstream o n ∷ l) = capped cap l
capped cap (git_clone u d c ∷ l) = capped cap l
capped cap (git_fetch d c ∷ l) = capped cap l
capped cap (git_fetch_wants d w ∷ l) = leb (length w) cap && capped cap l
capped cap (git_update_ref d t ∷ l) = capped cap l
capped cap (remove_dir d ∷ l) = capped cap l

cap_wants_fits : (cap : ℕ) (l : List Bytes) → 0 < cap → leb (length (cap_wants cap l)) cap ≡ true
unfolding cap_wants
cap_wants_fits cap l h = ground (arith, length-take cap l)

capped-fetch_wants :
    (repo : RepoRef) (a : Answers) (l : List Bytes) (cap : ℕ) (g : GitCache)
    → leb (length l) cap ≡ true
    → capped cap g.events ≡ true
    → capped cap (fetch_wants repo a l g).1.events ≡ true
unfolding fetch_wants mark_repo prune_wants
capped-fetch_wants repo a l cap g fits h = ground (arith, fits, h)

capped-fetch_missing :
    (repo : RepoRef) (a : Answers) (r : Result WantsError (List Bytes)) (g : GitCache)
    → 0 < g.cfg.max_wants
    → capped g.cfg.max_wants g.events ≡ true
    → capped g.cfg.max_wants (fetch_missing repo a r g).1.events ≡ true
unfolding fetch_missing
capped-fetch_missing repo a (err e) g pos h = h
capped-fetch_missing repo a (ok []) g pos h = h
capped-fetch_missing repo a (ok (m ∷ ms)) g pos h =
    capped-fetch_wants repo a (cap_wants g.cfg.max_wants (m ∷ ms)) g.cfg.max_wants g
      (cap_wants_fits g.cfg.max_wants (m ∷ ms) pos) h

capped-satisfy_wants :
    (repo : RepoRef) (a : Answers) (l : List Bytes) (g : GitCache)
    → 0 < g.cfg.max_wants
    → capped g.cfg.max_wants g.events ≡ true
    → capped g.cfg.max_wants (satisfy_wants repo a l g).1.events ≡ true
unfolding satisfy_wants
capped-satisfy_wants repo a [] g pos h = h
capped-satisfy_wants repo a (w ∷ ws) g pos h = capped-fetch_missing repo a (missing_oids a) g pos h

capped-clone_mirror :
    (repo : RepoRef) (a : Answers) (cap : ℕ) (g : GitCache)
    → capped cap g.events ≡ true
    → (capped cap (clone_mirror repo a g).1.events ≡ true) × ((clone_mirror repo a g).1.cfg ≡ g.cfg)
unfolding clone_mirror mark_repo
capped-clone_mirror repo a cap g h = ground (arith, h)

capped-fetch :
    (repo : RepoRef) (a : Answers) (cap : ℕ) (g : GitCache)
    → capped cap g.events ≡ true
    → (capped cap (fetch repo a g).1.events ≡ true) × ((fetch repo a g).1.cfg ≡ g.cfg)
unfolding fetch mark_repo
capped-fetch repo a cap g h = ground (arith, h)

kept-finish_pull :
    (o : CacheOutcome) (n : Bytes) (t : ℕ) (p : Result FreshError (Unit {0}) × GitCache)
    → ((finish_pull o n t p).1.events ≡ p.1.events) × ((finish_pull o n t p).1.cfg ≡ p.1.cfg)
unfolding finish_pull stamp
kept-finish_pull o n t (err x, g) = (refl, refl)
kept-finish_pull o n t (ok x, g) = (refl, refl)

capped-pull :
    (repo : RepoRef) (w : Bool) (a : Answers) (cap : ℕ) (g : GitCache)
    → capped cap g.events ≡ true
    → (capped cap (pull repo w a g).1.events ≡ true) × ((pull repo w a g).1.cfg ≡ g.cfg)
unfolding pull
capped-pull repo w a cap g h = ground (
  arith,
  kept-finish_pull cloned repo.name a.started (clone_mirror repo a g),
  kept-finish_pull fetched repo.name a.started (fetch repo a g),
  capped-clone_mirror repo a cap g h,
  capped-fetch repo a cap g h,
  h,
)

capped-start :
    (n : Bytes) (cap : ℕ) (g : GitCache)
    → capped cap g.events ≡ true
    → (capped cap (touch_repo n (slot n g)).events ≡ true) × ((touch_repo n (slot n g)).cfg ≡ g.cfg)
unfolding touch_repo slot
capped-start n cap g h = ground (arith, h)

capped-after_pull :
    (repo : RepoRef) (body : Bytes) (a : Answers) (cap : ℕ)
    (p : Result FreshError CacheOutcome × GitCache)
    → 0 < cap
    → p.1.cfg.max_wants ≡ cap
    → capped cap p.1.events ≡ true
    → capped cap (after_pull repo body a p).1.events ≡ true
unfolding after_pull ensure_wanted_oids
capped-after_pull repo body a cap (err x, g) pos same h = h
capped-after_pull repo body a cap (ok o, g) pos same h =
    subst (λ (n : ℕ). capped n (satisfy_wants repo a (parse_wants body) g).1.events ≡ true) same
      (capped-satisfy_wants repo a (parse_wants body) g (rw same pos) (rw same h))

-- With a cap on the pins, no request makes a want-by-SHA fetch for more ids than the cap, however
-- many its body asks for and whatever git answers.
pub wants_capped :
    (repo : RepoRef) (want_fetch : Bool) (body : Bytes) (a : Answers) (g : GitCache)
    → 0 < g.cfg.max_wants
    → capped g.cfg.max_wants g.events ≡ true
    → capped g.cfg.max_wants (ensure_fresh repo want_fetch body a g).1.events ≡ true
unfolding ensure_fresh
wants_capped repo want_fetch body a g pos h =
    let (h1, c1) = capped-start repo.name g.cfg.max_wants g h in
    let (h2, c2) =
      capped-pull repo want_fetch a g.cfg.max_wants (touch_repo repo.name (slot repo.name g)) h1 in
    capped-after_pull repo body a g.cfg.max_wants
      (pull repo want_fetch a (touch_repo repo.name (slot repo.name g))) pos
      (ap (λ c. c.max_wants) (c2 ∙ c1)) h2
