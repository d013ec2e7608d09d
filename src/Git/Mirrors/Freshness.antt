-- ===== src/Git/Mirrors/Freshness.antt =====
-- When `ensure_fresh` of src/git.rs goes to the upstream, and what a failure leaves behind.
use git_cache_proxy.Base.{
  ℕ, ◌+◌, ◌-◌, ◌<◌, Bytes, bytes_eq, bytes_eq_refl, Bool, true, ◌&&◌, Option, some, Result, ok, err,
  if◌then◌else◌, mem, ◌≡◌, refl, sym, ap, ◌∙◌, subst, arith, is_some,
}
use git_cache_proxy.Repo.{RepoRef}
use git_cache_proxy.Git.Mirrors.{
  GitCache, Answers, CacheOutcome, cached, FreshError, find_slot, slot, last, touch_repo,
  after_pull, ensure_wanted_oids, is_stale, finish_pull, pull, ensure_fresh,
}
use git_cache_proxy.Git.Mirrors.Slots.{last-slot, slot-found}
use git_cache_proxy.Git.Mirrors.Pulls.{pulls, same-ensure_wanted_oids, same-touch_repo}
use git_cache_proxy.Git.Mirrors.Pulled.{Pulled, is_pull, last-same, needed, pull-ok}

abbrev pub opened : RepoRef → GitCache → GitCache
opened repo g = touch_repo repo.name (slot repo.name g)

opened_slot :
    (repo : RepoRef) (g : GitCache) → is_some (find_slot repo.name (opened repo g).slots) ≡ true
opened_slot repo g =
    ap (λ s. is_some (find_slot repo.name s)) (same-touch_repo repo.name (slot repo.name g)).0
    ∙ slot-found repo.name g

kept-slot :
    (n : Bytes) (g : GitCache)
    → ((slot n g).mirrors ≡ g.mirrors) × ((slot n g).cfg ≡ g.cfg) × ((slot n g).events ≡ g.events)
unfolding slot
kept-slot n g = ground arith

pub opened_same :
    (repo : RepoRef) (g : GitCache)
    → ((opened repo g).mirrors ≡ g.mirrors)
      × ((opened repo g).cfg ≡ g.cfg)
      × (pulls (opened repo g).events ≡ pulls g.events)
      × ((j : Bytes) → last j (opened repo g) ≡ last j g)
opened_same repo g =
    let (s, m, c, v) = same-touch_repo repo.name (slot repo.name g) in
    let (m', c', v') = kept-slot repo.name g in
    (
      m ∙ m',
      c ∙ c',
      v ∙ ap pulls v',
      λ j. last-same j (opened repo g) (slot repo.name g) s ∙ last-slot repo.name j g,
    )

after-ok :
    (repo : RepoRef) (body : Bytes) (a : Answers) (p : Result FreshError CacheOutcome × GitCache)
    (o : CacheOutcome)
    → (after_pull repo body a p).0 ≡ ok o
    → (k : GitCache) × (p ≡ (ok o, k))
      × (after_pull repo body a p ≡ (ok o, (ensure_wanted_oids repo body a k).1))
unfolding after_pull
after-ok repo body a (err x, k) o e = absurd (ground (arith, e))
after-ok repo body a (ok q, k) o e =
    let same : q ≡ o = cc e in
    (k, ap (λ r. (ok r, k)) same, ap (λ r. (ok r, (ensure_wanted_oids repo body a k).1)) same)

-- What a request that succeeds does, whatever it wants: a repository without a mirror is cloned;
-- one with a mirror is fetched if the request asks for fresh refs and the last pull did not start
-- within the TTL; otherwise no pull is made. After it the mirror is there, the start of a pull is
-- the stamp of this repository, and every other stamp is what it was.
pub ensure_fresh_lem :
    (repo : RepoRef) (want_fetch : Bool) (body : Bytes) (a : Answers) (g : GitCache)
    (o : CacheOutcome)
    → (ensure_fresh repo want_fetch body a g).0 ≡ ok o
    → (o ≡ needed repo want_fetch a g) × Pulled repo a g o (ensure_fresh repo want_fetch body a g).1
unfolding ensure_fresh is_stale last
ensure_fresh_lem repo want_fetch body a g o e =
    let start : GitCache = opened repo g in
    let (m, c, v, s) = opened_same repo g in
    let (k, done, all) = after-ok repo body a (pull repo want_fetch a start) o e in
    let (kind, p) = pull-ok repo want_fetch a start k o (opened_slot repo g) done in
    let (s', m', c', v') = same-ensure_wanted_oids repo body a k in
    let end : GitCache = (ensure_wanted_oids repo body a k).1 in
    let here : Pulled repo a g o end = record {
      there = ap (mem repo.cache_dir) m' ∙ p.there;
      stamped = λ j.
          last-same j end k s'
          ∙ (p.stamped j
              ∙ ap
                  (λ (x : Option ℕ).
                    if is_pull o && bytes_eq repo.name j then some a.started else x)
                  (s j));
      configured = c' ∙ (p.configured ∙ c);
      counted = v' ∙ (p.counted ∙ ap (λ (x : ℕ). if is_pull o then 1 + x else x) v);
    } in
    let same : needed repo want_fetch a start ≡ needed repo want_fetch a g =
      needed-same repo want_fetch a start g m c (s repo.name) in
    (
      kind ∙ same,
      subst (λ (r : Result FreshError CacheOutcome × GitCache). Pulled repo a g o r.1) (sym all)
          here,
    )
  where
    needed-same :
        (repo : RepoRef) (w : Bool) (a : Answers) (g h : GitCache)
        → g.mirrors ≡ h.mirrors
        → g.cfg ≡ h.cfg
        → last repo.name g ≡ last repo.name h
        → needed repo w a g ≡ needed repo w a h
    needed-same repo w a g h m c l = rw (m, c, l) refl

cached-pull :
    (repo : RepoRef) (w : Bool) (a : Answers) (g : GitCache)
    → needed repo w a g ≡ cached
    → (pull repo w a g).0 ≡ ok cached
unfolding pull finish_pull
cached-pull repo w a g e = ground (arith, e)

pub after-result :
    (repo : RepoRef) (body : Bytes) (a : Answers) (p : Result FreshError CacheOutcome × GitCache)
    → (after_pull repo body a p).0 ≡ p.0
unfolding after_pull
after-result repo body a (err x, k) = refl
after-result repo body a (ok o, k) = refl

pub needed-opened :
    (repo : RepoRef) (w : Bool) (a : Answers) (g : GitCache)
    → needed repo w a (opened repo g) ≡ needed repo w a g
unfolding is_stale last
needed-opened repo w a g = let (m, c, v, s) = opened_same repo g in rw (m, c, s repo.name) refl

cached_answer :
    (repo : RepoRef) (w : Bool) (body : Bytes) (a : Answers) (g : GitCache)
    → needed repo w a g ≡ cached
    → (ensure_fresh repo w body a g).0 ≡ ok cached
unfolding ensure_fresh
cached_answer repo w body a g e =
    after-result repo body a (pull repo w a (opened repo g))
    ∙ cached-pull repo w a (opened repo g) (needed-opened repo w a g ∙ e)

-- A burst of requests is one pull: if a request has cloned or fetched the mirror, and in the state that
-- it left another for the same repository reads the clock before the TTL has passed since that pull
-- started, then the other is answered from the mirror, and git is not started to clone it or to fetch
-- its refs. The fetch of single ids that a body wants and the mirror misses is not meant by that.
pub pulled_once :
    (repo : RepoRef) (w v : Bool) (b c : Bytes) (x y : Answers) (g : GitCache) (o : CacheOutcome)
    → (ensure_fresh repo w b x g).0 ≡ ok o
    → is_pull o ≡ true
    → y.now - x.started < g.cfg.fetch_ttl
    → ((ensure_fresh repo v c y (ensure_fresh repo w b x g).1).0 ≡ ok cached)
      × (pulls (ensure_fresh repo v c y (ensure_fresh repo w b x g).1).1.events
          ≡ 1 + pulls g.events)
unfolding is_stale
pulled_once repo w v b c x y g o first real early =
    let h : GitCache = (ensure_fresh repo w b x g).1 in
    let (kind, one) = ensure_fresh_lem repo w b x g o first in
    let stamp : last repo.name h ≡ some x.started =
      one.stamped repo.name ∙ rw (real, bytes_eq_refl repo.name) refl in
    let none_needed : needed repo v y h ≡ cached =
      ground (arith, one.there, stamp, one.configured, early) in
    let second : (ensure_fresh repo v c y h).0 ≡ ok cached =
      cached_answer repo v c y h none_needed in
    let (kind', two) = ensure_fresh_lem repo v c y h cached second in
    (second, ground (arith, two.counted, one.counted, real))
