-- ===== src/Git/Mirrors/Failures.antt =====
-- What a failed pull and an eviction leave behind, in src/git.rs.
use git_cache_proxy.Base.{
  ℕ, Bytes, codes, bytes_eq, bytes_eq_iff, bytes_eq_refl, List, [], ◌∷◌, Bool, true, false, ◌&&◌,
  Result, ok, err, if◌then◌else◌, mem, ◌≡◌, refl, sym, ap, ◌∙◌, subst, arith,
}
use git_cache_proxy.Repo.{RepoRef}
use git_cache_proxy.Git.Retry.{run_upstream}
use git_cache_proxy.Git.Mirrors.{
  GitCache, Answers, CacheOutcome, cloned, fetched, Event, index_touch, index_mark_changed,
  record_upstream, observe_upstream, git_clone, git_fetch, git_fetch_wants, git_update_ref,
  remove_dir, FreshError, find_slot, slot, last, mark_repo, touch_repo, evict_mirror, clone_mirror,
  fetch, finish_pull, pull, after_pull, ensure_fresh,
}
use git_cache_proxy.Git.Mirrors.Freshness.{
  needed-opened, after-result, opened, opened_same, ensure_fresh_lem,
}
use git_cache_proxy.Git.Mirrors.Pulled.{needed}
use git_cache_proxy.Git.Mirrors.Slots.{mem-remove_mirror}

-- The repositories that the metrics of the upstream name, other than `-`.
abbrev pub named : List Event → List Bytes
named [] = []
named (index_touch n ∷ l) = named l
named (index_mark_changed n ∷ l) = named l
named (record_upstream o s n ∷ l) =
    let rest = named l in if bytes_eq n (codes "-") then rest else n ∷ rest
named (observe_upstream o n ∷ l) =
    let rest = named l in if bytes_eq n (codes "-") then rest else n ∷ rest
named (git_clone u d c ∷ l) = named l
named (git_fetch d c ∷ l) = named l
named (git_fetch_wants d w ∷ l) = named l
named (git_update_ref d t ∷ l) = named l
named (remove_dir d ∷ l) = named l

abbrev Unchanged : GitCache → GitCache → Type 0
Unchanged g h =
    ((j : Bytes) → last j h ≡ last j g)
    × (h.mirrors ≡ g.mirrors)
    × (named h.events ≡ named g.events)

clone_mirror-err :
    (repo : RepoRef) (a : Answers) (g h : GitCache) (x : FreshError)
    → clone_mirror repo a g ≡ (err x, h)
    → (h.slots ≡ g.slots) × (h.mirrors ≡ g.mirrors) × (named h.events ≡ named g.events)
unfolding clone_mirror mark_repo
clone_mirror-err repo a g h x e = ground (arith, e, bytes_eq_refl (codes "-"))

fetch-err :
    (repo : RepoRef) (a : Answers) (g h : GitCache) (x : FreshError)
    → fetch repo a g ≡ (err x, h)
    → (h.slots ≡ g.slots) × (h.mirrors ≡ g.mirrors) × (named h.events ≡ named g.events)
unfolding fetch mark_repo
fetch-err repo a g h x e = ground (arith, e, bytes_eq_refl (codes "-"))

finish-err :
    (c : CacheOutcome) (n : Bytes) (t : ℕ) (p : Result FreshError (Unit {0}) × GitCache)
    (x : FreshError) (h : GitCache)
    → finish_pull c n t p ≡ (err x, h)
    → p ≡ (err x, h)
unfolding finish_pull
finish-err c n t (err y, k) x h e = cc e
finish-err c n t (ok _, k) x h e = absurd (ground (arith, e))

pull-err :
    (repo : RepoRef) (w : Bool) (a : Answers) (g h : GitCache) (x : FreshError)
    → pull repo w a g ≡ (err x, h)
    → (h.slots ≡ g.slots) × (h.mirrors ≡ g.mirrors) × (named h.events ≡ named g.events)
unfolding pull
pull-err repo w a g h x e = ground (
  arith,
  e,
  finish-err cloned repo.name a.started (clone_mirror repo a g) x h,
  finish-err fetched repo.name a.started (fetch repo a g) x h,
  clone_mirror-err repo a g h x,
  fetch-err repo a g h x,
)

named-touch_repo : (n : Bytes) (g : GitCache) → named (touch_repo n g).events ≡ named g.events
unfolding touch_repo
named-touch_repo n g = ground arith

named-slot : (n : Bytes) (g : GitCache) → named (slot n g).events ≡ named g.events
unfolding slot
named-slot n g = ground arith

after-err :
    (repo : RepoRef) (body : Bytes) (a : Answers) (p : Result FreshError CacheOutcome × GitCache)
    (x : FreshError)
    → (after_pull repo body a p).0 ≡ err x
    → (k : GitCache) × (p ≡ (err x, k)) × (after_pull repo body a p ≡ (err x, k))
unfolding after_pull
after-err repo body a (err y, k) x e = (k, cc e, cc e)
after-err repo body a (ok q, k) x e = absurd (ground (arith, e))

last-same : (j : Bytes) (g h : GitCache) → g.slots ≡ h.slots → last j g ≡ last j h
unfolding last
last-same j g h e = rw e refl

-- A request that fails leaves every stamp and the set of mirrors as they were, so that the next
-- request pulls again; and no series of the metrics is made for a name that a client sent.
pub ensure_fresh_failed :
    (repo : RepoRef) (want_fetch : Bool) (body : Bytes) (a : Answers) (g : GitCache)
    (x : FreshError)
    → (ensure_fresh repo want_fetch body a g).0 ≡ err x
    → ((j : Bytes) → last j (ensure_fresh repo want_fetch body a g).1 ≡ last j g)
      × ((ensure_fresh repo want_fetch body a g).1.mirrors ≡ g.mirrors)
      × (named (ensure_fresh repo want_fetch body a g).1.events ≡ named g.events)
unfolding ensure_fresh
ensure_fresh_failed repo want_fetch body a g x e =
    let start : GitCache = opened repo g in
    let (m, c, v, s) = opened_same repo g in
    let (k, done, all) = after-err repo body a (pull repo want_fetch a start) x e in
    let (s', m', n') = pull-err repo want_fetch a start k x done in
    let here : Unchanged g k = (
      λ j. last-same j k start s' ∙ s j,
      m' ∙ m,
      n' ∙ (named-touch_repo repo.name (slot repo.name g) ∙ named-slot repo.name g),
    ) in
    subst (λ (r : Result FreshError CacheOutcome × GitCache). Unchanged g r.1) (sym all) here

pull-succeeds :
    (repo : RepoRef) (w : Bool) (a : Answers) (g : GitCache)
    → (run_upstream true a.clone).1 ≡ ok tt
    → (run_upstream false a.fetch).1 ≡ ok tt
    → a.parent_created ≡ true
    → a.renamed ≡ true
    → (pull repo w a g).0 ≡ ok (needed repo w a g)
unfolding pull finish_pull clone_mirror fetch
pull-succeeds repo w a g cl fe pa re = ground (arith, cl, fe, pa, re)

-- A request succeeds, with the outcome that it needs, whenever the pulls it may make do: the
-- parent directory can be made, git clones and fetches, and the clone can be renamed into place.
-- The want-by-SHA fetch cannot make it fail.
pub ensure_fresh_succeeds :
    (repo : RepoRef) (want_fetch : Bool) (body : Bytes) (a : Answers) (g : GitCache)
    → (run_upstream true a.clone).1 ≡ ok tt
    → (run_upstream false a.fetch).1 ≡ ok tt
    → a.parent_created ≡ true
    → a.renamed ≡ true
    → (ensure_fresh repo want_fetch body a g).0 ≡ ok (needed repo want_fetch a g)
unfolding ensure_fresh
ensure_fresh_succeeds repo want_fetch body a g cl fe pa re =
    after-result repo body a (pull repo want_fetch a (opened repo g))
    ∙ (pull-succeeds repo want_fetch a (opened repo g) cl fe pa re
        ∙ ap ok (needed-opened repo want_fetch a g))

-- An eviction fails only if there is a mirror and it cannot be renamed away. It takes the mirror in
-- its directory, if the rename succeeds, and no other; the stamps stay.
pub evict_mirror_lem :
    (name dir : Bytes) (renamed : Bool) (g : GitCache)
    → ((evict_mirror name dir renamed g).0 ≡ (if mem dir g.mirrors then renamed else true))
      × ((d : Bytes)
          → mem d (evict_mirror name dir renamed g).1.mirrors
            ≡ (if renamed && bytes_eq dir d then false else mem d g.mirrors))
      × ((j : Bytes) → last j (evict_mirror name dir renamed g).1 ≡ last j g)
unfolding evict_mirror slot last find_slot
evict_mirror_lem name dir renamed g = (
  ground arith,
  λ d. ground (arith, mem-remove_mirror dir d g.mirrors, bytes_eq_iff dir d),
  λ j. ground (arith, bytes_eq_iff name j),
)

-- After an eviction that succeeded, a request for the repository that succeeds has cloned it,
-- however recent the last pull was.
pub evicted_recloned :
    (repo : RepoRef) (renamed w : Bool) (body : Bytes) (a : Answers) (g : GitCache)
    (o : CacheOutcome)
    → (evict_mirror repo.name repo.cache_dir renamed g).0 ≡ true
    → (ensure_fresh repo w body a (evict_mirror repo.name repo.cache_dir renamed g).1).0 ≡ ok o
    → o ≡ cloned
evicted_recloned repo renamed w body a g o gone e =
    let h : GitCache = (evict_mirror repo.name repo.cache_dir renamed g).1 in
    let (result, left, stamps) = evict_mirror_lem repo.name repo.cache_dir renamed g in
    let absent : mem repo.cache_dir h.mirrors ≡ false =
      ground (arith, left repo.cache_dir, result, gone, bytes_eq_refl repo.cache_dir) in
    (ensure_fresh_lem repo w body a h o e).0 ∙ rw absent refl
