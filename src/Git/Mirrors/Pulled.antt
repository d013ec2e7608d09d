-- ===== src/Git/Mirrors/Pulled.antt =====
-- What a pull of src/git.rs that succeeds leaves: the mirror, and the stamp of its start.
use git_cache_proxy.Base.{
  ℕ, ◌+◌, Bytes, bytes_eq, bytes_eq_refl, List, Bool, true, false, not, ◌&&◌, Option, some, Result,
  ok, err, if◌then◌else◌, mem, insert, mem-insert, ◌≡◌, refl, sym, ap, ◌∙◌, arith, Bool-cases, inl,
  inr, is_some,
}
use git_cache_proxy.Repo.{RepoRef}
use git_cache_proxy.Git.Mirrors.{
  GitCache, Answers, CacheOutcome, cloned, fetched, cached, FreshError, find_slot, last, stamp,
  mark_repo, clone_mirror, fetch, is_stale, finish_pull, pull,
}
use git_cache_proxy.Git.Mirrors.Slots.{last-stamp}
use git_cache_proxy.Git.Mirrors.Pulls.{pulls}

-- What a pull does to the cache: which of the three it is, by its result.
abbrev pub needed : RepoRef → Bool → Answers → GitCache → CacheOutcome
needed repo want_fetch a g =
    if not (mem repo.cache_dir g.mirrors)
    then cloned
    else if want_fetch && is_stale g.cfg (last repo.name g) a.now
    then fetched
    else cached

abbrev pub is_pull : CacheOutcome → Bool
is_pull cloned = true
is_pull fetched = true
is_pull cached = false

-- After a pull with this outcome: the mirror is there, and the start is stamped if there was one.
pub record Pulled (repo : RepoRef) (a : Answers) (g : GitCache) (o : CacheOutcome) (h : GitCache)
    : Type 0 where
  pub there : mem repo.cache_dir h.mirrors ≡ true
  pub stamped :
      (j : Bytes)
      → last j h ≡ (if is_pull o && bytes_eq repo.name j then some a.started else last j g)
  pub configured : h.cfg ≡ g.cfg
  pub counted : pulls h.events ≡ (if is_pull o then 1 + pulls g.events else pulls g.events)

clone_mirror-ok :
    (repo : RepoRef) (a : Answers) (g h : GitCache)
    → clone_mirror repo a g ≡ (ok tt, h)
    → (h.slots ≡ g.slots)
      × (h.mirrors ≡ insert repo.cache_dir g.mirrors)
      × (h.cfg ≡ g.cfg)
      × (pulls h.events ≡ 1 + pulls g.events)
unfolding clone_mirror mark_repo
clone_mirror-ok repo a g h e = ground (arith, e)

fetch-ok :
    (repo : RepoRef) (a : Answers) (g h : GitCache)
    → fetch repo a g ≡ (ok tt, h)
    → (h.slots ≡ g.slots)
      × (h.mirrors ≡ g.mirrors)
      × (h.cfg ≡ g.cfg)
      × (pulls h.events ≡ 1 + pulls g.events)
unfolding fetch mark_repo
fetch-ok repo a g h e = ground (arith, e)

finish-ok :
    (c : CacheOutcome) (n : Bytes) (t : ℕ) (p : Result FreshError (Unit {0}) × GitCache)
    (o : CacheOutcome) (h : GitCache)
    → finish_pull c n t p ≡ (ok o, h)
    → (k : GitCache) × (p ≡ (ok tt, k)) × (o ≡ c) × (h ≡ stamp n t k)
unfolding finish_pull
finish-ok c n t (err x, k) o h e = absurd (ground (arith, e))
finish-ok c n t (ok _, k) o h e = (k, refl, cc e, cc e)

pub last-same : (j : Bytes) (g h : GitCache) → g.slots ≡ h.slots → last j g ≡ last j h
unfolding last
last-same j g h e = rw e refl

stamped_after :
    (k j : Bytes) (t : ℕ) (g h : GitCache)
    → is_some (find_slot k g.slots) ≡ true
    → h.slots ≡ g.slots
    → last j (stamp k t h) ≡ (if bytes_eq k j then some t else last j g)
stamped_after k j t g h found same =
    last-stamp k j t h (ap (λ s. is_some (find_slot k s)) same ∙ found)
    ∙ ap (λ (x : Option ℕ). if bytes_eq k j then some t else x) (last-same j h g same)

kept-stamp :
    (k : Bytes) (t : ℕ) (h : GitCache)
    → ((stamp k t h).mirrors ≡ h.mirrors)
      × ((stamp k t h).cfg ≡ h.cfg)
      × ((stamp k t h).events ≡ h.events)
unfolding stamp
kept-stamp k t h = (refl, refl, refl)

cloned-Pulled :
    (repo : RepoRef) (a : Answers) (g h : GitCache)
    → is_some (find_slot repo.name g.slots) ≡ true
    → clone_mirror repo a g ≡ (ok tt, h)
    → Pulled repo a g cloned (stamp repo.name a.started h)
cloned-Pulled repo a g h found e =
    let (slots, mirrors, cfg, count) = clone_mirror-ok repo a g h e in
    let (m, c, v) = kept-stamp repo.name a.started h in
    record {
      there = ap (mem repo.cache_dir) (m ∙ mirrors) ∙ inserted repo.cache_dir g.mirrors;
      stamped = λ j. stamped_after repo.name j a.started g h found slots;
      configured = c ∙ cfg;
      counted = ap pulls v ∙ count;
    }
  where
    inserted : (k : Bytes) (l : List Bytes) → mem k (insert k l) ≡ true
    inserted k l = ground (arith, mem-insert k k l, bytes_eq_refl k)

fetched-Pulled :
    (repo : RepoRef) (a : Answers) (g h : GitCache)
    → is_some (find_slot repo.name g.slots) ≡ true
    → mem repo.cache_dir g.mirrors ≡ true
    → fetch repo a g ≡ (ok tt, h)
    → Pulled repo a g fetched (stamp repo.name a.started h)
fetched-Pulled repo a g h found present e =
    let (slots, mirrors, cfg, count) = fetch-ok repo a g h e in
    let (m, c, v) = kept-stamp repo.name a.started h in
    record {
      there = ap (mem repo.cache_dir) (m ∙ mirrors) ∙ present;
      stamped = λ j. stamped_after repo.name j a.started g h found slots;
      configured = c ∙ cfg;
      counted = ap pulls v ∙ count;
    }

pub pull-ok :
    (repo : RepoRef) (want_fetch : Bool) (a : Answers) (g h : GitCache) (o : CacheOutcome)
    → is_some (find_slot repo.name g.slots) ≡ true
    → pull repo want_fetch a g ≡ (ok o, h)
    → (o ≡ needed repo want_fetch a g) × Pulled repo a g o h
unfolding pull finish_pull last
pull-ok repo want_fetch a g h o found e = elim (Bool-cases (mem repo.cache_dir g.mirrors)) [
  | inr absent ↦
      let (k, done, same, at_end) =
        finish-ok cloned repo.name a.started (clone_mirror repo a g) o h (absent_pull absent ∙ e) in
      rw (absent, same, at_end) (refl, cloned-Pulled repo a g k found done)
  | inl present ↦ elim (Bool-cases (want_fetch && is_stale g.cfg (last repo.name g) a.now)) [
    | inl stale ↦
        let (k, done, same, at_end) =
          finish-ok fetched repo.name a.started (fetch repo a g) o h
            (stale_pull present stale ∙ e) in
        rw (present, stale, same, at_end) (refl, fetched-Pulled repo a g k found present done)
    | inr fresh ↦
        let both : (ok cached, g) ≡ (ok o, h) = sym (fresh_pull present fresh) ∙ e in
        let same : h ≡ g = cc both in
        let kind : o ≡ cached = cc both in
        rw (present, fresh, kind, same)
          (refl, record { there = present; stamped = λ j. refl; configured = refl; counted = refl })
  ]
]
  where
    absent_pull :
        mem repo.cache_dir g.mirrors ≡ false
        → finish_pull cloned repo.name a.started (clone_mirror repo a g) ≡ pull repo want_fetch a g
    absent_pull q = rw (pull, q) refl

    stale_pull :
        mem repo.cache_dir g.mirrors ≡ true
        → (want_fetch && is_stale g.cfg (last repo.name g) a.now) ≡ true
        → finish_pull fetched repo.name a.started (fetch repo a g) ≡ pull repo want_fetch a g
    stale_pull q r = rw (pull, q, r) refl

    fresh_pull :
        mem repo.cache_dir g.mirrors ≡ true
        → (want_fetch && is_stale g.cfg (last repo.name g) a.now) ≡ false
        → pull repo want_fetch a g ≡ (ok cached, g)
    fresh_pull q r = rw (pull, q, r) refl
