-- ===== src/Git/Mirrors/Pulls.antt =====
-- What the want-by-SHA fetch and the marks of src/git.rs leave alone, and how pulls are counted.
use git_cache_proxy.Base.{ℕ, ◌+◌, Bytes, List, [], ◌∷◌, Result, ok, err, ◌≡◌, arith}
use git_cache_proxy.Repo.{RepoRef}
use git_cache_proxy.Git.Wants.{parse_wants}
use git_cache_proxy.Git.Mirrors.{
  GitCache, Answers, Event, index_touch, index_mark_changed, record_upstream, observe_upstream,
  git_clone, git_fetch, git_fetch_wants, git_update_ref, remove_dir, WantsError, mark_repo,
  touch_repo, missing_oids, prune_wants, fetch_wants, cap_wants, fetch_missing, satisfy_wants,
  ensure_wanted_oids,
}

-- How often git was started to clone or to fetch a mirror, or was kept trying.
abbrev pub pulls : List Event → ℕ
pulls [] = 0
pulls (index_touch n ∷ l) = pulls l
pulls (index_mark_changed n ∷ l) = pulls l
pulls (record_upstream o s n ∷ l) = pulls l
pulls (observe_upstream o n ∷ l) = pulls l
pulls (git_clone u d c ∷ l) = 1 + pulls l
pulls (git_fetch d c ∷ l) = 1 + pulls l
pulls (git_fetch_wants d w ∷ l) = pulls l
pulls (git_update_ref d t ∷ l) = pulls l
pulls (remove_dir d ∷ l) = pulls l

-- The slots, the mirrors, the configuration and the number of pulls.
abbrev SameCache : GitCache → GitCache → Type 0
SameCache g h =
    (h.slots ≡ g.slots)
    × (h.mirrors ≡ g.mirrors)
    × (h.cfg ≡ g.cfg)
    × (pulls h.events ≡ pulls g.events)

pub same-prune_wants :
    (repo : RepoRef) (a : Answers) (g : GitCache) → SameCache g (prune_wants repo a g).1
unfolding prune_wants
same-prune_wants repo a g = ground arith

pub same-mark_repo : (n : Bytes) (g : GitCache) → SameCache g (mark_repo n g)
unfolding mark_repo
same-mark_repo n g = ground arith

pub same-touch_repo : (n : Bytes) (g : GitCache) → SameCache g (touch_repo n g)
unfolding touch_repo
same-touch_repo n g = ground arith

pub same-fetch_wants :
    (repo : RepoRef) (a : Answers) (l : List Bytes) (g : GitCache)
    → SameCache g (fetch_wants repo a l g).1
unfolding fetch_wants mark_repo prune_wants
same-fetch_wants repo a l g = ground arith

pub same-fetch_missing :
    (repo : RepoRef) (a : Answers) (r : Result WantsError (List Bytes)) (g : GitCache)
    → SameCache g (fetch_missing repo a r g).1
unfolding fetch_missing
same-fetch_missing repo a (err e) g = ground arith
same-fetch_missing repo a (ok []) g = ground arith
same-fetch_missing repo a (ok (m ∷ ms)) g =
    same-fetch_wants repo a (cap_wants g.cfg.max_wants (m ∷ ms)) g

pub same-satisfy_wants :
    (repo : RepoRef) (a : Answers) (l : List Bytes) (g : GitCache)
    → SameCache g (satisfy_wants repo a l g).1
unfolding satisfy_wants
same-satisfy_wants repo a [] g = ground arith
same-satisfy_wants repo a (w ∷ ws) g = same-fetch_missing repo a (missing_oids a) g

pub same-ensure_wanted_oids :
    (repo : RepoRef) (body : Bytes) (a : Answers) (g : GitCache)
    → SameCache g (ensure_wanted_oids repo body a g).1
unfolding ensure_wanted_oids
same-ensure_wanted_oids repo body a g = same-satisfy_wants repo a (parse_wants body) g
