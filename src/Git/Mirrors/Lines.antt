-- ===== src/Git/Mirrors/Lines.antt =====
-- What `GitCache` of src/git.rs reads from git and writes to it, line by line.
use git_cache_proxy.Base.{
  ◌<◌, Bytes, codes, bytes_eq, List, [], ◌∷◌, ◌++◌, map, Option, none, some, ok, if◌then◌else◌, All,
  length, drop, leb, ◌≡◌, ◌≢◌, refl, sym, ap, ◌∙◌, arith, split, NoByte, split-append_sep,
  split_no_sep, split-ne-nil, strip_suffix, strip_suffix-append, append_assoc,
}
use git_cache_proxy.Repo.{RepoRef}
use git_cache_proxy.Git.Mirrors.{
  GitCache, Answers, git_update_ref, lines, lines_of, strip_cr, missing_lines, missing_oids,
  deletions, prune_wants,
}

-- A text that `str::lines` gives back as it is.
pub record IsLine (l : Bytes) : Type 0 where
  pub one : NoByte b'\n' l
  pub no_cr : strip_suffix (b'\r' ∷ []) l ≡ none

-- Each line with its end.
abbrev pub terminate : List Bytes → Bytes
terminate [] = []
terminate (l ∷ ls) = l ++ (b'\n' ∷ terminate ls)

lines_of-cons :
    (l : Bytes) (ls : List Bytes) → ls ≢ [] → lines_of (l ∷ ls) ≡ strip_cr l ∷ lines_of ls
unfolding lines_of
lines_of-cons l [] h = absurd (h refl)
lines_of-cons l (m ∷ ls) h = refl

strip_cr-line : (l : Bytes) → IsLine l → strip_cr l ≡ l
unfolding strip_cr
strip_cr-line l h = rw (strip_cr, h.no_cr) refl

pub lines-terminate : (ls : List Bytes) → All IsLine ls → lines (terminate ls) ≡ ls
unfolding lines lines_of split bytes_eq
lines-terminate [] h = refl
lines-terminate (l ∷ ls) h =
    ap lines_of (
      split-append_sep b'\n' l (terminate ls)
      ∙ ap (λ ps. ps ++ split b'\n' (terminate ls)) (split_no_sep b'\n' l h.0.one))
    ∙ (lines_of-cons l (split b'\n' (terminate ls)) (split-ne-nil b'\n' (terminate ls))
        ∙ (ap (λ k. k ∷ lines (terminate ls)) (strip_cr-line l h.0)
            ∙ ap (λ ks. l ∷ ks) (lines-terminate ls h.1)))

-- The answer of `cat-file --batch-check` for an id: what is there, or that it is missing.
abbrev pub reply_line : Bytes × Option Bytes → Bytes
reply_line (oid, none) = oid ++ codes " missing"
reply_line (oid, some text) = text

abbrev pub absent : List (Bytes × Option Bytes) → List Bytes
absent [] = []
absent ((oid, none) ∷ rs) = oid ∷ absent rs
absent ((oid, some text) ∷ rs) = absent rs

-- The line for an object that is there does not end like one for a missing object.
abbrev pub IsClear : Bytes × Option Bytes → Type 0
IsClear (oid, none) = Unit
IsClear (oid, some text) = strip_suffix (codes " missing") text ≡ none

missing_lines-replies :
    (rs : List (Bytes × Option Bytes))
    → All IsClear rs
    → missing_lines (map reply_line rs) ≡ absent rs
unfolding missing_lines
missing_lines-replies [] h = refl
missing_lines-replies ((oid, none) ∷ rs) h =
    rw (missing_lines, strip_suffix-append oid (codes " missing"))
      (ap (λ ks. oid ∷ ks) (missing_lines-replies rs h.1))
missing_lines-replies ((oid, some text) ∷ rs) h =
    rw (missing_lines, h.0) (missing_lines-replies rs h.1)

-- When git answers every id with a line of its own, the ids that are taken to be missing are
-- exactly those that it reports as missing, in that order.
pub missing_oids_exactly :
    (rs : List (Bytes × Option Bytes)) (a : Answers)
    → All IsLine (map reply_line rs)
    → All IsClear rs
    → a.cat_file ≡ some (terminate (map reply_line rs))
    → missing_oids a ≡ ok (absent rs)
unfolding missing_oids
missing_oids_exactly rs a one clear out =
    rw (out, lines-terminate (map reply_line rs) one) (ap ok (missing_lines-replies rs clear))

abbrev pub delete_line : Bytes → Bytes
delete_line r = codes "delete " ++ r

deletions-terminate : (rs : List Bytes) → deletions rs ≡ terminate (map delete_line rs)
unfolding deletions
deletions-terminate [] = refl
deletions-terminate (r ∷ rs) =
    ap (λ t. codes "delete " ++ (r ++ (b'\n' ∷ t))) (deletions-terminate rs)
    ∙ sym (append_assoc (codes "delete ") r (b'\n' ∷ terminate (map delete_line rs)))

-- With a cap on the pins, and a listing of them with the newest first: nothing is deleted while they
-- fit; otherwise one transaction deletes exactly those beyond the newest `max_wants`, each by a
-- line of its own.
pub prune_wants_exactly :
    (repo : RepoRef) (a : Answers) (g : GitCache) (pins : List Bytes)
    → 0 < g.cfg.max_wants
    → All IsLine pins
    → a.for_each_ref ≡ some (terminate pins)
    → (prune_wants repo a g).1.events ≡ (
        if leb (length pins) g.cfg.max_wants
        then g.events
        else git_update_ref repo.cache_dir (terminate (map delete_line (drop g.cfg.max_wants pins)))
          ∷ g.events)
unfolding prune_wants
prune_wants_exactly repo a g pins pos one out =
    ground
      (arith, pos, out, lines-terminate pins one, deletions-terminate (drop g.cfg.max_wants pins))
