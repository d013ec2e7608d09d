-- ===== src/Repo/Endpoints.antt =====
-- The endpoints' suffixes: what the two path parsers of src/repo.rs take from a request path.
use git_cache_proxy.Base.{
  ℕ, Bytes, bytes_eq_iff, starts_with, find, strip_suffix, strip_suffix-append,
  strip_suffix-eq-some, trim_start_matches, trim_end_matches, take, drop, length, split,
  split-append_sep, All, List, [], ◌∷◌, ◌++◌, append_assoc, ◌≡◌, ◌≢◌, ◌⊎◌, inl, inr, refl, sym, ap,
  ◌∙◌, true, some, arith, ◌==◌, is_some, Option-cases, Bool-cases, subst,
}
use mathlib.Core.Option
use git_cache_proxy.FilePath.Join.{IsPlain}
use git_cache_proxy.Repo.{repo_name_from_path, lfs_object_from_path, valid_lfs_oid, lfs_marker}
use git_cache_proxy.Repo.Resolve.{IsRepoName}

-- A text ends in the byte, or trimming leaves it alone.
trim_end-cases :
    (b : ℕ) (s : Bytes) → (trim_end_matches b s ≡ s) ⊎ ((r : Bytes) × (s ≡ r ++ b ∷ []))
unfolding trim_end_matches
trim_end-cases b [] = inl refl
trim_end-cases b (c ∷ []) = elim (Bool-cases (b == c)) [
  | inl e ↦ inr ([], ground arith)
  | inr e ↦ inl (rw e)
]
trim_end-cases b (c ∷ d ∷ s) = elim (trim_end-cases b (d ∷ s)) [
  | inl e ↦ inl (rw e)
  | inr (r, e) ↦ inr (c ∷ r, ap (λ t. c ∷ t) e)
]

trim_end-append : (b : ℕ) (s : Bytes) → trim_end_matches b (s ++ b ∷ []) ≡ trim_end_matches b s
unfolding trim_end_matches
trim_end-append b [] = ground arith
trim_end-append b (c ∷ s) = ground (arith, trim_end-append b s)

starts_with-drop : (p s : Bytes) → starts_with p s ≡ true → s ≡ p ++ drop (length p) s
starts_with-drop [] s h = refl
starts_with-drop (c ∷ p) [] h = cc
starts_with-drop (c ∷ p) (d ∷ s) h = ground (arith, starts_with-drop p s)

find-eq-some :
    (p s : Bytes) (i : ℕ) → find p s ≡ some i → s ≡ take i s ++ (p ++ drop (length p) (drop i s))
unfolding find
find-eq-some p [] i e = elim (Bool-cases (starts_with p [])) [
  | inl h ↦ ground (arith, starts_with-drop p [] h)
  | inr h ↦ cc (ap is_some (rw h at e))
]
find-eq-some p (c ∷ s) i e = elim (Bool-cases (starts_with p (c ∷ s))) [
  | inl h ↦ ground (arith, starts_with-drop p (c ∷ s) h)
  | inr h ↦ elim (Option-cases (find p s)) [
    | inl n ↦ ground (arith, n)
    | inr (j, m) ↦ ground (arith, find-eq-some p s j m)
  ]
]

-- A path that the parser takes is a name and the endpoint's suffix, and the name that it gives has
-- its trailing slashes trimmed. Leading slashes of the path do not count.
pub repo_name-eq-some :
    (path suffix name : Bytes)
    → repo_name_from_path path suffix ≡ some name
    → (rest : Bytes) × (trim_start_matches b'/' path ≡ rest ++ trim_start_matches b'/' suffix)
      × (name ≡ trim_end_matches b'/' rest)
unfolding repo_name_from_path
repo_name-eq-some path suffix name e =
    elim (Option-cases
      (strip_suffix (trim_start_matches b'/' suffix) (trim_start_matches b'/' path))) [
        | inl n ↦ ground (arith, n)
        | inr (rest, m) ↦ (rest, strip_suffix-eq-some _ _ rest m, ground (arith, m))
      ]

-- No name of plain components ends in a separator.
IsPlain-trim_end :
    (name : Bytes) → All IsPlain (split b'/' name) → trim_end_matches b'/' name ≡ name
IsPlain-trim_end name h = elim (trim_end-cases b'/' name) [
  | inl e ↦ e
  | inr (r, e) ↦ absurd (
      last_empty (split b'/' r)
        (subst (All IsPlain) (ap (split b'/') e ∙ split-append_sep b'/' r []) h))
]
  where
    last_empty : (ps : List Bytes) → ¬ All IsPlain (ps ++ split b'/' [])
    last_empty [] k = unfold split in k.0.0 refl
    last_empty (p ∷ ps) k = last_empty ps k.1

IsPlain-trim_start :
    (name : Bytes) (t : Bytes)
    → All IsPlain (split b'/' name)
    → trim_start_matches b'/' (name ++ t) ≡ name ++ t
unfolding trim_start_matches split
IsPlain-trim_start [] t h = absurd (h.0.0 refl)
IsPlain-trim_start (c ∷ s) t h = ground (arith, h)

-- Every repository is reached: for an accepted name, the path `/<name>/<endpoint>` gives it back.
pub repo_name_roundtrip :
    (name endpoint : Bytes)
    → IsRepoName name
    → trim_start_matches b'/' endpoint ≡ endpoint
    → repo_name_from_path (b'/' ∷ (name ++ (b'/' ∷ endpoint))) (b'/' ∷ endpoint) ≡ some name
unfolding repo_name_from_path
repo_name_roundtrip name endpoint h e =
    rw
      (
        trim_slash (name ++ (b'/' ∷ endpoint)),
        trim_slash endpoint,
        e,
        IsPlain-trim_start name (b'/' ∷ endpoint) h.plain,
      )
      (ap (Option.map (trim_end_matches b'/')) (
          ap (strip_suffix endpoint) (sym (append_assoc name (b'/' ∷ []) endpoint))
          ∙ strip_suffix-append (name ++ b'/' ∷ []) endpoint)
        ∙ ap some (trim_end-append b'/' name ∙ IsPlain-trim_end name h.plain))
  where
    trim_slash : (s : Bytes) → trim_start_matches b'/' (b'/' ∷ s) ≡ trim_start_matches b'/' s
    trim_slash s = unfold trim_start_matches in refl

-- An object path that the parser takes ends in a well-formed oid behind the marker, and names a
-- repository before it.
pub lfs_object-eq-some :
    (path repo oid : Bytes)
    → lfs_object_from_path path ≡ some (repo, oid)
    → (valid_lfs_oid oid ≡ true)
      × (repo ≢ [])
      × (trim_start_matches b'/' path ≡ repo ++ (lfs_marker ++ oid))
unfolding lfs_object_from_path
lfs_object-eq-some path repo oid e =
    elim (Option-cases (find lfs_marker (trim_start_matches b'/' path))) [
      | inl n ↦ ground (arith, n)
      | inr (i, m) ↦ (
        ground (arith, m),
        ground (arith, m, bytes_eq_iff repo []),
        ground (arith, m, find-eq-some lfs_marker (trim_start_matches b'/' path) i m),
      )
    ]
