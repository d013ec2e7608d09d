-- ===== src/FilePath/Join.antt =====
-- Joining a root with a name of plain components adds exactly those components.
use git_cache_proxy.Base.{
  Bytes, codes, bytes_eq, bytes_eq_iff, bytes_eq_refl, split, split-append_sep, split-ne-nil, List,
  [], ◌∷◌, ◌++◌, map, append_assoc, append-nil, ◌≡◌, ◌≢◌, refl, Bool, true, false, ℕ, if◌then◌else◌,
  ap, All, arith, ◌⊎◌, inl, inr, Bool-cases, starts_with,
}
use git_cache_proxy.FilePath.{
  Component, root_dir, normal, body, lead, components, need_sep, path_join, component_eq, is_prefix,
}

-- A component that names an entry of a directory.
abbrev pub IsPlain : Bytes → Type 0
IsPlain p = (p ≢ []) × (p ≢ codes ".") × (p ≢ codes "..")

pub body-IsPlain : (ps : List Bytes) → All IsPlain ps → body ps ≡ map normal ps
unfolding body
body-IsPlain [] h = refl
body-IsPlain (p ∷ ps) h = ground (
  arith,
  h.0,
  bytes_eq_iff p [],
  bytes_eq_iff p (codes "."),
  bytes_eq_iff p (codes ".."),
  body-IsPlain ps h.1,
)

pub body-append : (ps qs : List Bytes) → body (ps ++ qs) ≡ body ps ++ body qs
unfolding body
body-append [] qs = refl
body-append (p ∷ ps) qs = ground (arith, body-append ps qs)

lead-append : (ps qs : List Bytes) → ps ≢ [] → lead (ps ++ qs) ≡ lead ps ++ body qs
unfolding lead
lead-append [] qs h = absurd (h refl)
lead-append (p ∷ ps) qs h = ground (arith, body-append ps qs, body-append (p ∷ ps) qs)

lead-IsPlain : (ps : List Bytes) → All IsPlain ps → lead ps ≡ map normal ps
unfolding lead
lead-IsPlain [] h = refl
lead-IsPlain (p ∷ ps) h = ground (arith, h.0, bytes_eq_iff p (codes "."), body-IsPlain (p ∷ ps) h)

-- A name of plain components is relative.
pub IsPlain-relative :
    (name : Bytes) → All IsPlain (split b'/' name) → starts_with (codes "/") name ≡ false
unfolding split
IsPlain-relative [] h = refl
IsPlain-relative (c ∷ s) h = ground (arith, h)

abbrev shape : Bool → List Bytes → List Component
shape absolute ps = if absolute then root_dir ∷ body ps else lead ps

shape-append :
    (absolute : Bool) (ps qs : List Bytes)
    → ps ≢ []
    → shape absolute (ps ++ qs) ≡ shape absolute ps ++ body qs
shape-append true ps qs h = rw (body-append ps qs)
shape-append false ps qs h = lead-append ps qs h

body_end : body (split b'/' []) ≡ []
unfolding body split bytes_eq
body_end = refl

absolute-append :
    (c : ℕ) (r ys : Bytes) → starts_with (codes "/") (c ∷ r ++ ys) ≡ starts_with (codes "/") (c ∷ r)
absolute-append c r ys = ground arith

absolute_sep :
    (r ys : Bytes)
    → starts_with (codes "/") (r ++ b'/' ∷ ys) ≡ starts_with (codes "/") (r ++ b'/' ∷ [])
absolute_sep [] ys = refl
absolute_sep (c ∷ r) ys = ground arith

components_sep :
    (r ys : Bytes)
    → components (r ++ b'/' ∷ ys) ≡ components (r ++ b'/' ∷ []) ++ body (split b'/' ys)
unfolding components
components_sep r ys = rw (
  absolute_sep r ys,
  split-append_sep b'/' r ys,
  split-append_sep b'/' r [],
  shape-append _ (split b'/' r) (split b'/' ys) (split-ne-nil b'/' r),
  shape-append _ (split b'/' r) (split b'/' []) (split-ne-nil b'/' r),
  body_end,
  append-nil,
)

components_end : (c : ℕ) (r : Bytes) → components (c ∷ r ++ b'/' ∷ []) ≡ components (c ∷ r)
unfolding components
components_end c r = rw (
  split-append_sep b'/' (c ∷ r) [],
  shape-append _ (split b'/' (c ∷ r)) (split b'/' []) (split-ne-nil b'/' (c ∷ r)),
  body_end,
  append-nil,
  absolute-append c r (b'/' ∷ []),
)

-- A path that needs no separator is empty or ends in one.
no_sep-cases : (p : Bytes) → need_sep p ≡ false → (p ≡ []) ⊎ ((r : Bytes) × (p ≡ r ++ b'/' ∷ []))
unfolding need_sep
no_sep-cases [] h = inl refl
no_sep-cases (c ∷ []) h = inr ([], ground arith)
no_sep-cases (c ∷ d ∷ s) h = elim (no_sep-cases (d ∷ s) h) [
  | inl e ↦ cc
  | inr (r, e) ↦ inr (c ∷ r, ap (λ t. c ∷ t) e)
]

-- The components of a joined path are the root's and then the name's.
pub components-path_join :
    (root name : Bytes)
    → All IsPlain (split b'/' name)
    → components (path_join root name) ≡ components root ++ map normal (split b'/' name)
components-path_join root name h = elim (Bool-cases (need_sep root)) [
  | inl e ↦ with_sep root e
  | inr e ↦ elim (no_sep-cases root e) [
    | inl z ↦ rw (z, joined_at_empty) (rw (components_empty, components_relative) refl)
    | inr (r, z) ↦ rw (z, joined_after_sep r (rw z at e), components_sep r name, body-IsPlain _ h)
  ]
]
  where
    relative : starts_with (codes "/") name ≡ false
    relative = IsPlain-relative name h

    joined_at_empty : path_join [] name ≡ name
    joined_at_empty = unfold path_join need_sep in rw relative

    components_empty : components [] ≡ []
    components_empty = unfold components split lead body bytes_eq in refl

    components_relative : components name ≡ map normal (split b'/' name)
    components_relative = unfold components in rw relative (lead-IsPlain _ h)

    joined_after_sep :
        (r : Bytes)
        → need_sep (r ++ b'/' ∷ []) ≡ false
        → path_join (r ++ b'/' ∷ []) name ≡ r ++ b'/' ∷ name
    joined_after_sep r e = unfold path_join in rw (relative, e, append_assoc)

    with_sep :
        (root : Bytes)
        → need_sep root ≡ true
        → components (path_join root name) ≡ components root ++ map normal (split b'/' name)
    with_sep [] e = unfold need_sep in cc
    with_sep (c ∷ r) e =
        unfold path_join in
        rw (relative, e, components_sep (c ∷ r) name, components_end c r, body-IsPlain _ h)

pub component_eq_refl : (c : Component) → component_eq c c ≡ true
unfolding component_eq
component_eq_refl (normal p) = bytes_eq_refl p
component_eq_refl _ = refl

pub is_prefix-append : (ps qs : List Component) → is_prefix ps (ps ++ qs) ≡ true
unfolding is_prefix
is_prefix-append [] qs = refl
is_prefix-append (p ∷ ps) qs = rw (component_eq_refl p, is_prefix-append ps qs)

normal-injective : (p q : Bytes) → normal p ≡ normal q → p ≡ q
normal-injective p q e = cc

pub map-normal-injective : (ps qs : List Bytes) → map normal ps ≡ map normal qs → ps ≡ qs
map-normal-injective [] [] e = refl
map-normal-injective [] (q ∷ qs) e = cc
map-normal-injective (p ∷ ps) [] e = cc
map-normal-injective (p ∷ ps) (q ∷ qs) e = cc (map-normal-injective ps qs (cc))
