-- ===== src/Repo/Resolve.antt =====
-- What `resolve` of src/repo.rs promises: containment under the cache root, and one directory for
-- one name.
use git_cache_proxy.Base.{
  Bytes, codes, bytes_eq, bytes_eq_iff, contains, split, split-ne-nil, split_injective, ◌↔◌, all,
  All, trim_end_matches, List, [], ◌∷◌, ◌++◌, map, true, false, not, ◌≡◌, ◌≢◌, refl, sym, ap, ◌∙◌,
  ok, err, arith, append_left_cancel,
}
use git_cache_proxy.FilePath.{normal, components, path_join, path_starts_with}
use git_cache_proxy.FilePath.Join.{
  IsPlain, IsPlain-relative, components-path_join, is_prefix-append, map-normal-injective,
}
use git_cache_proxy.Repo.{RepoRef, escapes_root, bad_component, is_reserved, resolve}

pub all-IsPlain :
    (ps : List Bytes) → all (λ comp. not (bad_component comp)) ps ≡ true → All IsPlain ps
all-IsPlain [] h = tt
all-IsPlain (p ∷ ps) h = (
  (
    ground (arith, bytes_eq_iff p []),
    ground (arith, bytes_eq_iff p (codes ".")),
    ground (arith, bytes_eq_iff p (codes "..")),
  ),
  all-IsPlain ps (ground arith),
)

pub IsPlain-all :
    (ps : List Bytes) → All IsPlain ps → all (λ comp. not (bad_component comp)) ps ≡ true
IsPlain-all [] h = refl
IsPlain-all (p ∷ ps) h = ground (
  arith,
  h.0,
  bytes_eq_iff p [],
  bytes_eq_iff p (codes "."),
  bytes_eq_iff p (codes ".."),
  IsPlain-all ps h.1,
)

-- A name that `resolve` takes: no NUL, plain components only, and no reserved text.
pub record IsRepoName (name : Bytes) : Type 0 where
  pub no_nul : contains (0 ∷ []) name ≡ false
  pub plain : All IsPlain (split b'/' name)
  pub unreserved : is_reserved name ≡ false

path_join-starts_with :
    (root name : Bytes)
    → All IsPlain (split b'/' name)
    → path_starts_with (path_join root name) root ≡ true
unfolding path_starts_with
path_join-starts_with root name h =
    rw (components-path_join root name h)
      (is_prefix-append (components root) (map normal (split b'/' name)))

IsPlain-split_nil : (name : Bytes) → All IsPlain (split b'/' name) → name ≢ []
unfolding split
IsPlain-split_nil [] h = absurd (h.0.0 refl)
IsPlain-split_nil (c ∷ s) h = ground arith

IsPlain-ne-nil : (name : Bytes) → All IsPlain (split b'/' name) → bytes_eq name [] ≡ false
IsPlain-ne-nil name h = ground (arith, bytes_eq_iff name [], IsPlain-split_nil name h)

module _ (name base root : Bytes) where
  abbrev target : RepoRef
  target = record {
    name = name;
    upstream_url = trim_end_matches b'/' base ++ (b'/' ∷ name);
    cache_dir = path_join root name;
  }

  pub resolve_accepts : IsRepoName name → resolve name base root ≡ ok target
  unfolding resolve
  resolve_accepts h = ground (
    arith,
    h.no_nul,
    h.unreserved,
    IsPlain-ne-nil name h.plain,
    IsPlain-relative name h.plain,
    IsPlain-all (split b'/' name) h.plain,
    path_join-starts_with root name h.plain,
  )

  pub resolve-eq-ok : (r : RepoRef) → resolve name base root ≡ ok r → IsRepoName name × (r ≡ target)
  unfolding resolve
  resolve-eq-ok r e = (
    record {
      no_nul = ground arith;
      plain = all-IsPlain (split b'/' name) (ground arith);
      unreserved = ground arith;
    },
    ground arith,
  )

-- An accepted name is cached strictly inside the cache root: the components of its directory are
-- the root's, and then one plain component, never `.` or `..`, for each piece of the name.
pub resolve_contained :
    (name base root : Bytes) (r : RepoRef)
    → resolve name base root ≡ ok r
    → (components r.cache_dir ≡ components root ++ map normal (split b'/' name))
      × All IsPlain (split b'/' name)
      × (split b'/' name ≢ [])
resolve_contained name base root r e =
    let (h, same) = resolve-eq-ok name base root r e in
    (
      ap (λ (t : RepoRef). components t.cache_dir) same ∙ components-path_join root name h.plain,
      h.plain,
      split-ne-nil b'/' name,
    )

-- `resolve` accepts exactly the names without NUL, without empty, `.` and `..` components and
-- without a reserved text, whatever the base and the root.
pub resolve_iff :
    (name base root : Bytes) → IsRepoName name ↔ ((r : RepoRef) × (resolve name base root ≡ ok r))
resolve_iff name base root = (
  λ h. (target name base root, resolve_accepts name base root h),
  λ h. (resolve-eq-ok name base root h.0 h.1).0,
)

-- The last check of `resolve` is a second line of defence: it never fires.
pub resolve_never_escapes :
    (name base root : Bytes) → resolve name base root ≢ err (escapes_root name)
unfolding resolve
resolve_never_escapes name base root e =
    ground (arith, path_join-starts_with root name, all-IsPlain (split b'/' name))

-- Different names are never cached in the same directory, however the paths are spelled.
pub resolve_injective :
    (a b base root : Bytes) (x y : RepoRef)
    → resolve a base root ≡ ok x
    → resolve b base root ≡ ok y
    → components x.cache_dir ≡ components y.cache_dir
    → a ≡ b
resolve_injective a b base root x y ha hb e = split_injective b'/' a b (
    map-normal-injective _ _ (
      append_left_cancel (components root) _ _ (
        sym (resolve_contained a base root x ha).0 ∙ (e ∙ (resolve_contained b base root y hb).0))))
