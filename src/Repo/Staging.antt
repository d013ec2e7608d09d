-- ===== src/Repo/Staging.antt =====
-- The directories beside a mirror, its staging directory (`clone_mirror` of src/git.rs) and its
-- eviction trash (`GitCache::evict`), belong to no repository.
use git_cache_proxy.Base.{
  Bytes, codes, contains, contains-append, split, split-append_no_sep, push_back, NoByte,
  split_injective, All, length, length-append, append_cancel, append_left_cancel, List, [], ◌∷◌,
  ◌++◌, map, append_assoc, append-nil, ◌<◌, ◌≡◌, ◌≢◌, ◌⊎◌, refl, sym, ap, ◌∙◌, true, ok, arith, inl,
  inr, subst,
}
use git_cache_proxy.FilePath.{normal, components, path_join}
use git_cache_proxy.FilePath.Join.{
  IsPlain, IsPlain-relative, components-path_join, map-normal-injective,
}
use git_cache_proxy.Repo.{RepoRef, incoming_suffix, evicting_suffix, is_reserved, resolve}
use git_cache_proxy.Repo.Resolve.{resolve-eq-ok, resolve_contained}

-- What makes `.__incoming__` and `.__evicting__` usable behind a plain component.
pub record IsSuffix (suf : Bytes) : Type 0 where
  pub no_sep : NoByte b'/' suf
  pub long : 2 < length suf

incoming-IsSuffix : IsSuffix incoming_suffix
incoming-IsSuffix = record { no_sep = omega arith; long = omega arith }

evicting-IsSuffix : IsSuffix evicting_suffix
evicting-IsSuffix = record { no_sep = omega arith; long = omega arith }

module _ (suf : Bytes) (h : IsSuffix suf) where
  append-IsPlain : (p : Bytes) → IsPlain (p ++ suf)
  append-IsPlain p = (
    too_long [] (omega arith),
    too_long (codes ".") (omega arith),
    too_long (codes "..") (omega arith),
  )
    where
      too_long : (q : Bytes) → length q < 3 → p ++ suf ≢ q
      too_long q short e = omega (arith, ap length e, length-append p suf, h.long)

  push_back-IsPlain : (ps : List Bytes) → All IsPlain ps → All IsPlain (push_back ps suf)
  push_back-IsPlain [] k = tt
  push_back-IsPlain (p ∷ []) k = (append-IsPlain p, tt)
  push_back-IsPlain (p ∷ q ∷ ps) k = (k.0, push_back-IsPlain (q ∷ ps) k.1)

  split-IsPlain :
      (name : Bytes) → All IsPlain (split b'/' name) → All IsPlain (split b'/' (name ++ suf))
  split-IsPlain name k =
      subst (All IsPlain) (sym (split-append_no_sep b'/' name suf h.no_sep))
        (push_back-IsPlain (split b'/' name) k)

  path_join-append :
      (root name : Bytes)
      → All IsPlain (split b'/' name)
      → path_join root name ++ suf ≡ path_join root (name ++ suf)
  unfolding path_join
  path_join-append root name k =
      rw (IsPlain-relative name k, IsPlain-relative (name ++ suf) (split-IsPlain name k))
        (ground (arith, append_assoc root name suf, append_assoc root (b'/' ∷ name) suf))

  -- The components of the directory beside a mirror.
  beside :
      (name base root : Bytes) (r : RepoRef)
      → resolve name base root ≡ ok r
      → components (r.cache_dir ++ suf) ≡ components root ++ map normal (split b'/' (name ++ suf))
  beside name base root r e =
      let (k, same) = resolve-eq-ok name base root r e in
      ap (λ (t : RepoRef). components (t.cache_dir ++ suf)) same
      ∙ (ap components (path_join-append root name k.plain)
          ∙ components-path_join root (name ++ suf) (split-IsPlain name k.plain))

contains_end : (xs p : Bytes) → contains p (xs ++ p) ≡ true
contains_end xs p =
    subst (λ t. contains p (xs ++ t) ≡ true) (append-nil p) (contains-append xs p [])

-- Two directories under one root, from equal components to equal names.
same_components :
    (root a b : Bytes)
    → components root ++ map normal (split b'/' a) ≡ components root ++ map normal (split b'/' b)
    → a ≡ b
same_components root a b e =
    split_injective b'/' a b (map-normal-injective _ _ (append_left_cancel (components root) _ _ e))

module _ (a b base root : Bytes) (x y : RepoRef) (ha : resolve a base root ≡ ok x)
    (hb : resolve b base root ≡ ok y) where
  beside_own :
      (suf : Bytes)
      → IsSuffix suf
      → (is_reserved (a ++ suf) ≡ true)
      → components (x.cache_dir ++ suf) ≢ components y.cache_dir
  beside_own suf h reserved e =
      let (k, _) = resolve-eq-ok b base root y hb in
      cc (
        reserved,
        k.unreserved,
        ap is_reserved (
            same_components root (a ++ suf) b
              (sym (beside suf h a base root x ha) ∙ (e ∙ (resolve_contained b base root y hb).0))),
      )

  beside_other :
      (suf tail : Bytes)
      → IsSuffix suf
      → IsSuffix tail
      → length suf ≡ length tail
      → components (x.cache_dir ++ suf) ≡ components (y.cache_dir ++ tail)
      → (a ≡ b) × (suf ≡ tail)
  beside_other suf tail hs ht same e =
      append_cancel a b suf tail
        (same_components root (a ++ suf) (b ++ tail)
          (sym (beside suf hs a base root x ha) ∙ (e ∙ beside tail ht b base root y hb)))
        same

  -- Neither the staging directory nor the trash of a repository is the directory of a repository,
  -- of the same or of another, and no staging directory is a trash directory.
  pub staging_disjoint :
      (components (x.cache_dir ++ incoming_suffix) ≢ components y.cache_dir)
      × (components (x.cache_dir ++ evicting_suffix) ≢ components y.cache_dir)
      × (components (x.cache_dir ++ incoming_suffix) ≢ components (y.cache_dir ++ evicting_suffix))
  staging_disjoint = (
    beside_own incoming_suffix incoming-IsSuffix (reserved_incoming),
    beside_own evicting_suffix evicting-IsSuffix (reserved_evicting),
    λ e.
        differ
          (beside_other incoming_suffix evicting_suffix incoming-IsSuffix evicting-IsSuffix refl
            e).1,
  )
    where
      reserved_incoming : is_reserved (a ++ incoming_suffix) ≡ true
      reserved_incoming = ground (arith, contains_end a incoming_suffix)

      reserved_evicting : is_reserved (a ++ evicting_suffix) ≡ true
      reserved_evicting = ground (arith, contains_end a evicting_suffix)

      differ : incoming_suffix ≢ evicting_suffix
      differ e = ground arith

  -- Two repositories that share a staging directory, or a trash directory, are the same.
  pub staging_injective :
      (components (x.cache_dir ++ incoming_suffix) ≡ components (y.cache_dir ++ incoming_suffix))
        ⊎ (components (x.cache_dir ++ evicting_suffix)
            ≡ components (y.cache_dir ++ evicting_suffix))
      → a ≡ b
  staging_injective (inl e) =
      (beside_other incoming_suffix incoming_suffix incoming-IsSuffix incoming-IsSuffix refl e).0
  staging_injective (inr e) =
      (beside_other evicting_suffix evicting_suffix evicting-IsSuffix evicting-IsSuffix refl e).0
