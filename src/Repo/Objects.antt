-- ===== src/Repo/Objects.antt =====
-- The store of git-LFS objects and the mirrors do not overlap on disk.
use git_cache_proxy.Base.{
  ℕ, zero, suc, Bytes, contains-append, split, split-append_sep, split_no_sep, split-first, NoByte,
  All, all, take, append_left_cancel, List, [], ◌∷◌, ◌++◌, map, ◌≡◌, ◌≢◌, refl, sym, ap, ◌∙◌, true,
  false, ok, arith, subst, append_assoc,
}
use git_cache_proxy.FilePath.{Component, normal, components}
use git_cache_proxy.FilePath.Join.{IsPlain, components-path_join}
use git_cache_proxy.Repo.{
  RepoRef, lfs_objects_dir, is_oid_byte, valid_lfs_oid, lfs_object_key, lfs_object_path,
  is_reserved, resolve,
}
use git_cache_proxy.Repo.Resolve.{resolve-eq-ok, resolve_contained}

oid-NoByte : (xs : Bytes) → all is_oid_byte xs ≡ true → NoByte b'/' xs
unfolding is_oid_byte
oid-NoByte [] h = tt
oid-NoByte (c ∷ xs) h = (ground arith, oid-NoByte xs (ground arith))

oid-IsPlain : (c : ℕ) (xs : Bytes) → all is_oid_byte (c ∷ xs) ≡ true → IsPlain (c ∷ xs)
unfolding is_oid_byte
oid-IsPlain c xs h = (ground arith, ground arith, ground arith)

take-all : (n : ℕ) (xs : Bytes) → all is_oid_byte xs ≡ true → all is_oid_byte (take n xs) ≡ true
take-all zero xs h = refl
take-all (suc n) [] h = refl
take-all (suc n) (x ∷ xs) h = ground (arith, take-all n xs)

pub split_key :
    (oid : Bytes)
    → all is_oid_byte oid ≡ true
    → split b'/' (lfs_object_key oid) ≡ lfs_objects_dir ∷ take 2 oid ∷ oid ∷ []
unfolding lfs_object_key
split_key oid h = rw (
  split-append_sep b'/' lfs_objects_dir (take 2 oid ++ (b'/' ∷ oid)),
  split-append_sep b'/' (take 2 oid) oid,
  split_no_sep b'/' oid (oid-NoByte oid h),
  split_no_sep b'/' (take 2 oid) (oid-NoByte (take 2 oid) (take-all 2 oid h)),
  split_no_sep b'/' lfs_objects_dir (omega arith),
)

pub valid-all : (oid : Bytes) → valid_lfs_oid oid ≡ true → all is_oid_byte oid ≡ true
unfolding valid_lfs_oid
valid-all oid h = ground arith

key-IsPlain :
    (oid : Bytes) → valid_lfs_oid oid ≡ true → All IsPlain (lfs_objects_dir ∷ take 2 oid ∷ oid ∷ [])
key-IsPlain [] h = unfold valid_lfs_oid in cc
key-IsPlain (c ∷ []) h = unfold valid_lfs_oid in cc
key-IsPlain (c ∷ d ∷ xs) h = (
  (ground arith, ground arith, ground arith),
  (
    oid-IsPlain c (d ∷ []) (take-all 2 (c ∷ d ∷ xs) (valid-all _ h)),
    (oid-IsPlain c (d ∷ xs) (valid-all _ h), tt),
  ),
)

-- A valid object lies exactly three components below the cache root: the store, the shard of its
-- first two digits, and its oid.
pub components-lfs_object_path :
    (root oid : Bytes)
    → valid_lfs_oid oid ≡ true
    → components (lfs_object_path root oid)
      ≡ components root ++ (normal lfs_objects_dir ∷ normal (take 2 oid) ∷ normal oid ∷ [])
unfolding lfs_object_path
components-lfs_object_path root oid h =
    let e = split_key oid (valid-all oid h) in
    components-path_join root (lfs_object_key oid) (subst (All IsPlain) (sym e) (key-IsPlain oid h))
    ∙ ap (λ ps. components root ++ map normal ps) e

pub starts-IsReserved :
    (name : Bytes) (ps : List Bytes)
    → split b'/' name ≡ lfs_objects_dir ∷ ps
    → is_reserved name ≡ true
starts-IsReserved name ps e =
    let (t, same) = split-first b'/' name lfs_objects_dir ps e in
    ground (arith, same, contains-append [] lfs_objects_dir t)

-- No repository lies on the way to a cached object or below it, and none in it.
pub repo_outside_store :
    (name base root oid : Bytes) (r : RepoRef) (t : List Component)
    → resolve name base root ≡ ok r
    → valid_lfs_oid oid ≡ true
    → (components r.cache_dir ++ t ≢ components (lfs_object_path root oid))
      × (components r.cache_dir ≢ components (lfs_object_path root oid) ++ t)
repo_outside_store name base root oid r t e h = (
  λ same. first_piece (split b'/' name) refl (
      append_left_cancel (components root) _ _ (
        sym (append_assoc (components root) (map normal (split b'/' name)) t)
        ∙ (ap (λ cs. cs ++ t) (sym inside) ∙ (same ∙ object)))),
  λ same. first_piece' (split b'/' name) refl (
      append_left_cancel (components root) _ _
        (sym inside ∙ (same ∙ (ap (λ cs. cs ++ t) object ∙ append_assoc (components root) _ t)))),
)
  where
    inside : components r.cache_dir ≡ components root ++ map normal (split b'/' name)
    inside = (resolve_contained name base root r e).0

    object :
        components (lfs_object_path root oid)
        ≡ components root ++ (normal lfs_objects_dir ∷ normal (take 2 oid) ∷ normal oid ∷ [])
    object = components-lfs_object_path root oid h

    unreserved : is_reserved name ≡ false
    unreserved = (resolve-eq-ok name base root r e).0.unreserved

    clash : (p : Bytes) (ps : List Bytes) → split b'/' name ≡ p ∷ ps → p ≢ lfs_objects_dir
    clash p ps se same = cc (starts-IsReserved name ps (se ∙ ap (λ q. q ∷ ps) same), unreserved)

    first_piece :
        (ps : List Bytes)
        → split b'/' name ≡ ps
        → map normal ps ++ t ≢ normal lfs_objects_dir ∷ normal (take 2 oid) ∷ normal oid ∷ []
    first_piece [] se eq = (resolve_contained name base root r e).2 se
    first_piece (p ∷ ps) se eq = clash p ps se (cc)

    first_piece' :
        (ps : List Bytes)
        → split b'/' name ≡ ps
        → map normal ps ≢ normal lfs_objects_dir ∷ normal (take 2 oid) ∷ normal oid ∷ t
    first_piece' [] se eq = (resolve_contained name base root r e).2 se
    first_piece' (p ∷ ps) se eq = clash p ps se (cc)
