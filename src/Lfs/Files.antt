-- ===== src/Lfs/Files.antt =====
-- The files of the object store of src/lfs.rs as a map, and where the objects and the downloads lie.
use git_cache_proxy.Base.{
  ℕ, Bytes, codes, bytes_eq, bytes_eq_iff, List, [], ◌∷◌, ◌++◌, true, false, none, some,
  if◌then◌else◌, ◌≡◌, ◌≢◌, refl, sym, ap, ◌∙◌, arith, Bool-cases, inl, inr, starts_with, length,
  take, append_left_cancel, append_cancel, append_assoc, to_decimal, to_decimal-relative,
}
use git_cache_proxy.FilePath.{path_join, need_sep}
use git_cache_proxy.Repo.{
  lfs_objects_dir, lfs_object_key, lfs_object_path, valid_lfs_oid, is_oid_byte,
}
use git_cache_proxy.Lfs.{LfsConfig, incoming_dir, find_file, remove_file, write_file, tmp_path}

pub find-remove_file :
    (p q : Bytes) (l : List (Bytes × Bytes))
    → find_file q (remove_file p l) ≡ (if bytes_eq p q then none else find_file q l)
unfolding find_file remove_file
find-remove_file p q [] = ground arith
find-remove_file p q ((r, c) ∷ l) =
    ground (arith, find-remove_file p q l, bytes_eq_iff r p, bytes_eq_iff r q, bytes_eq_iff p q)

pub find-write_file :
    (p q c : Bytes) (l : List (Bytes × Bytes))
    → find_file q (write_file p c l) ≡ (if bytes_eq p q then some c else find_file q l)
unfolding find_file write_file
find-write_file p q c l = ground (arith, find-remove_file p q l)

-- The root with the separator that a join puts behind it.
pub base_of : Bytes → Bytes
base_of root = if need_sep root then root ++ codes "/" else root

pub join-relative :
    (root q : Bytes) → starts_with (codes "/") q ≡ false → path_join root q ≡ base_of root ++ q
unfolding path_join base_of
join-relative root q h = elim (Bool-cases (need_sep root)) [
  | inl e ↦ rw (h, e) (sym (append_assoc root (codes "/") q))
  | inr e ↦ rw (h, e) refl
]

need_sep-append : (xs : Bytes) (c : ℕ) (ys : Bytes) → need_sep (xs ++ c ∷ ys) ≡ need_sep (c ∷ ys)
unfolding need_sep
need_sep-append [] c ys = refl
need_sep-append (x ∷ []) c ys = refl
need_sep-append (x ∷ y ∷ xs) c ys = need_sep-append (y ∷ xs) c ys

base_of-open : (xs : Bytes) → need_sep xs ≡ true → base_of xs ≡ xs ++ codes "/"
unfolding base_of
base_of-open xs h = rw h refl

object_bytes : (root oid : Bytes) → lfs_object_path root oid ≡ base_of root ++ lfs_object_key oid
unfolding lfs_object_path
object_bytes root oid = join-relative root (lfs_object_key oid) (unfold lfs_object_key in refl)

tmp_bytes :
    (cfg : LfsConfig) (n : ℕ)
    → (t : Bytes) × (tmp_path cfg n
        ≡ base_of cfg.cache_root ++ (lfs_objects_dir ++ (codes "/" ++ (incoming_dir ++ t))))
unfolding tmp_path
tmp_bytes cfg n =
    let t : Bytes = to_decimal cfg.process_id ++ (b'-' ∷ to_decimal n) in
    let root : Bytes = base_of cfg.cache_root in
    let store : Bytes = root ++ lfs_objects_dir in
    let dir : Bytes = (store ++ codes "/") ++ incoming_dir in
    let at_store : path_join cfg.cache_root lfs_objects_dir ≡ store =
      join-relative cfg.cache_root lfs_objects_dir refl in
    let at_dir : path_join store incoming_dir ≡ dir =
      join-relative store incoming_dir refl
      ∙ ap (λ b. b ++ incoming_dir) (base_of-open store (open_store root)) in
    let at_tmp : path_join dir t ≡ (dir ++ codes "/") ++ t =
      join-relative dir t (to_decimal-relative cfg.process_id (b'-' ∷ to_decimal n))
      ∙ ap (λ b. b ++ t) (base_of-open dir (open_dir (store ++ codes "/"))) in
    (
      codes "/" ++ t,
      ap (λ d. path_join (path_join d incoming_dir) t) at_store
          ∙ (ap (λ d. path_join d t) at_dir ∙ (at_tmp ∙ regroup root t)),
    )
  where
    open_store : (xs : Bytes) → need_sep (xs ++ lfs_objects_dir) ≡ true
    open_store xs = need_sep-append xs b'.' (codes "__lfs__") ∙ unfold need_sep in refl

    open_dir : (xs : Bytes) → need_sep (xs ++ incoming_dir) ≡ true
    open_dir xs = need_sep-append xs b'.' (codes "incoming") ∙ unfold need_sep in refl

    regroup :
        (root t : Bytes)
        → ((((root ++ lfs_objects_dir) ++ codes "/") ++ incoming_dir) ++ codes "/") ++ t
          ≡ root ++ (lfs_objects_dir ++ (codes "/" ++ (incoming_dir ++ (codes "/" ++ t))))
    regroup root t = simp append_assoc

shard_first : (oid s t : Bytes) → valid_lfs_oid oid ≡ true → incoming_dir ++ t ≢ take 2 oid ++ s
unfolding valid_lfs_oid is_oid_byte
shard_first [] s t h e = cc
shard_first (c ∷ oid) s t h e = absurd (ground (arith, h, e))

-- No download is written where an object lies.
pub tmp-ne-object :
    (cfg : LfsConfig) (n : ℕ) (oid : Bytes)
    → valid_lfs_oid oid ≡ true
    → tmp_path cfg n ≢ lfs_object_path cfg.cache_root oid
unfolding lfs_object_key
tmp-ne-object cfg n oid h e =
    let (t, at_tmp) = tmp_bytes cfg n in
    shard_first oid (b'/' ∷ oid) t h (
      append_left_cancel (base_of cfg.cache_root ++ (lfs_objects_dir ++ codes "/"))
        (incoming_dir ++ t) (take 2 oid ++ (b'/' ∷ oid))
        (regroup (base_of cfg.cache_root) (incoming_dir ++ t)
          ∙ (sym at_tmp
              ∙ (e
                  ∙ (object_bytes cfg.cache_root oid
                      ∙ sym (regroup (base_of cfg.cache_root) (take 2 oid ++ (b'/' ∷ oid))))))))
  where
    regroup :
        (root t : Bytes)
        → (root ++ (lfs_objects_dir ++ codes "/")) ++ t
          ≡ root ++ (lfs_objects_dir ++ (codes "/" ++ t))
    regroup root t = append_assoc root (lfs_objects_dir ++ codes "/") t

-- Objects that lie at the same path are the same.
pub lfs_object_path-injective :
    (root a b : Bytes)
    → valid_lfs_oid a ≡ true
    → valid_lfs_oid b ≡ true
    → lfs_object_path root a ≡ lfs_object_path root b
    → a ≡ b
unfolding lfs_object_key
lfs_object_path-injective root a b ha hb e =
    (append_cancel (base_of root ++ (lfs_objects_dir ++ (b'/' ∷ (take 2 a ++ codes "/"))))
      (base_of root ++ (lfs_objects_dir ++ (b'/' ∷ (take 2 b ++ codes "/")))) a b
      (whole a ∙ (sym (object_bytes root a) ∙ (e ∙ (object_bytes root b ∙ sym (whole b)))))
      (long a ha ∙ sym (long b hb))).1
  where
    long : (x : Bytes) → valid_lfs_oid x ≡ true → length x ≡ 64
    long x h = unfold valid_lfs_oid in ground (arith, h)

    whole :
        (x : Bytes)
        → (base_of root ++ (lfs_objects_dir ++ (b'/' ∷ (take 2 x ++ codes "/")))) ++ x
          ≡ base_of root ++ lfs_object_key x
    whole x = simp append_assoc
