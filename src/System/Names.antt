-- ===== src/System/Names.antt =====
-- The keys of the index of src/evict.rs, and the paths where src/git.rs and src/lfs.rs keep what they
-- stand for.
use git_cache_proxy.Base.{
  Bytes, bytes_eq, bytes_eq_iff, bytes_eq_refl, split, List, [], ◌∷◌, true, false, ok, ◌≡◌, refl,
  sym, ap, ◌∙◌, Bool-cases, inl, inr,
}
use git_cache_proxy.FilePath.{path_join, components}
use git_cache_proxy.Lru.{LruCache}
use git_cache_proxy.Repo.{
  RepoRef, resolve, lfs_objects_dir, lfs_object_key, lfs_object_path, valid_lfs_oid,
}
use git_cache_proxy.Repo.Resolve.{IsRepoName, resolve-eq-ok, resolve_accepts, resolve_injective}
use git_cache_proxy.Repo.Objects.{starts-IsReserved, split_key, valid-all}
use git_cache_proxy.Evict.{State, cache_dir}
use git_cache_proxy.Evict.Maintain.{is_lfs_blob}

-- A name with the store as its first piece is reserved.
pub blob-IsReserved : (name : Bytes) → IsRepoName name → is_lfs_blob name ≡ false
unfolding is_lfs_blob
blob-IsReserved name h = go (split b'/' name) refl
  where
    go : (ps : List Bytes) → split b'/' name ≡ ps → is_lfs_blob name ≡ false
    go [] e = rw (is_lfs_blob, e) refl
    go (p ∷ ps) e = elim (Bool-cases (bytes_eq p lfs_objects_dir)) [
      | inl same ↦
          let initial : split b'/' name ≡ lfs_objects_dir ∷ ps =
            e ∙ ap (λ q. q ∷ ps) ((bytes_eq_iff p lfs_objects_dir).0 same) in
          absurd (cc (starts-IsReserved name ps initial, h.unreserved))
      | inr other ↦ rw (is_lfs_blob, e) other
    ]

pub repo_key :
    (name base root : Bytes) (r : RepoRef)
    → resolve name base root ≡ ok r
    → (r.name ≡ name) × (path_join root name ≡ r.cache_dir) × (is_lfs_blob name ≡ false)
repo_key name base root r e =
    let (h, same) = resolve-eq-ok name base root r e in
    (
      ap (λ (t : RepoRef). t.name) same,
      sym (ap (λ (t : RepoRef). t.cache_dir) same),
      blob-IsReserved name h,
    )

pub object_key : (oid : Bytes) → valid_lfs_oid oid ≡ true → is_lfs_blob (lfs_object_key oid) ≡ true
unfolding is_lfs_blob
object_key oid v =
    let s = split_key oid (valid-all oid v) in rw (is_lfs_blob, s) (bytes_eq_refl lfs_objects_dir)

-- Two names that `resolve` takes and that have one path are one name.
pub same_path :
    (a b base root : Bytes)
    → IsRepoName a
    → IsRepoName b
    → path_join root a ≡ path_join root b
    → a ≡ b
same_path a b base root h k e =
    resolve_injective a b base root _ _ (resolve_accepts a base root h)
      (resolve_accepts b base root k) (ap components e)

-- For an index over the cache root: the key of a repository that `resolve` takes is its name, the
-- index looks for it where the mirror lies, and an eviction takes it for a mirror; the key of a valid
-- object leads to the object's file, and an eviction takes it for an object.
pub keys_lead_home :
    (lru : LruCache) (i : State lru) (name base oid : Bytes) (r : RepoRef)
    → resolve name base i.cache_root ≡ ok r
    → valid_lfs_oid oid ≡ true
    → (r.name ≡ name)
      × (cache_dir lru i name ≡ r.cache_dir)
      × (is_lfs_blob name ≡ false)
      × (cache_dir lru i (lfs_object_key oid) ≡ lfs_object_path i.cache_root oid)
      × (is_lfs_blob (lfs_object_key oid) ≡ true)
unfolding cache_dir lfs_object_path
keys_lead_home lru i name base oid r e v =
    let (same, dir, repo_like) = repo_key name base i.cache_root r e in
    (same, dir, repo_like, refl, object_key oid v)
