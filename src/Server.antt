-- ===== src/Server.antt =====
-- src/server.rs: the dispatch of a request, its refusals, and the two git endpoints over the cache of
-- mirrors, and the two LFS endpoints over the store of objects. Header values are texts, `none` when
-- absent or no text. What the gzip decoder, the JSON library, git, the upstream and the disk answer
-- is an argument.
mod State
mod Body
mod GitEndpoints
mod LfsEndpoints
pub mod Refusals
pub mod Labels
pub mod Query
pub mod ObjectUrl
pub mod Objects
pub mod Store
pub mod Series
pub mod Ready
mod Tests
unfoldable pub use State.*
unfoldable pub use Body.*
unfoldable pub use GitEndpoints.*
unfoldable pub use LfsEndpoints.*
use git_cache_proxy.Base.{
  ℕ, zero, suc, ◌+◌, ◌*◌, Bytes, codes, bytes_eq, List, [], ◌∷◌, ◌++◌, Bool, true, false, not, ◌&&◌,
  ◌||◌, Option, none, some, Result, ok, err, length, take, ltb, leb, if◌then◌else◌, starts_with,
  strip_prefix, ends_with, contains, eq_ignore_ascii_case, is_some,
}
use git_cache_proxy.Repo.{
  RepoRef, ResolveError, invalid_path, invalid_component, reserved_suffix, escapes_root,
  repo_name_from_path, lfs_batch_repo, lfs_object_from_path, resolve,
}
use git_cache_proxy.Git.PktLine.{pkt_line}
use git_cache_proxy.Git.Mirrors.{GitCache, Answers, CacheOutcome, FreshError, ensure_fresh}
use git_cache_proxy.Json.{Json}
use git_cache_proxy.Lfs.{
  Lfs, LfsError, Upstream, Disk, Outcome, hit, miss, find_file, batch, ensure_object,
}
use git_cache_proxy.Lfs.Batch.{str_at}
use git_cache_proxy.Server.Query.{AddressHeaders, advertise_base, size_from_query}

unfoldable pub is_push : Request → Bool
is_push req =
    ends_with (b'/' ∷ receive_pack_name) req.path
    || contains (codes "service=" ++ receive_pack_name) req.query

unfoldable pub handle_get : Outside → Request → App → Response × App
unfolding info_refs lfs_object
handle_get out req st =
    if ends_with (codes "/info/refs") req.path
    then if not (contains (codes "service=" ++ upload_pack_name) req.query)
      then refuse info_refs_request error_status 400
          (codes "only smart-http git-upload-pack is supported") st
      else info_refs out req.path st
    else elim (lfs_object_from_path req.path) [
      | none ↦ (respond 404 (codes "not a git smart-http endpoint"), st)
      | some (repo, oid) ↦ lfs_object out repo oid req.query st
    ]

unfoldable pub post_upload_pack : Outside → Request → App → Response × App
unfolding decode_body upload_pack
post_upload_pack out req st = elim req.body [
  | none ↦ (respond 400 (codes "failed to read request body"), st)
  | some raw ↦ elim (decode_body out.trim out.gunzip req.content_encoding raw st.max_decoded_body) [
    | none ↦ (respond 400 (codes "failed to decode request body"), st)
    | some body ↦ upload_pack out req.path body st
  ]
]

unfoldable pub handle_post : Outside → Request → App → Response × App
unfolding post_upload_pack lfs_batch
handle_post out req st =
    if ends_with (b'/' ∷ upload_pack_name) req.path
    then post_upload_pack out req st
    else if ends_with lfs_batch_suffix req.path
    then elim req.body [
      | none ↦ (respond 400 (codes "failed to read request body"), st)
      | some body ↦ lfs_batch out req.path req.address body st
    ]
    else (respond 404 (codes "not a git smart-http endpoint"), st)

unfoldable pub handle_git : Outside → Request → App → Response × App
unfolding check_auth is_push handle_get handle_post
handle_git out req st =
    if not (check_auth st.serve_token req.authorization)
    then refuse auth_request unauthorized_status 401 (codes "missing or invalid bearer token") st
    else if is_push req
    then refuse receive_pack_request rejected_status 403
        (codes "read-only proxy: pushes are not allowed") st
    else elim req.method [
      | get ↦ handle_get out req st
      | post ↦ handle_post out req st
      | other_method ↦ (respond 404 (codes "not a git smart-http endpoint"), st)
    ]
