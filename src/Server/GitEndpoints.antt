-- ===== src/Server/GitEndpoints.antt =====
-- The two git endpoints of src/server.rs over the cache of mirrors.
use git_cache_proxy.Base.{
  Bytes, codes, [], ◌∷◌, ◌++◌, true, false, none, some, Result, ok, err, if◌then◌else◌,
}
use git_cache_proxy.Repo.{
  RepoRef, ResolveError, invalid_path, invalid_component, reserved_suffix, escapes_root,
  repo_name_from_path, resolve,
}
use git_cache_proxy.Git.Advertise.{advertisement}
use git_cache_proxy.Git.Mirrors.{GitCache, CacheOutcome, FreshError, ensure_fresh}
use git_cache_proxy.Server.State.{
  upload_pack_name, Outside, App, Response, note, refuse, info_refs_request, upload_pack_request,
  ok_status, error_status, upstream_error_status, serve_info_refs, record_request,
  record_cache_outcome, observe_serve,
}

-- From the output of git on.
unfoldable pub advertise : Outside → Bytes → App → Response × App
unfolding advertisement
advertise out name st = elim out.advertised [
  | none ↦ refuse info_refs_request error_status 500 (codes "advertise-refs failed") st
  | some refs ↦ (
    (200, some (advertisement refs)),
    note (record_request info_refs_request ok_status name)
        (note (observe_serve serve_info_refs name) st),
  )
]

-- From the answer of `ensure_fresh` on.
unfoldable pub info_refs_after :
    Outside → Bytes → App → Result FreshError CacheOutcome × GitCache → Response × App
unfolding advertise
info_refs_after out name st (err e, cache) =
    refuse info_refs_request upstream_error_status 502 (codes "upstream fetch failed")
      (record st { cache = cache })
info_refs_after out name st (ok outcome, cache) =
    advertise out name (note (record_cache_outcome outcome) (record st { cache = cache }))

-- The text of a refusal by `resolve`.
unfoldable pub resolve_text : (Bytes → Bytes) → ResolveError → Bytes
resolve_text debug (invalid_path name) = codes "invalid repo path: " ++ debug name
resolve_text debug (invalid_component name) = codes "invalid repo path component in " ++ debug name
resolve_text debug (reserved_suffix name) =
    codes "invalid repo path (reserved suffix) in " ++ debug name
resolve_text debug (escapes_root name) = codes "repo path escapes cache root: " ++ debug name

unfoldable pub info_refs_repo : Outside → Bytes → App → Result ResolveError RepoRef → Response × App
unfolding info_refs_after resolve_text
info_refs_repo out name st (err e) =
    refuse info_refs_request error_status 400 (resolve_text out.debug e) st
info_refs_repo out name st (ok repo) =
    info_refs_after out name st (ensure_fresh repo true [] out.git st.cache)

unfoldable pub info_refs : Outside → Bytes → App → Response × App
unfolding info_refs_repo
info_refs out path st = elim (repo_name_from_path path (codes "/info/refs")) [
  | none ↦ refuse info_refs_request error_status 404 (codes "bad path") st
  | some name ↦ info_refs_repo out name st (resolve name st.upstream_base st.cache_root)
]

unfoldable pub upload_pack_after :
    Outside → Bytes → App → Result FreshError CacheOutcome × GitCache → Response × App
upload_pack_after out name st (err e, cache) =
    refuse upload_pack_request upstream_error_status 502 (codes "upstream unavailable")
      (record st { cache = cache })
upload_pack_after out name st (ok outcome, cache) =
    let st' : App = record st { cache = cache } in
    if out.upload_pack_started
    then ((200, none), note (record_request upload_pack_request ok_status name) st')
    else refuse upload_pack_request error_status 500 (codes "upload-pack failed") st'

unfoldable pub upload_pack_repo :
    Outside → Bytes → Bytes → App → Result ResolveError RepoRef → Response × App
unfolding upload_pack_after resolve_text
upload_pack_repo out name body st (err e) =
    refuse upload_pack_request error_status 400 (resolve_text out.debug e) st
upload_pack_repo out name body st (ok repo) =
    upload_pack_after out name st (ensure_fresh repo false body out.git st.cache)

unfoldable pub upload_pack : Outside → Bytes → Bytes → App → Response × App
unfolding upload_pack_repo
upload_pack out path body st = elim (repo_name_from_path path (b'/' ∷ upload_pack_name)) [
  | none ↦ refuse upload_pack_request error_status 404 (codes "bad path") st
  | some name ↦ upload_pack_repo out name body st (resolve name st.upstream_base st.cache_root)
]
