-- ===== src/Server/LfsEndpoints.antt =====
-- The two LFS endpoints of src/server.rs over the store of objects.
use git_cache_proxy.Base.{
  Bytes, codes, bytes_eq, Bool, false, Option, none, some, Result, ok, err, if◌then◌else◌,
}
use git_cache_proxy.Repo.{lfs_batch_repo}
use git_cache_proxy.Json.{Json}
use git_cache_proxy.Lfs.{Lfs, LfsError, Outcome, hit, miss, find_file, batch, ensure_object}
use git_cache_proxy.Lfs.Batch.{str_at}
use git_cache_proxy.Server.Query.{AddressHeaders, advertise_base, size_from_query}
use git_cache_proxy.Server.State.{
  LfsResult, Outside, App, Response, note, refuse, lfs_batch_request, lfs_object_request, ok_status,
  error_status, upstream_error_status, rejected_status, lfs_hit, lfs_miss, lfs_error,
  record_request, record_lfs,
}

unfoldable pub is_lfs_upload : Json → Bytes → Bool
is_lfs_upload json body = elim (json.from_slice body) [
  | none ↦ false
  | some v ↦ elim (str_at json (codes "operation") v) [
    | none ↦ false
    | some op ↦ bytes_eq op (codes "upload")
  ]
]

-- From the answer of `batch` on.
unfoldable pub lfs_batch_after : Bytes → App → Result LfsError Bytes × Lfs → Response × App
lfs_batch_after name st (err e, lfs) =
    refuse lfs_batch_request upstream_error_status 502 (codes "upstream lfs batch failed")
      (record st { lfs = lfs })
lfs_batch_after name st (ok json, lfs) = (
  (200, some json),
  note (record_request lfs_batch_request ok_status name) (record st { lfs = lfs }),
)

unfoldable pub lfs_batch : Outside → Bytes → AddressHeaders → Bytes → App → Response × App
unfolding is_lfs_upload lfs_batch_after
lfs_batch out path headers body st = elim (lfs_batch_repo path) [
  | none ↦ refuse lfs_batch_request error_status 404 (codes "bad lfs batch path") st
  | some name ↦
      if is_lfs_upload out.json body
      then refuse lfs_batch_request rejected_status 403
          (codes "read-only proxy: lfs upload is not allowed") st
      else lfs_batch_after name st
          (batch out.json out.upstream name body (advertise_base out.trim headers) st.lfs)
]

unfoldable pub lfs_outcome : Outcome → LfsResult
lfs_outcome hit = lfs_hit
lfs_outcome miss = lfs_miss

-- `lfs_file_response`: the content of the file, `none` when it cannot be opened.
unfoldable pub lfs_file_response : Outside → Bytes → Lfs → Option Bytes
lfs_file_response out path lfs = if out.object_file then find_file path lfs.files else none

unfoldable pub lfs_object_served : App → Option Bytes → Response × App
lfs_object_served st none =
    refuse lfs_object_request error_status 500 (codes "serve lfs object failed") st
lfs_object_served st (some content) =
    ((200, some content), note (record_request lfs_object_request ok_status (codes "-")) st)

-- From the answer of `ensure_object` on.
unfoldable pub lfs_object_after :
    Outside → App → Result LfsError (Bytes × Outcome) × Lfs → Response × App
unfolding lfs_outcome lfs_file_response lfs_object_served
lfs_object_after out st (err e, lfs) =
    refuse lfs_object_request upstream_error_status 502 (codes "upstream lfs object fetch failed")
      (note (record_lfs lfs_error) (record st { lfs = lfs }))
lfs_object_after out st (ok (path, outcome), lfs) =
    lfs_object_served (note (record_lfs (lfs_outcome outcome)) (record st { lfs = lfs }))
      (lfs_file_response out path lfs)

unfoldable pub lfs_object : Outside → Bytes → Bytes → Bytes → App → Response × App
unfolding lfs_object_after
lfs_object out repo oid query st = lfs_object_after out st (
    ensure_object out.json out.upstream out.disk out.meanwhile repo oid (size_from_query query)
      st.lfs)
