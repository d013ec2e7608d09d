-- ===== src/Server/Labels.antt =====
-- The names under which the handlers of src/server.rs record a request: a client that asks for
-- repositories that are not served makes no series of the metrics.
use git_cache_proxy.Base.{
  ℕ, Bytes, codes, bytes_eq, bytes_eq_refl, List, [], ◌∷◌, Bool, true, false, Option, none, some,
  Result, ok, err, if◌then◌else◌, ◌≡◌, ◌⊎◌, refl, arith, Option-cases, inl, inr, Option-cases,
}
use git_cache_proxy.Repo.{RepoRef, ResolveError, repo_name_from_path, resolve}
use git_cache_proxy.Git.Mirrors.{GitCache, CacheOutcome, FreshError, ensure_fresh}
use git_cache_proxy.Repo.{lfs_batch_repo, lfs_object_from_path}
use git_cache_proxy.Lfs.{Lfs, LfsError, Outcome, batch, ensure_object}
use git_cache_proxy.Server.Query.{AddressHeaders, advertise_base, size_from_query}
use git_cache_proxy.Server.{
  App, Request, Response, Outside, Recorded, RequestKind, RequestStatus, record_request,
  record_cache_outcome, record_lfs, observe_serve, error_status, upload_pack_name,
  info_refs_request, upload_pack_request, note, refuse, respond, decode_body, advertise,
  info_refs_after, info_refs_repo, info_refs, upload_pack_after, upload_pack_repo, upload_pack,
  is_lfs_upload, lfs_batch_after, lfs_batch, lfs_outcome, lfs_file_response, lfs_object_served,
  lfs_object_after, lfs_object, lfs_batch_request, rejected_status, handle_get, post_upload_pack,
  handle_post, handle_git,
}

-- The names other than `-` under which requests were recorded or timed.
abbrev pub names : List Recorded → List Bytes
names [] = []
names (record_request k s n ∷ l) =
    let rest = names l in if bytes_eq n (codes "-") then rest else n ∷ rest
names (record_cache_outcome o ∷ l) = names l
names (record_lfs r ∷ l) = names l
names (observe_serve k n ∷ l) =
    let rest = names l in if bytes_eq n (codes "-") then rest else n ∷ rest

-- The request was served, or it is recorded under no new name.
abbrev Unnamed : App → Response × App → Type 0
Unnamed st r = (names r.1.recorded ≡ names st.recorded) ⊎ (r.0.0 ≡ 200)

Unnamed-if :
    (st : App) (b : Bool) (r t : Response × App)
    → Unnamed st r
    → Unnamed st t
    → Unnamed st (if b then r else t)
Unnamed-if st true r t h k = h
Unnamed-if st false r t h k = k

names-refuse :
    (k : RequestKind) (s : RequestStatus) (code : ℕ) (msg : Bytes) (st : App)
    → names (refuse k s code msg st).1.recorded ≡ names st.recorded
names-refuse k s code msg st = rw (bytes_eq_refl (codes "-")) refl

advertise-Unnamed : (out : Outside) (name : Bytes) (st : App) → Unnamed st (advertise out name st)
unfolding advertise
advertise-Unnamed out name st = ground (arith, bytes_eq_refl (codes "-"))

info_refs_after-Unnamed :
    (out : Outside) (name : Bytes) (st : App) (r : Result FreshError CacheOutcome × GitCache)
    → Unnamed st (info_refs_after out name st r)
unfolding info_refs_after
info_refs_after-Unnamed out name st (err e, g) = ground (arith, bytes_eq_refl (codes "-"))
info_refs_after-Unnamed out name st (ok o, g) =
    advertise-Unnamed out name (note (record_cache_outcome o) (record st { cache = g }))

info_refs_repo-Unnamed :
    (out : Outside) (name : Bytes) (st : App) (r : Result ResolveError RepoRef)
    → Unnamed st (info_refs_repo out name st r)
unfolding info_refs_repo
info_refs_repo-Unnamed out name st (err e) = ground (arith, bytes_eq_refl (codes "-"))
info_refs_repo-Unnamed out name st (ok repo) =
    info_refs_after-Unnamed out name st (ensure_fresh repo true [] out.git st.cache)

info_refs-Unnamed : (out : Outside) (path : Bytes) (st : App) → Unnamed st (info_refs out path st)
unfolding info_refs
info_refs-Unnamed out path st =
    elim (repo_name_from_path path (codes "/info/refs"))
      as (λ o. Unnamed st (elim o [
        | none ↦ refuse info_refs_request error_status 404 (codes "bad path") st
        | some name ↦ info_refs_repo out name st (resolve name st.upstream_base st.cache_root)
      ])) [
        | none ↦ inl (names-refuse info_refs_request error_status 404 (codes "bad path") st)
        | some name ↦
            info_refs_repo-Unnamed out name st (resolve name st.upstream_base st.cache_root)
      ]

upload_pack_after-Unnamed :
    (out : Outside) (name : Bytes) (st : App) (r : Result FreshError CacheOutcome × GitCache)
    → Unnamed st (upload_pack_after out name st r)
unfolding upload_pack_after
upload_pack_after-Unnamed out name st (err e, g) = ground (arith, bytes_eq_refl (codes "-"))
upload_pack_after-Unnamed out name st (ok o, g) = ground (arith, bytes_eq_refl (codes "-"))

upload_pack_repo-Unnamed :
    (out : Outside) (name body : Bytes) (st : App) (r : Result ResolveError RepoRef)
    → Unnamed st (upload_pack_repo out name body st r)
unfolding upload_pack_repo
upload_pack_repo-Unnamed out name body st (err e) = ground (arith, bytes_eq_refl (codes "-"))
upload_pack_repo-Unnamed out name body st (ok repo) =
    upload_pack_after-Unnamed out name st (ensure_fresh repo false body out.git st.cache)

upload_pack-Unnamed :
    (out : Outside) (path body : Bytes) (st : App) → Unnamed st (upload_pack out path body st)
unfolding upload_pack
upload_pack-Unnamed out path body st =
    elim (repo_name_from_path path (b'/' ∷ upload_pack_name))
      as (λ o. Unnamed st (elim o [
        | none ↦ refuse upload_pack_request error_status 404 (codes "bad path") st
        | some name ↦
            upload_pack_repo out name body st (resolve name st.upstream_base st.cache_root)
      ])) [
        | none ↦ inl (names-refuse upload_pack_request error_status 404 (codes "bad path") st)
        | some name ↦
            upload_pack_repo-Unnamed out name body st (resolve name st.upstream_base st.cache_root)
      ]

lfs_batch_after-Unnamed :
    (name : Bytes) (st : App) (r : Result LfsError Bytes × Lfs)
    → Unnamed st (lfs_batch_after name st r)
unfolding lfs_batch_after
lfs_batch_after-Unnamed name st (err e, l) = ground (arith, bytes_eq_refl (codes "-"))
lfs_batch_after-Unnamed name st (ok json, l) = inr refl

lfs_batch-Unnamed :
    (out : Outside) (path : Bytes) (headers : AddressHeaders) (body : Bytes) (st : App)
    → Unnamed st (lfs_batch out path headers body st)
unfolding lfs_batch
lfs_batch-Unnamed out path headers body st = elim (Option-cases (lfs_batch_repo path)) [
  | inl e ↦
      rw (lfs_batch, e)
        (inl (names-refuse lfs_batch_request error_status 404 (codes "bad lfs batch path") st))
  | inr (name, e) ↦
      rw (lfs_batch, e)
        (Unnamed-if st (is_lfs_upload out.json body) _ _
          (inl (
            names-refuse lfs_batch_request rejected_status 403
              (codes "read-only proxy: lfs upload is not allowed") st))
          (lfs_batch_after-Unnamed name st
            (batch out.json out.upstream name body (advertise_base out.trim headers) st.lfs)))
]

lfs_object_served-Unnamed : (st : App) (o : Option Bytes) → Unnamed st (lfs_object_served st o)
unfolding lfs_object_served
lfs_object_served-Unnamed st none = ground (arith, bytes_eq_refl (codes "-"))
lfs_object_served-Unnamed st (some c) = inr refl

lfs_object_after-Unnamed :
    (out : Outside) (st : App) (r : Result LfsError (Bytes × Outcome) × Lfs)
    → Unnamed st (lfs_object_after out st r)
unfolding lfs_object_after
lfs_object_after-Unnamed out st (err e, l) = ground (arith, bytes_eq_refl (codes "-"))
lfs_object_after-Unnamed out st (ok (path, outcome), l) =
    lfs_object_served-Unnamed (note (record_lfs (lfs_outcome outcome)) (record st { lfs = l }))
      (lfs_file_response out path l)

lfs_object-Unnamed :
    (out : Outside) (repo oid query : Bytes) (st : App)
    → Unnamed st (lfs_object out repo oid query st)
unfolding lfs_object
lfs_object-Unnamed out repo oid query st = lfs_object_after-Unnamed out st (
    ensure_object out.json out.upstream out.disk out.meanwhile repo oid (size_from_query query)
      st.lfs)

found-Unnamed :
    (out : Outside) (query : Bytes) (o : Option (Bytes × Bytes)) (st : App)
    → Unnamed st (elim o [
      | none ↦ (respond 404 (codes "not a git smart-http endpoint"), st)
      | some (repo, oid) ↦ lfs_object out repo oid query st
    ])
found-Unnamed out query none st = inl refl
found-Unnamed out query (some (repo, oid)) st = lfs_object-Unnamed out repo oid query st

handle_get-Unnamed : (out : Outside) (req : Request) (st : App) → Unnamed st (handle_get out req st)
unfolding handle_get
handle_get-Unnamed out req st = ground (
  arith,
  bytes_eq_refl (codes "-"),
  info_refs-Unnamed out req.path st,
  found-Unnamed out req.query (lfs_object_from_path req.path) st,
)

decoded-Unnamed :
    (out : Outside) (path : Bytes) (o : Option Bytes) (st : App)
    → Unnamed st (elim o [
      | none ↦ (respond 400 (codes "failed to decode request body"), st)
      | some body ↦ upload_pack out path body st
    ])
decoded-Unnamed out path none st = inl refl
decoded-Unnamed out path (some body) st = upload_pack-Unnamed out path body st

post_upload_pack-Unnamed :
    (out : Outside) (req : Request) (st : App) → Unnamed st (post_upload_pack out req st)
unfolding post_upload_pack
post_upload_pack-Unnamed out req st = elim (Option-cases req.body) [
  | inl e ↦ rw (post_upload_pack, e) (inl refl)
  | inr (raw, e) ↦
      rw (post_upload_pack, e)
        (decoded-Unnamed out req.path
          (decode_body out.trim out.gunzip req.content_encoding raw st.max_decoded_body) st)
]

batch_body-Unnamed :
    (out : Outside) (path : Bytes) (headers : AddressHeaders) (o : Option Bytes) (st : App)
    → Unnamed st (elim o [
      | none ↦ (respond 400 (codes "failed to read request body"), st)
      | some body ↦ lfs_batch out path headers body st
    ])
batch_body-Unnamed out path headers none st = inl refl
batch_body-Unnamed out path headers (some body) st = lfs_batch-Unnamed out path headers body st

handle_post-Unnamed :
    (out : Outside) (req : Request) (st : App) → Unnamed st (handle_post out req st)
unfolding handle_post
handle_post-Unnamed out req st = ground (
  arith,
  post_upload_pack-Unnamed out req st,
  batch_body-Unnamed out req.path req.address req.body st,
)

-- Whatever the request and whatever the outside answers: the request is served with status 200, or
-- what the handlers themselves record about it (the request, its outcome and the time of its serve)
-- names no repository. The metrics of a pull that the request started are not among that.
pub failures_unnamed :
    (out : Outside) (req : Request) (st : App)
    → (names (handle_git out req st).1.recorded ≡ names st.recorded)
      ⊎ ((handle_git out req st).0.0 ≡ 200)
unfolding handle_git
failures_unnamed out req st = ground (
  arith,
  bytes_eq_refl (codes "-"),
  handle_get-Unnamed out req st,
  handle_post-Unnamed out req st,
)
