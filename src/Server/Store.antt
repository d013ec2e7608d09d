-- ===== src/Server/Store.antt =====
-- What the handlers of src/server.rs do to the store of objects of src/lfs.rs.
use git_cache_proxy.Base.{
  Bytes, codes, [], ◌∷◌, Bool, true, false, Result, ok, err, if◌then◌else◌, ◌≡◌, refl, sym, arith,
  subst, Option-cases, inl, inr, not, ends_with, contains, ◌++◌,
}
use git_cache_proxy.Git.Mirrors.{GitCache, CacheOutcome, FreshError, ensure_fresh}
use git_cache_proxy.Json.{Json}
use git_cache_proxy.Repo.{
  RepoRef, ResolveError, lfs_batch_repo, lfs_object_from_path, repo_name_from_path, resolve,
}
use git_cache_proxy.Repo.Endpoints.{lfs_object-eq-some}
use git_cache_proxy.Lfs.{Lfs, LfsError, Upstream, batch}
use git_cache_proxy.Lfs.Integrity.{IsIntact, IsIntact-same}
use git_cache_proxy.Server.Query.{AddressHeaders, advertise_base}
use git_cache_proxy.Server.Objects.{Serves-lfs_object}
use git_cache_proxy.Server.{
  App, Outside, Request, Response, get, post, other_method, respond, check_auth, is_push,
  decode_body, info_refs_after, info_refs_repo, info_refs, upload_pack_after, upload_pack_repo,
  upload_pack, advertise, is_lfs_upload, lfs_batch_after, lfs_batch, post_upload_pack, handle_get,
  handle_post, handle_git, upload_pack_name, note, record_cache_outcome, lfs_batch_suffix,
}

advertise-lfs : (out : Outside) (name : Bytes) (st : App) → (advertise out name st).1.lfs ≡ st.lfs
unfolding advertise
advertise-lfs out name st = ground arith

info_refs_after-lfs :
    (out : Outside) (name : Bytes) (st : App) (r : Result FreshError CacheOutcome × GitCache)
    → (info_refs_after out name st r).1.lfs ≡ st.lfs
unfolding info_refs_after
info_refs_after-lfs out name st (err e, g) = refl
info_refs_after-lfs out name st (ok o, g) =
    advertise-lfs out name (note (record_cache_outcome o) (record st { cache = g }))

info_refs_repo-lfs :
    (out : Outside) (name : Bytes) (st : App) (r : Result ResolveError RepoRef)
    → (info_refs_repo out name st r).1.lfs ≡ st.lfs
unfolding info_refs_repo
info_refs_repo-lfs out name st (err e) = refl
info_refs_repo-lfs out name st (ok repo) =
    info_refs_after-lfs out name st (ensure_fresh repo true [] out.git st.cache)

info_refs-lfs : (out : Outside) (path : Bytes) (st : App) → (info_refs out path st).1.lfs ≡ st.lfs
unfolding info_refs
info_refs-lfs out path st = elim (Option-cases (repo_name_from_path path (codes "/info/refs"))) [
  | inl e ↦ rw (info_refs, e) refl
  | inr (name, e) ↦
      rw (info_refs, e)
        (info_refs_repo-lfs out name st (resolve name st.upstream_base st.cache_root))
]

upload_pack_after-lfs :
    (out : Outside) (name : Bytes) (st : App) (r : Result FreshError CacheOutcome × GitCache)
    → (upload_pack_after out name st r).1.lfs ≡ st.lfs
unfolding upload_pack_after
upload_pack_after-lfs out name st (err e, g) = refl
upload_pack_after-lfs out name st (ok o, g) = ground arith

upload_pack_repo-lfs :
    (out : Outside) (name body : Bytes) (st : App) (r : Result ResolveError RepoRef)
    → (upload_pack_repo out name body st r).1.lfs ≡ st.lfs
unfolding upload_pack_repo
upload_pack_repo-lfs out name body st (err e) = refl
upload_pack_repo-lfs out name body st (ok repo) =
    upload_pack_after-lfs out name st (ensure_fresh repo false body out.git st.cache)

upload_pack-lfs :
    (out : Outside) (path body : Bytes) (st : App) → (upload_pack out path body st).1.lfs ≡ st.lfs
unfolding upload_pack
upload_pack-lfs out path body st =
    elim (Option-cases (repo_name_from_path path (b'/' ∷ upload_pack_name))) [
      | inl e ↦ rw (upload_pack, e) refl
      | inr (name, e) ↦
          rw (upload_pack, e)
            (upload_pack_repo-lfs out name body st (resolve name st.upstream_base st.cache_root))
    ]

post_upload_pack-lfs :
    (out : Outside) (req : Request) (st : App) → (post_upload_pack out req st).1.lfs ≡ st.lfs
unfolding post_upload_pack
post_upload_pack-lfs out req st = elim (Option-cases req.body) [
  | inl e ↦ rw (post_upload_pack, e) refl
  | inr (raw, e) ↦
      elim (Option-cases
        (decode_body out.trim out.gunzip req.content_encoding raw st.max_decoded_body)) [
          | inl f ↦ rw (post_upload_pack, e, f) refl
          | inr (body, f) ↦ rw (post_upload_pack, e, f) (upload_pack-lfs out req.path body st)
        ]
]

-- A batch request changes no file.
batch-files :
    (json : Json) (up : Upstream) (repo body base : Bytes) (s : Lfs)
    → ((batch json up repo body base s).1.files ≡ s.files)
      × ((batch json up repo body base s).1.cfg ≡ s.cfg)
unfolding batch
batch-files json up repo body base s = (ground arith, ground arith)

-- The store is intact after the request, if it was before.
abbrev Keeps : Outside → App → Response × App → Type 0
Keeps out st r = IsIntact out.upstream st.lfs → IsIntact out.upstream r.1.lfs

Keeps-same : (out : Outside) (st : App) (r : Response × App) → r.1.lfs ≡ st.lfs → Keeps out st r
Keeps-same out st r e h = subst (IsIntact out.upstream) (sym e) h

Keeps-if :
    (out : Outside) (st : App) (b : Bool) (r t : Response × App)
    → Keeps out st r
    → Keeps out st t
    → Keeps out st (if b then r else t)
Keeps-if out st true r t f g = f
Keeps-if out st false r t f g = g

lfs_batch_after-lfs :
    (name : Bytes) (st : App) (r : Result LfsError Bytes × Lfs)
    → (lfs_batch_after name st r).1.lfs ≡ r.1
unfolding lfs_batch_after
lfs_batch_after-lfs name st (err e, l) = refl
lfs_batch_after-lfs name st (ok json, l) = refl

lfs_batch-Keeps :
    (out : Outside) (path : Bytes) (headers : AddressHeaders) (body : Bytes) (st : App)
    → Keeps out st (lfs_batch out path headers body st)
unfolding lfs_batch
lfs_batch-Keeps out path headers body st = elim (Option-cases (lfs_batch_repo path)) [
  | inl e ↦ rw (lfs_batch, e) (λ h. h)
  | inr (name, e) ↦
      let base = advertise_base out.trim headers in
      let (files, cfg) = batch-files out.json out.upstream name body base st.lfs in
      let answer = batch out.json out.upstream name body base st.lfs in
      rw (lfs_batch, e)
        (Keeps-if out st (is_lfs_upload out.json body) _ _ (λ h. h)
          (λ h.
            subst (IsIntact out.upstream) (sym (lfs_batch_after-lfs name st answer))
              (IsIntact-same out.upstream st.lfs answer.1 cfg files h)))
]

module _ (out : Outside)
    (keeps : (t : Lfs) → IsIntact out.upstream t → IsIntact out.upstream (out.meanwhile t))
    (same : (t : Lfs) → (out.meanwhile t).cfg ≡ t.cfg) (req : Request) (st : App) where
  handle_get-Keeps : Keeps out st (handle_get out req st)
  unfolding handle_get
  handle_get-Keeps =
      Keeps-if out st (ends_with (codes "/info/refs") req.path) _ _
        (Keeps-if out st (not (contains (codes "service=" ++ upload_pack_name) req.query)) _ _
          (λ h. h) (Keeps-same out st (info_refs out req.path st) (info_refs-lfs out req.path st)))
        (elim (Option-cases (lfs_object_from_path req.path)) [
          | inl e ↦ rw e (λ h. h)
          | inr ((repo, oid), e) ↦
              let (well, rest, found) = lfs_object-eq-some req.path repo oid e in
              rw e (λ h. (Serves-lfs_object out repo oid req.query st keeps same well h).intact)
        ])

  handle_post-Keeps : Keeps out st (handle_post out req st)
  unfolding handle_post
  handle_post-Keeps =
      Keeps-if out st (ends_with (b'/' ∷ upload_pack_name) req.path) _ _
        (Keeps-same out st (post_upload_pack out req st) (post_upload_pack-lfs out req st))
        (Keeps-if out st (ends_with lfs_batch_suffix req.path) _ _
          (elim (Option-cases req.body) [
            | inl e ↦ rw e (λ h. h)
            | inr (body, e) ↦ rw e (lfs_batch-Keeps out req.path req.address body st)
          ])
          (λ h. h))

  -- Every request leaves an intact store intact, whatever the upstream, git and the disk answer, as
  -- long as other tasks keep it intact.
  pub handle_git-IsIntact :
      IsIntact out.upstream st.lfs → IsIntact out.upstream (handle_git out req st).1.lfs
  unfolding handle_git
  handle_git-IsIntact =
      Keeps-if out st (not (check_auth st.serve_token req.authorization)) _ _ (λ h. h)
        (Keeps-if out st (is_push req) _ _ (λ h. h)
          (elim req.method
            as (λ m. Keeps out st (elim m [
              | get ↦ handle_get out req st
              | post ↦ handle_post out req st
              | other_method ↦ (respond 404 (codes "not a git smart-http endpoint"), st)
            ])) [ get ↦ handle_get-Keeps | post ↦ handle_post-Keeps | other_method ↦ λ h. h ]))
