-- ===== src/Server/Objects.antt =====
-- The answers of src/server.rs to requests for LFS objects, over the store of src/lfs.rs.
use git_cache_proxy.Base.{
  Bytes, true, false, Option, none, some, Result, ok, err, ◌≡◌, refl, sym, ap, ◌∙◌, arith, inl, inr,
  codes, Bool-cases, ends_with,
}
use git_cache_proxy.Repo.{valid_lfs_oid, lfs_object_from_path}
use git_cache_proxy.Repo.Endpoints.{lfs_object-eq-some}
use git_cache_proxy.Lfs.{Lfs, LfsError, Outcome, find_file, sha256_hex, ensure_object}
use git_cache_proxy.Lfs.Integrity.{IsIntact}
use git_cache_proxy.Lfs.Served.{ensure_object-IsIntact, served_intact}
use git_cache_proxy.Server.Query.{size_from_query}
use git_cache_proxy.Server.{
  App, Outside, Request, Response, get, check_auth, is_push, handle_get, handle_git,
  lfs_object_served, lfs_object_after, lfs_object, lfs_file_response,
}

-- A store that is intact afterwards, and where the object's content is sent, its hash is the oid.
pub record Serves (out : Outside) (oid : Bytes) (r : Response × App) : Type 0 where
  pub intact : IsIntact out.upstream r.1.lfs
  pub right : (c : Bytes) → r.0 ≡ (200, some c) → sha256_hex out.upstream c ≡ oid

Serves-served :
    (out : Outside) (oid : Bytes) (st : App) (o : Option Bytes)
    → IsIntact out.upstream st.lfs
    → ((c : Bytes) → o ≡ some c → sha256_hex out.upstream c ≡ oid)
    → Serves out oid (lfs_object_served st o)
unfolding lfs_object_served
Serves-served out oid st none h k = record { intact = h; right = λ c e. absurd (ground (arith, e)) }
Serves-served out oid st (some content) h k = record { intact = h; right = λ c e. k c (cc e) }

sent :
    (out : Outside) (path : Bytes) (lfs : Lfs) (c : Bytes)
    → lfs_file_response out path lfs ≡ some c
    → find_file path lfs.files ≡ some c
unfolding lfs_file_response
sent out path lfs c e = ground (arith, e)

Serves-after :
    (out : Outside) (oid : Bytes) (st : App) (r : Result LfsError (Bytes × Outcome) × Lfs)
    → IsIntact out.upstream r.1
    → ((path : Bytes) (outcome : Outcome)
        → r.0 ≡ ok (path, outcome)
        → (c : Bytes) × (find_file path r.1.files ≡ some c) × (sha256_hex out.upstream c ≡ oid))
    → Serves out oid (lfs_object_after out st r)
unfolding lfs_object_after
Serves-after out oid st (err e, lfs) h k = record {
  intact = h;
  right = λ c e. absurd (ground (arith, e));
}
Serves-after out oid st (ok (path, outcome), lfs) h k =
    Serves-served out oid _ (lfs_file_response out path lfs) h
      (λ c e. let (d, there, hash) = k path outcome refl in cc (hash, there, sent out path lfs c e))

pub Serves-lfs_object :
    (out : Outside) (repo oid query : Bytes) (st : App)
    → ((t : Lfs) → IsIntact out.upstream t → IsIntact out.upstream (out.meanwhile t))
    → ((t : Lfs) → (out.meanwhile t).cfg ≡ t.cfg)
    → valid_lfs_oid oid ≡ true
    → IsIntact out.upstream st.lfs
    → Serves out oid (lfs_object out repo oid query st)
unfolding lfs_object
Serves-lfs_object out repo oid query st keeps same well h =
    let size = size_from_query query in
    Serves-after out oid st
      (ensure_object out.json out.upstream out.disk out.meanwhile repo oid size st.lfs)
      (ensure_object-IsIntact out.json out.upstream out.disk out.meanwhile keeps same repo oid size
        well st.lfs h)
      (λ path outcome e.
        let (at, r) =
          served_intact out.json out.upstream out.disk out.meanwhile keeps same repo oid size well
            st.lfs h path outcome e in
        r)

object_routed :
    (out : Outside) (req : Request) (st : App) (repo oid : Bytes)
    → ends_with (codes "/info/refs") req.path ≡ false
    → lfs_object_from_path req.path ≡ some (repo, oid)
    → handle_get out req st ≡ lfs_object out repo oid req.query st
unfolding handle_get
object_routed out req st repo oid e f = rw (handle_get, e, f) refl

only_authorized :
    (out : Outside) (req : Request) (st : App) (c : Bytes)
    → req.method ≡ get
    → (handle_git out req st).0 ≡ (200, some c)
    → (handle_get out req st).0 ≡ (200, some c)
unfolding handle_git
only_authorized out req st c m e = elim (Bool-cases (check_auth st.serve_token req.authorization)) [
  | inl a ↦ elim (Bool-cases (is_push req)) [
    | inl p ↦ absurd (ground (arith, e, a, p))
    | inr p ↦ ground (arith, e, a, p, m)
  ]
  | inr a ↦ absurd (ground (arith, e, a))
]

-- When a GET of an object's path is answered with a content, the hash of that content is the oid of
-- the path: whatever the upstream and the disk answer, from an intact store, and as long as other
-- tasks keep it intact.
pub object_response_intact :
    (out : Outside) (req : Request) (st : App) (repo oid c : Bytes)
    → ((t : Lfs) → IsIntact out.upstream t → IsIntact out.upstream (out.meanwhile t))
    → ((t : Lfs) → (out.meanwhile t).cfg ≡ t.cfg)
    → IsIntact out.upstream st.lfs
    → req.method ≡ get
    → ends_with (codes "/info/refs") req.path ≡ false
    → lfs_object_from_path req.path ≡ some (repo, oid)
    → (handle_git out req st).0 ≡ (200, some c)
    → sha256_hex out.upstream c ≡ oid
object_response_intact out req st repo oid c keeps same h m other at e =
    let (well, named, rest) = lfs_object-eq-some req.path repo oid at in
    let served = Serves-lfs_object out repo oid req.query st keeps same well h in
    served.right c (
      ap (λ (r : Response × App). r.0) (sym (object_routed out req st repo oid other at))
      ∙ only_authorized out req st c m e)
