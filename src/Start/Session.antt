-- ===== src/Start/Session.antt =====
-- A run of the process: the start of src/main.rs, and then requests to src/server.rs one after the
-- other.
use git_cache_proxy.Base.{
  ℕ, Bytes, codes, List, Bool, true, false, some, ◌≡◌, sym, ap, ◌∙◌, ends_with,
}
use git_cache_proxy.Repo.{lfs_object_from_path, lfs_object_path, valid_lfs_oid}
use git_cache_proxy.Lfs.{Lfs, Upstream, hex, sha256_hex, find_file}
use git_cache_proxy.Lfs.Integrity.{IsIntact}
use git_cache_proxy.Server.{App, Outside, Request, get, handle_git}
use git_cache_proxy.Server.Objects.{object_response_intact}
use git_cache_proxy.Server.Store.{handle_git-IsIntact}
use git_cache_proxy.Start.{Config, start, store_started}

-- What holds of the outside at each request: the digest is the same, and other tasks keep the store
-- intact and the configuration.
pub record Sound (up : Upstream) (out : Outside) : Type 0 where
  pub digest : out.upstream.sha256 ≡ up.sha256
  pub keeps : (t : Lfs) → IsIntact out.upstream t → IsIntact out.upstream (out.meanwhile t)
  pub same : (t : Lfs) → (out.meanwhile t).cfg ≡ t.cfg

-- The states that requests lead to.
pub data Session (up : Upstream) : App → App → Type 1 where
  begin : {st : App} → Session up st st
  answered :
      {st t : App}
      → Session up st t
      → (out : Outside) (req : Request) → Sound up out
      → Session up st (handle_git out req t).1

IsIntact-digest :
    (up other : Upstream) (s : Lfs) → other.sha256 ≡ up.sha256 → IsIntact up s → IsIntact other s
unfolding sha256_hex
IsIntact-digest up other s e h oid content v f =
    ap (λ (d : Bytes → Bytes). hex (d content)) e ∙ h oid content v f

-- In a session that begins with an intact store, it is intact after every request.
pub Session-IsIntact :
    (up : Upstream) (st t : App) → Session up st t → IsIntact up st.lfs → IsIntact up t.lfs
Session-IsIntact up st t begin h = h
Session-IsIntact up st _ (answered {t = t} before out req sound) h =
    let k = Session-IsIntact up st t before h in
    IsIntact-digest out.upstream up (handle_git out req t).1.lfs (sym sound.digest) (
      handle_git-IsIntact out sound.keeps sound.same req t
        (IsIntact-digest up out.upstream t.lfs sound.digest k))

-- A process that starts on a disk where every object's file has the content that its name says, and has
-- answered any requests in between: when a GET of an object's path is answered with a content, the
-- hash of that content is the oid of the path, as long as other tasks keep the store intact.
pub object_content_intact :
    (up : Upstream) (trim : Bytes → Bytes) (process_id : ℕ) (removed : Bool) (cfg : Config)
    (files : List (Bytes × Bytes)) (mirrors : List Bytes) (t : App) (out : Outside) (req : Request)
    (repo oid c : Bytes)
    → ((o content : Bytes)
        → valid_lfs_oid o ≡ true
        → find_file (lfs_object_path cfg.cache_root o) files ≡ some content
        → sha256_hex up content ≡ o)
    → Session up (start trim process_id removed cfg files mirrors) t
    → Sound up out
    → req.method ≡ get
    → ends_with (codes "/info/refs") req.path ≡ false
    → lfs_object_from_path req.path ≡ some (repo, oid)
    → (handle_git out req t).0 ≡ (200, some c)
    → sha256_hex up c ≡ oid
unfolding sha256_hex
object_content_intact up trim process_id removed cfg files mirrors t out req repo oid c intact
      session sound m other at e =
    let st = start trim process_id removed cfg files mirrors in
    let h =
      Session-IsIntact up st t session
        (store_started up trim process_id removed cfg files mirrors intact) in
    ap (λ (d : Bytes → Bytes). hex (d c)) (sym sound.digest)
    ∙ object_response_intact out req t repo oid c sound.keeps sound.same
        (IsIntact-digest up out.upstream t.lfs sound.digest h) m other at e
