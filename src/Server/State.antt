-- ===== src/Server/State.antt =====
-- The state of src/server.rs, the request as a handler meets it, and its answers.
use git_cache_proxy.Base.{ℕ, Bytes, codes, List, ◌∷◌, ◌++◌, Bool, Option, some}
use git_cache_proxy.Git.Mirrors.{GitCache, Answers, CacheOutcome}
use git_cache_proxy.Json.{Json}
use git_cache_proxy.Lfs.{Lfs, Upstream, Disk}
use git_cache_proxy.Server.Query.{AddressHeaders}

abbrev pub upload_pack_name : Bytes
upload_pack_name = codes "git-upload-pack"

abbrev pub receive_pack_name : Bytes
receive_pack_name = codes "git-receive-pack"

abbrev pub lfs_batch_suffix : Bytes
lfs_batch_suffix = codes "/info/lfs/objects/batch"

pub data Method : Type 0 where
  get post other_method : Method

pub data RequestKind : Type 0 where
  auth_request receive_pack_request info_refs_request upload_pack_request : RequestKind
  lfs_batch_request lfs_object_request : RequestKind

pub data RequestStatus : Type 0 where
  ok_status error_status upstream_error_status rejected_status unauthorized_status : RequestStatus

pub data LfsResult : Type 0 where
  lfs_hit lfs_miss lfs_error : LfsResult

pub data ServeKind : Type 0 where
  serve_info_refs serve_upload_pack : ServeKind

-- The calls of `Metrics`, newest first. The time of a streamed pack is observed when the stream ends,
-- which is after the handler.
pub data Recorded : Type 0 where
  record_request : RequestKind → RequestStatus → Bytes → Recorded
  record_cache_outcome : CacheOutcome → Recorded
  record_lfs : LfsResult → Recorded
  observe_serve : ServeKind → Bytes → Recorded

pub record Request : Type 0 where
  pub method : Method
  pub path : Bytes
  pub query : Bytes
  pub authorization : Option Bytes
  pub content_encoding : Option Bytes
  pub address : AddressHeaders
  -- the body up to `MAX_BODY`, `none` when it is longer or its stream fails
  pub body : Option Bytes

-- `gunzip` gives the bytes that the decoder produces and whether it came to its end without error.
-- `meanwhile` is what other tasks do to the store of objects, `object_file` whether the file of an
-- object can be opened.
pub record Outside : Type 1 where
  pub git : Answers
  pub advertised : Option Bytes
  pub upload_pack_started : Bool
  pub gunzip : Bytes → Bytes × Bool
  pub trim : Bytes → Bytes
  -- `{:?}` of a string
  pub debug : Bytes → Bytes
  pub json : Json
  pub upstream : Upstream
  pub disk : Disk
  pub meanwhile : Lfs → Lfs
  pub object_file : Bool

pub record App : Type 0 where
  pub serve_token : Option Bytes
  pub upstream_base : Bytes
  pub cache_root : Bytes
  pub max_decoded_body : ℕ
  pub cache : GitCache
  pub lfs : Lfs
  pub recorded : List Recorded

-- The status code, and the body where the handler makes it.
abbrev pub Response : Type 0
Response = ℕ × Option Bytes

abbrev pub note : Recorded → App → App
note r st = record st { recorded = r ∷ st.recorded }

abbrev pub respond : ℕ → Bytes → Response
respond status msg = (status, some (msg ++ codes "\n"))

abbrev pub refuse : RequestKind → RequestStatus → ℕ → Bytes → App → Response × App
refuse kind status code msg st =
    (respond code msg, note (record_request kind status (codes "-")) st)
