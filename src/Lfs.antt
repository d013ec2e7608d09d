-- ===== src/Lfs.antt =====
-- src/lfs.rs: the store of git-LFS objects. A call is a function of the store; what the upstream, the
-- disk and other tasks do to it is its argument. The download of one object is serialized by its
-- slot, and other tasks act before the slot is held. Events are newest first.
pub mod Batch
mod Outside
pub mod Files
pub mod Integrity
pub mod Fetch
pub mod Served
pub mod Rewrite
pub mod Downloads
pub mod Samples
mod Tests
unfoldable pub use Outside.*
use git_cache_proxy.Base.{
  ℕ, ◌+◌, ◌/◌, ◌%◌, Bytes, codes, bytes_eq, List, [], ◌∷◌, ◌++◌, map, Bool, true, false, not, ◌&&◌,
  Option, none, some, Result, ok, err, if◌then◌else◌, length, is_some, insert, to_decimal, u64_mod,
}
use git_cache_proxy.FilePath.{path_join}
use git_cache_proxy.Json.{Json}
use git_cache_proxy.Repo.{lfs_objects_dir, lfs_object_key, lfs_object_path}
use git_cache_proxy.Git.PktLine.{hex_digit}
use git_cache_proxy.Lfs.Batch.{
  Headers, HeaderText, ActionError, parse_header_line, parse_download_action,
  rewrite_download_hrefs,
}

abbrev pub incoming_dir : Bytes
incoming_dir = codes ".incoming"

pub data Outcome : Type 0 where
  hit miss : Outcome

-- `process_id` is the number of the process.
pub record LfsConfig : Type 0 where
  pub upstream_base : Bytes
  pub cache_root : Bytes
  pub upstream_auth_header : Option Bytes
  pub serve_token : Option Bytes
  pub has_index : Bool
  pub process_id : ℕ

pub data LfsEvent : Type 0 where
  index_touch : Bytes → LfsEvent
  index_record_blob : Bytes → ℕ → LfsEvent
  upstream_post : Bytes → LfsEvent
  upstream_get : Bytes → LfsEvent

-- `files` has the content of each file below the cache root that this module writes.
pub record Lfs : Type 0 where
  pub cfg : LfsConfig
  pub files : List (Bytes × Bytes)
  pub slots : List Bytes
  pub tmp_counter : ℕ
  pub events : List LfsEvent

abbrev pub note : LfsEvent → Lfs → Lfs
note e s = record s { events = e ∷ s.events }

unfoldable pub cached : Bool → Bytes → Lfs → Bool
cached stat path s = if stat then is_some (find_file path s.files) else false

unfoldable pub touch : Bytes → Lfs → Lfs
touch oid s = if s.cfg.has_index then note (index_touch (lfs_object_key oid)) s else s

unfoldable pub slot : Bytes → Lfs → Lfs
slot oid s = record s { slots = insert oid s.slots }

-- The directory of the downloads, and the path of the next one.
unfoldable pub tmp_path : LfsConfig → ℕ → Bytes
tmp_path cfg n =
    path_join (path_join (path_join cfg.cache_root lfs_objects_dir) incoming_dir)
      (to_decimal cfg.process_id ++ (b'-' ∷ to_decimal n))

-- `{b:02x}` of every byte.
unfoldable pub hex : Bytes → Bytes
unfolding hex_digit
hex [] = []
hex (b ∷ bs) = hex_digit (b / 16) ∷ hex_digit (b % 16) ∷ hex bs

unfoldable pub sha256_hex : Upstream → Bytes → Bytes
unfolding hex
sha256_hex up content = hex (up.sha256 content)

unfoldable pub batch_url : Bytes → Bytes → Bytes
batch_url upstream_base repo = upstream_base ++ (b'/' ∷ (repo ++ codes "/info/lfs/objects/batch"))

unfoldable pub credential : Upstream → LfsConfig → Option (Bytes × Bytes)
credential up cfg = elim cfg.upstream_auth_header [
  | none ↦ none
  | some line ↦ parse_header_line up.http up.trim line
]

unfoldable pub post_batch : Upstream → Bytes → Bytes → Lfs → Option Bytes × Lfs
unfolding credential
post_batch up url body s = (up.post url (credential up s.cfg) body, note (upstream_post url) s)

-- The chunks into the file that has `content`: what it has then, and whether all were written.
unfoldable pub write_chunks : Disk → List Bytes → Bytes → Bytes × Bool
write_chunks disk [] content = (content, true)
write_chunks disk (c ∷ cs) content =
    let rest = write_chunks disk cs (content ++ c) in
    elim (disk.write_fails (content ++ c)) [ some torn ↦ (torn, false) | none ↦ rest ]

unfoldable pub download_to_file : Upstream → Disk → Bytes → Headers → Bytes → Lfs → Bool × Lfs
unfolding write_chunks
download_to_file up disk href headers out s =
    let t = up.get href headers in
    let s' = note (upstream_get href) s in
    let (content, written) = write_chunks disk t.chunks [] in
    if not (t.connected && disk.file_created) then (false, s') else (
      written && t.complete && disk.flushed,
      record s' { files = write_file out content s'.files },
    )

abbrev pub drop_tmp : Disk → Bytes → Lfs → Lfs
drop_tmp disk tmp s = if disk.removed then record s { files = remove_file tmp s.files } else s

abbrev pub Stored : Type 0
Stored = Result LfsError (Unit {0}) × Lfs

-- `rename`, and the entry in the index.
unfoldable pub move_into_place : Disk → Bytes → Bytes → Bytes → Bytes → Lfs → Stored
move_into_place disk oid tmp final content s =
    let bytes = if disk.metadata_read then length content else 0 in
    let moved = record s { files = write_file final content (remove_file tmp s.files) } in
    if not disk.shard_created
    then (err shard_failed, s)
    else if not disk.renamed
    then (err rename_failed, s)
    else (
      ok tt,
      if s.cfg.has_index then note (index_record_blob (lfs_object_key oid) bytes) moved else moved,
    )

-- From the downloaded file on: the hash, then its place.
unfoldable pub verify : Upstream → Disk → Bytes → Bytes → Bytes → Lfs → Stored
unfolding move_into_place
verify up disk oid tmp final s = elim (find_file tmp s.files) [
  | none ↦ (err hash_failed, s)
  | some content ↦
      if not disk.hashed
      then (err hash_failed, s)
      else if bytes_eq (sha256_hex up content) oid
      then move_into_place disk oid tmp final content s
      else (err (integrity_failed (sha256_hex up content)), drop_tmp disk tmp s)
]

-- From the download action on.
unfoldable pub fetch_from : Upstream → Disk → Bytes → Headers → Bytes → Bytes → Lfs → Stored
unfolding verify download_to_file
fetch_from up disk href headers oid final s =
    let tmp = tmp_path s.cfg s.tmp_counter in
    let numbered = record s { tmp_counter = (s.tmp_counter + 1) % u64_mod } in
    let (done, s') = download_to_file up disk href headers tmp numbered in
    if not disk.incoming_created
    then (err incoming_failed, s)
    else if done
    then verify up disk oid tmp final s'
    else (err download_failed, drop_tmp disk tmp s')

module _ (json : Json) where
  open json use {Value, from_slice, to_vec, string, number, array, object}

  -- `batch`: the client's request, forwarded, and the answer with its URLs rewritten.
  unfoldable pub batch : Upstream → Bytes → Bytes → Bytes → Lfs → Result LfsError Bytes × Lfs
  unfolding post_batch
  batch up repo body advertise_base s =
      let (answer, s') = post_batch up (batch_url s.cfg.upstream_base repo) body s in
      elim answer [
        | none ↦ (err post_failed, s')
        | some resp ↦ elim (from_slice resp) [
          | none ↦ (err not_json, s')
          | some v ↦
              elim (to_vec (rewrite_download_hrefs json advertise_base repo s.cfg.serve_token v)) [
                | none ↦ (err not_serialized, s')
                | some text ↦ (ok text, s')
              ]
        ]
      ]

  unfoldable pub batch_request : Bytes → ℕ → Value
  batch_request oid size =
      let wanted = object ((codes "oid", string oid) ∷ (codes "size", number size) ∷ []) in
      object (
        (codes "operation", string (codes "download"))
        ∷ (codes "transfers", array (string (codes "basic") ∷ []))
        ∷ (codes "objects", array (wanted ∷ []))
        ∷ [])

  unfoldable pub read_action : Upstream → Option Bytes → Result LfsError (Bytes × Headers)
  read_action up none = err post_failed
  read_action up (some resp) = elim (from_slice resp) [
    | none ↦ err not_json
    | some v ↦ elim (parse_download_action json up.http v) [
      | err e ↦ err (action_failed e)
      | ok action ↦ ok action
    ]
  ]

  unfoldable pub download_action :
      Upstream → Bytes → Bytes → ℕ → Lfs → Result LfsError (Bytes × Headers) × Lfs
  unfolding post_batch read_action
  download_action up repo oid size s = elim (to_vec (batch_request oid size)) [
    | none ↦ (err not_serialized, s)
    | some body ↦
        let (answer, s') = post_batch up (batch_url s.cfg.upstream_base repo) body s in
        (read_action up answer, s')
  ]

  unfoldable pub fetch_object : Upstream → Disk → Bytes → Bytes → ℕ → Bytes → Lfs → Stored
  unfolding download_action fetch_from
  fetch_object up disk repo oid size final s =
      let (action, s') = download_action up repo oid size s in
      elim action [
        | err e ↦ (err e, s')
        | ok (href, headers) ↦ fetch_from up disk href headers oid final s'
      ]

  abbrev pub Answer : Type 0
  Answer = Result LfsError (Bytes × Outcome) × Lfs

  abbrev pub missed : Bytes → Stored → Answer
  missed path (err e, s) = (err e, s)
  missed path (ok _, s) = (ok (path, miss), s)

  -- With the slot of the object held.
  unfoldable pub ensure_locked : Upstream → Disk → Bytes → Bytes → Option ℕ → Bytes → Lfs → Answer
  unfolding cached touch fetch_object
  ensure_locked up disk repo oid size path s =
      if cached disk.second_stat path s then (ok (path, hit), touch oid s) else elim size [
        | none ↦ (err no_size, s)
        | some n ↦ missed path (fetch_object up disk repo oid n path s)
      ]

  -- `meanwhile` is what other tasks do before the slot is held.
  unfoldable pub ensure_object :
      Upstream → Disk → (Lfs → Lfs) → Bytes → Bytes → Option ℕ → Lfs → Answer
  unfolding cached touch slot ensure_locked
  ensure_object up disk meanwhile repo oid size s =
      let path = lfs_object_path s.cfg.cache_root oid in
      if cached disk.first_stat path s
      then (ok (path, hit), touch oid s)
      else ensure_locked up disk repo oid size path (meanwhile (slot oid s))
