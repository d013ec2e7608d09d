-- ===== src/Lfs/Samples.antt =====
-- A concrete upstream, disk and store for the definitions of src/lfs.rs.
use git_cache_proxy.Base.{Bytes, codes, ℕ, suc, zero, [], ◌∷◌, true, none, some, ◌≡◌, refl, arith}
use git_cache_proxy.Json.{Json}
use git_cache_proxy.Json.Tree.{Tree, text, count, items, members, nil, cons, end, member, tree_json}
use git_cache_proxy.Repo.{valid_lfs_oid, is_oid_byte}
use git_cache_proxy.Lfs.{Lfs, Upstream, Disk, find_file}
use git_cache_proxy.Lfs.Integrity.{IsIntact}

abbrev repeat : ℕ → ℕ → Bytes
repeat zero b = []
repeat (suc n) b = b ∷ repeat n b

abbrev pub sample_oid : Bytes
sample_oid = repeat 64 b'a'

abbrev pub sample_download : Tree
sample_download = members (
    member (codes "href") (text (codes "https://u/o")) (
      member (codes "header") (members (member (codes "authorization") (text (codes "secret")) end))
        end))

abbrev pub sample_actions : Tree
sample_actions = members (member (codes "download") sample_download end)

abbrev pub sample_object : Tree
sample_object = members (
    member (codes "oid") (text sample_oid)
      (member (codes "size") (count 4) (member (codes "actions") sample_actions end)))

abbrev pub sample_document : Tree
sample_document = members (member (codes "objects") (items (cons sample_object nil)) end)

-- Every text is this document.
abbrev pub sample_json : Json
sample_json = tree_json (λ s. some sample_document)

-- A digest of 32 equal bytes, whatever the content.
abbrev pub sample_upstream : Upstream
sample_upstream = record {
  http = record { parse_name = λ b. some b; parse_value = λ b. some b };
  trim = λ b. b;
  post = λ url header body. some [];
  get = λ url headers. record {
    connected = true;
    chunks = codes "da" ∷ codes "ta" ∷ [];
    complete = true;
  };
  sha256 = λ content. repeat 32 170;
}

abbrev pub sample_disk : Disk
sample_disk = record {
  first_stat = true;
  second_stat = true;
  incoming_created = true;
  file_created = true;
  write_fails = λ content. none;
  flushed = true;
  removed = true;
  hashed = true;
  shard_created = true;
  metadata_read = true;
  renamed = true;
}

abbrev pub sample_store : Lfs
sample_store = record {
  cfg = record {
    upstream_base = codes "https://u";
    cache_root = codes "/c";
    upstream_auth_header = none;
    serve_token = none;
    has_index = true;
    process_id = 7;
  };
  files = [];
  slots = [];
  tmp_counter = 0;
  events = [];
}

abbrev pub alone : Lfs → Lfs
alone s = s

pub alone-keeps : (t : Lfs) → IsIntact sample_upstream t → IsIntact sample_upstream (alone t)
alone-keeps t h = h

pub alone-same : (t : Lfs) → (alone t).cfg ≡ t.cfg
alone-same t = refl

pub sample_store-IsIntact : IsIntact sample_upstream sample_store
unfolding find_file
sample_store-IsIntact oid content v e = absurd (ground (arith, e))

pub sample_oid_valid : valid_lfs_oid sample_oid ≡ true
unfolding valid_lfs_oid is_oid_byte
sample_oid_valid = refl
