-- ===== src/Start/Tests.antt =====
-- The start of src/main.rs with a small configuration.
use git_cache_proxy.Base.{codes, Bytes, [], true, none, some, ◌≡◌, refl, arith, bytes_eq}
use git_cache_proxy.Repo.{lfs_object_path, valid_lfs_oid}
use git_cache_proxy.Lfs.{find_file, sha256_hex}
use git_cache_proxy.Lfs.Samples.{sample_upstream}
use git_cache_proxy.Base.{
  false, contains, ends_with, find, trim_start_matches, split, parse_u64, to_decimal, some,
}
use git_cache_proxy.FilePath.{path_join}
use git_cache_proxy.Git.MirrorTests.{answers_at, steady}
use git_cache_proxy.Lfs.{ensure_object, write_file, tmp_path}
use git_cache_proxy.Lfs.Batch.{object_path, parse_download_action}
use git_cache_proxy.Lfs.Samples.{
  sample_json, sample_disk, sample_oid, alone, alone-keeps, alone-same,
}
use git_cache_proxy.Repo.{lfs_object_from_path}
use git_cache_proxy.Server.{App, Outside, Request, get, handle_git}
use git_cache_proxy.Server.Query.{size_from_query}
use git_cache_proxy.Start.Session.{Session, begin, answered, Sound, object_content_intact}
use git_cache_proxy.Start.{Config, start, lfs_cfg, nonblank_header}

abbrev config : Config
config = record {
  cache_root = codes "/c";
  upstream = codes "https://u/";
  upstream_auth_header = some (codes "Authorization: t");
  serve_token = none;
  fetch_ttl_seconds = 10;
  max_concurrent_upload_packs = 0;
  max_decoded_body_mb = 512;
  cache_max_mb = 1;
  max_wants = 100;
  git_binary = codes "git";
  big_file_threshold = codes "8m";
  pack_threads = none;
  pack_window_memory = none;
}

abbrev trimmed : Bytes → Bytes
trimmed b = b

nothing_stored :
    (oid content : Bytes)
    → valid_lfs_oid oid ≡ true
    → find_file (lfs_object_path (codes "/c") oid) [] ≡ some content
    → sha256_hex sample_upstream content ≡ oid
unfolding find_file
nothing_stored oid content v e = absurd (ground (arith, e))

header_kept :
    (start trimmed 7 true config [] []).lfs.cfg.upstream_auth_header
    ≡ some (codes "Authorization: t")
unfolding start lfs_cfg nonblank_header bytes_eq
header_kept = refl

abbrev outside : Outside
outside = record {
  git = answers_at 5 steady;
  advertised = none;
  upload_pack_started = true;
  gunzip = λ b. (b, true);
  trim = trimmed;
  debug = trimmed;
  json = sample_json;
  upstream = sample_upstream;
  disk = sample_disk;
  meanwhile = alone;
  object_file = true;
}

abbrev wanted : Request
wanted = record {
  method = get;
  path = object_path (codes "a") sample_oid;
  query = codes "size=4";
  authorization = none;
  content_encoding = none;
  address = record { forwarded_proto = none; forwarded_host = none; host = none };
  body = none;
}

sound : Sound sample_upstream outside
sound = record { digest = refl; keeps = alone-keeps; same = alone-same }

abbrev fresh : App
fresh = start trimmed 7 true config [] []

abbrev later_on : App
later_on = (handle_git outside wanted fresh).1

once_asked : Session sample_upstream fresh later_on
once_asked = answered begin outside wanted sound

wanted_path : lfs_object_from_path wanted.path ≡ some (codes "a", sample_oid)
unfolding object_path lfs_object_from_path find trim_start_matches bytes_eq valid_lfs_oid
wanted_path = refl

not_refs : ends_with (codes "/info/refs") wanted.path ≡ false
unfolding object_path ends_with bytes_eq
not_refs = refl

sent_again : (handle_git outside wanted later_on).0 ≡ (200, some (codes "data"))
unfolding handle_git bytes_eq ends_with object_path contains lfs_object_from_path find
    trim_start_matches valid_lfs_oid ensure_object find_file size_from_query split parse_u64
    parse_download_action write_file tmp_path path_join to_decimal sha256_hex lfs_object_path start
    lfs_cfg nonblank_header
sent_again = refl

object_content_intact_example : sha256_hex sample_upstream (codes "data") ≡ sample_oid
object_content_intact_example =
    object_content_intact sample_upstream trimmed 7 true config [] [] later_on outside wanted
      (codes "a") sample_oid (codes "data") nothing_stored once_asked sound refl not_refs
      wanted_path sent_again
