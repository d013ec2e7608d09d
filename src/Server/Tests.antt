-- ===== src/Server/Tests.antt =====
-- The handlers of src/server.rs at concrete requests.
use git_cache_proxy.Base.{
  inr, ◌≤◌, codes, bytes_eq, contains, ends_with, eq_ignore_ascii_case, [], ◌∷◌, ◌++◌, true, false,
  none, some, ◌≡◌, ◌⊎◌, refl, arith, trim_start_matches, parse_u64, to_decimal, find, split,
}
use git_cache_proxy.Git.MirrorTests.{empty, answers_at, steady}
use git_cache_proxy.Server.{
  auth_request, unauthorized_status, App, Request, Outside, get, handle_git, decode_body,
  within_limit, read_limited, decode_gzip, record_request, receive_pack_request, rejected_status,
}
use git_cache_proxy.Server.Refusals.{Shows, handed, decode_body_bounded, refused_untouched}
use git_cache_proxy.FilePath.{path_join}
use git_cache_proxy.Repo.{lfs_object_from_path, lfs_object_path, valid_lfs_oid}
use git_cache_proxy.Lfs.{sha256_hex, ensure_object, write_file, tmp_path, find_file}
use git_cache_proxy.Lfs.Batch.{object_path, object_url, parse_download_action}
use git_cache_proxy.Lfs.Samples.{
  sample_json, sample_upstream, sample_disk, sample_store, sample_oid, alone, sample_oid_valid,
}
use git_cache_proxy.Server.Query.{AddressHeaders, size_from_query}
use git_cache_proxy.Server.ObjectUrl.{object_url_roundtrip}
use git_cache_proxy.Server.Labels.{names, failures_unnamed}

-- A decoder that gives the body twice.
abbrev outside : Outside
outside = record {
  git = answers_at 5 steady;
  advertised = some (codes "0000");
  upload_pack_started = true;
  gunzip = λ b. (b ++ b, true);
  trim = λ b. b;
  debug = λ b. b;
  json = sample_json;
  upstream = sample_upstream;
  disk = sample_disk;
  meanwhile = alone;
  object_file = true;
}

abbrev app : App
app = record {
  serve_token = some (codes "t");
  upstream_base = codes "https://example.com";
  cache_root = codes "/c";
  max_decoded_body = 4;
  cache = empty;
  lfs = sample_store;
  recorded = [];
}

abbrev nowhere : AddressHeaders
nowhere = record { forwarded_proto = none; forwarded_host = none; host = none }

abbrev push : Request
push = record {
  method = get;
  path = codes "/a/info/refs";
  query = codes "service=git-receive-pack";
  authorization = some (codes "Bearer t");
  content_encoding = none;
  address = nowhere;
  body = none;
}

gzip_decoded :
    decode_body outside.trim outside.gunzip (some (codes "GZip")) (codes "ab") 4
    ≡ some (codes "abab")
unfolding decode_body decode_gzip read_limited within_limit eq_ignore_ascii_case bytes_eq
gzip_decoded = refl

gzip_too_long : decode_body outside.trim outside.gunzip (some (codes "gzip")) (codes "abc") 4 ≡ none
unfolding decode_body decode_gzip read_limited within_limit eq_ignore_ascii_case bytes_eq
gzip_too_long = refl

-- With the largest limit, the limit of the reader wraps to 0, and the body is lost.
gzip_lost :
    decode_body outside.trim outside.gunzip (some (codes "gzip")) (codes "ab") 18446744073709551615
    ≡ some []
unfolding decode_body decode_gzip read_limited within_limit eq_ignore_ascii_case bytes_eq
gzip_lost = refl

decode_body_bounded_example :
    (handed (decode_body outside.trim outside.gunzip (some (codes "GZip")) (codes "ab") 4) ≤ 4)
    × ((decode_gzip outside.gunzip (codes "ab") 4).0 ≤ 5)
decode_body_bounded_example =
    decode_body_bounded outside.trim outside.gunzip (some (codes "GZip")) (codes "ab") 4

refused_untouched_example :
    let r = handle_git outside push app in
    (r.1.cache ≡ empty)
    × (r.1.lfs ≡ sample_store)
    × (((¬ Shows app.serve_token push.authorization)
          × (r.0.0 ≡ 401)
          × (r.1.recorded ≡ record_request auth_request unauthorized_status (codes "-") ∷ []))
        ⊎ (Shows app.serve_token push.authorization
            × (r.0.0 ≡ 403)
            × (r.1.recorded
                ≡ record_request receive_pack_request rejected_status (codes "-") ∷ [])))
refused_untouched_example = refused_untouched outside push app (inr (inr ([], [], refl)))

failures_unnamed_example :
    (names (handle_git outside push app).1.recorded ≡ [])
    ⊎ ((handle_git outside push app).0.0 ≡ 200)
failures_unnamed_example = failures_unnamed outside push app

object_url_roundtrip_example :
    (object_url (codes "http://p") (codes "a/b") sample_oid 40
      ≡ codes "http://p"
        ++ (object_path (codes "a/b") sample_oid ++ (b'?' ∷ (codes "size=" ++ to_decimal 40))))
    × (lfs_object_from_path (object_path (codes "a/b") sample_oid) ≡ some (codes "a/b", sample_oid))
    × (size_from_query (codes "size=" ++ to_decimal 40) ≡ some 40)
unfolding find
object_url_roundtrip_example =
    object_url_roundtrip (codes "http://p") (codes "a/b") sample_oid 40 (λ e. absurd (cc e)) refl
      refl sample_oid_valid (omega arith)

abbrev object_request : Request
object_request = record {
  method = get;
  path = object_path (codes "a") sample_oid;
  query = codes "size=4";
  authorization = some (codes "Bearer t");
  content_encoding = none;
  address = nowhere;
  body = none;
}

found : lfs_object_from_path object_request.path ≡ some (codes "a", sample_oid)
unfolding object_path lfs_object_from_path find trim_start_matches bytes_eq valid_lfs_oid
found = refl

no_refs : ends_with (codes "/info/refs") object_request.path ≡ false
unfolding object_path ends_with bytes_eq
no_refs = refl

fetched : (handle_git outside object_request app).0 ≡ (200, some (codes "data"))
unfolding handle_git bytes_eq ends_with object_path contains lfs_object_from_path find
    trim_start_matches valid_lfs_oid ensure_object find_file size_from_query split parse_u64
    parse_download_action write_file tmp_path path_join to_decimal sha256_hex lfs_object_path
fetched = refl
