-- ===== src/Lfs/Tests.antt =====
-- The definitions of src/lfs.rs at a concrete upstream, disk and store.
use git_cache_proxy.Base.{
  Bytes, codes, bytes_eq, [], ◌∷◌, map, none, some, ok, ◌≡◌, refl, to_decimal,
}
use git_cache_proxy.FilePath.{path_join}
use git_cache_proxy.Json.Tree.{Tree}
use git_cache_proxy.Repo.{lfs_object_path}
use git_cache_proxy.Lfs.{
  Lfs, find_file, write_file, sha256_hex, touch, ensure_object, tmp_path, hit, miss,
}
use git_cache_proxy.Lfs.Batch.{
  parse_download_action, array_at, action_of, rewrite_download_hrefs, rewrite_object,
}
use git_cache_proxy.Lfs.Served.{served_again}
use git_cache_proxy.Lfs.Rewrite.{rewritten_action, own_header}
use git_cache_proxy.Lfs.Samples.{
  sample_oid, sample_json, sample_upstream, sample_disk, sample_store, alone, alone-keeps,
  alone-same, sample_store-IsIntact, sample_oid_valid, sample_document, sample_object,
  sample_actions, sample_download,
}

abbrev after : Lfs
after =
    (ensure_object sample_json sample_upstream sample_disk alone (codes "a") sample_oid (some 4)
      sample_store).1

abbrev where_stored : Bytes
where_stored = lfs_object_path (codes "/c") sample_oid

stored :
    (ensure_object sample_json sample_upstream sample_disk alone
      (codes "a")
      sample_oid
      (some 4)
      sample_store).0
    ≡ ok (where_stored, miss)
unfolding ensure_object find_file parse_download_action bytes_eq write_file tmp_path path_join
    to_decimal sha256_hex
stored = refl

served_again_example :
    ensure_object sample_json sample_upstream sample_disk alone (codes "a") sample_oid none after
    ≡ (ok (where_stored, hit), touch sample_oid after)
served_again_example =
    served_again sample_json sample_upstream sample_disk sample_disk alone alone (codes "a")
      sample_oid (some 4) none sample_store where_stored miss sample_oid_valid alone-keeps
      alone-same sample_store-IsIntact stored refl

rewritten_action_example :
    (array_at sample_json (codes "objects") (
        rewrite_download_hrefs sample_json
          (codes "http://p")
          (codes "a")
          (some (codes "t"))
          sample_document)
      ≡ some (
          map
            (rewrite_object sample_json (codes "http://p") (codes "a") (some (codes "t")))
            (sample_object ∷ [])))
    × ((e : Tree) × (action_of sample_json (
            rewrite_object sample_json
              (codes "http://p")
              (codes "a")
              (some (codes "t"))
              sample_object)
          ≡ some e)
        × (sample_json.get (codes "header") e ≡ own_header sample_json (some (codes "t"))))
unfolding bytes_eq
rewritten_action_example =
    rewritten_action sample_json (codes "http://p") (codes "a") sample_oid (some (codes "t"))
      sample_document sample_object sample_actions sample_download (sample_object ∷ [])
      (codes "header") refl refl refl refl refl
