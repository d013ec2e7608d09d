-- ===== src/Evict/Scan/Tests.antt =====
-- The scans of src/evict.rs over a small tree.
use git_cache_proxy.Base.{
  codes, Bytes, [], ◌∷◌, true, false, none, some, ◌≡◌, refl, ends_with, bytes_eq, arith, ◌%◌,
  u64_mod, all, not, ◌==◌, NoByte, bytes_eq_iff, join,
}
use git_cache_proxy.Repo.{bad_component}
use git_cache_proxy.Evict.Scan.{
  Listing, regular, folder, no_entries, entry, measure, has_head, skipped, find_mirrors,
  find_lfs_blobs,
}
use git_cache_proxy.Evict.Scan.Totals.{measure_lem}
use git_cache_proxy.Evict.Scan.Mirrors.{IsNamed, IsFileName, mirrors_below, find_mirrors_lem}

-- Every name is UTF-8.
abbrev utf8 : Bytes → Bytes
utf8 b = b

abbrev pack : Listing
pack = entry (codes "a.pack") (regular 7 (some 3)) no_entries

abbrev mirror : Listing
mirror =
    entry (codes "HEAD") (regular 2 (some 5))
      (entry (codes "objects") (folder true pack) no_entries)

abbrev group : Listing
group =
    entry (codes "foo.git") (folder true mirror)
      (entry (codes "foo.git.__incoming__") (folder true mirror) no_entries)

abbrev store : Listing
store =
    entry (codes "ab") (folder true (entry (codes "abcd") (regular 4 none) no_entries)) no_entries

abbrev cache : Listing
cache =
    entry (codes ".__lfs__") (folder true store)
      (entry (codes "team") (folder true group) no_entries)

measure_lem_example : measure (codes "/c/team/foo.git", (true, mirror)) ≡ (9 % u64_mod, 5)
measure_lem_example = measure_lem (codes "/c/team/foo.git") true mirror

object_found :
    find_lfs_blobs utf8 (codes "/c", (true, cache))
    ≡ record { name = codes ".__lfs__/ab/abcd"; size = 4; mtime = 0 } ∷ []
unfolding find_lfs_blobs bytes_eq
object_found = refl

without_sep : (s : Bytes) → all (λ c. not (c == b'/')) s ≡ true → NoByte b'/' s
without_sep [] h = tt
without_sep (c ∷ s) h = (ground (arith, h), without_sep s (ground (arith, h)))

file_name :
    (s : Bytes) → bad_component s ≡ false → all (λ c. not (c == b'/')) s ≡ true → IsFileName s
file_name s plain h = (
  (
    ground (arith, plain, bytes_eq_iff s []),
    ground (arith, plain, bytes_eq_iff s (codes ".")),
    ground (arith, plain, bytes_eq_iff s (codes "..")),
  ),
  without_sep s h,
)

cache-IsNamed : IsNamed utf8 cache
unfolding bytes_eq
cache-IsNamed =
    let mirror_named : IsNamed utf8 mirror =
      (file_name (codes "objects") refl refl, refl, tt, tt) in
    (
      file_name (codes ".__lfs__") refl refl,
      refl,
      (file_name (codes "ab") refl refl, refl, tt, tt),
      (
        file_name (codes "team") refl refl,
        refl,
        (
          file_name (codes "foo.git") refl refl,
          refl,
          mirror_named,
          (file_name (codes "foo.git.__incoming__") refl refl, refl, mirror_named, tt),
        ),
        tt,
      ),
    )

no_head : has_head cache ≡ false
unfolding has_head bytes_eq
no_head = refl

find_mirrors_lem_example : find_mirrors utf8 (codes "/c", (true, cache)) ≡ mirrors_below [] cache
find_mirrors_lem_example = find_mirrors_lem utf8 (codes "/c") cache cache-IsNamed no_head

mirror_found :
    mirrors_below [] cache ≡ record { name = codes "team/foo.git"; size = 9; mtime = 5 } ∷ []
unfolding skipped has_head bytes_eq ends_with join
mirror_found = refl
