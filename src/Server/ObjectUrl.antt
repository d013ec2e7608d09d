-- ===== src/Server/ObjectUrl.antt =====
-- The URL that src/lfs.rs writes into a batch document is one that src/server.rs takes apart again.
use git_cache_proxy.Base.{
  ℕ, ◌<◌, Bytes, codes, [], ◌∷◌, ◌++◌, true, false, ◌&&◌, some, length, ◌≡◌, ◌≢◌, refl, ap, ◌∙◌,
  arith, find, starts_with, trim_start_matches, take-append, drop-append, split, split_no_sep,
  NoByte, starts_with-append, length-append, ◌≤◌, bytes_eq_iff, to_decimal, parse_u64,
  parse_u64-to_decimal, to_decimal-digits_only, u64_mod, all, leb, append_assoc,
}
use git_cache_proxy.Repo.{lfs_marker, lfs_object_from_path, split_object, valid_lfs_oid}
use git_cache_proxy.Lfs.Batch.{object_path, object_url}
use git_cache_proxy.Server.Query.{size_from_query, find_prefixed}

-- What comes behind a text that is long enough does not matter to its prefixes.
starts_with-append_long :
    (p s t : Bytes) → length p ≤ length s → starts_with p (s ++ t) ≡ starts_with p s
starts_with-append_long [] s t h = refl
starts_with-append_long (c ∷ p) [] t h = absurd (omega (arith, h))
starts_with-append_long (c ∷ p) (d ∷ s) t h =
    ground (arith, starts_with-append_long p s t (omega (arith, h)))

-- If a text stands in `s ++ p` only at its end, it is found there, whatever follows.
find-append_first :
    (p s t : Bytes) → find p (s ++ p) ≡ some (length s) → find p (s ++ (p ++ t)) ≡ some (length s)
unfolding find
find-append_first [] [] [] h = refl
find-append_first [] [] (x ∷ t) h = refl
find-append_first (c ∷ p) [] t h = ground (arith, starts_with-append (c ∷ p) t)
find-append_first p (x ∷ s) t h =
    let same : starts_with p ((x ∷ (s ++ p)) ++ t) ≡ starts_with p (x ∷ (s ++ p)) =
      starts_with-append_long p (x ∷ (s ++ p)) t (omega (arith, length-append s p)) in
    ground (arith, h, same, append_assoc s p t, find-append_first p s t)

no_digit_sep : (s : Bytes) → all (λ c. leb b'0' c && leb c b'9') s ≡ true → NoByte b'&' s
no_digit_sep [] h = tt
no_digit_sep (c ∷ s) h = (ground (arith, h), no_digit_sep s (ground (arith, h)))

one_piece :
    (n : ℕ) → split b'&' (codes "size=" ++ to_decimal n) ≡ (codes "size=" ++ to_decimal n) ∷ []
one_piece n = split_no_sep b'&' (codes "size=" ++ to_decimal n) (
  omega arith,
  (
    omega arith,
    (
      omega arith,
      (omega arith, (omega arith, no_digit_sep (to_decimal n) (to_decimal-digits_only n))),
    ),
  ),
)

first_piece :
    (n : ℕ)
    → find_prefixed (codes "size=") ((codes "size=" ++ to_decimal n) ∷ []) ≡ some (to_decimal n)
unfolding find_prefixed
first_piece n = refl

size_read :
    (q : Bytes) (v : Bytes)
    → find_prefixed (codes "size=") (split b'&' q) ≡ some v
    → size_from_query q ≡ parse_u64 v
unfolding size_from_query
size_read q v e = rw (size_from_query, e) refl

-- The size that the URL carries is read back.
size_roundtrip : (n : ℕ) → n < u64_mod → size_from_query (codes "size=" ++ to_decimal n) ≡ some n
size_roundtrip n h =
    size_read (codes "size=" ++ to_decimal n) (to_decimal n)
      (ap (find_prefixed (codes "size=")) (one_piece n) ∙ first_piece n)
    ∙ parse_u64-to_decimal n h

split-object :
    (repo oid : Bytes)
    → repo ≢ []
    → valid_lfs_oid oid ≡ true
    → split_object (repo ++ (lfs_marker ++ oid)) (length repo) ≡ some (repo, oid)
unfolding split_object
split-object repo oid n h =
    rw
      (
        take-append repo (lfs_marker ++ oid) (length repo) refl,
        drop-append repo (lfs_marker ++ oid) (length repo) refl,
      )
      (ground (arith, h, n, bytes_eq_iff repo []))

trim-plain :
    (s t : Bytes)
    → s ≢ []
    → starts_with (b'/' ∷ []) s ≡ false
    → trim_start_matches b'/' (s ++ t) ≡ s ++ t
unfolding trim_start_matches
trim-plain [] t n h = absurd (n refl)
trim-plain (c ∷ s) t n h = ground (arith, h)

found_at :
    (path : Bytes) (idx : ℕ)
    → find lfs_marker (trim_start_matches b'/' path) ≡ some idx
    → lfs_object_from_path path ≡ split_object (trim_start_matches b'/' path) idx
unfolding lfs_object_from_path
found_at path idx f = rw (lfs_object_from_path, f) refl

slash_trimmed :
    (repo oid : Bytes)
    → trim_start_matches b'/' (object_path repo oid)
      ≡ trim_start_matches b'/' (repo ++ (lfs_marker ++ oid))
unfolding trim_start_matches object_path
slash_trimmed repo oid = refl

-- A URL that the proxy puts into a batch document, for a repository whose name is not empty and begins
-- with no `/`, where `/info/lfs/objects/` behind the name is the first one in the two together, for a
-- valid oid and a size of 64 bits: it is the base, a path and a
-- query, where the path leads back to that repository and that oid, and the query to that size.
pub object_url_roundtrip :
    (base repo oid : Bytes) (size : ℕ)
    → repo ≢ []
    → starts_with (b'/' ∷ []) repo ≡ false
    → find lfs_marker (repo ++ lfs_marker) ≡ some (length repo)
    → valid_lfs_oid oid ≡ true
    → size < u64_mod
    → (object_url base repo oid size
        ≡ base ++ (object_path repo oid ++ (b'?' ∷ (codes "size=" ++ to_decimal size))))
      × (lfs_object_from_path (object_path repo oid) ≡ some (repo, oid))
      × (size_from_query (codes "size=" ++ to_decimal size) ≡ some size)
unfolding object_url
object_url_roundtrip base repo oid size n plain first well small =
    let trimmed = slash_trimmed repo oid ∙ trim-plain repo (lfs_marker ++ oid) n plain in
    (
      refl,
      found_at (object_path repo oid) (length repo)
            (ap (find lfs_marker) trimmed ∙ find-append_first lfs_marker repo oid first)
          ∙ (ap (λ p. split_object p (length repo)) trimmed ∙ split-object repo oid n well),
      size_roundtrip size small,
    )
