-- ===== src/Server/Body.antt =====
-- Authorization and the decoding of a request body in src/server.rs.
use git_cache_proxy.Base.{
  ℕ, ◌+◌, ◌%◌, u64_mod, Bytes, codes, bytes_eq, [], Bool, true, false, ◌||◌, Option, none, some,
  length, take, ltb, leb, if◌then◌else◌, strip_prefix, eq_ignore_ascii_case,
}

unfoldable pub token_matches : Bytes → Bytes → Bool
token_matches provided expected = bytes_eq provided expected

-- `true` lets the request through.
unfoldable pub check_auth : Option Bytes → Option Bytes → Bool
unfolding token_matches
check_auth none authorization = true
check_auth (some expected) none = false
check_auth (some expected) (some v) = elim (strip_prefix (codes "Bearer ") v) [
  | none ↦ false
  | some t ↦ token_matches t expected
]

unfoldable pub within_limit : Bytes → ℕ → Option Bytes
within_limit body max = if ltb max (length body) then none else some body

-- The bytes that are read into the buffer, and whether there was no error: `take(limit)` stops reading
-- at the limit, before an error that would come later.
unfoldable pub read_limited : ℕ → Bytes × Bool → Bytes × Bool
read_limited limit (out, complete) =
    if leb limit (length out) then (take limit out, true) else (out, complete)

-- The size of the buffer, and what is handed on. The limit is a `u64`.
unfoldable pub decode_gzip : (Bytes → Bytes × Bool) → Bytes → ℕ → ℕ × Option Bytes
unfolding read_limited within_limit
decode_gzip gunzip body max =
    let (out, complete) = read_limited ((max + 1) % u64_mod) (gunzip body) in
    (length out, if complete then within_limit out max else none)

-- `trim` is `str::trim`.
unfoldable pub decode_body :
    (Bytes → Bytes) → (Bytes → Bytes × Bool) → Option Bytes → Bytes → ℕ → Option Bytes
unfolding decode_gzip within_limit
decode_body trim gunzip none body max = within_limit body max
decode_body trim gunzip (some encoding) body max =
    let enc = trim encoding in
    if eq_ignore_ascii_case enc (codes "gzip") || eq_ignore_ascii_case enc (codes "x-gzip")
    then (decode_gzip gunzip body max).1
    else if bytes_eq enc [] || eq_ignore_ascii_case enc (codes "identity")
    then within_limit body max
    else none
