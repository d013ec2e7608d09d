-- ===== src/Server/Query.antt =====
-- What src/server.rs reads from a query and from the headers about the address of the proxy.
use git_cache_proxy.Base.{
  ℕ, Bytes, codes, bytes_eq, List, [], ◌∷◌, ◌++◌, Option, none, some, if◌then◌else◌, split,
  strip_prefix, parse_u64,
}

-- `find_map` of the pieces that begin with the prefix.
unfoldable pub find_prefixed : Bytes → List Bytes → Option Bytes
find_prefixed p [] = none
find_prefixed p (kv ∷ l) =
    let rest = find_prefixed p l in elim (strip_prefix p kv) [ none ↦ rest | some v ↦ some v ]

unfoldable pub size_from_query : Bytes → Option ℕ
unfolding find_prefixed
size_from_query query = elim (find_prefixed (codes "size=") (split b'&' query)) [
  | none ↦ none
  | some v ↦ parse_u64 v
]

-- A header that is there may be no text.
pub record AddressHeaders : Type 0 where
  pub forwarded_proto : Option (Option Bytes)
  pub forwarded_host : Option (Option Bytes)
  pub host : Option (Option Bytes)

-- The first piece of a list of values; `trim` is `str::trim`.
unfoldable pub first_value : (Bytes → Bytes) → Option Bytes → Option Bytes
first_value trim none = none
first_value trim (some s) = elim (split b',' s) [ [] ↦ some (trim s) | p ∷ ps ↦ some (trim p) ]

unfoldable pub first_of : (Bytes → Bytes) → Option (Option Bytes) → Option Bytes
unfolding first_value
first_of trim none = none
first_of trim (some v) = first_value trim v

unfoldable pub or_else : Option (Option Bytes) → Option (Option Bytes) → Option (Option Bytes)
or_else none o = o
or_else (some v) o = some v

unfoldable pub advertise_base : (Bytes → Bytes) → AddressHeaders → Bytes
unfolding first_of or_else
advertise_base trim h =
    let scheme : Bytes = elim (first_of trim h.forwarded_proto) [
      | none ↦ codes "http"
      | some s ↦ if bytes_eq s [] then codes "http" else s
    ] in
    let host : Bytes = elim (first_of trim (or_else h.forwarded_host h.host)) [
      | none ↦ []
      | some s ↦ s
    ] in
    scheme ++ (codes "://" ++ host)
