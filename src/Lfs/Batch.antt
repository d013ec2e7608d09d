-- ===== src/Lfs/Batch.antt =====
-- The batch documents of src/lfs.rs: rewriting the download URLs for the client, reading the download
-- action of one object, and the credential's header line.
use git_cache_proxy.Base.{
  ℕ, Bytes, codes, bytes_eq, List, [], ◌∷◌, ◌++◌, map, Option, none, some, Result, ok, err,
  if◌then◌else◌, ◌==◌, to_decimal, is_some,
}
use mathlib.Core.Option
use git_cache_proxy.Json.{Json}

abbrev pub Headers : Type 0
Headers = List (Bytes × Bytes)

-- The `http` crate: what it makes of the text of a header name, and of a value.
pub record HeaderText : Type 0 where
  pub parse_name : Bytes → Option Bytes
  pub parse_value : Bytes → Option Bytes

-- `HeaderMap::insert` replaces what is there under the name.
unfoldable pub without_header : Bytes → Headers → Headers
without_header k [] = []
without_header k ((j, v) ∷ l) =
    let rest = without_header k l in if bytes_eq j k then rest else (j, v) ∷ rest

unfoldable pub insert_header : Bytes → Bytes → Headers → Headers
unfolding without_header
insert_header k v l = without_header k l ++ (k, v) ∷ []

-- `str::split_once` at the first `:`.
unfoldable pub split_once : ℕ → Bytes → Option (Bytes × Bytes)
split_once b [] = none
split_once b (c ∷ s) =
    let rest = split_once b s in
    if c == b then some ([], s) else Option.map (λ (p : Bytes × Bytes). (c ∷ p.0, p.1)) rest

-- `trim` is `str::trim`.
unfoldable pub parse_header_line : HeaderText → (Bytes → Bytes) → Bytes → Option (Bytes × Bytes)
unfolding split_once
parse_header_line http trim line = elim (split_once b':' line) [
  | none ↦ none
  | some (name, value) ↦ elim (http.parse_name (trim name)) [
    | none ↦ none
    | some n ↦ Option.map (λ v. (n, v)) (http.parse_value (trim value))
  ]
]

pub data ActionError : Type 0 where
  no_objects object_error no_download no_href : ActionError

-- Where a client fetches an object from this proxy: the path below the base, and the query.
unfoldable pub object_path : Bytes → Bytes → Bytes
object_path repo oid = b'/' ∷ (repo ++ (codes "/info/lfs/objects/" ++ oid))

unfoldable pub object_url : Bytes → Bytes → Bytes → ℕ → Bytes
unfolding object_path
object_url base repo oid size =
    base ++ (object_path repo oid ++ (codes "?size=" ++ to_decimal size))

module _ (json : Json) where
  open json use {
    Value, string, array, object, as_str, as_u64, as_array, as_object, get, insert, remove,
    is_object,
  }

  -- `and_then(Value::as_str)`, `and_then(Value::as_u64)` and `and_then(Value::as_array)`.
  abbrev pub str_at : Bytes → Value → Option Bytes
  str_at k v = elim (get k v) [ none ↦ none | some w ↦ as_str w ]

  abbrev pub u64_at : Bytes → Value → Option ℕ
  u64_at k v = elim (get k v) [ none ↦ none | some w ↦ as_u64 w ]

  abbrev pub array_at : Bytes → Value → Option (List Value)
  array_at k v = elim (get k v) [ none ↦ none | some w ↦ as_array w ]

  -- A write through `get_mut`.
  unfoldable pub update_at : Bytes → (Value → Value) → Value → Value
  update_at k f v = elim (get k v) [ none ↦ v | some w ↦ insert k (f w) v ]

  abbrev pub bearer : Bytes → Value
  bearer token = object ((codes "Authorization", string (codes "Bearer " ++ token)) ∷ [])

  unfoldable pub rewrite_download : Bytes → Option Bytes → Value → Value
  rewrite_download href serve_token download =
      let located = insert (codes "href") (string href) download in
      if is_object download
      then elim serve_token [
        | none ↦ remove (codes "header") located
        | some token ↦ insert (codes "header") (bearer token) located
      ]
      else download

  unfoldable pub size_of : Value → ℕ
  size_of obj = elim (u64_at (codes "size") obj) [ none ↦ 0 | some n ↦ n ]

  unfoldable pub rewrite_object : Bytes → Bytes → Option Bytes → Value → Value
  unfolding update_at rewrite_download size_of
  rewrite_object base repo serve_token obj = elim (str_at (codes "oid") obj) [
    | none ↦ obj
    | some oid ↦
        update_at (codes "actions")
          (update_at (codes "download")
            (rewrite_download (object_url base repo oid (size_of obj)) serve_token))
          obj
  ]

  unfoldable pub rewrite_objects : Bytes → Bytes → Option Bytes → Value → Value
  unfolding rewrite_object
  rewrite_objects base repo serve_token objects = elim (as_array objects) [
    | none ↦ objects
    | some l ↦ array (map (rewrite_object base repo serve_token) l)
  ]

  unfoldable pub rewrite_download_hrefs : Bytes → Bytes → Option Bytes → Value → Value
  unfolding update_at rewrite_objects
  rewrite_download_hrefs base repo serve_token v =
      update_at (codes "objects") (rewrite_objects base repo serve_token) v

  unfoldable pub collect_headers : HeaderText → List (Bytes × Value) → Headers → Headers
  unfolding insert_header
  collect_headers http [] l = l
  collect_headers http ((k, v) ∷ ms) l = collect_headers http ms (elim (http.parse_name k) [
    | none ↦ l
    | some name ↦ elim (as_str v) [
      | none ↦ l
      | some text ↦ elim (http.parse_value text) [
        | none ↦ l
        | some value ↦ insert_header name value l
      ]
    ]
  ])

  abbrev pub action_of : Value → Option Value
  action_of obj = elim (get (codes "actions") obj) [
    | none ↦ none
    | some a ↦ get (codes "download") a
  ]

  unfoldable pub action_headers : HeaderText → Value → Headers
  unfolding collect_headers
  action_headers http download = elim (get (codes "header") download) [
    | none ↦ []
    | some h ↦ elim (as_object h) [ none ↦ [] | some ms ↦ collect_headers http ms [] ]
  ]

  unfoldable pub parse_object : HeaderText → Value → Result ActionError (Bytes × Headers)
  unfolding action_headers
  parse_object http obj =
      if is_some (get (codes "error") obj) then err object_error else elim (action_of obj) [
        | none ↦ err no_download
        | some download ↦ elim (str_at (codes "href") download) [
          | none ↦ err no_href
          | some href ↦ ok (href, action_headers http download)
        ]
      ]

  unfoldable pub parse_download_action : HeaderText → Value → Result ActionError (Bytes × Headers)
  unfolding parse_object
  parse_download_action http v = elim (array_at (codes "objects") v) [
    | none ↦ err no_objects
    | some objects ↦ elim objects [ [] ↦ err no_objects | obj ∷ rest ↦ parse_object http obj ]
  ]
