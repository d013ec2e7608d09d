-- ===== src/Git/Wants.antt =====
-- `parse_wants` of src/git.rs: the object ids that an upload-pack request wants. The position in the
-- body is the rest of the body from there; the loop has fuel for every byte and one more round.
pub mod Frames
pub mod Sound
use git_cache_proxy.Base.{
  ℕ, zero, suc, ◌+◌, ◌≤◌, ◌<◌, Bytes, codes, List, [], ◌∷◌, ◌++◌, Bool, true, false, ◌&&◌, ◌||◌,
  Option, none, some, length, take, drop, leb, ltb, ◌==◌, if◌then◌else◌, strip_prefix, mem, insert,
}
use git_cache_proxy.Git.PktLine.{from_str_radix}

-- `u8::is_ascii_hexdigit`
unfoldable pub is_ascii_hexdigit : ℕ → Bool
is_ascii_hexdigit c =
    (leb b'0' c && leb c b'9') || (leb b'a' c && leb c b'f') || (leb b'A' c && leb c b'F')

unfoldable pub take_hex : Bytes → Bytes
unfolding is_ascii_hexdigit
take_hex [] = []
take_hex (c ∷ s) = if is_ascii_hexdigit c then c ∷ take_hex s else []

abbrev pub is_oid_length : ℕ → Bool
is_oid_length n = n == 40 || n == 64

-- What one frame's payload adds to the ids.
unfoldable pub add_want : Bytes → List Bytes → List Bytes
unfolding take_hex
add_want payload oids = elim (strip_prefix (codes "want ") payload) [
  | none ↦ oids
  | some rest ↦
      let oid = take_hex rest in if is_oid_length (length oid) then insert oid oids else oids
]

-- The length prefix at the start of `rest`: `none` ends the walk.
unfoldable pub frame_length : Bytes → Option ℕ
frame_length rest = if leb 4 (length rest) then from_str_radix (take 4 rest) else none

unfoldable pub wants_loop : ℕ → Bytes → List Bytes → List Bytes
wants_loop zero rest oids = oids
wants_loop (suc f) rest oids = elim (frame_length rest) [
  | none ↦ oids
  | some len ↦ elim (ltb len 4) [
    | true ↦ wants_loop f (drop 4 rest) oids
    | false ↦ elim (ltb (length rest) len) [
      | true ↦ oids
      | false ↦ wants_loop f (drop len rest) (add_want (drop 4 (take len rest)) oids)
    ]
  ]
]

unfoldable pub parse_wants : Bytes → List Bytes
unfolding wants_loop
parse_wants body = wants_loop (suc (length body)) body []
