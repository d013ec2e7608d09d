-- ===== src/Git/Wants/Frames.antt =====
-- The walk of `parse_wants` over a body that is framed as pkt-lines.
use git_cache_proxy.Base.{
  ℕ, ◌⊎◌, ◌≤◌, zero, suc, ◌+◌, ◌<◌, Bytes, codes, bytes_eq, bytes_eq_iff, List, [], ◌∷◌, ◌++◌,
  append_assoc, Bool, true, false, ◌&&◌, ◌||◌, none, some, Option-cases, inl, inr, Bool-cases,
  length, length-append, take, drop, take-append, drop-append, ltb, if◌then◌else◌, strip_prefix,
  mem, insert, mem-insert, ◌≡◌, refl, ap, ◌∙◌, All, arith,
}
use git_cache_proxy.Git.PktLine.{
  pkt_line, format_04x, length-format_04x, from_str_radix, from_str_radix-format_04x,
}
use git_cache_proxy.Git.Wants.{
  take_hex, is_oid_length, add_want, frame_length, wants_loop, parse_wants,
}

pub data Frame : Type 0 where
  flush : Frame
  delim : Frame
  response_end : Frame
  line : Bytes → Frame

unfoldable pub encode : Frame → Bytes
encode flush = codes "0000"
encode delim = codes "0001"
encode response_end = codes "0002"
encode (line payload) = pkt_line payload

unfoldable pub encode_all : List Frame → Bytes
encode_all [] = []
encode_all (f ∷ fs) = encode f ++ encode_all fs

-- The length of a line fits in its prefix.
abbrev pub Fits : Frame → Type 0
Fits (line payload) = length payload + 4 < 65536
Fits _ = Unit

-- Whether a frame wants an id: its payload begins with `want `, and the hexadecimal digits behind
-- that, as many as there are, are the id, which has the length of a SHA-1 or a SHA-256.
unfoldable pub asks : Bytes → Frame → Bool
asks oid (line payload) = elim (strip_prefix (codes "want ") payload) [
  | none ↦ false
  | some rest ↦ bytes_eq (take_hex rest) oid && is_oid_length (length oid)
]
asks oid _ = false

unfoldable pub any_asks : Bytes → List Frame → Bool
any_asks oid [] = false
any_asks oid (f ∷ fs) = asks oid f || any_asks oid fs

module _ (f : ℕ) (rest : Bytes) (oids : List Bytes) where
  pub round_ends : frame_length rest ≡ none → wants_loop (suc f) rest oids ≡ oids
  unfolding wants_loop
  round_ends e = rw (e, wants_loop)

  pub round_skips :
      (n : ℕ)
      → frame_length rest ≡ some n
      → ltb n 4 ≡ true
      → wants_loop (suc f) rest oids ≡ wants_loop f (drop 4 rest) oids
  unfolding wants_loop
  round_skips n e small = rw (e, wants_loop) (rw small)

  pub round_adds :
      (n : ℕ)
      → frame_length rest ≡ some n
      → ltb n 4 ≡ false
      → ltb (length rest) n ≡ false
      → wants_loop (suc f) rest oids
        ≡ wants_loop f (drop n rest) (add_want (drop 4 (take n rest)) oids)
  unfolding wants_loop
  round_adds n e large there = rw (e, wants_loop) (rw (large, there))

frame_length-append :
    (head rest : Bytes) → length head ≡ 4 → frame_length (head ++ rest) ≡ from_str_radix head
unfolding frame_length
frame_length-append head rest h =
    ground (arith, h, length-append head rest, take-append head rest 4 h)

special :
    (f : ℕ) (head : Bytes) (n : ℕ) (rest : Bytes) (oids : List Bytes)
    → length head ≡ 4
    → from_str_radix head ≡ some n
    → n < 4
    → wants_loop (suc f) (head ++ rest) oids ≡ wants_loop f rest oids
special f head n rest oids h e small =
    round_skips f (head ++ rest) oids n (frame_length-append head rest h ∙ e) (ground arith)
    ∙ ap (λ r. wants_loop f r oids) (drop-append head rest 4 h)

pub length-pkt_line : (p : Bytes) → length p + 4 < 65536 → length (pkt_line p) ≡ length p + 4
unfolding pkt_line
length-pkt_line p h =
    omega (arith, length-append (format_04x (length p + 4)) p, length-format_04x (length p + 4) h)

pub frame_length-line :
    (p rest : Bytes)
    → length p + 4 < 65536
    → frame_length (pkt_line p ++ rest) ≡ some (length p + 4)
unfolding pkt_line
frame_length-line p rest h =
    let n : ℕ = length p + 4 in
    ap frame_length (append_assoc (format_04x n) p rest)
    ∙ (frame_length-append (format_04x n) (p ++ rest) (length-format_04x n h)
        ∙ from_str_radix-format_04x n h)

add_line :
    (f : ℕ) (p rest : Bytes) (oids : List Bytes)
    → length p + 4 < 65536
    → wants_loop (suc f) (pkt_line p ++ rest) oids ≡ wants_loop f rest (add_want p oids)
add_line f p rest oids h =
    let n : ℕ = length p + 4 in
    let len : length (pkt_line p) ≡ n = length-pkt_line p h in
    round_adds f (pkt_line p ++ rest) oids n (frame_length-line p rest h) (ground arith)
      (ground (arith, len, length-append (pkt_line p) rest))
    ∙ cc (drop-append (pkt_line p) rest n len, take-append (pkt_line p) rest n len, payload)
  where
    payload : drop 4 (pkt_line p) ≡ p
    payload =
        unfold pkt_line in
        drop-append (format_04x (length p + 4)) p 4 (length-format_04x (length p + 4) h)

add_frame : Frame → List Bytes → List Bytes
add_frame (line p) oids = add_want p oids
add_frame _ oids = oids

add_all : List Frame → List Bytes → List Bytes
add_all [] oids = oids
add_all (f ∷ fs) oids = add_all fs (add_frame f oids)

frame_step :
    (n : ℕ) (f : Frame) (rest : Bytes) (oids : List Bytes)
    → Fits f
    → wants_loop (suc n) (encode f ++ rest) oids ≡ wants_loop n rest (add_frame f oids)
unfolding encode add_frame
frame_step n flush rest oids h =
    special n (codes "0000") 0 rest oids refl (unfold from_str_radix in refl) (omega arith)
frame_step n delim rest oids h =
    special n (codes "0001") 1 rest oids refl (unfold from_str_radix in refl) (omega arith)
frame_step n response_end rest oids h =
    special n (codes "0002") 2 rest oids refl (unfold from_str_radix in refl) (omega arith)
frame_step n (line p) rest oids h = add_line n p rest oids h

encode_pos : (f : Frame) → Fits f → 0 < length (encode f)
unfolding encode
encode_pos flush h = omega arith
encode_pos delim h = omega arith
encode_pos response_end h = omega arith
encode_pos (line p) h = omega (arith, length-pkt_line p h)

-- The walk of the lines stops here: no length can be read, or what is left is shorter than its length.
abbrev pub Stops : Bytes → Type 0
Stops tail =
    (frame_length tail ≡ none)
    ⊎ ((n : ℕ) × (frame_length tail ≡ some n) × (4 ≤ n) × (length tail < n))

Stops-round :
    (f : ℕ) (tail : Bytes) (oids : List Bytes) → Stops tail → wants_loop (suc f) tail oids ≡ oids
unfolding wants_loop
Stops-round f tail oids (inl e) = round_ends f tail oids e
Stops-round f tail oids (inr (n, e, large, cut)) =
    let b : ltb n 4 ≡ false = ground arith in
    let c : ltb (length tail) n ≡ true = ground arith in rw (e, wants_loop) (rw (b, c) refl)

walk_frames :
    (fs : List Frame) (n : ℕ) (tail : Bytes) (oids : List Bytes)
    → All Fits fs
    → Stops tail
    → length (encode_all fs ++ tail) < n
    → wants_loop n (encode_all fs ++ tail) oids ≡ add_all fs oids
unfolding encode_all add_all
walk_frames fs zero tail oids h stop fuel = absurd (omega arith)
walk_frames [] (suc n) tail oids h stop fuel = Stops-round n tail oids stop
walk_frames (f ∷ fs) (suc n) tail oids h stop fuel =
    ap (λ r. wants_loop (suc n) r oids) (append_assoc (encode f) (encode_all fs) tail)
    ∙ (frame_step n f (encode_all fs ++ tail) oids h.0
        ∙ walk_frames fs n tail (add_frame f oids) h.1 stop (
            omega (
              arith,
              fuel,
              length-append (encode f ++ encode_all fs) tail,
              length-append (encode f) (encode_all fs),
              length-append (encode_all fs) tail,
              encode_pos f h.0,
            )))

mem-add_frame :
    (f : Frame) (oid : Bytes) (oids : List Bytes)
    → mem oid (add_frame f oids) ≡ (asks oid f || mem oid oids)
unfolding add_frame asks add_want
mem-add_frame flush oid oids = refl
mem-add_frame delim oid oids = refl
mem-add_frame response_end oid oids = refl
mem-add_frame (line p) oid oids = elim (Option-cases (strip_prefix (codes "want ") p)) [
  | inl e ↦ rw (e, add_want) refl
  | inr (rest, e) ↦ rw (e, add_want) (added (take_hex rest))
]
  where
    added :
        (found : Bytes)
        → mem oid (if is_oid_length (length found) then insert found oids else oids)
          ≡ ((bytes_eq found oid && is_oid_length (length oid)) || mem oid oids)
    added found = elim (Bool-cases (bytes_eq found oid)) [
      | inl same ↦
          let e : found ≡ oid = (bytes_eq_iff found oid).0 same in
          ground (arith, mem-insert found oid oids, same, ap length e)
      | inr other ↦ ground (arith, mem-insert found oid oids, other)
    ]

mem-add_all :
    (fs : List Frame) (oid : Bytes) (oids : List Bytes)
    → mem oid (add_all fs oids) ≡ (any_asks oid fs || mem oid oids)
unfolding add_all any_asks
mem-add_all [] oid oids = refl
mem-add_all (f ∷ fs) oid oids =
    ground (arith, mem-add_all fs oid (add_frame f oids), mem-add_frame f oid oids)

-- Over a body of pkt-lines, each of which fits its length, followed by a tail from whose first four
-- bytes no length can be read, or that is shorter than the length of 4 or more that it begins with:
-- the ids that are found are exactly those that a `want` line asks for, at its start. The special
-- packets and the lines that only contain such text, or ids of another length, add nothing.
pub parse_wants_exactly :
    (fs : List Frame) (tail oid : Bytes)
    → All Fits fs
    → Stops tail
    → mem oid (parse_wants (encode_all fs ++ tail)) ≡ any_asks oid fs
unfolding parse_wants
parse_wants_exactly fs tail oid h stop =
    ap (mem oid)
      (walk_frames fs (suc (length (encode_all fs ++ tail))) tail [] h stop (omega arith))
    ∙ (mem-add_all fs oid [] ∙ ground arith)
