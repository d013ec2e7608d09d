-- ===== src/Git/Wants/Sound.antt =====
-- `parse_wants` over any body: what it returns is well formed, and its loop ends by itself.
use git_cache_proxy.Base.{
  ℕ, zero, suc, ◌≤◌, ◌<◌, Bytes, codes, List, [], ◌∷◌, true, false, some, Option-cases, inl, inr,
  Bool-cases, length, length-drop, take, drop, ltb, if◌then◌else◌, strip_prefix, insert, mem, ◌≡◌,
  refl, sym, ◌∙◌, all, All, arith,
}
use git_cache_proxy.Git.Wants.{
  is_ascii_hexdigit, take_hex, is_oid_length, add_want, frame_length, wants_loop, parse_wants,
}
use git_cache_proxy.Git.Wants.Frames.{round_ends, round_skips, round_adds}

-- An object id: hexadecimal digits, as many as a SHA-1 or a SHA-256 has.
abbrev pub IsOid : Bytes → Type 0
IsOid oid = (all is_ascii_hexdigit oid ≡ true) × (is_oid_length (length oid) ≡ true)

-- No id stands twice.
abbrev pub Unique : List Bytes → Type 0
Unique [] = Unit
Unique (x ∷ l) = (mem x l ≡ false) × Unique l

take_hex-all : (s : Bytes) → all is_ascii_hexdigit (take_hex s) ≡ true
unfolding take_hex
take_hex-all [] = refl
take_hex-all (c ∷ s) = ground (arith, take_hex-all s)

pub record AreOids (l : List Bytes) : Type 0 where
  pub oids : All IsOid l
  pub unique : Unique l

insert-AreOids : (x : Bytes) (l : List Bytes) → IsOid x → AreOids l → AreOids (insert x l)
unfolding insert
insert-AreOids x l h k = elim (Bool-cases (mem x l)) [
  | inl e ↦ rw e k
  | inr e ↦ rw e (record { oids = (h, k.oids); unique = (e, k.unique) })
]

add_want-AreOids : (p : Bytes) (l : List Bytes) → AreOids l → AreOids (add_want p l)
unfolding add_want
add_want-AreOids p l k = elim (Option-cases (strip_prefix (codes "want ") p)) [
  | inl e ↦ rw (e, add_want) k
  | inr (rest, e) ↦ rw (e, add_want) (added (take_hex rest) (take_hex-all rest))
]
  where
    added :
        (found : Bytes)
        → all is_ascii_hexdigit found ≡ true
        → AreOids (if is_oid_length (length found) then insert found l else l)
    added found h = elim (Bool-cases (is_oid_length (length found))) [
      | inl e ↦ rw e (insert-AreOids found l (h, e) k)
      | inr e ↦ rw e k
    ]

wants_loop-AreOids :
    (n : ℕ) (rest : Bytes) (oids : List Bytes) → AreOids oids → AreOids (wants_loop n rest oids)
unfolding wants_loop
wants_loop-AreOids zero rest oids h = h
wants_loop-AreOids (suc n) rest oids h = elim (Option-cases (frame_length rest)) [
  | inl e ↦ rw (round_ends n rest oids e) h
  | inr (len, e) ↦ elim (Bool-cases (ltb len 4)) [
    | inl small ↦ rw (e, wants_loop) (rw small (wants_loop-AreOids n (drop 4 rest) oids h))
    | inr large ↦ elim (Bool-cases (ltb (length rest) len)) [
      | inl cut ↦ rw (e, wants_loop) (rw (large, cut) h)
      | inr there ↦
          rw (e, wants_loop)
            (rw (large, there)
              (wants_loop-AreOids n (drop len rest) (add_want (drop 4 (take len rest)) oids)
                (add_want-AreOids (drop 4 (take len rest)) oids h)))
    ]
  ]
]

-- Whatever the body holds, every id that is returned is made of hexadecimal digits, has the length
-- of a SHA-1 or a SHA-256, and is returned once.
pub parse_wants-AreOids : (body : Bytes) → AreOids (parse_wants body)
unfolding parse_wants
parse_wants-AreOids body =
    wants_loop-AreOids (suc (length body)) body [] (record { oids = tt; unique = tt })

has_prefix : (rest : Bytes) (n : ℕ) → frame_length rest ≡ some n → 4 ≤ length rest
unfolding frame_length
has_prefix rest n e = ground arith

-- A loop that has fuel for every byte and one more round ends by its own tests: more fuel does not
-- change what it returns.
pub wants_loop_total :
    (n m : ℕ) (rest : Bytes) (oids : List Bytes)
    → length rest < n
    → length rest < m
    → wants_loop n rest oids ≡ wants_loop m rest oids
wants_loop_total zero m rest oids hn hm = elim hn [ ]
wants_loop_total (suc n) zero rest oids hn hm = elim hm [ ]
wants_loop_total (suc n) (suc m) rest oids hn hm = elim (Option-cases (frame_length rest)) [
  | inl e ↦ round_ends n rest oids e ∙ sym (round_ends m rest oids e)
  | inr (len, e) ↦ elim (Bool-cases (ltb len 4)) [
    | inl small ↦
        round_skips n rest oids len e small
        ∙ (wants_loop_total n m (drop 4 rest) oids (shorter 4 e n hn (omega arith))
              (shorter 4 e m hm (omega arith))
            ∙ sym (round_skips m rest oids len e small))
    | inr large ↦ elim (Bool-cases (ltb (length rest) len)) [
      | inl cut ↦ unfold wants_loop in rw (e, wants_loop) (rw (large, cut))
      | inr there ↦
          round_adds n rest oids len e large there
          ∙ (wants_loop_total n m (drop len rest) (add_want (drop 4 (take len rest)) oids)
                (shorter len e n hn (ground arith)) (shorter len e m hm (ground arith))
              ∙ sym (round_adds m rest oids len e large there))
    ]
  ]
]
  where
    shorter :
        {len : ℕ} (k : ℕ)
        → frame_length rest ≡ some len
        → (f : ℕ) → length rest < suc f
        → 4 ≤ k
        → length (drop k rest) < f
    shorter k e f h ge = omega (arith, length-drop k rest, has_prefix rest _ e, h)
