-- ===== src/Git/Retry/Tail.antt =====
-- The tail of standard error that `run_upstream` of src/git.rs keeps.
use git_cache_proxy.Base.{
  ℕ, zero, suc, ◌+◌, ◌-◌, ◌≤◌, Bytes, List, [], ◌∷◌, ◌++◌, length, drop, ltb, ◌≡◌, refl, sym, ap,
  ◌∙◌, arith, length-append, length-drop, append_assoc, append-nil, Bool-cases, inl, inr, false,
}
use git_cache_proxy.Git.Retry.{keep_tail, read_tail, max_upstream_stderr_bytes}

abbrev pub concat : List Bytes → Bytes
concat [] = []
concat (c ∷ cs) = c ++ concat cs

-- The last `n` bytes, or all of them.
abbrev pub last_bytes : ℕ → Bytes → Bytes
last_bytes n xs = drop (length xs - n) xs

drop_append_left : (n : ℕ) (xs ys : Bytes) → n ≤ length xs → drop n (xs ++ ys) ≡ drop n xs ++ ys
drop_append_left zero xs ys h = refl
drop_append_left (suc n) [] ys h = absurd (omega (arith, h))
drop_append_left (suc n) (x ∷ xs) ys h = drop_append_left n xs ys (omega (arith, h))

abbrev nothing : Bytes
nothing = []

drop-nil : (n : ℕ) → drop n nothing ≡ nothing
drop-nil zero = refl
drop-nil (suc n) = refl

drop-drop : (n m : ℕ) (xs : Bytes) → drop n (drop m xs) ≡ drop (m + n) xs
drop-drop n zero xs = ap (λ k. drop k xs) (omega arith)
drop-drop n (suc m) [] = drop-nil n ∙ sym (drop-nil (suc m + n))
drop-drop n (suc m) (x ∷ xs) =
    let up : suc (m + n) ≡ suc m + n = omega arith in
    drop-drop n m xs ∙ ap (λ k. drop k (x ∷ xs)) up

last_bytes-append :
    (n : ℕ) (xs ys : Bytes) → last_bytes n (last_bytes n xs ++ ys) ≡ last_bytes n (xs ++ ys)
last_bytes-append n xs ys =
    let cut : ℕ = length xs - n in
    let joined : last_bytes n xs ++ ys ≡ drop cut (xs ++ ys) =
      sym (drop_append_left cut xs ys (omega arith)) in
    ap (last_bytes n) joined
    ∙ (drop-drop (length (drop cut (xs ++ ys)) - n) cut (xs ++ ys)
        ∙ ap (λ k. drop k (xs ++ ys))
            (omega (arith, length-drop cut (xs ++ ys), length-append xs ys)))

keep_tail-eq :
    (tail chunk : Bytes)
    → keep_tail tail chunk ≡ last_bytes max_upstream_stderr_bytes (tail ++ chunk)
unfolding keep_tail
keep_tail-eq tail chunk =
    elim (Bool-cases (ltb max_upstream_stderr_bytes (length (tail ++ chunk)))) [
      | inl e ↦ rw e refl
      | inr e ↦
          let none_over : length (tail ++ chunk) - max_upstream_stderr_bytes ≡ 0 =
            omega (arith, ltb-false (length (tail ++ chunk)) e) in
          rw e (sym (ap (λ k. drop k (tail ++ chunk)) none_over))
    ]
  where
    ltb-false : (n : ℕ) → ltb max_upstream_stderr_bytes n ≡ false → n ≤ max_upstream_stderr_bytes
    ltb-false n e = ground arith

read_tail_from :
    (cs : List Bytes) (tail : Bytes)
    → read_tail cs (last_bytes max_upstream_stderr_bytes tail)
      ≡ last_bytes max_upstream_stderr_bytes (tail ++ concat cs)
unfolding read_tail
read_tail_from [] tail = ap (last_bytes max_upstream_stderr_bytes) (sym (append-nil tail))
read_tail_from (c ∷ cs) tail =
    ap (read_tail cs) (
      keep_tail-eq (last_bytes max_upstream_stderr_bytes tail) c
      ∙ last_bytes-append max_upstream_stderr_bytes tail c)
    ∙ (read_tail_from cs (tail ++ c)
        ∙ ap (last_bytes max_upstream_stderr_bytes) (append_assoc tail c (concat cs)))

-- However standard error was cut into chunks, what is kept is its last 64 KiB, or all of it.
pub read_tail_lem :
    (cs : List Bytes) → read_tail cs [] ≡ last_bytes max_upstream_stderr_bytes (concat cs)
read_tail_lem cs = read_tail_from cs []
