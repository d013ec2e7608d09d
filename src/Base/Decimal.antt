-- ===== src/Base/Decimal.antt =====
-- A `u64` as decimal text: `to_string`, and `str::parse::<u64>`.
use Prim.Native.Nat.{ℕ, zero, suc, ◌+◌, ◌-◌, ◌*◌, ◌/◌, ◌%◌, ◌<◌}
use mathlib.Core.Path.{◌≡◌, refl, ap, ◌∙◌}
use mathlib.Core.Bool.{Bool, true, false, ◌&&◌}
use mathlib.Core.Option.{Option, none, some}
use mathlib.Core.Logic.{inl, inr}
use mathlib.Core.List.{[], ◌∷◌, ◌++◌}
use native.Mathlib.Omega.{arith}
use git_cache_proxy.Base.Tests.{ltb, leb, ◌==◌, if◌then◌else◌, Bool-cases}
use git_cache_proxy.Base.Text.{Bytes, codes}
use git_cache_proxy.Base.Substr.{starts_with}
use git_cache_proxy.Base.Word.{u64_mod}
use git_cache_proxy.Base.Lists.{all}

-- The digits of `n` before `acc`. There are fewer digits than the fuel.
unfoldable pub digits : ℕ → ℕ → Bytes → Bytes
digits zero n acc = acc
digits (suc f) n acc =
    let more = digits f (n / 10) ((b'0' + n % 10) ∷ acc) in
    if ltb n 10 then (b'0' + n) ∷ acc else more

unfoldable pub to_decimal : ℕ → Bytes
unfolding digits
to_decimal n = digits (suc n) n []

-- The digits that are left, after those with the value `acc`; an overflow is an error.
unfoldable pub parse_digits : ℕ → Bytes → Option ℕ
parse_digits acc [] = some acc
parse_digits acc (c ∷ s) =
    let rest = parse_digits (acc * 10 + (c - b'0')) s in
    if leb b'0' c && leb c b'9' && ltb (acc * 10 + (c - b'0')) u64_mod then rest else none

-- A leading `+` is accepted before at least one digit.
unfoldable pub parse_u64 : Bytes → Option ℕ
unfolding parse_digits
parse_u64 [] = none
parse_u64 (c ∷ []) = parse_digits 0 (c ∷ [])
parse_u64 (c ∷ d ∷ s) = if c == b'+' then parse_digits 0 (d ∷ s) else parse_digits 0 (c ∷ d ∷ s)

parse-digit :
    (acc d : ℕ) (s : Bytes)
    → d < 10
    → acc * 10 + d < u64_mod
    → parse_digits acc ((b'0' + d) ∷ s) ≡ parse_digits (acc * 10 + d) s
unfolding parse_digits
parse-digit acc d s small fits =
    let same : b'0' + d - b'0' ≡ d = omega arith in
    ground (arith, ap (λ (k : ℕ). parse_digits (acc * 10 + k) s) same)

parse_digits-digits :
    (f n : ℕ) (s : Bytes) → n < f → n < u64_mod → parse_digits 0 (digits f n s) ≡ parse_digits n s
unfolding digits
parse_digits-digits zero n s h fits = absurd (omega arith)
parse_digits-digits (suc f) n s h fits = elim (Bool-cases (ltb n 10)) [
  | inl e ↦ rw e (
      parse-digit 0 n s (ground arith) (omega arith)
      ∙ ap (λ (k : ℕ). parse_digits k s) (omega arith))
  | inr e ↦ rw e (
      parse_digits-digits f (n / 10) ((b'0' + n % 10) ∷ s) (ground arith) (omega arith)
      ∙ (parse-digit (n / 10) (n % 10) s (omega arith) (omega arith)
          ∙ ap (λ (k : ℕ). parse_digits k s) (omega arith)))
]

abbrev starts_digit : Bytes → Bool
starts_digit [] = false
starts_digit (c ∷ s) = leb b'0' c && leb c b'9'

digits-starts_digit :
    (f n : ℕ) (s : Bytes) → starts_digit s ≡ true → starts_digit (digits f n s) ≡ true
unfolding digits
digits-starts_digit zero n s h = h
digits-starts_digit (suc f) n s h =
    ground (arith, digits-starts_digit f (n / 10) ((b'0' + n % 10) ∷ s))

to_decimal-starts_digit : (n : ℕ) → starts_digit (to_decimal n) ≡ true
unfolding to_decimal
to_decimal-starts_digit n = ground (arith, digits-starts_digit n (n / 10) ((b'0' + n % 10) ∷ []))

parse_u64-digits : (s : Bytes) → starts_digit s ≡ true → parse_u64 s ≡ parse_digits 0 s
unfolding parse_u64
parse_u64-digits [] h = absurd (ground (arith, h))
parse_u64-digits (c ∷ []) h = refl
parse_u64-digits (c ∷ d ∷ s) h = ground (arith, h)

pub parse_u64-to_decimal : (n : ℕ) → n < u64_mod → parse_u64 (to_decimal n) ≡ some n
unfolding to_decimal
parse_u64-to_decimal n h =
    parse_u64-digits (to_decimal n) (to_decimal-starts_digit n)
    ∙ (parse_digits-digits (suc n) n [] (omega arith) h ∙ nothing_left n)
  where
    nothing_left : (n : ℕ) → parse_digits n [] ≡ some n
    nothing_left n = unfold parse_digits in refl

digits-digits_only :
    (f n : ℕ) (s : Bytes)
    → all (λ c. leb b'0' c && leb c b'9') s ≡ true
    → all (λ c. leb b'0' c && leb c b'9') (digits f n s) ≡ true
unfolding digits
digits-digits_only zero n s h = h
digits-digits_only (suc f) n s h =
    ground (arith, digits-digits_only f (n / 10) ((b'0' + n % 10) ∷ s))

-- No byte but the digits.
pub to_decimal-digits_only : (n : ℕ) → all (λ c. leb b'0' c && leb c b'9') (to_decimal n) ≡ true
unfolding to_decimal
to_decimal-digits_only n = digits-digits_only (suc n) n [] refl

pub to_decimal-relative : (n : ℕ) (s : Bytes) → starts_with (codes "/") (to_decimal n ++ s) ≡ false
to_decimal-relative n s = digit_first (to_decimal n) s (to_decimal-starts_digit n)
  where
    digit_first : (t s : Bytes) → starts_digit t ≡ true → starts_with (codes "/") (t ++ s) ≡ false
    digit_first [] s h = cc
    digit_first (c ∷ t) s h = ground (arith, h)
