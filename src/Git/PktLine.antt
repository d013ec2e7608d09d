-- ===== src/Git/PktLine.antt =====
-- `pkt_line` of src/git.rs, and the reading of a length prefix in `parse_wants`.
use git_cache_proxy.Base.{
  ℕ, zero, suc, ◌+◌, ◌-◌, ◌*◌, ◌/◌, ◌%◌, ◌<◌, Bytes, [], ◌∷◌, ◌++◌, false, ◌&&◌, Option, none, some,
  ◌≡◌, refl, ap, ◌∙◌, length, leb, ltb, ◌==◌, if◌then◌else◌, arith,
}

-- One digit as `{:x}` prints it.
unfoldable pub hex_digit : ℕ → ℕ
hex_digit d = if ltb d 10 then b'0' + d else b'a' + (d - 10)

-- The digits above the last four, none for 0.
unfoldable pub high_digits : ℕ → ℕ → Bytes
unfolding hex_digit
high_digits zero n = []
high_digits (suc f) n =
    let rest = high_digits f (n / 16) in if n == 0 then [] else rest ++ hex_digit (n % 16) ∷ []

-- `{:04x}`
unfoldable pub format_04x : ℕ → Bytes
unfolding high_digits
format_04x n =
    high_digits n (n / 65536)
    ++ (hex_digit (n / 4096 % 16)
        ∷ hex_digit (n / 256 % 16)
        ∷ hex_digit (n / 16 % 16)
        ∷ hex_digit (n % 16)
        ∷ [])

unfoldable pub pkt_line : Bytes → Bytes
unfolding format_04x
pkt_line s = format_04x (length s + 4) ++ s

-- `char::to_digit(16)`
unfoldable pub hex_value : ℕ → Option ℕ
hex_value c =
    if leb b'0' c && leb c b'9'
    then some (c - b'0')
    else if leb b'a' c && leb c b'f'
    then some (c - b'a' + 10)
    else if leb b'A' c && leb c b'F'
    then some (c - b'A' + 10)
    else none

unfoldable pub hex_number : ℕ → Bytes → Option ℕ
unfolding hex_value
hex_number acc [] = some acc
hex_number acc (c ∷ s) = elim (hex_value c) [ none ↦ none | some d ↦ hex_number (acc * 16 + d) s ]

-- `usize::from_str_radix(_, 16)`: a leading `+` is accepted before at least one digit. What is not
-- UTF-8 holds no digit either.
unfoldable pub from_str_radix : Bytes → Option ℕ
unfolding hex_number
from_str_radix [] = none
from_str_radix (c ∷ []) = hex_number 0 (c ∷ [])
from_str_radix (c ∷ d ∷ s) = if c == b'+' then hex_number 0 (d ∷ s) else hex_number 0 (c ∷ d ∷ s)

hex_value-digit : (d : ℕ) → d < 16 → hex_value (hex_digit d) ≡ some d
unfolding hex_value hex_digit
hex_value-digit d h = ground arith

hex_digit-ne-plus : (d : ℕ) → (hex_digit d == b'+') ≡ false
unfolding hex_digit
hex_digit-ne-plus d = ground arith

high_digits-zero : (f : ℕ) → high_digits f 0 ≡ []
unfolding high_digits
high_digits-zero zero = refl
high_digits-zero (suc f) = refl

four_digits :
    (n : ℕ)
    → n < 65536
    → format_04x n
      ≡ hex_digit (n / 4096 % 16)
        ∷ hex_digit (n / 256 % 16)
        ∷ hex_digit (n / 16 % 16)
        ∷ hex_digit (n % 16)
        ∷ []
unfolding format_04x
four_digits n h =
    let none_above : n / 65536 ≡ 0 = omega arith in rw (none_above, high_digits-zero n)

hex_number-digit :
    (acc d : ℕ) (s : Bytes)
    → d < 16
    → hex_number acc (hex_digit d ∷ s) ≡ hex_number (acc * 16 + d) s
unfolding hex_number
hex_number-digit acc d s h = rw (hex_value-digit d h, hex_number)

from_four :
    (a b c d : ℕ)
    → a < 16
    → b < 16
    → c < 16
    → d < 16
    → from_str_radix (hex_digit a ∷ hex_digit b ∷ hex_digit c ∷ hex_digit d ∷ [])
      ≡ some ((((0 * 16 + a) * 16 + b) * 16 + c) * 16 + d)
unfolding from_str_radix
from_four a b c d ha hb hc hd = rw (hex_digit-ne-plus a) (
    hex_number-digit 0 a (hex_digit b ∷ hex_digit c ∷ hex_digit d ∷ []) ha
    ∙ (hex_number-digit (0 * 16 + a) b (hex_digit c ∷ hex_digit d ∷ []) hb
        ∙ (hex_number-digit ((0 * 16 + a) * 16 + b) c (hex_digit d ∷ []) hc
            ∙ (hex_number-digit (((0 * 16 + a) * 16 + b) * 16 + c) d [] hd ∙ nothing_left _))))
  where
    nothing_left : (acc : ℕ) → hex_number acc [] ≡ some acc
    nothing_left acc = unfold hex_number in refl

-- A length that fits in four digits is printed with four and read back.
pub from_str_radix-format_04x : (n : ℕ) → n < 65536 → from_str_radix (format_04x n) ≡ some n
from_str_radix-format_04x n h = rw (four_digits n h) (
    from_four (n / 4096 % 16) (n / 256 % 16) (n / 16 % 16) (n % 16) (omega arith) (omega arith)
      (omega arith) (omega arith)
    ∙ ap some (omega arith))

pub length-format_04x : (n : ℕ) → n < 65536 → length (format_04x n) ≡ 4
length-format_04x n h = rw (four_digits n h)
