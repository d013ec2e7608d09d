-- ===== src/Base/Text.antt =====
-- Texts as lists of bytes, and their comparison.
use Prim.Native.Nat.{ℕ, ◌+◌}
use Prim.Native.Char.{code}
use Prim.Native.String.{String}
use mathlib.Core.Path.{◌≡◌, refl}
use mathlib.Core.Logic.{◌↔◌}
use mathlib.Core.Bool.{Bool, true, false, ◌&&◌}
use mathlib.Core.List.{List, [], ◌∷◌, map}
use native.Mathlib.Omega.{arith}
use git_cache_proxy.Base.Tests.{leb, ◌==◌, if◌then◌else◌}

abbrev pub Bytes : Type 0
Bytes = List ℕ

-- The bytes of an ASCII literal.
abbrev pub codes : String → Bytes
codes String.[] = []
codes (String.◌∷◌ c s) = code c ∷ codes s

unfoldable pub bytes_eq : Bytes → Bytes → Bool
bytes_eq [] [] = true
bytes_eq (x ∷ xs) (y ∷ ys) = x == y && bytes_eq xs ys
bytes_eq _ _ = false

pub bytes_eq_iff : (xs ys : Bytes) → (bytes_eq xs ys ≡ true) ↔ (xs ≡ ys)
unfolding bytes_eq
bytes_eq_iff [] [] = ground arith
bytes_eq_iff [] (y ∷ ys) = ground arith
bytes_eq_iff (x ∷ xs) [] = ground arith
bytes_eq_iff (x ∷ xs) (y ∷ ys) = ground (arith, bytes_eq_iff xs ys)

pub bytes_eq_refl : (xs : Bytes) → bytes_eq xs xs ≡ true
bytes_eq_refl xs = (bytes_eq_iff xs xs).1 refl

-- `u8::to_ascii_lowercase`
abbrev pub lower_byte : ℕ → ℕ
lower_byte c = if leb b'A' c && leb c b'Z' then c + 32 else c

-- `str::to_ascii_lowercase` and `str::eq_ignore_ascii_case`
abbrev pub to_ascii_lowercase : Bytes → Bytes
to_ascii_lowercase = map lower_byte

unfoldable pub eq_ignore_ascii_case : Bytes → Bytes → Bool
eq_ignore_ascii_case xs ys = bytes_eq (to_ascii_lowercase xs) (to_ascii_lowercase ys)

-- A `HashSet<String>` is a list without repetitions.
abbrev pub mem : Bytes → List Bytes → Bool
mem k [] = false
mem k (j ∷ l) = if bytes_eq j k then true else mem k l

-- `HashSet::insert`
unfoldable pub insert : Bytes → List Bytes → List Bytes
insert k l = if mem k l then l else k ∷ l

pub mem-insert :
    (k j : Bytes) (l : List Bytes) → mem j (insert k l) ≡ (if bytes_eq k j then true else mem j l)
unfolding insert
mem-insert k j l = ground (arith, bytes_eq_iff k j)
