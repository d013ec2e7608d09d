-- ===== src/Base/Substr.antt =====
-- `str::strip_prefix`, `strip_suffix`, `starts_with`, `ends_with`, `contains`, `find`, and trimming.
use Prim.Native.Nat.{ℕ, suc}
use mathlib.Core.Path.{◌≡◌, refl, ap}
use mathlib.Core.Bool.{Bool, true, false, ◌||◌}
use mathlib.Core.Logic.{inl, inr}
use mathlib.Core.Option
use mathlib.Core.Option.{Option, none, some}
use mathlib.Core.List.{[], ◌∷◌, ◌++◌}
use native.Mathlib.Omega.{arith}
use git_cache_proxy.Base.Tests.{◌==◌, if◌then◌else◌, is_some, Bool-cases, Option-cases}
use git_cache_proxy.Base.Text.{Bytes, bytes_eq, bytes_eq_iff, bytes_eq_refl}
use git_cache_proxy.Base.Lists.{length, length-append}

abbrev pub strip_prefix : Bytes → Bytes → Option Bytes
strip_prefix [] s = some s
strip_prefix (p ∷ ps) [] = none
strip_prefix (p ∷ ps) (c ∷ s) = if p == c then strip_prefix ps s else none

abbrev pub starts_with : Bytes → Bytes → Bool
starts_with p s = is_some (strip_prefix p s)

unfoldable pub strip_suffix : Bytes → Bytes → Option Bytes
strip_suffix p [] = if bytes_eq [] p then some [] else none
strip_suffix p (c ∷ s) =
    if bytes_eq (c ∷ s) p then some [] else Option.map (λ r. c ∷ r) (strip_suffix p s)

unfoldable pub ends_with : Bytes → Bytes → Bool
unfolding strip_suffix
ends_with p s = is_some (strip_suffix p s)

unfoldable pub contains : Bytes → Bytes → Bool
contains p [] = starts_with p []
contains p (c ∷ s) = starts_with p (c ∷ s) || contains p s

-- The position of the first occurrence.
unfoldable pub find : Bytes → Bytes → Option ℕ
find p [] = if starts_with p [] then some 0 else none
find p (c ∷ s) = if starts_with p (c ∷ s) then some 0 else Option.map suc (find p s)

unfoldable pub trim_start_matches : ℕ → Bytes → Bytes
trim_start_matches b [] = []
trim_start_matches b (c ∷ s) = if b == c then trim_start_matches b s else c ∷ s

-- The trimmed tail is empty exactly when all that follows is `b`.
unfoldable pub trim_end_matches : ℕ → Bytes → Bytes
trim_end_matches b [] = []
trim_end_matches b (c ∷ s) = elim (trim_end_matches b s) [
  | [] ↦ if b == c then [] else c ∷ []
  | d ∷ r ↦ c ∷ d ∷ r
]

pub strip_prefix-append : (p s : Bytes) → strip_prefix p (p ++ s) ≡ some s
strip_prefix-append [] s = refl
strip_prefix-append (c ∷ p) s = ground (arith, strip_prefix-append p s)

pub strip_prefix-eq-some : (p s r : Bytes) → strip_prefix p s ≡ some r → s ≡ p ++ r
strip_prefix-eq-some [] s r e = cc
strip_prefix-eq-some (p ∷ ps) [] r e = cc
strip_prefix-eq-some (p ∷ ps) (c ∷ s) r e = ground (arith, strip_prefix-eq-some ps s r)

pub starts_with-append : (p s : Bytes) → starts_with p (p ++ s) ≡ true
starts_with-append p s = ap is_some (strip_prefix-append p s)

pub contains-append : (xs p ys : Bytes) → contains p (xs ++ (p ++ ys)) ≡ true
unfolding contains
contains-append [] [] [] = refl
contains-append [] [] (y ∷ ys) = refl
contains-append [] (p ∷ ps) ys = ground (arith, starts_with-append (p ∷ ps) ys)
contains-append (x ∷ xs) p ys = ground (arith, contains-append xs p ys)

longer-ne : (x : ℕ) (xs p : Bytes) → bytes_eq (x ∷ xs ++ p) p ≡ false
longer-ne x xs p = elim (Bool-cases (bytes_eq (x ∷ xs ++ p) p)) [
  | inl e ↦
      absurd
        (omega (arith, ap length ((bytes_eq_iff (x ∷ xs ++ p) p).0 e), length-append (x ∷ xs) p))
  | inr e ↦ e
]

pub strip_suffix-append : (xs p : Bytes) → strip_suffix p (xs ++ p) ≡ some xs
unfolding strip_suffix
strip_suffix-append [] [] = rw (bytes_eq_refl [])
strip_suffix-append [] (c ∷ p) = rw (bytes_eq_refl (c ∷ p))
strip_suffix-append (x ∷ xs) p = rw (longer-ne x xs p, strip_suffix-append xs p)

pub strip_suffix-eq-some : (p s r : Bytes) → strip_suffix p s ≡ some r → s ≡ r ++ p
unfolding strip_suffix
strip_suffix-eq-some p [] r e = ground (arith, bytes_eq_iff [] p)
strip_suffix-eq-some p (c ∷ s) r e = elim (Option-cases (strip_suffix p s)) [
  | inl h ↦ ground (arith, bytes_eq_iff (c ∷ s) p)
  | inr (t, h) ↦ ground (arith, bytes_eq_iff (c ∷ s) p, strip_suffix-eq-some p s t h)
]
