-- ===== src/Base/Split.antt =====
-- `str::split` at one byte, and its inverse.
use Prim.Native.Nat.{ℕ}
use mathlib.Core.Path.{◌≡◌, refl, ap}
use mathlib.Core.Logic.{◌≢◌}
use mathlib.Core.List.{List, [], ◌∷◌, ◌++◌, append-nil}
use native.Mathlib.Omega.{arith}
use git_cache_proxy.Base.Tests.{◌==◌, if◌then◌else◌}
use git_cache_proxy.Base.Lists.{All}
use git_cache_proxy.Base.Text.{Bytes}

-- Puts a byte in front of the first piece.
abbrev pub push_front : ℕ → List Bytes → List Bytes
push_front c [] = (c ∷ []) ∷ []
push_front c (p ∷ ps) = (c ∷ p) ∷ ps

unfoldable pub split : ℕ → Bytes → List Bytes
split b [] = [] ∷ []
split b (c ∷ s) = let rest = split b s in if b == c then [] ∷ rest else push_front c rest

unfoldable pub join : ℕ → List Bytes → Bytes
join b [] = []
join b (p ∷ []) = p
join b (p ∷ q ∷ ps) = p ++ b ∷ join b (q ∷ ps)

abbrev pub NoByte : ℕ → Bytes → Type 0
NoByte b = All (λ c. c ≢ b)

pub split-ne-nil : (b : ℕ) (s : Bytes) → split b s ≢ []
unfolding split
split-ne-nil b [] = ground arith
split-ne-nil b (c ∷ s) = ground (arith, split-ne-nil b s)

join-cons : (b : ℕ) (p : Bytes) (ps : List Bytes) → ps ≢ [] → join b (p ∷ ps) ≡ p ++ b ∷ join b ps
unfolding join
join-cons b p [] h = absurd (h refl)
join-cons b p (q ∷ ps) h = refl

join-push_front : (b c : ℕ) (ps : List Bytes) → ps ≢ [] → join b (push_front c ps) ≡ c ∷ join b ps
unfolding join
join-push_front b c [] h = absurd (h refl)
join-push_front b c (p ∷ []) h = refl
join-push_front b c (p ∷ q ∷ ps) h = refl

-- Splitting loses nothing.
pub join-split : (b : ℕ) (s : Bytes) → join b (split b s) ≡ s
unfolding split
join-split b [] = unfold join in refl
join-split b (c ∷ s) = ground (
  arith,
  join-split b s,
  split-ne-nil b s,
  join-cons b [] (split b s),
  join-push_front b c (split b s),
)

-- A separator between two texts separates their pieces.
pub split-append_sep : (b : ℕ) (xs ys : Bytes) → split b (xs ++ b ∷ ys) ≡ split b xs ++ split b ys
unfolding split
split-append_sep b [] ys = ground arith
split-append_sep b (c ∷ xs) ys = ground (arith, split-append_sep b xs ys, split-ne-nil b xs)

pub split_no_sep : (b : ℕ) (xs : Bytes) → NoByte b xs → split b xs ≡ xs ∷ []
unfolding split
split_no_sep b [] h = refl
split_no_sep b (c ∷ xs) h = ground (arith, split_no_sep b xs h.1)

-- Appends to the last piece.
abbrev pub push_back : List Bytes → Bytes → List Bytes
push_back [] t = []
push_back (p ∷ []) t = (p ++ t) ∷ []
push_back (p ∷ q ∷ ps) t = p ∷ push_back (q ∷ ps) t

push_back-cons :
    (p : Bytes) (ps : List Bytes) (t : Bytes) → ps ≢ [] → push_back (p ∷ ps) t ≡ p ∷ push_back ps t
push_back-cons p [] t h = absurd (h refl)
push_back-cons p (q ∷ ps) t h = refl

push_back-push_front :
    (c : ℕ) (ps : List Bytes) (t : Bytes)
    → ps ≢ []
    → push_back (push_front c ps) t ≡ push_front c (push_back ps t)
push_back-push_front c [] t h = absurd (h refl)
push_back-push_front c (p ∷ []) t h = refl
push_back-push_front c (p ∷ q ∷ ps) t h = refl

-- A text with no separator goes to the last piece.
pub split-append_no_sep :
    (b : ℕ) (xs t : Bytes) → NoByte b t → split b (xs ++ t) ≡ push_back (split b xs) t
unfolding split
split-append_no_sep b [] t h = split_no_sep b t h
split-append_no_sep b (c ∷ xs) t h = ground (
  arith,
  split-append_no_sep b xs t h,
  split-ne-nil b xs,
  push_back-cons [] (split b xs) t,
  push_back-push_front c (split b xs) t,
)

pub split_injective : (b : ℕ) (xs ys : Bytes) → split b xs ≡ split b ys → xs ≡ ys
split_injective b xs ys e = cc (ap (join b) e, join-split b xs, join-split b ys)

-- A text begins with its first piece.
pub split-first :
    (b : ℕ) (s p : Bytes) (ps : List Bytes) → split b s ≡ p ∷ ps → (t : Bytes) × (s ≡ p ++ t)
unfolding join
split-first b s p [] e = ([], cc (ap (join b) e, join-split b s, append-nil p))
split-first b s p (q ∷ ps) e = (b ∷ join b (q ∷ ps), cc (ap (join b) e, join-split b s))
