-- ===== src/Lru/Entries.antt =====
-- Entries of a cache: their total size, and what each operation does to it and to the keys.
use git_cache_proxy.Base.{
  ℕ, suc, ◌+◌, ◌≤◌, ◌<◌, u64_mod, Bytes, List, [], ◌∷◌, ◌++◌, ◌≡◌, ◌≢◌, refl, ap, Option, none,
  some, bytes_eq, bytes_eq_iff, if◌then◌else◌, length, arith, All,
}
use git_cache_proxy.Lru.{Entry, lookup, without, assign, promote, last?, init, Distinct}

unfoldable pub sum_sizes : List Entry → ℕ
sum_sizes [] = 0
sum_sizes ((k, v) ∷ l) = v + sum_sizes l

abbrev pub or_zero : Option ℕ → ℕ
or_zero none = 0
or_zero (some v) = v

pub lookup-without :
    (k j : Bytes) (l : List Entry)
    → lookup j (without k l) ≡ (if bytes_eq k j then none else lookup j l)
unfolding lookup without
lookup-without k j [] = ground arith
lookup-without k j ((i, v) ∷ l) =
    ground (arith, lookup-without k j l, bytes_eq_iff i k, bytes_eq_iff i j, bytes_eq_iff k j)

pub lookup-assign :
    (k j : Bytes) (w : ℕ) (l : List Entry)
    → lookup j (assign k w l)
      ≡ (if bytes_eq k j then elim (lookup j l) [ none ↦ none | some v ↦ some w ] else lookup j l)
unfolding lookup assign
lookup-assign k j w [] = ground arith
lookup-assign k j w ((i, v) ∷ l) =
    ground (arith, lookup-assign k j w l, bytes_eq_iff i k, bytes_eq_iff i j, bytes_eq_iff k j)

pub without-absent : (k : Bytes) (l : List Entry) → lookup k l ≡ none → without k l ≡ l
unfolding lookup without
without-absent k [] h = refl
without-absent k ((j, v) ∷ l) h = ground (arith, without-absent k l)

pub assign-absent : (k : Bytes) (w : ℕ) (l : List Entry) → lookup k l ≡ none → assign k w l ≡ l
unfolding lookup assign
assign-absent k w [] h = refl
assign-absent k w ((j, v) ∷ l) h = ground (arith, assign-absent k w l)

pub length-assign : (k : Bytes) (w : ℕ) (l : List Entry) → length (assign k w l) ≡ length l
unfolding assign
length-assign k w [] = refl
length-assign k w ((j, v) ∷ l) = ground (arith, length-assign k w l)

pub Distinct-without : (k : Bytes) (l : List Entry) → Distinct l → Distinct (without k l)
unfolding without
Distinct-without k [] h = tt
Distinct-without k ((j, v) ∷ l) h =
    ground (arith, Distinct-without k l h.1, lookup-without k j l, h.0)

pub Distinct-assign : (k : Bytes) (w : ℕ) (l : List Entry) → Distinct l → Distinct (assign k w l)
unfolding assign
Distinct-assign k w [] h = tt
Distinct-assign k w ((j, v) ∷ l) h =
    ground (arith, Distinct-assign k w l h.1, lookup-assign k j w l, h.0)

lookup-init : (k : Bytes) (l : List Entry) → lookup k l ≡ none → lookup k (init l) ≡ none
unfolding lookup
lookup-init k [] h = refl
lookup-init k ((j, v) ∷ []) h = refl
lookup-init k ((j, v) ∷ e ∷ l) h = ground (arith, lookup-init k (e ∷ l))

pub Distinct-init : (l : List Entry) → Distinct l → Distinct (init l)
Distinct-init [] h = tt
Distinct-init (e ∷ []) h = tt
Distinct-init ((k, v) ∷ e ∷ l) h = (lookup-init k (e ∷ l) h.0, Distinct-init (e ∷ l) h.1)

-- Taking a key out takes its size out of the sum.
pub sum_sizes-without :
    (k : Bytes) (l : List Entry)
    → Distinct l
    → sum_sizes (without k l) + or_zero (lookup k l) ≡ sum_sizes l
unfolding sum_sizes lookup without
sum_sizes-without k [] h = omega arith
sum_sizes-without k ((j, v) ∷ l) h =
    ground (arith, sum_sizes-without k l h.1, without-absent k l, bytes_eq_iff j k, h.0)

pub sum_sizes-promote :
    (k : Bytes) (l : List Entry) → Distinct l → sum_sizes (promote k l) ≡ sum_sizes l
unfolding promote sum_sizes
sum_sizes-promote k l h = ground (arith, sum_sizes-without k l h)

pub sum_sizes-assign :
    (k : Bytes) (w : ℕ) (l : List Entry)
    → Distinct l
    → lookup k l ≢ none
    → sum_sizes (assign k w l) + or_zero (lookup k l) ≡ sum_sizes l + w
unfolding sum_sizes lookup assign
sum_sizes-assign k w [] h t = absurd (t refl)
sum_sizes-assign k w ((j, v) ∷ l) h t =
    ground (arith, sum_sizes-assign k w l h.1, assign-absent k w l, bytes_eq_iff j k, h.0, t)

pub lookup-le-sum_sizes : (k : Bytes) (l : List Entry) → or_zero (lookup k l) ≤ sum_sizes l
unfolding sum_sizes lookup
lookup-le-sum_sizes k [] = omega arith
lookup-le-sum_sizes k ((j, v) ∷ l) = ground (arith, lookup-le-sum_sizes k l)

pub sum_sizes-append : (xs ys : List Entry) → sum_sizes (xs ++ ys) ≡ sum_sizes xs + sum_sizes ys
unfolding sum_sizes
sum_sizes-append [] ys = omega arith
sum_sizes-append ((k, v) ∷ xs) ys = omega (arith, sum_sizes-append xs ys)

module _ {ℓ} {A : Type ℓ} where
  pub last?-eq-none : (l : List A) → last? l ≡ none → l ≡ []
  last?-eq-none [] h = refl
  last?-eq-none (x ∷ []) h = cc
  last?-eq-none (x ∷ y ∷ l) h = cc (last?-eq-none (y ∷ l) h)

  pub last?-eq-some : (l : List A) (a : A) → last? l ≡ some a → l ≡ init l ++ a ∷ []
  last?-eq-some [] a h = cc
  last?-eq-some (x ∷ []) a h = cc
  last?-eq-some (x ∷ y ∷ l) a h = ap (λ t. x ∷ t) (last?-eq-some (y ∷ l) a h)

-- Every size is a `u64`.
abbrev pub SizesFit : List Entry → Type 0
SizesFit = All (λ e. e.1 < u64_mod)

pub lookup-SizesFit : (k : Bytes) (l : List Entry) → SizesFit l → or_zero (lookup k l) < u64_mod
unfolding lookup
lookup-SizesFit k [] h = omega arith
lookup-SizesFit k ((j, v) ∷ l) h = ground (arith, lookup-SizesFit k l h.1, h.0)

pub without-SizesFit : (k : Bytes) (l : List Entry) → SizesFit l → SizesFit (without k l)
unfolding without
without-SizesFit k [] h = tt
without-SizesFit k ((j, v) ∷ l) h = ground (arith, without-SizesFit k l h.1, h.0)

pub assign-SizesFit :
    (k : Bytes) (w : ℕ) (l : List Entry) → w < u64_mod → SizesFit l → SizesFit (assign k w l)
unfolding assign
assign-SizesFit k w [] f h = tt
assign-SizesFit k w ((j, v) ∷ l) f h = ground (arith, assign-SizesFit k w l f h.1, h.0)

pub promote-SizesFit : (k : Bytes) (l : List Entry) → SizesFit l → SizesFit (promote k l)
unfolding promote
promote-SizesFit k l h = ground (arith, without-SizesFit k l h, lookup-SizesFit k l h)

pub init-SizesFit : (l : List Entry) → SizesFit l → SizesFit (init l)
init-SizesFit [] h = tt
init-SizesFit (e ∷ []) h = tt
init-SizesFit (e ∷ f ∷ l) h = (h.0, init-SizesFit (f ∷ l) h.1)

pub last-SizesFit : (l : List Entry) (e : Entry) → SizesFit l → last? l ≡ some e → e.1 < u64_mod
last-SizesFit [] e h q = cc
last-SizesFit (x ∷ []) e h q = ground (arith, h.0)
last-SizesFit (x ∷ y ∷ l) e h q = last-SizesFit (y ∷ l) e h.1 q

-- The last entry and those before it share the sum.
pub sum_sizes-init :
    (l : List Entry) (e : Entry) → last? l ≡ some e → sum_sizes (init l) + e.1 ≡ sum_sizes l
unfolding sum_sizes
sum_sizes-init [] e q = cc
sum_sizes-init (x ∷ []) e q = ground arith
sum_sizes-init (x ∷ y ∷ l) e q = omega (arith, sum_sizes-init (y ∷ l) e q)

pub length-init {ℓ} :
    {A : Type ℓ} (l : List A) (a : A) → last? l ≡ some a → suc (length (init l)) ≡ length l
length-init [] a h = cc
length-init (x ∷ []) a h = refl
length-init (x ∷ y ∷ l) a h = ap suc (length-init (y ∷ l) a h)

pub length-without :
    (k : Bytes) (l : List Entry)
    → Distinct l
    → lookup k l ≢ none
    → suc (length (without k l)) ≡ length l
unfolding without lookup
length-without k [] h t = absurd (t refl)
length-without k ((j, v) ∷ l) h t =
    ground (arith, length-without k l h.1, without-absent k l, bytes_eq_iff j k, h.0, t)

pub length-promote : (k : Bytes) (l : List Entry) → Distinct l → length (promote k l) ≡ length l
unfolding promote
length-promote k l h = ground (arith, length-without k l h)
