-- ===== src/Base/Word.antt =====
-- `u64` arithmetic, as a release build computes it: it wraps.
use Prim.Native.Nat.{ℕ, ◌+◌, ◌-◌, ◌%◌, ◌^◌, ◌<◌}
use mathlib.Core.Path.{◌≡◌}
use native.Mathlib.Omega.{arith}

abbrev pub u64_mod : ℕ
u64_mod = 2 ^ 64

unfoldable pub add64 : ℕ → ℕ → ℕ
add64 a b = (a + b) % u64_mod

unfoldable pub sub64 : ℕ → ℕ → ℕ
sub64 a b = (a + u64_mod - b) % u64_mod

-- A running total that follows a sum keeps following it when a part `old` becomes `new`.
pub add64-sub64 :
    (s s' old new : ℕ)
    → s' + old ≡ s + new
    → old < u64_mod
    → add64 (sub64 (s % u64_mod) old) new ≡ s' % u64_mod
unfolding add64 sub64
add64-sub64 s s' old new e h = omega arith

pub sub64_lem :
    (s s' old : ℕ) → s' + old ≡ s → old < u64_mod → sub64 (s % u64_mod) old ≡ s' % u64_mod
unfolding sub64
sub64_lem s s' old e h = omega arith

pub add64_lem : (s new : ℕ) → add64 (s % u64_mod) new ≡ (s + new) % u64_mod
unfolding add64
add64_lem s new = omega arith
