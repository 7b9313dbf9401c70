-- ===== src/Prelude/Word.antt =====
-- Machine integers: the ranges of int32 and int64, and the wrap-around of Go's arithmetic on them.
use Prim.Native.Nat.{ℕ, ◌+◌, ◌-◌, ◌%◌, ◌≤◌, ◌<◌}
use mathlib.Core.Path.{◌≡◌, refl}
use mathlib.Core.Logic.{◌↔◌}
use mathlib.Core.Bool.{Bool, true, ◌&&◌}
use native.Mathlib.Omega.{arith}
use go2bank.Prelude.Tests.{ltb, leb, if◌then◌else◌}
use go2bank.Prelude.Int.{ℤ, pos, negsuc, pos_part, neg_part, sub_ℕ, ◌*ℤ◌, neg}

-- The integer that the low bits of `a` stand for, where `modulus` is 2 ^ width.
unfoldable pub wrap : ℕ → ℤ → ℤ
wrap modulus a =
    let r = (pos_part a % modulus + (modulus - neg_part a % modulus)) % modulus in
    if ltb (r + r) modulus then pos r else sub_ℕ r modulus

abbrev pub int32_mod : ℕ
int32_mod = 4294967296

abbrev pub int64_mod : ℕ
int64_mod = 18446744073709551616

-- `-a` and `a * b` as Go computes them.
unfoldable pub neg_int64 : ℤ → ℤ
unfolding wrap neg
neg_int64 a = wrap int64_mod (neg a)

unfoldable pub mul_int32 : ℤ → ℤ → ℤ
unfolding wrap ◌*ℤ◌
mul_int32 a b = wrap int32_mod (a *ℤ b)

abbrev pub IsInt64 : ℤ → Type 0
IsInt64 a = (pos_part a < 9223372036854775808) × (neg_part a ≤ 9223372036854775808)

unfoldable pub in_int64 : ℤ → Bool
in_int64 a = ltb (pos_part a) 9223372036854775808 && leb (neg_part a) 9223372036854775808

-- A value that fits is left alone.
pub wrap_int64_exact : (a : ℤ) → IsInt64 a → wrap int64_mod a ≡ a
unfolding wrap
wrap_int64_exact (pos n) h = ground arith
wrap_int64_exact (negsuc n) h = ground arith

pub neg_int64_exact : (a : ℤ) → IsInt64 (neg a) → neg_int64 a ≡ neg a
unfolding neg_int64
neg_int64_exact a h = ground (arith, wrap_int64_exact (neg a) h)

pub in_int64_iff : (a : ℤ) → (in_int64 a ≡ true) ↔ IsInt64 a
unfolding in_int64
in_int64_iff a = ground arith

-- The least int64 is its own negation.
neg_int64_least : neg_int64 (negsuc 9223372036854775807) ≡ negsuc 9223372036854775807
unfolding neg_int64
neg_int64_least = refl
