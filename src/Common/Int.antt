-- ===== src/Common/Int.antt =====
-- Signed 64-bit integers: the integers over the native numbers, and the wrap-around of int64.
use Prim.Native.Nat.{ℕ, zero, suc, ◌+◌, ◌-◌, ◌/◌, ◌%◌, ◌<◌}
use mathlib.Core.Path.{◌≡◌}
use mathlib.Core.Bool.{Bool, true}
use native.Mathlib.Omega.{arith}
use rayavriti_netmonitor.Common.Tests.{ltb, leb, if◌then◌else◌}

-- `negsuc n` is -(n + 1).
pub data ℤ : Type 0 where
  pos : ℕ → ℤ
  negsuc : ℕ → ℤ

-- The int64 whose bit pattern is that of `n` modulo 2^64.
unfoldable pub to_int64 : ℕ → ℤ
to_int64 n =
    let bits = n % 18446744073709551616 in
    if ltb bits 9223372036854775808 then pos bits else negsuc (18446744073709551615 - bits)

pub to_int64-small : (n : ℕ) → n < 9223372036854775808 → to_int64 n ≡ pos n
unfolding to_int64
to_int64-small n h = ground arith

-- `a <= 0` and `a < n` for a non-negative `n`.
abbrev pub is_nonpositive : ℤ → Bool
is_nonpositive (pos n) = leb n 0
is_nonpositive (negsuc n) = true

abbrev pub ltb_pos : ℤ → ℕ → Bool
ltb_pos (pos n) m = ltb n m
ltb_pos (negsuc n) m = true

-- The value of a non-negative integer; a negative one counts as 0.
abbrev pub to_nat : ℤ → ℕ
to_nat (pos n) = n
to_nat (negsuc n) = 0

-- Go's `/` by a positive number: it truncates towards zero.
abbrev pub div_trunc : ℤ → ℕ → ℤ
div_trunc (pos n) m = pos (n / m)
div_trunc (negsuc n) m = elim (suc n / m) [ zero ↦ pos 0 | suc k ↦ negsuc k ]

-- `t.Add(d)` on a time counted in nanoseconds.
abbrev pub add_duration : ℕ → ℤ → ℕ
add_duration t (pos n) = t + n
add_duration t (negsuc n) = t - suc n
