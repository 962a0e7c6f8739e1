-- ===== src/Base/Words.antt =====
-- `uint64_t` values as native numbers below 2 ^ 64, with the operators of C.
use Prim.Native.Nat.{ℕ, zero, suc, ◌+◌, ◌-◌, ◌*◌, ◌/◌, ◌%◌, ◌^◌, bit_and, bit_or}
use mathlib.Core.Bool.{Bool}
use fast_memory_allocator.Base.Tests.{◌==◌, if◌then◌else◌}

abbrev pub word_size : ℕ
word_size = 2 ^ 64

-- Reduction to the width of `uint64_t`, `size_t` and `uintptr_t`.
abbrev pub u64 : ℕ → ℕ
u64 n = n % 2 ^ 64

-- `a - b` of unsigned words: `-` on ℕ stops at 0, so the modulus is added first.
abbrev pub sub64 : ℕ → ℕ → ℕ
sub64 a b = u64 (a + 2 ^ 64 - b)

-- `~x`
abbrev pub not64 : ℕ → ℕ
not64 x = 2 ^ 64 - 1 - x

-- UINT64_MAX and SIZE_MAX
abbrev pub max64 : ℕ
max64 = 2 ^ 64 - 1

-- Whether bit `i` of `w` is set.
unfoldable pub bit : ℕ → ℕ → Bool
bit w zero = (w % 2) == 1
bit w (suc i) = bit (w / 2) i

-- The number of trailing zeros among the lowest `n` bits.
unfoldable pub trailing_zeros : ℕ → ℕ → ℕ
trailing_zeros zero w = 0
trailing_zeros (suc n) w = if (w % 2) == 1 then 0 else suc (trailing_zeros n (w / 2))

-- `__builtin_ctzll`, which is undefined at 0 and never called there.
unfoldable pub ctz64 : ℕ → ℕ
ctz64 w = trailing_zeros 64 w

-- `UINT64_C(1) << i` at i < 64
abbrev pub bit_mask : ℕ → ℕ
bit_mask i = u64 (2 ^ i)

-- `w | (1 << i)` and `w & ~(1 << i)`
unfoldable pub set_bit : ℕ → ℕ → ℕ
set_bit w i = bit_or w (bit_mask i)

unfoldable pub clear_bit : ℕ → ℕ → ℕ
clear_bit w i = bit_and w (not64 (bit_mask i))

-- `w & (UINT64_MAX << i)`
unfoldable pub keep_from : ℕ → ℕ → ℕ
keep_from w i = bit_and w (u64 (max64 * 2 ^ i))
