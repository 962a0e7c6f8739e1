-- ===== src/Base/Bits/Word.antt =====
-- The bit operations of 64-bit words, index by index.
use Prim.Native.Nat.{ℕ, suc, ◌-◌, ◌*◌, ◌^◌, ◌<◌}
use mathlib.Core.Path.{◌≡◌}
use mathlib.Core.Logic.{◌≢◌}
use mathlib.Core.Bool.{true, false, ◌&&◌}
use native.Mathlib.Nat.{pow-suc, one-le-pow, pow-le-pow_right, mod-eq_of_lt}
use native.Mathlib.Omega.{arith}
use fast_memory_allocator.Base.Tests.{leb, ◌==◌, if◌then◌else◌}
use fast_memory_allocator.Base.Words.{
  u64, max64, bit_mask, bit, ctz64, set_bit, clear_bit, keep_from,
}
use fast_memory_allocator.Base.Bits.{
  bit-bit_or, bit-bit_and, bit-pow, bit_complement, bit_ones, bit_or-lt, bit_and-lt, bit-zero,
  trailing_zeros_lem, below_trailing_zeros, word_ext,
}

pub pow-lt : (i : ℕ) → i < 64 → 2 ^ i < 2 ^ 64
pow-lt i h =
    omega (arith, pow-suc 2 i, one-le-pow i 2, pow-le-pow_right {n = 2} (omega arith) {i = suc i} h)

pub bit_mask_lem : (i : ℕ) → i < 64 → bit_mask i ≡ 2 ^ i
bit_mask_lem i h = mod-eq_of_lt (pow-lt i h)

pub bit-set_bit : (w i j : ℕ) → i < 64 → bit (set_bit w i) j ≡ (if i == j then true else bit w j)
unfolding set_bit
bit-set_bit w i j h = rw (bit_mask_lem i h, bit-bit_or, bit-pow) (ground arith)

pub bit-clear_bit :
    (w i j : ℕ) → i < 64 → j < 64 → bit (clear_bit w i) j ≡ (if i == j then false else bit w j)
unfolding clear_bit
bit-clear_bit w i j h hj =
    rw (bit_mask_lem i h, bit-bit_and, bit_complement 64 (2 ^ i) j (pow-lt i h) hj, bit-pow)
      (ground arith)

pub set_bit-lt : (w i : ℕ) → w < 2 ^ 64 → i < 64 → set_bit w i < 2 ^ 64
unfolding set_bit
set_bit-lt w i h hi = bit_or-lt 64 w (bit_mask i) h (omega arith)

pub clear_bit-lt : (w i : ℕ) → w < 2 ^ 64 → clear_bit w i < 2 ^ 64
unfolding clear_bit
clear_bit-lt w i h = bit_and-lt 64 w _ h

pub keep_from-lt : (w i : ℕ) → w < 2 ^ 64 → keep_from w i < 2 ^ 64
unfolding keep_from
keep_from-lt w i h = bit_and-lt 64 w _ h

-- `UINT64_MAX << i` has its `i` low bits clear.
max_shifted : (i : ℕ) → i < 64 → u64 (max64 * 2 ^ i) ≡ 2 ^ 64 - 1 - (2 ^ i - 1)
max_shifted i h = omega (arith, pow-lt i h, one-le-pow i 2)

pub bit-keep_from : (w i j : ℕ) → i < 64 → j < 64 → bit (keep_from w i) j ≡ (bit w j && leb i j)
unfolding keep_from
bit-keep_from w i j h hj =
    rw
      (
        max_shifted i h,
        bit-bit_and,
        bit_complement 64 (2 ^ i - 1) j (omega (arith, pow-lt i h)) hj,
        bit_ones,
      )
      (ground arith)

-- `__builtin_ctzll` of a word that is not 0 is the index of its lowest set bit.
pub ctz64_lem : (w : ℕ) → w < 2 ^ 64 → w ≢ 0 → (ctz64 w < 64) × (bit w (ctz64 w) ≡ true)
unfolding ctz64
ctz64_lem w h ne = trailing_zeros_lem 64 w h ne

pub below_ctz64 : (w i : ℕ) → i < ctz64 w → bit w i ≡ false
unfolding ctz64
below_ctz64 w i h = below_trailing_zeros 64 w i h

-- A word with a set bit is not 0.
pub ne-zero_of_bit : (w i : ℕ) → bit w i ≡ true → w ≢ 0
ne-zero_of_bit w i h e = let clear : bit w i ≡ false = rw e (bit-zero i) in ground arith

pub word_ext64 :
    (v w : ℕ) → v < 2 ^ 64 → w < 2 ^ 64 → ((i : ℕ) → i < 64 → bit v i ≡ bit w i) → v ≡ w
word_ext64 v w hv hw same = word_ext 64 v w hv hw same
