-- ===== src/Base/Bits.antt =====
-- The bits of words: what `|`, `&`, `~` and the shifts do to each, and what `ctz` finds.
mod Step
pub mod Word
pub mod Mask
pub use Step.{bit_or_step, bit_and_step, zero-bit_and}
use Prim.Native.Nat.{ℕ, zero, suc, ◌+◌, ◌-◌, ◌*◌, ◌/◌, ◌%◌, ◌^◌, ◌≤◌, ◌<◌, bit_and, bit_or}
use mathlib.Core.Path.{◌≡◌, refl, ap, ◌∙◌}
use mathlib.Core.Logic.{◌≢◌, inl, inr}
use mathlib.Core.Bool.{Bool, true, false, not, ◌&&◌, ◌||◌}
use native.Mathlib.Nat.{pow-suc, one-le-pow}
use native.Mathlib.Omega.{arith}
use fast_memory_allocator.Base.Tests.{ltb, ◌==◌, Bool-cases}
use fast_memory_allocator.Base.Words.{bit, trailing_zeros}

pub bit-bit_or : (a b i : ℕ) → bit (bit_or a b) i ≡ (bit a i || bit b i)
unfolding bit
bit-bit_or a b zero = ground (arith, bit_or_step a b)
bit-bit_or a b (suc i) =
    let e : bit_or a b / 2 ≡ bit_or (a / 2) (b / 2) = omega (arith, bit_or_step a b) in
    rw e (bit-bit_or (a / 2) (b / 2) i)

pub bit-bit_and : (a b i : ℕ) → bit (bit_and a b) i ≡ (bit a i && bit b i)
unfolding bit
bit-bit_and a b zero = ground (arith, bit_and_step a b)
bit-bit_and a b (suc i) =
    let e : bit_and a b / 2 ≡ bit_and (a / 2) (b / 2) = omega (arith, bit_and_step a b) in
    rw e (bit-bit_and (a / 2) (b / 2) i)

pub bit-zero : (i : ℕ) → bit 0 i ≡ false
unfolding bit
bit-zero zero = refl
bit-zero (suc i) = bit-zero i

-- A power of two has one bit.
pub bit-pow : (k i : ℕ) → bit (2 ^ k) i ≡ (k == i)
unfolding bit
bit-pow zero zero = refl
bit-pow zero (suc i) = bit-zero i ∙ ground arith
bit-pow (suc k) zero = ground (arith, pow-suc 2 k)
bit-pow (suc k) (suc i) =
    let e : 2 ^ suc k / 2 ≡ 2 ^ k = omega (arith, pow-suc 2 k) in rw e (bit-pow k i ∙ ground arith)

-- `~x` at width `n`.
pub bit_complement : (n x i : ℕ) → x < 2 ^ n → i < n → bit (2 ^ n - 1 - x) i ≡ not (bit x i)
unfolding bit
bit_complement zero x i h lt = absurd (omega arith)
bit_complement (suc n) x zero h lt = ground (arith, pow-suc 2 n, one-le-pow n 2)
bit_complement (suc n) x (suc i) h lt =
    let e : (2 ^ suc n - 1 - x) / 2 ≡ 2 ^ n - 1 - x / 2 = omega (arith, pow-suc 2 n) in
    rw e (bit_complement n (x / 2) i (omega (arith, pow-suc 2 n)) (omega arith))

-- The words below stay below 2 ^ 64.
pub bit_or-lt : (n a b : ℕ) → a < 2 ^ n → b < 2 ^ n → bit_or a b < 2 ^ n
bit_or-lt zero a b ha hb =
    let za : a ≡ 0 = omega arith in let zb : b ≡ 0 = omega arith in rw (za, zb) (omega arith)
bit_or-lt (suc n) a b ha hb = omega (
  arith,
  bit_or_step a b,
  pow-suc 2 n,
  bit_or-lt n (a / 2) (b / 2) (omega (arith, pow-suc 2 n)) (omega (arith, pow-suc 2 n)),
)

pub bit_and-lt : (n a b : ℕ) → a < 2 ^ n → bit_and a b < 2 ^ n
bit_and-lt zero a b ha = let za : a ≡ 0 = omega arith in rw (za, zero-bit_and) (omega arith)
bit_and-lt (suc n) a b ha = omega (
  arith,
  bit_and_step a b,
  pow-suc 2 n,
  bit_and-lt n (a / 2) (b / 2) (omega (arith, pow-suc 2 n)),
)

-- Words with the same bits are equal.
pub word_ext : (n v w : ℕ) → v < 2 ^ n → w < 2 ^ n → ((i : ℕ) → i < n → bit v i ≡ bit w i) → v ≡ w
unfolding bit
word_ext zero v w hv hw same = omega arith
word_ext (suc n) v w hv hw same =
    let half : v / 2 ≡ w / 2 =
      word_ext n (v / 2) (w / 2) (omega (arith, pow-suc 2 n)) (omega (arith, pow-suc 2 n))
        (λ i lt. same (suc i) (omega arith)) in
    ground (arith, same 0)

-- The bits of a mask of `k` ones.
pub bit_ones : (k i : ℕ) → bit (2 ^ k - 1) i ≡ ltb i k
unfolding bit
bit_ones zero i = bit-zero i ∙ ground arith
bit_ones (suc k) zero = ground (arith, pow-suc 2 k, one-le-pow k 2)
bit_ones (suc k) (suc i) =
    let e : (2 ^ suc k - 1) / 2 ≡ 2 ^ k - 1 = omega (arith, pow-suc 2 k, one-le-pow k 2) in
    rw e (bit_ones k i ∙ ground arith)

-- `ctz` of a word that is not 0: its lowest set bit.
pub trailing_zeros_lem :
    (n w : ℕ) → w < 2 ^ n → w ≢ 0 → (trailing_zeros n w < n) × (bit w (trailing_zeros n w) ≡ true)
unfolding trailing_zeros bit
trailing_zeros_lem zero w h ne = absurd (ne (omega arith))
trailing_zeros_lem (suc n) w h ne = elim (Bool-cases ((w % 2) == 1)) [
  | inl odd ↦ rw odd (omega arith, odd)
  | inr even ↦
      let rest = trailing_zeros_lem n (w / 2) (omega (arith, pow-suc 2 n)) (ground arith) in
      rw even (omega (arith, rest), rest.1)
]

pub below_trailing_zeros : (n w i : ℕ) → i < trailing_zeros n w → bit w i ≡ false
unfolding trailing_zeros bit
below_trailing_zeros zero w i h = absurd (omega arith)
below_trailing_zeros (suc n) w zero h = ground arith
below_trailing_zeros (suc n) w (suc i) h = below_trailing_zeros n (w / 2) i (ground arith)
