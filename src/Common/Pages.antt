-- ===== src/Common/Pages.antt =====
-- The rounding functions of src/common.h, as arithmetic.
use native.Mathlib.Nat.{
  one-le-pow, pow-suc, pow-le-pow_right, mod-eq_of_lt, mod-lt, mul-mod_left, div-eq_of_lt,
  div-add-mod',
}
use fast_memory_allocator.Base.{
  ℕ, zero, suc, ◌+◌, ◌-◌, ◌*◌, ◌/◌, ◌%◌, ◌^◌, ◌≤◌, ◌<◌, bit_and, ◌≡◌, refl, ap, ◌∙◌, arith,
}
use fast_memory_allocator.Base.Words.{u64, sub64, not64, trailing_zeros}
use fast_memory_allocator.Base.Bits.Mask.{bit_and_high}
use fast_memory_allocator.Base.Bits.Word.{pow-lt}
use fast_memory_allocator.Common.{
  Runtime, get_system_page_shift, round_up_page, round_down_page, align_up, align_down,
}

-- The page size is a power of two, and the shift is its logarithm.
pub record IsPaged (r : Runtime) : Type 0 where
  pub shift_small : r.page_shift < 32
  pub size_eq : r.page_size ≡ 2 ^ r.page_shift

trailing_zeros-pow : (n k : ℕ) → k < n → trailing_zeros n (2 ^ k) ≡ k
unfolding trailing_zeros
trailing_zeros-pow zero k h = absurd (omega arith)
trailing_zeros-pow (suc n) zero h = refl
trailing_zeros-pow (suc n) (suc k) h =
    let half : 2 ^ suc k / 2 ≡ 2 ^ k = omega (arith, pow-suc 2 k) in
    let even : 2 ^ suc k % 2 ≡ 0 = omega (arith, pow-suc 2 k) in
    rw (even, half, trailing_zeros-pow n k (omega arith))

-- The shift of a page size that is a power of two.
pub get_system_page_shift-pow : (k : ℕ) → k < 32 → get_system_page_shift (2 ^ k) ≡ k
unfolding get_system_page_shift
get_system_page_shift-pow k h =
    let small : 2 ^ k < 2 ^ 32 =
      omega (
        arith,
        pow-suc 2 k,
        one-le-pow k 2,
        pow-le-pow_right {n = 2} (omega arith) {i = suc k} h,
      ) in
    rw (mod-eq_of_lt small) (trailing_zeros-pow 32 k h)

-- Masking with `~(2^k - 1)` drops the remainder by 2^k.
pub clear_low : (k a : ℕ) → k < 64 → a < 2 ^ 64 → bit_and a (not64 (2 ^ k - 1)) ≡ a / 2 ^ k * 2 ^ k
clear_low k a h ha =
    let mask : not64 (2 ^ k - 1) ≡ 2 ^ 64 - 2 ^ k = omega (arith, one-le-pow k 2, pow-lt k h) in
    rw mask (bit_and_high k (64 - k) 64 a (omega arith) ha)

module _ (r : Runtime) (p : IsPaged r) where
  page_mask : sub64 r.page_size 1 ≡ 2 ^ r.page_shift - 1
  page_mask = omega (
    arith,
    p.size_eq,
    p.shift_small,
    one-le-pow r.page_shift 2,
    pow-lt r.page_shift (omega (arith, p.shift_small)),
  )

  pub round_down_page_lem :
      (num : ℕ) → num < 2 ^ 64 → round_down_page r num ≡ num / r.page_size * r.page_size
  unfolding round_down_page
  round_down_page_lem num h =
      rw (page_mask, p.size_eq) (clear_low r.page_shift num (omega (arith, p.shift_small)) h)

  pub round_up_page_div :
      (num : ℕ) → round_up_page r num ≡ u64 (num + (r.page_size - 1)) / r.page_size * r.page_size
  unfolding round_up_page
  round_up_page_div num =
      rw (page_mask, p.size_eq)
        (clear_low r.page_shift _ (omega (arith, p.shift_small)) (omega arith))

  page_pos : 0 < r.page_size
  page_pos = omega (arith, p.size_eq, one-le-pow r.page_shift 2)

  -- Rounding up to pages gives the least multiple of the page size that is at least the number, as
  -- long as that multiple is below 2 ^ 64.
  pub round_up_page_lem :
      (num : ℕ)
      → num + r.page_size ≤ 2 ^ 64
      → (num ≤ round_up_page r num)
        × (round_up_page r num < num + r.page_size)
        × (round_up_page r num % r.page_size ≡ 0)
  round_up_page_lem num room =
      let a = num + (r.page_size - 1) in
      let whole : u64 a ≡ a = mod-eq_of_lt (omega (arith, page_pos)) in
      let result : round_up_page r num ≡ a / r.page_size * r.page_size =
        round_up_page_div num ∙ ap (λ t. t / r.page_size * r.page_size) whole in
      (
        omega (arith, result, div-add-mod' a r.page_size, mod-lt a page_pos),
        omega (arith, result, div-add-mod' a r.page_size, page_pos),
        rw result (mul-mod_left (a / r.page_size) r.page_size),
      )

  -- Past the last representable multiple of the page size the sum wraps round: every size within a
  -- page of 2 ^ 64 is rounded to 0.
  pub round_up_page_wraps :
      (num : ℕ) → num < 2 ^ 64 → 2 ^ 64 < num + r.page_size → round_up_page r num ≡ 0
  round_up_page_wraps num h past =
      let small : r.page_size < 2 ^ 64 =
        omega (arith, p.size_eq, pow-lt r.page_shift (omega (arith, p.shift_small))) in
      let low : u64 (num + (r.page_size - 1)) < r.page_size = omega (arith, small) in
      round_up_page_div num ∙ ap (λ t. t * r.page_size) (div-eq_of_lt low) ∙ omega arith

-- Alignment to 16 bytes: the least multiple of 16 at or above, and the greatest at or below.
pub align_lem :
    (val : ℕ)
    → val + 15 < 2 ^ 64
    → (val ≤ align_up val)
      × (align_up val < val + 16)
      × (align_up val % 16 ≡ 0)
      × (align_down val ≤ val)
      × (val < align_down val + 16)
      × (align_down val % 16 ≡ 0)
unfolding align_up align_down
align_lem val h =
    let up = clear_low 4 (u64 (val + 15)) (omega arith) (omega arith) in
    let down = clear_low 4 val (omega arith) (omega arith) in rw (up, down) (omega arith)
