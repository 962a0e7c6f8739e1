-- ===== src/Base/Bits/Mask.antt =====
-- `&` with a mask of low ones, or with the complement of one, as arithmetic.
use Prim.Native.Nat.{ℕ, zero, suc, ◌+◌, ◌-◌, ◌*◌, ◌/◌, ◌%◌, ◌^◌, ◌≤◌, ◌<◌, bit_and}
use mathlib.Core.Path.{◌≡◌, ap, ◌∙◌}
use native.Mathlib.Nat.{pow-suc, one-le-pow, div-add-mod, mod-lt, mod-eq_of_lt}
use native.Mathlib.Nat.{mul-add-mod_self_left, div-div-eq-div-mul}
use native.Mathlib.Omega.{arith}
use fast_memory_allocator.Base.Bits.{bit_and_step}

bit_and-zero : (n a : ℕ) → a ≤ n → bit_and a 0 ≡ 0
bit_and-zero zero a h = let e : a ≡ 0 = omega arith in rw e
bit_and-zero (suc n) a h = omega (arith, bit_and_step a 0, bit_and-zero n (a / 2) (omega arith))

mod_double : (m a : ℕ) → 0 < m → a % (2 * m) ≡ 2 * (a / 2 % m) + a % 2
mod_double m a pos =
    let r = 2 * (a / 2 % m) + a % 2 in
    let parts : a ≡ 2 * m * (a / 2 / m) + r = omega (arith, div-add-mod (a / 2) m) in
    let small : r < 2 * m = omega (arith, mod-lt (a / 2) pos) in
    ap (λ t. t % (2 * m)) parts ∙ mul-add-mod_self_left (2 * m) (a / 2 / m) r ∙ mod-eq_of_lt small

-- `a & (2^k - 1)`
pub bit_and_low : (k a : ℕ) → bit_and a (2 ^ k - 1) ≡ a % 2 ^ k
bit_and_low zero a = rw (bit_and-zero a a (omega arith)) (omega arith)
bit_and_low (suc k) a =
    let e : (2 ^ suc k - 1) / 2 ≡ 2 ^ k - 1 = omega (arith, pow-suc 2 k, one-le-pow k 2) in
    let odd : (2 ^ suc k - 1) % 2 ≡ 1 = omega (arith, pow-suc 2 k, one-le-pow k 2) in
    let double : 2 ^ suc k ≡ 2 * 2 ^ k = omega (arith, pow-suc 2 k) in
    rw
      (
        bit_and_step,
        e,
        odd,
        bit_and_low k (a / 2),
        double,
        mod_double (2 ^ k) a (one-le-pow k 2 (omega arith)),
      )
      (omega arith)

-- `a & ~(2^k - 1)` at width `m`
pub bit_and_high :
    (k n m a : ℕ) → n + k ≡ m → a < 2 ^ m → bit_and a (2 ^ m - 2 ^ k) ≡ a / 2 ^ k * 2 ^ k
bit_and_high zero n m a e h = rw (bit_and_low m a, mod-eq_of_lt h) (omega arith)
bit_and_high (suc k) n zero a e h = absurd (omega arith)
bit_and_high (suc k) n (suc m) a e h =
    let half : (2 ^ suc m - 2 ^ suc k) / 2 ≡ 2 ^ m - 2 ^ k =
      omega (arith, pow-suc 2 k, pow-suc 2 m) in
    let even : (2 ^ suc m - 2 ^ suc k) % 2 ≡ 0 = omega (arith, pow-suc 2 k, pow-suc 2 m) in
    let double : 2 ^ suc k ≡ 2 * 2 ^ k = omega (arith, pow-suc 2 k) in
    let rest = bit_and_high k n m (a / 2) (omega arith) (omega (arith, pow-suc 2 m)) in
    rw (bit_and_step, half, even, rest, double, ← div-div-eq-div-mul a 2 (2 ^ k)) (omega arith)
