-- ===== src/Base/Bits/Step.antt =====
-- The equation of `bit_or` and `bit_and` for the lowest digit.
use Prim.Native.Nat.{min, max, digits, bitwise, bit_and-bitwise, bit_or-bitwise}
use Prim.Native.Nat.{ℕ, zero, suc, ◌+◌, ◌-◌, ◌*◌, ◌/◌, ◌%◌, ◌≤◌, bit_and, bit_or}
use mathlib.Core.Path.{◌≡◌, refl, ◌∙◌}
use native.Mathlib.Omega.{arith}

-- `bitwise z f a b` reads the binary digits of both numbers with `a` rounds of fuel. More rounds
-- than that change nothing.
module _ (z : ℕ → ℕ) (f : ℕ → ℕ → ℕ) where
  one_more_round : (n a b : ℕ) → a ≤ n → digits z f (suc n) a b ≡ digits z f n a b
  one_more_round zero zero b h = refl
  one_more_round (suc n) zero b h = refl
  one_more_round zero (suc a) b h = absurd (omega arith)
  one_more_round (suc n) (suc a) b h = rw (one_more_round n (suc a / 2) (b / 2) (omega arith))

  more_rounds : (k n m a b : ℕ) → a ≤ n → n + k ≡ m → digits z f m a b ≡ digits z f n a b
  more_rounds zero n m a b h e = let e' : m ≡ n = omega arith in rw e'
  more_rounds (suc k) n zero a b h e = absurd (omega arith)
  more_rounds (suc k) n (suc m) a b h e =
      one_more_round m a b (omega arith) ∙ more_rounds k n m a b h (omega arith)

  halved :
      (v w : ℕ)
      → bitwise z f (suc v) w ≡ f (suc v % 2) (w % 2) + 2 * bitwise z f (suc v / 2) (w / 2)
  halved v w =
      let h = suc v / 2 in
      let same : digits z f v h (w / 2) ≡ digits z f h h (w / 2) =
        more_rounds (v - h) h v h (w / 2) (omega arith) (omega arith) in
      omega (arith, same)

pub bit_or_step : (v w : ℕ) → bit_or v w ≡ max (v % 2) (w % 2) + 2 * bit_or (v / 2) (w / 2)
bit_or_step zero w = omega (arith, bit_or-bitwise zero w, bit_or-bitwise zero (w / 2))
bit_or_step (suc v) w =
    let whole = bit_or-bitwise (suc v) w in
    let rest = bit_or-bitwise (suc v / 2) (w / 2) in
    omega (arith, whole, rest, halved (λ (d : ℕ). d) max v w)

pub bit_and_step : (v w : ℕ) → bit_and v w ≡ min (v % 2) (w % 2) + 2 * bit_and (v / 2) (w / 2)
bit_and_step zero w = omega (arith, bit_and-bitwise zero w, bit_and-bitwise zero (w / 2))
bit_and_step (suc v) w =
    let whole = bit_and-bitwise (suc v) w in
    let rest = bit_and-bitwise (suc v / 2) (w / 2) in
    omega (arith, whole, rest, halved (λ (d : ℕ). 0) min v w)

pub zero-bit_and : (b : ℕ) → bit_and 0 b ≡ 0
zero-bit_and b = bit_and-bitwise 0 b
