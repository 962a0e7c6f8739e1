-- ===== src/Base/Count.antt =====
-- How many indices below a bound pass a test.
use Prim.Native.Nat.{ℕ, zero, suc, ◌+◌, ◌≤◌, ◌<◌}
use mathlib.Core.Path.{◌≡◌, refl}
use mathlib.Core.Logic.{◌≢◌, inl, inr}
use mathlib.Core.Bool.{Bool, true, false}
use native.Mathlib.Omega.{arith}
use fast_memory_allocator.Base.Tests.{if◌then◌else◌, Bool-cases, ◌==◌}

unfoldable pub count : ℕ → (ℕ → Bool) → ℕ
count zero p = 0
count (suc n) p = (if p n then 1 else 0) + count n p

pub count-le : (n : ℕ) (p : ℕ → Bool) → count n p ≤ n
unfolding count
count-le zero p = omega arith
count-le (suc n) p = ground (arith, count-le n p)

pub count_ext : (n : ℕ) (p q : ℕ → Bool) → ((i : ℕ) → i < n → p i ≡ q i) → count n p ≡ count n q
unfolding count
count_ext zero p q same = refl
count_ext (suc n) p q same = ground (arith, same n, count_ext n p q (λ i h. same i (omega arith)))

-- Turning one test from false to true adds one.
pub count_one_more :
    (n k : ℕ) (p q : ℕ → Bool)
    → k < n
    → p k ≡ false
    → q k ≡ true
    → ((i : ℕ) → k ≢ i → p i ≡ q i)
    → count n q ≡ count n p + 1
unfolding count
count_one_more zero k p q h pk qk same = absurd (omega arith)
count_one_more (suc n) k p q h pk qk same = elim (Bool-cases (k == n)) [
  | inl last ↦ ground (arith, count_ext n p q (λ i lt. same i (ground arith)))
  | inr more ↦ ground (arith, same n, count_one_more n k p q (ground arith) pk qk same)
]

pub count-false : (n : ℕ) (p : ℕ → Bool) → ((i : ℕ) → i < n → p i ≡ false) → count n p ≡ 0
unfolding count
count-false zero p none_hold = refl
count-false (suc n) p none_hold =
    ground (arith, none_hold n, count-false n p (λ i h. none_hold i (omega arith)))

pub count-true : (n : ℕ) (p : ℕ → Bool) → ((i : ℕ) → i < n → p i ≡ true) → count n p ≡ n
unfolding count
count-true zero p all_hold = refl
count-true (suc n) p all_hold =
    ground (arith, all_hold n, count-true n p (λ i h. all_hold i (omega arith)))

-- If the count is zero, no test below the bound holds.
pub count-zero_elim : (n i : ℕ) (p : ℕ → Bool) → count n p ≡ 0 → i < n → p i ≡ false
unfolding count
count-zero_elim zero i p e h = absurd (omega arith)
count-zero_elim (suc n) i p e h = elim (Bool-cases (i == n)) [
  | inl last ↦ ground arith
  | inr more ↦ count-zero_elim n i p (ground arith) (ground arith)
]

-- If the count is positive, some test below the bound holds.
pub count-pos_elim : (n : ℕ) (p : ℕ → Bool) → 0 < count n p → (i : ℕ) × (i < n) × (p i ≡ true)
unfolding count
count-pos_elim zero p pos = absurd (omega arith)
count-pos_elim (suc n) p pos = elim (Bool-cases (p n)) [
  | inl holds ↦ (n, omega arith, holds)
  | inr fails ↦ let (i, lt, holds) = count-pos_elim n p (ground arith) in (i, omega arith, holds)
]

pub count-pos : (n i : ℕ) (p : ℕ → Bool) → i < n → p i ≡ true → 0 < count n p
count-pos n i p lt holds = elim (Bool-cases (count n p == 0)) [
  | inl empty ↦ let fails = count-zero_elim n i p (ground arith) lt in ground arith
  | inr more ↦ ground arith
]
