-- ===== src/Common/Classes.antt =====
-- The size-class tables of src/common.h: facts about all 48 rows, checked row by row.
use fast_memory_allocator.Base.{
  ℕ, zero, suc, ◌+◌, ◌/◌, ◌%◌, ◌≤◌, ◌<◌, ◌≡◌, refl, Bool, true, ◌&&◌, arith, ltb, leb, ◌==◌, ltb→lt,
  Bool-cases, ==_iff, inl, inr,
}
use mathlib.Core.Path.{subst}
use native.Mathlib.Numerals.{add-one}
use fast_memory_allocator.Common.{class_size, class_span_size, class_block_count}

all_below : ℕ → (ℕ → Bool) → Bool
all_below zero p = true
all_below (suc n) p = p n && all_below n p

all_below_elim : (n : ℕ) (p : ℕ → Bool) (x : ℕ) → all_below n p ≡ true → x < n → p x ≡ true
unfolding all_below
all_below_elim zero p x h lt = absurd (omega arith)
all_below_elim (suc n) p x h lt = ground (arith, all_below_elim n p x)

-- One row: a size that is a multiple of 16, and as many blocks as fit the span, at least two of
-- them and at most MAX_SPAN_BLOCK_COUNT; the span is a multiple of 64 KiB.
row_ok : ℕ → Bool
row_ok i =
    (class_size i % 16 == 0)
    && ltb 0 (class_size i)
    && (class_block_count i == class_span_size i / class_size i)
    && leb 2 (class_block_count i)
    && leb (class_block_count i) 4096
    && (class_span_size i % 65536 == 0)
    && ltb 0 (class_span_size i)

rows_ok : all_below 48 row_ok ≡ true
unfolding all_below row_ok class_size class_span_size class_block_count
rows_ok = refl

-- Of every size class the block size is a positive multiple of 16, the span a positive multiple of
-- 64 KiB, and the block count the number of blocks that fit the span, between 2 and 4096.
pub class_rows :
    (i : ℕ)
    → i < 48
    → (0 < class_size i)
      × (class_size i % 16 ≡ 0)
      × (0 < class_span_size i)
      × (class_span_size i % 65536 ≡ 0)
      × (class_block_count i ≡ class_span_size i / class_size i)
      × (2 ≤ class_block_count i)
      × (class_block_count i ≤ 4096)
unfolding row_ok
class_rows i h = let row = all_below_elim 48 row_ok i rows_ok h in ground arith

-- The sizes increase.
increase_ok : all_below 47 (λ i. ltb (class_size i) (class_size (i + 1))) ≡ true
unfolding all_below class_size
increase_ok = refl

pub class_size_step : (i : ℕ) → i < 47 → class_size i < class_size (i + 1)
class_size_step i h =
    ltb→lt _ _ (all_below_elim 47 (λ i. ltb (class_size i) (class_size (i + 1))) i increase_ok h)

pub class_size_mono : (i j : ℕ) → i ≤ j → j < 48 → class_size i ≤ class_size j
class_size_mono i zero h lt = let e : i ≡ 0 = omega arith in rw e (omega arith)
class_size_mono i (suc j) h lt = elim (Bool-cases (i == suc j)) [
  | inl same ↦ let e : i ≡ suc j = (==_iff i (suc j)).0 same in rw e (omega arith)
  | inr before ↦
      let step : class_size j < class_size (suc j) =
        subst (λ t. class_size j < class_size t) (add-one j) (class_size_step j (omega arith)) in
      omega (arith, step, class_size_mono i j (ground arith) (omega arith))
]

pub largest_class : class_size 47 ≡ 32768
unfolding class_size
largest_class = refl
