-- ===== src/PageBins/Marks.antt =====
-- The bitmap marks exactly the bins that hold a span: what putting a span into a bin and taking one
-- out keep.
use fast_memory_allocator.Base.{
  ℕ, ◌/◌, ◌%◌, ◌^◌, ◌≤◌, ◌<◌, ◌≡◌, ◌≢◌, refl, true, false, not, arith, ◌==◌, if◌then◌else◌,
  Bool-cases, ==_iff, inl, inr, update,
}
use fast_memory_allocator.Base.Bits.Word.{bit-set_bit, bit-clear_bit, set_bit-lt, clear_bit-lt}
use fast_memory_allocator.Span.{Ptr, null}
use fast_memory_allocator.Span.Blocks.{bit_of, bit_index_lem}
use fast_memory_allocator.PageBins.{
  PageBins, page_bit_index, no_fitting_page_sequence, mark_binned_span_non_empty,
  mark_binned_span_empty, find_best_fitting_uninitialized_span,
}
use fast_memory_allocator.PageBins.Fit.{
  is_marked, IsBestFit, fits, no_fit, find_best_fitting_uninitialized_span-IsBestFit,
}

pub record IsTracked (b : PageBins) : Type 0 where
  pub words_fit : (w : ℕ) → w < 129 → b.non_empty_bitmap w < 2 ^ 64
  pub marks : (n : ℕ) → n < 8193 → is_marked b n ≡ not (b.uninitialized_span_bin n == null)

pub is_marked-non_empty :
    (b : PageBins) (n m : ℕ)
    → is_marked (mark_binned_span_non_empty n b) m ≡ (if n == m then true else is_marked b m)
unfolding mark_binned_span_non_empty bit_of
is_marked-non_empty b n m =
    simp bit_index_lem (ground (arith, bit-set_bit (b.non_empty_bitmap (n / 64)) (n % 64) (m % 64)))

pub is_marked-empty :
    (b : PageBins) (n m : ℕ)
    → is_marked (mark_binned_span_empty n b) m ≡ (if n == m then false else is_marked b m)
unfolding mark_binned_span_empty bit_of
is_marked-empty b n m =
    simp bit_index_lem
      (ground (arith, bit-clear_bit (b.non_empty_bitmap (n / 64)) (n % 64) (m % 64)))

-- The bins with another head for one of them.
abbrev pub with_head : ℕ → Ptr → PageBins → PageBins
with_head n p b = record b { uninitialized_span_bin = update b.uninitialized_span_bin n p }

module _ (b : PageBins) (tracked : IsTracked b) (n : ℕ) where
  pub non_empty-IsTracked :
      (p : Ptr) → p ≢ null → IsTracked (mark_binned_span_non_empty n (with_head n p b))
  unfolding mark_binned_span_non_empty
  non_empty-IsTracked p ne = record {
    words_fit = λ w lt. ground (
      arith,
      tracked.words_fit w,
      bit_index_lem n,
      set_bit-lt (b.non_empty_bitmap (n / 64)) (page_bit_index n),
    );
    marks = λ m lt. ground (arith, is_marked-non_empty (with_head n p b) n m, tracked.marks m);
  }

  pub empty-IsTracked : IsTracked (mark_binned_span_empty n (with_head n null b))
  unfolding mark_binned_span_empty
  empty-IsTracked = record {
    words_fit = λ w lt.
        ground (
          arith,
          tracked.words_fit w,
          clear_bit-lt (b.non_empty_bitmap (n / 64)) (page_bit_index n),
        );
    marks = λ m lt. ground (arith, is_marked-empty (with_head n null b) n m, tracked.marks m);
  }

  pub with_head-IsTracked :
      (p : Ptr) → p ≢ null → b.uninitialized_span_bin n ≢ null → IsTracked (with_head n p b)
  with_head-IsTracked p ne old = record {
    words_fit = tracked.words_fit;
    marks = λ m lt. ground (arith, tracked.marks m);
  }

data IsFit (b : PageBins) (n r : ℕ) : Type 0 where
  fit : r < 8193 → n ≤ r → b.uninitialized_span_bin r ≢ null → IsFit b n r
  none_left : r ≡ no_fitting_page_sequence → IsFit b n r

of_best : (b : PageBins) (n r : ℕ) → IsTracked b → IsBestFit b n r → IsFit b n r
of_best b n r tracked (fits lt le on before) = fit lt le (ground (arith, tracked.marks r))
of_best b n r tracked (no_fit clear) = none_left refl

-- The bin that the search finds is not empty.
pub find-nonempty :
    (b : PageBins) (n : ℕ)
    → IsTracked b
    → n < 8193
    → find_best_fitting_uninitialized_span n b ≢ no_fitting_page_sequence
    → (b.uninitialized_span_bin (find_best_fitting_uninitialized_span n b) ≢ null)
      × (n ≤ find_best_fitting_uninitialized_span n b)
      × (find_best_fitting_uninitialized_span n b < 8193)
find-nonempty b n tracked lt ne =
    elim (of_best b n _ tracked
      (find_best_fitting_uninitialized_span-IsBestFit b n tracked.words_fit lt)) [
        | fit below le head ↦ (head, le, below)
        | none_left e ↦ elim (ne e) [ ]
      ]

-- A marked bin is the best fit for its own page count.
exact_fit : (b : PageBins) (n r : ℕ) → n < 8193 → is_marked b n ≡ true → IsBestFit b n r → r ≡ n
exact_fit b n r lt on (fits below le there before) = ground (arith, before n)
exact_fit b n r lt on (no_fit clear) = ground (arith, clear n)

pub find_self :
    (b : PageBins) (n : ℕ)
    → ((w : ℕ) → w < 129 → b.non_empty_bitmap w < 2 ^ 64)
    → n < 8193
    → is_marked b n ≡ true
    → find_best_fitting_uninitialized_span n b ≡ n
find_self b n words lt on =
    exact_fit b n _ lt on (find_best_fitting_uninitialized_span-IsBestFit b n words lt)

-- The bins after the first span of bin `n`, which is linked to `next`, has been taken out.
abbrev pub popped : ℕ → Ptr → PageBins → PageBins
popped n next b =
    if next == null then mark_binned_span_empty n (with_head n next b) else with_head n next b

pub popped-IsTracked :
    (b : PageBins) (n : ℕ) (next : Ptr)
    → IsTracked b
    → b.uninitialized_span_bin n ≢ null
    → IsTracked (popped n next b)
popped-IsTracked b n next tracked ne = elim (Bool-cases (next == null)) [
  | inl last ↦ rw (last, (==_iff next null).0 last) (empty-IsTracked b tracked n)
  | inr more ↦ rw more (with_head-IsTracked b tracked n next (ground arith) ne)
]

-- The heads of the bins after a span has been taken out or put in.
pub head-popped :
    (b : PageBins) (n m : ℕ) (next : Ptr)
    → (popped n next b).uninitialized_span_bin m
      ≡ (if n == m then next else b.uninitialized_span_bin m)
unfolding mark_binned_span_empty
head-popped b n m next = ground arith

abbrev pub pushed : ℕ → Ptr → PageBins → PageBins
pushed n p b = mark_binned_span_non_empty n (with_head n p b)

pub head-pushed :
    (b : PageBins) (n m : ℕ) (p : Ptr)
    → (pushed n p b).uninitialized_span_bin m ≡ (if n == m then p else b.uninitialized_span_bin m)
unfolding mark_binned_span_non_empty
head-pushed b n m p = refl
