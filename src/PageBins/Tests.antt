-- ===== src/PageBins/Tests.antt =====
-- Searches of bins with a few marks.
use fast_memory_allocator.Base.{ℕ, ◌^◌, ◌<◌, ◌≡◌, refl, arith, ◌==◌, if◌then◌else◌, [], ◌∷◌}
use fast_memory_allocator.Base.Words.{ctz64, keep_from, set_bit, clear_bit, trailing_zeros}
use fast_memory_allocator.Span.{null}
use fast_memory_allocator.PageBins.{
  PageBins, mark_binned_span_non_empty, mark_binned_span_empty, first_in_word, scan_words,
  read_word, find_best_fitting_uninitialized_span, no_fitting_page_sequence,
}
use fast_memory_allocator.PageBins.Fit.{IsBestFit, find_best_fitting_uninitialized_span-IsBestFit}

-- Bins of 70 and of 8192 pages; the second is the last bin there is.
abbrev two_bins : PageBins
two_bins = record {
  uninitialized_span_bin = λ n. if n == 70 then 4096 else (if n == 8192 then 8192 else null);
  non_empty_bitmap = λ w. if w == 1 then 64 else (if w == 128 then 1 else 0);
}

searches :
    find_best_fitting_uninitialized_span 3 two_bins
      ∷ find_best_fitting_uninitialized_span 70 two_bins
      ∷ find_best_fitting_uninitialized_span 71 two_bins
      ∷ find_best_fitting_uninitialized_span 8192 two_bins
      ∷ find_best_fitting_uninitialized_span 71 (mark_binned_span_empty 8192 two_bins)
      ∷ find_best_fitting_uninitialized_span 3 (mark_binned_span_non_empty 5 two_bins)
      ∷ []
    ≡ (70 ∷ 70 ∷ 8192 ∷ 8192 ∷ no_fitting_page_sequence ∷ 5 ∷ [])
unfolding find_best_fitting_uninitialized_span scan_words read_word first_in_word
    mark_binned_span_empty mark_binned_span_non_empty keep_from ctz64 clear_bit set_bit
    trailing_zeros
searches = refl

two_bins_fit : (w : ℕ) → w < 129 → two_bins.non_empty_bitmap w < 2 ^ 64
two_bins_fit w lt = ground arith

find_best_fitting_uninitialized_span-IsBestFit_example :
    IsBestFit two_bins 3 (find_best_fitting_uninitialized_span 3 two_bins)
find_best_fitting_uninitialized_span-IsBestFit_example =
    find_best_fitting_uninitialized_span-IsBestFit two_bins 3 two_bins_fit (omega arith)
