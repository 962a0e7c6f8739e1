-- ===== src/PageBins/Stack.antt =====
-- A bin is a stack: taking out the span that was put in last gives the bins back.
use fast_memory_allocator.Base.{ℕ, ◌/◌, ◌^◌, ◌<◌, ◌≡◌, ◌≢◌, false, arith, update, fun_ext, ap}
use fast_memory_allocator.Base.Words.{bit, set_bit, clear_bit}
use fast_memory_allocator.Base.Bits.Word.{
  bit-set_bit, bit-clear_bit, set_bit-lt, clear_bit-lt, word_ext64,
}
use fast_memory_allocator.Span.{Ptr, null}
use fast_memory_allocator.Span.Blocks.{bit_of, bit_index_lem}
use fast_memory_allocator.Span.Free.{set_bit_self}
use fast_memory_allocator.PageBins.{
  PageBins, page_bit_index, mark_binned_span_non_empty, mark_binned_span_empty,
}
use fast_memory_allocator.PageBins.Fit.{is_marked}
use fast_memory_allocator.PageBins.Marks.{IsTracked, with_head}

clear-set_bit : (w i : ℕ) → w < 2 ^ 64 → i < 64 → bit w i ≡ false → clear_bit (set_bit w i) i ≡ w
clear-set_bit w i h lt off =
    word_ext64 _ w (clear_bit-lt _ i (set_bit-lt w i h lt)) h
      λ j jlt. ground (arith, bit-set_bit w i j, bit-clear_bit (set_bit w i) i j)

module _ (b : PageBins) (tracked : IsTracked b) (n : ℕ) (lt : n < 8193) (p : Ptr) where
  abbrev added : PageBins
  added = mark_binned_span_non_empty n (with_head n p b)

  abbrev word : ℕ
  word = b.non_empty_bitmap (n / 2 ^ 6)

  marked_lem : bit word (page_bit_index n) ≡ is_marked b n
  unfolding bit_of
  marked_lem = ap (bit word) (bit_index_lem n)

  -- The bin was empty.
  pub take_last :
      b.uninitialized_span_bin n ≡ null
      → mark_binned_span_empty n (with_head n (b.uninitialized_span_bin n) added) ≡ b
  unfolding mark_binned_span_empty mark_binned_span_non_empty
  take_last empty = λ i. record { uninitialized_span_bin = heads i; non_empty_bitmap = words i }
    where
      heads :
          update (update b.uninitialized_span_bin n p) n (b.uninitialized_span_bin n)
          ≡ b.uninitialized_span_bin
      heads = fun_ext λ j. ground arith

      words :
          (mark_binned_span_empty n
            (with_head n (b.uninitialized_span_bin n) added)).non_empty_bitmap
          ≡ b.non_empty_bitmap
      words = fun_ext λ j. ground (
        arith,
        marked_lem,
        tracked.marks n,
        tracked.words_fit (n / 64),
        bit_index_lem n,
        clear-set_bit word (page_bit_index n),
      )

  -- The bin held a span.
  pub take_next :
      b.uninitialized_span_bin n ≢ null → with_head n (b.uninitialized_span_bin n) added ≡ b
  unfolding mark_binned_span_non_empty
  take_next more = λ i. record { uninitialized_span_bin = heads i; non_empty_bitmap = words i }
    where
      heads :
          update (update b.uninitialized_span_bin n p) n (b.uninitialized_span_bin n)
          ≡ b.uninitialized_span_bin
      heads = fun_ext λ j. ground arith

      words : added.non_empty_bitmap ≡ b.non_empty_bitmap
      words = fun_ext λ j. ground (
        arith,
        marked_lem,
        tracked.marks n,
        tracked.words_fit (n / 64),
        bit_index_lem n,
        set_bit_self word (page_bit_index n),
      )
