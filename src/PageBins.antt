-- ===== src/PageBins.antt =====
-- src/span.c: the bins of cached spans by page count, the bitmap of the bins that are not empty, and
-- the search for the closest fit.
pub mod Fit
pub mod Marks
pub mod Stack
pub mod Tests
use fast_memory_allocator.Base.{
  ℕ, zero, suc, ◌+◌, ◌-◌, ◌*◌, ◌/◌, ◌^◌, bit_and, Bool, true, false, ltb, leb, ◌==◌, if◌then◌else◌,
  update,
}
use fast_memory_allocator.Base.Words.{max64, ctz64, set_bit, clear_bit, keep_from}
use fast_memory_allocator.Span.{Ptr}

abbrev pub max_binned_pages : ℕ
max_binned_pages = 8193

abbrev pub free_bitmap_words : ℕ
free_bitmap_words = (max_binned_pages + 63) / 2 ^ 6

-- NO_FITTING_PAGE_SEQUENCE, (size_t) -1
abbrev pub no_fitting_page_sequence : ℕ
no_fitting_page_sequence = max64

-- `uninitilized_span_bin`, the head of each bin's list, and `non_empty_bitmap`.
pub record PageBins : Type 0 where
  pub uninitialized_span_bin : ℕ → Ptr
  pub non_empty_bitmap : ℕ → ℕ

-- PAGE_BITMAP_WORD_INDEX and PAGE_BITMAP_BIT_INDEX
abbrev pub page_word_index : ℕ → ℕ
page_word_index page_count = page_count / 2 ^ 6

abbrev pub page_bit_index : ℕ → ℕ
page_bit_index page_count = bit_and page_count 63

unfoldable pub mark_binned_span_non_empty : ℕ → PageBins → PageBins
mark_binned_span_non_empty page_count b =
    let word_index = page_word_index page_count in
    record b {
      non_empty_bitmap =
          update b.non_empty_bitmap word_index
            (set_bit (b.non_empty_bitmap word_index) (page_bit_index page_count));
    }

unfoldable pub mark_binned_span_empty : ℕ → PageBins → PageBins
mark_binned_span_empty page_count b =
    let word_index = page_word_index page_count in
    record b {
      non_empty_bitmap =
          update b.non_empty_bitmap word_index
            (clear_bit (b.non_empty_bitmap word_index) (page_bit_index page_count));
    }

-- The answer for the first word that is not 0.
unfoldable pub first_in_word : ℕ → ℕ → ℕ
first_in_word word_index word =
    let result = word_index * 64 + ctz64 word in
    if ltb result max_binned_pages then result else no_fitting_page_sequence

-- What stands for the answer where the search reads past `non_empty_bitmap`: it is no size_t.
abbrev pub past_bitmap : ℕ
past_bitmap = 2 ^ 64

-- `non_empty_bitmap[word_index]` is read, and the search goes on to `answer`.
unfoldable pub read_word : ℕ → ℕ → ℕ
read_word word_index answer = if ltb word_index free_bitmap_words then answer else past_bitmap

-- The loop from `word_index` on, for as many rounds as there is fuel. One round for each word of the
-- bitmap is enough.
unfoldable pub scan_words : ℕ → (ℕ → ℕ) → ℕ → ℕ → ℕ
scan_words zero bitmap word_index word = past_bitmap
scan_words (suc fuel) bitmap word_index word =
    let next = word_index + 1 in
    let rest = scan_words fuel bitmap next (bitmap next) in
    if word == 0
    then (if leb free_bitmap_words next then no_fitting_page_sequence else read_word next rest)
    else first_in_word word_index word

unfoldable pub find_best_fitting_uninitialized_span : ℕ → PageBins → ℕ
find_best_fitting_uninitialized_span page_count b =
    let word_index = page_word_index page_count in
    read_word word_index (
      scan_words free_bitmap_words b.non_empty_bitmap word_index
        (keep_from (b.non_empty_bitmap word_index) (page_bit_index page_count)))
