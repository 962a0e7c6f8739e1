-- ===== src/Span.antt =====
-- src/span.h: a span, and its blocks as two levels of bitmaps; with the part of
-- `cmalloc_initialize_span` (src/span.c) that fills the bitmaps.
pub mod Blocks
pub mod Allocate
pub mod Free
pub mod Initialize
pub mod Exhaust
pub mod Tests
use fast_memory_allocator.Base.{
  ℕ, zero, suc, ◌+◌, ◌-◌, ◌*◌, ◌/◌, ◌^◌, bit_and, Bool, true, false, ◌&&◌, ◌||◌, Option, none, some,
  ltb, leb, ◌==◌, if◌then◌else◌, update,
}
use fast_memory_allocator.Base.Words.{u64, sub64, max64, bit_mask, ctz64, set_bit, clear_bit}

-- An address; 0 is NULL.
abbrev pub Ptr : Type 0
Ptr = ℕ

abbrev pub null : Ptr
null = 0

-- `size_class_index` is `none` for LARGE_CLASS_SIZE_INDEX. `block_bitmap` has 64 words.
pub record Span : Type 0 where
  pub phys_next : Ptr
  pub phys_prev : Ptr
  pub next_in_uninitialized_bin : Ptr
  pub base : Ptr
  pub page_count : ℕ
  pub is_initialized : Bool
  pub size_class_index : Option ℕ
  pub block_size : ℕ
  pub block_count : ℕ
  pub free_count : ℕ
  pub nonfull_bitmap : ℕ
  pub block_bitmap : ℕ → ℕ
  pub next_in_size_class_bin : Ptr
  pub prev_in_size_class_bin : Ptr

-- SPAN_BLOCK_BITMAP_WORD_COUNT
abbrev pub bitmap_word_count : ℕ
bitmap_word_count = 64

-- SPAN_BLOCK_BITMAP_WORD_INDEX and SPAN_BLOCK_BITMAP_BIT_INDEX
abbrev pub bitmap_word_index : ℕ → ℕ
bitmap_word_index block_index = block_index / 2 ^ 6

abbrev pub bitmap_bit_index : ℕ → ℕ
bitmap_bit_index block_index = bit_and block_index 63

-- The block that `allocate_block` takes: the lowest set bit of the first word that is not empty.
unfoldable pub first_block_index : Span → ℕ
first_block_index s =
    let word_index = ctz64 s.nonfull_bitmap in
    let bit_index = ctz64 (s.block_bitmap word_index) in
    u64 (bit_index + u64 (word_index * bitmap_word_count))

unfoldable pub mark_allocated : ℕ → ℕ → Span → Span
mark_allocated word_index block_index s =
    let word = clear_bit (s.block_bitmap word_index) (bitmap_bit_index block_index) in
    record s {
      free_count = sub64 s.free_count 1;
      block_bitmap = update s.block_bitmap word_index word;
      nonfull_bitmap =
          if word == 0
          then clear_bit s.nonfull_bitmap (bitmap_bit_index word_index)
          else s.nonfull_bitmap;
    }

unfoldable pub allocate_block : Span → Ptr × Span
allocate_block s =
    if s.nonfull_bitmap == 0
    then (null, s)
    else let block_index = first_block_index s in
      (
        u64 (s.base + u64 (block_index * s.block_size)),
        mark_allocated (ctz64 s.nonfull_bitmap) block_index s,
      )

-- `none` is undefined behaviour: a block size of 0, or a block beyond the bitmap.
unfoldable pub free_block : Ptr → Span → Option Span
free_block block s =
    let block_index = sub64 block s.base / s.block_size in
    let word_index = bitmap_word_index block_index in
    if (s.block_size == 0) || leb bitmap_word_count word_index
    then none
    else some (record s {
      free_count = u64 (s.free_count + 1);
      block_bitmap =
          update s.block_bitmap word_index
            (set_bit (s.block_bitmap word_index) (bitmap_bit_index block_index));
      nonfull_bitmap = set_bit s.nonfull_bitmap (bitmap_bit_index word_index);
    })

-- The word that `cmalloc_initialize_span` stores at `word_index`.
unfoldable pub free_blocks : ℕ → ℕ → ℕ → ℕ
free_blocks word_count blocks_in_last_word word_index =
    if (word_index == word_count - 1) && ltb blocks_in_last_word 64
    then sub64 (bit_mask blocks_in_last_word) 1
    else max64

-- Its loop over the words from `word_index`, with `left` of them to fill.
unfoldable pub fill_words : ℕ → ℕ → ℕ → ℕ → Span → Span
fill_words word_count blocks_in_last_word zero word_index s = s
fill_words word_count blocks_in_last_word (suc left) word_index s =
    fill_words word_count blocks_in_last_word left (word_index + 1) (record s {
      block_bitmap =
          update s.block_bitmap word_index (free_blocks word_count blocks_in_last_word word_index);
      nonfull_bitmap = set_bit s.nonfull_bitmap (bitmap_bit_index word_index);
    })

-- What it does from `free_count` on, for a span whose block size and count are set. The loop that
-- clears all 64 words is the constant function.
unfoldable pub initialize_blocks : Span → Span
initialize_blocks s =
    let word_count = u64 (s.block_count + 63) / 64 in
    let blocks_in_last_word = sub64 s.block_count (sub64 word_count 1 * 64) in
    fill_words word_count blocks_in_last_word word_count 0
      (record s { free_count = s.block_count; nonfull_bitmap = 0; block_bitmap = λ i. 0 })
