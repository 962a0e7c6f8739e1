-- ===== src/Span/Blocks.antt =====
-- The free blocks that the bitmaps of a span stand for, and when the bitmaps are well-formed.
use fast_memory_allocator.Base.{
  ℕ, ◌/◌, ◌%◌, ◌^◌, ◌≤◌, ◌<◌, ◌≡◌, Bool, true, not, arith, ◌==◌, if◌then◌else◌, count, update,
}
use fast_memory_allocator.Base.Words.{bit}
use fast_memory_allocator.Base.Bits.Mask.{bit_and_low}
use fast_memory_allocator.Span.{Span, bitmap_bit_index}

-- Whether block `b` is free: bit `b % 64` of word `b / 64`.
unfoldable pub bit_of : (ℕ → ℕ) → ℕ → Bool
bit_of words b = bit (words (b / 64)) (b % 64)

abbrev pub is_free : Span → ℕ → Bool
is_free s b = bit_of s.block_bitmap b

-- Of a span in use: the words are 64 bits wide, the upper level marks the words that are not
-- empty, only blocks of the span are marked, and `free_count` counts them.
pub record IsWellFormed (s : Span) : Type 0 where
  pub count_le : s.block_count ≤ 4096
  pub words_fit : (w : ℕ) → w < 64 → s.block_bitmap w < 2 ^ 64
  pub nonfull_fits : s.nonfull_bitmap < 2 ^ 64
  pub nonfull_marks : (w : ℕ) → w < 64 → bit s.nonfull_bitmap w ≡ not (s.block_bitmap w == 0)
  pub within : (b : ℕ) → b < 4096 → is_free s b ≡ true → b < s.block_count
  pub counted : s.free_count ≡ count s.block_count (is_free s)

pub bit_index_lem : (b : ℕ) → bitmap_bit_index b ≡ b % 64
bit_index_lem b = bit_and_low 6 b

pub bit_of-update :
    (words : ℕ → ℕ) (w v b : ℕ)
    → bit_of (update words w v) b ≡ (if w == b / 64 then bit v (b % 64) else bit_of words b)
unfolding bit_of
bit_of-update words w v b = ground arith
