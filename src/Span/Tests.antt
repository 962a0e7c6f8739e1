-- ===== src/Span/Tests.antt =====
-- A span of three blocks of 48 bytes: runs of the block operations, and the theorems about them.
use fast_memory_allocator.Base.{ℕ, ◌≡◌, refl, arith, false, some, [], ◌∷◌, ◌++◌, ltb}
use fast_memory_allocator.Base.Words.{bit, ctz64, trailing_zeros, set_bit, clear_bit}
use fast_memory_allocator.Span.{
  Span, null, allocate_block, free_block, initialize_blocks, fill_words, free_blocks,
  first_block_index, mark_allocated,
}
use fast_memory_allocator.Span.Blocks.{IsWellFormed, is_free, bit_of}
use fast_memory_allocator.Span.Allocate.{
  IsAllocation, allocate_block-IsAllocation, allocate_block_cases, SameShape,
}
use fast_memory_allocator.Span.Free.{IsGivenBack, free_block-IsGivenBack, free-allocate}
use fast_memory_allocator.Span.Initialize.{initialize_blocks-IsWellFormed}
use fast_memory_allocator.Span.Exhaust.{take_blocks, take_blocks-initialize, consecutive}

abbrev bare : Span
bare = record {
  phys_next = 0;
  phys_prev = 0;
  next_in_uninitialized_bin = 0;
  base = 65536;
  page_count = 1;
  is_initialized = false;
  size_class_index = some 2;
  block_size = 48;
  block_count = 3;
  free_count = 0;
  nonfull_bitmap = 0;
  block_bitmap = λ i. 0;
  next_in_size_class_bin = 0;
  prev_in_size_class_bin = 0;
}

abbrev fresh : Span
fresh = initialize_blocks bare

addresses : take_blocks 4 fresh ≡ 65536 ∷ 65584 ∷ 65632 ∷ 0 ∷ []
unfolding take_blocks initialize_blocks fill_words free_blocks allocate_block first_block_index
    mark_allocated ctz64 trailing_zeros set_bit clear_bit
addresses = refl

fresh-IsWellFormed : IsWellFormed fresh
fresh-IsWellFormed = (initialize_blocks-IsWellFormed bare (omega arith) (omega arith)).0

initialize_blocks-IsWellFormed_example :
    IsWellFormed fresh
    × (fresh.free_count ≡ 3)
    × ((b : ℕ) → is_free fresh b ≡ ltb b 3)
    × SameShape bare fresh
initialize_blocks-IsWellFormed_example =
    initialize_blocks-IsWellFormed bare (omega arith) (omega arith)

allocate_block-IsAllocation_example : IsAllocation fresh (allocate_block fresh)
allocate_block-IsAllocation_example = allocate_block-IsAllocation fresh fresh-IsWellFormed

take_blocks-initialize_example : take_blocks 4 fresh ≡ consecutive 65536 48 0 3 ++ (null ∷ [])
take_blocks-initialize_example = take_blocks-initialize bare (omega arith) (omega arith)

free-allocate_example : free_block (allocate_block fresh).0 (allocate_block fresh).1 ≡ some fresh
unfolding initialize_blocks fill_words
free-allocate_example =
    free-allocate fresh fresh-IsWellFormed (omega arith) (omega arith) (omega arith)

-- The span with its first block handed out.
abbrev used : Span
used = (allocate_block fresh).1

used-IsWellFormed : IsWellFormed used
unfolding initialize_blocks fill_words
used-IsWellFormed = ((allocate_block_cases fresh fresh-IsWellFormed).0 (omega arith)).well_formed

-- The address is inside the block, 14 bytes from its start.
free_block-IsGivenBack_example : IsGivenBack used 0 (free_block 65550 used)
unfolding initialize_blocks fill_words free_blocks allocate_block first_block_index mark_allocated
    ctz64 trailing_zeros set_bit clear_bit bit_of bit
free_block-IsGivenBack_example =
    free_block-IsGivenBack used 0 65550 used-IsWellFormed (omega arith) refl (omega arith)
      (omega arith)
