-- ===== src/Cmalloc/ThreadTests.antt =====
-- Two threads, one of which frees the only block in use of a span in the other's bin.
use fast_memory_allocator.Base.{◌<◌, ◌≡◌, refl, arith, false, some, ◌==◌, if◌then◌else◌}
use fast_memory_allocator.Base.Words.{ctz64, trailing_zeros, set_bit, clear_bit}
use fast_memory_allocator.Span.{
  null, allocate_block, mark_allocated, first_block_index, initialize_blocks, fill_words,
  free_blocks,
}
use fast_memory_allocator.Cmalloc.Tests.{
  bump, ample, runtime, heap, found, one_taken, one_taken_fields,
}
use fast_memory_allocator.Cmalloc.Threads.{Process, cfree_of, IsLastOfBin, cfree_of-foreign}

-- The bin of thread 0 has the span at 64, that of thread 1 another one.
abbrev both : Process bump ample
both = record {
  spans = heap.spans;
  bins = λ t i. if i == 2 then (if t == 0 then 64 else 128) else null;
  memory = heap.memory;
}

one_taken_alone :
    (one_taken.prev_in_size_class_bin ≡ null)
    × (one_taken.next_in_size_class_bin ≡ null)
    × (one_taken.page_count < 8193)
unfolding allocate_block mark_allocated first_block_index initialize_blocks fill_words free_blocks
    ctz64 trailing_zeros set_bit clear_bit
one_taken_alone = (refl, refl, omega arith)

both-IsLastOfBin : IsLastOfBin runtime 2 64 65536 both.spans
both-IsLastOfBin =
    let (free, count, base, size, cls) = one_taken_fields in
    record {
      given = omega arith;
      found = found 65536;
      real = omega arith;
      class_eq = cls;
      some_free = omega (arith, free);
      prev = one_taken_alone.0;
      next = one_taken_alone.1;
      small = one_taken_alone.2;
      size_pos = omega (arith, size);
      in_bitmap = rw (base, size) (omega arith);
      last = rw (free, count) refl;
    }

cfree_of-foreign_example :
    (s' : Process bump ample) × (cfree_of bump ample runtime 1 65536 both ≡ some s')
    × (s'.spans.bins.uninitialized_span_bin one_taken.page_count ≡ 64)
    × ((s'.spans.spans 64).is_initialized ≡ false)
    × (s'.bins 0 2 ≡ 64)
    × (s'.bins 1 2 ≡ null)
cfree_of-foreign_example =
    cfree_of-foreign runtime both 0 1 2 64 65536 (omega arith) refl both-IsLastOfBin
