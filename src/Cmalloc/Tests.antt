-- ===== src/Cmalloc/Tests.antt =====
-- A thread whose bin of the class of 48 bytes holds one or two spans.
use fast_memory_allocator.Base.{
  absent_nil, absent_cons, ℕ, suc, ◌+◌, ◌*◌, ◌^◌, ◌<◌, ◌≡◌, refl, arith, true, Option, none, some,
  [], ◌∷◌, ◌==◌, if◌then◌else◌, ◌>>=◌,
}
use fast_memory_allocator.Base.Words.{ctz64, trailing_zeros, set_bit, clear_bit}
use fast_memory_allocator.Span.Allocate.{allocate_block_cases}
use fast_memory_allocator.Common.{Runtime, get_size_class_index}
use fast_memory_allocator.Span.{
  Ptr, null, Span, allocate_block, initialize_blocks, mark_allocated, first_block_index, fill_words,
  free_blocks,
}
use fast_memory_allocator.Span.Blocks.{IsWellFormed}
use fast_memory_allocator.Span.Initialize.{initialize_blocks-IsWellFormed}
use fast_memory_allocator.RangeMap.{Allocator, cmalloc_get}
use fast_memory_allocator.SpanHeap.{Mapper, cmalloc_get_span}
use fast_memory_allocator.Cmalloc.{
  Heap, cmalloc, cfree, ccalloc, bin_push, bin_remove, clear_bytes, from_class, from_bin, block_of,
}
use fast_memory_allocator.Cmalloc.RoundTrip.{IsPlaced, cfree-cmalloc}
use fast_memory_allocator.Cmalloc.Requests.{ccalloc_lem}
use fast_memory_allocator.Cmalloc.Bins.{IsBin, bin_nil, bin_cons, bin_push-IsBin}
use fast_memory_allocator.Cmalloc.Remove.{bin_remove-IsBin}

abbrev pub bump : Allocator
bump = record {
  Store = ℕ;
  alloc_metadata = λ size st. (suc st, suc st + size);
  free_metadata = λ p size st. st;
}

abbrev pub ample : Mapper
ample = record { Kernel = ℕ; mmap = λ len k. (k, k + len); munmap = λ p len k. k }

-- The table has class 2 throughout.
abbrev pub runtime : Runtime
runtime = record { page_size = 4096; page_shift = 12; size_class_table = λ i. 2 }

abbrev pub bare : Span
bare = record {
  phys_next = 0;
  phys_prev = 0;
  next_in_uninitialized_bin = 0;
  base = 65536;
  page_count = 1;
  is_initialized = true;
  size_class_index = some 2;
  block_size = 48;
  block_count = 80;
  free_count = 0;
  nonfull_bitmap = 0;
  block_bitmap = λ i. 0;
  next_in_size_class_bin = 0;
  prev_in_size_class_bin = 0;
}

abbrev pub fresh : Span
fresh = initialize_blocks bare

abbrev pub one_taken : Span
one_taken = (allocate_block fresh).1

-- The span at 64 is the only one in the bin, and every page leads to it.
abbrev pub heap : Heap bump ample
heap = record {
  spans = record {
    page_map = some (record {
      l1 = λ i.
          some (
            8192,
            record { l2 = λ j. some (16384, record { l3 = λ k. 64; count = 1 }); count = 1 },
          );
    });
    data_arena = [];
    bins = record { uninitialized_span_bin = λ n. null; non_empty_bitmap = λ w. 0 };
    spans = λ p. one_taken;
    store = 4096;
    kernel = 2 ^ 31;
  };
  thread_local_bin = λ i. if i == 2 then 64 else null;
  memory = λ addr. 7;
}

pub one_taken_fields :
    (one_taken.free_count ≡ 79)
    × (one_taken.block_count ≡ 80)
    × (one_taken.base ≡ 65536)
    × (one_taken.block_size ≡ 48)
    × (one_taken.size_class_index ≡ some 2)
unfolding allocate_block mark_allocated first_block_index initialize_blocks fill_words free_blocks
    ctz64 trailing_zeros set_bit clear_bit
one_taken_fields = (refl, refl, refl, refl, refl)

fresh_facts : IsWellFormed fresh × (fresh.free_count ≡ 80)
fresh_facts =
    let facts = initialize_blocks-IsWellFormed bare (omega arith) (omega arith) in
    (facts.0, facts.1)

one_taken-IsPlaced : IsPlaced one_taken
one_taken-IsPlaced =
    let (free, count, base, size, cls) = one_taken_fields in
    record {
      well_formed =
          ((allocate_block_cases fresh fresh_facts.0).0 (omega (arith, fresh_facts.1))).well_formed;
      size_pos = omega (arith, size);
      base_pos = omega (arith, base);
      fits = rw (base, count, size) (omega arith);
    }

class_of_40 : get_size_class_index runtime 40 ≡ some 2
unfolding get_size_class_index
class_of_40 = refl

pub found : (addr : ℕ) → cmalloc_get_span bump ample runtime addr heap.spans ≡ some 64
unfolding cmalloc_get_span cmalloc_get
found addr = refl

cfree-cmalloc_example :
    (cmalloc bump ample runtime 40 heap >>= λ (ptr, h'). cfree bump ample runtime ptr h')
    ≡ some heap
cfree-cmalloc_example =
    cfree-cmalloc bump ample runtime heap 40 2 64 class_of_40 refl (omega arith)
      (one_taken_fields.4) one_taken-IsPlaced (omega (arith, one_taken_fields.0))
      (omega (arith, one_taken_fields.0, one_taken_fields.1)) (found _)

abbrev ten_words : Option (Ptr × Heap bump ample)
ten_words = ccalloc bump ample runtime 10 4 heap

abbrev words_at : Ptr
words_at = 65584

abbrev after_words : Heap bump ample
after_words = elim ten_words [ none ↦ heap | some r ↦ r.1 ]

ten_words_run : ten_words ≡ some (words_at, after_words)
unfolding ccalloc cmalloc get_size_class_index from_class from_bin block_of allocate_block
    mark_allocated first_block_index initialize_blocks fill_words free_blocks ctz64 trailing_zeros
    set_bit clear_bit
ten_words_run = refl

ccalloc_lem_example :
    (10 * 4 < 2 ^ 64)
    × ((addr : ℕ) → after_words.memory addr ≡ clear_bytes words_at (10 * 4) heap.memory addr)
ccalloc_lem_example =
    ccalloc_lem bump ample runtime 10 4 heap after_words words_at ten_words_run (omega arith)

abbrev two_spans : Heap bump ample
two_spans = bin_push bump ample 2 128 heap

one_span-IsBin : IsBin heap.spans.spans null 64 (64 ∷ [])
unfolding allocate_block mark_allocated initialize_blocks fill_words set_bit
one_span-IsBin = bin_cons (omega arith) absent_nil refl refl bin_nil

two_spans-IsBin : IsBin two_spans.spans.spans null (two_spans.thread_local_bin 2) (128 ∷ 64 ∷ [])
two_spans-IsBin =
    bin_push-IsBin bump ample 2 heap 128 (64 ∷ []) (omega arith)
      (absent_cons (omega arith) absent_nil) one_span-IsBin

-- The second of the two spans is removed.
abbrev one_left : Heap bump ample
one_left = bin_remove bump ample 2 64 two_spans

bin_remove-IsBin_example : IsBin one_left.spans.spans null (one_left.thread_local_bin 2) (128 ∷ [])
bin_remove-IsBin_example = bin_remove-IsBin bump ample 2 two_spans (128 ∷ []) 64 [] two_spans-IsBin
