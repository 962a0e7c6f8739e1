-- ===== src/SpanHeap/Initialize.antt =====
-- What `cmalloc_initialize_span` makes of the pages it gets.
use fast_memory_allocator.Base.{
  ℕ, ◌≤◌, ◌<◌, ◌≡◌, ◌≢◌, refl, sym, ap, subst, ◌∙◌, true, arith, Option, none, some, ◌==◌,
  update_at, no_result, result, on_equal, on_then, on_either,
}
use fast_memory_allocator.Common.{Runtime, class_size, class_block_count}
use fast_memory_allocator.Common.Classes.{class_rows}
use fast_memory_allocator.Span.{Ptr, null, Span, initialize_blocks}
use fast_memory_allocator.Span.Blocks.{IsWellFormed}
use fast_memory_allocator.Span.Initialize.{initialize_blocks-IsWellFormed}
use fast_memory_allocator.RangeMap.{Allocator}
use fast_memory_allocator.SpanHeap.{
  Mapper, SpanHeap, set_sizes, span_size, alloc_span, cmalloc_initialize_span,
}

-- LARGE_CLASS_SIZE_INDEX, or one of the 48 classes.
pub data IsClassIndex : Option ℕ → Type 0 where
  large : IsClassIndex none
  small : {i : ℕ} → i < 48 → IsClassIndex (some i)

-- The block size and the number of blocks for a class, or for a large request.
pub data HasSizes (requested_size : ℕ) (s : Span) : Option ℕ → Type 0 where
  one_block : s.block_size ≡ requested_size → s.block_count ≡ 1 → HasSizes requested_size s none
  blocks :
      {i : ℕ}
      → s.block_size ≡ class_size i
      → s.block_count ≡ class_block_count i
      → HasSizes requested_size s (some i)

-- A span in use of which no block has been taken yet.
pub record IsFresh (size_class_index : Option ℕ) (requested_size : ℕ) (s : Span) : Type 0 where
  pub well_formed : IsWellFormed s
  pub all_free : s.free_count ≡ s.block_count
  pub some_free : 0 < s.free_count
  pub in_use : s.is_initialized ≡ true
  pub class_same : s.size_class_index ≡ size_class_index
  pub sizes : HasSizes requested_size s size_class_index

set_sizes_lem :
    {size_class_index : Option ℕ} (requested_size : ℕ) (s : Span)
    → IsClassIndex size_class_index
    → HasSizes requested_size (set_sizes size_class_index requested_size s) size_class_index
unfolding set_sizes
set_sizes_lem requested_size s large = one_block refl refl
set_sizes_lem requested_size s (small h) = blocks refl refl

sizes_same :
    {requested_size : ℕ} {c : Option ℕ} {s t : Span}
    → t.block_size ≡ s.block_size
    → t.block_count ≡ s.block_count
    → HasSizes requested_size s c
    → HasSizes requested_size t c
sizes_same size count (one_block b e) = one_block (size ∙ b) (count ∙ e)
sizes_same size count (blocks b e) = blocks (size ∙ b) (count ∙ e)

module _ (requested_size : ℕ) (size_class_index : Option ℕ) (t : Span)
    (known : IsClassIndex size_class_index)
    (sized : HasSizes requested_size t size_class_index) where
  count_bounds : (0 < t.block_count) × (t.block_count ≤ 4096)
  count_bounds = bounds known sized
    where
      bounds :
          {c : Option ℕ}
          → IsClassIndex c
          → HasSizes requested_size t c
          → (0 < t.block_count) × (t.block_count ≤ 4096)
      bounds large (one_block b e) = (omega (arith, e), omega (arith, e))
      bounds (small {i} h) (blocks b e) =
          let rows = class_rows i h in (ground (arith, e, rows), ground (arith, e, rows))

  -- The bitmaps are filled for the sizes that the span has.
  initialize_blocks-IsFresh :
      t.is_initialized ≡ true
      → t.size_class_index ≡ size_class_index
      → IsFresh size_class_index requested_size (initialize_blocks t)
  initialize_blocks-IsFresh used same =
      let (wf, free, bits, shape) =
        initialize_blocks-IsWellFormed t count_bounds.0 count_bounds.1 in
      let rest = shape.rest_same in
      let count = sym (ap (λ (u : Span). u.block_count) rest) in
      record {
        well_formed = wf;
        all_free = free ∙ sym count;
        some_free = omega (arith, free, count_bounds.0);
        in_use = sym (ap (λ (u : Span). u.is_initialized) rest) ∙ used;
        class_same = sym (ap (λ (u : Span). u.size_class_index) rest) ∙ same;
        sizes = sizes_same (sym (ap (λ (u : Span). u.block_size) rest)) count sized;
      }

module _ (a : Allocator) (o : Mapper) (r : Runtime) where
  -- A span that `cmalloc_initialize_span` returns is not NULL, and at its address is a well-formed
  -- span in use with the sizes of the class, or with one block of the requested size, of which all
  -- blocks are free.
  pub cmalloc_initialize_span-IsFresh :
      (size_class_index : Option ℕ) (requested_size : ℕ) (w w' : SpanHeap a o) (p : Ptr)
      → IsClassIndex size_class_index
      → cmalloc_initialize_span a o r size_class_index requested_size w ≡ some (p, w')
      → (p ≢ null) × IsFresh size_class_index requested_size (w'.spans p)
  unfolding cmalloc_initialize_span
  cmalloc_initialize_span-IsFresh size_class_index requested_size w w' p known e =
      on_equal {P = λ (q, v). (q ≢ null) × IsFresh size_class_index requested_size (v.spans q)} e (
        on_then (alloc_span a o r (span_size size_class_index requested_size) w) λ (q, w1).
          on_either (q == null) (λ fails. no_result)
            λ real.
              let s = set_sizes size_class_index requested_size (w1.spans q) in
              let t : Span = record s {
                is_initialized = true;
                size_class_index = size_class_index;
              } in
              let sized = sizes_same refl refl (set_sizes_lem requested_size (w1.spans q) known) in
              result (
                ground (arith, real),
                subst (IsFresh size_class_index requested_size)
                    (sym (update_at w1.spans q (initialize_blocks t)))
                    (initialize_blocks-IsFresh requested_size size_class_index t known sized refl
                      refl),
              ))
