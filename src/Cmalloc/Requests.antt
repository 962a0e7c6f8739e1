-- ===== src/Cmalloc/Requests.antt =====
-- src/cmalloc.c: `ccalloc` and its check for overflow. No function but `ccalloc` and `crealloc`
-- writes to user memory.
use native.Mathlib.Nat.{div-lt_iff_lt-mul, mod-eq_of_lt, mul_comm, zero-mul}
use fast_memory_allocator.Base.{
  ℕ, ◌*◌, ◌/◌, ◌%◌, ◌^◌, ◌≤◌, ◌<◌, ◌≡◌, ◌≢◌, refl, ap, ◌∙◌, true, not, ◌&&◌, arith, Option, none,
  some, ltb, leb, ◌==◌, OnResult, result, on_bind, on_then, on_either, on_equal, Bool-cases, ==_iff,
  inl, inr,
}
use fast_memory_allocator.Base.Words.{max64}
use fast_memory_allocator.Common.{Runtime, get_size_class_index}
use fast_memory_allocator.Span.{Ptr, null}
use fast_memory_allocator.RangeMap.{Allocator}
use fast_memory_allocator.SpanHeap.{Mapper, cmalloc_initialize_span}
use fast_memory_allocator.Cmalloc.{
  Heap, clear_bytes, bin_push, bin_remove, block_of, from_bin, from_new_span, from_large_span,
  from_class, cmalloc, ccalloc,
}

-- The test of `ccalloc` is whether the product is too large for size_t.
overflow_test :
    (num size : ℕ) → (not (num == 0) && ltb (max64 / num) size) ≡ leb (2 ^ 64) (num * size)
overflow_test num size = elim (Bool-cases (num == 0)) [
  | inl zero_num ↦
      let e : num ≡ 0 = (==_iff num 0).0 zero_num in rw e (ground (arith, zero-mul size))
  | inr some_num ↦
      ground (arith, mul_comm num size, div-lt_iff_lt-mul {k = num} {x = max64} {y = size})
]

module _ (a : Allocator) (o : Mapper) (r : Runtime) where
  bin_push_memory : (i : ℕ) (p : Ptr) (h : Heap a o) → (bin_push a o i p h).memory ≡ h.memory
  unfolding bin_push
  bin_push_memory i p h = ground arith

  bin_remove_memory : (i : ℕ) (p : Ptr) (h : Heap a o) → (bin_remove a o i p h).memory ≡ h.memory
  unfolding bin_remove
  bin_remove_memory i p h = ground arith

  abbrev pub SameMemory : Heap a o → Ptr × Heap a o → Type 0
  SameMemory h (p, h') = h'.memory ≡ h.memory

  pub from_class-SameMemory :
      (c : Option ℕ) (size : ℕ) (h : Heap a o) → OnResult (SameMemory h) (from_class a o r c size h)
  unfolding from_class from_large_span from_new_span from_bin block_of
  from_class-SameMemory none size h =
      on_then (cmalloc_initialize_span a o r none size h.spans) λ _. result refl
  from_class-SameMemory (some i) size h =
      let p = h.thread_local_bin i in
      on_either (p == null)
        (λ e.
          on_then (cmalloc_initialize_span a o r (some i) size h.spans)
            λ (q, spans). result (bin_push_memory i q (record h { spans = spans })))
        (λ e. result (ground (arith, bin_remove_memory i p h)))

  abbrev Cleared : ℕ → Heap a o → Ptr × Heap a o → Type 0
  Cleared n h (ptr, h') =
      ptr ≢ null → (n < 2 ^ 64) × ((addr : ℕ) → h'.memory addr ≡ clear_bytes ptr n h.memory addr)

  ccalloc-Cleared :
      (num size : ℕ) (h : Heap a o) → OnResult (Cleared (num * size) h) (ccalloc a o r num size h)
  unfolding ccalloc cmalloc
  ccalloc-Cleared num size h =
      on_either (not (num == 0) && ltb (max64 / num) size)
        (λ over. result λ real. absurd (real refl))
        λ within.
          let lt : num * size < 2 ^ 64 = ground (arith, overflow_test num size) in
          let exact = mod-eq_of_lt lt in
          let c = get_size_class_index r (num * size % 2 ^ 64) in
          on_bind (from_class-SameMemory c (num * size % 2 ^ 64) h) λ (ptr, h1) same.
            result λ real. (lt, λ addr. ground (arith, exact, ap (λ (f : ℕ → ℕ). f addr) same))

  -- Requests whose product does not fit size_t get NULL, and nothing changes.
  pub ccalloc-refused :
      (num size : ℕ) (h : Heap a o)
      → 2 ^ 64 ≤ num * size
      → ccalloc a o r num size h ≡ some (null, h)
  unfolding ccalloc
  ccalloc-refused num size h large =
      let test : (not (num == 0) && ltb (max64 / num) size) ≡ true =
        overflow_test num size ∙ ground arith in
      rw test refl

  -- A block from `ccalloc` has `num * size` bytes that are zero, the product being less than
  -- 2 ^ 64, and every other byte of user memory is as before.
  pub ccalloc_lem :
      (num size : ℕ) (h h' : Heap a o) (ptr : Ptr)
      → ccalloc a o r num size h ≡ some (ptr, h')
      → ptr ≢ null
      → (num * size < 2 ^ 64)
        × ((addr : ℕ) → h'.memory addr ≡ clear_bytes ptr (num * size) h.memory addr)
  ccalloc_lem num size h h' ptr e real = on_equal e (ccalloc-Cleared num size h) real
