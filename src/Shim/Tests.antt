-- ===== src/Shim/Tests.antt =====
-- The shim on the heap of a thread whose bin of the class of 48 bytes holds one span.
use fast_memory_allocator.Base.{
  ℕ, zero, suc, ◌+◌, ◌-◌, ◌^◌, ◌≤◌, ◌<◌, ◌≡◌, refl, sym, ap, update, on_equal, ◌∙◌, arith, true,
  false, Option, none, some, ◌==◌, if◌then◌else◌, OnResult, Bool-cases, inl, inr, ==_iff,
}
use fast_memory_allocator.Base.Words.{ctz64, trailing_zeros, set_bit, clear_bit}
use fast_memory_allocator.Common.{get_size_class_index}
use fast_memory_allocator.Span.{
  Ptr, allocate_block, initialize_blocks, mark_allocated, first_block_index, fill_words,
  free_blocks,
}
use fast_memory_allocator.Cmalloc.{Heap, cmalloc, from_class, from_bin, block_of}
use fast_memory_allocator.Cmalloc.Requests.{from_class-SameMemory}
use fast_memory_allocator.Cmalloc.Tests.{bump, ample, runtime, heap}
use fast_memory_allocator.Shim.{
  Strings, shim_memalign, shim_posix_memalign, shim_strdup, shim_malloc,
}
use fast_memory_allocator.Shim.Operators.{Handled, resumed, threw, Handler, shim_new}
use fast_memory_allocator.Shim.Align.{
  IsMemalign, shim_memalign-IsMemalign, IsPosix, shim_posix_memalign-IsPosix,
}
use fast_memory_allocator.Shim.Copies.{IsStrlen, IsDuplicate, shim_strdup-IsDuplicate}
use fast_memory_allocator.Shim.Rounds.{IsHelpful, IsEnd, shim_new-IsEnd}

-- Nine bytes at a multiple of 32.
abbrev forty : Option (Ptr × Heap bump ample)
forty = cmalloc bump ample runtime 40 heap

abbrev after_forty : Heap bump ample
after_forty = elim forty [ none ↦ heap | some x ↦ x.1 ]

forty_runs : forty ≡ some (65584, after_forty)
unfolding cmalloc get_size_class_index from_class from_bin block_of allocate_block mark_allocated
    first_block_index initialize_blocks fill_words free_blocks ctz64 trailing_zeros set_bit
    clear_bit
forty_runs = refl

shim_memalign-IsMemalign_example :
    IsMemalign bump ample runtime 32 9 65584 after_forty
      (shim_memalign bump ample runtime 32 9 heap)
shim_memalign-IsMemalign_example =
    shim_memalign-IsMemalign bump ample runtime 5 9 65584 heap after_forty (omega arith)
      (omega arith) (omega arith) forty_runs (omega arith) (omega arith)

shim_posix_memalign-IsPosix_example :
    IsPosix bump ample runtime 1000 32 9 heap
      (shim_posix_memalign bump ample runtime 1000 32 9 heap)
shim_posix_memalign-IsPosix_example =
    shim_posix_memalign-IsPosix bump ample runtime 1000 32 9 heap (omega arith)

-- A search for the first byte that is 0 among the next ones.
scan : ℕ → (ℕ → ℕ) → Ptr → ℕ
scan zero m s = 0
scan (suc left) m s = elim (m s == 0) [ true ↦ 0 | false ↦ suc (scan left m (s + 1)) ]

abbrev strings : Strings
strings = record { strlen = scan (2 ^ 64); strnlen = λ m s n. scan n m s }

scan_first :
    (left n : ℕ) (m : ℕ → ℕ) (s : Ptr)
    → n < left
    → m (s + n) ≡ 0
    → (scan left m s ≤ n) × (m (s + scan left m s) ≡ 0)
unfolding scan
scan_first zero n m s lt ends = absurd (omega arith)
scan_first (suc left) n m s lt ends = elim (Bool-cases (m s == 0)) [
  | inl e ↦ rw (scan, e) (omega arith, ap m (omega arith) ∙ (==_iff (m s) 0).0 e)
  | inr e ↦ elim (Bool-cases (n == 0)) [
    | inl first ↦ let here : m s ≡ 0 = ap m (ground arith) ∙ ends in absurd (ground (arith, here))
    | inr later ↦
        let rest = scan_first left (n - 1) m (s + 1) (ground arith) (ap m (ground arith) ∙ ends) in
        rw (scan, e) (ground (arith, rest.0), ap m (omega arith) ∙ rest.1)
  ]
]

strings-IsStrlen : IsStrlen strings
strings-IsStrlen = record {
  least = λ m s n lt ends. (scan_first (2 ^ 64) n m s lt ends).0;
  ends = λ m s n lt ends. (scan_first (2 ^ 64) n m s lt ends).1;
}

-- Five bytes and their end.
abbrev word_heap : Heap bump ample
word_heap = record heap { memory = λ addr. if addr == 1005 then 0 else 7 }

shim_strdup-IsDuplicate_example :
    OnResult
      (λ (copy, h'). IsDuplicate bump ample runtime strings 1000 word_heap copy h')
      (shim_strdup bump ample runtime strings 1000 word_heap)
shim_strdup-IsDuplicate_example =
    shim_strdup-IsDuplicate bump ample runtime strings 1000 5 word_heap strings-IsStrlen
      (omega arith) refl (omega arith)

-- A handler that can be called as often as the byte at 0 says.
abbrev next_try : Heap bump ample → Heap bump ample
next_try h = record h { memory = update h.memory 0 (h.memory 0 - 1) }

abbrev countdown : Handler bump ample
countdown h = if h.memory 0 == 0 then none else some (λ h'. resumed (next_try h'))

resumed_heap : Handled bump ample → Heap bump ample
resumed_heap (resumed h) = h
resumed_heap (threw h) = h

called_at : Heap bump ample → Option (Heap bump ample → Handled bump ample) → Handled bump ample
called_at h none = threw h
called_at h (some handler) = handler h

countdown-IsHelpful :
    IsHelpful bump ample (shim_malloc bump ample runtime 40) countdown (λ h. h.memory 0)
unfolding shim_malloc cmalloc resumed_heap called_at
countdown-IsHelpful h h1 h2 handler tried set resumes =
    let same : h1.memory ≡ h.memory =
      on_equal tried
        (from_class-SameMemory bump ample runtime (get_size_class_index runtime 40) 40 h) in
    elim (Bool-cases (h1.memory 0 == 0)) [
      | inl e ↦ (let none_set : none ≡ some handler = rw e at set in cc)
      | inr e ↦
          let set' : some (λ h'. resumed (next_try h')) ≡ some handler = rw e at set in
          let called : resumed (next_try h1) ≡ resumed h2 = ap (called_at h1) set' ∙ resumes in
          let after : next_try h1 ≡ h2 = ap resumed_heap called in
          let left : h2.memory 0 ≡ h1.memory 0 - 1 =
            ap (λ (x : Heap bump ample). x.memory 0) (sym after) in
          ground (arith, left, ap (λ (m : ℕ → ℕ). m 0) same)
    ]

shim_new-IsEnd_example : IsEnd bump ample (shim_new bump ample runtime countdown 8 40 heap)
shim_new-IsEnd_example =
    shim_new-IsEnd bump ample runtime countdown (λ h. h.memory 0) 8 40 heap countdown-IsHelpful
      (omega arith)
