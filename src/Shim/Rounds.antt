-- ===== src/Shim/Rounds.antt =====
-- The loops of operator new: they end if each call of the handler comes nearer to memory.
use fast_memory_allocator.Base.{
  ℕ, zero, suc, ◌<◌, ◌≡◌, ◌≢◌, refl, ap, ◌∙◌, ◌⊎◌, arith, Option, some, ◌==◌, Bool-cases,
  Option-cases, inl, inr, ==_iff,
}
use fast_memory_allocator.Common.{Runtime}
use fast_memory_allocator.Span.{Ptr, null}
use fast_memory_allocator.RangeMap.{Allocator}
use fast_memory_allocator.SpanHeap.{Mapper}
use fast_memory_allocator.Cmalloc.{Heap}
use fast_memory_allocator.Shim.{shim_malloc}
use fast_memory_allocator.Shim.Operators.{
  Handled, resumed, threw, Outcome, allocated, thrown, aborted, Handler, new_loop, at_least_one,
  shim_new,
}

module _ (a : Allocator) (o : Mapper) where
  handled_cases :
      (x : Handled a o) → ((h : Heap a o) × (x ≡ resumed h)) ⊎ ((h : Heap a o) × (x ≡ threw h))
  handled_cases (resumed h) = inl (h, refl)
  handled_cases (threw h) = inr (h, refl)

  -- operator new has ended, and not with NULL.
  pub data IsEnd : Outcome a o → Type 0 where
    with_memory : {ptr : Ptr} {h : Heap a o} → ptr ≢ null → IsEnd (allocated ptr h)
    with_exception : {h : Heap a o} → IsEnd (thrown h)
    with_abort : IsEnd aborted

  -- A handler that returns has brought the heap nearer to an attempt that succeeds.
  abbrev pub IsHelpful :
      (Heap a o → Option (Ptr × Heap a o)) → Handler a o → (Heap a o → ℕ) → Type 0
  IsHelpful attempt get_new_handler measure =
      (h h1 h2 : Heap a o) (handler : Heap a o → Handled a o)
      → attempt h ≡ some (null, h1)
      → get_new_handler h1 ≡ some handler
      → handler h1 ≡ resumed h2
      → measure h2 < measure h

  new_loop-IsEnd :
      (attempt : Heap a o → Option (Ptr × Heap a o)) (get_new_handler : Handler a o)
      (measure : Heap a o → ℕ) (rounds : ℕ) (h : Heap a o)
      → IsHelpful attempt get_new_handler measure
      → measure h < rounds
      → IsEnd (new_loop a o attempt get_new_handler rounds h)
  unfolding new_loop
  new_loop-IsEnd attempt get_new_handler measure zero h helpful lt = absurd (omega arith)
  new_loop-IsEnd attempt get_new_handler measure (suc rounds) h helpful lt =
      elim (Option-cases (attempt h)) [
        | inl fails ↦ rw (new_loop, fails) with_abort
        | inr ((ptr, h1), tried) ↦ elim (Bool-cases (ptr == null)) [
          | inr real ↦ rw (new_loop, tried, real) (with_memory (ground arith))
          | inl e ↦ elim (Option-cases (get_new_handler h1)) [
            | inl unset ↦ rw (new_loop, tried, e, unset) with_exception
            | inr (handler, set) ↦ elim (handled_cases (handler h1)) [
              | inr (h2, throws) ↦ rw (new_loop, tried, e, set, throws) with_exception
              | inl (h2, resumes) ↦
                  let null_tried : attempt h ≡ some (null, h1) =
                    tried ∙ ap (λ (x : Ptr). some (x, h1)) ((==_iff ptr null).0 e) in
                  let nearer = helpful h h1 h2 handler null_tried set resumes in
                  rw (new_loop, tried, e, set, resumes)
                    (new_loop-IsEnd attempt get_new_handler measure rounds h2 helpful (omega arith))
            ]
          ]
        ]
      ]

module _ (a : Allocator) (o : Mapper) (r : Runtime) where
  -- If every call of the new handler that returns lowers a measure of the heap, the loop of `shim_new`
  -- ends within as many rounds, with memory other than NULL, an exception or a stop of the program.
  pub shim_new-IsEnd :
      (get_new_handler : Handler a o) (measure : Heap a o → ℕ) (rounds size : ℕ) (h : Heap a o)
      → IsHelpful a o (shim_malloc a o r (at_least_one size)) get_new_handler measure
      → measure h < rounds
      → IsEnd a o (shim_new a o r get_new_handler rounds size h)
  unfolding shim_new
  shim_new-IsEnd get_new_handler measure rounds size h =
      new_loop-IsEnd a o (shim_malloc a o r (at_least_one size)) get_new_handler measure rounds h
