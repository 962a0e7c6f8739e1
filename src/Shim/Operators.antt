-- ===== src/Shim/Operators.antt =====
-- bench/shim/alloc_shim_new.cpp: the replaced operators new and delete. The new handler that the
-- program has set, `std::get_new_handler`, is a parameter.
use fast_memory_allocator.Base.{ℕ, zero, suc, Option, none, some, ◌==◌, if◌then◌else◌}
use fast_memory_allocator.Common.{Runtime}
use fast_memory_allocator.Span.{Ptr, null}
use fast_memory_allocator.RangeMap.{Allocator}
use fast_memory_allocator.SpanHeap.{Mapper}
use fast_memory_allocator.Cmalloc.{Heap}
use fast_memory_allocator.Shim.{shim_malloc, shim_memalign, shim_free}

-- A handler returns or throws, with what became of the heap.
pub data Handled (a : Allocator) (o : Mapper) : Type 0 where
  resumed : Heap a o → Handled a o
  threw : Heap a o → Handled a o

-- How operator new ends: with a pointer, with an exception, or with the program stopped by a failed
-- assertion. `out_of_rounds` is the fuel's end.
pub data Outcome (a : Allocator) (o : Mapper) : Type 0 where
  allocated : Ptr → Heap a o → Outcome a o
  thrown : Heap a o → Outcome a o
  aborted : Outcome a o
  out_of_rounds : Outcome a o

module _ (a : Allocator) (o : Mapper) where
  abbrev pub Handler : Type 0
  Handler = Heap a o → Option (Heap a o → Handled a o)

  -- The loop of `shim_new` and of `shim_new_aligned`, over the attempt that they make.
  unfoldable pub new_loop :
      (Heap a o → Option (Ptr × Heap a o)) → Handler → ℕ → Heap a o → Outcome a o
  new_loop attempt get_new_handler zero h = out_of_rounds
  new_loop attempt get_new_handler (suc rounds) h = elim (attempt h) [
    | none ↦ aborted
    | some (ptr, h1) ↦
        if ptr == null
        then elim (get_new_handler h1) [
          | none ↦ thrown h1
          | some handler ↦ elim (handler h1) [
            | resumed h2 ↦ new_loop attempt get_new_handler rounds h2
            | threw h2 ↦ thrown h2
          ]
        ]
        else allocated ptr h1
  ]

  -- `try { ... } catch (...) { return nullptr; }`
  unfoldable pub nothrow : Outcome a o → Outcome a o
  nothrow (allocated ptr h) = allocated ptr h
  nothrow (thrown h) = allocated null h
  nothrow aborted = aborted
  nothrow out_of_rounds = out_of_rounds

-- `size != 0 ? size : 1`
abbrev pub at_least_one : ℕ → ℕ
at_least_one size = if size == 0 then 1 else size

module _ (a : Allocator) (o : Mapper) (r : Runtime) where
  unfoldable pub shim_new : Handler a o → ℕ → ℕ → Heap a o → Outcome a o
  shim_new get_new_handler rounds size h =
      new_loop a o (shim_malloc a o r (at_least_one size)) get_new_handler rounds h

  unfoldable pub shim_new_nothrow : Handler a o → ℕ → ℕ → Heap a o → Outcome a o
  shim_new_nothrow get_new_handler rounds size h =
      nothrow a o (shim_new get_new_handler rounds size h)

  unfoldable pub shim_new_aligned : Handler a o → ℕ → ℕ → ℕ → Heap a o → Outcome a o
  shim_new_aligned get_new_handler rounds size alignment h =
      new_loop a o (shim_memalign a o r alignment (at_least_one size)) get_new_handler rounds h

  -- The forms of operator new, of which those for arrays do the same.
  unfoldable pub operator_new : Handler a o → ℕ → ℕ → Heap a o → Outcome a o
  operator_new get_new_handler rounds size h = shim_new get_new_handler rounds size h

  unfoldable pub operator_new_nothrow : Handler a o → ℕ → ℕ → Heap a o → Outcome a o
  operator_new_nothrow get_new_handler rounds size h =
      shim_new_nothrow get_new_handler rounds size h

  unfoldable pub operator_new_aligned : Handler a o → ℕ → ℕ → ℕ → Heap a o → Outcome a o
  operator_new_aligned get_new_handler rounds size alignment h =
      shim_new_aligned get_new_handler rounds size alignment h

  unfoldable pub operator_new_aligned_nothrow : Handler a o → ℕ → ℕ → ℕ → Heap a o → Outcome a o
  operator_new_aligned_nothrow get_new_handler rounds size alignment h =
      nothrow a o (shim_new_aligned get_new_handler rounds size alignment h)

  -- The forms of operator delete: the size and the alignment are not looked at.
  unfoldable pub operator_delete : Ptr → Heap a o → Option (Heap a o)
  operator_delete ptr h = shim_free a o r ptr h

  unfoldable pub operator_delete_aligned : Ptr → Heap a o → Option (Heap a o)
  operator_delete_aligned ptr h = shim_free a o r ptr h
