-- ===== src/Metadata/AsAllocator.antt =====
-- src/metadata.c as the allocator of metadata that src/range_map.c and src/span.c use.
use fast_memory_allocator.Base.{
  ℕ, zero, suc, ◌≢◌, refl, arith, Option, none, some, inl, inr, run_equal, run_stopped,
  Option-cases,
}
use fast_memory_allocator.Span.{Ptr, null}
use fast_memory_allocator.RangeMap.{Allocator}
use fast_memory_allocator.RangeMap.Supply.{Serves}
use fast_memory_allocator.SpanHeap.{Mapper}
use fast_memory_allocator.Metadata.{Arena, cmalloc_alloc_metadata, cmalloc_free_metadata}
use fast_memory_allocator.Metadata.Refusals.{CannotMap, refuses_now}
use fast_memory_allocator.Metadata.Blocks.{IsChunkMapper}
use fast_memory_allocator.Metadata.Lists.{MetaRole, IsArena}
use fast_memory_allocator.Metadata.Allocs.{IsTaken, refused, taken, alloc_metadata-IsTaken}

-- The arena with its faults as a state of its own: after one every call gives NULL.
abbrev pub to_store : {o : Mapper} → Option (Ptr × Arena o) → Ptr × Option (Arena o)
to_store none = (null, none)
to_store (some (p, st)) = (p, some st)

abbrev pub arena_alloc : {o : Mapper} → ℕ → Option (Arena o) → Ptr × Option (Arena o)
arena_alloc {o} size none = (null, none)
arena_alloc {o} size (some st) = to_store (cmalloc_alloc_metadata o size st)

abbrev pub arena_free : {o : Mapper} → Ptr → ℕ → Option (Arena o) → Option (Arena o)
arena_free {o} p size none = none
arena_free {o} p size (some st) = cmalloc_free_metadata o p size st

abbrev pub arena_allocator : Mapper → Allocator
arena_allocator o = record {
  Store = Option (Arena o);
  alloc_metadata = arena_alloc;
  free_metadata = arena_free;
}

module _ {o : Mapper} (k : IsChunkMapper o) where
  -- The first call gives memory, and the others are served from then on.
  served-IsTaken :
      (n size : ℕ) (st : Arena o) (role : Ptr → MetaRole) (x : Ptr × Arena o)
      → ¬ CannotMap o (suc n) st
      → ((st' : Arena o) (role' : Ptr → MetaRole)
          → IsArena k st' role'
          → ¬ CannotMap o n st'
          → Serves (arena_allocator o) n (some st'))
      → IsTaken k st role size x
      → (x.0 ≢ null) × Serves (arena_allocator o) n (some x.1)
  served-IsTaken n size st role _ works later (refused fails failed arena leaves) =
      absurd (works (inr (refuses_now fails)))
  served-IsTaken n size st role _ works later (taken {p} {st'} real new arena leaves) =
      (real, later st' _ arena (λ stuck. works (leaves.spends n stuck)))

  -- While mmap answers, every call is served.
  pub arena-Serves :
      (n : ℕ) (st : Arena o) (role : Ptr → MetaRole)
      → IsArena k st role
      → ¬ CannotMap o n st
      → Serves (arena_allocator o) n (some st)
  unfolding Serves
  arena-Serves zero st role h works = refl
  arena-Serves (suc n) st role h works = λ size req.
      let later = arena-Serves n in
      let run =
        alloc_metadata-IsTaken k st role size h (ground (arith, req)) (ground (arith, req)) in
      elim (Option-cases (cmalloc_alloc_metadata o size st)) [
        | inl fails ↦ absurd (works (inl (run_stopped fails run)))
        | inr (x, runs) ↦ rw runs (served-IsTaken n size st role x works later (run_equal runs run))
      ]
