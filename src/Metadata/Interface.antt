-- ===== src/Metadata/Interface.antt =====
-- What the arena of src/metadata.c promises src/range_map.c and src/span.c.
use fast_memory_allocator.Base.{
  ℕ, zero, ◌≡◌, ◌≢◌, refl, ap, arith, Bool, true, false, Option, none, some, ◌==◌, inl, inr, update,
  update_at, Bool-cases, run_equal, Option-cases,
}
use fast_memory_allocator.Span.{Ptr, null}
use fast_memory_allocator.RangeMap.Ledger.{IsAllocator}
use fast_memory_allocator.RangeMap.Supply.{Serves, is_request}
use fast_memory_allocator.SpanHeap.{Mapper}
use fast_memory_allocator.Metadata.Refusals.{CannotMap}
use fast_memory_allocator.Metadata.AsAllocator.{arena_allocator, arena_alloc, arena-Serves}
use fast_memory_allocator.Metadata.{Arena, cmalloc_alloc_metadata}
use fast_memory_allocator.Metadata.Blocks.{IsChunkMapper}
use fast_memory_allocator.Metadata.Lists.{MetaRole, held, is_held, IsArena}
use fast_memory_allocator.Metadata.Live.{MetaRun, MetaRun-IsLive}
use fast_memory_allocator.Metadata.Allocs.{IsTaken, refused, taken, alloc_metadata-IsTaken}

held_clash : {b : Bool} → b ≡ true → b ≡ false → ⊥
held_clash e e' = ground (arith, e, e')

module _ {o : Mapper} (k : IsChunkMapper o) where
  -- Some assignment of roles fits the state; in use is what is held in one.
  IsSound : Option (Arena o) → Type 0
  IsSound none = zero ≡ zero
  IsSound (some st) = (role : Ptr → MetaRole) × IsArena k st role

  IsHeldIn : Option (Arena o) → Ptr → Type 0
  IsHeldIn none p = zero ≡ zero
  IsHeldIn (some st) p = (role : Ptr → MetaRole) × IsArena k st role × (is_held (role p) ≡ true)

  alloc-IsTaken :
      (st : Arena o) (role : Ptr → MetaRole) (size : ℕ) (x : Ptr × Arena o)
      → IsArena k st role
      → is_request size ≡ true
      → cmalloc_alloc_metadata o size st ≡ some x
      → IsTaken k st role size x
  alloc-IsTaken st role size x h req runs =
      run_equal runs
        (alloc_metadata-IsTaken k st role size h (ground (arith, req)) (ground (arith, req)))

  taken-IsSound :
      {st : Arena o} {role : Ptr → MetaRole} {size : ℕ} (x : Ptr × Arena o)
      → IsTaken k st role size x
      → IsSound (some x.1)
  unfolding IsSound
  taken-IsSound _ (refused {st'} fails failed arena leaves) = (_, arena)
  taken-IsSound _ (taken {p} {st'} real new arena leaves) = (_, arena)

  taken-fresh :
      {st : Arena o} {role : Ptr → MetaRole} {size : ℕ} (x : Ptr × Arena o)
      → IsTaken k st role size x
      → x.0 ≢ null
      → is_held (role x.0) ≡ false
  taken-fresh _ (refused fails failed arena leaves) real = absurd (real refl)
  taken-fresh _ (taken real' new arena leaves) real = new

  taken-IsHeldIn :
      {st : Arena o} {role : Ptr → MetaRole} {size : ℕ} (x : Ptr × Arena o)
      → IsTaken k st role size x
      → x.0 ≢ null
      → IsHeldIn (some x.1) x.0
  unfolding IsHeldIn
  taken-IsHeldIn _ (refused fails failed arena leaves) real = absurd (real refl)
  taken-IsHeldIn {role} {size} _ (taken {p} real' new arena leaves) real =
      (update role p (held size), arena, ap is_held (update_at role p (held size)))

  taken-kept :
      {st : Arena o} {role : Ptr → MetaRole} {size : ℕ} (x : Ptr × Arena o) (q : Ptr)
      → IsTaken k st role size x
      → is_held (role q) ≡ true
      → IsHeldIn (some x.1) q
  unfolding IsHeldIn
  taken-kept {role} _ q (refused fails failed arena leaves) used = (role, arena, used)
  taken-kept {role} {size} _ q (taken {p} real' new arena leaves) used = (
    update role p (held size),
    arena,
    elim (Bool-cases (p == q)) [ inl e ↦ rw e refl | inr e ↦ rw e used ],
  )

  alloc-IsSound :
      (size : ℕ)
      → is_request size ≡ true
      → (st : Option (Arena o)) → IsSound st
      → IsSound (arena_alloc size st).1
  unfolding IsSound
  alloc-IsSound size req none ok = refl
  alloc-IsSound size req (some st) (role, h) =
      elim (Option-cases (cmalloc_alloc_metadata o size st)) [
        | inl fails ↦ rw fails refl
        | inr (x, runs) ↦ rw runs (taken-IsSound x (alloc-IsTaken st role size x h req runs))
      ]

  alloc-fresh :
      (size : ℕ)
      → is_request size ≡ true
      → (st : Option (Arena o)) → (arena_alloc size st).0 ≢ null
      → ¬ IsHeldIn st (arena_alloc size st).0
  unfolding IsHeldIn
  alloc-fresh size req none real used = absurd (real refl)
  alloc-fresh size req (some st) real (role, h, used) =
      elim (Option-cases (cmalloc_alloc_metadata o size st)) [
        | inl fails ↦ real (rw fails refl)
        | inr (x, runs) ↦
            held_clash (rw runs at used)
              (taken-fresh x (alloc-IsTaken st role size x h req runs) (rw runs at real))
      ]

  alloc-IsHeldIn :
      (size : ℕ)
      → is_request size ≡ true
      → (st : Option (Arena o)) → IsSound st
      → (arena_alloc size st).0 ≢ null
      → IsHeldIn (arena_alloc size st).1 (arena_alloc size st).0
  unfolding IsSound
  alloc-IsHeldIn size req none ok real = absurd (real refl)
  alloc-IsHeldIn size req (some st) (role, h) real =
      elim (Option-cases (cmalloc_alloc_metadata o size st)) [
        | inl fails ↦ absurd (real (rw fails refl))
        | inr (x, runs) ↦
            rw runs (taken-IsHeldIn x (alloc-IsTaken st role size x h req runs) (rw runs at real))
      ]

  alloc-kept :
      (size : ℕ)
      → is_request size ≡ true
      → (st : Option (Arena o)) (q : Ptr) → IsHeldIn st q
      → IsHeldIn (arena_alloc size st).1 q
  unfolding IsHeldIn
  alloc-kept size req none q used = refl
  alloc-kept size req (some st) q (role, h, used) =
      elim (Option-cases (cmalloc_alloc_metadata o size st)) [
        | inl fails ↦ rw fails refl
        | inr (x, runs) ↦ rw runs (taken-kept x q (alloc-IsTaken st role size x h req runs) used)
      ]

  unfoldable implementation : IsAllocator (arena_allocator o)
  implementation = record {
    IsSound = IsSound;
    IsHeld = IsHeldIn;
    sound = alloc-IsSound;
    fresh = λ size req st ok. alloc-fresh size req st;
    taken = alloc-IsHeldIn;
    kept = λ size req st q ok. alloc-kept size req st q;
  }

  sound-Serves :
      (st : Arena o) (n : ℕ)
      → IsSound (some st)
      → ¬ CannotMap o n st
      → Serves (arena_allocator o) n (some st)
  unfolding IsSound
  sound-Serves st n (role, h) = arena-Serves k n st role h

  live-IsSound : (st : Arena o) (live : Ptr → ℕ) → MetaRun o st live → IsSound (some st)
  unfolding IsSound
  live-IsSound st live run = let l = MetaRun-IsLive k st live run in (l.role, l.arena)

  live-IsHeldIn :
      (st : Arena o) (live : Ptr → ℕ) (p : Ptr)
      → MetaRun o st live
      → live p ≢ 0
      → IsHeldIn (some st) p
  unfolding IsHeldIn
  live-IsHeldIn st live p run used =
      let l = MetaRun-IsLive k st live run in
      (l.role, l.arena, elim (l.has p) [ inl z ↦ absurd (used z) | inr is ↦ ap is_held is ])

  -- The arena is what the users of `cmalloc_alloc_metadata` rely on: memory that it hands out was not
  -- in use, and is from then on. Each state that calls reach from the start of the program is sound,
  -- with the blocks of those calls in use. From a sound state the next `n` calls give memory, for
  -- every `n` for which neither `meta_arena` is MAP_FAILED nor one of the next `n` requests for a
  -- chunk gets it.
  pub arena_allocator_lem :
      (u : IsAllocator (arena_allocator o)) × ((st : Arena o) (live : Ptr → ℕ)
        → MetaRun o st live
        → u.IsSound (some st))
      × ((st : Arena o) (live : Ptr → ℕ) (p : Ptr)
          → MetaRun o st live
          → live p ≢ 0
          → u.IsHeld (some st) p)
      × ((st : Arena o) (n : ℕ)
          → u.IsSound (some st)
          → ¬ CannotMap o n st
          → Serves (arena_allocator o) n (some st))
  unfolding implementation
  arena_allocator_lem = (implementation, live-IsSound, live-IsHeldIn, sound-Serves)
