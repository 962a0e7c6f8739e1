-- ===== src/Metadata/Live.antt =====
-- The states of src/metadata.c that the calls of its two functions lead to, with the blocks that the
-- caller has, and the invariant of those states.
use fast_memory_allocator.Base.{
  ℕ, ◌≤◌, ◌<◌, ◌≡◌, ◌≢◌, refl, ap, ◌∙◌, sym, ◌⊎◌, arith, Bool, true, false, none, some, ◌==◌,
  update, inl, inr, Bool-cases, run_equal, [],
}
use fast_memory_allocator.Span.{Ptr, null}
use fast_memory_allocator.SpanHeap.{Mapper}
use fast_memory_allocator.Metadata.{Arena, no_chunk, cmalloc_alloc_metadata, cmalloc_free_metadata}
use fast_memory_allocator.Metadata.Blocks.{IsChunkMapper, largest, in_block, rest_none}
use fast_memory_allocator.Metadata.Lists.{
  MetaRole, unborn, held, free, size_of, IsArena, list_nil, list_written, held_apart,
}
use fast_memory_allocator.Metadata.Allocs.{IsTaken, refused, taken, alloc_metadata-IsTaken}
use fast_memory_allocator.Metadata.Frees.{IsFreed, free_metadata-IsFreed}

-- The states that the calls of a client lead to, with the sizes of the blocks that it has and 0 at
-- all other addresses. Between the calls it writes to its blocks.
pub data MetaRun (o : Mapper) : Arena o → (Ptr → ℕ) → Type 0 where
  started :
      (links : Ptr → Ptr) (kernel : o.Kernel)
      → MetaRun o
          (record { meta_arena = no_chunk; free_list_map = none; links = links; kernel = kernel })
          (λ p. 0)
  given :
      {st st' : Arena o} {live : Ptr → ℕ} {p : Ptr} (size : ℕ)
      → MetaRun o st live
      → 0 < size
      → size ≤ largest
      → cmalloc_alloc_metadata o size st ≡ some (p, st')
      → p ≢ null
      → MetaRun o st' (update live p size)
  turned_down :
      {st st' : Arena o} {live : Ptr → ℕ} (size : ℕ)
      → MetaRun o st live
      → 0 < size
      → size ≤ largest
      → cmalloc_alloc_metadata o size st ≡ some (null, st')
      → MetaRun o st' live
  returned :
      {st st' : Arena o} {live : Ptr → ℕ} (p : Ptr)
      → MetaRun o st live
      → live p ≢ 0
      → cmalloc_free_metadata o p (live p) st ≡ some st'
      → MetaRun o st' (update live p 0)
  written :
      {st : Arena o} {live : Ptr → ℕ} (links : Ptr → Ptr)
      → MetaRun o st live
      → ((q : Ptr) → ((p : Ptr) → in_block p (live p) q ≡ false) → links q ≡ st.links q)
      → MetaRun o (record st { links = links }) live

free_born : {n : ℕ} → free n ≢ unborn
free_born e = ground (arith, ap is_free e)
  where
    is_free : MetaRole → Bool
    is_free unborn = false
    is_free (held n) = false
    is_free (free n) = true

module _ {o : Mapper} (k : IsChunkMapper o) where
  -- The blocks that the client has are held, and fit in a chunk.
  pub record IsLive (st : Arena o) (live : Ptr → ℕ) : Type 0 where
    pub role : Ptr → MetaRole
    pub arena : IsArena k st role
    pub has : (p : Ptr) → (live p ≡ 0) ⊎ (role p ≡ held (live p))
    pub fits : (p : Ptr) → live p ≤ largest

  started-IsLive :
      (links : Ptr → Ptr) (kernel : o.Kernel)
      → IsLive
          (record { meta_arena = no_chunk; free_list_map = none; links = links; kernel = kernel })
          (λ p. 0)
  started-IsLive links kernel = record {
    role = λ p. unborn;
    arena = record {
      placed = record {
        no_null = refl;
        apart = λ p q x e. ground (arith, e);
        before = λ p x e. refl;
        inside = λ p x e. ground (arith, e);
        ahead = λ x e. ground (arith, e);
        rest = rest_none;
      };
      sized = λ p. inl refl;
      lists = λ n le. ([], list_nil);
    };
    has = λ p. inl refl;
    fits = λ p. omega arith;
  }

  given-IsLive :
      {st st' : Arena o} {live : Ptr → ℕ} {p : Ptr} (size : ℕ) (l : IsLive st live)
      → size ≤ largest
      → p ≢ null
      → IsTaken k st l.role size (p, st')
      → IsLive st' (update live p size)
  given-IsLive size l le real (refused fails failed arena leaves) = absurd (real refl)
  given-IsLive {live} {p} size l le real (taken real' new arena leaves) = record {
    role = update l.role p (held size);
    arena = arena;
    has = λ q. elim (Bool-cases (p == q)) [ inl e ↦ rw e (inr refl) | inr e ↦ rw e (l.has q) ];
    fits = λ q. ground (arith, l.fits q);
  }

  turned_down-IsLive :
      {st st' : Arena o} {live : Ptr → ℕ} (size : ℕ) (l : IsLive st live)
      → IsTaken k st l.role size (null, st')
      → IsLive st' live
  turned_down-IsLive size l (taken real new arena leaves) = absurd (real refl)
  turned_down-IsLive size l (refused fails failed arena leaves) = record {
    role = l.role;
    arena = arena;
    has = l.has;
    fits = l.fits;
  }

  returned-IsLive :
      {st st' : Arena o} {live : Ptr → ℕ} (p : Ptr) (l : IsLive st live)
      → IsFreed k st l.role p (live p) st'
      → IsLive st' (update live p 0)
  returned-IsLive {live} p l f = record {
    role = f.role';
    arena = f.arena;
    has = λ q. elim (Bool-cases (p == q)) [
      | inl e ↦ rw e (inl refl)
      | inr e ↦ rw e (elim (l.has q) [
        | inl z ↦ inl z
        | inr is ↦ inr (f.kept q (live q) (λ d. ground (arith, e, d)) is)
      ])
    ];
    fits = λ q. ground (arith, l.fits q);
  }

  -- A live block is a held block of that size.
  pub live_covers :
      {st : Arena o} {live : Ptr → ℕ} (l : IsLive st live) (p x : Ptr)
      → in_block p (live p) x ≡ true
      → (l.role p ≡ held (live p)) × (in_block p (size_of (l.role p)) x ≡ true)
  live_covers {live} l p x covered = elim (l.has p) [
    | inl z ↦ absurd (ground (arith, covered, z))
    | inr is ↦ (is, ap (λ n. in_block p n x) (ap size_of is) ∙ covered)
  ]

  -- A free block has no byte of a live one.
  free_outside :
      {st : Arena o} {live : Ptr → ℕ} (l : IsLive st live) (n : ℕ) (q : Ptr)
      → l.role q ≡ free n
      → (p : Ptr) → in_block p (live p) q ≡ false
  free_outside {live} l n q is p = elim (Bool-cases (in_block p (live p) q)) [
    | inr e ↦ e
    | inl e ↦
        let (is', covered) = live_covers l p q e in
        let own : in_block q (size_of (l.role q)) q ≡ true = elim (l.arena.sized q) [
          | inl u ↦ absurd (free_born (sym is ∙ u))
          | inr pos ↦ ground (arith, pos)
        ] in
        let same = l.arena.placed.apart p q q covered own in
        absurd (held_apart (sym is' ∙ ap l.role same ∙ is))
  ]

  written-IsLive :
      {st : Arena o} {live : Ptr → ℕ} (links : Ptr → Ptr) (l : IsLive st live)
      → ((q : Ptr) → ((p : Ptr) → in_block p (live p) q ≡ false) → links q ≡ st.links q)
      → IsLive (record st { links = links }) live
  written-IsLive links l same = record {
    role = l.role;
    arena = record {
      placed = l.arena.placed;
      sized = l.arena.sized;
      lists = λ n le.
          let (ps, list) = l.arena.lists n le in
          (ps, list_written (λ q is. same q (free_outside l n q is)) list);
    };
    has = l.has;
    fits = l.fits;
  }

  -- Every state that a client reaches is as the invariant says, with the client's blocks held: the
  -- client asks for 1 byte to what fits in a chunk, gives back only blocks that it has, and writes
  -- only to these, and mmap gives memory that was not mapped.
  pub MetaRun-IsLive : (st : Arena o) (live : Ptr → ℕ) → MetaRun o st live → IsLive st live
  MetaRun-IsLive _ _ (started links kernel) = started-IsLive links kernel
  MetaRun-IsLive _ _ (given {st} {live} size run pos le runs real) =
      let l = MetaRun-IsLive st live run in
      given-IsLive size l le real
        (run_equal runs (alloc_metadata-IsTaken k st l.role size l.arena pos le))
  MetaRun-IsLive _ _ (turned_down {st} {live} size run pos le runs) =
      let l = MetaRun-IsLive st live run in
      turned_down-IsLive size l
        (run_equal runs (alloc_metadata-IsTaken k st l.role size l.arena pos le))
  MetaRun-IsLive _ _ (returned {st} {live} p run used runs) =
      let l = MetaRun-IsLive st live run in
      elim (l.has p) [
        | inl z ↦ absurd (used z)
        | inr is ↦
            returned-IsLive p l
              (run_equal runs (free_metadata-IsFreed k st l.role p (live p) l.arena (l.fits p) is))
      ]
  MetaRun-IsLive _ _ (written {st} {live} links run same) =
      written-IsLive links (MetaRun-IsLive st live run) same
