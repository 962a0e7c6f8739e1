-- ===== src/Metadata/Allocs.antt =====
-- `cmalloc_alloc_metadata` of src/metadata.c between the arena's roles.
use native.Mathlib.Nat.{mod-eq_of_lt}
use fast_memory_allocator.Base.{
  ℕ, zero, suc, ◌+◌, ◌^◌, ◌≤◌, ◌<◌, ◌≡◌, ◌≢◌, refl, ap, ◌∙◌, subst, fun_ext, ◌⊎◌, arith, true,
  false, Option, some, ◌==◌, if◌then◌else◌, update, inl, inr, Bool-cases, eq_false, OnRun, stopped,
  yields, run_either, is_some, ◌>>=◌, ltb,
}
use fast_memory_allocator.Base.Words.{u64}
use fast_memory_allocator.Common.{align_up}
use fast_memory_allocator.Span.{Ptr, null}
use fast_memory_allocator.RangeMap.{L1Node, cmalloc_get}
use fast_memory_allocator.SpanHeap.{Mapper, map_failed}
use fast_memory_allocator.Metadata.{
  MetaChunks, no_chunk, failed_chunk, chunk, Arena, head_of, bump_cur, new_chunk,
  alloc_from_new_chunk, alloc_from_arena, store_entry, meta_chunk_size, cmalloc_alloc_metadata,
}
use fast_memory_allocator.Metadata.Recursion.{alloc_to_lem}
use fast_memory_allocator.Metadata.Refusals.{
  Refuses, refuses_now, refuses_later, CannotMap, Spends, Refuses-suc, CannotMap-suc,
}
use fast_memory_allocator.Metadata.Blocks.{
  IsChunkMapper, no_answer, answer, IsPlaced, place, place_chunk, place_failed, chunk_start,
  largest, rest_chunk, signed_lt_lem,
}
use fast_memory_allocator.Metadata.Heads.{
  has_l2, head-IsPath, store_entry-IsReheaded, same_key_size,
}
use fast_memory_allocator.Metadata.Lists.{
  MetaRole, unborn, held, size_of, is_held, IsArena, sized_update, extent_same, grow-Lists,
  pop-Lists,
}

module _ {o : Mapper} (k : IsChunkMapper o) where
  -- The links stay, the lists that are empty, and the trie with its nodes.
  pub record Leaves (st st' : Arena o) : Type 0 where
    pub links_same : st'.links ≡ st.links
    pub empty : (j : ℕ) → j ≤ largest → head_of o st j ≡ null → head_of o st' j ≡ null
    pub map_stays : is_some st.free_list_map ≡ true → is_some st'.free_list_map ≡ true
    pub nodes_stay : (i : ℕ) → has_l2 i st.free_list_map ≡ true → has_l2 i st'.free_list_map ≡ true
    pub spends : Spends o st st'

  -- mmap has just failed, or a block of the size is now in use that was not.
  pub data IsTaken (st : Arena o) (role : Ptr → MetaRole) (size : ℕ) : Ptr × Arena o → Type 0 where
    refused :
        {st' : Arena o}
        → (o.mmap meta_chunk_size st.kernel).0 ≡ map_failed
        → st'.meta_arena ≡ failed_chunk
        → IsArena k st' role
        → Leaves st st'
        → IsTaken st role size (null, st')
    taken :
        {p : Ptr} {st' : Arena o}
        → p ≢ null
        → is_held (role p) ≡ false
        → IsArena k st' (update role p (held size))
        → Leaves st st'
        → IsTaken st role size (p, st')

  Leaves-same :
      (chunks chunks' : MetaChunks) (map : Option L1Node) (links : Ptr → Ptr)
      (kernel kernel' : o.Kernel)
      → let st : Arena o = record {
        meta_arena = chunks;
        free_list_map = map;
        links = links;
        kernel = kernel;
      } in
        let st' : Arena o = record {
          meta_arena = chunks';
          free_list_map = map;
          links = links;
          kernel = kernel';
        } in
        Spends o st st' → Leaves st st'
  Leaves-same chunks chunks' map links kernel kernel' spends = record {
    links_same = refl;
    empty = λ j fits e. e;
    map_stays = λ e. e;
    nodes_stay = λ i e. e;
    spends = spends;
  }

  -- The sizes of the blocks when one becomes held.
  extent_update :
      (role : Ptr → MetaRole) (p : Ptr) (size : ℕ)
      → update (λ q. size_of (role q)) p size ≡ (λ q. size_of (update role p (held size) q))
  extent_update role p size =
      fun_ext λ q. elim (Bool-cases (p == q)) [ inl e ↦ rw e refl | inr e ↦ rw e refl ]

  chunk-ne-failed : {prev : MetaChunks} {cur end : Ptr} → chunk prev cur end ≢ failed_chunk
  chunk-ne-failed e = ground (arith, e)

  size_zero : (x : MetaRole) → (x ≡ unborn) ⊎ (0 < size_of x) → size_of x ≡ 0 → x ≡ unborn
  size_zero x (inl e) z = e
  size_zero x (inr pos) z = absurd (omega arith)

  -- The newest chunk was there in the state `before`, or is the one that mmap has given since.
  bump_cur-IsTaken :
      (chunks : MetaChunks) (before : o.Kernel) (prev : MetaChunks) (cur end : Ptr)
      (map : Option L1Node) (links : Ptr → Ptr) (kernel : o.Kernel) (role : Ptr → MetaRole)
      (size : ℕ)
      → let st : Arena o = record {
        meta_arena = chunk prev cur end;
        free_list_map = map;
        links = links;
        kernel = kernel;
      } in
        let st0 : Arena o = record {
          meta_arena = chunks;
          free_list_map = map;
          links = links;
          kernel = before;
        } in
        ((n : ℕ) → Refuses o n kernel → CannotMap o (suc n) st0)
        → IsArena k st role
        → 0 < size
        → cur + size ≤ end
        → cur ≢ null
        → end ≤ 2 ^ 63
        → OnRun (chunks ≡ failed_chunk) (IsTaken st0 role size) (bump_cur o size st)
  unfolding bump_cur
  bump_cur-IsTaken chunks before prev cur end map links kernel role size spends h pos fits real
        small =
      let (empty, placed) = place k _ prev cur end kernel size h.placed pos fits small real in
      let is = size_zero (role cur) (h.sized cur) empty in
      yields (
        taken real (rw is refl)
          (record {
            placed =
                subst (λ f. IsPlaced k f (chunk prev (align_up (u64 (cur + size))) end) kernel)
                  (extent_update role cur size) placed;
            sized = sized_update role cur (held size) pos h.sized;
            lists = grow-Lists cur size h.lists is;
          })
          (Leaves-same chunks _ map links before kernel λ n stuck. elim stuck [
            | inl failed ↦ absurd (chunk-ne-failed failed)
            | inr refuses ↦ spends n refuses
          ]))

  alloc_from_new_chunk-IsTaken :
      (chunks : MetaChunks) (map : Option L1Node) (links : Ptr → Ptr) (kernel : o.Kernel)
      (role : Ptr → MetaRole) (size : ℕ)
      → let st : Arena o = record {
        meta_arena = chunks;
        free_list_map = map;
        links = links;
        kernel = kernel;
      } in
        IsArena k st role
        → 0 < size
        → size ≤ largest
        → OnRun (chunks ≡ failed_chunk) (IsTaken st role size) (alloc_from_new_chunk o size st)
  unfolding alloc_from_new_chunk new_chunk
  alloc_from_new_chunk-IsTaken chunks map links kernel role size h pos le =
      elim (k.answers kernel) [
        | no_answer fails now ↦ rw fails (
            yields (
              refused fails refl
                (record {
                  placed = place_failed k _ chunks kernel _ h.placed now;
                  sized = h.sized;
                  lists = h.lists;
                })
                (Leaves-same chunks failed_chunk map links kernel _
                  (λ n stuck. inr (refuses_now fails)))))
        | answer whole small new now ↦
            let base = (o.mmap meta_chunk_size kernel).0 in
            let is_base : (base == map_failed) ≡ false = eq_false (λ e. ground (arith, e, small)) in
            let whole_end : u64 (base + meta_chunk_size) ≡ base + meta_chunk_size =
              mod-eq_of_lt (omega (arith, small)) in
            rw (is_base, chunk_start _ whole small, whole_end)
              (bump_cur-IsTaken chunks kernel chunks (base + 32) (base + meta_chunk_size) map links
                _ role size (λ n refuses. inr (refuses_later refuses))
                (record {
                  placed = place_chunk k _ chunks base kernel _ h.placed whole small new now;
                  sized = h.sized;
                  lists = h.lists;
                })
                pos (omega (arith, le)) (omega arith) small)
      ]

  alloc_from_arena-IsTaken :
      (chunks : MetaChunks) (map : Option L1Node) (links : Ptr → Ptr) (kernel : o.Kernel)
      (role : Ptr → MetaRole) (size : ℕ)
      → let st : Arena o = record {
        meta_arena = chunks;
        free_list_map = map;
        links = links;
        kernel = kernel;
      } in
        IsArena k st role
        → 0 < size
        → size ≤ largest
        → OnRun (chunks ≡ failed_chunk) (IsTaken st role size) (alloc_from_arena o size st)
  unfolding alloc_from_arena
  alloc_from_arena-IsTaken no_chunk map links kernel role size h pos le =
      alloc_from_new_chunk-IsTaken no_chunk map links kernel role size h pos le
  alloc_from_arena-IsTaken failed_chunk map links kernel role size h pos le = stopped refl
  alloc_from_arena-IsTaken (chunk prev cur end) map links kernel role size h pos le =
      elim h.placed.rest [
        | rest_chunk real near small ↦
            rw (signed_lt_lem cur end size real near small (omega (arith, le)))
              (elim (Bool-cases (ltb end (cur + size))) [
                | inl e ↦ rw e (
                    alloc_from_new_chunk-IsTaken (chunk prev cur end) map links kernel role size h
                      pos le)
                | inr e ↦ rw e (
                    bump_cur-IsTaken (chunk prev cur end) kernel prev cur end map links kernel role
                      size (λ n refuses. inr (Refuses-suc refuses)) h pos (ground (arith, e)) real
                      small)
              ])
      ]

  pop-IsTaken :
      (st : Arena o) (role : Ptr → MetaRole) (size : ℕ)
      → IsArena k st role
      → 0 < size
      → size ≤ largest
      → head_of o st size ≢ null
      → OnRun (st.meta_arena ≡ failed_chunk) (IsTaken st role size) (
          store_entry o (st.links (head_of o st size)) size st >>= λ st'.
          some (head_of o st size, st'))
  pop-IsTaken st role size h pos le full =
      let p = head_of o st size in
      let (st', runs, (m, e, now, stay)) =
        store_entry-IsReheaded o (st.links p) size st (head-IsPath o st size full) in
      let at : (j : ℕ)
          → j ≤ largest
          → cmalloc_get m j ≡ (if size == j then st.links p else head_of o st j) =
        λ j fits.
          now j
          ∙ ap (λ b. if b then st.links p else head_of o st j) (same_key_size o size j le fits) in
      let (is, lists') = pop-Lists {head' = cmalloc_get m} size h.lists le full at in
      rw (runs, e)
        (yields (
          taken full (rw is refl)
            (record {
              placed =
                  subst (λ f. IsPlaced k f st.meta_arena st.kernel)
                    (extent_same role p (held size) (ap size_of is)) h.placed;
              sized = sized_update role p (held size) pos h.sized;
              lists = lists';
            })
            (record {
              links_same = refl;
              empty = λ j fits z. ground (arith, at j fits, z, full);
              map_stays = λ there. refl;
              nodes_stay = stay;
              spends = λ n stuck. CannotMap-suc n st stuck;
            })))

  -- With an arena as the invariant says, `cmalloc_alloc_metadata` gives a block that was not in use
  -- or NULL where mmap fails, and keeps the invariant; it faults only with MAP_FAILED in `meta_arena`.
  pub alloc_metadata-IsTaken :
      (st : Arena o) (role : Ptr → MetaRole) (size : ℕ)
      → IsArena k st role
      → 0 < size
      → size ≤ largest
      → OnRun
          (st.meta_arena ≡ failed_chunk)
          (IsTaken st role size)
          (cmalloc_alloc_metadata o size st)
  alloc_metadata-IsTaken st role size h pos le = rw (alloc_to_lem o zero size st) (
      run_either (head_of o st size == null)
        (λ e.
          alloc_from_arena-IsTaken st.meta_arena st.free_list_map st.links st.kernel role size h pos
            le)
        (λ e. pop-IsTaken st role size h pos le (λ z. ground (arith, e, z))))
