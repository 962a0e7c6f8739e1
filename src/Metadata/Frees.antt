-- ===== src/Metadata/Frees.antt =====
-- `cmalloc_free_metadata` of src/metadata.c between the arena's roles: the trie gets the nodes of the
-- size, from the arena itself, and the block is put at the front of the size's list.
use fast_memory_allocator.Base.{
  ℕ, ◌≤◌, ◌<◌, ◌≡◌, ◌≢◌, refl, ap, ◌∙◌, sym, subst, arith, true, ◌==◌, if◌then◌else◌, update,
  update_at, update_self, inl, inr, eq_false, eq_true, OnRun, yields, run_bind, run_weaken,
  run_because, is_some,
}
use fast_memory_allocator.Span.{Ptr, null}
use fast_memory_allocator.RangeMap.{cmalloc_get}
use fast_memory_allocator.SpanHeap.{Mapper}
use fast_memory_allocator.Metadata.{
  Arena, head_of, store_entry, map_size, cmalloc_alloc_metadata, cmalloc_free_metadata,
}
use fast_memory_allocator.Metadata.Paths.{ensure_leaf-IsGrown}
use fast_memory_allocator.Metadata.Nodes.{
  IsGrown-trans, ensure_middle-IsGrown, ensure_free_list_map-IsGrown,
}
use fast_memory_allocator.Metadata.Refusals.{CannotMap, CannotMap-suc}
use fast_memory_allocator.Metadata.Blocks.{IsChunkMapper, IsPlaced, largest}
use fast_memory_allocator.Metadata.Heads.{IsPath, store_entry-IsReheaded, same_key_size}
use fast_memory_allocator.Metadata.Lists.{
  MetaRole, held, free, size_of, is_held, IsArena, AllSized, Lists, sized_update, extent_same,
  push-Lists, list_written, held_apart,
}

module _ {o : Mapper} (k : IsChunkMapper o) where
  -- A block is in its size's list, and what else was in use still is.
  pub record IsFreed (st : Arena o) (role : Ptr → MetaRole) (p : Ptr) (size : ℕ) (st' : Arena o)
      : Type 0 where
    pub role' : Ptr → MetaRole
    pub kept : (q : Ptr) (n : ℕ) → q ≢ p → role q ≡ held n → role' q ≡ held n
    pub freed : role' p ≡ free size
    pub arena : IsArena k st' role'
    pub first : head_of o st' size ≡ p

  held_pos :
      (role : Ptr → MetaRole) (p : Ptr) (size : ℕ) → AllSized role → role p ≡ held size → 0 < size
  held_pos role p size sized is = elim (sized p) [
    | inl e ↦ absurd (ground (arith, ap is_held (sym is ∙ e)))
    | inr pos ↦ subst (λ x. 0 < size_of x) is pos
  ]

  -- The block is put at the front of its list.
  store_entry-IsFreed :
      {F : Type 0} (st : Arena o) (role : Ptr → MetaRole) (p : Ptr) (size : ℕ)
      → IsArena k st role
      → size ≤ largest
      → p ≢ null
      → role p ≡ held size
      → st.links p ≡ head_of o st size
      → IsPath o st size
      → OnRun F (IsFreed st role p size) (store_entry o p size st)
  store_entry-IsFreed st role p size h fits real is link path =
      let (st', runs, (m, e, now, stay)) = store_entry-IsReheaded o p size st path in
      let at : (j : ℕ) → j ≤ largest → cmalloc_get m j ≡ (if size == j then p else head_of o st j) =
        λ j le.
          now j ∙ ap (λ b. if b then p else head_of o st j) (same_key_size o size j fits le) in
      let lists = push-Lists {head' = cmalloc_get m} p size h.lists real is at in
      rw (runs, e)
        (yields (record {
          role' = update role p (free size);
          kept = λ q n ne used. rw (eq_false (λ d. ne (sym d))) used;
          freed = update_at role p (free size);
          arena = record {
            placed =
                subst (λ f. IsPlaced k f st.meta_arena st.kernel)
                  (extent_same role p (free size) (ap size_of is)) h.placed;
            sized = sized_update role p (free size) (held_pos role p size h.sized is) h.sized;
            lists =
                subst (λ f. Lists f (update role p (free size)) (cmalloc_get m))
                  (update_self st.links p (head_of o st size) link) lists;
          };
          first = at size fits ∙ ap (λ b. if b then p else head_of o st size) (eq_true refl);
        }))

  map_size-IsFreed :
      (st : Arena o) (role : Ptr → MetaRole) (p : Ptr) (size : ℕ)
      → IsArena k st role
      → size ≤ largest
      → p ≢ null
      → role p ≡ held size
      → st.links p ≡ head_of o st size
      → is_some st.free_list_map ≡ true
      → OnRun
          (CannotMap o 2 st)
          (IsFreed st role p size)
          (map_size o (cmalloc_alloc_metadata o) p size st)
  unfolding map_size
  map_size-IsFreed st role p size h fits real is link there =
      run_bind
        (run_because (CannotMap-suc 1 st) (ensure_middle-IsGrown k st role size h fits there))
        λ st1 (g, middle, spends).
          run_bind
            (run_because (spends 1) (ensure_leaf-IsGrown k st1 g.role' size g.arena fits middle))
            λ st2 (g', path, spends').
              let all = IsGrown-trans k g g' in
              run_weaken
                (store_entry-IsFreed st2 all.role' p size all.arena fits real (all.kept p size is)
                  (ap (λ f. f p) all.links_same ∙ link ∙ sym all.head_same) path)
                λ st3 f. yields (record {
                  role' = f.role';
                  kept = λ q n ne used. f.kept q n ne (all.kept q n used);
                  freed = f.freed;
                  arena = f.arena;
                  first = f.first;
                })

  -- The first word of a block in use is written to.
  linked-IsArena :
      (st : Arena o) (role : Ptr → MetaRole) (p v : Ptr) (n : ℕ)
      → IsArena k st role
      → role p ≡ held n
      → IsArena k (record st { links = update st.links p v }) role
  linked-IsArena st role p v n h is = record {
    placed = h.placed;
    sized = h.sized;
    lists = λ j le.
        let (ps, list) = h.lists j le in
        (
          ps,
          list_written
              (λ q other. rw (eq_false (λ d. held_apart (sym is ∙ ap role d ∙ other))) refl) list,
        );
  }

  -- A block that is in use can be given back: it becomes the first of its size's list.
  pub free_metadata-IsFreed :
      (st : Arena o) (role : Ptr → MetaRole) (p : Ptr) (size : ℕ)
      → IsArena k st role
      → size ≤ largest
      → role p ≡ held size
      → OnRun (CannotMap o 3 st) (IsFreed st role p size) (cmalloc_free_metadata o p size st)
  unfolding cmalloc_free_metadata
  free_metadata-IsFreed st role p size h fits is =
      run_bind
        (run_because (λ why. CannotMap-suc 2 st (CannotMap-suc 1 st why))
          (ensure_free_list_map-IsGrown k st role size h fits))
        λ st1 (g, there, spends).
          let is' = g.kept p size is in
          let v = head_of o st1 size in
          let real : p ≢ null = λ e. ground (
            arith,
            held_pos role p size h.sized is,
            ap size_of (sym is ∙ ap role e),
            h.placed.no_null,
          ) in
          rw (eq_false real) (
            run_weaken
              (run_because (spends 2) (
                map_size-IsFreed (record st1 { links = update st1.links p v }) g.role' p size
                  (linked-IsArena st1 g.role' p v size g.arena is') fits real is'
                  (update_at st1.links p v) there))
              λ st3 f. yields (record {
                role' = f.role';
                kept = λ q n ne used. f.kept q n ne (g.kept q n used);
                freed = f.freed;
                arena = f.arena;
                first = f.first;
              }))
