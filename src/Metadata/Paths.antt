-- ===== src/Metadata/Paths.antt =====
-- The leaf of the trie that `cmalloc_free_metadata` of src/metadata.c takes from the arena for a size.
use fast_memory_allocator.Base.{
  ℕ, ◌+◌, ◌≤◌, ◌≡◌, refl, ap, ◌∙◌, sym, arith, true, some, update, update_at, inl, inr, eq_false,
  OnRun, yields, Option-cases,
}
use fast_memory_allocator.Base.Words.{u64}
use fast_memory_allocator.Span.{Ptr, null}
use fast_memory_allocator.RangeMap.{
  L1Node, L2Node, empty_l3, l1_index, l2_index, l3_index, sizeof_l3,
}
use fast_memory_allocator.RangeMap.Lookup.{get_lem, child_at, leaf_at}
use fast_memory_allocator.SpanHeap.{Mapper}
use fast_memory_allocator.Metadata.{
  Arena, head_of, set_map, add_leaf, ensure_leaf, cmalloc_alloc_metadata,
}
use fast_memory_allocator.Metadata.Nodes.{
  IsGrown, alloc_then, bind_fails, l2_there, stays, kept_update, remap,
}
use fast_memory_allocator.Metadata.Refusals.{CannotMap, Spends, CannotMap-suc}
use fast_memory_allocator.Metadata.Blocks.{IsChunkMapper, largest}
use fast_memory_allocator.Metadata.Heads.{IsPath, has_l2, head_in, get-add_leaf}
use fast_memory_allocator.Metadata.Lists.{MetaRole, held, IsArena}

module _ {o : Mapper} (k : IsChunkMapper o) where
  new-IsPath :
      (st : Arena o) (key : ℕ) (m : L1Node) (p2 : Ptr) (n2 : L2Node) (p : Ptr) (count : ℕ)
      → let n2' : L2Node = record {
        l2 = update n2.l2 (l2_index key) (some (p, empty_l3));
        count = count;
      } in
        IsPath o (set_map (record { l1 = update m.l1 (l1_index key) (some (p2, n2')) }) st) key
  new-IsPath st key m p2 n2 p count =
      let n2' : L2Node = record {
        l2 = update n2.l2 (l2_index key) (some (p, empty_l3));
        count = count;
      } in
      record {
        m = record { l1 = update m.l1 (l1_index key) (some (p2, n2')) };
        p2 = p2;
        n2 = n2';
        p3 = p;
        n3 = empty_l3;
        map = refl;
        middle = update_at m.l1 (l1_index key) _;
        leaf = update_at n2.l2 (l2_index key) _;
      }

  add_leaf-IsGrown :
      (st : Arena o) (role : Ptr → MetaRole) (key : ℕ)
      → IsArena k st role
      → key ≤ largest
      → head_of o st key ≡ null
      → has_l2 (l1_index key) st.free_list_map ≡ true
      → OnRun
          (CannotMap o 1 st)
          (λ st'. IsGrown k st role key st' × IsPath o st' key × Spends o st st')
          (add_leaf o (cmalloc_alloc_metadata o) (l1_index key) (l2_index key) st)
  unfolding add_leaf
  add_leaf-IsGrown st role key h fits empty there =
      alloc_then k st role sizeof_l3 _ h (omega arith) (omega arith)
        (λ st'.
          bind_fails k st'.free_list_map _ λ m. bind_fails k (m.l1 (l1_index key)) _ λ n. refl)
        λ p st' real new arena leaves.
          let (m, (p2, n2), e, e') =
            l2_there k (l1_index key) st'.free_list_map (leaves.nodes_stay _ there) in
          let thin = get-add_leaf o m (l1_index key) (l2_index key) p p2 n2 (u64 (n2.count + 1)) in
          rw (e, e', eq_false real)
            (yields (
              record {
                role' = update role p (held sizeof_l3);
                kept = kept_update k role p sizeof_l3 new;
                arena = remap k st' _ m _ arena e (λ j. thin j e');
                links_same = leaves.links_same;
                head_same = elim (thin key e') [
                  | inl z ↦ z ∙ sym empty
                  | inr same ↦
                      same ∙ sym (ap (head_in key) e) ∙ leaves.empty key fits empty ∙ sym empty
                ];
              },
              new-IsPath st' key m p2 n2 p _,
              leaves.spends,
            ))

  ensure_leaf_from :
      (st : Arena o) (role : Ptr → MetaRole) (key : ℕ) (m : L1Node) (p2 : Ptr) (n2 : L2Node)
      → IsArena k st role
      → key ≤ largest
      → has_l2 (l1_index key) st.free_list_map ≡ true
      → st.free_list_map ≡ some m
      → m.l1 (l1_index key) ≡ some (p2, n2)
      → OnRun
          (CannotMap o 1 st)
          (λ st'. IsGrown k st role key st' × IsPath o st' key × Spends o st st')
          (ensure_leaf o (cmalloc_alloc_metadata o) (l1_index key) (l2_index key) st)
  unfolding ensure_leaf
  ensure_leaf_from st role key m p2 n2 h fits there e e' =
      elim (Option-cases (n2.l2 (l2_index key))) [
        | inl e'' ↦
            simp (e, e', e'')
              (add_leaf-IsGrown st role key h fits
                (ap (head_in key) e
                  ∙ get_lem m key
                  ∙ ap (λ x. child_at x (l2_index key) (l3_index key)) e'
                  ∙ ap (λ x. leaf_at x (l3_index key)) e'')
                there)
        | inr ((p3, n3), e'') ↦
            simp (e, e', e'')
              (yields (
                stays k st role key h,
                record {
                  m = m;
                  p2 = p2;
                  n2 = n2;
                  p3 = p3;
                  n3 = n3;
                  map = e;
                  middle = e';
                  leaf = e'';
                },
                (λ n. CannotMap-suc n st),
              ))
      ]

  pub ensure_leaf-IsGrown :
      (st : Arena o) (role : Ptr → MetaRole) (key : ℕ)
      → IsArena k st role
      → key ≤ largest
      → has_l2 (l1_index key) st.free_list_map ≡ true
      → OnRun
          (CannotMap o 1 st)
          (λ st'. IsGrown k st role key st' × IsPath o st' key × Spends o st st')
          (ensure_leaf o (cmalloc_alloc_metadata o) (l1_index key) (l2_index key) st)
  ensure_leaf-IsGrown st role key h fits there =
      let (m, n, e, e') = l2_there k (l1_index key) st.free_list_map there in
      ensure_leaf_from st role key m n.0 n.1 h fits there e e'
