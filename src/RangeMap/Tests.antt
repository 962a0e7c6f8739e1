-- ===== src/RangeMap/Tests.antt =====
-- The trie over a bump allocator: runs, and the theorems about them.
use fast_memory_allocator.Base.{
  ℕ, ◌≡◌, ◌≢◌, refl, ◌+◌, ◌≤◌, ◌<◌, arith, none, some, Option, suc, [], ◌∷◌, ◌>>=◌, if◌then◌else◌,
}
use fast_memory_allocator.Span.{null}
use fast_memory_allocator.RangeMap.{
  Allocator, L1Node, empty_map, cmalloc_map, cmalloc_get, cmalloc_unmap, cmalloc_map_range,
  cmalloc_unmap_range, map_keys, unmap_keys, ensure_l2, ensure_l3, new_node, store_l3, clear_l3,
  settle_l2, l1_index, l2_index, l3_index,
}
use fast_memory_allocator.RangeMap.Lookup.{same_key, get-cmalloc_map}
use fast_memory_allocator.RangeMap.Counts.{IsTrie}
use fast_memory_allocator.RangeMap.Unmap.{IsUnmapped, cmalloc_unmap-IsUnmapped}
use fast_memory_allocator.RangeMap.Grow.{cmalloc_map-IsTrie}

-- Addresses in increasing order, never NULL.
abbrev bump : Allocator
bump = record {
  Store = ℕ;
  alloc_metadata = λ size st. (suc st, suc st + size);
  free_metadata = λ p size st. st;
}

empty_map-IsTrie : IsTrie empty_map
empty_map-IsTrie = record { middles = λ i p n e. ground arith }

-- The trie with key 70000 mapped to 9.
abbrev one_key : Option (L1Node × ℕ)
one_key = cmalloc_map bump empty_map 9 70000 0

range_run :
    (cmalloc_map_range bump empty_map 9 2047 2050 0 >>= λ (m, st).
    cmalloc_unmap_range bump m 2047 2049 st >>= λ (m', st').
    some (cmalloc_get m 2048 ∷ cmalloc_get m' 2048 ∷ cmalloc_get m' 2049 ∷ []))
    ≡ some (9 ∷ 0 ∷ 9 ∷ [])
unfolding cmalloc_map_range cmalloc_unmap_range map_keys unmap_keys cmalloc_map cmalloc_unmap
    cmalloc_get ensure_l2 ensure_l3 new_node store_l3 clear_l3 settle_l2 l1_index l2_index l3_index
range_run = refl

-- The node that `cmalloc_map` makes of an empty trie.
abbrev made : L1Node
made = elim one_key [ none ↦ empty_map | some r ↦ r.0 ]

abbrev made_store : ℕ
made_store = elim one_key [ none ↦ 0 | some r ↦ r.1 ]

made_runs : cmalloc_map bump empty_map 9 70000 0 ≡ some (made, made_store)
unfolding cmalloc_map ensure_l2 ensure_l3 new_node
made_runs = refl

get-cmalloc_map_example :
    cmalloc_get made 5 ≡ (if same_key 70000 5 then 9 else cmalloc_get empty_map 5)
get-cmalloc_map_example = get-cmalloc_map bump empty_map made 9 70000 5 0 made_store made_runs

made-IsTrie : IsTrie made
made-IsTrie =
    cmalloc_map-IsTrie bump empty_map made 9 70000 0 made_store empty_map-IsTrie (omega arith)
      made_runs

made_has : (j : ℕ) → 70000 ≤ j → j < 70001 → cmalloc_get made j ≢ null
made_has j ge lt =
    let e : j ≡ 70000 = omega arith in
    let there : cmalloc_get made 70000 ≡ 9 =
      get-cmalloc_map bump empty_map made 9 70000 70000 0 made_store made_runs in
    rw e (omega (arith, there))

cmalloc_unmap-IsUnmapped_example :
    IsUnmapped bump made 70000 (cmalloc_unmap bump made 70000 made_store)
cmalloc_unmap-IsUnmapped_example =
    cmalloc_unmap-IsUnmapped bump made 70000 made_store made-IsTrie
      (made_has 70000 (omega arith) (omega arith))
