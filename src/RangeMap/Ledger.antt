-- ===== src/RangeMap/Ledger.antt =====
-- What the users of the metadata allocator rely on, as an interface: it hands out memory that is not
-- in use. And what `cmalloc_map_range` does to the trie and to that memory if it returns.
use fast_memory_allocator.Base.{
  ℕ, zero, suc, ◌+◌, ◌-◌, ◌^◌, ◌≤◌, ◌<◌, ◌≡◌, ◌≢◌, refl, true, arith, Option, none, some, ◌==◌,
  if◌then◌else◌, OnResult, no_result, result, on_bind, on_either, on_equal, on_weaken, Option-cases,
  inl, inr,
}
use fast_memory_allocator.Span.{Ptr, null}
use fast_memory_allocator.RangeMap.{
  Allocator, L1Node, L2Node, new_node, ensure_l2, ensure_l3, cmalloc_get, cmalloc_map, map_keys,
  cmalloc_map_range, l1_index, l2_index, sizeof_l2, sizeof_l3, empty_l2, empty_l3,
}
use fast_memory_allocator.RangeMap.Lookup.{get-cmalloc_map}
use fast_memory_allocator.RangeMap.Counts.{IsTrie}
use fast_memory_allocator.RangeMap.Grow.{cmalloc_map-IsTrie}
use fast_memory_allocator.RangeMap.Supply.{is_request}
use fast_memory_allocator.RangeMap.Ranges.{in_keys}

-- Which addresses are in use, in the sound states of an allocator.
pub record IsAllocator (a : Allocator) : Type 1 where
  pub IsSound : a.Store → Type 0
  pub IsHeld : a.Store → Ptr → Type 0
  pub sound :
      (size : ℕ)
      → is_request size ≡ true
      → (st : a.Store) → IsSound st
      → IsSound (a.alloc_metadata size st).1
  pub fresh :
      (size : ℕ)
      → is_request size ≡ true
      → (st : a.Store) → IsSound st
      → (a.alloc_metadata size st).0 ≢ null
      → ¬ IsHeld st (a.alloc_metadata size st).0
  pub taken :
      (size : ℕ)
      → is_request size ≡ true
      → (st : a.Store) → IsSound st
      → (a.alloc_metadata size st).0 ≢ null
      → IsHeld (a.alloc_metadata size st).1 (a.alloc_metadata size st).0
  pub kept :
      (size : ℕ)
      → is_request size ≡ true
      → (st : a.Store) (p : Ptr) → IsSound st
      → IsHeld st p
      → IsHeld (a.alloc_metadata size st).1 p

module _ {a : Allocator} (u : IsAllocator a) where
  -- A sound state in which all that was in use still is.
  pub record Grows (st st' : a.Store) : Type 0 where
    pub sound : u.IsSound st'
    pub kept : (p : Ptr) → u.IsHeld st p → u.IsHeld st' p

  pub same-Grows : {st : a.Store} → u.IsSound st → Grows st st
  same-Grows ok = record { sound = ok; kept = λ p h. h }

  pub Grows-trans : {r s t : a.Store} → Grows r s → Grows s t → Grows r t
  Grows-trans g g' = record { sound = g'.sound; kept = λ p h. g'.kept p (g.kept p h) }

  pub alloc-Grows :
      (size : ℕ)
      → is_request size ≡ true
      → (st : a.Store) → u.IsSound st
      → Grows st (a.alloc_metadata size st).1
  alloc-Grows size req st ok = record {
    sound = u.sound size req st ok;
    kept = λ p. u.kept size req st p ok;
  }

  new_node-Grows :
      {Node : Type 0} (size : ℕ) (empty : Node) (st : a.Store)
      → is_request size ≡ true
      → u.IsSound st
      → OnResult (λ (n, st'). Grows st st') (new_node a size empty st)
  unfolding new_node
  new_node-Grows size empty st req ok =
      on_either ((a.alloc_metadata size st).0 == null) (λ e. no_result)
        (λ e. result (alloc-Grows size req st ok))

  ensure_l2-Grows :
      (m : L1Node) (i : ℕ) (st : a.Store)
      → u.IsSound st
      → OnResult (λ (n, st'). Grows st st') (ensure_l2 a m i st)
  unfolding ensure_l2
  ensure_l2-Grows m i st ok = go (m.l1 i)
    where
      go :
          (n : Option (Ptr × L2Node))
          → OnResult
              (λ (n', st'). Grows st st')
              (elim n [ none ↦ new_node a sizeof_l2 empty_l2 st | some n' ↦ some (n', st) ])
      go none = new_node-Grows sizeof_l2 empty_l2 st refl ok
      go (some n) = result (same-Grows ok)

  ensure_l3-Grows :
      (n : L2Node) (i : ℕ) (st : a.Store)
      → u.IsSound st
      → OnResult (λ (leaf, c, st'). Grows st st') (ensure_l3 a n i st)
  unfolding ensure_l3
  ensure_l3-Grows n i st ok = elim (Option-cases (n.l2 i)) [
    | inl e ↦
        rw (e, ensure_l3)
          (on_bind (new_node-Grows sizeof_l3 empty_l3 st refl ok) λ (leaf, st') g. result g)
    | inr (leaf, e) ↦ rw (e, ensure_l3) (result (same-Grows ok))
  ]

  cmalloc_map-Grows :
      (m : L1Node) (v : Ptr) (k : ℕ) (st : a.Store)
      → u.IsSound st
      → OnResult (λ (m', st'). Grows st st') (cmalloc_map a m v k st)
  unfolding cmalloc_map
  cmalloc_map-Grows m v k st ok =
      on_bind (ensure_l2-Grows m (l1_index k) st ok) λ ((p2, n2), st1) g.
        on_bind (ensure_l3-Grows n2 (l2_index k) st1 g.sound)
          λ (leaf, c, st2) g'. result (Grows-trans g g')

  -- A trie in which the keys of a range have a value and all others are as before.
  pub record IsMapped (m : L1Node) (v : Ptr) (from to : ℕ) (st : a.Store) (r : L1Node × a.Store)
      : Type 0 where
    pub trie : IsTrie r.0
    pub grows : Grows st r.1
    pub lookup :
        (j : ℕ)
        → j < 2 ^ 35
        → cmalloc_get r.0 j ≡ (if in_keys from to j then v else cmalloc_get m j)

  map_keys-IsMapped :
      (left : ℕ) (m : L1Node) (v : Ptr) (k to : ℕ) (st : a.Store)
      → u.IsSound st
      → IsTrie m
      → v ≢ null
      → k + left ≡ to
      → to ≤ 2 ^ 35
      → OnResult (IsMapped m v k to st) (map_keys a left m v k st)
  unfolding map_keys
  map_keys-IsMapped zero m v k to st ok trie real e fits =
      result (record { trie = trie; grows = same-Grows ok; lookup = λ j h. ground arith })
  map_keys-IsMapped (suc left) m v k to st ok trie real e fits =
      elim (Option-cases (cmalloc_map a m v k st)) [
        | inl fails ↦ rw fails no_result
        | inr (x, runs) ↦ rw runs (
            let g = on_equal runs (cmalloc_map-Grows m v k st ok) in
            let trie' = cmalloc_map-IsTrie a m x.0 v k st x.1 trie real runs in
            on_weaken
              (map_keys-IsMapped left x.0 v (k + 1) to x.1 g.sound trie' real (omega arith) fits)
              λ y rest. result (record {
                trie = rest.trie;
                grows = Grows-trans g rest.grows;
                lookup = λ j h.
                    ground (arith, rest.lookup j h, get-cmalloc_map a m x.0 v k j st x.1 runs);
              }))
      ]

  pub cmalloc_map_range-IsMapped :
      (m : L1Node) (v : Ptr) (from to : ℕ) (st : a.Store)
      → u.IsSound st
      → IsTrie m
      → v ≢ null
      → from ≤ to
      → to ≤ 2 ^ 35
      → OnResult (IsMapped m v from to st) (cmalloc_map_range a m v from to st)
  unfolding cmalloc_map_range
  cmalloc_map_range-IsMapped m v from to st ok trie real le fits =
      map_keys-IsMapped (to - from) m v from to st ok trie real (omega arith) fits
