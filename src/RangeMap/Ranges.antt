-- ===== src/RangeMap/Ranges.antt =====
-- `cmalloc_map_range` and `cmalloc_unmap_range`: the loops over consecutive keys.
use fast_memory_allocator.Base.{
  ℕ, zero, suc, ◌+◌, ◌-◌, ◌*◌, ◌^◌, ◌≤◌, ◌<◌, ◌≡◌, ◌≢◌, refl, Bool, arith, ltb, leb, ◌&&◌,
  if◌then◌else◌, Option, some,
}
use fast_memory_allocator.Span.{Ptr, null}
use fast_memory_allocator.RangeMap.{
  Allocator, L1Node, cmalloc_get, map_keys, unmap_keys, cmalloc_map_range, cmalloc_unmap_range,
}
use fast_memory_allocator.RangeMap.Lookup.{get-cmalloc_map}
use fast_memory_allocator.RangeMap.Supply.{Serves, Serves-le, cmalloc_map_runs}
use fast_memory_allocator.RangeMap.Counts.{IsTrie}
use fast_memory_allocator.RangeMap.Unmap.{cmalloc_unmap-IsUnmapped}
use fast_memory_allocator.RangeMap.Grow.{cmalloc_map-IsTrie}

-- Whether `j` is one of the keys from `from` up to but not including `to`.
abbrev pub in_keys : ℕ → ℕ → ℕ → Bool
in_keys from to j = leb from j && ltb j to

module _ (a : Allocator) where
  open a use {Store}

  -- A run that ended well in a trie with right counts, where each key below 2 ^ 35 has `v` if it is
  -- in the range and its old value if it is not.
  pub record IsRange (m : L1Node) (v : Ptr) (from to : ℕ) (result : Option (L1Node × Store))
      : Type 0 where
    pub after : L1Node
    pub store : Store
    pub returns : result ≡ some (after, store)
    pub trie : IsTrie after
    pub lookup :
        (j : ℕ)
        → j < 2 ^ 35
        → cmalloc_get after j ≡ (if in_keys from to j then v else cmalloc_get m j)

  map_keys-IsRange :
      (left : ℕ) (m : L1Node) (v : Ptr) (k to : ℕ) (st : Store)
      → Serves a (2 * left) st
      → IsTrie m
      → v ≢ null
      → k + left ≡ to
      → to ≤ 2 ^ 35
      → IsRange m v k to (map_keys a left m v k st)
  unfolding map_keys
  map_keys-IsRange zero m v k to st serves trie real e fits = record {
    after = m;
    store = st;
    returns = refl;
    trie = trie;
    lookup = λ j h. ground arith;
  }
  map_keys-IsRange (suc left) m v k to st serves trie real e fits =
      let (r, runs, more) =
        cmalloc_map_runs a m v k (2 * left) st (Serves-le a _ _ st (omega arith) serves) in
      let trie' = cmalloc_map-IsTrie a m r.0 v k st r.1 trie real runs in
      let rest = map_keys-IsRange left r.0 v (k + 1) to r.1 more trie' real (omega arith) fits in
      record {
        after = rest.after;
        store = rest.store;
        returns = rw runs rest.returns;
        trie = rest.trie;
        lookup = λ j h. ground (arith, rest.lookup j h, get-cmalloc_map a m r.0 v k j st r.1 runs);
      }

  unmap_keys-IsRange :
      (left : ℕ) (m : L1Node) (k to : ℕ) (st : Store)
      → IsTrie m
      → k + left ≡ to
      → to ≤ 2 ^ 35
      → ((j : ℕ) → k ≤ j → j < to → cmalloc_get m j ≢ null)
      → IsRange m null k to (unmap_keys a left m k st)
  unfolding unmap_keys
  unmap_keys-IsRange zero m k to st trie e fits has = record {
    after = m;
    store = st;
    returns = refl;
    trie = trie;
    lookup = λ j h. ground arith;
  }
  unmap_keys-IsRange (suc left) m k to st trie e fits has =
      let one = cmalloc_unmap-IsUnmapped a m k st trie (has k (omega arith) (omega arith)) in
      let has' : (j : ℕ) → k + 1 ≤ j → j < to → cmalloc_get one.after j ≢ null =
        λ j h lt. ground (arith, one.lookup j, has j (omega arith) lt) in
      let rest =
        unmap_keys-IsRange left one.after (k + 1) to one.store one.trie (omega arith) fits has' in
      record {
        after = rest.after;
        store = rest.store;
        returns = rw one.returns rest.returns;
        trie = rest.trie;
        lookup = λ j h. ground (arith, rest.lookup j h, one.lookup j);
      }

  -- With metadata for two calls a key, `cmalloc_map_range` gives every key of the range the value and leaves every other key below 2 ^ 35 as it was.
  pub cmalloc_map_range-IsRange :
      (m : L1Node) (v : Ptr) (from to : ℕ) (st : Store)
      → Serves a (2 * (to - from)) st
      → IsTrie m
      → v ≢ null
      → from ≤ to
      → to ≤ 2 ^ 35
      → IsRange m v from to (cmalloc_map_range a m v from to st)
  unfolding cmalloc_map_range
  cmalloc_map_range-IsRange m v from to st serves trie real le fits =
      map_keys-IsRange (to - from) m v from to st serves trie real (omega arith) fits

  -- If every key of the range has a value, `cmalloc_unmap_range` passes its assertions, removes
  -- exactly these keys and keeps the counts right.
  pub cmalloc_unmap_range-IsRange :
      (m : L1Node) (from to : ℕ) (st : Store)
      → IsTrie m
      → from ≤ to
      → to ≤ 2 ^ 35
      → ((j : ℕ) → from ≤ j → j < to → cmalloc_get m j ≢ null)
      → IsRange m null from to (cmalloc_unmap_range a m from to st)
  unfolding cmalloc_unmap_range
  cmalloc_unmap_range-IsRange m from to st trie le fits has =
      unmap_keys-IsRange (to - from) m from to st trie (omega arith) fits has
