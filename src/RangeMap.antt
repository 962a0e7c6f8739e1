-- ===== src/RangeMap.antt =====
-- src/range_map.c: a radix trie of three levels from 35-bit keys to pointers.
--
-- A node is a value that stands where the C code has a pointer to it, beside the address that the
-- allocator of metadata gave it: each node has one parent, and no operation hands a node out. The
-- allocator is a parameter, since the trie is used with the metadata arena, which itself uses a
-- trie.
pub mod Lookup
pub mod Counts
pub mod Unmap
pub mod Grow
pub mod Supply
pub mod Ranges
pub mod Ledger
pub mod Tests
use fast_memory_allocator.Base.{
  ℕ, zero, suc, ◌+◌, ◌-◌, ◌*◌, ◌/◌, ◌%◌, ◌^◌, bit_and, Bool, true, false, Option, none, some, ltb,
  ◌==◌, if◌then◌else◌, update, ◌>>=◌,
}
use fast_memory_allocator.Base.Words.{u64, sub64}
use fast_memory_allocator.Span.{Ptr, null}

-- What the trie asks of `cmalloc_alloc_metadata` and `cmalloc_free_metadata`.
pub record Allocator : Type 1 where
  pub Store : Type 0
  pub alloc_metadata : ℕ → Store → Ptr × Store
  pub free_metadata : Ptr → ℕ → Store → Store

pub record L3Node : Type 0 where
  pub l3 : ℕ → Ptr
  pub count : ℕ

pub record L2Node : Type 0 where
  pub l2 : ℕ → Option (Ptr × L3Node)
  pub count : ℕ

pub record L1Node : Type 0 where
  pub l1 : ℕ → Option (Ptr × L2Node)

abbrev pub empty_l3 : L3Node
empty_l3 = record { l3 = λ i. null; count = 0 }

abbrev pub empty_l2 : L2Node
empty_l2 = record { l2 = λ i. none; count = 0 }

abbrev pub empty_map : L1Node
empty_map = record { l1 = λ i. none }

-- sizeof of the three nodes, with pointers and counts of 8 bytes.
abbrev pub sizeof_l1 : ℕ
sizeof_l1 = 2 ^ 12 * 8

abbrev pub sizeof_l2 : ℕ
sizeof_l2 = 2 ^ 12 * 8 + 8

abbrev pub sizeof_l3 : ℕ
sizeof_l3 = 2 ^ 11 * 8 + 8

unfoldable pub l1_index : ℕ → ℕ
l1_index key = bit_and (key / 2 ^ 23) (2 ^ 12 - 1)

unfoldable pub l2_index : ℕ → ℕ
l2_index key = bit_and (key / 2 ^ 11) (2 ^ 12 - 1)

unfoldable pub l3_index : ℕ → ℕ
l3_index key = bit_and key (2 ^ 11 - 1)

unfoldable pub cmalloc_get : L1Node → ℕ → Ptr
cmalloc_get m key = elim (m.l1 (l1_index key)) [
  | none ↦ null
  | some (p2, n2) ↦ elim (n2.l2 (l2_index key)) [
    | none ↦ null
    | some (p3, n3) ↦ n3.l3 (l3_index key)
  ]
]

-- The store into a leaf, with its count of entries that are not NULL.
unfoldable pub store_l3 : L3Node → ℕ → Ptr → L3Node
store_l3 n i value = record {
  l3 = update n.l3 i value;
  count = if n.l3 i == null then u64 (n.count + 1) else n.count;
}

module _ (a : Allocator) where
  open a use {Store, alloc_metadata, free_metadata}

  -- A new node's memory, cleared. `none`: the allocator gave NULL and `memset` faults.
  unfoldable pub new_node : {Node : Type 0} → ℕ → Node → Store → Option ((Ptr × Node) × Store)
  new_node size empty st =
      let (p, st') = alloc_metadata size st in if p == null then none else some ((p, empty), st')

  unfoldable pub ensure_l2 : L1Node → ℕ → Store → Option ((Ptr × L2Node) × Store)
  ensure_l2 m i st = elim (m.l1 i) [ none ↦ new_node sizeof_l2 empty_l2 st | some n ↦ some (n, st) ]

  -- The leaf at `i`, and the count of its parent.
  unfoldable pub ensure_l3 : L2Node → ℕ → Store → Option ((Ptr × L3Node) × ℕ × Store)
  ensure_l3 n i st = elim (n.l2 i) [
    | none ↦ new_node sizeof_l3 empty_l3 st >>= λ (leaf, st'). some (leaf, u64 (n.count + 1), st')
    | some leaf ↦ some (leaf, n.count, st)
  ]

  unfoldable pub cmalloc_map : L1Node → Ptr → ℕ → Store → Option (L1Node × Store)
  cmalloc_map m value key st = do
    ((p2, n2), st1) ← ensure_l2 m (l1_index key) st
    ((p3, n3), count2, st2) ← ensure_l3 n2 (l2_index key) st1
    let n3' = store_l3 n3 (l3_index key) value
    let n2' : L2Node = record { l2 = update n2.l2 (l2_index key) (some (p3, n3')); count = count2 }
    some (record { l1 = update m.l1 (l1_index key) (some (p2, n2')) }, st2)

  -- The leaf loses an entry, and is freed if it was the last one.
  unfoldable pub clear_l3 : L2Node → ℕ → Ptr → L3Node → ℕ → Store → L2Node × Store
  clear_l3 n2 i p3 n3 j st =
      let n3' : L3Node = record { l3 = update n3.l3 j null; count = sub64 n3.count 1 } in
      if n3'.count == 0
      then (
        record { l2 = update n2.l2 i none; count = sub64 n2.count 1 },
        free_metadata p3 sizeof_l3 st,
      )
      else (record { l2 = update n2.l2 i (some (p3, n3')); count = n2.count }, st)

  -- The middle node is freed if its count has become 0.
  unfoldable pub settle_l2 : L1Node → ℕ → Ptr → L2Node → Store → L1Node × Store
  settle_l2 m i p2 n2 st =
      if n2.count == 0
      then (record { l1 = update m.l1 i none }, free_metadata p2 sizeof_l2 st)
      else (record { l1 = update m.l1 i (some (p2, n2)) }, st)

  -- `none`: one of the three assertions fails.
  unfoldable pub cmalloc_unmap : L1Node → ℕ → Store → Option (L1Node × Store)
  cmalloc_unmap m key st = do
    (p2, n2) ← m.l1 (l1_index key)
    (p3, n3) ← n2.l2 (l2_index key)
    if n3.l3 (l3_index key) == null
        then none
        else let (n2', st1) = clear_l3 n2 (l2_index key) p3 n3 (l3_index key) st in
          some (settle_l2 m (l1_index key) p2 n2' st1)

  -- The loops over the keys from `key` on, with `left` of them to go.
  unfoldable pub map_keys : ℕ → L1Node → Ptr → ℕ → Store → Option (L1Node × Store)
  map_keys zero m value key st = some (m, st)
  map_keys (suc left) m value key st = do
    (m', st') ← cmalloc_map m value key st
    map_keys left m' value (key + 1) st'

  unfoldable pub unmap_keys : ℕ → L1Node → ℕ → Store → Option (L1Node × Store)
  unmap_keys zero m key st = some (m, st)
  unmap_keys (suc left) m key st = do
    (m', st') ← cmalloc_unmap m key st
    unmap_keys left m' (key + 1) st'

  unfoldable pub cmalloc_map_range : L1Node → Ptr → ℕ → ℕ → Store → Option (L1Node × Store)
  cmalloc_map_range m value from to st = map_keys (to - from) m value from st

  unfoldable pub cmalloc_unmap_range : L1Node → ℕ → ℕ → Store → Option (L1Node × Store)
  cmalloc_unmap_range m from to st = unmap_keys (to - from) m from st

  -- `none`: the allocator gave NULL. The memory is not cleared: a fresh arena is zero.
  unfoldable pub cmalloc_initialize_range_map : Store → Option (L1Node × Store)
  cmalloc_initialize_range_map st =
      let (p, st') = alloc_metadata sizeof_l1 st in
      if p == null then none else some (empty_map, st')
