-- ===== src/RangeMap/Lookup.antt =====
-- The trie as a map: what a lookup finds after an update, for every pair of keys.
use fast_memory_allocator.Base.{
  ℕ, ◌/◌, ◌%◌, ◌^◌, ◌<◌, ◌≡◌, Bool, arith, ◌==◌, ◌&&◌, ◌↔◌, if◌then◌else◌, Option, none, some,
}
use fast_memory_allocator.Base.Bits.Mask.{bit_and_low}
use fast_memory_allocator.Span.{Ptr, null}
use fast_memory_allocator.RangeMap.{
  Allocator, L1Node, L2Node, L3Node, l1_index, l2_index, l3_index, cmalloc_get, store_l3, new_node,
  ensure_l2, ensure_l3, cmalloc_map, cmalloc_unmap,
}

-- The trie looks at the low 35 bits of a key.
abbrev pub same_key : ℕ → ℕ → Bool
same_key k j = k % 2 ^ 35 == j % 2 ^ 35

-- The lookup, from the three indices.
abbrev pub leaf_at : Option (Ptr × L3Node) → ℕ → Ptr
leaf_at none i3 = null
leaf_at (some (p, n)) i3 = n.l3 i3

abbrev pub child_at : Option (Ptr × L2Node) → ℕ → ℕ → Ptr
child_at none i2 i3 = null
child_at (some (p, n)) i2 i3 = leaf_at (n.l2 i2) i3

pub get_lem :
    (m : L1Node) (k : ℕ) → cmalloc_get m k ≡ child_at (m.l1 (l1_index k)) (l2_index k) (l3_index k)
unfolding cmalloc_get
get_lem m k = ground arith

pub l1_index-lt : (k : ℕ) → l1_index k < 4096
unfolding l1_index
l1_index-lt k = omega (arith, bit_and_low 12 (k / 2 ^ 23))

pub l2_index-lt : (k : ℕ) → l2_index k < 4096
unfolding l2_index
l2_index-lt k = omega (arith, bit_and_low 12 (k / 2 ^ 11))

pub l3_index-lt : (k : ℕ) → l3_index k < 2048
unfolding l3_index
l3_index-lt k = omega (arith, bit_and_low 11 k)

-- Two keys have the same three indices exactly when they agree in their low 35 bits.
pub indices_lem :
    (k j : ℕ)
    → ((l1_index k == l1_index j) && (l2_index k == l2_index j) && (l3_index k == l3_index j))
      ≡ same_key k j
unfolding l1_index l2_index l3_index
indices_lem k j =
    rw
      (
        bit_and_low 12 (k / 2 ^ 23),
        bit_and_low 12 (j / 2 ^ 23),
        bit_and_low 12 (k / 2 ^ 11),
        bit_and_low 12 (j / 2 ^ 11),
        bit_and_low 11 k,
        bit_and_low 11 j,
      )
      (ground arith)

module _ (a : Allocator) where
  open a use {Store}

  get-cmalloc_map_indices :
      (m m' : L1Node) (v : Ptr) (k j : ℕ) (st st' : Store)
      → cmalloc_map a m v k st ≡ some (m', st')
      → child_at (m'.l1 (l1_index j)) (l2_index j) (l3_index j) ≡ (
          if (l1_index k == l1_index j) && (l2_index k == l2_index j) && (l3_index k == l3_index j)
          then v
          else child_at (m.l1 (l1_index j)) (l2_index j) (l3_index j))
  unfolding cmalloc_map ensure_l2 ensure_l3 new_node store_l3
  get-cmalloc_map_indices m m' v k j st st' e = ground arith

  -- After `cmalloc_map` the keys that agree with the new one in 35 bits have the new value, and
  -- every other key has its old one.
  pub get-cmalloc_map :
      (m m' : L1Node) (v : Ptr) (k j : ℕ) (st st' : Store)
      → cmalloc_map a m v k st ≡ some (m', st')
      → cmalloc_get m' j ≡ (if same_key k j then v else cmalloc_get m j)
  get-cmalloc_map m m' v k j st st' e =
      rw (get_lem m', get_lem m, ← indices_lem k j) (get-cmalloc_map_indices m m' v k j st st' e)

  -- `cmalloc_unmap` fails an assertion exactly at a key that has no value.
  pub cmalloc_unmap-eq-none :
      (m : L1Node) (k : ℕ) (st : Store) → (cmalloc_unmap a m k st ≡ none) ↔ (cmalloc_get m k ≡ null)
  unfolding cmalloc_unmap
  cmalloc_unmap-eq-none m k st = rw get_lem (ground arith)
