-- ===== src/RangeMap/Unmap.antt =====
-- `cmalloc_unmap` on a trie whose counts are right: it removes one key, and frees exactly the nodes
-- that have become empty.
use fast_memory_allocator.Base.{
  ℕ, ◌<◌, ◌≡◌, ◌≢◌, Bool, true, false, arith, ◌==◌, ◌&&◌, if◌then◌else◌, update, sym, subst, ◌∙◌,
  Bool-cases, Option-cases, inl, inr, ap, ==_iff, eq_false, Option, none, some,
}
use fast_memory_allocator.Span.{Ptr, null}
use fast_memory_allocator.RangeMap.{
  Allocator, L1Node, L2Node, L3Node, l1_index, l2_index, l3_index, cmalloc_get, clear_l3, settle_l2,
  cmalloc_unmap, sizeof_l2,
}
use fast_memory_allocator.RangeMap.Lookup.{
  leaf_at, child_at, get_lem, l2_index-lt, l3_index-lt, same_key, indices_lem,
}
use fast_memory_allocator.RangeMap.Counts.{
  IsMiddle, IsTrie, leaf_at-clear_l3, clear_l3-IsMiddle, empty_after,
}

-- Where a key that has a value is kept.
record IsLocated (m : L1Node) (k : ℕ) : Type 0 where
  p2 : Ptr
  n2 : L2Node
  p3 : Ptr
  n3 : L3Node
  at1 : m.l1 (l1_index k) ≡ some (p2, n2)
  at2 : n2.l2 (l2_index k) ≡ some (p3, n3)
  full : n3.l3 (l3_index k) ≢ null

located : (m : L1Node) (k : ℕ) → cmalloc_get m k ≢ null → IsLocated m k
located m k has = elim (Option-cases (m.l1 (l1_index k))) [
  | inl missing ↦ absurd (has (get_lem m k ∙ ground arith))
  | inr ((p2, n2), at1) ↦ elim (Option-cases (n2.l2 (l2_index k))) [
    | inl missing ↦ absurd (has (get_lem m k ∙ ground arith))
    | inr ((p3, n3), at2) ↦ record {
      p2 = p2;
      n2 = n2;
      p3 = p3;
      n3 = n3;
      at1 = at1;
      at2 = at2;
      full = λ e. has (get_lem m k ∙ ground arith);
    }
  ]
]

module _ (a : Allocator) where
  open a use {Store}

  module _ (m : L1Node) (trie : IsTrie m) (i : ℕ) (p2 : Ptr) (n2 : L2Node) (middle : IsMiddle n2)
      (bare : n2.count ≡ 0 → (k : ℕ) → k < 4096 → n2.l2 k ≡ none) (st : Store) where
    abbrev settled : L1Node
    settled = (settle_l2 a m i p2 n2 st).0

    abbrev dropped : L1Node
    dropped = record { l1 = update m.l1 i none }

    abbrev kept : L1Node
    kept = record { l1 = update m.l1 i (some (p2, n2)) }

    abbrev outcome : Bool → L1Node
    outcome b =
        (if◌then◌else◌ {A = L1Node × Store} b (dropped, a.free_metadata p2 sizeof_l2 st)
          (kept, st)).0

    settled-dropped : (n2.count == 0) ≡ true → settled ≡ dropped
    unfolding settle_l2
    settled-dropped e = ap outcome e

    settled-kept : (n2.count == 0) ≡ false → settled ≡ kept
    unfolding settle_l2
    settled-kept e = ap outcome e

    child_at-settled :
        (i' i2 i3 : ℕ)
        → i2 < 4096
        → child_at (settled.l1 i') i2 i3
          ≡ (if i == i' then leaf_at (n2.l2 i2) i3 else child_at (m.l1 i') i2 i3)
    unfolding settle_l2
    child_at-settled i' i2 i3 lt = elim (Bool-cases (n2.count == 0)) [
      | inl empty ↦
          rw (settled-dropped empty) (ground (arith, bare ((==_iff n2.count 0).0 empty) i2 lt))
      | inr some_left ↦ rw (settled-kept some_left) (ground arith)
    ]

    settled-IsTrie : IsTrie settled
    settled-IsTrie = elim (Bool-cases (n2.count == 0)) [
      | inl empty ↦
          subst IsTrie (sym (settled-dropped empty))
            (record { middles = λ k p n e. trie.middles k p n (ground arith) })
      | inr some_left ↦ subst IsTrie (sym (settled-kept some_left)) (record {
        middles = λ k p n e. elim (Bool-cases (i == k)) [
          | inl same ↦
              let here : n2 ≡ n = ground arith in
              subst (λ x. IsMiddle x × (0 < x.count)) here (middle, ground arith)
          | inr other ↦ trie.middles k p n (ground arith)
        ];
      })
    ]

  module _ (m : L1Node) (k : ℕ) (st : Store) (trie : IsTrie m) (at : IsLocated m k) where
    parent_node : IsMiddle at.n2
    parent_node = (trie.middles (l1_index k) at.p2 at.n2 at.at1).0

    abbrev cleared : L2Node × Store
    cleared = clear_l3 a at.n2 (l2_index k) at.p3 at.n3 (l3_index k) st

    cleared-IsMiddle : IsMiddle (cleared.0)
    cleared-IsMiddle =
        clear_l3-IsMiddle a at.n2 parent_node (l2_index k) at.p3 at.n3 at.at2 (l2_index-lt k)
          (l3_index k) (l3_index-lt k) at.full st

    bare_of : cleared.0.count ≡ 0 → (i : ℕ) → i < 4096 → cleared.0.l2 i ≡ none
    bare_of =
        empty_after a at.n2 parent_node (l2_index k) at.p3 at.n3 at.at2 (l2_index-lt k) (l3_index k)
          (l3_index-lt k) at.full st

    leaf_of :
        (i j : ℕ)
        → j < 2048
        → leaf_at (cleared.0.l2 i) j
          ≡ (if (l2_index k == i) && (l3_index k == j) then null else leaf_at (at.n2.l2 i) j)
    leaf_of =
        leaf_at-clear_l3 a at.n2 parent_node (l2_index k) at.p3 at.n3 at.at2 (l2_index-lt k)
          (l3_index k) (l3_index-lt k) at.full st

    unmapped : L1Node × Store
    unmapped = settle_l2 a m (l1_index k) at.p2 cleared.0 cleared.1

    cmalloc_unmap-runs : cmalloc_unmap a m k st ≡ some unmapped
    unfolding cmalloc_unmap unmapped
    cmalloc_unmap-runs = rw (at.at1, at.at2, eq_false at.full)

    unmapped-IsTrie : IsTrie unmapped.0
    unfolding unmapped
    unmapped-IsTrie =
        settled-IsTrie m trie (l1_index k) at.p2 cleared.0 cleared-IsMiddle bare_of cleared.1

    get-unmapped :
        (j : ℕ) → cmalloc_get unmapped.0 j ≡ (if same_key k j then null else cmalloc_get m j)
    unfolding unmapped
    get-unmapped j =
        rw
          (
            get_lem,
            get_lem,
            child_at-settled m trie (l1_index k) at.p2 cleared.0 cleared-IsMiddle bare_of cleared.1
                (l1_index j) (l2_index j) (l3_index j) (l2_index-lt j),
            leaf_of (l2_index j) (l3_index j) (l3_index-lt j),
            ← indices_lem k j,
          )
          (elim (Bool-cases (l1_index k == l1_index j)) [
            | inl same ↦
                let e : m.l1 (l1_index j) ≡ some (at.p2, at.n2) =
                  subst (λ i. m.l1 i ≡ some (at.p2, at.n2))
                    ((==_iff (l1_index k) (l1_index j)).0 same) at.at1 in
                rw (e, same)
            | inr other ↦ rw other
          ])

  -- What a successful `cmalloc_unmap` gives.
  pub record IsUnmapped (m : L1Node) (k : ℕ) (result : Option (L1Node × Store)) : Type 0 where
    pub after : L1Node
    pub store : Store
    pub returns : result ≡ some (after, store)
    pub trie : IsTrie after
    pub lookup : (j : ℕ) → cmalloc_get after j ≡ (if same_key k j then null else cmalloc_get m j)

  -- At a key that has a value `cmalloc_unmap` passes its assertions, removes that key (with the keys
  -- that agree with it in 35 bits) and no other, and keeps the counts right.
  pub cmalloc_unmap-IsUnmapped :
      (m : L1Node) (k : ℕ) (st : Store)
      → IsTrie m
      → cmalloc_get m k ≢ null
      → IsUnmapped m k (cmalloc_unmap a m k st)
  cmalloc_unmap-IsUnmapped m k st trie has =
      let at = located m k has in
      record {
        after = (unmapped m k st trie at).0;
        store = (unmapped m k st trie at).1;
        returns = cmalloc_unmap-runs m k st trie at;
        trie = unmapped-IsTrie m k st trie at;
        lookup = get-unmapped m k st trie at;
      }
