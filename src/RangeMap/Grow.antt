-- ===== src/RangeMap/Grow.antt =====
-- `cmalloc_map` keeps the counts of the nodes right, as long as the value is not NULL.
use fast_memory_allocator.Base.{
  ℕ, ◌<◌, ◌≡◌, ◌≢◌, Bool, not, arith, ◌==◌, update, sym, subst, ◌∙◌, Bool-cases, Option-cases, inl,
  inr, ap, some, >>=-eq-some, some_inj, count, count-le, count_one_more, count_ext, count-pos,
  count-false, is_some,
}
use fast_memory_allocator.Span.{Ptr, null}
use fast_memory_allocator.RangeMap.{
  Allocator, L1Node, L2Node, L3Node, l1_index, l2_index, l3_index, empty_l2, empty_l3, ensure_l2,
  ensure_l3, new_node, store_l3, cmalloc_map,
}
use fast_memory_allocator.RangeMap.Lookup.{l2_index-lt, l3_index-lt}
use fast_memory_allocator.RangeMap.Counts.{IsLeaf, IsMiddle, IsTrie, entries}

empty-IsLeaf : IsLeaf empty_l3
empty-IsLeaf = record { counted = sym (count-false 2048 _ (λ i h. ground arith)) }

empty-IsMiddle : IsMiddle empty_l2
empty-IsMiddle = record {
  counted = sym (count-false 4096 _ (λ i h. ground arith));
  leaves = λ i p c e. ground arith;
}

module _ (n : L3Node) (leaf : IsLeaf n) (j : ℕ) (lt : j < 2048) (v : Ptr) (real : v ≢ null) where
  abbrev stored : ℕ → Bool
  stored i = not (update n.l3 j v i == null)

  store_l3-IsLeaf : IsLeaf (store_l3 n j v)
  unfolding store_l3
  store_l3-IsLeaf = record {
    counted = elim (Bool-cases (n.l3 j == null)) [
      | inl new ↦ rw new (
          omega (
            arith,
            leaf.counted,
            count-le 2048 (λ i. not (n.l3 i == null)),
            count_one_more 2048 j (λ i. not (n.l3 i == null)) stored lt (ground arith)
                (ground arith) (λ i ne. ground arith),
          ))
      | inr old ↦ rw old (leaf.counted ∙ count_ext 2048 _ stored (λ i h. ground arith))
    ];
  }

  store_l3-pos : 0 < (store_l3 n j v).count
  store_l3-pos =
      let some_entry : 0 < entries (store_l3 n j v) =
        count-pos 2048 j (λ i. not ((store_l3 n j v).l3 i == null)) lt
          (unfold store_l3 in ground arith) in
      omega (arith, store_l3-IsLeaf.counted, some_entry)

module _ (a : Allocator) where
  open a use {Store}

  ensure_l2-IsMiddle :
      (m : L1Node) (i : ℕ) (st : Store) (p2 : Ptr) (n2 : L2Node) (st1 : Store)
      → IsTrie m
      → ensure_l2 a m i st ≡ some ((p2, n2), st1)
      → IsMiddle n2
  unfolding ensure_l2 new_node
  ensure_l2-IsMiddle m i st p2 n2 st1 trie e = elim (Option-cases (m.l1 i)) [
    | inl missing ↦ let same : empty_l2 ≡ n2 = ground arith in subst IsMiddle same empty-IsMiddle
    | inr ((p, n), there) ↦ (trie.middles i p2 n2 (ground arith)).0
  ]

  ensure_l3-IsLeaf :
      (n2 : L2Node) (i : ℕ) (st : Store) (p3 : Ptr) (n3 : L3Node) (c : ℕ) (st2 : Store)
      → IsMiddle n2
      → ensure_l3 a n2 i st ≡ some ((p3, n3), c, st2)
      → IsLeaf n3
  unfolding ensure_l3 new_node
  ensure_l3-IsLeaf n2 i st p3 n3 c st2 middle e = elim (Option-cases (n2.l2 i)) [
    | inl missing ↦ let same : empty_l3 ≡ n3 = ground arith in subst IsLeaf same empty-IsLeaf
    | inr ((p, n), there) ↦ (middle.leaves i p3 n3 (ground arith)).0
  ]

  ensure_l3-children :
      (n2 : L2Node) (i : ℕ) (st : Store) (p3 : Ptr) (n3 n3' : L3Node) (c : ℕ) (st2 : Store)
      → IsMiddle n2
      → i < 4096
      → ensure_l3 a n2 i st ≡ some ((p3, n3), c, st2)
      → c ≡ count 4096 (λ k. is_some (update n2.l2 i (some (p3, n3')) k))
  unfolding ensure_l3 new_node
  ensure_l3-children n2 i st p3 n3 n3' c st2 middle lt e = elim (Option-cases (n2.l2 i)) [
    | inl missing ↦
        let one_more =
          count_one_more 4096 i (λ k. is_some (n2.l2 k))
            (λ k. is_some (update n2.l2 i (some (p3, n3')) k)) lt (ground arith) (ground arith)
            (λ k ne. ground arith) in
        ground (arith, middle.counted, one_more, count-le 4096 (λ k. is_some (n2.l2 k)))
    | inr ((p, n), there) ↦
        let same =
          count_ext 4096 (λ k. is_some (n2.l2 k)) (λ k. is_some (update n2.l2 i (some (p3, n3')) k))
            (λ k h. ground arith) in
        ground (arith, middle.counted, same)
  ]

  module _ (m : L1Node) (trie : IsTrie m) (v : Ptr) (real : v ≢ null) (k : ℕ) (st : Store)
      (p2 : Ptr) (n2 : L2Node) (st1 : Store)
      (got2 : ensure_l2 a m (l1_index k) st ≡ some ((p2, n2), st1)) (p3 : Ptr) (n3 : L3Node) (c : ℕ)
      (st2 : Store) (got3 : ensure_l3 a n2 (l2_index k) st1 ≡ some ((p3, n3), c, st2)) where
    abbrev leaf' : L3Node
    leaf' = store_l3 n3 (l3_index k) v

    abbrev middle' : L2Node
    middle' = record { l2 = update n2.l2 (l2_index k) (some (p3, leaf')); count = c }

    abbrev grown : L1Node
    grown = record { l1 = update m.l1 (l1_index k) (some (p2, middle')) }

    old-IsMiddle : IsMiddle n2
    old-IsMiddle = ensure_l2-IsMiddle m (l1_index k) st p2 n2 st1 trie got2

    old-IsLeaf : IsLeaf n3
    old-IsLeaf = ensure_l3-IsLeaf n2 (l2_index k) st1 p3 n3 c st2 old-IsMiddle got3

    middle'-IsMiddle : IsMiddle middle' × (0 < c)
    middle'-IsMiddle =
        let counted =
          ensure_l3-children n2 (l2_index k) st1 p3 n3 leaf' c st2 old-IsMiddle (l2_index-lt k)
            got3 in
        (
          record {
            counted = counted;
            leaves = λ i p n e. elim (Bool-cases (l2_index k == i)) [
              | inl same ↦
                  let here : leaf' ≡ n = ground arith in
                  subst (λ x. IsLeaf x × (0 < x.count)) here
                    (
                      store_l3-IsLeaf n3 old-IsLeaf (l3_index k) (l3_index-lt k) v real,
                      store_l3-pos n3 old-IsLeaf (l3_index k) (l3_index-lt k) v real,
                    )
              | inr other ↦ old-IsMiddle.leaves i p n (ground arith)
            ];
          },
          omega (
            arith,
            counted,
            count-pos 4096 (l2_index k) (λ i. is_some (middle'.l2 i)) (l2_index-lt k)
                (ground arith),
          ),
        )

    grown-IsTrie : IsTrie grown
    grown-IsTrie = record {
      middles = λ i p n e. elim (Bool-cases (l1_index k == i)) [
        | inl same ↦
            let here : middle' ≡ n = ground arith in
            subst (λ x. IsMiddle x × (0 < x.count)) here middle'-IsMiddle
        | inr other ↦ trie.middles i p n (ground arith)
      ];
    }

  -- Storing a value other than NULL keeps the counts of the trie right.
  pub cmalloc_map-IsTrie :
      (m m' : L1Node) (v : Ptr) (k : ℕ) (st st' : Store)
      → IsTrie m
      → v ≢ null
      → cmalloc_map a m v k st ≡ some (m', st')
      → IsTrie m'
  unfolding cmalloc_map
  cmalloc_map-IsTrie m m' v k st st' trie real e =
      let (x, got2, rest) = >>=-eq-some (ensure_l2 a m (l1_index k) st) _ e in
      let (y, got3, last) = >>=-eq-some (ensure_l3 a x.0.1 (l2_index k) x.1) _ rest in
      let built = grown-IsTrie m trie v real k st x.0.0 x.0.1 x.1 got2 y.0.0 y.0.1 y.1 y.2 got3 in
      subst IsTrie (ap (λ (r : L1Node × Store). r.0) (some_inj last)) built
