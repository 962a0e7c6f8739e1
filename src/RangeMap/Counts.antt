-- ===== src/RangeMap/Counts.antt =====
-- The counts of the nodes, and `cmalloc_unmap`, which frees the nodes that its counts say are empty.
use fast_memory_allocator.Base.{
  ℕ, ◌+◌, ◌<◌, ◌≡◌, ◌≢◌, refl, Bool, true, false, not, arith, ◌==◌, ◌&&◌, if◌then◌else◌, update,
  sym, subst, ◌∙◌, Bool-cases, Option-cases, inl, inr, ap, ==_iff, eq_true, none, some, count,
  count-le, count_one_more, count_ext, count-zero_elim, is_some,
}
use fast_memory_allocator.Base.Words.{sub64}
use fast_memory_allocator.Span.{Ptr, null}
use fast_memory_allocator.RangeMap.{Allocator, L1Node, L2Node, L3Node, sizeof_l3, clear_l3}
use fast_memory_allocator.RangeMap.Lookup.{leaf_at}

abbrev pub entries : L3Node → ℕ
entries n = count 2048 (λ i. not (n.l3 i == null))

abbrev pub children : L2Node → ℕ
children n = count 4096 (λ i. is_some (n.l2 i))

-- A leaf counts its entries.
pub record IsLeaf (n : L3Node) : Type 0 where
  pub counted : n.count ≡ entries n

-- A middle node counts its leaves, none of which is empty.
pub record IsMiddle (n : L2Node) : Type 0 where
  pub counted : n.count ≡ children n
  pub leaves : (i : ℕ) (p : Ptr) (c : L3Node) → n.l2 i ≡ some (p, c) → IsLeaf c × (0 < c.count)

-- No middle node is empty.
pub record IsTrie (m : L1Node) : Type 0 where
  pub middles : (i : ℕ) (p : Ptr) (n : L2Node) → m.l1 i ≡ some (p, n) → IsMiddle n × (0 < n.count)

module _ (n : L3Node) (leaf : IsLeaf n) (j : ℕ) (lt : j < 2048) where
  abbrev cleared : L3Node
  cleared = record { l3 = update n.l3 j null; count = sub64 n.count 1 }

  module _ (full : n.l3 j ≢ null) where
    entries-cleared : entries n ≡ entries cleared + 1
    entries-cleared =
        count_one_more 2048 j (λ i. not (cleared.l3 i == null)) (λ i. not (n.l3 i == null)) lt
          (ground arith) (ground arith) (λ i ne. ground arith)

    cleared-IsLeaf : IsLeaf cleared
    cleared-IsLeaf = record {
      counted =
          omega (arith, leaf.counted, entries-cleared, count-le 2048 (λ i. not (n.l3 i == null)));
    }

    cleared_empty : (i : ℕ) → i < 2048 → i ≢ j → cleared.count ≡ 0 → n.l3 i ≡ null
    cleared_empty i h ne e =
        let gone =
          count-zero_elim 2048 i (λ i. not (cleared.l3 i == null)) (sym cleared-IsLeaf.counted ∙ e)
            h in
        ground arith

module _ (a : Allocator) where
  open a use {Store}

  module _ (n2 : L2Node) (middle : IsMiddle n2) (i : ℕ) (p3 : Ptr) (n3 : L3Node)
      (at_i : n2.l2 i ≡ some (p3, n3)) (i_lt : i < 4096) (j : ℕ) (j_lt : j < 2048)
      (full : n3.l3 j ≢ null) (st : Store) where
    abbrev pub after : L2Node
    after = (clear_l3 a n2 i p3 n3 j st).0

    leaf : IsLeaf n3
    leaf = (middle.leaves i p3 n3 at_i).0

    after-other : (i' : ℕ) → i ≢ i' → after.l2 i' ≡ n2.l2 i'
    unfolding clear_l3
    after-other i' ne = ground arith

    after-same :
        (j' : ℕ) → j' < 2048 → leaf_at (after.l2 i) j' ≡ (if j == j' then null else n3.l3 j')
    unfolding clear_l3
    after-same j' lt = ground (arith, cleared_empty n3 leaf j j_lt full j')

    -- The entry is gone, and no other entry of the node.
    pub leaf_at-clear_l3 :
        (i' j' : ℕ)
        → j' < 2048
        → leaf_at (after.l2 i') j'
          ≡ (if (i == i') && (j == j') then null else leaf_at (n2.l2 i') j')
    leaf_at-clear_l3 i' j' lt = elim (Bool-cases (i == i')) [
      | inl same ↦
          let e : i ≡ i' = (==_iff i i').0 same in
          rw (← e, eq_true {a = i} {b = i} refl, at_i) (after-same j' lt)
      | inr other ↦ rw (after-other i' (ground arith), other)
    ]

    was_there : is_some (n2.l2 i) ≡ true
    was_there = rw at_i

    abbrev emptied : L2Node
    emptied = record { l2 = update n2.l2 i none; count = sub64 n2.count 1 }

    abbrev thinned : L2Node
    thinned = record { l2 = update n2.l2 i (some (p3, cleared n3 leaf j j_lt)); count = n2.count }

    abbrev outcome : Bool → L2Node
    outcome b =
        (if◌then◌else◌ {A = L2Node × Store} b (emptied, a.free_metadata p3 sizeof_l3 st)
          (thinned, st)).0

    after_last : (sub64 n3.count 1 == 0) ≡ true → after ≡ emptied
    unfolding clear_l3
    after_last last = ap outcome last

    after_more : (sub64 n3.count 1 == 0) ≡ false → after ≡ thinned
    unfolding clear_l3
    after_more more = ap outcome more

    emptied-IsMiddle : IsMiddle emptied
    emptied-IsMiddle = record {
      counted = omega (
        arith,
        middle.counted,
        count-le 4096 (λ k. is_some (n2.l2 k)),
        count_one_more 4096 i (λ k. is_some (update n2.l2 i none k)) (λ k. is_some (n2.l2 k)) i_lt
            (ground arith) was_there (λ k ne. ground arith),
      );
      leaves = λ k p c e. middle.leaves k p c (ground arith);
    }

    thinned-IsMiddle : (sub64 n3.count 1 == 0) ≡ false → IsMiddle thinned
    thinned-IsMiddle more = record {
      counted =
          middle.counted
          ∙ count_ext 4096 (λ k. is_some (n2.l2 k)) _ (λ k lt. ground (arith, was_there));
      leaves = λ k p c e. elim (Bool-cases (i == k)) [
        | inl same ↦
            let here : cleared n3 leaf j j_lt ≡ c = ground arith in
            subst (λ x. IsLeaf x × (0 < x.count)) here
              (cleared-IsLeaf n3 leaf j j_lt full, ground arith)
        | inr other ↦ middle.leaves k p c (ground arith)
      ];
    }

    pub clear_l3-IsMiddle : IsMiddle after
    clear_l3-IsMiddle = elim (Bool-cases (sub64 n3.count 1 == 0)) [
      | inl last ↦ subst IsMiddle (sym (after_last last)) emptied-IsMiddle
      | inr more ↦ subst IsMiddle (sym (after_more more)) (thinned-IsMiddle more)
    ]

    -- A node whose count is now 0 has no leaf.
    pub empty_after : after.count ≡ 0 → (k : ℕ) → k < 4096 → after.l2 k ≡ none
    empty_after e k lt =
        let gone =
          count-zero_elim 4096 k (λ x. is_some (after.l2 x)) (sym clear_l3-IsMiddle.counted ∙ e)
            lt in
        elim (Option-cases (after.l2 k)) [
          | inl none_there ↦ none_there
          | inr (leaf_there, there) ↦ ground arith
        ]
