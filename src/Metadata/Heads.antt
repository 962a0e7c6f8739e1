-- ===== src/Metadata/Heads.antt =====
-- The heads of the free lists of src/metadata.c: what the changes of the trie do to them.
use native.Mathlib.Nat.{mod-eq_of_lt}
use fast_memory_allocator.Base.{
  ℕ, ◌^◌, ◌%◌, ◌≤◌, ◌≡◌, ◌≢◌, refl, ap, ◌∙◌, ◌⊎◌, arith, Bool, true, false, Option, none, some,
  ◌==◌, Bool-cases, ==_iff, if◌then◌else◌, Option-cases, inl, inr, update, is_some,
}
use fast_memory_allocator.Span.{Ptr, null}
use fast_memory_allocator.RangeMap.{
  L1Node, L2Node, L3Node, empty_l2, empty_l3, cmalloc_get, store_l3, l1_index, l2_index, l3_index,
}
use fast_memory_allocator.RangeMap.Lookup.{same_key, get_lem, child_at, leaf_at, indices_lem}
use fast_memory_allocator.SpanHeap.{Mapper}
use fast_memory_allocator.Metadata.Blocks.{largest}
use fast_memory_allocator.Metadata.{Arena, head_of, store_entry, set_map}

-- The head of a size's list, and whether the first node of the trie has a child at `i`.
abbrev pub head_in : ℕ → Option L1Node → Ptr
head_in size none = null
head_in size (some m) = cmalloc_get m size

abbrev pub has_l2 : ℕ → Option L1Node → Bool
has_l2 i none = false
has_l2 i (some m) = is_some (m.l1 i)

module _ (o : Mapper) where
  -- The state with another map, in which the size's list has another head.
  abbrev pub IsReheaded : Ptr → ℕ → Arena o → Arena o → Type 0
  IsReheaded v key st st' =
      (m : L1Node) × (st' ≡ set_map m st)
      × ((j : ℕ) → cmalloc_get m j ≡ (if same_key key j then v else head_of o st j))
      × ((i : ℕ) → has_l2 i st.free_list_map ≡ true → has_l2 i (some m) ≡ true)

  unfoldable stored : L1Node → ℕ → Ptr → Ptr → L2Node → Ptr → L3Node → L1Node
  stored m key v p2 n2 p3 n3 = record {
    l1 = update m.l1 (l1_index key) (
        some (
          p2,
          record n2 { l2 = update n2.l2 (l2_index key) (some (p3, store_l3 n3 (l3_index key) v)) },
        ));
  }

  -- The three steps of a lookup in the new trie.
  leaf-stored :
      (n3 : L3Node) (i3 j3 : ℕ) (v : Ptr)
      → (store_l3 n3 i3 v).l3 j3 ≡ (if i3 == j3 then v else n3.l3 j3)
  unfolding store_l3
  leaf-stored n3 i3 j3 v = refl

  get-stored :
      (m : L1Node) (key : ℕ) (v p2 : Ptr) (n2 : L2Node) (p3 : Ptr) (n3 : L3Node) (j : ℕ)
      → m.l1 (l1_index key) ≡ some (p2, n2)
      → n2.l2 (l2_index key) ≡ some (p3, n3)
      → cmalloc_get (stored m key v p2 n2 p3 n3) j ≡ (if same_key key j then v else cmalloc_get m j)
  unfolding stored store_l3
  get-stored m key v p2 n2 p3 n3 j e e' =
      rw (get_lem (stored m key v p2 n2 p3 n3), get_lem m, ← indices_lem key j)
        (elim (Bool-cases (l1_index key == l1_index j)) [
          | inr d ↦ rw d refl
          | inl d ↦
              rw (d, ← (==_iff _ _).0 d, e)
                (elim (Bool-cases (l2_index key == l2_index j)) [
                  | inr d' ↦ rw d' refl
                  | inl d' ↦ rw (d', ← (==_iff _ _).0 d', e') refl
                ])
        ])

  -- The nodes of a size, in the trie.
  pub record IsPath (st : Arena o) (key : ℕ) : Type 0 where
    pub m : L1Node
    pub p2 : Ptr
    pub n2 : L2Node
    pub p3 : Ptr
    pub n3 : L3Node
    pub map : st.free_list_map ≡ some m
    pub middle : m.l1 (l1_index key) ≡ some (p2, n2)
    pub leaf : n2.l2 (l2_index key) ≡ some (p3, n3)

  pub head_of_lem :
      (st : Arena o) (key : ℕ) (m : L1Node)
      → st.free_list_map ≡ some m
      → head_of o st key ≡ cmalloc_get m key
  head_of_lem st key m e = ap (head_in key) e

  pub head-IsPath : (st : Arena o) (key : ℕ) → head_of o st key ≢ null → IsPath st key
  head-IsPath st key full = elim (Option-cases st.free_list_map) [
    | inl e ↦ absurd (full (ap (head_in key) e))
    | inr (m, e) ↦ elim (Option-cases (m.l1 (l1_index key))) [
      | inl e' ↦ absurd (
          full (
            head_of_lem st key m e
            ∙ get_lem m key
            ∙ ap (λ x. child_at x (l2_index key) (l3_index key)) e'))
      | inr ((p2, n2), e') ↦ elim (Option-cases (n2.l2 (l2_index key))) [
        | inl e'' ↦ absurd (
            full (
              head_of_lem st key m e
              ∙ get_lem m key
              ∙ ap (λ x. child_at x (l2_index key) (l3_index key)) e'
              ∙ ap (λ x. leaf_at x (l3_index key)) e''))
        | inr ((p3, n3), e'') ↦ record {
          m = m;
          p2 = p2;
          n2 = n2;
          p3 = p3;
          n3 = n3;
          map = e;
          middle = e';
          leaf = e'';
        }
      ]
    ]
  ]

  pub store_entry-IsReheaded :
      (v : Ptr) (key : ℕ) (st : Arena o)
      → IsPath st key
      → (st' : Arena o) × (store_entry o v key st ≡ some st') × IsReheaded v key st st'
  unfolding store_entry stored
  store_entry-IsReheaded v key st at =
      let m' = stored at.m key v at.p2 at.n2 at.p3 at.n3 in
      (
        set_map m' st,
        rw (at.map, at.middle, at.leaf) refl,
        (
          m',
          refl,
          λ j. rw at.map (get-stored at.m key v at.p2 at.n2 at.p3 at.n3 j at.middle at.leaf),
          λ i. rw at.map (λ there. ground (arith, there)),
        ),
      )

  -- Sizes that fit in a chunk have different keys.
  pub same_key_size : (n j : ℕ) → n ≤ largest → j ≤ largest → same_key n j ≡ (n == j)
  same_key_size n j h h' =
      let n_small : n % 2 ^ 35 ≡ n = mod-eq_of_lt (omega (arith, h)) in
      let j_small : j % 2 ^ 35 ≡ j = mod-eq_of_lt (omega (arith, h')) in rw (n_small, j_small) refl

  -- A new node is empty: the lists that it would hold are.
  pub get-add_middle :
      (m : L1Node) (i : ℕ) (p : Ptr) (j : ℕ)
      → let m' : L1Node = record { l1 = update m.l1 i (some (p, empty_l2)) } in
        (cmalloc_get m' j ≡ null) ⊎ (cmalloc_get m' j ≡ cmalloc_get m j)
  get-add_middle m i p j =
      rw (get_lem m, get_lem (record { l1 = update m.l1 i _ }))
        (elim (Bool-cases (i == l1_index j)) [ inl d ↦ inl (rw d refl) | inr d ↦ inr (rw d refl) ])

  pub get-add_leaf :
      (m : L1Node) (i i' : ℕ) (p p2 : Ptr) (n2 : L2Node) (count j : ℕ)
      → m.l1 i ≡ some (p2, n2)
      → let m' : L1Node = record {
        l1 =
            update m.l1 i
              (some (p2, record { l2 = update n2.l2 i' (some (p, empty_l3)); count = count }));
      } in
        (cmalloc_get m' j ≡ null) ⊎ (cmalloc_get m' j ≡ cmalloc_get m j)
  get-add_leaf m i i' p p2 n2 count j e =
      rw (get_lem m, get_lem (record { l1 = update m.l1 i _ }))
        (elim (Bool-cases (i == l1_index j)) [
          | inr d ↦ inr (rw d refl)
          | inl d ↦
              rw (d, ← (==_iff _ _).0 d, e)
                (elim (Bool-cases (i' == l2_index j)) [
                  | inl d' ↦ inl (rw d' refl)
                  | inr d' ↦ inr (rw d' refl)
                ])
        ])
