-- ===== src/Metadata/Nodes.antt =====
-- The nodes that `cmalloc_free_metadata` of src/metadata.c takes from the arena for a size, between
-- the arena's roles.
use fast_memory_allocator.Base.{
  ℕ, ◌≤◌, ◌<◌, ◌≡◌, ◌≢◌, refl, ap, ◌∙◌, sym, ◌⊎◌, arith, true, false, Option, none, some, ◌==◌,
  if◌then◌else◌, update, update_at, inl, inr, Bool-cases, ==_iff, eq_false, OnRun, stopped, yields,
  run_bind, run_because, is_some, ◌>>=◌, Option-cases,
}
use fast_memory_allocator.Span.{Ptr, null}
use fast_memory_allocator.RangeMap.{
  L1Node, L2Node, cmalloc_get, empty_map, l1_index, l2_index, l3_index, sizeof_l1, sizeof_l2,
}
use fast_memory_allocator.RangeMap.Lookup.{get_lem, child_at}
use fast_memory_allocator.SpanHeap.{Mapper}
use fast_memory_allocator.Metadata.{
  Arena, head_of, set_map, add_middle, ensure_middle, cmalloc_alloc_metadata, ensure_free_list_map,
}
use fast_memory_allocator.Metadata.Blocks.{IsChunkMapper, largest}
use fast_memory_allocator.Metadata.Heads.{has_l2, head_in, get-add_middle}
use fast_memory_allocator.Metadata.Lists.{MetaRole, held, is_held, IsArena, thin-Lists}
use fast_memory_allocator.Metadata.Refusals.{CannotMap, Spends, refuses_now, CannotMap-suc}
use fast_memory_allocator.Metadata.Allocs.{IsTaken, Leaves, refused, taken, alloc_metadata-IsTaken}

module _ {o : Mapper} (k : IsChunkMapper o) where
  -- The arena has given blocks to the trie, and the list of the size is as before.
  pub record IsGrown (st : Arena o) (role : Ptr → MetaRole) (key : ℕ) (st' : Arena o) : Type 0 where
    pub role' : Ptr → MetaRole
    pub kept : (q : Ptr) (n : ℕ) → role q ≡ held n → role' q ≡ held n
    pub arena : IsArena k st' role'
    pub links_same : st'.links ≡ st.links
    pub head_same : head_of o st' key ≡ head_of o st key

  pub stays :
      (st : Arena o) (role : Ptr → MetaRole) (key : ℕ) → IsArena k st role → IsGrown st role key st
  stays st role key h = record {
    role' = role;
    kept = λ q n e. e;
    arena = h;
    links_same = refl;
    head_same = refl;
  }

  -- What was held is not what is taken.
  pub kept_update :
      (role : Ptr → MetaRole) (p : Ptr) (size : ℕ)
      → is_held (role p) ≡ false
      → (q : Ptr) (n : ℕ) → role q ≡ held n
      → update role p (held size) q ≡ held n
  kept_update role p size new q n e = elim (Bool-cases (p == q)) [
    | inl d ↦ absurd (ground (arith, new, ap is_held (ap role ((==_iff p q).0 d) ∙ e)))
    | inr d ↦ rw d e
  ]

  -- A changed trie, of which no list is new.
  pub remap :
      (st : Arena o) (role : Ptr → MetaRole) (m m' : L1Node)
      → IsArena k st role
      → st.free_list_map ≡ some m
      → ((j : ℕ) → (cmalloc_get m' j ≡ null) ⊎ (cmalloc_get m' j ≡ cmalloc_get m j))
      → IsArena k (set_map m' st) role
  remap st role m m' h e thin = record {
    placed = h.placed;
    sized = h.sized;
    lists = thin-Lists {head' = cmalloc_get m'} h.lists (λ j. rw e (thin j));
  }

  -- Code that calls `cmalloc_alloc_metadata` and faults on NULL.
  pub alloc_then :
      {B : Type 0} {Q : B → Type 0} (st : Arena o) (role : Ptr → MetaRole) (size : ℕ)
      (f : Ptr × Arena o → Option B)
      → IsArena k st role
      → 0 < size
      → size ≤ largest
      → ((st' : Arena o) → f (null, st') ≡ none)
      → ((p : Ptr) (st' : Arena o)
          → p ≢ null
          → is_held (role p) ≡ false
          → IsArena k st' (update role p (held size))
          → Leaves k st st'
          → OnRun (CannotMap o 1 st) Q (f (p, st')))
      → OnRun (CannotMap o 1 st) Q (cmalloc_alloc_metadata o size st >>= f)
  alloc_then {Q} st role size f h pos le faults goes =
      run_bind (run_because inl (alloc_metadata-IsTaken k st role size h pos le)) λ x t. case_of x t
    where
      case_of : (x : Ptr × Arena o) → IsTaken k st role size x → OnRun (CannotMap o 1 st) Q (f x)
      case_of _ (refused {st'} fails failed arena leaves) =
          rw (faults st') (stopped (inr (refuses_now fails)))
      case_of _ (taken {p} {st'} real new arena leaves) = goes p st' real new arena leaves

  pub bind_fails :
      {A B : Type 0} (m : Option A) (f : A → Option B) → ((x : A) → f x ≡ none) → (m >>= f) ≡ none
  bind_fails none f fails = refl
  bind_fails (some x) f fails = fails x

  is_some_at :
      {A : Type 0} (f : ℕ → Option A) (i : ℕ) (x : A) → is_some (update f i (some x) i) ≡ true
  is_some_at f i x = ap is_some (update_at f i (some x))

  pub l2_there :
      (i : ℕ) (map : Option L1Node)
      → has_l2 i map ≡ true
      → (m : L1Node) × (n : Ptr × L2Node) × (map ≡ some m) × (m.l1 i ≡ some n)
  l2_there i none e = absurd (ground (arith, e))
  l2_there i (some m) e = elim (Option-cases (m.l1 i)) [
    | inl d ↦ absurd (ground (arith, e, ap is_some d))
    | inr (n, d) ↦ (m, n, refl, d)
  ]

  add_middle-IsGrown :
      (st : Arena o) (role : Ptr → MetaRole) (i key : ℕ)
      → IsArena k st role
      → key ≤ largest
      → head_of o st key ≡ null
      → is_some st.free_list_map ≡ true
      → OnRun
          (CannotMap o 1 st)
          (λ st'. IsGrown st role key st' × (has_l2 i st'.free_list_map ≡ true) × Spends o st st')
          (add_middle o (cmalloc_alloc_metadata o) i st)
  unfolding add_middle
  add_middle-IsGrown st role i key h fits empty there =
      alloc_then st role sizeof_l2 _ h (omega arith) (omega arith)
        (λ st'. bind_fails st'.free_list_map _ λ m. refl)
        λ p st' real new arena leaves. elim (Option-cases st'.free_list_map) [
          | inl e ↦ absurd (ground (arith, ap is_some e, leaves.map_stays there))
          | inr (m, e) ↦
              rw (e, eq_false real)
                (yields (
                  record {
                    role' = update role p (held sizeof_l2);
                    kept = kept_update role p sizeof_l2 new;
                    arena = remap st' _ m _ arena e (get-add_middle o m i p);
                    links_same = leaves.links_same;
                    head_same = elim (get-add_middle o m i p key) [
                      | inl z ↦ z ∙ sym empty
                      | inr same ↦
                          same ∙ sym (ap (head_in key) e) ∙ leaves.empty key fits empty ∙ sym empty
                    ];
                  },
                  is_some_at m.l1 i _,
                  leaves.spends,
                ))
        ]

  pub ensure_middle-IsGrown :
      (st : Arena o) (role : Ptr → MetaRole) (key : ℕ)
      → IsArena k st role
      → key ≤ largest
      → is_some st.free_list_map ≡ true
      → OnRun
          (CannotMap o 1 st)
          (λ st'.
            IsGrown st role key st'
            × (has_l2 (l1_index key) st'.free_list_map ≡ true)
            × Spends o st st')
          (ensure_middle o (cmalloc_alloc_metadata o) (l1_index key) st)
  unfolding ensure_middle
  ensure_middle-IsGrown st role key h fits there = elim (Option-cases st.free_list_map) [
    | inl e ↦ absurd (ground (arith, ap is_some e, there))
    | inr (m, e) ↦ elim (Option-cases (m.l1 (l1_index key))) [
      | inl e' ↦
          simp (e, e')
            (add_middle-IsGrown st role (l1_index key) key h fits
              (ap (head_in key) e
                ∙ get_lem m key
                ∙ ap (λ x. child_at x (l2_index key) (l3_index key)) e')
              there)
      | inr (n2, e') ↦
          simp (e, e')
            (yields (
              stays st role key h,
              ap (has_l2 (l1_index key)) e ∙ ap is_some e',
              (λ n. CannotMap-suc n st),
            ))
    ]
  ]

  pub IsGrown-trans :
      {r s t : Arena o} {role : Ptr → MetaRole} {key : ℕ} (g : IsGrown r role key s)
      → IsGrown s g.role' key t
      → IsGrown r role key t
  IsGrown-trans g g' = record {
    role' = g'.role';
    kept = λ q n e. g'.kept q n (g.kept q n e);
    arena = g'.arena;
    links_same = g'.links_same ∙ g.links_same;
    head_same = g'.head_same ∙ g.head_same;
  }

  unfoldable first_map : Ptr × Arena o → Option (Arena o)
  first_map (p, st') = if p == null then none else some (set_map empty_map st')

  pub ensure_free_list_map-IsGrown :
      (st : Arena o) (role : Ptr → MetaRole) (key : ℕ)
      → IsArena k st role
      → key ≤ largest
      → OnRun
          (CannotMap o 1 st)
          (λ st'. IsGrown st role key st' × (is_some st'.free_list_map ≡ true) × Spends o st st')
          (ensure_free_list_map o st)
  unfolding ensure_free_list_map first_map
  ensure_free_list_map-IsGrown st role key h fits = go st.free_list_map refl
    where
      go :
          (x : Option L1Node)
          → st.free_list_map ≡ x
          → OnRun
              (CannotMap o 1 st)
              (λ st'.
                IsGrown st role key st' × (is_some st'.free_list_map ≡ true) × Spends o st st')
              (elim x [
                | none ↦ cmalloc_alloc_metadata o sizeof_l1 st >>= first_map
                | some m ↦ some st
              ])
      go (some m) e = yields (stays st role key h, ap is_some e, (λ n. CannotMap-suc n st))
      go none e =
          alloc_then st role sizeof_l1 first_map h (omega arith) (omega arith) (λ st'. refl)
            λ p st' real new arena leaves. rw (eq_false real) (
              yields (
                record {
                  role' = update role p (held sizeof_l1);
                  kept = kept_update role p sizeof_l1 new;
                  arena = record {
                    placed = arena.placed;
                    sized = arena.sized;
                    lists =
                        thin-Lists {head' = cmalloc_get empty_map} arena.lists
                          (λ j. inl (get_lem empty_map j));
                  };
                  links_same = leaves.links_same;
                  head_same = get_lem empty_map key ∙ sym (ap (head_in key) e);
                },
                refl,
                leaves.spends,
              ))
