-- ===== src/RangeMap/Supply.antt =====
-- src/range_map.c with an allocator of metadata that serves the next calls: `cmalloc_map_range` makes
-- at most two for a key.
use fast_memory_allocator.Base.{
  ℕ, zero, suc, ◌+◌, ◌-◌, ◌*◌, ◌≤◌, ◌≡◌, ◌≢◌, refl, subst, arith, true, Option, none, some, OnRun,
  Bool, ◌&&◌, ltb, leb, stopped, yields, run_bind, eq_false, Option-cases, inl, inr,
}
use fast_memory_allocator.Span.{Ptr, null}
use fast_memory_allocator.RangeMap.{
  Allocator, L1Node, L2Node, new_node, ensure_l2, ensure_l3, cmalloc_map, map_keys,
  cmalloc_map_range, l1_index, l2_index, sizeof_l2, sizeof_l3, empty_l2, empty_l3,
}

-- The sizes that the program asks for: up to that of a middle node.
abbrev pub is_request : ℕ → Bool
is_request size = ltb 0 size && leb size sizeof_l2

-- The next `n` calls, of whatever sizes, give memory.
unfoldable pub Serves : (a : Allocator) → ℕ → a.Store → Type 0
Serves a zero st = zero ≡ zero
Serves a (suc n) st =
    (size : ℕ)
    → is_request size ≡ true
    → ((a.alloc_metadata size st).0 ≢ null) × Serves a n (a.alloc_metadata size st).1

-- Code that cannot fail has a result.
pub result_of :
    {A : Type 0} {P : A → Type 0} {m : Option A} → OnRun ⊥ P m → (x : A) × (m ≡ some x) × P x
result_of (stopped why) = absurd why
result_of (yields {x} h) = (x, refl, h)

module _ (a : Allocator) where
  pub Serves-suc : (n : ℕ) (st : a.Store) → Serves a (suc n) st → Serves a n st
  unfolding Serves
  Serves-suc zero st h = refl
  Serves-suc (suc n) st h = λ size req. ((h size req).0, Serves-suc n _ (h size req).1)

  Serves-drop : (d m n : ℕ) (st : a.Store) → m ≡ d + n → Serves a m st → Serves a n st
  Serves-drop zero m n st e h = let e' : m ≡ n = omega arith in subst (λ x. Serves a x st) e' h
  Serves-drop (suc d) m n st e h =
      let e' : m ≡ suc (d + n) = omega arith in
      Serves-drop d (d + n) n st refl (Serves-suc (d + n) st (subst (λ x. Serves a x st) e' h))

  pub Serves-le : (m n : ℕ) (st : a.Store) → n ≤ m → Serves a m st → Serves a n st
  Serves-le m n st le = Serves-drop (m - n) m n st (omega arith)

  pub Serves-call :
      (n size : ℕ) (st : a.Store)
      → is_request size ≡ true
      → Serves a (suc n) st
      → ((a.alloc_metadata size st).0 ≢ null) × Serves a n (a.alloc_metadata size st).1
  unfolding Serves
  Serves-call n size st req h = h size req

  new_node-served :
      {Node : Type 0} (size : ℕ) (empty : Node) (n : ℕ) (st : a.Store)
      → is_request size ≡ true
      → Serves a (suc n) st
      → OnRun ⊥ (λ (node, st'). Serves a n st') (new_node a size empty st)
  unfolding new_node
  new_node-served size empty n st req h =
      let (real, rest) = Serves-call n size st req h in rw (eq_false real) (yields rest)

  ensure_l2-served :
      (m : L1Node) (i n : ℕ) (st : a.Store)
      → Serves a (suc n) st
      → OnRun ⊥ (λ (node, st'). Serves a n st') (ensure_l2 a m i st)
  unfolding ensure_l2
  ensure_l2-served m i n st h = go (m.l1 i)
    where
      go :
          (x : Option (Ptr × L2Node))
          → OnRun ⊥
              (λ (node, st'). Serves a n st')
              (elim x [ none ↦ new_node a sizeof_l2 empty_l2 st | some n' ↦ some (n', st) ])
      go none = new_node-served sizeof_l2 empty_l2 n st refl h
      go (some x) = yields (Serves-suc n st h)

  ensure_l3-served :
      (node : L2Node) (i n : ℕ) (st : a.Store)
      → Serves a (suc n) st
      → OnRun ⊥ (λ (leaf, c, st'). Serves a n st') (ensure_l3 a node i st)
  unfolding ensure_l3
  ensure_l3-served node i n st h = elim (Option-cases (node.l2 i)) [
    | inl e ↦
        rw (e, ensure_l3)
          (run_bind (new_node-served sizeof_l3 empty_l3 n st refl h) λ (leaf, st') g. yields g)
    | inr (leaf, e) ↦ rw (e, ensure_l3) (yields (Serves-suc n st h))
  ]

  cmalloc_map-served :
      (m : L1Node) (v : Ptr) (k n : ℕ) (st : a.Store)
      → Serves a (suc (suc n)) st
      → OnRun ⊥ (λ (m', st'). Serves a n st') (cmalloc_map a m v k st)
  unfolding cmalloc_map
  cmalloc_map-served m v k n st h =
      run_bind (ensure_l2-served m (l1_index k) (suc n) st h) λ ((p2, n2), st1) g.
        run_bind (ensure_l3-served n2 (l2_index k) n st1 g) λ (leaf, c, st2) g'. yields g'

  pub cmalloc_map_runs :
      (m : L1Node) (v : Ptr) (k n : ℕ) (st : a.Store)
      → Serves a (suc (suc n)) st
      → (x : L1Node × a.Store) × (cmalloc_map a m v k st ≡ some x) × Serves a n x.1
  cmalloc_map_runs m v k n st h = result_of (cmalloc_map-served m v k n st h)

  -- The calls for the keys of a range.
  pub calls : ℕ → ℕ → ℕ
  calls zero n = n
  calls (suc left) n = suc (suc (calls left n))

  pub calls_lem : (left n : ℕ) → calls left n ≡ 2 * left + n
  unfolding calls
  calls_lem zero n = omega arith
  calls_lem (suc left) n = omega (arith, calls_lem left n)

  map_keys-served :
      (left : ℕ) (m : L1Node) (v : Ptr) (k n : ℕ) (st : a.Store)
      → Serves a (calls left n) st
      → OnRun ⊥ (λ (m', st'). Serves a n st') (map_keys a left m v k st)
  unfolding map_keys calls
  map_keys-served zero m v k n st h = yields h
  map_keys-served (suc left) m v k n st h =
      run_bind (cmalloc_map-served m v k (calls left n) st h)
        λ (m', st') g. map_keys-served left m' v (k + 1) n st' g

  pub cmalloc_map_range-served :
      (m : L1Node) (v : Ptr) (from to n : ℕ) (st : a.Store)
      → Serves a (2 * (to - from) + n) st
      → OnRun ⊥ (λ (m', st'). Serves a n st') (cmalloc_map_range a m v from to st)
  unfolding cmalloc_map_range
  cmalloc_map_range-served m v from to n st h =
      map_keys-served (to - from) m v from n st (rw (calls_lem (to - from) n) h)
