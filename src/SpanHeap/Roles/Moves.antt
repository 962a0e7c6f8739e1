-- ===== src/SpanHeap/Roles/Moves.antt =====
-- A span changes its role: it is taken out of its bin, put into a bin, or born with its pages.
use fast_memory_allocator.Base.{
  ℕ, ◌+◌, ◌/◌, ◌^◌, ◌<◌, ◌≡◌, ◌≢◌, refl, sym, ap, ◌∙◌, subst, true, false, Option, some, List, ◌∷◌,
  ◌==◌, IsAbsent, arith, update, some_inj, Bool-cases, ==_iff, inl, inr,
}
use fast_memory_allocator.Common.{Runtime}
use fast_memory_allocator.Span.{Ptr, null, Span}
use fast_memory_allocator.RangeMap.{Allocator, L1Node, cmalloc_get}
use fast_memory_allocator.RangeMap.Counts.{IsTrie}
use fast_memory_allocator.RangeMap.Ledger.{IsAllocator, IsMapped}
use fast_memory_allocator.PageBins.{PageBins}
use fast_memory_allocator.PageBins.Marks.{
  popped, pushed, popped-IsTracked, head-popped, head-pushed, non_empty-IsTracked,
}
use fast_memory_allocator.SpanHeap.{Mapper}
use fast_memory_allocator.SpanHeap.Owner.{keys_fit}
use fast_memory_allocator.SpanHeap.Roles.{
  Role, unborn, in_use, cached, has_page, IsMapper, IsStack, stack_nil, stack_cons, IsPaginated,
  IsHeapOf, owner_of,
}
use fast_memory_allocator.SpanHeap.Roles.Frame.{
  cached_inj, cached-ne-unborn, role-IsAbsent, keep_stack,
}

-- The first span of a stack.
record IsTop (f : Ptr → Span) (role : Ptr → Role) (n : ℕ) (p : Ptr) : Type 0 where
  here : role p ≡ cached n
  others : List Ptr
  apart : IsAbsent p others
  rest : IsStack f role n (f p).next_in_uninitialized_bin others

stack-IsTop :
    {f : Ptr → Span} {role : Ptr → Role} {n : ℕ} {p : Ptr} {ps : List Ptr}
    → IsStack f role n p ps
    → p ≢ null
    → IsTop f role n p
stack-IsTop stack_nil ne = absurd (ne refl)
stack-IsTop {f} {role} {n} (stack_cons {p} {ps} real here apart next rest) ne = record {
  here = here;
  others = ps;
  apart = apart;
  rest = subst (λ q. IsStack f role n q ps) (sym next) rest;
}

-- The pages of a span are below the 2 ^ 35th.
pub page-lt :
    (a : Allocator) (o : Mapper) (r : Runtime) (s : Span) (i : ℕ)
    → IsPaginated r s
    → has_page r s i ≡ true
    → i < 2 ^ 35
page-lt a o r s i p has = ground (arith, keys_fit a o r s.base s.page_count p.aligned p.fits)

module _ {a : Allocator} {o : Mapper} {r : Runtime} (u : IsAllocator a) (k : IsMapper o r)
    {map : Option L1Node} {b : PageBins} {f : Ptr → Span} {st : a.Store} {kernel : o.Kernel}
    {role : Ptr → Role} (heap : IsHeapOf u k map b f st kernel role) where
  module _ (n : ℕ) (lt : n < 8193) (real : b.uninitialized_span_bin n ≢ null) where
    abbrev top : Ptr
    top = b.uninitialized_span_bin n

    parts : IsTop f role n top
    parts = stack-IsTop (heap.stacks n lt).1 real

    pub top-cached : role top ≡ cached n
    top-cached = parts.here

    -- The first span of bin `n` is taken out.
    pub pop-IsHeap :
        IsHeapOf u k map
          (popped n (f top).next_in_uninitialized_bin b)
          f
          st
          kernel
          (update role top in_use)
    pop-IsHeap = record {
      sound = heap.sound;
      tracked = popped-IsTracked b n (f top).next_in_uninitialized_bin heap.tracked real;
      no_null = ground (arith, heap.no_null);
      born = λ p live. heap.born p (was p live);
      trie = heap.trie;
      stacks = λ m le.
          rw (head-popped b n m (f top).next_in_uninitialized_bin) (elim (Bool-cases (n == m)) [
            | inl e ↦ rw e (
                subst
                  (λ x.
                    (ps : List Ptr) × IsStack f (update role top in_use) x
                      (f top).next_in_uninitialized_bin ps)
                  ((==_iff n m).0 e)
                  (
                    parts.others,
                    keep_stack f (update role top in_use) top parts.apart (λ p ne h. ground arith)
                        (λ p ne h. refl) parts.rest,
                  ))
            | inr e ↦
                let (ps, stack) = heap.stacks m le in
                let apart =
                  role-IsAbsent top (λ h. ground (arith, cached_inj (sym parts.here ∙ h))) stack in
                rw e (
                  ps,
                  keep_stack f (update role top in_use) top apart (λ p ne h. ground arith)
                      (λ p ne h. refl) stack,
                )
          ]);
      sizes = λ p m h. heap.sizes p m (ground arith);
      placed = λ p live. heap.placed p (was p live);
      owns = λ p i live there. heap.owns p i (was p live) there;
      known = heap.known;
    }
      where
        was : (p : Ptr) → update role top in_use p ≢ unborn → role p ≢ unborn
        was p live e = live (ground (arith, parts.here))

  -- A span in use goes into the bin of its page count.
  pub push-IsHeap :
      (p : Ptr) (n : ℕ)
      → n < 8193
      → role p ≡ in_use
      → (f p).page_count ≡ n
      → (f p).next_in_uninitialized_bin ≡ b.uninitialized_span_bin n
      → IsHeapOf u k map (pushed n p b) f st kernel (update role p (cached n))
  push-IsHeap p n lt used count link = record {
    sound = heap.sound;
    tracked = non_empty-IsTracked b heap.tracked n p real;
    no_null = ground (arith, heap.no_null);
    born = λ q live. heap.born q (was q live);
    trie = heap.trie;
    stacks = λ m le.
        let (ps, stack) = heap.stacks m le in
        let apart = role-IsAbsent p (λ h. ground arith) stack in
        let kept =
          keep_stack f (update role p (cached n)) p apart (λ q ne h. ground arith) (λ q ne h. refl)
            stack in
        elim (Bool-cases (n == m)) [
          | inl e ↦
              rw (head-pushed b n m p, e)
                (
                  p ∷ ps,
                  stack_cons real (ground (arith, ap cached ((==_iff n m).0 e))) apart
                      (link ∙ ap b.uninitialized_span_bin ((==_iff n m).0 e)) kept,
                )
          | inr e ↦ rw (head-pushed b n m p, e) (ps, kept)
        ];
    sizes = λ q m h. elim (Bool-cases (p == q)) [
      | inl e ↦ ap (λ x. (f x).page_count) (sym ((==_iff p q).0 e)) ∙ count ∙ cached_inj (rw e at h)
      | inr e ↦ heap.sizes q m (rw e at h)
    ];
    placed = λ q live. heap.placed q (was q live);
    owns = λ q i live there. heap.owns q i (was q live) there;
    known = heap.known;
  }
    where
      real : p ≢ null
      real e = ground (arith, heap.no_null)

      was : (q : Ptr) → update role p (cached n) q ≢ unborn → role q ≢ unborn
      was q live e = live (ground arith)

  -- A span is born with pages that no other span has.
  pub birth-IsHeap :
      (p : Ptr) (m m' : L1Node) (st' : a.Store)
      → p ≢ null
      → role p ≡ unborn
      → u.IsHeld st p
      → IsPaginated r (f p)
      → ((q : Ptr) (i : ℕ)
          → role q ≢ unborn
          → has_page r (f p) i ≡ true
          → has_page r (f q) i ≡ false)
      → ((i : ℕ) → has_page r (f p) i ≡ true → k.mapped kernel i ≡ true)
      → map ≡ some m
      → IsMapped u m p
          ((f p).base / 2 ^ r.page_shift)
          ((f p).base / 2 ^ r.page_shift + (f p).page_count)
          st
          (m', st')
      → IsHeapOf u k (some m') b f st' kernel (update role p in_use)
  birth-IsHeap p m m' st' real new held pages free mapped there run = record {
    sound = run.grows.sound;
    tracked = heap.tracked;
    no_null = ground (arith, heap.no_null);
    born = λ q live. run.grows.kept q (elim (Bool-cases (p == q)) [
      | inl e ↦ subst (λ x. u.IsHeld st x) ((==_iff p q).0 e) held
      | inr e ↦ heap.born q (other q e live)
    ]);
    trie = λ x e. subst IsTrie (some_inj e) run.trie;
    stacks = λ n lt.
        let (ps, stack) = heap.stacks n lt in
        let apart = role-IsAbsent p (λ h. cached-ne-unborn h new) stack in
        (
          ps,
          keep_stack f (update role p in_use) p apart (λ q ne h. ground arith) (λ q ne h. refl)
              stack,
        );
    sizes = λ q n h. heap.sizes q n (ground arith);
    placed = λ q live. elim (Bool-cases (p == q)) [
      | inl e ↦ subst (λ x. IsPaginated r (f x)) ((==_iff p q).0 e) pages
      | inr e ↦ heap.placed q (other q e live)
    ];
    owns = λ q i live has. elim (Bool-cases (p == q)) [
      | inl e ↦
          let same = (==_iff p q).0 e in
          let mine : has_page r (f p) i ≡ true = rw same has in
          run.lookup i (page-lt a o r (f p) i pages mine) ∙ rw mine same
      | inr e ↦
          let alive = other q e live in
          let not_mine : has_page r (f p) i ≡ false =
            ground (arith, λ (h : has_page r (f p) i ≡ true). free q i alive h) in
          run.lookup i (page-lt a o r (f q) i (heap.placed q alive) has)
          ∙ rw not_mine (sym (before i) ∙ heap.owns q i alive has)
    ];
    known = λ i lt some_owner. elim (Bool-cases (has_page r (f p) i)) [
      | inl mine ↦ mapped i mine
      | inr not_mine ↦
          heap.known i lt (λ e. some_owner (run.lookup i lt ∙ rw not_mine (sym (before i) ∙ e)))
    ];
  }
    where
      other : (q : Ptr) → (p == q) ≡ false → update role p in_use q ≢ unborn → role q ≢ unborn
      other q e live h = live (ground arith)

      before : (i : ℕ) → owner_of map i ≡ cmalloc_get m i
      before i = ap (λ x. owner_of x i) there
