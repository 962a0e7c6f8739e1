-- ===== src/SpanHeap/Roles/Frame.antt =====
-- What does not matter to the roles of spans: the fields that only link spans, memory at addresses of
-- no span, and more memory in the hands of the kernel and the allocator.
use native.Mathlib.Nat.{mul-le-mul_right}
use fast_memory_allocator.Base.{
  ℕ, ◌/◌, ◌^◌, ◌≤◌, ◌≡◌, ◌≢◌, refl, sym, ap, ◌∙◌, subst, true, Option, List, ◌==◌, IsAbsent,
  absent_nil, absent_cons, arith, update, Bool-cases, ==_iff, inl, inr,
}
use fast_memory_allocator.Common.{Runtime}
use fast_memory_allocator.Span.{Ptr, null, Span}
use fast_memory_allocator.RangeMap.{Allocator, L1Node}
use fast_memory_allocator.RangeMap.Ledger.{IsAllocator, Grows}
use fast_memory_allocator.PageBins.{PageBins}
use fast_memory_allocator.SpanHeap.{Mapper}
use fast_memory_allocator.SpanHeap.Roles.{
  Role, unborn, in_use, cached, has_page, IsMapper, IsStack, stack_nil, stack_cons, IsPaginated,
  IsHeapOf,
}

-- The bin of a cached span.
abbrev pub bin_of : Role → ℕ
bin_of unborn = 0
bin_of in_use = 0
bin_of (cached n) = n

pub cached_inj : {m n : ℕ} → cached m ≡ cached n → m ≡ n
cached_inj e = ap bin_of e

pub cached-ne-unborn : {role : Role} {n : ℕ} → role ≡ cached n → role ≢ unborn
cached-ne-unborn e e' = cc

-- A span that is not cached in a bin is not in its stack.
pub role-IsAbsent :
    {f : Ptr → Span} {role : Ptr → Role} {n : ℕ} {head : Ptr} {ps : List Ptr} (q : Ptr)
    → role q ≢ cached n
    → IsStack f role n head ps
    → IsAbsent q ps
role-IsAbsent q out stack_nil = absent_nil
role-IsAbsent {role} {n} q out (stack_cons real here apart next rest) =
    absent_cons (λ e. out (ap role e ∙ here)) (role-IsAbsent q out rest)

-- A stack looks at the links and roles of its own spans only.
pub keep_stack :
    {f : Ptr → Span} {role : Ptr → Role} {n : ℕ} (g : Ptr → Span) (role' : Ptr → Role) (q : Ptr)
    {head : Ptr} {ps : List Ptr}
    → IsAbsent q ps
    → ((p : Ptr) → p ≢ q → role p ≡ cached n → role' p ≡ cached n)
    → ((p : Ptr)
        → p ≢ q
        → role p ≡ cached n
        → (g p).next_in_uninitialized_bin ≡ (f p).next_in_uninitialized_bin)
    → IsStack f role n head ps
    → IsStack g role' n head ps
keep_stack g role' q out roles links stack_nil = stack_nil
keep_stack g role' q (absent_cons ne out) roles links (stack_cons {p} real here apart next rest) =
    let other : p ≢ q = λ e. ne (sym e) in
    stack_cons real (roles p other here) apart (links p other here ∙ next)
      (keep_stack g role' q out roles links rest)

-- What a span may change without a change of its role.
pub record IsCompatible (role : Role) (s t : Span) : Type 0 where
  pub base_same : role ≢ unborn → t.base ≡ s.base
  pub count_le : role ≢ unborn → t.page_count ≤ s.page_count
  pub count_same : (n : ℕ) → role ≡ cached n → t.page_count ≡ s.page_count
  pub next_same :
      (n : ℕ) → role ≡ cached n → t.next_in_uninitialized_bin ≡ s.next_in_uninitialized_bin

pub same-IsCompatible : {role : Role} {s : Span} → IsCompatible role s s
same-IsCompatible = record {
  base_same = λ live. refl;
  count_le = λ live. omega arith;
  count_same = λ n h. refl;
  next_same = λ n h. refl;
}

-- Links to neighbours may change.
pub linked-IsCompatible :
    {role : Role} {s t : Span}
    → t.base ≡ s.base
    → t.page_count ≡ s.page_count
    → t.next_in_uninitialized_bin ≡ s.next_in_uninitialized_bin
    → IsCompatible role s t
linked-IsCompatible base count next = record {
  base_same = λ live. base;
  count_le = λ live. omega (arith, count);
  count_same = λ n h. count;
  next_same = λ n h. next;
}

-- A span with the same base and not more pages.
module _ (r : Runtime) where
  pub paginated :
      {s t : Span}
      → IsPaginated r s
      → t.base ≡ s.base
      → t.page_count ≤ s.page_count
      → IsPaginated r t
  paginated {s} {t} p e le = record {
    aligned = rw e p.aligned;
    fits = rw e (omega (arith, p.fits, mul-le-mul_right (2 ^ r.page_shift) le));
  }

  pub fewer_pages :
      (s t : Span) (i : ℕ)
      → t.base ≡ s.base
      → t.page_count ≤ s.page_count
      → has_page r t i ≡ true
      → has_page r s i ≡ true
  fewer_pages s t i e le there = ground (arith, ap (λ (b : ℕ). b / 2 ^ r.page_shift) e)

module _ {a : Allocator} {o : Mapper} {r : Runtime} (u : IsAllocator a) (k : IsMapper o r)
    {map : Option L1Node} {b : PageBins} {f : Ptr → Span} {st : a.Store} {kernel : o.Kernel}
    {role : Ptr → Role} (heap : IsHeapOf u k map b f st kernel role) where
  abbrev page : ℕ
  page = 2 ^ r.page_shift

  pub frame :
      (g : Ptr → Span)
      → ((p : Ptr) → IsCompatible (role p) (f p) (g p))
      → IsHeapOf u k map b g st kernel role
  frame g same = record {
    sound = heap.sound;
    tracked = heap.tracked;
    no_null = heap.no_null;
    born = heap.born;
    trie = heap.trie;
    stacks = λ n lt.
        let (ps, stack) = heap.stacks n lt in
        (
          ps,
          keep_stack g role null (role-IsAbsent null (ground (arith, heap.no_null)) stack)
              (λ p ne h. h) (λ p ne h. (same p).next_same n h) stack,
        );
    sizes = λ p n h. (same p).count_same n h ∙ heap.sizes p n h;
    placed = λ p live.
        paginated r (heap.placed p live) ((same p).base_same live) ((same p).count_le live);
    owns = λ p i live there.
        heap.owns p i live
          (fewer_pages r (f p) (g p) i ((same p).base_same live) ((same p).count_le live) there);
    known = heap.known;
  }

  -- One span changes.
  pub frame_at :
      (p : Ptr) (s : Span)
      → IsCompatible (role p) (f p) s
      → IsHeapOf u k map b (update f p s) st kernel role
  frame_at p s same = frame (update f p s) λ q. elim (Bool-cases (p == q)) [
    | inl e ↦ rw e (subst (λ x. IsCompatible (role x) (f x) s) ((==_iff p q).0 e) same)
    | inr e ↦ rw e same-IsCompatible
  ]

  -- More memory.
  pub frame_memory :
      (st' : a.Store) (kernel' : o.Kernel)
      → Grows u st st'
      → ((i : ℕ) → k.mapped kernel i ≡ true → k.mapped kernel' i ≡ true)
      → IsHeapOf u k map b f st' kernel' role
  frame_memory st' kernel' grows more = record {
    sound = grows.sound;
    tracked = heap.tracked;
    no_null = heap.no_null;
    born = λ p live. grows.kept p (heap.born p live);
    trie = heap.trie;
    stacks = heap.stacks;
    sizes = heap.sizes;
    placed = heap.placed;
    owns = heap.owns;
    known = λ i lt there. more i (heap.known i lt there);
  }
