-- ===== src/Common/Table.antt =====
-- The lookup table that `cmalloc_runtime_init` fills, and `get_size_class_index`: the table gives
-- the smallest class that holds a request.
use native.Mathlib.Nat.{one-le-pow}
use fast_memory_allocator.Base.{
  ℕ, zero, suc, ◌+◌, ◌*◌, ◌/◌, ◌%◌, ◌^◌, ◌≤◌, ◌<◌, ◌≡◌, refl, false, ◌&&◌, arith, ltb, update, sym,
  ◌==◌, ==_iff, ◌∙◌, Bool-cases, ltb→lt, Option, none, some, inl, inr, some, none, if◌then◌else◌,
  ap,
}
use fast_memory_allocator.Base.Words.{u64}
use fast_memory_allocator.Common.{
  Runtime, class_size, advance, fill, cmalloc_runtime_init, get_size_class_index,
  get_system_page_shift,
}
use fast_memory_allocator.Common.Classes.{class_rows, largest_class}
use fast_memory_allocator.Common.Pages.{IsPaged, get_system_page_shift-pow}

-- `cls` is the smallest class of at least `largest` bytes.
pub record IsLeast (largest cls : ℕ) : Type 0 where
  pub in_range : cls < 48
  pub holds : largest ≤ class_size cls
  pub least : (j : ℕ) → j < cls → class_size j < largest

-- The inner loop ends at the smallest class, given rounds enough to reach the end of the table.
advance_lem :
    (fuel largest cls : ℕ)
    → 48 ≤ cls + fuel
    → cls < 49
    → largest ≤ 32768
    → ((j : ℕ) → j < cls → class_size j < largest)
    → IsLeast largest (advance fuel largest cls)
unfolding advance
advance_lem zero largest cls enough low small below =
    absurd (omega (arith, below 47, largest_class))
advance_lem (suc fuel) largest cls enough low small below =
    elim (Bool-cases (ltb cls 48 && ltb (class_size cls) largest)) [
      | inl more ↦
          let here : class_size cls < largest = ground arith in
          let low' : cls + 1 < 49 = ground arith in
          let below' : (j : ℕ) → j < cls + 1 → class_size j < largest = λ j h.
            elim (Bool-cases (j == cls)) [
              | inl same ↦ rw ((==_iff j cls).0 same) here
              | inr other ↦ below j (ground arith)
            ] in
          rw more (advance_lem fuel largest (cls + 1) (omega arith) low' small below')
      | inr done ↦ rw done (record {
        in_range = ground (arith, below 47, largest_class);
        holds = ground (arith, below 47, largest_class);
        least = below;
      })
    ]

-- The outer loop gives each entry from `b` its smallest class, and keeps the entries before `b`.
fill_lem :
    (left b cls : ℕ) (table : ℕ → ℕ)
    → b + left ≤ 2049
    → cls < 49
    → ((j : ℕ) → j < cls → class_size j < b * 16)
    → (i : ℕ)
    → (i < b → fill left b cls table i ≡ table i)
      × (b ≤ i → i < b + left → IsLeast (i * 16) (fill left b cls table i))
unfolding fill
fill_lem zero b cls table bound low below i = (λ h. refl, λ h k. absurd (omega arith))
fill_lem (suc left) b cls table bound low below i =
    let cls' = advance 48 (b * 16) cls in
    let here = advance_lem 48 (b * 16) cls (omega arith) low (omega arith) below in
    let table' = update table b ((if ltb cls' 48 then cls' else 0) % 256) in
    let rest =
      fill_lem left (b + 1) cls' table' (omega arith) (omega (arith, here.in_range))
        (λ j h. omega (arith, here.least j h)) i in
    (
      λ h. rest.0 (omega arith) ∙ ground arith,
      λ h k. elim (Bool-cases (i == b)) [
        | inl same ↦
            let e : i ≡ b = (==_iff i b).0 same in
            let stored : fill left (b + 1) cls' table' i ≡ cls' =
              rest.0 (omega arith) ∙ ground (arith, here.in_range) in
            rw (stored, e) here
        | inr other ↦ rest.1 (ground arith) (omega arith)
      ],
    )

-- What `cmalloc_runtime_init` sets up for every later call.
pub record IsReady (r : Runtime) : Type 0 where
  pub paged : IsPaged r
  pub at_least_4096 : 12 ≤ r.page_shift
  pub at_most_65536 : r.page_shift ≤ 16
  pub table : (b : ℕ) → b < 2049 → IsLeast (b * 16) (r.size_class_table b)

-- With a page size that is a power of two from 4 KiB to 64 KiB, the first call of
-- `cmalloc_runtime_init` finds the page shift and gives every table entry the smallest class of at
-- least 16 times its index; a later call, whatever `sysconf` then says, changes nothing.
pub cmalloc_runtime_init-IsReady :
    (k ps : ℕ) (r : Runtime)
    → 12 ≤ k
    → k ≤ 16
    → r.page_size ≡ 0
    → IsReady (cmalloc_runtime_init (2 ^ k) r)
      × (cmalloc_runtime_init ps (cmalloc_runtime_init (2 ^ k) r) ≡ cmalloc_runtime_init (2 ^ k) r)
unfolding cmalloc_runtime_init
cmalloc_runtime_init-IsReady k ps r lo hi fresh = rw (fresh) (
  record {
    paged = record { shift_small = omega (arith, shift); size_eq = ap (λ t. 2 ^ t) (sym shift) };
    at_least_4096 = omega (arith, shift);
    at_most_65536 = omega (arith, shift);
    table = λ b h.
        (fill_lem 2049 0 0 r.size_class_table (omega arith) (omega arith)
            (λ j lt. absurd (omega arith)) b).1
          (omega arith) (omega arith);
  },
  rw not_again,
)
  where
    not_again : (2 ^ k == 0) ≡ false
    not_again = ground (arith, one-le-pow k 2)

    shift : get_system_page_shift (2 ^ k) ≡ k
    shift = get_system_page_shift-pow k (omega arith)

-- What `get_size_class_index` answers for a request of `size` bytes.
pub data IsClassOf (size : ℕ) : Option ℕ → Type 0 where
  large : 32768 < size → IsClassOf size none
  small :
      {i : ℕ}
      → i < 48
      → size ≤ class_size i
      → ((j : ℕ) → j < i → class_size j < size)
      → IsClassOf size (some i)

-- Once the table is filled, the class of a request is the smallest one whose blocks hold it, found
-- by one lookup; exactly the requests above 32 KiB have none.
pub get_size_class_index-IsClassOf :
    (r : Runtime) (size : ℕ) → IsReady r → IsClassOf size (get_size_class_index r size)
unfolding get_size_class_index
get_size_class_index-IsClassOf r size ready = elim (Bool-cases (ltb 32768 size)) [
  | inl above ↦ rw above (large (ltb→lt 32768 size above))
  | inr within ↦
      let b = (size + 15) / 16 in
      let is = ready.table b (ground arith) in
      let reduced : u64 (size + 15) ≡ size + 15 = ground arith in
      rw (within, reduced)
        (small is.in_range (omega (arith, is.holds))
          (λ j lt. omega (arith, is.least j lt, class_rows j (omega (arith, is.in_range)))))
]
