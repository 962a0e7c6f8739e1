-- ===== src/Shim/Copies.antt =====
-- `shim_strdup`: the copy of a string is the same string.
use fast_memory_allocator.Base.{
  ℕ, ◌+◌, ◌^◌, ◌≤◌, ◌<◌, ◌≡◌, ◌≢◌, refl, sym, ap, ◌∙◌, true, false, arith, leb, ltb, ◌==◌, ◌&&◌,
  OnResult, result, on_bind, Bool-cases, inl, inr,
}
use fast_memory_allocator.Base.Words.{u64}
use fast_memory_allocator.Common.{Runtime, get_size_class_index}
use fast_memory_allocator.Span.{Ptr, null}
use fast_memory_allocator.RangeMap.{Allocator}
use fast_memory_allocator.SpanHeap.{Mapper}
use fast_memory_allocator.Cmalloc.{Heap, copy_bytes, cmalloc}
use fast_memory_allocator.Cmalloc.Requests.{from_class-SameMemory}
use fast_memory_allocator.Shim.{Strings, shim_malloc, shim_strdup}

-- strlen counts the bytes before the first that is 0.
pub record IsStrlen (c : Strings) : Type 0 where
  pub least : (m : ℕ → ℕ) (s : Ptr) (n : ℕ) → n < 2 ^ 64 → m (s + n) ≡ 0 → c.strlen m s ≤ n
  pub ends : (m : ℕ → ℕ) (s : Ptr) (n : ℕ) → n < 2 ^ 64 → m (s + n) ≡ 0 → m (s + c.strlen m s) ≡ 0

byte_lem : (copy s len i : ℕ) (m : ℕ → ℕ) → i < len → copy_bytes copy s len m (copy + i) ≡ m (s + i)
byte_lem copy s len i m lt =
    let inside : (leb copy (copy + i) && ltb (copy + i) (copy + len)) ≡ true = ground arith in
    rw inside (ap (λ (x : ℕ). m (s + x)) (omega arith))

other_byte :
    (copy s len addr : ℕ) (m : ℕ → ℕ)
    → (leb copy addr && ltb addr (copy + len)) ≡ false
    → copy_bytes copy s len m addr ≡ m addr
other_byte copy s len addr m outside = rw outside refl

module _ (a : Allocator) (o : Mapper) (r : Runtime) (c : Strings) where
  -- NULL, or the string at `s` at another address, with the other bytes of memory as they were.
  pub data IsDuplicate (s : Ptr) (h : Heap a o) : Ptr → Heap a o → Type 0 where
    no_memory : {h' : Heap a o} → h'.memory ≡ h.memory → IsDuplicate s h null h'
    duplicated :
        {copy : Ptr} {h' : Heap a o}
        → copy ≢ null
        → c.strlen h'.memory copy ≡ c.strlen h.memory s
        → ((i : ℕ) → i ≤ c.strlen h.memory s → h'.memory (copy + i) ≡ h.memory (s + i))
        → ((addr : ℕ) → addr < copy → h'.memory addr ≡ h.memory addr)
        → ((addr : ℕ) → copy + c.strlen h.memory s < addr → h'.memory addr ≡ h.memory addr)
        → IsDuplicate s h copy h'

  same_length :
      (known : IsStrlen c) (m m' : ℕ → ℕ) (s copy n : ℕ)
      → n < 2 ^ 64
      → m (s + n) ≡ 0
      → ((i : ℕ) → i ≤ c.strlen m s → m' (copy + i) ≡ m (s + i))
      → c.strlen m' copy ≡ c.strlen m s
  same_length known m m' s copy n lt ends same =
      let short = known.least m s n lt ends in
      let here = same (c.strlen m s) (omega arith) ∙ known.ends m s n lt ends in
      let le = known.least m' copy (c.strlen m s) (omega arith) here in
      let there =
        sym (same (c.strlen m' copy) le) ∙ known.ends m' copy (c.strlen m s) (omega arith) here in
      let ge = known.least m s (c.strlen m' copy) (omega (arith, le)) there in omega (arith, le, ge)

  -- Of a string whose end is within 2 ^ 64 bytes, with a strlen that counts the bytes before the first
  -- 0, `shim_strdup` returns NULL with the memory as it was, or the address of the same string of the
  -- same length, with all other bytes of memory as they were.
  pub shim_strdup-IsDuplicate :
      (s n : ℕ) (h : Heap a o)
      → IsStrlen c
      → s ≢ null
      → h.memory (s + n) ≡ 0
      → n + 1 < 2 ^ 64
      → OnResult (λ (copy, h'). IsDuplicate s h copy h') (shim_strdup a o r c s h)
  unfolding shim_strdup shim_malloc cmalloc
  shim_strdup-IsDuplicate s n h known real ends fits =
      let size = c.strlen h.memory s in
      let le = known.least h.memory s n (omega arith) ends in
      let there : (s == null) ≡ false = ground arith in
      let whole : u64 (size + 1) ≡ size + 1 = omega (arith, le) in
      rw (there, whole)
        (on_bind (from_class-SameMemory a o r (get_size_class_index r (size + 1)) (size + 1) h)
          λ (copy, h1) same. elim (Bool-cases (copy == null)) [
            | inl e ↦ rw e (result (no_memory same))
            | inr e ↦
                let bytes : (i : ℕ)
                    → i ≤ size
                    → copy_bytes copy s (size + 1) h1.memory (copy + i) ≡ h.memory (s + i) =
                  λ i small.
                    byte_lem copy s (size + 1) i h1.memory (omega arith)
                    ∙ ap (λ (m : ℕ → ℕ). m (s + i)) same in
                rw e (
                  result (
                    duplicated (ground arith)
                      (same_length known h.memory _ s copy n (omega arith) ends bytes) bytes
                      (λ addr before.
                        other_byte copy s (size + 1) addr h1.memory (ground arith)
                        ∙ ap (λ (m : ℕ → ℕ). m addr) same)
                      (λ addr behind.
                        other_byte copy s (size + 1) addr h1.memory (ground arith)
                        ∙ ap (λ (m : ℕ → ℕ). m addr) same)))
          ])
