-- ===== src/Metadata/Lists.antt =====
-- The roles of the blocks of src/metadata.c, the free lists as lists of blocks, and the arena's
-- invariant.
use fast_memory_allocator.Base.{
  ℕ, ◌≤◌, ◌<◌, ◌≡◌, ◌≢◌, refl, ap, ◌∙◌, sym, fun_ext, subst, ◌⊎◌, arith, Bool, true, false, List,
  [], ◌∷◌, IsAbsent, absent_nil, absent_cons, ◌==◌, if◌then◌else◌, inl, inr, update, update_at,
  Bool-cases, ==_iff,
}
use fast_memory_allocator.Span.{Ptr, null}
use fast_memory_allocator.SpanHeap.{Mapper}
use fast_memory_allocator.Metadata.{MetaChunks, Arena, head_of}
use fast_memory_allocator.Metadata.Blocks.{IsChunkMapper, IsPlaced, largest}

-- What is at an address: nothing, a block of a size that is in use, or one in its size's free list.
pub data MetaRole : Type 0 where
  unborn : MetaRole
  held free : ℕ → MetaRole

abbrev pub size_of : MetaRole → ℕ
size_of unborn = 0
size_of (held n) = n
size_of (free n) = n

abbrev pub is_held : MetaRole → Bool
is_held unborn = false
is_held (held n) = true
is_held (free n) = false

-- The links from a head on lead through different free blocks of the size.
pub data IsFreeList (links : Ptr → Ptr) (role : Ptr → MetaRole) (n : ℕ)
    : Ptr → List Ptr → Type 0 where
  list_nil : IsFreeList links role n null []
  list_cons :
      {p next : Ptr} {ps : List Ptr}
      → p ≢ null
      → role p ≡ free n
      → IsAbsent p ps
      → links p ≡ next
      → IsFreeList links role n next ps
      → IsFreeList links role n p (p ∷ ps)

abbrev pub Lists : (Ptr → Ptr) → (Ptr → MetaRole) → (ℕ → Ptr) → Type 0
Lists links role head =
    (n : ℕ) → n ≤ largest → (ps : List Ptr) × IsFreeList links role n (head n) ps

-- A block of another role is in no list of the size.
list-IsAbsent :
    {links : Ptr → Ptr} {role : Ptr → MetaRole} {n : ℕ} {head : Ptr} {ps : List Ptr} (p : Ptr)
    → role p ≢ free n
    → IsFreeList links role n head ps
    → IsAbsent p ps
list-IsAbsent p ne list_nil = absent_nil
list-IsAbsent {role} p ne (list_cons real is out next rest) =
    absent_cons (λ e. ne (ap role e ∙ is)) (list-IsAbsent p ne rest)

-- A block outside a list can get another role, and another link.
list_apart :
    {links links' : Ptr → Ptr} {role : Ptr → MetaRole} {n : ℕ} (p : Ptr) (v : MetaRole) {head : Ptr}
    {ps : List Ptr}
    → ((q : Ptr) → q ≢ p → links' q ≡ links q)
    → IsAbsent p ps
    → IsFreeList links role n head ps
    → IsFreeList links' (update role p v) n head ps
list_apart p v same absent_nil list_nil = list_nil
list_apart p v same (absent_cons ne away) (list_cons real is out next rest) =
    list_cons real (ground (arith, is)) out (same _ (λ e. ne (sym e)) ∙ next)
      (list_apart p v same away rest)

-- Blocks that are not free are written to.
pub list_written :
    {links links' : Ptr → Ptr} {role : Ptr → MetaRole} {n : ℕ} {head : Ptr} {ps : List Ptr}
    → ((q : Ptr) → role q ≡ free n → links' q ≡ links q)
    → IsFreeList links role n head ps
    → IsFreeList links' role n head ps
list_written same list_nil = list_nil
list_written same (list_cons real is out next rest) =
    list_cons real is out (same _ is ∙ next) (list_written same rest)

pub held_apart : {n m : ℕ} → held n ≡ free m → ⊥
held_apart e = ground (arith, ap is_held e)

free_inj : {n m : ℕ} → free n ≡ free m → n ≡ m
free_inj e = ap size_of e

first_of :
    {links : Ptr → Ptr} {role : Ptr → MetaRole} {n : ℕ} {head : Ptr} {ps : List Ptr}
    → IsFreeList links role n head ps
    → head ≢ null
    → (role head ≡ free n)
      × ((qs : List Ptr) × IsAbsent head qs × IsFreeList links role n (links head) qs)
first_of list_nil full = absurd (full refl)
first_of {links} {role} {n} (list_cons {p} {next} {ps} real is out e rest) full =
    (is, (ps, out, subst (λ q. IsFreeList links role n q ps) (sym e) rest))

-- The block at the head of a list is taken.
pub pop-Lists :
    {links : Ptr → Ptr} {role : Ptr → MetaRole} {head head' : ℕ → Ptr} (size : ℕ)
    → Lists links role head
    → size ≤ largest
    → head size ≢ null
    → ((j : ℕ) → j ≤ largest → head' j ≡ (if size == j then links (head size) else head j))
    → (role (head size) ≡ free size) × Lists links (update role (head size) (held size)) head'
pop-Lists {links} {role} {head} {head'} size lists le full now =
    let (is, (qs, out, rest)) = first_of (lists size le).1 full in
    (
      is,
      λ n le'. elim (Bool-cases (size == n)) [
        | inl e ↦
            rw (now n le', e, ← (==_iff size n).0 e)
              (qs, list_apart (head size) (held size) (λ q ne. refl) out rest)
        | inr d ↦
            let (ps, list) = lists n le' in
            let other =
              list-IsAbsent (head size) (λ e. ground (arith, d, free_inj (sym is ∙ e))) list in
            rw (now n le', d) (ps, list_apart (head size) (held size) (λ q ne. refl) other list)
      ],
    )

-- A block that is in no list is put at the front of one.
pub push-Lists :
    {links : Ptr → Ptr} {role : Ptr → MetaRole} {head head' : ℕ → Ptr} (p : Ptr) (size : ℕ)
    → Lists links role head
    → p ≢ null
    → role p ≡ held size
    → ((j : ℕ) → j ≤ largest → head' j ≡ (if size == j then p else head j))
    → Lists (update links p (head size)) (update role p (free size)) head'
push-Lists {links} {role} {head} {head'} p size lists real is now n le =
    let (ps, list) = lists n le in
    let out = list-IsAbsent p (λ e. held_apart (sym is ∙ e)) list in
    let rest =
      list_apart {links' = update links p (head size)} p (free size) (λ q ne. ground arith) out
        list in
    elim (Bool-cases (size == n)) [
      | inl e ↦
          rw (now n le, e, ← (==_iff size n).0 e)
            (
              p ∷ ps,
              list_cons real (update_at role p (free size)) out (update_at links p _) (
                  subst
                    (λ m.
                      IsFreeList (update links p (head size)) (update role p (free size)) m (head m)
                        ps)
                    (sym ((==_iff size n).0 e)) rest),
            )
      | inr d ↦ rw (now n le, d) (ps, rest)
    ]

-- A new block.
pub grow-Lists :
    {links : Ptr → Ptr} {role : Ptr → MetaRole} {head : ℕ → Ptr} (p : Ptr) (size : ℕ)
    → Lists links role head
    → role p ≡ unborn
    → Lists links (update role p (held size)) head
grow-Lists {links} {role} {head} p size lists is n le =
    let (ps, list) = lists n le in
    (ps, list_apart p (held size) (λ q ne. refl) (list-IsAbsent p (ground (arith, is)) list) list)

-- Some lists become empty.
pub thin-Lists :
    {links : Ptr → Ptr} {role : Ptr → MetaRole} {head head' : ℕ → Ptr}
    → Lists links role head
    → ((j : ℕ) → (head' j ≡ null) ⊎ (head' j ≡ head j))
    → Lists links role head'
thin-Lists {links} {role} lists now n le = elim (now n) [
  | inl e ↦ rw e ([], list_nil)
  | inr e ↦ rw e (lists n le)
]

-- A change of role that leaves the size.
pub extent_same :
    (role : Ptr → MetaRole) (p : Ptr) (v : MetaRole)
    → size_of (role p) ≡ size_of v
    → ◌≡◌ {A = Ptr → ℕ} (λ q. size_of (role q)) (λ q. size_of (update role p v q))
extent_same role p v e =
    fun_ext
      λ q. elim (Bool-cases (p == q)) [ inl d ↦ rw (d, ← (==_iff p q).0 d) e | inr d ↦ rw d refl ]

abbrev pub AllSized : (Ptr → MetaRole) → Type 0
AllSized role = (p : Ptr) → (role p ≡ unborn) ⊎ (0 < size_of (role p))

pub sized_update :
    (role : Ptr → MetaRole) (p : Ptr) (v : MetaRole)
    → 0 < size_of v
    → AllSized role
    → AllSized (update role p v)
sized_update role p v pos h q = elim (Bool-cases (p == q)) [
  | inl e ↦ rw e (inr pos)
  | inr e ↦ rw e (h q)
]

module _ {o : Mapper} (k : IsChunkMapper o) where
  -- Blocks and lists of the arena, by the roles of the addresses.
  pub record IsArenaOf (chunks : MetaChunks) (kernel : o.Kernel) (links : Ptr → Ptr)
      (head : ℕ → Ptr) (role : Ptr → MetaRole) : Type 0 where
    pub placed : IsPlaced k (λ p. size_of (role p)) chunks kernel
    pub sized : AllSized role
    pub lists : Lists links role head

  abbrev pub IsArena : Arena o → (Ptr → MetaRole) → Type 0
  IsArena st role = IsArenaOf st.meta_arena st.kernel st.links (head_of o st) role
