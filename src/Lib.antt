-- ===== src/Lib.antt =====
-- Verification of FastMemoryAllocator, a thread-caching replacement for malloc written in C.
--
-- The program. `cmalloc` (src/cmalloc.c) serves a request of up to 32 KiB from a span of blocks of
-- one size class: it finds the class in a table (src/common.h), takes a span of the class from a
-- thread-local bin or asks `cmalloc_initialize_span` (src/span.c) for one, and takes a free block
-- from the span's bitmaps (src/span.h). `cfree` finds the span of an address by its page number in
-- a radix trie (src/range_map.c). Nodes of the trie and the spans themselves come from an arena of
-- metadata (src/metadata.c).
--
-- The model. Words of 64 bits are natural numbers below 2 ^ 64 with wrap-around written out. An
-- address is a number, and 0 is NULL. Arrays are functions of the index; where the C code can index
-- out of range the model of that operation says so by a failure. Failures (`none`) stand for a
-- failed assertion, for NULL handed to memset, and for undefined behaviour.
--
-- Files.
--   Base         tests, arrays, counting, and the bits of words (`&`, `|`, `~`, shifts, ctz);
--   Common       src/common.h and `cmalloc_runtime_init`: pages, alignment, size classes, table;
--   Span         src/span.h and the bitmaps that `cmalloc_initialize_span` fills;
--   RangeMap     src/range_map.c, over an allocator of metadata that is a parameter;
--   PageBins     the bins of cached spans in src/span.c: `uninitilized_span_bin`,
--                `non_empty_bitmap`, and the search for the closest fit;
--   SpanHeap     the rest of src/span.c: `alloc_span` with a definition for each branch,
--                `cmalloc_cache_span`, `cmalloc_initialize_span` and `cmalloc_get_span`, over the
--                allocator of metadata and the kernel's mmap and munmap as parameters; in
--                SpanHeap.Supply and SpanHeap.Served with metadata for every call;
--   Cmalloc      src/cmalloc.c: the bins of a thread, `cmalloc`, `cfree`, `ccalloc`, `crealloc`; in
--                Cmalloc.Threads the calls of several threads, one after the other;
--   Metadata     src/metadata.c: the arena with its chunks and bump pointer, and the free lists by
--                size, whose trie takes its nodes from the arena. Blocks (where blocks stand), Lists
--                (the free lists and the invariant), Heads (what the trie holds), Allocs and Frees
--                (the two functions keep the invariant), Live and Runs (all that clients can bring
--                about), Refusals (failures of mmap, counted), AsAllocator, Interface and Spans (the
--                arena as the allocator of metadata of the others).
--   SpanHeap.Roles  which spans are in use and which are cached: the invariant of src/span.c (the
--                bins are stacks of the cached spans, every page of a span leads to it), kept by each
--                branch of `alloc_span` (Given, Split, Chunk, NewChunk, Fresh, Alloc) and by
--                `cmalloc_cache_span`, and the heaps that clients can bring about (Reach).
--   Shim         bench/shim/alloc_shim.c with the backend cmalloc, and in Shim.Operators the operators
--                new and delete of bench/shim/alloc_shim_new.cpp.
-- In each folder the module of its name defines, its children prove, and `Tests` runs the
-- definitions and applies the theorems at concrete values.
--
-- Interfaces. What src/span.c relies on in the allocator of metadata is the record `IsAllocator`
-- (RangeMap.Ledger): for the sizes that the program asks for, memory that it gives is not in use, and
-- stays in use. Metadata.Interface shows it of the arena. What it relies on in mmap
-- is the record `IsMapper` (SpanHeap.Roles): whole pages below the 2 ^ 35th that were not mapped, or
-- MAP_FAILED; `IsChunkMapper` (Metadata.Blocks) says the same of the chunks of the arena, by address.
-- How many calls an allocator serves is `Serves` (RangeMap.Supply), and when the arena does so is said
-- by `CannotMap` (Metadata.Refusals): `meta_arena` is MAP_FAILED, or one of the next requests for a
-- chunk gets MAP_FAILED. A fault of the arena is a state of its own, `none` (Metadata.AsAllocator),
-- after which each call gives NULL. The invariant is for pages of at most
-- 2 ^ 20 bytes, and leaves out that a span too large for the bins is unmapped.
--
-- Bounds and fuel. `ctz` looks at 64 bits. The inner loop of `cmalloc_runtime_init` has 48 rounds of
-- fuel, as many as there are classes. The loops of operator new have as many rounds as the fuel says,
-- which is enough if it exceeds a measure that the new handler lowers. `cmalloc_alloc_metadata` calls
-- itself through `cmalloc_map`; its depth is fuel, of which one call is enough. The search of
-- src/span.c for a bin has a round of fuel for each word of the bitmap, and each read of a word is
-- checked: a read past the bitmap makes the answer `past_bitmap`. The other loops recur
-- on the rounds that are left.
--
-- Not modelled: calls of two threads at the same time (in the model a thread's call ends before the
-- next one begins, so that locking and unlocking the mutex changes nothing), in the arena the bytes
-- of a block behind its first word (the nodes of its trie are values), the mappings of the arena and
-- of src/span.c in one kernel, the Windows branches of src/common.h, the other backends of
-- bench/shim/alloc_shim.c, which only call other allocators, and the test and timing programs in
-- tests and bench, with bench/xthread_repro.c, which shows what goes wrong across threads.
pub mod Base
pub mod Common
pub mod Span
pub mod RangeMap
pub mod PageBins
pub mod SpanHeap
pub mod Cmalloc
pub mod Metadata
pub mod Shim
