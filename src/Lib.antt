-- ===== src/Lib.antt =====
-- A model of sigma_malloc, an allocator library in C for x86-64.
--
-- The program's parts build on each other. Memory from a source is divided by the arenas into buddy pools and
-- slab regions; the slabs give out small objects, the buddy pools give out blocks of whole pages, and what is
-- too large for either goes to the source. On top stands a table of functions (the allocator handle) that the
-- clients use, and an arena allocator that takes any handle as its parent.
--
-- The files and the code that they model:
--
-- - Base: shared names, tests on numbers, finite lists of numbers, and (Base/Word) `usize` arithmetic with its
--   wrap-around, ALIGN_UP and sigma_alignment_is_valid of include/common.h. Base/Bits has the lemmas on masks.
-- - Zero: fill_zero of src/utils/bzero.c with its scalar, SSE2 and AVX2 routines, on memory as a function from
--   addresses to bytes. Every loop is given as many rounds as there are bytes, and each round stores one or
--   more.
-- - Copy: sigma_libc_memset and sigma_memcpy of src/libc_wrappers.c.
-- - Header: the headers of include/common.h and include/buddy.h that stand in front of a user pointer.
-- - Links: list_push and list_remove of src/buddy.c, slab_push and slab_remove of src/slab.c, on the `next` and
--   `prev` fields of all nodes. Links/Chain says when such memory holds a list.
-- - Buddy: src/buddy.c. `pool_create` is buddy_pool_create, `buddy_alloc` and `buddy_free` have the names of the
--   source; the parts of these two functions are definitions of their own. The search for a list and the two
--   loops run at most BUDDY_NUM_ORDERS rounds, since each round changes the order by one. Buddy/Tree,
--   Buddy/Layout and Buddy/Lists are the abstract view: a binary tree of blocks, their addresses, and which
--   blocks the free lists hold. A panic is a value.
-- - Arena: the extents, regions and registry of src/arena.c. The pools stand in one map, by their addresses, and
--   share the memory of blocks. `find_region` is the search that arena_alloc_slab_region and
--   arena_alloc_buddy_region both start with, `grow_region` what both end with. The loops over extents and over
--   the arenas of a thread have fuel, and any fuel above their number is enough.
-- - Remote: the queue of remote frees of src/arena.c, and arena_alloc. `Step` has one constructor for each access of
--   arena_remote_free and of the owner to the shared memory, so a run is any interleaving of these accesses; weaker
--   orders of the memory are not modelled. The loop of the owner is also a function, on the `Backend` of what it
--   calls, the exchange of the shared head among it. Its fuel is above the number of objects in the queue.
-- - Slab: src/slab.c and include/slab.h, for the release build, with the supply of regions as a record of two
--   functions. `make_slab` is the part of slab_create behind its checks, `take_object` and `alloc_from` are parts
--   of slab_alloc, `give_object` is a part of slab_free_local. The loop over the slots runs once per slot.
-- - Large: src/large.c, on the `Supply` of what it calls.
-- - Entry: src/alloc.c and src/free.c, on the `Parts` that they call; Entry/Handle is src/sigma_malloc.c with the
--   table that makes the allocator a handle of include/allocator_vtable.h. There the state of the parts has the
--   memory in it, so that an allocation or a free may write to it.
-- - Leaks: the table of leaks and the collection of src/debug.c, Leaks/Slabs for the slabs, and
--   Leaks/InUse which of their objects are in use. The traversal of a pool
--   goes down one order at each step; the loops over lists have fuel above their lengths.
-- - Vtable: include/allocator_vtable.h. A table is a record of functions that may be missing; a call through a
--   missing function is a value of its own.
-- - ArenaAllocator: src/arena_allocator.c over a parent's table. The loop of the reset has fuel, and any fuel
--   above the number of blocks is enough.
-- - DebugFree: src/debug_free.c of the debug build.
--
-- Buddy/Client, Remote/Queue and Entry/Paths put operations together: the calls of a client on one pool, the steps of
-- all threads on one queue, and a free after an allocation. The records `Regions`, `Supply`, `Backend` and `Parts` stand
-- between the components; what a theorem asks of them is a named hypothesis.
--
-- Whether SIGMA_DEBUG is set is an argument where it changes the layout. Not modelled: the printing in
-- src/debug.c, the memory sources (calls of the platform), the counters of the debug build other than
-- the one of arena_alloc, and the test programs. A pool, a slab and an arena allocator belong to one thread; the
-- operations of src/debug_free.c hold a mutex, and so does each change of the list of large allocations.
pub mod Base
pub mod Zero
pub mod Copy
pub mod Vtable
pub mod ArenaAllocator
pub mod Links
pub mod Header
pub mod Buddy
pub mod DebugFree
pub mod Arena
pub mod Entry
pub mod Large
pub mod Leaks
pub mod Remote
pub mod Slab
