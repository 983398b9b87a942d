-- ===== src/Arena.antt =====
-- src/arena.c and include/arena.h: the regions of an arena. An arena keeps a list of extents; each is a mapping
-- with a buddy pool. The pools stand in one map, by their addresses, and share the memory of blocks.
pub mod Search
pub mod Grow
pub mod Registry
pub mod Release
pub mod Marks
mod Tests
use sigma_malloc.Base.{
  ℕ, zero, suc, ◌+◌, ◌-◌, ◌*◌, ◌/◌, ◌%◌, ◌^◌, ◌≤◌, ◌<◌, min, ◌≡◌, refl, sym, ap, ◌∙◌, ◌≢◌, ◌↔◌, ◌⊎◌,
  inl, inr, Bool, true, false, not, ◌&&◌, ◌||◌, Option, none, some, List, [], ◌∷◌, ◌++◌, arith, ltb,
  leb, ◌==◌, if◌then◌else◌, ltb→lt, lt→ltb, leb→le, le→ltb, ==_iff, ==_refl, ==_ne, Bool-cases,
  order_cases, eq_cases, length, length-append, All, has, erase, Nodup, has-erase, has-erase-false,
  Nodup-erase,
}
use sigma_malloc.Base.Word.{add_size, align_up}
use sigma_malloc.Links.{Ptr, null, update}
use sigma_malloc.Header.{BuddyHeader, no_site, type_buddy, alloc_header_from_user, buddy_header_of}
use sigma_malloc.Buddy.{
  Buddy, Pool, Mem, Run, ok, panic, free, backing_size, pool_create, buddy_alloc, buddy_free,
}
use sigma_malloc.Slab.{Cache, Regions, slab_size, size_class}

-- PAGE_SIZE, sizeof(arena_extent_t) and offsetof(arena_extent_t, buddy)
abbrev pub arena_page_size : ℕ
arena_page_size = 4096

abbrev pub extent_size : ℕ
extent_size = 144

abbrev pub extent_buddy_offset : ℕ
extent_buddy_offset = 24

-- sizeof(arena_t), which has three counters more in the debug build
abbrev pub arena_size : Bool → ℕ
arena_size debug = if debug then 264 else 240

-- align_up_page
abbrev pub align_up_page : ℕ → ℕ
align_up_page size = align_up size arena_page_size

-- arena_extent_t, less its pool
pub record Extent : Type 0 where
  pub next : Ptr
  pub mapping : Ptr
  pub mapping_size : ℕ

-- arena_t, less the queue of remote frees and the counters
pub record Arena : Type 0 where
  pub allocator : Ptr
  pub thread_next : Ptr
  pub caches : ℕ → Cache
  pub extents : Ptr
  pub active_extent : Ptr

-- The memory, and `g_thread_arenas` of the running thread.
pub record Heap : Type 0 where
  pub thread_arenas : Ptr
  pub arenas : Ptr → Arena
  pub extents : Ptr → Extent
  pub pools : Ptr → Pool
  pub mem : Mem

-- The two functions of the memory source.
pub record Source (E : Type 0) : Type 0 where
  pub alloc : (size alignment : ℕ) → E → Ptr × E
  pub free : Ptr → ℕ → E → E

-- `&extent->buddy`
abbrev pub pool_at : Ptr → Ptr
pool_at extent = extent + extent_buddy_offset

-- A pool with the memory of its blocks.
abbrev pub buddy_at : Ptr → Heap → Buddy
buddy_at pool s = record { pool = s.pools pool; mem = s.mem }

abbrev pub put_buddy : Ptr → Buddy → Heap → Heap
put_buddy pool b s = record s { pools = update s.pools pool b.pool; mem = b.mem }

-- `buddy_alloc(&extent->buddy, size, alignment)`
pub alloc_in : (debug : Bool) (extent size alignment : ℕ) → Heap → Ptr × Heap
alloc_in debug extent size alignment s =
    let (p, b) = buddy_alloc debug (pool_at extent) size alignment (buddy_at (pool_at extent) s) in
    (p, put_buddy (pool_at extent) b s)

-- `arena->active_extent = extent;`
abbrev pub set_active : (arena extent : Ptr) → Heap → Heap
set_active arena extent s = record s {
  arenas = update s.arenas arena (record (s.arenas arena) { active_extent = extent });
}

-- The loop over the extents, from `extent` on: the pointer and its extent.
pub search : (fuel : ℕ) (debug : Bool) (arena extent size alignment : ℕ) → Heap → Ptr × Ptr × Heap
search zero debug arena extent size alignment s = (null, null, s)
search (suc f) debug arena extent size alignment s =
    let (p, s1) =
      if extent == (s.arenas arena).active_extent
      then (null, s)
      else alloc_in debug extent size alignment s in
    let rest = search f debug arena (s1.extents extent).next size alignment s1 in
    if extent == null
    then (null, null, s)
    else if p == null
    then rest
    else (p, extent, set_active arena extent s1)

-- What `arena_alloc_slab_region` and `arena_alloc_buddy_region` both do first: they try the active extent and
-- then the others.
pub find_region : (fuel : ℕ) (debug : Bool) (arena size alignment : ℕ) → Heap → Ptr × Ptr × Heap
find_region fuel debug arena size alignment s =
    let a = (s.arenas arena).active_extent in
    let (p, s1) = if a == null then (null, s) else alloc_in debug a size alignment s in
    let rest = search fuel debug arena (s1.arenas arena).extents size alignment s1 in
    if p == null then rest else (p, a, s1)

-- `header->arena = arena;` and `header->is_slab_region = true;`
abbrev pub set_header_arena : (debug : Bool) (arena p : Ptr) → Heap → Heap
set_header_arena debug arena p s =
    let h = buddy_header_of debug p in
    record s {
      mem = record (s.mem) {
        buddy_headers =
            update s.mem.buddy_headers h (record (s.mem.buddy_headers h) { arena = arena });
      };
    }

abbrev pub set_header_slab_region : (debug : Bool) (p : Ptr) → Heap → Heap
set_header_slab_region debug p s =
    let h = buddy_header_of debug p in
    record s {
      mem = record (s.mem) {
        buddy_headers =
            update s.mem.buddy_headers h (record (s.mem.buddy_headers h) { is_slab_region = true });
      };
    }

-- `fill_zero(extent, sizeof(*extent))`
abbrev zero_pool : Pool
zero_pool = record {
  memory_start = null;
  memory_end = null;
  tree = λ i. free;
  free_lists = λ i. null;
  usable_start = null;
}

abbrev zero_extent : Extent
zero_extent = record { next = null; mapping = null; mapping_size = 0 }

abbrev pub clear_extent : Ptr → Heap → Heap
clear_extent extent s = record s {
  extents = update s.extents extent zero_extent;
  pools = update s.pools (pool_at extent) zero_pool;
}

-- The end of `arena_expand`, once the pool is made.
abbrev pub link_extent : (arena extent mapping_size : ℕ) → Heap → Heap
link_extent arena extent mapping_size s = record s {
  extents =
      update s.extents extent
        (record { next = (s.arenas arena).extents; mapping = extent; mapping_size = mapping_size });
  arenas =
      update s.arenas arena (record (s.arenas arena) { extents = extent; active_extent = extent });
}

-- The loop of `arena_get_existing`, from `arena` on
pub existing_from : (fuel : ℕ) (arena allocator : Ptr) → Heap → Ptr
existing_from zero arena allocator s = null
existing_from (suc f) arena allocator s =
    let rest = existing_from f (s.arenas arena).thread_next allocator s in
    if arena == null then null else if (s.arenas arena).allocator == allocator then arena else rest

-- arena_get_existing
pub get_existing : (fuel : ℕ) (allocator : Ptr) → Heap → Ptr
get_existing fuel allocator s = existing_from fuel s.thread_arenas allocator s

-- `fill_zero(arena, sizeof(arena_t))` and what `arena_create` writes after it
abbrev pub new_arena : Ptr → Arena
new_arena allocator = record {
  allocator = allocator;
  thread_next = null;
  caches = λ i. record { obj_size = size_class i; partial = null; full = null };
  extents = null;
  active_extent = null;
}

-- `metadata_size` and `mapping_size` of `arena_expand`
abbrev pub metadata_size : ℕ
metadata_size = align_up_page extent_size

abbrev pub extent_mapping_size : ℕ
extent_mapping_size = metadata_size + backing_size

module _ {E : Type 0} (source : Source E) where
  -- arena_expand
  pub expand : (arena : Ptr) → Heap → E → Bool × Heap × E
  expand arena s e =
      if arena == null
      then (false, s, e)
      else let (mapping, e1) = source.alloc extent_mapping_size arena_page_size e in
        if mapping == null
        then (false, s, e1)
        else let s1 = clear_extent mapping s in
          elim (pool_create (pool_at mapping) (add_size mapping metadata_size) backing_size
            (buddy_at (pool_at mapping) s1)) [
              | none ↦ (false, s1, source.free mapping extent_mapping_size e1)
              | some b ↦ (
                true,
                link_extent arena mapping extent_mapping_size (put_buddy (pool_at mapping) b s1),
                e1,
              )
            ]

  -- The end of both: a request that no extent can serve is tried in a new one.
  pub grow_region : (debug : Bool) (arena size alignment : ℕ) → Heap → E → Ptr × Ptr × Heap × E
  grow_region debug arena size alignment s e =
      let (done, s1, e1) = expand arena s e in
      let a = (s1.arenas arena).active_extent in
      let (p, s2) = alloc_in debug a size alignment s1 in
      if done then (p, a, s2, e1) else (null, null, s1, e1)

  -- arena_alloc_buddy_region
  pub alloc_buddy_region :
      (fuel : ℕ) (debug : Bool) (arena size alignment : ℕ) → Heap → E → Ptr × Heap × E
  alloc_buddy_region fuel debug arena size alignment s e =
      if arena == null
      then (null, s, e)
      else let (p, extent, s1) = find_region fuel debug arena size alignment s in
        let new = grow_region debug arena size alignment s1 e in
        let (r, x, s2, e2) : Ptr × Ptr × Heap × E = if p == null then new else (p, extent, s1, e) in
        (r, (if r == null then s2 else set_header_arena debug arena r s2), e2)

  -- arena_alloc_slab_region; none is NULL, and otherwise the region comes with `*out_extent`.
  pub alloc_slab_region :
      (fuel : ℕ) (debug : Bool) (arena : Ptr) → Heap → E → Option (Ptr × Ptr) × Heap × E
  alloc_slab_region fuel debug arena s e =
      if arena == null
      then (none, s, e)
      else let (p, extent, s1) = find_region fuel debug arena slab_size 16 s in
        let (q, new, s2, e2) = grow_region debug arena slab_size 16 s1 e in
        if not (p == null)
        then (some (p, extent), set_header_slab_region debug p s1, e)
        else if q == null
        then (none, s2, e2)
        else (some (q, new), set_header_slab_region debug q s2, e2)

  -- arena_create; `has_source` says whether the allocator has a source.
  pub create : (debug : Bool) (allocator : Ptr) (has_source : Bool) → Heap → E → Ptr × Heap × E
  create debug allocator has_source s e =
      if allocator == null || not has_source
      then (null, s, e)
      else let mapping_size = align_up_page (arena_size debug) in
        let (mapping, e1) = source.alloc mapping_size arena_page_size e in
        if mapping == null
        then (null, s, e1)
        else let (done, s1, e2) =
            expand mapping (record s { arenas = update s.arenas mapping (new_arena allocator) })
              e1 in
          if done then (mapping, s1, e2) else (null, s1, source.free mapping mapping_size e2)

  -- arena_get
  pub get :
      (fuel : ℕ) (debug : Bool) (allocator : Ptr) (has_source : Bool) → Heap → E → Ptr × Heap × E
  get fuel debug allocator has_source s e =
      let found = get_existing fuel allocator s in
      let (arena, s1, e1) = create debug allocator has_source s e in
      if not (found == null) then (found, s, e) else if arena == null then (null, s1, e1) else (
        arena,
        record s1 {
          arenas =
              update s1.arenas arena (record (s1.arenas arena) { thread_next = s1.thread_arenas });
          thread_arenas = arena;
        },
        e1,
      )
