-- ===== src/ArenaAllocator.antt =====
-- src/arena_allocator.c: the allocator that carves objects off blocks of a parent allocator and gives
-- all blocks back at once. The headers of its blocks are one map from addresses; the parent's table
-- works on the parent's own state and on the bytes of memory (Vtable).
pub mod Laws
pub mod Reset
pub mod Handle
mod Tests
use sigma_malloc.Base.{
  ℕ, zero, suc, ◌+◌, ◌-◌, ◌*◌, ◌/◌, ◌%◌, ◌^◌, ◌≤◌, ◌<◌, min, ◌≡◌, refl, sym, ap, ◌∙◌, ◌≢◌, ◌↔◌, ◌⊎◌,
  inl, inr, Bool, true, false, not, ◌&&◌, ◌||◌, Option, none, some, List, [], ◌∷◌, ◌++◌, arith, ltb,
  leb, ◌==◌, if◌then◌else◌, ltb→lt, lt→ltb, leb→le, le→ltb, ==_iff, ==_refl, ==_ne, Bool-cases,
  order_cases, eq_cases, length, length-append, All, has, erase, Nodup, has-erase, has-erase-false,
  Nodup-erase,
}
use sigma_malloc.Base.Word.{size_max, add_size, sub_size, mul_size, align_up, alignment_is_valid}
use sigma_malloc.Links.{Ptr, null, update}
use sigma_malloc.Header.{Site, no_site}
use sigma_malloc.Zero.{Cpu}
use sigma_malloc.Vtable.{
  World, Allocator, max_align, alloc_aligned_debug, free_aligned, overflows, zero_result,
  copy_bytes,
}

-- allocator_arena_block_t
pub record Block : Type 0 where
  pub next : Ptr
  pub allocation_size : ℕ
  pub used : ℕ
  pub capacity : ℕ

-- sizeof(allocator_arena_block_t), and the offset of its `data`
abbrev pub block_header_size : ℕ
block_header_size = 32

-- allocator_arena_t, and the block headers in memory
pub record Arena (A : Type 0) : Type 0 where
  pub parent : Allocator A
  pub blocks : Ptr
  pub block_size : ℕ
  pub store : Ptr → Block

-- The address of `block->data`
abbrev pub data_of : Ptr → Ptr
data_of p = add_size p block_header_size

-- A pointer that a call returns, and the state it leaves.
abbrev pub Result : Type 0 → Type 0
Result A = Ptr × Arena A × World A

-- `padding <= block->capacity - block->used && size <= block->capacity - block->used - padding`
pub fits_in : (size alignment : ℕ) → Ptr → Block → Bool
fits_in size alignment block b =
    let current = add_size (data_of block) b.used in
    let padding = sub_size (align_up current alignment) current in
    let left = sub_size b.capacity b.used in leb padding left && leb size (sub_size left padding)

module _ {A : Type 0} where
  -- arena_new_block
  pub new_block : (minimum_capacity : ℕ) → Site → Arena A → World A → Result A
  new_block minimum_capacity s ar w =
      let capacity =
        if ltb ar.block_size minimum_capacity then minimum_capacity else ar.block_size in
      if ltb (size_max - block_header_size) capacity
      then (null, ar, w)
      else let allocation_size = block_header_size + capacity in
        let (block, w1) = alloc_aligned_debug ar.parent allocation_size max_align s w in
        if block == null then (null, ar, w1) else (
          block,
          record ar {
            blocks = block;
            store = update ar.store block (record {
              next = ar.blocks;
              allocation_size = allocation_size;
              used = 0;
              capacity = capacity;
            });
          },
          w1,
        )

  -- `block->used = used` for the block at `p`
  pub set_used : Ptr → ℕ → Arena A → Arena A
  set_used p used ar = record ar { store = update ar.store p (record (ar.store p) { used = used }) }

  -- The end of `arena_alloc_internal`: the object is the first in a new block.
  pub alloc_in_new_block : (size alignment : ℕ) → Site → Arena A → World A → Result A
  alloc_in_new_block size alignment s ar w =
      let (block, ar1, w1) = new_block (size + (alignment - 1)) s ar w in
      if block == null
      then (null, ar1, w1)
      else let aligned = align_up (data_of block) alignment in
        (aligned, set_used block (add_size (sub_size aligned (data_of block)) size) ar1, w1)

  -- arena_alloc_internal, for an arena that stands at the address `self`
  pub alloc_internal : (self : Ptr) (size alignment : ℕ) → Site → Arena A → World A → Result A
  alloc_internal self size alignment s ar w =
      if self == null
        || size == 0
        || not (alignment_is_valid alignment)
        || ltb (size_max - (alignment - 1)) size
      then (null, ar, w)
      else let b = ar.store ar.blocks in
        let current = add_size (data_of ar.blocks) b.used in
        let aligned = align_up current alignment in
        if not (ar.blocks == null) && fits_in size alignment ar.blocks b
        then (
          aligned,
          set_used ar.blocks (add_size b.used (add_size (sub_size aligned current) size)) ar,
          w,
        )
        else alloc_in_new_block size alignment s ar w

  -- arena_alloc and arena_alloc_debug
  abbrev pub arena_alloc : (self : Ptr) (size alignment : ℕ) → Arena A → World A → Result A
  arena_alloc self size alignment ar w = alloc_internal self size alignment no_site ar w

  abbrev pub arena_alloc_debug :
      (self : Ptr) (size alignment : ℕ) → Site → Arena A → World A → Result A
  arena_alloc_debug self size alignment s ar w = alloc_internal self size alignment s ar w

  -- arena_calloc_debug
  abbrev pub arena_calloc_debug :
      Cpu → (self : Ptr) (count size alignment : ℕ) → Site → Arena A → World A → Result A
  arena_calloc_debug cpu self count size alignment s ar w =
      if overflows count size
      then (null, ar, w)
      else let total = mul_size count size in
        let (p, ar1, w1) = alloc_internal self total alignment s ar w in
        let (q, w2) = zero_result cpu total (p, w1) in (q, ar1, w2)

  -- arena_realloc_debug; `arena_realloc` is the same with no source position.
  abbrev pub arena_realloc_debug :
      (self p : Ptr) (old_size new_size alignment : ℕ) → Site → Arena A → World A → Result A
  arena_realloc_debug self p old_size new_size alignment s ar w =
      if p == null
      then alloc_internal self new_size alignment s ar w
      else if new_size == 0
      then (null, ar, w)
      else let (q, ar1, w1) = alloc_internal self new_size alignment s ar w in
        if q == null
        then (null, ar1, w1)
        else (q, ar1, copy_bytes q p (if ltb old_size new_size then old_size else new_size) w1)

  abbrev pub arena_realloc :
      (self p : Ptr) (old_size new_size alignment : ℕ) → Arena A → World A → Result A
  arena_realloc self p old_size new_size alignment ar w =
      arena_realloc_debug self p old_size new_size alignment no_site ar w

  -- arena_free
  abbrev pub arena_free : Ptr → (size alignment : ℕ) → Arena A → World A → Arena A × World A
  arena_free p size alignment ar w = (ar, w)

  -- allocator_arena_init
  abbrev pub init : Allocator A → ℕ → (Ptr → Block) → Arena A
  init parent block_size store = record {
    parent = parent;
    blocks = null;
    block_size = block_size;
    store = store;
  }

  -- The loop of `allocator_arena_reset`. The headers are read before their blocks are freed.
  pub reset_loop : (fuel : ℕ) → Allocator A → (Ptr → Block) → Ptr → World A → World A
  reset_loop zero parent store block w = w
  reset_loop (suc f) parent store block w =
      let b = store block in
      let rest =
        reset_loop f parent store b.next
          (free_aligned parent block b.allocation_size max_align w) in
      if block == null then w else rest

  -- allocator_arena_reset and allocator_arena_deinit
  pub reset : (fuel : ℕ) → Arena A → World A → Arena A × World A
  reset fuel ar w = (record ar { blocks = null }, reset_loop fuel ar.parent ar.store ar.blocks w)
