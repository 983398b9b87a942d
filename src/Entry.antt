-- ===== src/Entry.antt =====
-- src/alloc.c and src/free.c: the functions that a program calls. They choose an allocator for a
-- request and find the one that a pointer belongs to. The arenas and the large allocations are a parameter, with a
-- state of their own. A panic is none.
pub mod Dispatch
pub mod Paths
pub mod Sites
pub mod Handle
mod Tests
use sigma_malloc.Base.{
  ℕ, zero, suc, ◌+◌, ◌-◌, ◌*◌, ◌/◌, ◌%◌, ◌^◌, ◌≤◌, ◌<◌, min, ◌≡◌, refl, sym, ap, ◌∙◌, ◌≢◌, ◌↔◌, ◌⊎◌,
  inl, inr, Bool, true, false, not, ◌&&◌, ◌||◌, Option, none, some, List, [], ◌∷◌, ◌++◌, arith, ltb,
  leb, ◌==◌, if◌then◌else◌, ltb→lt, lt→ltb, leb→le, le→ltb, ==_iff, ==_refl, ==_ne, Bool-cases,
  order_cases, eq_cases, length, length-append, All, has, erase, Nodup, has-erase, has-erase-false,
  Nodup-erase,
}
use sigma_malloc.Base.Word.{alignment_is_valid}
use sigma_malloc.Links.{Ptr, null}
use sigma_malloc.Header.{AllocHeader, Site, no_site, type_slab, type_buddy, type_large}
use sigma_malloc.Buddy.{pool_size}
use sigma_malloc.Slab.{slab_max_alignment}
use sigma_malloc.DebugFree.{
  FreedRing, Check, passes, panics, check_double_free, forget_freed, record_free,
}
use sigma_malloc.Remote.{max_slab_obj_size}

-- memory_source_t, less its functions
pub record SourceFlags : Type 0 where
  pub returns_zeroed_memory : Bool

-- sigma_allocator_t, less the list of large allocations; a source of none is NULL.
pub record SigmaAllocator : Type 0 where
  pub initialized : Bool
  pub is_debug : Bool
  pub source : Option SourceFlags

-- sigma_allocator_init
pub sigma_allocator_init : (debug : Bool) → Option SourceFlags → SigmaAllocator
sigma_allocator_init debug source = record { initialized = true; is_debug = debug; source = source }

-- What the three files call, for one allocator and one thread. The header, the owner and the site of an allocation
-- are read by the user pointer; the site is in a place that the type says.
pub record Parts (S : Type 0) : Type 0 where
  pub arena_get : S → Ptr × S
  pub arena_get_existing : S → Ptr
  pub arena_alloc : (arena size alignment : ℕ) → S → Option (Ptr × S)
  pub alloc_buddy_region : (arena size alignment : ℕ) → S → Ptr × S
  pub large_alloc : (size alignment : ℕ) → S → Ptr × S
  pub arena_free_local : (arena p : Ptr) → S → Option S
  pub arena_free_buddy_local : (arena p : Ptr) → S → Option S
  pub arena_remote_free : (arena p : Ptr) → S → S
  pub large_free : Ptr → S → Option S
  pub header : S → Ptr → AllocHeader
  pub set_alignment : Ptr → ℕ → S → S
  pub slab_arena : S → Ptr → Ptr
  pub buddy_arena : S → Ptr → Ptr
  pub allocator_of : S → Ptr → Ptr
  pub site : (type : ℕ) → S → Ptr → Site
  pub set_site : (type : ℕ) → Ptr → Site → S → S

-- The parts, and the ring of freed pointers of the debug build.
pub record Sigma (S : Type 0) : Type 0 where
  pub parts : S
  pub ring : FreedRing

abbrev pub Result : Type 0 → Type 0
Result S = Option (Ptr × Sigma S)

module _ {S : Type 0} (x : Parts S) (debug : Bool) (self : Ptr) (a : SigmaAllocator) where
  -- finish_alloc; the release build's `sigma_debug_forget_freed` is empty.
  pub finish_alloc : Ptr → Sigma S → Ptr × Sigma S
  finish_alloc p s =
      (p, if p == null then s else if debug then record s { ring = forget_freed p s.ring } else s)

  -- The three paths of `sigma_alloc`
  pub small_path : (arena size alignment : ℕ) → Sigma S → Result S
  small_path arena size alignment s = elim (x.arena_alloc arena size alignment s.parts) [
    | none ↦ none
    | some (p, r) ↦ some (
        finish_alloc p
          (record s { parts = if p == null then r else x.set_alignment p alignment r }))
  ]

  pub large_path : (size alignment : ℕ) → Sigma S → Result S
  large_path size alignment s =
      let (p, r) = x.large_alloc size alignment s.parts in
      some (finish_alloc p (record s { parts = r }))

  pub medium_path : (arena size alignment : ℕ) → Sigma S → Result S
  medium_path arena size alignment s =
      let (p, r) = x.alloc_buddy_region arena size alignment s.parts in
      if p == null
      then large_path size alignment (record s { parts = r })
      else some (finish_alloc p (record s { parts = r }))

  -- The test at the start of `sigma_alloc`
  pub refuses : (size alignment : ℕ) → Bool
  refuses size alignment =
      self == null
      || not a.initialized
      || (elim (a.source) [ none ↦ true | some f ↦ false ])
      || size == 0
      || not (alignment_is_valid alignment)

  -- sigma_alloc
  pub sigma_alloc : (size alignment : ℕ) → Sigma S → Result S
  sigma_alloc size alignment s =
      let (arena, r) = x.arena_get s.parts in
      let s1 : Sigma S = record s { parts = r } in
      if refuses size alignment
      then some (null, s)
      else if leb size max_slab_obj_size && leb alignment slab_max_alignment
      then if arena == null then some (null, s1) else small_path arena size alignment s1
      else if leb size pool_size && leb alignment pool_size
      then if arena == null then some (null, s1) else medium_path arena size alignment s1
      else large_path size alignment s

  -- The site of an allocation is written and read where its type says; any other type has none.
  abbrev pub has_site : ℕ → Bool
  has_site type = type == type_slab || type == type_buddy || type == type_large

  pub write_site : Ptr → Site → Sigma S → Sigma S
  write_site p site s =
      let type = (x.header s.parts p).type in
      if has_site type then record s { parts = x.set_site type p site s.parts } else s

  -- sigma_alloc_debug
  pub sigma_alloc_debug : (size alignment : ℕ) → Site → Sigma S → Result S
  sigma_alloc_debug size alignment site s = elim (sigma_alloc size alignment s) [
    | none ↦ none
    | some (p, s1) ↦ some (p, if p == null then s1 else if debug then write_site p site s1 else s1)
  ]

  -- sigma_debug_allocation_info: site and size
  pub allocation_info : Ptr → Sigma S → Option (Site × ℕ)
  allocation_info p s =
      let h = x.header s.parts p in
      if p == null || not debug
      then none
      else if has_site h.type
      then some (x.site h.type s.parts p, h.requested_size)
      else none

  -- The part of `sigma_free` that the debug build has: it records the free with the site of the allocation.
  pub note_free : Ptr → Sigma S → Sigma S
  note_free p s =
      let type = (x.header s.parts p).type in
      if debug
      then record s {
        ring = record_free p (if has_site type then x.site type s.parts p else no_site) s.ring;
      }
      else s

  -- The cases of `sigma_free` for slabs and pools: `owner` has been read.
  pub free_to : (owner : Ptr) → Bool → Ptr → S → Option S
  free_to owner slab p r =
      if not (x.allocator_of r owner == self)
      then none
      else if x.arena_get_existing r == owner
      then if slab then x.arena_free_local owner p r else x.arena_free_buddy_local owner p r
      else some (x.arena_remote_free owner p r)

  -- The switch of `sigma_free`
  pub dispatch : Ptr → S → Option S
  dispatch p r =
      let type = (x.header r p).type in
      if type == type_slab
      then free_to (x.slab_arena r p) true p r
      else if type == type_buddy
      then free_to (x.buddy_arena r p) false p r
      else if type == type_large
      then x.large_free p r
      else none

  -- Whether `sigma_debug_check_double_free` finds the pointer and panics; else, and in the release build, it returns
  -- false.
  pub freed_before : Ptr → Sigma S → Bool
  freed_before p s =
      if debug
      then (elim (check_double_free p s.ring) [ passes ↦ false | panics r ↦ true ])
      else false

  -- sigma_free
  pub sigma_free : Ptr → Sigma S → Option (Sigma S)
  sigma_free p s =
      let s1 = note_free p s in
      if p == null
      then some s
      else if freed_before p s
      then none
      else elim (dispatch p s1.parts) [ none ↦ none | some r ↦ some (record s1 { parts = r }) ]
