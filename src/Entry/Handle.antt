-- ===== src/Entry/Handle.antt =====
-- src/sigma_malloc.c: calloc, realloc and the table of functions that makes the allocator a handle. They work on the
-- memory as well.
pub mod Moves
pub mod Table
mod Tests
use sigma_malloc.Base.{
  ℕ, zero, suc, ◌+◌, ◌-◌, ◌*◌, ◌/◌, ◌%◌, ◌^◌, ◌≤◌, ◌<◌, min, ◌≡◌, refl, sym, ap, ◌∙◌, ◌≢◌, ◌↔◌, ◌⊎◌,
  inl, inr, Bool, true, false, not, ◌&&◌, ◌||◌, Option, none, some, List, [], ◌∷◌, ◌++◌, arith, ltb,
  leb, ◌==◌, if◌then◌else◌, ltb→lt, lt→ltb, leb→le, le→ltb, ==_iff, ==_refl, ==_ne, Bool-cases,
  order_cases, eq_cases, length, length-append, All, has, erase, Nodup, has-erase, has-erase-false,
  Nodup-erase,
}
use sigma_malloc.Base.Word.{mul_size}
use sigma_malloc.Links.{Ptr, null}
use sigma_malloc.Header.{Site, type_large}
use sigma_malloc.Zero.{Cpu}
use sigma_malloc.DebugFree.{FreedRing}
use sigma_malloc.Vtable.{World, Vtable, zero_bytes, copy_bytes, overflows}
use sigma_malloc.Entry.{
  SigmaAllocator, Parts, Sigma, Result, sigma_alloc, sigma_alloc_debug, sigma_free, write_site,
  allocation_info,
}

-- The state of the parts has the memory in it, which every call of an allocation or a free may write to, next to
-- what else they keep.
module _ {T : Type 0} (x : Parts (World T)) (debug : Bool) (self : Ptr) (a : SigmaAllocator) where
  -- `returns_zeroed_memory` of the source; reading it through a NULL source is not reached.
  pub zeroed_source : Bool
  zeroed_source = elim (a.source) [ none ↦ false | some f ↦ f.returns_zeroed_memory ]

  -- The end of both calloc functions
  pub clear_result : Cpu → (total : ℕ) → Result (World T) → Result (World T)
  clear_result cpu total none = none
  clear_result cpu total (some (p, s)) =
      let zeroed = zeroed_source && (x.header s.parts p).type == type_large in
      some
        (p, if p == null || zeroed then s else record s { parts = zero_bytes cpu p total s.parts })

  -- sigma_calloc
  pub sigma_calloc : Cpu → (count size alignment : ℕ) → Sigma (World T) → Result (World T)
  sigma_calloc cpu count size alignment s =
      if overflows count size
      then some (null, s)
      else clear_result cpu (mul_size count size)
          (sigma_alloc x debug self a (mul_size count size) alignment s)

  -- sigma_vtable_calloc_debug
  pub vtable_calloc_debug :
      Cpu → (count size alignment : ℕ) → Site → Sigma (World T) → Result (World T)
  vtable_calloc_debug cpu count size alignment site s =
      if overflows count size
      then some (null, s)
      else clear_result cpu (mul_size count size)
          (sigma_alloc_debug x debug self a (mul_size count size) alignment site s)

  -- `copy_size` of `sigma_realloc`
  pub copy_size : (stored old_size new_size : ℕ) → ℕ
  copy_size stored old_size new_size =
      let c = if ltb stored new_size then stored else new_size in
      if ltb old_size c then old_size else c

  -- `sigma_set_debug_info`, if there is information
  pub set_debug_info : Option (Site × ℕ) → Ptr → Sigma (World T) → Sigma (World T)
  set_debug_info none p s = s
  set_debug_info (some (site, n)) p s = write_site x debug self a p site s

  -- `sigma_realloc` behind the allocation of `q`, which is not NULL
  pub move_to :
      (p q : Ptr) → Option (Site × ℕ) → (old_size new_size : ℕ) → Sigma (World T) → Result (World T)
  move_to p q info old_size new_size s =
      let s1 = set_debug_info info q s in
      let n = copy_size (x.header s1.parts p).requested_size old_size new_size in
      elim (sigma_free x debug self a p (record s1 { parts = copy_bytes q p n s1.parts })) [
        | none ↦ none
        | some s2 ↦ some (q, s2)
      ]

  -- `sigma_free` with no result to give
  abbrev pub free_only : Ptr → Sigma (World T) → Result (World T)
  free_only p s = elim (sigma_free x debug self a p s) [ none ↦ none | some s1 ↦ some (null, s1) ]

  -- sigma_realloc
  pub sigma_realloc : Ptr → (old_size new_size alignment : ℕ) → Sigma (World T) → Result (World T)
  sigma_realloc p old_size new_size alignment s =
      if p == null
      then sigma_alloc x debug self a new_size alignment s
      else if new_size == 0
      then free_only p s
      else elim (sigma_alloc x debug self a new_size alignment s) [
        | none ↦ none
        | some (q, s1) ↦
            if q == null
            then some (null, s1)
            else move_to p q (allocation_info x debug self a p s) old_size new_size s1
      ]

  -- sigma_vtable_realloc_debug
  pub vtable_realloc_debug :
      Ptr → (old_size new_size alignment : ℕ) → Site → Sigma (World T) → Result (World T)
  vtable_realloc_debug p old_size new_size alignment site s =
      if p == null
      then sigma_alloc_debug x debug self a new_size alignment site s
      else sigma_realloc p old_size new_size alignment s

  -- The memory as the clients of the handle see it: the rest of the state is the allocator's own, and it is none
  -- when the process has ended by a panic.
  abbrev pub running : Sigma (World T) → World (Option (T × FreedRing))
  running s = record {
    bytes = s.parts.bytes;
    zero_impl = s.parts.zero_impl;
    own = some (s.parts.own, s.ring);
  }

  -- After a panic nothing happens any more.
  pub or_ended :
      (Sigma (World T) → Result (World T))
      → World (Option (T × FreedRing))
      → Ptr × World (Option (T × FreedRing))
  or_ended f w = elim (w.own) [
    | none ↦ (null, w)
    | some (t, ring) ↦
        elim (f (record {
          parts = record { bytes = w.bytes; zero_impl = w.zero_impl; own = t };
          ring = ring;
        })) [ none ↦ (null, record w { own = none }) | some (p, s) ↦ (p, running s) ]
  ]

  -- `g_sigma_allocator_vtable`, with the functions that it holds, and `sigma_allocator`
  pub sigma_allocator : Cpu → Option (Vtable (Option (T × FreedRing)))
  sigma_allocator cpu = some (record {
    alloc = some (λ size alignment. or_ended (sigma_alloc x debug self a size alignment));
    alloc_debug =
        some
          (λ size alignment site. or_ended (sigma_alloc_debug x debug self a size alignment site));
    calloc = some (λ count size alignment. or_ended (sigma_calloc cpu count size alignment));
    calloc_debug =
        some (λ count size alignment site.
          or_ended (vtable_calloc_debug cpu count size alignment site));
    realloc =
        some
          (λ p old_size new_size alignment. or_ended (sigma_realloc p old_size new_size alignment));
    realloc_debug = some (λ p old_size new_size alignment site.
        or_ended (vtable_realloc_debug p old_size new_size alignment site));
    free = some (λ p size alignment w. (or_ended (free_only p) w).1);
  })
