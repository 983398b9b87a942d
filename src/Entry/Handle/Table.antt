-- ===== src/Entry/Handle/Table.antt =====
-- The allocator as a handle: a client of include/allocator_vtable.h gets the functions of src/sigma_malloc.c.
use sigma_malloc.Base.{
  ℕ, ◌≡◌, refl, sym, ap, inl, inr, Bool, true, Option, none, some, ==_ne, Bool-cases, eq_cases,
}
use sigma_malloc.Links.{Ptr, null}
use sigma_malloc.Header.{Site}
use sigma_malloc.Zero.{Cpu}
use sigma_malloc.Vtable.{
  World, overflows, alloc_aligned, alloc_aligned_debug, realloc_aligned, realloc_aligned_debug,
  calloc_aligned, calloc_aligned_debug, free_aligned,
}
use sigma_malloc.DebugFree.{FreedRing}
use sigma_malloc.Entry.{
  SigmaAllocator, Parts, Sigma, Result, sigma_alloc, sigma_alloc_debug, sigma_free,
}
use sigma_malloc.Entry.Handle.{
  sigma_calloc, vtable_calloc_debug, sigma_realloc, vtable_realloc_debug, or_ended, running,
  free_only, sigma_allocator,
}

module _ {T : Type 0} (x : Parts (World T)) (debug : Bool) (self : Ptr) (a : SigmaAllocator)
    (cpu : Cpu) where
  -- What a call comes to in a process that has not ended.
  abbrev pub outcome : Sigma (World T) → Result (World T) → Ptr × World (Option (T × FreedRing))
  outcome s none =
      (null, record { bytes = s.parts.bytes; zero_impl = s.parts.zero_impl; own = none })
  outcome s (some (p, s1)) = (p, running x debug self a s1)

  or_ended-outcome :
      (f : Sigma (World T) → Result (World T)) (s : Sigma (World T))
      → or_ended x debug self a f (running x debug self a s) ≡ outcome s (f s)
  unfolding or_ended
  or_ended-outcome f s = go (f s)
    where
      go :
          (r : Result (World T))
          → (elim r as (λ t. Ptr × World (Option (T × FreedRing))) [
            | none ↦ (null, record (running x debug self a s) { own = none })
            | some (p, s1) ↦ (p, running x debug self a s1)
          ])
            ≡ outcome s r
      go none = refl
      go (some (p, s1)) = refl

  -- The allocating helpers of a handle for the allocator are the allocator's own functions.
  pub alloc_aligned-sigma_allocator :
      (size alignment : ℕ) (site : Site) (w : Sigma (World T))
      → (alloc_aligned
            (sigma_allocator x debug self a cpu)
            size
            alignment
            (running x debug self a w)
          ≡ outcome w (sigma_alloc x debug self a size alignment w))
        × (alloc_aligned_debug
              (sigma_allocator x debug self a cpu)
              size
              alignment
              site
              (running x debug self a w)
            ≡ outcome w (sigma_alloc_debug x debug self a size alignment site w))
  unfolding sigma_allocator alloc_aligned alloc_aligned_debug
  alloc_aligned-sigma_allocator size alignment site w = (or_ended-outcome _ w, or_ended-outcome _ w)

  too_many :
      (count size alignment : ℕ) (site : Site) (w : Sigma (World T))
      → overflows count size ≡ true
      → (sigma_calloc x debug self a cpu count size alignment w ≡ some (null, w))
        × (vtable_calloc_debug x debug self a cpu count size alignment site w ≡ some (null, w))
  unfolding sigma_calloc vtable_calloc_debug
  too_many count size alignment site w t = rw t (refl, refl)

  -- So are those for arrays, whose product is tested twice.
  pub calloc_aligned-sigma_allocator :
      (count size alignment : ℕ) (site : Site) (w : Sigma (World T))
      → (calloc_aligned cpu
            (sigma_allocator x debug self a cpu)
            count
            size
            alignment
            (running x debug self a w)
          ≡ outcome w (sigma_calloc x debug self a cpu count size alignment w))
        × (calloc_aligned_debug cpu
              (sigma_allocator x debug self a cpu)
              count
              size
              alignment
              site
              (running x debug self a w)
            ≡ outcome w (vtable_calloc_debug x debug self a cpu count size alignment site w))
  unfolding sigma_allocator calloc_aligned
  calloc_aligned-sigma_allocator count size alignment site w =
      elim (Bool-cases (overflows count size)) [
        | inl t ↦
            rw
              (
                t,
                (too_many count size alignment site w t).0,
                (too_many count size alignment site w t).1,
              )
              (refl, refl)
        | inr t ↦ rw t (or_ended-outcome _ w, or_ended-outcome _ w)
      ]

  free_null :
      (w : Sigma (World T))
      → outcome w (free_only x debug self a null w) ≡ (null, running x debug self a w)
  unfolding sigma_free
  free_null w = refl

  -- And those that resize a block or free it.
  pub realloc_aligned-sigma_allocator :
      (p old_size new_size alignment : ℕ) (site : Site) (w : Sigma (World T))
      → (realloc_aligned
            (sigma_allocator x debug self a cpu)
            p
            old_size
            new_size
            alignment
            (running x debug self a w)
          ≡ some (outcome w (sigma_realloc x debug self a p old_size new_size alignment w)))
        × (realloc_aligned_debug
              (sigma_allocator x debug self a cpu)
              p
              old_size
              new_size
              alignment
              site
              (running x debug self a w)
            ≡ some (
                outcome w
                  (vtable_realloc_debug x debug self a p old_size new_size alignment site w)))
        × (free_aligned
              (sigma_allocator x debug self a cpu)
              p
              old_size
              alignment
              (running x debug self a w)
            ≡ (outcome w (free_only x debug self a p w)).1)
  unfolding sigma_allocator realloc_aligned
  realloc_aligned-sigma_allocator p old_size new_size alignment site w = (
    ap some (or_ended-outcome _ w),
    ap some (or_ended-outcome _ w),
    elim (eq_cases p null) [
      | inl z ↦ rw z (ap (λ (r : Ptr × World (Option (T × FreedRing))). r.1) (sym (free_null w)))
      | inr n ↦ rw (==_ne p null n) (
          ap (λ (r : Ptr × World (Option (T × FreedRing))). r.1)
            (or_ended-outcome (free_only x debug self a p) w))
    ],
  )
