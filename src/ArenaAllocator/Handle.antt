-- ===== src/ArenaAllocator/Handle.antt =====
-- src/arena_allocator.c: the arena as a handle, so that it can be the parent of another arena.
use sigma_malloc.Base.{ℕ, ◌≡◌, refl, inl, inr, none, some, ◌==◌, Bool-cases}
use sigma_malloc.Base.Word.{mul_size}
use sigma_malloc.Links.{Ptr, null}
use sigma_malloc.Header.{no_site}
use sigma_malloc.Zero.{Cpu}
use sigma_malloc.Vtable.{
  World, Allocator, overflows, zero_bytes, zero_result, alloc_aligned, calloc_aligned, free_aligned,
}
use sigma_malloc.ArenaAllocator.{
  Arena, Result, arena_alloc, arena_alloc_debug, arena_calloc_debug, arena_realloc,
  arena_realloc_debug, arena_free,
}

-- The state of the arena next to that of its parent.
abbrev pub Nested : Type 0 → Type 0
Nested A = World (Arena A × A)

module _ {A : Type 0} where
  abbrev parent_world : Nested A → World A
  parent_world w = record { bytes = w.bytes; zero_impl = w.zero_impl; own = w.own.1 }

  abbrev nested : Arena A → World A → Nested A
  nested ar v = record { bytes = v.bytes; zero_impl = v.zero_impl; own = (ar, v.own) }

  -- A function of the arena on the state of both
  abbrev pub on_arena : (Arena A → World A → Result A) → Nested A → Ptr × Nested A
  on_arena f w = let (p, ar, v) = f w.own.0 (parent_world w) in (p, nested ar v)

  -- `g_arena_vtable` and `allocator_arena`; `self` is the arena's address.
  pub allocator_arena : Cpu → (self : Ptr) → Allocator (Arena A × A)
  allocator_arena cpu self = some (record {
    alloc = some (λ size alignment. on_arena (arena_alloc self size alignment));
    alloc_debug =
        some (λ size alignment site. on_arena (arena_alloc_debug self size alignment site));
    calloc = none;
    calloc_debug = some (λ count size alignment site.
        on_arena (arena_calloc_debug cpu self count size alignment site));
    realloc = some (λ p old_size new_size alignment.
        on_arena (arena_realloc self p old_size new_size alignment));
    realloc_debug = some (λ p old_size new_size alignment site.
        on_arena (arena_realloc_debug self p old_size new_size alignment site));
    free = some (λ p size alignment w.
        (let (ar, v) = arena_free p size alignment w.own.0 (parent_world w) in nested ar v));
  })

  -- Clearing a result does not touch the arena.
  zero_both :
      (cpu : Cpu) (n p : ℕ) (ar : Arena A) (v : World A)
      → zero_result cpu n (p, nested ar v)
        ≡ ((zero_result cpu n (p, v)).0, nested ar (zero_result cpu n (p, v)).1)
  unfolding zero_result zero_bytes
  zero_both cpu n p ar v = elim (Bool-cases (p == null)) [ inl t ↦ rw t refl | inr t ↦ rw t refl ]

  -- The table has no calloc, and the helper's own one does what `arena_calloc_debug` does without a site; a free
  -- through the handle changes nothing.
  pub calloc_aligned-allocator_arena :
      (cpu : Cpu) (self p count size alignment : ℕ) (w : Nested A)
      → (calloc_aligned cpu (allocator_arena cpu self) count size alignment w
          ≡ on_arena (arena_calloc_debug cpu self count size alignment no_site) w)
        × (free_aligned (allocator_arena cpu self) p size alignment w ≡ w)
  unfolding allocator_arena calloc_aligned alloc_aligned
  calloc_aligned-allocator_arena cpu self p count size alignment w = (
    elim (Bool-cases (overflows count size)) [
      | inl t ↦ rw t refl
      | inr t ↦
          let r = arena_alloc self (mul_size count size) alignment w.own.0 (parent_world w) in
          rw t (zero_both cpu (mul_size count size) r.0 r.1 r.2)
    ],
    elim (Bool-cases (p == null)) [ inl t ↦ rw t refl | inr t ↦ rw t refl ],
  )
