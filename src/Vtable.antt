-- ===== src/Vtable.antt =====
-- include/allocator_vtable.h: the allocator handle and its helpers. A handle is a table of functions or
-- none (NULL); each function is none where the table holds NULL. `ctx` is what the functions of the
-- model are closed over, and `A` is the state that they keep.
pub mod Laws
mod Tests
use sigma_malloc.Base.{
  ℕ, zero, suc, ◌+◌, ◌-◌, ◌*◌, ◌/◌, ◌%◌, ◌^◌, ◌≤◌, ◌<◌, min, ◌≡◌, refl, sym, ap, ◌∙◌, ◌≢◌, ◌↔◌, ◌⊎◌,
  inl, inr, Bool, true, false, not, ◌&&◌, ◌||◌, Option, none, some, List, [], ◌∷◌, ◌++◌, arith, ltb,
  leb, ◌==◌, if◌then◌else◌, ltb→lt, lt→ltb, leb→le, le→ltb, ==_iff, ==_refl, ==_ne, Bool-cases,
  order_cases, eq_cases, length, length-append, All, has, erase, Nodup, has-erase, has-erase-false,
  Nodup-erase,
}
use sigma_malloc.Base.Word.{size_max, mul_size}
use sigma_malloc.Links.{Ptr, null}
use sigma_malloc.Header.{Site}
use sigma_malloc.Zero.{Bytes, ZeroFn, Cpu, fill_zero}
use sigma_malloc.Copy.{memcpy}

-- The memory, the routine that `fill_zero` has selected, and the state of the allocator.
pub record World (A : Type 0) : Type 0 where
  pub bytes : Bytes
  pub zero_impl : Option ZeroFn
  pub own : A

-- struct allocator_vtable
pub record Vtable (A : Type 0) : Type 0 where
  pub alloc : Option ((size alignment : ℕ) → World A → Ptr × World A)
  pub alloc_debug : Option ((size alignment : ℕ) → Site → World A → Ptr × World A)
  pub calloc : Option ((count size alignment : ℕ) → World A → Ptr × World A)
  pub calloc_debug : Option ((count size alignment : ℕ) → Site → World A → Ptr × World A)
  pub realloc : Option (Ptr → (old_size new_size alignment : ℕ) → World A → Ptr × World A)
  pub realloc_debug :
      Option (Ptr → (old_size new_size alignment : ℕ) → Site → World A → Ptr × World A)
  pub free : Option (Ptr → (size alignment : ℕ) → World A → World A)

-- struct allocator, by its `vtable`
abbrev pub Allocator : Type 0 → Type 0
Allocator A = Option (Vtable A)

-- _Alignof(max_align_t)
abbrev pub max_align : ℕ
max_align = 16

-- `fill_zero(ptr, total)` and `sigma_memcpy(to, from, size)` on the memory of a world
unfoldable pub zero_bytes : {A : Type 0} → Cpu → Ptr → ℕ → World A → World A
zero_bytes cpu p n w =
    let (f, m) = fill_zero cpu w.zero_impl p n w.bytes in record w { bytes = m; zero_impl = some f }

unfoldable pub copy_bytes : {A : Type 0} → Ptr → Ptr → ℕ → World A → World A
copy_bytes to from n w = record w { bytes = memcpy to from n w.bytes }

-- A call, or none where the source calls through a NULL function pointer.
abbrev pub Call : Type 0 → Type 0
Call A = Option (Ptr × World A)

-- `size != 0 && count > SIZE_MAX / size`
unfoldable pub overflows : (count size : ℕ) → Bool
overflows count size = not (size == 0) && ltb (size_max / size) count

module _ {A : Type 0} where
  -- allocator_alloc_aligned
  unfoldable pub alloc_aligned : Allocator A → (size alignment : ℕ) → World A → Ptr × World A
  alloc_aligned none size alignment w = (null, w)
  alloc_aligned (some t) size alignment w = elim (t.alloc) [
    | none ↦ (null, w)
    | some f ↦ f size alignment w
  ]

  -- allocator_alloc_aligned_debug
  unfoldable pub alloc_aligned_debug :
      Allocator A → (size alignment : ℕ) → Site → World A → Ptr × World A
  alloc_aligned_debug none size alignment s w = alloc_aligned none size alignment w
  alloc_aligned_debug (some t) size alignment s w = elim (t.alloc_debug) [
    | none ↦ alloc_aligned (some t) size alignment w
    | some f ↦ f size alignment s w
  ]

  -- The allocate-copy-free fallback of `allocator_realloc_aligned`.
  pub realloc_fallback : Vtable A → Ptr → (old_size new_size alignment : ℕ) → World A → Call A
  realloc_fallback t p old_size new_size alignment w =
      if p == null
      then some (alloc_aligned (some t) new_size alignment w)
      else if new_size == 0
      then (elim (t.free) [ none ↦ none | some g ↦ some (null, g p old_size alignment w) ])
      else let (q, w1) = alloc_aligned (some t) new_size alignment w in
        if q == null
        then some (null, w1)
        else let w2 = copy_bytes q p (if ltb old_size new_size then old_size else new_size) w1 in
          elim (t.free) [ none ↦ none | some g ↦ some (q, g p old_size alignment w2) ]

  -- allocator_realloc_aligned
  unfoldable pub realloc_aligned :
      Allocator A → Ptr → (old_size new_size alignment : ℕ) → World A → Call A
  realloc_aligned none p old_size new_size alignment w = some (null, w)
  realloc_aligned (some t) p old_size new_size alignment w = elim (t.realloc) [
    | none ↦ realloc_fallback t p old_size new_size alignment w
    | some f ↦ some (f p old_size new_size alignment w)
  ]

  -- allocator_realloc_aligned_debug
  abbrev pub realloc_aligned_debug :
      Allocator A → Ptr → (old_size new_size alignment : ℕ) → Site → World A → Call A
  realloc_aligned_debug none p old_size new_size alignment s w =
      realloc_aligned none p old_size new_size alignment w
  realloc_aligned_debug (some t) p old_size new_size alignment s w = elim (t.realloc_debug) [
    | none ↦ realloc_aligned (some t) p old_size new_size alignment w
    | some f ↦ some (f p old_size new_size alignment s w)
  ]

  -- allocator_free_aligned
  abbrev pub free_aligned : Allocator A → Ptr → (size alignment : ℕ) → World A → World A
  free_aligned none p size alignment w = w
  free_aligned (some t) p size alignment w =
      if p == null then w else elim (t.free) [ none ↦ w | some f ↦ f p size alignment w ]

  -- `if (ptr != NULL) fill_zero(ptr, total); return ptr;`
  unfoldable pub zero_result : Cpu → ℕ → Ptr × World A → Ptr × World A
  zero_result cpu total (p, w) = (p, if p == null then w else zero_bytes cpu p total w)

  -- allocator_calloc_aligned
  unfoldable pub calloc_aligned :
      Cpu → Allocator A → (count size alignment : ℕ) → World A → Ptr × World A
  calloc_aligned cpu none count size alignment w = (null, w)
  calloc_aligned cpu (some t) count size alignment w =
      if overflows count size then (null, w) else elim (t.calloc) [
        | none ↦
            zero_result cpu (mul_size count size)
              (alloc_aligned (some t) (mul_size count size) alignment w)
        | some f ↦ f count size alignment w
      ]

  -- allocator_calloc_aligned_debug
  abbrev pub calloc_aligned_debug :
      Cpu → Allocator A → (count size alignment : ℕ) → Site → World A → Ptr × World A
  calloc_aligned_debug cpu none count size alignment s w = (null, w)
  calloc_aligned_debug cpu (some t) count size alignment s w =
      if overflows count size then (null, w) else elim (t.calloc_debug) [
        | none ↦
            zero_result cpu (mul_size count size)
              (alloc_aligned_debug (some t) (mul_size count size) alignment s w)
        | some f ↦ f count size alignment s w
      ]

  -- allocator_malloc, allocator_calloc, allocator_realloc_sized and allocator_free_sized
  abbrev pub allocator_malloc : Allocator A → ℕ → World A → Ptr × World A
  allocator_malloc t size w = alloc_aligned t size max_align w

  abbrev pub allocator_calloc : Cpu → Allocator A → (count size : ℕ) → World A → Ptr × World A
  allocator_calloc cpu t count size w = calloc_aligned cpu t count size max_align w

  abbrev pub realloc_sized : Allocator A → Ptr → (old_size new_size : ℕ) → World A → Call A
  realloc_sized t p old_size new_size w = realloc_aligned t p old_size new_size max_align w

  abbrev pub free_sized : Allocator A → Ptr → ℕ → World A → World A
  free_sized t p size w = free_aligned t p size max_align w

  -- allocator_reallocarray_sized
  abbrev pub reallocarray_sized :
      Allocator A → Ptr → (old_count new_count element_size : ℕ) → World A → Call A
  reallocarray_sized t p old_count new_count element_size w =
      if overflows new_count element_size
      then some (null, w)
      else if overflows old_count element_size
      then some (null, w)
      else realloc_sized t p (mul_size old_count element_size) (mul_size new_count element_size) w
