-- ===== src/ArenaAllocator/Reset.antt =====
-- `allocator_arena_reset`: the loop ends, and gives every block back once.
use sigma_malloc.Base.{ℕ, zero, suc, ◌<◌, ◌≡◌, refl, ◌≢◌, List, [], ◌∷◌, arith, ==_ne, length}
use sigma_malloc.Links.{Ptr, null}
use sigma_malloc.Vtable.{World, Allocator, max_align, free_aligned}
use sigma_malloc.ArenaAllocator.{Block, Arena, reset_loop, reset}

-- From `p` the `next` fields lead through the blocks of the list to NULL.
abbrev pub IsChain : (Ptr → Block) → Ptr → List Ptr → Type 0
IsChain store p [] = p ≡ null
IsChain store p (q ∷ qs) = (p ≡ q) × (p ≢ null) × IsChain store (store p).next qs

-- The blocks of a list go back to the parent, each with the size that its header records.
abbrev pub free_all : {A : Type 0} → Allocator A → (Ptr → Block) → List Ptr → World A → World A
free_all parent store [] w = w
free_all parent store (q ∷ qs) w =
    free_all parent store qs (free_aligned parent q (store q).allocation_size max_align w)

reset_loop-free_all :
    {A : Type 0} (fuel : ℕ) (parent : Allocator A) (store : Ptr → Block) (p : Ptr) (qs : List Ptr)
    (w : World A)
    → IsChain store p qs
    → length qs < fuel
    → reset_loop fuel parent store p w ≡ free_all parent store qs w
unfolding reset_loop
reset_loop-free_all zero parent store p qs w h l = absurd (omega arith)
reset_loop-free_all (suc f) parent store p [] w h l = rw h refl
reset_loop-free_all (suc f) parent store p (q ∷ qs) w (e, n, h) l = rw (==_ne p null n) (
    rw e (
      reset_loop-free_all f parent store (store q).next qs
        (free_aligned parent q (store q).allocation_size max_align w) (rw⁻¹ e h) (omega arith)))

-- If the arena's blocks form a list, the loop of the reset ends, whatever the parent's `free` does: it gives
-- every block of the list back, once and in the order of the list, and leaves an arena with no block.
pub reset-free_all :
    {A : Type 0} (fuel : ℕ) (ar : Arena A) (qs : List Ptr) (w : World A)
    → IsChain ar.store ar.blocks qs
    → length qs < fuel
    → reset fuel ar w ≡ (record ar { blocks = null }, free_all ar.parent ar.store qs w)
unfolding reset
reset-free_all fuel ar qs w h l =
    rw (reset_loop-free_all fuel ar.parent ar.store ar.blocks qs w h l) refl
