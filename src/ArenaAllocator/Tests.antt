-- ===== src/ArenaAllocator/Tests.antt =====
-- An arena over a parent that hands out memory from 4096 on, up to 2^32.
use sigma_malloc.Base.{
  ℕ, ◌+◌, ◌^◌, ◌≤◌, ◌≡◌, refl, inl, inr, none, some, [], ◌∷◌, arith, ltb, ◌==◌, if◌then◌else◌,
  Bool-cases,
}
use sigma_malloc.Links.{null}
use sigma_malloc.Header.{no_site}
use sigma_malloc.Vtable.{World, Vtable, alloc_aligned, alloc_aligned_debug}
use sigma_malloc.ArenaAllocator.{Arena, alloc_internal, reset}
use sigma_malloc.ArenaAllocator.Laws.{Allocates, IsArena, Outcome, alloc_internal-Outcome}
use sigma_malloc.ArenaAllocator.Reset.{free_all, reset-free_all}

abbrev bounded : Vtable ℕ
bounded = record {
  alloc = some (λ size alignment w.
      if ltb (2 ^ 32) (w.own + size) then (null, w) else (w.own, record w { own = w.own + size }));
  alloc_debug = none;
  calloc = none;
  calloc_debug = none;
  realloc = none;
  realloc_debug = none;
  free = some (λ p size alignment w. w);
}

bounded-Allocates : Allocates (some bounded)
unfolding alloc_aligned alloc_aligned_debug
bounded-Allocates size s w = elim (Bool-cases (ltb (2 ^ 32) (w.own + size))) [
  | inl t ↦ inl (rw t refl)
  | inr f ↦ inr (rw f (let l : w.own + size ≤ 2 ^ 32 = ground arith in omega arith))
]

abbrev start : World ℕ
start = record { bytes = λ a. 7; zero_impl = none; own = 4096 }

abbrev two_blocks : Arena ℕ
two_blocks = record {
  parent = some bounded;
  blocks = 2048;
  block_size = 256;
  store = λ p.
      if p == 2048
      then record { next = 1024; allocation_size = 288; used = 40; capacity = 256 }
      else record { next = 0; allocation_size = 544; used = 500; capacity = 512 };
}

two_blocks-IsArena : IsArena two_blocks
two_blocks-IsArena =
    inr (record { not_null = omega arith; bounded = omega arith; in_word = omega arith })

alloc_internal-Outcome_example :
    Outcome 100 64 no_site two_blocks start (alloc_internal 512 100 64 no_site two_blocks start)
alloc_internal-Outcome_example =
    alloc_internal-Outcome 512 100 64 no_site two_blocks start (omega arith) (omega arith)
      (omega arith) (6, omega arith, refl) bounded-Allocates two_blocks-IsArena

reset-free_all_example : reset 3 two_blocks start ≡ (
  record two_blocks { blocks = null },
  free_all (some bounded) two_blocks.store (2048 ∷ 1024 ∷ []) start,
)
reset-free_all_example =
    reset-free_all 3 two_blocks (2048 ∷ 1024 ∷ []) start
      (refl, omega arith, (refl, omega arith, refl)) (omega arith)
