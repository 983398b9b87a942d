-- ===== src/Arena/Tests.antt =====
-- An arena with one extent at 8388608, and a source that hands out memory from its state on.
use sigma_malloc.Base.{ℕ, ◌+◌, ◌≡◌, refl, ◌≢◌, inr, Bool, true, false, List, [], ◌∷◌, arith, has}
use sigma_malloc.Base.Word.{align_up}
use sigma_malloc.Header.{no_site}
use sigma_malloc.Links.{Ptr, null, update}
use sigma_malloc.Buddy.{free}
use sigma_malloc.Buddy.Create.{fresh_lists}
use sigma_malloc.Buddy.Request.{IsRequest}
use sigma_malloc.Buddy.Split.{IsValid}
use sigma_malloc.Arena.{
  Heap, Source, pool_at, buddy_at, new_arena, expand, alloc_buddy_region, create, get, get_existing,
  existing_from,
}
use sigma_malloc.Arena.Grow.{
  HasNew, no_memory, grown, expand-Expanded, RegionOutcome, alloc_buddy_region-Outcome,
}
use sigma_malloc.Arena.Registry.{get-get}

abbrev bump : Source ℕ
bump = record { alloc = λ size alignment e. (e, e + 8388608); free = λ p size e. e }

abbrev blank : Heap
blank = record {
  thread_arenas = 0;
  arenas = λ p. record {
    allocator = 1000;
    thread_next = 0;
    caches = λ i. record { obj_size = 16; partial = 0; full = 0 };
    extents = 0;
    active_extent = 0;
  };
  extents = λ p. record { next = 0; mapping = 0; mapping_size = 0 };
  pools = λ p. record {
    memory_start = 0;
    memory_end = 0;
    tree = λ i. free;
    free_lists = λ i. 0;
    usable_start = 0;
  };
  mem = record {
    links = record { next = λ p. 0; prev = λ p. 0 };
    headers = λ p. record { magic = 0; type = 0; requested_size = 0; alignment = 0 };
    buddy_headers = λ p. record {
      site = no_site;
      arena = 0;
      pool = 0;
      block = 0;
      is_slab_region = false;
      order = 0;
    };
  };
}

abbrev expanded : Bool × Heap × ℕ
expanded = expand bump 4096 blank 8388608

the_new : HasNew bump 4096 [] blank 8388608 expanded.1
unfolding align_up
the_new =
    elim (expand-Expanded bump 4096 [] blank 8388608 (λ e. omega arith) refl refl
      (inr (omega arith))) [ no_memory z r ↦ absurd (omega arith) | grown t n r ↦ n ]

IsRequest-5000 : IsRequest 1 5000 16
IsRequest-5000 = record {
  has_pool = λ e. omega arith;
  positive = omega arith;
  in_word = omega arith;
  power_of_two = (4, omega arith, refl);
}

one_extent :
    (p : Ptr)
    → has p (8388608 ∷ []) ≡ true
    → (lists : ℕ → List ℕ) × IsValid (buddy_at (pool_at p) expanded.1) lists
one_extent p h = let e : p ≡ 8388608 = ground (arith, h) in rw e (fresh_lists, the_new.pool.valid)

alloc_buddy_region-Outcome_example :
    RegionOutcome bump false 4096 5000 16
      (8388608 ∷ [])
      expanded.1
      16777216
      (alloc_buddy_region bump 2 false 4096 5000 16 expanded.1 16777216)
unfolding align_up
alloc_buddy_region-Outcome_example =
    alloc_buddy_region-Outcome bump false 4096 5000 16 (8388608 ∷ []) expanded.1 16777216
      (λ e. omega arith) IsRequest-5000 the_new.extents (rw (the_new.active) refl) one_extent refl
      (inr (omega arith)) 2 (omega arith)

-- The heap in which the arena of `arena_create` is expanded.
abbrev unfinished : Heap
unfinished = record blank { arenas = update blank.arenas 8388608 (new_arena 1000) }

expands : (expand bump 8388608 unfinished 16777216).0 ≡ true
unfolding align_up
expands =
    elim (expand-Expanded bump 8388608 [] unfinished 16777216 (λ e. omega arith) refl refl
      (inr (omega arith))) [ no_memory z r ↦ absurd (omega arith) | grown t n r ↦ t ]

made_one : (get bump 3 false 1000 true blank 8388608).0 ≢ null
unfolding get get_existing existing_from create
made_one = rw expands (λ e. omega arith)

get-get_example :
    (get_existing 3 1000 (get bump 3 false 1000 true blank 8388608).1
      ≡ (get bump 3 false 1000 true blank 8388608).0)
    × (get bump 3 false 1000 true (get bump 3 false 1000 true blank 8388608).1 7 ≡ (
      (get bump 3 false 1000 true blank 8388608).0,
      (get bump 3 false 1000 true blank 8388608).1,
      7,
    ))
get-get_example = get-get bump 3 false 1000 true blank 8388608 7 (omega arith) made_one
