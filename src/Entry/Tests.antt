-- ===== src/Entry/Tests.antt =====
-- Parts that hand out a new pointer for each call, whose remainder by 4 is the type of the allocation.
use sigma_malloc.Base.{ℕ, ◌+◌, ◌*◌, ◌%◌, true, some}
use sigma_malloc.Header.{no_site}
use sigma_malloc.Links.{Ptr}
use sigma_malloc.DebugFree.{empty_ring, record_free}
use sigma_malloc.Entry.{SigmaAllocator, sigma_allocator_init, Parts, Sigma, finish_alloc}

-- The number of calls, and the arena of the last one.
abbrev pub Calls : Type 0
Calls = ℕ × ℕ

abbrev pub counter : Parts Calls
counter = record {
  arena_get = λ s. (500, s);
  arena_get_existing = λ s. 500;
  arena_alloc = λ arena size alignment s. some (4 * (s.0 + 1) + 1, (s.0 + 1, arena));
  alloc_buddy_region = λ arena size alignment s. (4 * (s.0 + 1) + 2, (s.0 + 1, arena));
  large_alloc = λ size alignment s. (4 * (s.0 + 1) + 3, (s.0 + 1, s.1));
  arena_free_local = λ arena p s. some s;
  arena_free_buddy_local = λ arena p s. some s;
  arena_remote_free = λ arena p s. s;
  large_free = λ p s. some s;
  header = λ s p. record { magic = 0; type = p % 4; requested_size = 10; alignment = 0 };
  set_alignment = λ p alignment s. s;
  slab_arena = λ s p. s.1;
  buddy_arena = λ s p. s.1;
  allocator_of = λ s p. 1000;
  site = λ type s p. no_site;
  set_site = λ type p site s. s;
}

abbrev pub plain : SigmaAllocator
plain = sigma_allocator_init true (some (record { returns_zeroed_memory = true }))

abbrev pub initial : Sigma Calls
initial = record { parts = (9, 0); ring = empty_ring }

-- The pointer that the next call gives has been freed before.
abbrev freed_once : Sigma Calls
freed_once = record { parts = (9, 0); ring = record_free 42 no_site empty_ring }

abbrev five_thousand : Ptr × Sigma Calls
five_thousand = finish_alloc counter true 1000 plain 42 (record freed_once { parts = (10, 500) })
