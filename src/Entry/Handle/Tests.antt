-- ===== src/Entry/Handle/Tests.antt =====
-- A calloc and a realloc over parts that write headers to the memory.
use sigma_malloc.Base.{
  ℕ, ◌+◌, ◌-◌, ◌*◌, ◌≡◌, refl, true, false, Option, none, some, ◌==◌, if◌then◌else◌,
}
use sigma_malloc.Base.Word.{alignment_is_valid}
use sigma_malloc.Header.{no_site}
use sigma_malloc.Links.{Ptr}
use sigma_malloc.Zero.{Cpu}
use sigma_malloc.Copy.{memcpy}
use sigma_malloc.Vtable.{World, copy_bytes}
use sigma_malloc.DebugFree.{empty_ring}
use sigma_malloc.Entry.{
  SourceFlags, SigmaAllocator, Parts, sigma_allocator_init, Sigma, finish_alloc, small_path,
  refuses, sigma_alloc, sigma_alloc_debug, sigma_free, freed_before, dispatch, free_to, note_free,
  allocation_info,
}
use sigma_malloc.Entry.Handle.{
  sigma_calloc, sigma_realloc, vtable_realloc_debug, copy_size, set_debug_info, move_to,
}
use sigma_malloc.Entry.Handle.Moves.{Calloc, sigma_calloc-Calloc}

-- The byte in front of an object is its type, and the one before that its size; a free writes to the object.
abbrev write : Ptr → ℕ → World ℕ → World ℕ
write p v w = record w { bytes = λ b. if b == p then v else w.bytes b }

abbrev hand_out : (type size : ℕ) → World ℕ → Ptr × World ℕ
hand_out type size w = (
  w.own + 16,
  write (w.own + 15) type (write (w.own + 14) size (record w { own = w.own + 16 + size })),
)

abbrev in_memory : Parts (World ℕ)
in_memory = record {
  arena_get = λ s. (500, s);
  arena_get_existing = λ s. 500;
  arena_alloc = λ arena size alignment s. some (hand_out 1 size s);
  alloc_buddy_region = λ arena size alignment s. hand_out 2 size s;
  large_alloc = λ size alignment s. hand_out 3 size s;
  arena_free_local = λ arena p s. some (write p 0 s);
  arena_free_buddy_local = λ arena p s. some (write p 0 s);
  arena_remote_free = λ arena p s. write p 0 s;
  large_free = λ p s. some s;
  header = λ s p. record {
    magic = 0;
    type = s.bytes (p - 1);
    requested_size = s.bytes (p - 2);
    alignment = 0;
  };
  set_alignment = λ p alignment s. s;
  slab_arena = λ s p. 500;
  buddy_arena = λ s p. 500;
  allocator_of = λ s p. 1000;
  site = λ type s p. no_site;
  set_site = λ type p site s. s;
}

abbrev flags : SourceFlags
flags = record { returns_zeroed_memory = true }

abbrev plain : SigmaAllocator
plain = sigma_allocator_init true (some flags)

abbrev start : Sigma (World ℕ)
start = record {
  parts = record { bytes = λ b. 7; zero_impl = none; own = 4096 };
  ring = empty_ring;
}

abbrev old_cpu : Cpu
old_cpu = record { has_avx2 = false; dispatch = false }

sigma_calloc-Calloc_example :
    Calloc in_memory true 10 20 start
      (sigma_alloc in_memory false 1000 plain (10 * 20) 16 start)
      (sigma_calloc in_memory false 1000 plain old_cpu 10 20 16 start)
unfolding sigma_allocator_init
sigma_calloc-Calloc_example =
    sigma_calloc-Calloc in_memory false 1000 plain old_cpu flags 10 20 16 start refl

-- The block at 4112 holds 10 bytes of its owner, and the new one is behind it.
abbrev has_block : Sigma (World ℕ)
has_block = record {
  parts = record {
    bytes = λ b. if b == 4111 then 1 else if b == 4110 then 10 else 7;
    zero_impl = none;
    own = 4128;
  };
  ring = empty_ring;
}

abbrev after_alloc : Sigma (World ℕ)
after_alloc = record { parts = (hand_out 1 20 has_block.parts).1; ring = empty_ring }

-- The bytes of the block arrive, and the ones behind them do not.
bytes_at : (Option (Ptr × Sigma (World ℕ))) → Ptr → ℕ
bytes_at none b = 0
bytes_at (some (p, s)) b = s.parts.bytes b

moves_bytes :
    (bytes_at (sigma_realloc in_memory false 1000 plain 4112 30 20 16 has_block) 4144 ≡ 7)
    × (bytes_at (sigma_realloc in_memory false 1000 plain 4112 30 20 16 has_block) 4112 ≡ 0)
unfolding sigma_realloc move_to sigma_alloc refuses small_path alignment_is_valid
    sigma_allocator_init finish_alloc copy_bytes sigma_free freed_before dispatch free_to note_free
    allocation_info set_debug_info copy_size bytes_at memcpy
moves_bytes = (refl, refl)

-- A realloc of NULL with a site allocates with that site.
allocates_with_site :
    vtable_realloc_debug in_memory true 1000 plain 0 0 20 16 no_site start
    ≡ sigma_alloc_debug in_memory true 1000 plain 20 16 no_site start
unfolding vtable_realloc_debug
allocates_with_site = refl
