-- ===== src/Vtable/Tests.antt =====
-- An allocator that hands out memory from a counter and never runs out, with no `calloc` or `realloc` of
-- its own.
use sigma_malloc.Base.{ℕ, ◌+◌, ◌*◌, refl, inr, false, none, some, arith}
use sigma_malloc.Zero.{Cpu}
use sigma_malloc.Vtable.{World, Vtable, alloc_aligned, calloc_aligned, realloc_aligned}
use sigma_malloc.Vtable.Laws.{Cleared, calloc_aligned-Cleared, Moved, realloc_aligned-Moved}

abbrev counting : Vtable ℕ
counting = record {
  alloc = some (λ size alignment w. (w.own, record w { own = w.own + size }));
  alloc_debug = none;
  calloc = none;
  calloc_debug = none;
  realloc = none;
  realloc_debug = none;
  free = some (λ p size alignment w. w);
}

abbrev start : World ℕ
start = record { bytes = λ a. 7; zero_impl = none; own = 4096 }

abbrev old_cpu : Cpu
old_cpu = record { dispatch = false; has_avx2 = false }

calloc_aligned-Cleared_example :
    Cleared 10 24 start
      (alloc_aligned (some counting) (10 * 24) 16 start)
      (calloc_aligned old_cpu (some counting) 10 24 16 start)
calloc_aligned-Cleared_example = calloc_aligned-Cleared old_cpu counting 10 24 16 start refl

realloc_aligned-Moved_example :
    Moved counting 512 100 200 16 start (realloc_aligned (some counting) 512 100 200 16 start)
unfolding alloc_aligned
realloc_aligned-Moved_example =
    realloc_aligned-Moved counting (λ p size alignment w. w) 512 100 200 16 start refl refl
      (omega arith) (inr (omega arith))
