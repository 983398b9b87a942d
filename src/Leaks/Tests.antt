-- ===== src/Leaks/Tests.antt =====
-- A pool of the debug build in which the left half is handed out, two large allocations, and their report.
use sigma_malloc.Base.{
  ℕ, zero, suc, ◌+◌, ◌-◌, ◌^◌, ◌≤◌, ◌<◌, ◌≡◌, refl, sym, ◌≢◌, inl, inr, true, false, none, [], ◌∷◌,
  arith, ltb, ◌==◌, if◌then◌else◌, ==_ne, Bool-cases, eq_cases,
}
use sigma_malloc.Header.{Site, no_site, buddy_magic}
use sigma_malloc.Buddy.{Buddy, free, split, full}
use sigma_malloc.Buddy.Layout.{top}
use sigma_malloc.Buddy.Split.{is_full, full_leaf}
use sigma_malloc.Large.{Larges}
use sigma_malloc.Leaks.{
  LeakInfo, Leaks, max_leaks, leak_push, reset_leaks, leak_info, collect_buddy_leaks,
  is_ptr_in_freelist,
}
use sigma_malloc.Slab.{num_caches}
use sigma_malloc.Arena.{Heap}
use sigma_malloc.Leaks.Slabs.{View, cache_leaks, collect_leaks}
use sigma_malloc.Leaks.Whole.{pools_infos, large_leak, Lists, collect_leaks-push_all}
use sigma_malloc.Leaks.InUse.{in_use}
use native.Mathlib.Nat.{pow-zero, pow-suc}
use sigma_malloc.Buddy.Tree.{node, live}
use sigma_malloc.Leaks.Store.{push_all, get_elem?, leak_info-reset}
use sigma_malloc.Leaks.Visits.{visits, occurrences}
use sigma_malloc.Leaks.Nodes.{map_list, HandedOut, infos_at, collect_buddy_leaks_complete}

abbrev here : Site
here = record { file = 7; func = 8; line = 9 }

abbrev empty : Leaks
empty = record { infos = λ i. record { site = no_site; size = 0 }; count = 0 }

-- The pointer of the left half stands 80 bytes behind its first word.
abbrev half_used : Buddy
half_used = record {
  pool = record {
    memory_start = 4096;
    memory_end = 2101248;
    tree = λ i. if i == 0 then split else if i == 1 then full else free;
    free_lists = λ i. 0;
    usable_start = 4096;
  };
  mem = record {
    links = record { next = λ p. 4112; prev = λ p. 0 };
    headers =
        λ p. record { magic = buddy_magic; type = 2; requested_size = 600000; alignment = 16 };
    buddy_headers = λ p. record {
      site = here;
      arena = 0;
      pool = 0;
      block = 4096;
      is_slab_region = false;
      order = 9;
    };
  };
}

only_left : (d k : ℕ) → live half_used.pool.tree d k ≡ true → 2 ^ d - 1 + k ≡ 1 → (d ≡ 1) × (k ≡ 0)
unfolding live
only_left zero k l e = absurd (ground (arith, l, e, pow-zero 2))
only_left (suc zero) k l e = (refl, omega (arith, e, pow-zero 2, pow-suc 2 0))
only_left (suc (suc d)) k l e = absurd (omega (arith, e, pow-pos d, pow-suc 2 d, pow-suc 2 (suc d)))
  where
    pow-pos : (n : ℕ) → 0 < 2 ^ n
    pow-pos zero = omega (arith, pow-zero 2)
    pow-pos (suc n) = omega (arith, pow-pos n, pow-suc 2 n)

left_only : (o k : ℕ) → o ≤ top → full_leaf half_used.pool.tree o k ≡ true → (o ≡ 9) × (k ≡ 0)
unfolding node
left_only o k h f =
    let l : live half_used.pool.tree (top - o) k ≡ true = ground (arith, f) in
    let g : is_full (half_used.pool.tree (2 ^ (top - o) - 1 + k)) ≡ true = ground (arith, f) in
    let (d, z) = only_left (top - o) k l (full_at (2 ^ (top - o) - 1 + k) g) in
    (omega (arith, d, h), z)
  where
    full_at : (i : ℕ) → is_full (half_used.pool.tree i) ≡ true → i ≡ 1
    full_at i g = elim (eq_cases i 1) [
      | inl e ↦ e
      | inr n ↦ absurd (ground (arith, not_full i n, g))
    ]
      where
        not_full : (i : ℕ) → i ≢ 1 → is_full (half_used.pool.tree i) ≡ false
        not_full i n = elim (Bool-cases (i == 0)) [
          | inl z ↦ rw z refl
          | inr z ↦ rw (z, ==_ne i 1 n) refl
        ]

half_used-HandedOut : HandedOut half_used (λ o k. 4192)
half_used-HandedOut = record {
  handle = λ o k h f.
      (let (e, z) = left_only o k h f in
        record {
          in_range = h;
          handed_out = f;
          not_null = λ n. absurd (omega arith);
          magic = refl;
          type = refl;
          stored_block = rw z (omega arith);
          stored_order = sym e;
          header_behind = rw z (omega arith);
          inside = rw (e, z) (omega arith);
        });
  to_header = λ o k h f. refl;
  in_space = omega arith;
  in_word = λ o k h f. omega arith;
}

collect_buddy_leaks_complete_example :
    (collect_buddy_leaks half_used empty
      ≡ push_all (infos_at half_used (λ o k. 4192) (visits half_used.pool.tree top 0)) empty)
    × (occurrences 9 0 (visits half_used.pool.tree top 0)
        ≡ (if full_leaf half_used.pool.tree 9 0 then 1 else 0))
collect_buddy_leaks_complete_example =
    collect_buddy_leaks_complete half_used (λ o k. 4192) half_used-HandedOut empty 9 0 (omega arith)

abbrev two_large : Larges
two_large = record {
  head = 5000;
  links = record {
    next = λ p. if p == 5000 then 6000 else 0;
    prev = λ p. if p == 6000 then 5000 else 0;
  };
  nodes = λ p. record { backing = 4096; backing_size = 8192; allocator = 1; user = p + 10000 };
  metas = λ p. record { node = p; site = here };
  meta_of = λ p. p;
  headers = λ p. record { magic = 0; type = 3; requested_size = 3000; alignment = 16 };
}

-- A free list of two objects.
finds_object : is_ptr_in_freelist 3 two_large.links.next 5000 6000 ≡ true
unfolding is_ptr_in_freelist
finds_object = refl

abbrev one_leak : LeakInfo
one_leak = record { site = here; size = 100 }

leak_info-reset_example :
    leak_info 0 (push_all (one_leak ∷ []) (reset_leaks (leak_push one_leak empty)))
    ≡ (if ltb 0 max_leaks then get_elem? (one_leak ∷ []) 0 else none)
leak_info-reset_example = leak_info-reset (one_leak ∷ []) (leak_push one_leak empty) 0

-- One slab in the first list of each cache with one of its two objects free, one extent, and the two large
-- allocations.
abbrev view : View
view = record {
  slabs = record {
    caches = λ i. record { obj_size = 16; partial = 20480; full = 0 };
    slabs = λ p. record {
      arena = 4096;
      extent = 8192;
      owner = 0;
      used = 1;
      capacity = 2;
      free_list = 30000;
    };
    links = record { next = λ p. 0; prev = λ p. 0 };
    nodes = λ p. 0;
    slab_of = λ p. 20480;
    headers = λ p. record { magic = 0; type = 1; requested_size = 16; alignment = 16 };
  };
  sites = λ p. here;
  larges = two_large;
  offset = 64;
  slot_size = λ n. n + 64;
  fuel = 3;
}

abbrev heap : Heap
heap = record {
  thread_arenas = 4096;
  arenas = λ p. record {
    allocator = 1;
    thread_next = 0;
    caches = λ i. record { obj_size = 16; partial = 20480; full = 0 };
    extents = 8192;
    active_extent = 8192;
  };
  extents = λ p. record { next = 0; mapping = 8192; mapping_size = 4210688 };
  pools = λ p. half_used.pool;
  mem = half_used.mem;
}

heap-Lists :
    Lists 4096 view heap
      (λ i. 20480 ∷ [])
      (λ i. [])
      (λ k. 30000 ∷ [])
      (8192 ∷ [])
      (5000 ∷ 6000 ∷ [])
      (λ x o k. 4192)
heap-Lists = record {
  partials = λ i. (refl, (λ e. omega arith), refl, refl);
  fulls = λ i. refl;
  partial_fuel = λ i. omega arith;
  full_fuel = λ i. omega arith;
  partial_frees = λ i k h. ((refl, (λ e. omega arith), refl), omega arith);
  full_frees = λ i k h. absurd (ground arith);
  extents = (refl, (λ e. omega arith), refl);
  extent_fuel = omega arith;
  pools = λ x h. half_used-HandedOut;
  larges = (refl, (λ e. omega arith), refl, (refl, (λ e. omega arith), refl, refl));
  large_fuel = omega arith;
}

collect_leaks-push_all_example :
    collect_leaks true 4096 view heap empty
    ≡ push_all (map_list (large_leak two_large) (5000 ∷ 6000 ∷ [])) (
        push_all (pools_infos heap (λ x o k. 4192) (8192 ∷ [])) (
          push_all
            (cache_leaks
              (in_use two_large (λ k. 30000 ∷ []) (5000 ∷ 6000 ∷ []))
              num_caches
              0
              view
              (λ i. 20480 ∷ [])
              (λ i. []))
            (reset_leaks empty)))
collect_leaks-push_all_example =
    collect_leaks-push_all 4096 view heap empty (λ i. 20480 ∷ []) (λ i. []) (λ k. 30000 ∷ [])
      (8192 ∷ []) (5000 ∷ 6000 ∷ []) (λ x o k. 4192) (λ e. omega arith) heap-Lists
