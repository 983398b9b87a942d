-- ===== src/Leaks/Whole.antt =====
-- The whole leak report: slabs, then pools, then large allocations.
use sigma_malloc.Base.{
  ℕ, zero, suc, ◌<◌, ◌≡◌, refl, sym, ◌≢◌, true, List, [], ◌∷◌, ◌++◌, arith, ==_refl, ==_ne, length,
  has,
}
use sigma_malloc.Links.{Ptr, null}
use sigma_malloc.Links.Chain.{Chain}
use sigma_malloc.Slab.{num_caches}
use sigma_malloc.Buddy.Layout.{top}
use sigma_malloc.Arena.{Heap, pool_at, buddy_at}
use sigma_malloc.Arena.Search.{ExtentList}
use sigma_malloc.Leaks.{LeakInfo, Leaks, reset_leaks}
use sigma_malloc.Large.{Larges}
use sigma_malloc.Header.{alloc_header_from_user}
use sigma_malloc.Remote.Nodes.{NodeList}
use sigma_malloc.Leaks.InUse.{in_use, meta_at, is_leak-in_use}
use sigma_malloc.Leaks.Store.{push_all, push_all-append}
use sigma_malloc.Leaks.Visits.{visits}
use sigma_malloc.Leaks.Nodes.{
  map_list, HandedOut, infos_at, report_visits-push_all, report_all, collect_buddy_leaks-visits,
  collect_large_leaks-push_all,
}
use sigma_malloc.Leaks.Slabs.{
  View, collect_arena_buddy_leaks, collect_leaks, cache_leaks, collect_slab_leaks-push_all,
}

-- The reports of the pools of a list of extents
abbrev pub report_pools : Heap → List Ptr → Leaks → Leaks
report_pools h [] r = r
report_pools h (x ∷ xs) r =
    let b = buddy_at (pool_at x) h in report_pools h xs (report_all b (visits b.pool.tree top 0) r)

collect_arena_buddy_leaks-report_pools :
    (f : ℕ) (p : Ptr) (es : List Ptr) (h : Heap) (r : Leaks)
    → ExtentList h p es
    → length es < f
    → collect_arena_buddy_leaks f p h r ≡ report_pools h es r
unfolding collect_arena_buddy_leaks
collect_arena_buddy_leaks-report_pools zero p es h r c l = absurd (omega arith)
collect_arena_buddy_leaks-report_pools (suc f) p [] h r c l = rw c refl
collect_arena_buddy_leaks-report_pools (suc f) p (x ∷ xs) h r (e, n, rest) l =
    let one = collect_buddy_leaks-visits (buddy_at (pool_at p) h) r in
    let b = buddy_at (pool_at p) h in
    rw (==_ne p null n, sym e, one)
      (collect_arena_buddy_leaks-report_pools f (h.extents p).next xs h
        (report_all b (visits b.pool.tree top 0) r) rest (omega arith))

-- What the pointers of the pools of some extents say.
abbrev pub pools_infos : Heap → (user : (extent order place : ℕ) → Ptr) → List Ptr → List LeakInfo
pools_infos h user [] = []
pools_infos h user (x ∷ xs) =
    let b = buddy_at (pool_at x) h in
    infos_at b (user x) (visits b.pool.tree top 0) ++ pools_infos h user xs

report_pools-push_all :
    (h : Heap) (user : (extent order place : ℕ) → Ptr) (es : List Ptr) (r : Leaks)
    → ((x : Ptr) → has x es ≡ true → HandedOut (buddy_at (pool_at x) h) (user x))
    → report_pools h es r ≡ push_all (pools_infos h user es) r
report_pools-push_all h user [] r p = refl
report_pools-push_all h user (x ∷ xs) r p =
    let b = buddy_at (pool_at x) h in
    let one : HandedOut b (user x) = p x (rw ==_refl refl) in
    let said = infos_at b (user x) (visits b.pool.tree top 0) in
    rw (report_visits-push_all b (user x) one r, push_all-append said (pools_infos h user xs) r)
      (report_pools-push_all h user xs (push_all said r) (λ y g. p y (ground (arith, g))))

-- What the records of a large allocation say: the site in its metadata, and the size in the header of its user.
abbrev pub large_leak : Larges → Ptr → LeakInfo
large_leak s node = record {
  site = (s.metas (meta_at s node)).site;
  size = (s.headers (alloc_header_from_user (s.nodes node).user)).requested_size;
}

-- What the debug build keeps for the allocator of a thread is well formed: the slabs of each cache are in two lists
-- with fuel for each, and the free objects of each of these slabs in a list of its own, the extents of the
-- arena are in a list, and each block that is handed out by the pool of one has a pointer; the large allocations
-- are in a list.
pub record Lists (arena : Ptr) (v : View) (h : Heap) (partial full : ℕ → List Ptr)
    (frees : Ptr → List Ptr) (es ks : List Ptr) (user : (extent order place : ℕ) → Ptr)
    : Type 0 where
  pub partials : (i : ℕ) → Chain (λ k. k) v.slabs.links null (v.slabs.caches i).partial (partial i)
  pub fulls : (i : ℕ) → Chain (λ k. k) v.slabs.links null (v.slabs.caches i).full (full i)
  pub partial_fuel : (i : ℕ) → length (partial i) < v.fuel
  pub full_fuel : (i : ℕ) → length (full i) < v.fuel
  pub partial_frees :
      (i : ℕ) (k : Ptr)
      → has k (partial i) ≡ true
      → NodeList v.slabs.nodes (v.slabs.slabs k).free_list (frees k) × (length (frees k) < v.fuel)
  pub full_frees :
      (i : ℕ) (k : Ptr)
      → has k (full i) ≡ true
      → NodeList v.slabs.nodes (v.slabs.slabs k).free_list (frees k) × (length (frees k) < v.fuel)
  pub extents : ExtentList h (h.arenas arena).extents es
  pub extent_fuel : length es < v.fuel
  pub pools : (x : Ptr) → has x es ≡ true → HandedOut (buddy_at (pool_at x) h) (user x)
  pub larges : Chain (λ k. k) v.larges.links null v.larges.head ks
  pub large_fuel : length ks < v.fuel

-- For an allocator of the debug build with an arena, whose lists of slabs, free objects, extents and large allocations
-- are well formed, a collection leaves in the table, up to its size, and whatever was in it before: for each slab, the
-- objects in none of its free lists that are no record of a large allocation; then, for each pool, what the headers
-- of the pointers say that it has handed out, less the regions of slabs; and then what the records of each large
-- allocation say.
pub collect_leaks-push_all :
    (arena : Ptr) (v : View) (h : Heap) (r : Leaks) (partial full : ℕ → List Ptr)
    (frees : Ptr → List Ptr) (es ks : List Ptr) (user : (extent order place : ℕ) → Ptr)
    → arena ≢ null
    → Lists arena v h partial full frees es ks user
    → collect_leaks true arena v h r
      ≡ push_all (map_list (large_leak v.larges) ks) (
          push_all (pools_infos h user es) (
            push_all
              (cache_leaks (in_use v.larges frees ks) num_caches 0 v partial full)
              (reset_leaks r)))
unfolding collect_leaks
collect_leaks-push_all arena v h r partial full frees es ks user n w =
    let s =
      push_all (cache_leaks (in_use v.larges frees ks) num_caches 0 v partial full)
        (reset_leaks r) in
    rw
      (
        ==_ne arena null n,
        collect_slab_leaks-push_all v (in_use v.larges frees ks) partial full w.partials w.fulls
            w.partial_fuel w.full_fuel
            (λ i k u g.
              (let (c, l) = w.partial_frees i k g in
                is_leak-in_use v frees ks k u c l w.larges w.large_fuel))
            (λ i k u g.
              (let (c, l) = w.full_frees i k g in
                is_leak-in_use v frees ks k u c l w.larges w.large_fuel))
            (reset_leaks r),
        collect_arena_buddy_leaks-report_pools v.fuel (h.arenas arena).extents es h s w.extents
            w.extent_fuel,
        report_pools-push_all h user es s w.pools,
      )
      (collect_large_leaks-push_all v.larges ks null v.larges.head v.fuel
        (push_all (pools_infos h user es) s) w.larges w.large_fuel)
