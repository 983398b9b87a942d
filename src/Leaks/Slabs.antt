-- ===== src/Leaks/Slabs.antt =====
-- The pass over the slabs, and the whole collection of src/debug.c. An object is in use if it is in no free list;
-- the records of the large allocations, which are objects too, are left out.
use sigma_malloc.Base.{
  ℕ, zero, suc, ◌+◌, ◌*◌, ◌<◌, ◌≡◌, refl, sym, inl, inr, Bool, true, false, not, ◌&&◌, ◌||◌, List,
  [], ◌∷◌, ◌++◌, arith, ◌==◌, if◌then◌else◌, ==_ne, Bool-cases, length, has,
}
use sigma_malloc.Base.Word.{sub_size}
use sigma_malloc.Header.{Site}
use sigma_malloc.Links.{Ptr, null}
use sigma_malloc.Links.Chain.{Chain}
use sigma_malloc.Slab.{Slabs, num_caches, slab_header_size}
use sigma_malloc.Large.{Larges, large_header_size}
use sigma_malloc.Arena.{Heap, pool_at, buddy_at}
use sigma_malloc.Leaks.{
  LeakInfo, Leaks, leak_push, reset_leaks, is_ptr_in_freelist, collect_buddy_leaks,
  collect_large_leaks,
}
use sigma_malloc.Leaks.Store.{push_all, push_all-append}

-- The loop that looks for an object among the records of the large allocations, from `node` on
unfoldable pub is_tracking : (fuel : ℕ) → (node user : Ptr) → Larges → Bool
is_tracking zero node user s = false
is_tracking (suc f) node user s =
    let meta = s.meta_of (sub_size (s.nodes node).user large_header_size) in
    let rest = is_tracking f (s.links.next node) user s in
    if node == null then false else if node == user || meta == user then true else rest

-- What the pass reads: the slabs, the sites in the object headers by the address of their slot, the large
-- allocations, the place of the user's bytes in a slot and the size of a slot of a cache. `fuel` is for the lists.
pub record View : Type 0 where
  pub slabs : Slabs
  pub sites : Ptr → Site
  pub larges : Larges
  pub offset : ℕ
  pub slot_size : ℕ → ℕ
  pub fuel : ℕ

-- Whether the object at `user` is a leak.
abbrev pub is_leak : View → (slab user : Ptr) → Bool
is_leak v slab user =
    not (is_ptr_in_freelist v.fuel v.slabs.nodes (v.slabs.slabs slab).free_list user)
    && not (is_tracking v.fuel v.larges.head user v.larges)

-- The loop over the objects of a slab, from number `j` on
pub collect_objects : (rounds j : ℕ) → View → (cache slab : ℕ) → Leaks → Leaks
collect_objects zero j v cache slab r = r
collect_objects (suc n) j v cache slab r =
    let size = (v.slabs.caches cache).obj_size in
    let slot = slab + slab_header_size + j * v.slot_size size in
    collect_objects n (j + 1) v cache slab (
      if is_leak v slab (slot + v.offset)
      then leak_push (record { site = v.sites slot; size = size }) r
      else r)

-- The loop over the slabs of a list, from `slab` on
pub collect_slabs : (fuel : ℕ) → View → (cache slab : ℕ) → Leaks → Leaks
collect_slabs zero v cache slab r = r
collect_slabs (suc f) v cache slab r =
    let rest =
      collect_slabs f v cache (v.slabs.links.next slab)
        (collect_objects (v.slabs.slabs slab).capacity 0 v cache slab r) in
    if slab == null then r else rest

-- The loop over the caches, from number `i` on
pub collect_caches : (rounds i : ℕ) → View → Leaks → Leaks
collect_caches zero i v r = r
collect_caches (suc n) i v r =
    let c = v.slabs.caches i in
    collect_caches n (i + 1) v
      (collect_slabs v.fuel v i c.full (collect_slabs v.fuel v i c.partial r))

-- collect_slab_leaks, for an arena that is not NULL
pub collect_slab_leaks : View → Leaks → Leaks
collect_slab_leaks v r = collect_caches num_caches 0 v r

-- The loop of `collect_arena_buddy_leaks`, from `extent` on
unfoldable pub collect_arena_buddy_leaks : (fuel : ℕ) → (extent : Ptr) → Heap → Leaks → Leaks
collect_arena_buddy_leaks zero extent h r = r
collect_arena_buddy_leaks (suc f) extent h r =
    let rest =
      collect_arena_buddy_leaks f (h.extents extent).next h
        (collect_buddy_leaks (buddy_at (pool_at extent) h) r) in
    if extent == null then r else rest

-- sigma_debug_collect_leaks of the debug build, less the count that it returns. `enabled` says that the allocator is
-- one that is initialized for debugging, and `arena` is what `arena_get_existing` finds.
unfoldable pub collect_leaks : (enabled : Bool) (arena : Ptr) → View → Heap → Leaks → Leaks
collect_leaks enabled arena v h r =
    let r0 = reset_leaks r in
    let r1 =
      collect_arena_buddy_leaks v.fuel (h.arenas arena).extents h (collect_slab_leaks v r0) in
    if not enabled
    then r0
    else collect_large_leaks v.fuel v.larges.head v.larges (if arena == null then r0 else r1)

-- The leaks of a slab, of a list of slabs, and of all caches, in the order of the pass, for a test that says which
-- objects of a slab are leaks.
abbrev pub object_leaks :
    (used : (slab user : Ptr) → Bool) → (rounds j : ℕ) → View → (cache slab : ℕ) → List LeakInfo
object_leaks used zero j v cache slab = []
object_leaks used (suc n) j v cache slab =
    let size = (v.slabs.caches cache).obj_size in
    let slot = slab + slab_header_size + j * v.slot_size size in
    (if used slab (slot + v.offset) then record { site = v.sites slot; size = size } ∷ [] else [])
    ++ object_leaks used n (j + 1) v cache slab

abbrev pub slab_leaks :
    (used : (slab user : Ptr) → Bool) → View → (cache : ℕ) → List Ptr → List LeakInfo
slab_leaks used v cache [] = []
slab_leaks used v cache (k ∷ ks) =
    object_leaks used (v.slabs.slabs k).capacity 0 v cache k ++ slab_leaks used v cache ks

abbrev pub cache_leaks :
    (used : (slab user : Ptr) → Bool)
    → (rounds i : ℕ) → View
    → (partial full : ℕ → List Ptr) → List LeakInfo
cache_leaks used zero i v partial full = []
cache_leaks used (suc n) i v partial full =
    (slab_leaks used v i (partial i) ++ slab_leaks used v i (full i))
    ++ cache_leaks used n (i + 1) v partial full

-- A test agrees with the code's on the objects of some slabs.
abbrev pub Agrees : View → ((slab user : Ptr) → Bool) → List Ptr → Type 0
Agrees v used ks = (k user : Ptr) → has k ks ≡ true → is_leak v k user ≡ used k user

collect_objects-push_all :
    (n j : ℕ) (v : View) (used : (slab user : Ptr) → Bool) (cache slab : ℕ) (r : Leaks)
    → ((user : Ptr) → is_leak v slab user ≡ used slab user)
    → collect_objects n j v cache slab r ≡ push_all (object_leaks used n j v cache slab) r
unfolding collect_objects
collect_objects-push_all zero j v used cache slab r h = refl
collect_objects-push_all (suc n) j v used cache slab r h =
    let size = (v.slabs.caches cache).obj_size in
    let slot = slab + slab_header_size + j * v.slot_size size in
    elim (Bool-cases (used slab (slot + v.offset))) [
      | inl t ↦
          rw (h (slot + v.offset), t)
            (collect_objects-push_all n (j + 1) v used cache slab
              (leak_push (record { site = v.sites slot; size = size }) r) h)
      | inr t ↦
          rw (h (slot + v.offset), t) (collect_objects-push_all n (j + 1) v used cache slab r h)
    ]

collect_slabs-push_all :
    (f : ℕ) (v : View) (used : (slab user : Ptr) → Bool) (cache slab q : ℕ) (ks : List Ptr)
    (r : Leaks)
    → Agrees v used ks
    → Chain (λ k. k) v.slabs.links q slab ks
    → length ks < f
    → collect_slabs f v cache slab r ≡ push_all (slab_leaks used v cache ks) r
unfolding collect_slabs
collect_slabs-push_all zero v used cache slab q ks r h c l = absurd (omega arith)
collect_slabs-push_all (suc f) v used cache slab q [] r h c l = rw c refl
collect_slabs-push_all (suc f) v used cache slab q (k ∷ ks) r h (e, n, back, rest) l =
    let first = object_leaks used (v.slabs.slabs slab).capacity 0 v cache slab in
    let here : (user : Ptr) → is_leak v slab user ≡ used slab user =
      λ user. h slab user (ground (arith, e)) in
    rw
      (
        ==_ne slab null n,
        sym e,
        push_all-append first (slab_leaks used v cache ks) r,
        collect_objects-push_all (v.slabs.slabs slab).capacity 0 v used cache slab r here,
      )
      (collect_slabs-push_all f v used cache (v.slabs.links.next slab) slab ks (push_all first r)
        (λ x user g. h x user (ground (arith, g))) rest (omega arith))

module _ (v : View) (used : (slab user : Ptr) → Bool) (partial full : ℕ → List Ptr)
    (partials : (i : ℕ) → Chain (λ k. k) v.slabs.links null (v.slabs.caches i).partial (partial i))
    (fulls : (i : ℕ) → Chain (λ k. k) v.slabs.links null (v.slabs.caches i).full (full i))
    (fuel_partial : (i : ℕ) → length (partial i) < v.fuel)
    (fuel_full : (i : ℕ) → length (full i) < v.fuel)
    (agrees_partial : (i : ℕ) → Agrees v used (partial i))
    (agrees_full : (i : ℕ) → Agrees v used (full i)) where
  collect_caches-push_all :
      (n i : ℕ) (r : Leaks)
      → collect_caches n i v r ≡ push_all (cache_leaks used n i v partial full) r
  unfolding collect_caches
  collect_caches-push_all zero i r = refl
  collect_caches-push_all (suc n) i r =
      let p = slab_leaks used v i (partial i) in
      let f = slab_leaks used v i (full i) in
      rw
        (
          collect_slabs-push_all v.fuel v used i (v.slabs.caches i).partial null (partial i) r
              (agrees_partial i) (partials i) (fuel_partial i),
          collect_slabs-push_all v.fuel v used i (v.slabs.caches i).full null (full i)
              (push_all p r) (agrees_full i) (fulls i) (fuel_full i),
          collect_caches-push_all n (i + 1) (push_all f (push_all p r)),
          push_all-append (p ++ f) (cache_leaks used n (i + 1) v partial full) r,
          push_all-append p f r,
        )
        refl

  -- When the lists of slabs are well formed, the pass over the slabs reports the objects that a test picks, if this
  -- agrees with the code's, cache by cache, those of the slabs with free objects first.
  pub collect_slab_leaks-push_all :
      (r : Leaks)
      → collect_slab_leaks v r ≡ push_all (cache_leaks used num_caches 0 v partial full) r
  unfolding collect_slab_leaks
  collect_slab_leaks-push_all r = collect_caches-push_all num_caches 0 r
