-- ===== src/Arena/Release.antt =====
-- src/arena.c: how a region goes back to the pool of its extent.
use sigma_malloc.Base.{
  ℕ, zero, suc, ◌≤◌, ◌<◌, ◌≡◌, refl, ◌≢◌, inl, inr, Bool, true, false, not, ◌&&◌, ◌||◌, List, [],
  ◌∷◌, arith, ltb, leb, ◌==◌, if◌then◌else◌, ==_refl, ==_ne, Bool-cases, eq_cases, length, has,
}
use sigma_malloc.Links.{Ptr, null}
use sigma_malloc.Header.{type_buddy, alloc_header_from_user, buddy_header_of}
use sigma_malloc.Buddy.{ok, panic, buddy_free}
use sigma_malloc.Buddy.Split.{IsValid}
use sigma_malloc.Buddy.Take.{IsHandle}
use sigma_malloc.Buddy.Release.{Released}
use sigma_malloc.Buddy.Free.{buddy_free-Released}
use sigma_malloc.Arena.{Heap, pool_at, buddy_at, put_buddy}
use sigma_malloc.Arena.Search.{ExtentList}

-- pointer_in_extent
pub pointer_in_extent : (extent p : Ptr) → Heap → Bool
pointer_in_extent extent p s =
    let b = s.pools (pool_at extent) in leb b.memory_start p && ltb p b.memory_end

-- The loop of `arena_free_slab_region` in the debug build, from `it` on
pub belongs_from : (fuel : ℕ) (it extent : Ptr) → Heap → Bool
belongs_from zero it extent s = false
belongs_from (suc f) it extent s =
    let rest = belongs_from f (s.extents it).next extent s in
    if it == null then false else if it == extent then true else rest

-- What a free comes to: the state, or a panic of the arena or of its pool.
pub data ArenaFreeing : Type 0 where
  done : Heap → ArenaFreeing
  foreign_extent outside_extent wrong_arena : ArenaFreeing
  pool_panic : ArenaFreeing

-- `buddy_free` of a pool
pub free_in : (debug : Bool) (pool p : Ptr) → Heap → ArenaFreeing
free_in debug pool p s = elim (buddy_free debug p (buddy_at pool s)) [
  | ok b ↦ done (put_buddy pool b s)
  | panic w ↦ pool_panic
]

-- arena_free_slab_region
pub free_slab_region : (fuel : ℕ) (debug : Bool) (arena extent p : Ptr) → Heap → ArenaFreeing
free_slab_region fuel debug arena extent p s =
    if arena == null || extent == null || p == null
    then done s
    else if debug && not (belongs_from fuel (s.arenas arena).extents extent s)
    then foreign_extent
    else if debug && not (pointer_in_extent extent p s)
    then outside_extent
    else free_in debug (pool_at extent) p s

-- arena_free_buddy_local, less the counter of the debug build
pub free_buddy_local : (debug : Bool) (arena p : Ptr) → Heap → ArenaFreeing
free_buddy_local debug arena p s =
    if arena == null || p == null
    then done s
    else let h = s.mem.headers (alloc_header_from_user p) in
      let b = s.mem.buddy_headers (buddy_header_of debug p) in
      if not (h.type == type_buddy) || not (b.arena == arena) || b.pool == null
      then wrong_arena
      else free_in debug b.pool p s

-- A region that stands for a block of the pool goes back, and no other pool changes.
pub record GivenBack (debug : Bool) (pool o k : ℕ) (s : Heap) (r : ArenaFreeing) : Type 0 where
  pub after : Heap
  pub result : r ≡ done after
  pub block : Released (buddy_at pool s) (buddy_at pool after) o k
  pub other_pools : (q : Ptr) → q ≢ pool → after.pools q ≡ s.pools q

module _ (debug : Bool) (pool p o k : ℕ) (s : Heap) (lists : ℕ → List ℕ)
    (v : IsValid (buddy_at pool s) lists) (i : IsHandle debug (buddy_at pool s) p o k) where
  free_in-GivenBack : GivenBack debug pool o k s (free_in debug pool p s)
  unfolding free_in
  free_in-GivenBack =
      let (b, e, r) = buddy_free-Released debug (buddy_at pool s) lists v p o k i in
      rw (free_in, e)
        (record {
          after = put_buddy pool b s;
          result = refl;
          block = rw ==_refl r;
          other_pools = λ q n. rw (==_ne q pool n) refl;
        })

  -- `arena_free_buddy_local` gives back a region of a consistent pool, if its header names the arena and the pool.
  pub free_buddy_local-GivenBack :
      (arena : Ptr)
      → arena ≢ null
      → (s.mem.buddy_headers (buddy_header_of debug p)).arena ≡ arena
      → (s.mem.buddy_headers (buddy_header_of debug p)).pool ≡ pool
      → pool ≢ null
      → GivenBack debug pool o k s (free_buddy_local debug arena p s)
  unfolding free_buddy_local
  free_buddy_local-GivenBack arena n a b m =
      rw
        (
          ==_ne arena null n,
          ==_ne p null i.not_null,
          i.type,
          a,
          b,
          ==_refl arena,
          ==_ne pool null m,
        )
        free_in-GivenBack

belongs_from-has :
    (fuel : ℕ) (it extent : Ptr) (es : List Ptr) (s : Heap)
    → ExtentList s it es
    → has extent es ≡ true
    → length es < fuel
    → belongs_from fuel it extent s ≡ true
unfolding belongs_from
belongs_from-has zero it extent es s c h l = absurd (omega arith)
belongs_from-has (suc f) it extent [] s c h l = absurd (ground arith)
belongs_from-has (suc f) it extent (x ∷ es) s (e, n, rest) h l =
    rw (==_ne it null n) (elim (eq_cases it extent) [
      | inl z ↦ rw (z, ==_refl extent) refl
      | inr d ↦ rw (==_ne it extent d) (
          belongs_from-has f (s.extents it).next extent es s rest (ground (arith, h, d, e))
            (omega arith))
    ])

-- `arena_free_slab_region` gives back a region of a consistent pool of an extent of the arena, and the checks of the
-- debug build do not panic if the address lies in the memory of that extent.
pub free_slab_region-GivenBack :
    (fuel : ℕ) (debug : Bool) (arena extent p o k : ℕ) (s : Heap) (lists : ℕ → List ℕ)
    (es : List Ptr)
    → arena ≢ null
    → ExtentList s (s.arenas arena).extents es
    → has extent es ≡ true
    → length es < fuel
    → extent ≢ null
    → (s.pools (pool_at extent)).memory_start ≤ p
    → p < (s.pools (pool_at extent)).memory_end
    → IsValid (buddy_at (pool_at extent) s) lists
    → IsHandle debug (buddy_at (pool_at extent) s) p o k
    → GivenBack debug (pool_at extent) o k s (free_slab_region fuel debug arena extent p s)
unfolding free_slab_region pointer_in_extent
free_slab_region-GivenBack fuel debug arena extent p o k s lists es n c h l m lo hi v i =
    let leb_true : leb (s.pools (pool_at extent)).memory_start p ≡ true = ground (arith, lo) in
    let ltb_true : ltb p (s.pools (pool_at extent)).memory_end ≡ true = ground (arith, hi) in
    rw
      (
        ==_ne arena null n,
        ==_ne extent null m,
        ==_ne p null i.not_null,
        belongs_from-has fuel _ extent es s c h l,
        leb_true,
        ltb_true,
      )
      (elim (Bool-cases debug) [
        | inl d ↦ rw d (rw d at (free_in-GivenBack debug (pool_at extent) p o k s lists v i))
        | inr d ↦ rw d (rw d at (free_in-GivenBack debug (pool_at extent) p o k s lists v i))
      ])
