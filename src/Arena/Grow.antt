-- ===== src/Arena/Grow.antt =====
-- An arena that grows by an extent: `arena_expand`, and `arena_alloc_buddy_region` with it.
use sigma_malloc.Base.{
  ℕ, ◌+◌, ◌<◌, ◌≡◌, refl, ◌≢◌, ◌⊎◌, inl, inr, Bool, true, false, List, [], ◌∷◌, arith, ◌==◌,
  if◌then◌else◌, ==_refl, ==_ne, order_cases, eq_cases, length, has,
}
use sigma_malloc.Base.Word.{word, add_size}
use sigma_malloc.Links.{Ptr, null}
use sigma_malloc.Buddy.{Buddy, pool_size, backing_size, num_orders, size_to_order}
use sigma_malloc.Buddy.Size.{total_size, size_to_order_lem}
use sigma_malloc.Buddy.Layout.{top, free_leaf}
use sigma_malloc.Buddy.Create.{Created, fresh_lists, pool_create-Created}
use sigma_malloc.Buddy.Split.{IsValid}
use sigma_malloc.Buddy.Take.{Allocated}
use sigma_malloc.Buddy.Request.{IsRequest}
use sigma_malloc.Arena.{
  Heap, Source, arena_page_size, metadata_size, extent_mapping_size, pool_at, buddy_at, put_buddy,
  clear_extent, link_extent, set_header_arena, alloc_in, expand, grow_region, find_region,
  alloc_buddy_region,
}
use sigma_malloc.Arena.Search.{
  ExtentList, Refuses, Searched, nowhere, found, refused, given, alloc_in-Tried,
  find_region-Searched,
}

-- A pool that has just been made refuses only what does not fit a pool.
pub fresh-Refuses :
    (debug : Bool) (raw size n alignment : ℕ) (b : Buddy)
    → Created raw size b
    → IsRequest 1 n alignment
    → Refuses debug b n alignment
    → pool_size < total_size debug n alignment
fresh-Refuses debug raw size n alignment b c q (inl l) = l
fresh-Refuses debug raw size n alignment b c q (inr f) =
    elim (order_cases pool_size (total_size debug n alignment)) [
      | inl l ↦ l
      | inr g ↦
          let m : has 0 (fresh_lists top) ≡ free_leaf b.pool.tree top 0 =
            c.valid.members top 0 (omega arith) in
          let small : size_to_order debug n alignment < num_orders =
            (size_to_order_lem debug n alignment q.in_word q.power_of_two).1 g in
          absurd (ground (arith, f top 0 (omega arith) (omega arith), m))
    ]

ExtentList-update :
    (s s' : Heap) (m : Ptr) (p : Ptr) (es : List Ptr)
    → ((x : Ptr) → x ≢ m → (s'.extents x).next ≡ (s.extents x).next)
    → has m es ≡ false
    → ExtentList s p es
    → ExtentList s' p es
ExtentList-update s s' m p [] same n c = c
ExtentList-update s s' m p (x ∷ es) same n (e, ne, rest) =
    let d : p ≢ m = λ z. absurd (ground (arith, z, e, n)) in
    (
      e,
      ne,
      rw (same p d) (ExtentList-update s s' m (s.extents p).next es same (ground (arith, n)) rest),
    )

module _ {E : Type 0} (source : Source E) (arena : Ptr) (es : List Ptr) (s : Heap) (e : E) where
  abbrev got : Ptr × E
  got = source.alloc extent_mapping_size arena_page_size e

  -- The heap with a new extent in front of the others.
  pub record HasNew (s' : Heap) : Type 0 where
    pub mapped : got.0 ≢ null
    pub pool : Created (got.0 + metadata_size) backing_size (buddy_at (pool_at got.0) s')
    pub other_pools : (q : Ptr) → q ≢ pool_at got.0 → s'.pools q ≡ s.pools q
    pub extents : ExtentList s' (s'.arenas arena).extents (got.0 ∷ es)
    pub active : (s'.arenas arena).active_extent ≡ got.0
    pub recorded : (s'.extents got.0).mapping_size ≡ extent_mapping_size

  pub data Expanded (r : Bool × Heap × E) : Type 0 where
    no_memory : got.0 ≡ null → r ≡ (false, s, got.1) → Expanded r
    grown : r.0 ≡ true → HasNew r.1 → r.2 ≡ got.1 → Expanded r

  module _ (here : arena ≢ null) (c : ExtentList s (s.arenas arena).extents es)
      (fresh : has got.0 es ≡ false)
      (room : (got.0 ≡ null) ⊎ (got.0 + extent_mapping_size < word)) where
    abbrev cleared : Heap
    cleared = clear_extent got.0 s

    abbrev linked : Buddy → Heap
    linked b = link_extent arena got.0 extent_mapping_size (put_buddy (pool_at got.0) b cleared)

    linked-HasNew :
        (n : got.0 ≢ null) (b : Buddy)
        → Created (got.0 + metadata_size) backing_size b
        → HasNew (linked b)
    linked-HasNew n b made = record {
      mapped = n;
      pool = rw ==_refl made;
      other_pools = λ q d. rw (==_ne q (pool_at got.0) d) refl;
      extents =
          rw (==_refl arena, ==_refl got.0)
            (
              refl,
              n,
              ExtentList-update s (linked b) got.0 (s.arenas arena).extents es
                  (λ x d. rw (==_ne x got.0 d) refl) fresh c,
            );
      active = rw ==_refl refl;
      recorded = rw ==_refl refl;
    }

    -- `arena_expand`, for a source that returns NULL or new memory in the address space, changes nothing if there
    -- is no memory, and otherwise puts an extent with a fresh pool in front of the list.
    pub expand-Expanded : Expanded (expand source arena s e)
    unfolding expand
    expand-Expanded = rw (==_ne arena null here) (elim (eq_cases got.0 null) [
      | inl z ↦ rw z (no_memory z refl)
      | inr n ↦
          let l : got.0 + extent_mapping_size < word = elim room [
            | inl z ↦ absurd (n z)
            | inr l ↦ l
          ] in
          let a : add_size got.0 metadata_size ≡ got.0 + metadata_size = omega arith in
          let (b, eq, made) =
            pool_create-Created (pool_at got.0) (got.0 + metadata_size) backing_size
              (buddy_at (pool_at got.0) cleared) (λ z. absurd (omega arith))
              (λ z. absurd (omega arith)) (omega arith) (omega arith) in
          rw (==_ne got.0 null n, a, eq) (grown refl (linked-HasNew n b made) refl)
    ])

-- What `arena_alloc_buddy_region` comes to in an arena with the extents of a list.
pub data RegionOutcome {E : Type 0} (source : Source E) (debug : Bool) (arena size alignment : ℕ)
    (es : List Ptr) (s : Heap) (e : E) (r : Ptr × Heap × E) : Type 0 where
  from_extent :
      (x : Ptr) (s1 : Heap)
      → has x es ≡ true
      → r.0 ≢ null
      → Allocated debug
          (buddy_at (pool_at x) s)
          (buddy_at (pool_at x) s1)
          r.0
          (size_to_order debug size alignment)
          size
          alignment
      → r ≡ (r.0, set_header_arena debug arena r.0 s1, e)
      → RegionOutcome source debug arena size alignment es s e r
  from_new :
      (s1 s2 : Heap)
      → ((x : Ptr) → has x es ≡ true → Refuses debug (buddy_at (pool_at x) s) size alignment)
      → HasNew source arena es s e s1
      → r.0 ≢ null
      → Allocated debug
          (buddy_at (pool_at (got source arena es s e).0) s1)
          (buddy_at (pool_at (got source arena es s e).0) s2)
          r.0
          (size_to_order debug size alignment)
          size
          alignment
      → r ≡ (r.0, set_header_arena debug arena r.0 s2, (got source arena es s e).1)
      → RegionOutcome source debug arena size alignment es s e r
  no_source :
      ((x : Ptr) → has x es ≡ true → Refuses debug (buddy_at (pool_at x) s) size alignment)
      → (got source arena es s e).0 ≡ null
      → r ≡ (null, s, (got source arena es s e).1)
      → RegionOutcome source debug arena size alignment es s e r
  grown_in_vain :
      (s1 : Heap)
      → pool_size < total_size debug size alignment
      → HasNew source arena es s e s1
      → r ≡ (null, s1, (got source arena es s e).1)
      → RegionOutcome source debug arena size alignment es s e r

module _ {E : Type 0} (source : Source E) (debug : Bool) (arena size alignment : ℕ) (es : List Ptr)
    (s : Heap) (e : E) (here : arena ≢ null) (q : IsRequest 1 size alignment)
    (c : ExtentList s (s.arenas arena).extents es)
    (active : has (s.arenas arena).active_extent es ≡ true)
    (v : (x : Ptr)
      → has x es ≡ true
      → (lists : ℕ → List ℕ) × IsValid (buddy_at (pool_at x) s) lists)
    (fresh : has (got source arena es s e).0 es ≡ false)
    (room : ((got source arena es s e).0 ≡ null)
      ⊎ ((got source arena es s e).0 + extent_mapping_size < word)) where
  abbrev finish : Ptr × Ptr × Heap × E → Ptr × Heap × E
  finish (p, x, t, d) = (p, (if p == null then t else set_header_arena debug arena p t), d)

  grow_region-Outcome :
      ((x : Ptr) → has x es ≡ true → Refuses debug (buddy_at (pool_at x) s) size alignment)
      → RegionOutcome source debug arena size alignment es s e
          (finish (grow_region source debug arena size alignment s e))
  unfolding grow_region
  grow_region-Outcome none_of =
      after (expand source arena s e) (expand-Expanded source arena es s e here c fresh room)
    where
      after :
          (t : Bool × Heap × E)
          → Expanded source arena es s e t
          → RegionOutcome source debug arena size alignment es s e (
              finish (
                if t.0
                then (let (p, s2) =
                      alloc_in debug (t.1.arenas arena).active_extent size alignment t.1 in
                    (p, (t.1.arenas arena).active_extent, s2, t.2))
                else (null, null, t.1, t.2)))
      after t (no_memory z r) = rw r (no_source none_of z refl)
      after t (grown worked new r) =
          let m = (got source arena es s e).0 in
          let a : (t.1.arenas arena).active_extent ≡ m = new.active in
          rw (worked, a, r)
            (elim (alloc_in-Tried debug arena size alignment q m t.1 fresh_lists new.pool.valid) [
              | refused w u ↦ rw u (
                  grown_in_vain t.1 (fresh-Refuses debug _ _ size alignment _ new.pool q w) new
                    refl)
              | given nn al o ar ex ↦
                  from_new t.1 (alloc_in debug m size alignment t.1).1 none_of new nn al
                    (rw (==_ne _ null nn) refl)
            ])

  -- In an arena whose extents are consistent and whose active extent is one of them, with a source that returns
  -- NULL or new memory in the address space, a valid request is served by an extent of the arena, if one has
  -- room, and else by a new one, as that extent's pool alone would serve it, and the header then names the arena.
  -- It returns NULL only if the source does, and then nothing changes, or if the request fits no pool, and then
  -- the arena has one extent more.
  pub alloc_buddy_region-Outcome :
      (fuel : ℕ)
      → length es < fuel
      → RegionOutcome source debug arena size alignment es s e
          (alloc_buddy_region source fuel debug arena size alignment s e)
  unfolding alloc_buddy_region
  alloc_buddy_region-Outcome fuel l = rw (==_ne arena null here) (
      after (find_region fuel debug arena size alignment s)
        (find_region-Searched debug arena size alignment q fuel es s c l active v))
    where
      after :
          (t : Ptr × Ptr × Heap)
          → Searched debug arena size alignment (λ x. has x es ≡ true) s t
          → RegionOutcome source debug arena size alignment es s e (
              finish (
                if t.0 == null
                then grow_region source debug arena size alignment t.2 e
                else (t.0, t.1, t.2, e)))
      after t (nowhere none_of r) = rw r (grow_region-Outcome none_of)
      after t (found x h nn p al o ac ext ex) =
          rw (==_ne t.0 null nn) (from_extent x t.2 h nn al (rw (==_ne t.0 null nn) refl))
