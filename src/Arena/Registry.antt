-- ===== src/Arena/Registry.antt =====
-- The arenas of a thread: `arena_get` makes at most one for each allocator.
use sigma_malloc.Base.{
  ℕ, zero, suc, ◌<◌, ◌≡◌, refl, sym, ◌∙◌, ◌≢◌, inl, inr, Bool, true, false, not, ◌||◌, Option, none,
  some, List, [], ◌∷◌, arith, ◌==◌, if◌then◌else◌, ==_refl, ==_ne, Bool-cases, eq_cases, length,
}
use sigma_malloc.Base.Word.{add_size}
use sigma_malloc.Links.{Ptr, null, update}
use sigma_malloc.Buddy.{Buddy, backing_size, pool_create}
use sigma_malloc.Arena.{
  Heap, Source, arena_page_size, arena_size, align_up_page, metadata_size, extent_mapping_size,
  new_arena, pool_at, buddy_at, clear_extent, put_buddy, link_extent, expand, create, existing_from,
  get_existing, get,
}

-- From `p` the arenas of a thread lead through a list to NULL.
abbrev pub ThreadArenas : Heap → Ptr → List Ptr → Type 0
ThreadArenas s p [] = p ≡ null
ThreadArenas s p (x ∷ xs) = (p ≡ x) × (p ≢ null) × ThreadArenas s (s.arenas p).thread_next xs

-- The first arena of a list that belongs to the allocator
abbrev pub first_of : Ptr → Heap → List Ptr → Ptr
first_of allocator s [] = null
first_of allocator s (x ∷ xs) =
    if (s.arenas x).allocator == allocator then x else first_of allocator s xs

existing_from-first_of :
    (f : ℕ) (p allocator : Ptr) (s : Heap) (xs : List Ptr)
    → ThreadArenas s p xs
    → length xs < f
    → existing_from f p allocator s ≡ first_of allocator s xs
unfolding existing_from
existing_from-first_of zero p allocator s xs c l = absurd (omega arith)
existing_from-first_of (suc f) p allocator s [] c l = rw c refl
existing_from-first_of (suc f) p allocator s (x ∷ xs) (e, n, rest) l =
    rw
      (
        ==_ne p null n,
        sym e,
        existing_from-first_of f (s.arenas p).thread_next allocator s xs rest (omega arith),
      )
      refl

-- With a fuel above the number of arenas of the thread, `arena_get_existing` finds the first one of the allocator, and
-- returns NULL if there is none.
pub get_existing-first_of :
    (fuel : ℕ) (allocator : Ptr) (s : Heap) (xs : List Ptr)
    → ThreadArenas s s.thread_arenas xs
    → length xs < fuel
    → get_existing fuel allocator s ≡ first_of allocator s xs
unfolding get_existing
get_existing-first_of fuel allocator s xs c l =
    existing_from-first_of fuel s.thread_arenas allocator s xs c l

module _ {E : Type 0} (source : Source E) where
  expand-allocator :
      (arena a : Ptr) (s : Heap) (e : E)
      → ((expand source arena s e).1.arenas a).allocator ≡ (s.arenas a).allocator
  unfolding expand
  expand-allocator arena a s e = elim (Bool-cases (arena == null)) [
    | inl t ↦ rw t refl
    | inr t ↦
        let m = (source.alloc extent_mapping_size arena_page_size e).0 in
        let e1 = (source.alloc extent_mapping_size arena_page_size e).1 in
        let s1 = clear_extent m s in
        rw t (elim (Bool-cases (m == null)) [
          | inl z ↦ rw z refl
          | inr z ↦ rw z (
              made m e1 (
                pool_create (pool_at m) (add_size m metadata_size) backing_size
                  (buddy_at (pool_at m) s1)))
        ])
  ]
    where
      made :
          (m : Ptr) (e1 : E) (b : Option Buddy)
          → (((elim b as (λ x. Bool × Heap × E) [
            | none ↦ (false, clear_extent m s, source.free m extent_mapping_size e1)
            | some b ↦ (
              true,
              link_extent arena m extent_mapping_size (put_buddy (pool_at m) b (clear_extent m s)),
              e1,
            )
          ]).1.arenas
              a)).allocator
            ≡ (s.arenas a).allocator
      made m e1 none = refl
      made m e1 (some b) = elim (eq_cases a arena) [
        | inl z ↦ rw (z, ==_refl arena) refl
        | inr z ↦ rw (==_ne a arena z) refl
      ]

  -- A result that is not NULL is an arena of the allocator.
  abbrev Named : Ptr → Ptr × Heap × E → Type 0
  Named allocator r = r.0 ≢ null → (r.1.arenas r.0).allocator ≡ allocator

  create-Named :
      (debug : Bool) (allocator : Ptr) (has_source : Bool) (s : Heap) (e : E)
      → Named allocator (create source debug allocator has_source s e)
  unfolding create
  create-Named debug allocator has_source s e =
      elim (Bool-cases (allocator == null || not has_source)) [
        | inl t ↦ rw t (λ n. absurd (n refl))
        | inr t ↦
            let (m, e1) = source.alloc (align_up_page (arena_size debug)) arena_page_size e in
            let s1 : Heap = record s { arenas = update s.arenas m (new_arena allocator) } in
            rw t (elim (Bool-cases (m == null)) [
              | inl z ↦ rw z (λ n. absurd (n refl))
              | inr z ↦ rw z (elim (Bool-cases (expand source m s1 e1).0) [
                | inl y ↦ rw y (λ n. expand-allocator m m s1 e1 ∙ rw ==_refl refl)
                | inr y ↦ rw y (λ n. absurd (n refl))
              ])
            ])
      ]

  -- A result that is not NULL is what `arena_get_existing` finds.
  abbrev Known : ℕ → Ptr → Ptr × Heap × E → Type 0
  Known fuel allocator r = r.0 ≢ null → get_existing fuel allocator r.1 ≡ r.0

  get-Known :
      (fuel : ℕ) (debug : Bool) (allocator : Ptr) (has_source : Bool) (s : Heap) (e : E)
      → 0 < fuel
      → Known fuel allocator (get source fuel debug allocator has_source s e)
  unfolding get get_existing existing_from
  get-Known zero debug allocator has_source s e p = absurd (omega arith)
  get-Known (suc f) debug allocator has_source s e p =
      elim (eq_cases (get_existing (suc f) allocator s) null) [
        | inl z ↦ rw z (
            registered (create source debug allocator has_source s e)
              (create-Named debug allocator has_source s e))
        | inr n ↦ rw (==_ne _ null n) (λ q. refl)
      ]
    where
      registered :
          (c : Ptr × Heap × E)
          → Named allocator c
          → Known (suc f) allocator (
              if c.0 == null then (null, c.1, c.2) else (
                c.0,
                record (c.1) {
                  arenas =
                      update c.1.arenas c.0
                        (record (c.1.arenas c.0) { thread_next = c.1.thread_arenas });
                  thread_arenas = c.0;
                },
                c.2,
              ))
      registered c named = elim (eq_cases c.0 null) [
        | inl z ↦ rw z (λ n. absurd (n refl))
        | inr n ↦
            rw (==_ne c.0 null n)
              (λ q. rw (==_refl c.0, named n, ==_refl allocator, ==_ne c.0 null n) refl)
      ]

  get_known :
      (fuel : ℕ) (debug : Bool) (allocator : Ptr) (has_source : Bool) (s : Heap) (p : Ptr) (d : E)
      → get_existing fuel allocator s ≡ p
      → p ≢ null
      → get source fuel debug allocator has_source s d ≡ (p, s, d)
  unfolding get
  get_known fuel debug allocator has_source s p d h n = rw (h, ==_ne p null n) refl

  -- The arena that `arena_get` returns is the one that `arena_get_existing` finds afterwards, and that another
  -- `arena_get` returns without a change.
  pub get-get :
      (fuel : ℕ) (debug : Bool) (allocator : Ptr) (has_source : Bool) (s : Heap) (e d : E)
      → 0 < fuel
      → (get source fuel debug allocator has_source s e).0 ≢ null
      → (get_existing fuel allocator (get source fuel debug allocator has_source s e).1
          ≡ (get source fuel debug allocator has_source s e).0)
        × (get source fuel debug allocator has_source
              (get source fuel debug allocator has_source s e).1
              d
            ≡ (
              (get source fuel debug allocator has_source s e).0,
              (get source fuel debug allocator has_source s e).1,
              d,
            ))
  get-get fuel debug allocator has_source s e d p n =
      let r = get source fuel debug allocator has_source s e in
      let h : get_existing fuel allocator r.1 ≡ r.0 =
        get-Known fuel debug allocator has_source s e p n in
      (h, get_known fuel debug allocator has_source r.1 r.0 d h n)
