-- ===== src/Arena/Search.antt =====
-- The search for a region among the extents of an arena.
use sigma_malloc.Base.{
  ℕ, zero, suc, ◌<◌, ◌≡◌, refl, sym, ap, ◌∙◌, ◌≢◌, ◌⊎◌, inl, inr, Bool, true, List, [], ◌∷◌, arith,
  ◌==◌, ==_refl, ==_ne, eq_cases, length, has,
}
use mathlib.Core.Path.{fun_ext, subst}
use sigma_malloc.Links.{Ptr, null, update}
use sigma_malloc.Buddy.{Buddy, pool_size, size_to_order, buddy_alloc}
use sigma_malloc.Buddy.Size.{total_size}
use sigma_malloc.Buddy.Split.{IsValid}
use sigma_malloc.Buddy.Take.{Allocated}
use sigma_malloc.Buddy.Request.{
  IsRequest, NoneFree, Outcome, too_big, exhausted, allocated, buddy_alloc-Outcome,
}
use sigma_malloc.Arena.{Heap, Arena, pool_at, buddy_at, put_buddy, alloc_in, search, find_region}

-- From `p` the `next` fields lead through the extents of a list to NULL.
abbrev pub ExtentList : Heap → Ptr → List Ptr → Type 0
ExtentList s p [] = p ≡ null
ExtentList s p (x ∷ xs) = (p ≡ x) × (p ≢ null) × ExtentList s (s.extents p).next xs

ExtentList-not_null :
    (s : Heap) (p : Ptr) (es : List Ptr) (x : Ptr) → ExtentList s p es → has x es ≡ true → x ≢ null
ExtentList-not_null s p [] x c h = absurd (ground arith)
ExtentList-not_null s p (y ∷ es) x (e, n, rest) h = elim (eq_cases x y) [
  | inl z ↦ λ w. n (e ∙ sym z ∙ w)
  | inr d ↦ ExtentList-not_null s (s.extents p).next es x rest (ground (arith, h, d))
]

-- A request does not fit a pool, or the pool has no free block for it.
abbrev pub Refuses : Bool → Buddy → (size alignment : ℕ) → Type 0
Refuses debug b size alignment =
    (pool_size < total_size debug size alignment)
    ⊎ NoneFree b.pool.tree (size_to_order debug size alignment)

-- What the search comes to, for the extents that `P` names.
pub data Searched (debug : Bool) (arena size alignment : ℕ) (P : Ptr → Type 0) (s : Heap)
    (r : Ptr × Ptr × Heap) : Type 0 where
  nowhere :
      ((x : Ptr) → P x → Refuses debug (buddy_at (pool_at x) s) size alignment)
      → r ≡ (null, null, s)
      → Searched debug arena size alignment P s r
  found :
      (x : Ptr)
      → P x
      → r.0 ≢ null
      → r.1 ≡ x
      → Allocated debug
          (buddy_at (pool_at x) s)
          (buddy_at (pool_at x) r.2)
          r.0
          (size_to_order debug size alignment)
          size
          alignment
      → ((q : Ptr) → q ≢ pool_at x → r.2.pools q ≡ s.pools q)
      → (r.2.arenas arena).active_extent ≡ x
      → (r.2.arenas arena).extents ≡ (s.arenas arena).extents
      → r.2.extents ≡ s.extents
      → Searched debug arena size alignment P s r

-- What is known of some extents holds of more, if the others refuse as well.
pub widen :
    {debug : Bool} {arena size alignment : ℕ} {P Q : Ptr → Type 0} {s : Heap} {r : Ptr × Ptr × Heap}
    → ((x : Ptr) → P x → Q x)
    → ((x : Ptr) → Q x → P x ⊎ Refuses debug (buddy_at (pool_at x) s) size alignment)
    → Searched debug arena size alignment P s r
    → Searched debug arena size alignment Q s r
widen {debug} {arena} {size} {alignment} {P} {Q} {s} {r} up down (nowhere refusing e) =
    nowhere (λ x h. pick x (down x h)) e
  where
    pick :
        (x : Ptr)
        → P x ⊎ Refuses debug (buddy_at (pool_at x) s) size alignment
        → Refuses debug (buddy_at (pool_at x) s) size alignment
    pick x (inl a) = refusing x a
    pick x (inr b) = b
widen up down (found x h n e a o ac ex ne) = found x (up x h) n e a o ac ex ne

update_self {ℓ} : {A : Type ℓ} (f : ℕ → A) (p : ℕ) → update f p (f p) ≡ f
update_self f p =
    fun_ext
      (λ q. elim (eq_cases q p) [ inl e ↦ rw (e, ==_refl p) refl | inr n ↦ rw (==_ne q p n) refl ])

put_back : (pool : Ptr) (s : Heap) → put_buddy pool (buddy_at pool s) s ≡ s
put_back pool s = ap (λ f. record s { pools = f }) (update_self s.pools pool)

abbrev stored : Ptr → Heap → Ptr × Buddy → Ptr × Heap
stored x s (p, b) = (p, put_buddy (pool_at x) b s)

module _ (debug : Bool) (arena size alignment : ℕ) (q : IsRequest 1 size alignment) where
  IsRequest-at : (x : Ptr) → IsRequest (pool_at x) size alignment
  IsRequest-at x = record {
    has_pool = λ e. absurd (omega arith);
    positive = q.positive;
    in_word = q.in_word;
    power_of_two = q.power_of_two;
  }

  -- One call: nothing happens, or the extent serves the request.
  pub data Tried (x : Ptr) (s : Heap) (r : Ptr × Heap) : Type 0 where
    refused : Refuses debug (buddy_at (pool_at x) s) size alignment → r ≡ (null, s) → Tried x s r
    given :
        r.0 ≢ null
        → Allocated debug
            (buddy_at (pool_at x) s)
            (buddy_at (pool_at x) r.1)
            r.0
            (size_to_order debug size alignment)
            size
            alignment
        → ((p : Ptr) → p ≢ pool_at x → r.1.pools p ≡ s.pools p)
        → r.1.arenas ≡ s.arenas
        → r.1.extents ≡ s.extents
        → Tried x s r

  pub alloc_in-Tried :
      (x : Ptr) (s : Heap) (lists : ℕ → List ℕ)
      → IsValid (buddy_at (pool_at x) s) lists
      → Tried x s (alloc_in debug x size alignment s)
  unfolding alloc_in
  alloc_in-Tried x s lists v =
      tried (buddy_alloc debug (pool_at x) size alignment (buddy_at (pool_at x) s)) (
        buddy_alloc-Outcome debug (pool_at x) size alignment (buddy_at (pool_at x) s) lists v
          (IsRequest-at x))
    where
      same : (r : Ptr × Buddy) → r ≡ (null, buddy_at (pool_at x) s) → stored x s r ≡ (null, s)
      same r e = ap (stored x s) e ∙ ap (λ (t : Heap). (null, t)) (put_back (pool_at x) s)

      tried :
          (r : Ptr × Buddy)
          → Outcome debug (buddy_at (pool_at x) s) size alignment r
          → Tried x s (stored x s r)
      tried r (too_big l e) = refused (inl l) (same r e)
      tried r (exhausted f e) = refused (inr f) (same r e)
      tried r (allocated n a) =
          given n (rw ==_refl a) (λ p ne. rw (==_ne p (pool_at x) ne) refl) refl refl

  -- The loop over the extents: it leaves out the active one.
  pub search-Searched :
      (fuel : ℕ) (p : Ptr) (es : List Ptr) (s : Heap)
      → ExtentList s p es
      → length es < fuel
      → ((x : Ptr)
          → has x es ≡ true
          → (lists : ℕ → List ℕ) × IsValid (buddy_at (pool_at x) s) lists)
      → Searched debug arena size alignment
          (λ x. (has x es ≡ true) × (x ≢ (s.arenas arena).active_extent))
          s
          (search fuel debug arena p size alignment s)
  unfolding search
  search-Searched zero p es s c l v = absurd (omega arith)
  search-Searched (suc f) p [] s c l v = rw c (nowhere (λ x h. absurd (ground (arith, h.0))) refl)
  search-Searched (suc f) p (y ∷ es) s (e, n, rest) l v =
      let ih =
        search-Searched f (s.extents p).next es s rest (omega arith)
          (λ x h. v x (ground (arith, h))) in
      let here : has p (y ∷ es) ≡ true = ground (arith, e) in
      rw (==_ne p null n) (elim (eq_cases p (s.arenas arena).active_extent) [
        | inl a ↦
            let active : (p == (s.arenas arena).active_extent) ≡ true = ground (arith, a) in
            rw active (
              widen (λ x (h, d). (ground (arith, h), d))
                (λ x (h, d). inl (later x h (λ z. d (z ∙ sym e ∙ a)), d)) ih)
        | inr d ↦ rw (==_ne p _ d) (elim (alloc_in-Tried p s (v p here).0 (v p here).1) [
          | refused r t ↦
              rw t (widen (λ x (h, g). (ground (arith, h), g)) (λ x (h, g). among x h g r) ih)
          | given nn al o ar ex ↦ rw (==_ne _ null nn) (
              found p (here, d) nn refl al o (rw ==_refl refl)
                (rw ==_refl (ap (λ (g : Ptr → Arena). (g arena).extents) ar)) ex)
        ])
      ])
    where
      later : (x : Ptr) → has x (y ∷ es) ≡ true → x ≢ y → has x es ≡ true
      later x h d = ground (arith, h, d)

      among :
          (x : Ptr)
          → has x (y ∷ es) ≡ true
          → x ≢ (s.arenas arena).active_extent
          → Refuses debug (buddy_at (pool_at p) s) size alignment
          → ((has x es ≡ true) × (x ≢ (s.arenas arena).active_extent))
            ⊎ Refuses debug (buddy_at (pool_at x) s) size alignment
      among x h g r = elim (eq_cases x y) [
        | inl z ↦
            let k : p ≡ x = e ∙ sym z in
            inr (subst (λ (w : Ptr). Refuses debug (buddy_at (pool_at w) s) size alignment) k r)
        | inr d ↦ inl (later x h d, g)
      ]

  -- Both functions' search, in an arena whose active extent is in its list: a valid request is refused, and the
  -- state is the same, only if every extent refuses it. Otherwise one extent serves it as its pool alone would,
  -- becomes the active one, and no other pool changes.
  pub find_region-Searched :
      (fuel : ℕ) (es : List Ptr) (s : Heap)
      → ExtentList s (s.arenas arena).extents es
      → length es < fuel
      → has (s.arenas arena).active_extent es ≡ true
      → ((x : Ptr)
          → has x es ≡ true
          → (lists : ℕ → List ℕ) × IsValid (buddy_at (pool_at x) s) lists)
      → Searched debug arena size alignment
          (λ x. has x es ≡ true)
          s
          (find_region fuel debug arena size alignment s)
  unfolding find_region
  find_region-Searched fuel es s c l h v =
      let a = (s.arenas arena).active_extent in
      let rest = search-Searched fuel (s.arenas arena).extents es s c l v in
      rw (==_ne a null (ExtentList-not_null s (s.arenas arena).extents es a c h))
        (elim (alloc_in-Tried a s (v a h).0 (v a h).1) [
          | refused r t ↦ rw t (
              widen (λ x (g, d). g)
                (λ x g. elim (eq_cases x a) [
                  | inl z ↦ inr (
                      subst (λ (w : Ptr). Refuses debug (buddy_at (pool_at w) s) size alignment)
                        (sym z) r)
                  | inr d ↦ inl (g, d)
                ])
                rest)
          | given nn al o ar ex ↦ rw (==_ne _ null nn) (
              found a h nn refl al o (ap (λ (g : Ptr → Arena). (g arena).active_extent) ar)
                (ap (λ (g : Ptr → Arena). (g arena).extents) ar) ex)
        ])
