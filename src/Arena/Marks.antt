-- ===== src/Arena/Marks.antt =====
-- The mark of a region that holds a slab.
use sigma_malloc.Base.{
  ℕ, ◌≡◌, refl, ◌≢◌, inl, inr, Bool, true, Option, none, some, arith, ◌==◌, ==_refl, ==_ne,
  Bool-cases, eq_cases,
}
use sigma_malloc.Links.{Ptr, null}
use sigma_malloc.Header.{buddy_header_of}
use sigma_malloc.Slab.{slab_size}
use sigma_malloc.Arena.{
  Heap, Source, set_header_slab_region, find_region, grow_region, alloc_slab_region,
}

module _ {E : Type 0} (source : Source E) (fuel : ℕ) (debug : Bool) (arena : Ptr) where
  abbrev Marked : Option (Ptr × Ptr) × Heap × E → Type 0
  Marked (none, t, d) = Unit
  Marked (some (r, y), t, d) =
      (r ≢ null) × ((t.mem.buddy_headers (buddy_header_of debug r)).is_slab_region ≡ true)

  set_header_slab_region-Marked :
      (p x : Ptr) (s : Heap) (e : E)
      → p ≢ null
      → Marked (some (p, x), set_header_slab_region debug p s, e)
  set_header_slab_region-Marked p x s e n = (n, rw ==_refl refl)

  marked : (s : Heap) (e : E) → Marked (alloc_slab_region source fuel debug arena s e)
  unfolding alloc_slab_region
  marked s e =
      let f = find_region fuel debug arena slab_size 16 s in
      let g = grow_region source debug arena slab_size 16 f.2 e in
      elim (Bool-cases (arena == null)) [
        | inl z ↦ rw z tt
        | inr z ↦ rw z (elim (eq_cases f.0 null) [
          | inr n ↦ rw (==_ne f.0 null n) (set_header_slab_region-Marked f.0 f.1 f.2 e n)
          | inl m ↦
              let m' : (f.0 == null) ≡ true = ground (arith, m) in
              rw m' (elim (eq_cases g.0 null) [
                | inl w ↦ rw w tt
                | inr w ↦ rw (==_ne g.0 null w) (set_header_slab_region-Marked g.0 g.1 g.2 g.3 w)
              ])
        ])
      ]

  -- A region that `arena_alloc_slab_region` hands out is not NULL, and its header says that it holds a slab.
  pub alloc_slab_region-marked :
      (p x : Ptr) (s s' : Heap) (e e' : E)
      → alloc_slab_region source fuel debug arena s e ≡ (some (p, x), s', e')
      → (p ≢ null) × ((s'.mem.buddy_headers (buddy_header_of debug p)).is_slab_region ≡ true)
  alloc_slab_region-marked p x s s' e e' h = rw h at (marked s e)
