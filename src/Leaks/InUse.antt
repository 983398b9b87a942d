-- ===== src/Leaks/InUse.antt =====
-- Which objects of a slab are in use: those that are in no free list, less the records of the large allocations.
use sigma_malloc.Base.{
  ℕ, zero, suc, ◌<◌, ◌≡◌, refl, sym, inl, inr, Bool, true, not, ◌&&◌, ◌||◌, List, [], ◌∷◌, arith,
  ◌==◌, if◌then◌else◌, ==_refl, ==_ne, eq_cases, length, has,
}
use sigma_malloc.Base.Word.{sub_size}
use sigma_malloc.Links.{Ptr, null}
use sigma_malloc.Links.Chain.{Chain}
use sigma_malloc.Remote.Nodes.{NodeList}
use sigma_malloc.Large.{Larges, large_header_size}
use sigma_malloc.Leaks.{is_ptr_in_freelist}
use sigma_malloc.Leaks.Nodes.{map_list}
use sigma_malloc.Leaks.Slabs.{View, is_tracking, is_leak}

-- The metadata of a large allocation, by its node
abbrev pub meta_at : Larges → Ptr → Ptr
meta_at s node = s.meta_of (sub_size (s.nodes node).user large_header_size)

-- An object is in use, when the free objects of each slab and the nodes of the large allocations are these lists.
abbrev pub in_use :
    Larges → (frees : Ptr → List Ptr) → (nodes : List Ptr) → (slab user : Ptr) → Bool
in_use s frees nodes slab user =
    not (has user (frees slab)) && not (has user nodes || has user (map_list (meta_at s) nodes))

is_ptr_in_freelist-has :
    (f : ℕ) (next : Ptr → Ptr) (head p : Ptr) (xs : List Ptr)
    → NodeList next head xs
    → length xs < f
    → is_ptr_in_freelist f next head p ≡ has p xs
unfolding is_ptr_in_freelist
is_ptr_in_freelist-has zero next head p xs c l = absurd (omega arith)
is_ptr_in_freelist-has (suc f) next head p [] c l = rw c refl
is_ptr_in_freelist-has (suc f) next head p (x ∷ xs) (e, n, rest) l =
    let ih = is_ptr_in_freelist-has f next (next head) p xs rest (omega arith) in
    rw (==_ne head null n, ih, sym e)
      (elim (eq_cases p head) [
        | inl z ↦ rw (z, ==_refl head) refl
        | inr d ↦ rw (==_ne p head d, ==_ne head p (λ z. d (sym z))) refl
      ])

is_tracking-has :
    (f : ℕ) (s : Larges) (node q user : Ptr) (ks : List Ptr)
    → Chain (λ k. k) s.links q node ks
    → length ks < f
    → is_tracking f node user s ≡ (has user ks || has user (map_list (meta_at s) ks))
unfolding is_tracking
is_tracking-has zero s node q user ks c l = absurd (omega arith)
is_tracking-has (suc f) s node q user [] c l = rw c refl
is_tracking-has (suc f) s node q user (k ∷ ks) (e, n, back, rest) l =
    let ih = is_tracking-has f s (s.links.next node) node user ks rest (omega arith) in
    rw (==_ne node null n, ih, sym e)
      (either node (meta_at s node) user (has user ks) (has user (map_list (meta_at s) ks)))
  where
    either :
        (a m u : Ptr) (b d : Bool)
        → (if a == u || m == u then true else b || d) ≡ ((u == a || b) || (u == m || d))
    either a m u b d = ground arith

-- The tests of the code agree with this.
pub is_leak-in_use :
    (v : View) (frees : Ptr → List Ptr) (ks : List Ptr) (slab user : Ptr)
    → NodeList v.slabs.nodes (v.slabs.slabs slab).free_list (frees slab)
    → length (frees slab) < v.fuel
    → Chain (λ k. k) v.larges.links null v.larges.head ks
    → length ks < v.fuel
    → is_leak v slab user ≡ in_use v.larges frees ks slab user
is_leak-in_use v frees ks slab user c l d k =
    rw
      (
        is_ptr_in_freelist-has v.fuel v.slabs.nodes (v.slabs.slabs slab).free_list user (frees slab)
            c l,
        is_tracking-has v.fuel v.larges v.larges.head null user ks d k,
      )
      refl
