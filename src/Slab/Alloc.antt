-- ===== src/Slab/Alloc.antt =====
-- `slab_alloc`: which object it gives, and when there is none.
use sigma_malloc.Base.{
  ℕ, zero, suc, ◌+◌, ◌-◌, ◌*◌, ◌/◌, ◌%◌, ◌≤◌, ◌<◌, ◌≡◌, refl, ap, ◌∙◌, ◌≢◌, ◌⊎◌, inl, inr, false,
  Option, none, some, List, [], ◌∷◌, arith, ◌==◌, if◌then◌else◌, ==_refl, ==_ne, Bool-cases,
  order_cases, eq_cases, length, has,
}
use sigma_malloc.Links.{Ptr, null, Links, slab_push, slab_remove}
use sigma_malloc.Header.{slab_magic, alloc_header_from_user}
use sigma_malloc.Slab.{
  Slabs, Cache, Regions, user_offset, carve, carve_loop, num_caches, slab_size, slab_header_size,
  slot_size, get_cache, make_slab, take_object, alloc_from, push_partial, push_full, remove_partial,
  slab_create, slab_alloc,
}
use sigma_malloc.Slab.Create.{
  IsSlab, HasClasses, Chosen, size_class_bound, get_cache-Chosen, capacity_pos, make_slab-IsSlab,
}
use sigma_malloc.Slab.Objects.{take_object-IsSlab}

-- The object at `p` is in use, in a slab whose free objects are those of a list.
pub record InUse (s : Slabs) (p slab : Ptr) (free : List Ptr) : Type 0 where
  pub not_null : p ≢ null
  pub slab_valid : IsSlab s slab free
  pub apart : has p free ≡ false
  pub slab_of : s.slab_of p ≡ slab
  pub magic : (s.headers (alloc_header_from_user p)).magic ≡ slab_magic

alloc_from-InUse :
    (cache slab size p : ℕ) (s : Slabs) (free : List Ptr)
    → IsSlab s slab (p ∷ free)
    → ((alloc_from cache slab size s).0 ≡ p) × InUse (alloc_from cache slab size s).1 p slab free
unfolding alloc_from push_full remove_partial
alloc_from-InUse cache slab size p s free i =
    let (e, v, o, m) = take_object-IsSlab s slab size p free i in
    let s1 = (take_object slab size s).1 in
    (
      e,
      elim (Bool-cases ((s1.slabs slab).used == (s1.slabs slab).capacity)) [
        | inl t ↦ rw t (record {
          not_null = λ z. i.chain.1 (i.chain.0 ∙ z);
          slab_valid = record { chain = v.chain; nodup = v.nodup; count = v.count };
          apart = i.nodup.0;
          slab_of = o;
          magic = m;
        })
        | inr f ↦ rw f (record {
          not_null = λ z. i.chain.1 (i.chain.0 ∙ z);
          slab_valid = v;
          apart = i.nodup.0;
          slab_of = o;
          magic = m;
        })
      ],
    )

-- The first partial slab of each cache has a free object.
abbrev pub HasPartials : Slabs → Type 0
HasPartials s =
    (k : ℕ)
    → k < num_caches
    → ((s.caches k).partial ≡ null)
      ⊎ ((p : Ptr) × (free : List Ptr) × IsSlab s (s.caches k).partial (p ∷ free))

-- The arena gives regions that start at a multiple of 16, and not at 0.
abbrev pub GivesRegions : {R : Type 0} → Regions R → Type 0
GivesRegions {R} regions =
    (r : R) (region extent : Ptr)
    → (regions.alloc_region r).0 ≡ some (region, extent)
    → (region ≢ null) × (region % 16 ≡ 0)

-- Where a slab stands after one of its objects was taken: if that was the last one, the slab is the first of the
-- full list and `left` the first of the partial list, and else the slab is still the first of the partial list.
pub record Filed (k slab left full : ℕ) (s' : Slabs) : Type 0 where
  pub partial_list :
      (s'.caches k).partial
      ≡ (if (s'.slabs slab).used == (s'.slabs slab).capacity then left else slab)
  pub full_list :
      (s'.caches k).full ≡ (if (s'.slabs slab).used == (s'.slabs slab).capacity then slab else full)

alloc_from-Filed :
    (k slab size : ℕ) (s : Slabs)
    → (s.caches k).partial ≡ slab
    → Filed k slab (slab_remove slab slab s.links).0 (s.caches k).full (alloc_from k slab size s).1
unfolding alloc_from push_full remove_partial take_object slab_push
alloc_from-Filed k slab size s e =
    elim (Bool-cases (
      ((take_object slab size s).1.slabs slab).used
      == ((take_object slab size s).1.slabs slab).capacity)) [
        | inl t ↦ rw t (record {
          partial_list = rw (==_refl k, t, e) refl;
          full_list = rw (==_refl k, t) refl;
        })
        | inr t ↦ rw t (record { partial_list = rw t e; full_list = rw t refl })
      ]

carve_loop-caches :
    (n i slab start slot : ℕ) (h : Ptr × Slabs)
    → (carve_loop n i slab start slot h).1.caches ≡ h.1.caches
unfolding carve_loop carve
carve_loop-caches zero i slab start slot h = refl
carve_loop-caches (suc n) i slab start slot h =
    carve_loop-caches n (i + 1) slab start slot (carve slab (start + i * slot + user_offset) h)

single-slab_remove :
    (p : Ptr) (l : Links) → l.prev p ≡ null → l.next p ≡ null → (slab_remove p p l).0 ≡ null
unfolding slab_remove
single-slab_remove p l e f = rw (e, f, ==_refl p) f

new_slab-Filed :
    (arena extent region k size : ℕ) (s : Slabs)
    → (s.caches k).partial ≡ null
    → Filed k region null
        (s.caches k).full
        (alloc_from k region size (push_partial k region (make_slab arena extent region k s))).1
unfolding make_slab push_partial slab_push
new_slab-Filed arena extent region k size s e =
    let m = make_slab arena extent region k s in
    let same : m.caches k ≡ s.caches k = made in
    let at_front : ((push_partial k region m).caches k).partial ≡ region = front m in
    let full_same : ((push_partial k region m).caches k).full ≡ (s.caches k).full =
      unpushed m ∙ ap (λ (c : Cache). c.full) same in
    let last : (slab_remove region region (push_partial k region m).links).0 ≡ null =
      alone m (ap (λ (c : Cache). c.partial) same ∙ e) in
    rw (last, full_same) at (alloc_from-Filed k region size (push_partial k region m) at_front)
  where
    made : (make_slab arena extent region k s).caches k ≡ s.caches k
    made = ap (λ (f : ℕ → Cache). f k) (carve_loop-caches _ _ _ _ _ _)

    front : (m : Slabs) → ((push_partial k region m).caches k).partial ≡ region
    front m = rw (==_refl k) refl

    unpushed : (m : Slabs) → ((push_partial k region m).caches k).full ≡ (m.caches k).full
    unpushed m = rw (==_refl k) refl

    alone :
        (m : Slabs)
        → (m.caches k).partial ≡ null
        → (slab_remove region region (push_partial k region m).links).0 ≡ null
    alone m z =
        let l = (push_partial k region m).links in
        single-slab_remove region l (rw (z, ==_refl region) refl) (rw (z, ==_refl region) refl)

-- What a call of `slab_alloc` comes to.
pub data Given {R : Type 0} (regions : Regions R) (size : ℕ) (s : Slabs) (r : R)
    (res : Ptr × Slabs × R) : Type 0 where
  too_large : 1024 < size → res ≡ (null, s, r) → Given regions size s r res
  no_region :
      (k : ℕ)
      → Chosen size k
      → (s.caches k).partial ≡ null
      → (regions.alloc_region r).0 ≡ none
      → res ≡ (null, s, (regions.alloc_region r).1)
      → Given regions size s r res
  from_partial :
      (k : ℕ) (free : List Ptr)
      → Chosen size k
      → (s.caches k).partial ≢ null
      → InUse res.1 res.0 (s.caches k).partial free
      → Filed k
          (s.caches k).partial
          (slab_remove (s.caches k).partial (s.caches k).partial s.links).0
          (s.caches k).full
          res.1
      → res.2 ≡ r
      → Given regions size s r res
  from_region :
      (k region extent : ℕ) (free : List Ptr)
      → Chosen size k
      → (s.caches k).partial ≡ null
      → (regions.alloc_region r).0 ≡ some (region, extent)
      → res.2 ≡ (regions.alloc_region r).1
      → InUse res.1 res.0 region free
      → Filed k region null (s.caches k).full res.1
      → Given regions size s r res

module _ {R : Type 0} (regions : Regions R) (arena size : ℕ) (s : Slabs) (r : R) (h : HasClasses s)
    (v : HasPartials s) (g : GivesRegions regions) where
  module _ (k : ℕ) (found : get_cache size s ≡ some k) (c : Chosen size k) where
    in_partial :
        (p : Ptr) (free : List Ptr)
        → (s.caches k).partial ≢ null
        → IsSlab s (s.caches k).partial (p ∷ free)
        → Given regions size s r (slab_alloc regions arena size s r)
    unfolding slab_alloc
    in_partial p free n i =
        let (e, u) = alloc_from-InUse k (s.caches k).partial size p s free i in
        rw (slab_alloc, found, ==_ne (s.caches k).partial null n)
          (from_partial k free c n (rw e u) (alloc_from-Filed k (s.caches k).partial size s refl)
            refl)

    none_given :
        (s.caches k).partial ≡ null
        → (regions.alloc_region r).0 ≡ none
        → slab_alloc regions arena size s r ≡ (null, s, (regions.alloc_region r).1)
    unfolding slab_alloc slab_create
    none_given z e = rw (slab_alloc, found, z, slab_create, e) refl

    pushed-IsSlab :
        (s' : Slabs) (region : Ptr) (free : List Ptr)
        → IsSlab s' region free
        → IsSlab (push_partial k region s') region free
    unfolding push_partial
    pushed-IsSlab s' region free i = record { chain = i.chain; nodup = i.nodup; count = i.count }

    has_capacity : ((slab_size - slab_header_size) / slot_size (s.caches k).obj_size == 0) ≡ false
    has_capacity =
        let l : (s.caches k).obj_size ≤ 1024 =
          omega (arith, h k c.in_range, (size_class_bound k).1) in
        ground (arith, capacity_pos (s.caches k).obj_size l)

    in_new_slab :
        (region extent : Ptr) (free : List Ptr)
        → (s.caches k).partial ≡ null
        → (regions.alloc_region r).0 ≡ some (region, extent)
        → 0 < length free
        → IsSlab (make_slab arena extent region k s) region free
        → Given regions size s r (
          (alloc_from k region size (push_partial k region (make_slab arena extent region k s))).0,
          (alloc_from k region size (push_partial k region (make_slab arena extent region k s))).1,
          (regions.alloc_region r).1,
        )
    in_new_slab region extent [] z e pos i = absurd (omega arith)
    in_new_slab region extent (p ∷ free) z e pos i =
        let s2 = push_partial k region (make_slab arena extent region k s) in
        let (q, u) =
          alloc_from-InUse k region size p s2 free
            (pushed-IsSlab (make_slab arena extent region k s) region (p ∷ free) i) in
        from_region k region extent free c z e refl (rw q u)
          (new_slab-Filed arena extent region k size s z)

    in_region :
        (region extent : Ptr)
        → (s.caches k).partial ≡ null
        → (regions.alloc_region r).0 ≡ some (region, extent)
        → Given regions size s r (slab_alloc regions arena size s r)
    unfolding slab_alloc slab_create
    in_region region extent z e =
        let (n, al) = g r region extent e in
        let l : (s.caches k).obj_size ≤ 1024 =
          omega (arith, h k c.in_range, (size_class_bound k).1) in
        let (free, i, pos, inside) = make_slab-IsSlab arena extent region k s l al in
        rw (slab_alloc, found, z, slab_create, e, has_capacity, ==_ne region null n)
          (in_new_slab region extent free z e pos i)

    in_cache : Given regions size s r (slab_alloc regions arena size s r)
    in_cache = elim (eq_cases (s.caches k).partial null) [
      | inl z ↦ supplied z (regions.alloc_region r).0 refl
      | inr n ↦ elim (v k c.in_range) [
        | inl z ↦ absurd (n z)
        | inr (p, free, i) ↦ in_partial p free n i
      ]
    ]
      where
        supplied :
            (s.caches k).partial ≡ null
            → (got : Option (Ptr × Ptr)) → (regions.alloc_region r).0 ≡ got
            → Given regions size s r (slab_alloc regions arena size s r)
        supplied z none e = no_region k c z e (none_given z e)
        supplied z (some (region, extent)) e = in_region region extent z e

  nothing_fits : get_cache size s ≡ none → slab_alloc regions arena size s r ≡ (null, s, r)
  unfolding slab_alloc
  nothing_fits e = rw (slab_alloc, e) refl

  -- With the size classes of the table, partial slabs that have a free object, and an arena that gives aligned
  -- regions, `slab_alloc` returns NULL and changes no slab if the size is over 1024, or if the smallest class
  -- that holds it has no partial slab and there is no region. Otherwise the object is of this class, comes from
  -- its first partial slab if there is one, which then asks for no region, and else from a new slab, and is no
  -- longer among the free objects; its header names its slab, the slab's count is right, and a slab whose last
  -- object it was moves from the partial to the full list.
  pub slab_alloc-Given : Given regions size s r (slab_alloc regions arena size s r)
  slab_alloc-Given =
      let (fits, none_fit) = get_cache-Chosen size s h in
      elim (order_cases 1024 size) [
        | inl l ↦ too_large l (nothing_fits (none_fit l))
        | inr le ↦ let (k, found, c) = fits le in in_cache k found c
      ]
