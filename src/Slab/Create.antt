-- ===== src/Slab/Create.antt =====
-- Size classes, and the free list of a new slab.
use sigma_malloc.Base.{
  ℕ, zero, suc, ◌+◌, ◌-◌, ◌*◌, ◌/◌, ◌%◌, ◌≤◌, ◌<◌, ◌≡◌, refl, ap, ◌≢◌, ◌⊎◌, inl, inr, true, false,
  none, some, List, [], ◌∷◌, arith, leb, ==_refl, ==_ne, Bool-cases, order_cases, eq_cases, length,
  has, Nodup,
}
use native.Mathlib.Nat.{div-mul-le_self, div-add-mod', mod-lt}
use sigma_malloc.Base.Word.{align_up-AlignedUp}
use sigma_malloc.Links.{Ptr, null, update}
use sigma_malloc.Slab.{
  Slabs, num_caches, size_class, cache_from, get_cache, slab_size, slab_header_size, slot_size,
  user_offset, carve, carve_loop, make_slab,
}

-- The caches have the sizes of the table.
abbrev pub HasClasses : Slabs → Type 0
HasClasses s = (i : ℕ) → i < num_caches → (s.caches i).obj_size ≡ size_class i

-- The first cache that is large enough.
pub record Chosen (size i : ℕ) : Type 0 where
  pub in_range : i < num_caches
  pub fits : size ≤ size_class i
  pub least : (j : ℕ) → j < i → size_class j < size

cache_from-Chosen :
    (left i size : ℕ) (s : Slabs)
    → HasClasses s
    → left + i ≡ num_caches
    → ((j : ℕ) → j < i → size_class j < size)
    → ((k : ℕ) × (cache_from left i size s.caches ≡ some k) × Chosen size k)
      ⊎ ((cache_from left i size s.caches ≡ none)
          × ((j : ℕ) → j < num_caches → size_class j < size))
unfolding cache_from
cache_from-Chosen zero i size s h e below = inr (refl, λ j l. below j (omega arith))
cache_from-Chosen (suc left) i size s h e below = elim (order_cases (size_class i) size) [
  | inl l ↦
      let small : leb size (s.caches i).obj_size ≡ false = ground (arith, h i (omega arith)) in
      rw small (
        cache_from-Chosen left (i + 1) size s h (omega arith)
          (λ j b. elim (eq_cases j i) [ inl q ↦ rw q l | inr n ↦ below j (omega arith) ]))
  | inr g ↦
      let large : leb size (s.caches i).obj_size ≡ true = ground (arith, h i (omega arith)) in
      rw large (inl (i, refl, record { in_range = omega arith; fits = g; least = below }))
]

pub size_class_bound : (k : ℕ) → (0 < size_class k) × (size_class k ≤ 1024)
unfolding size_class
size_class_bound k = ground arith

-- A size up to 1024 gets the smallest size class that holds it, and a larger one gets none.
pub get_cache-Chosen :
    (size : ℕ) (s : Slabs)
    → HasClasses s
    → (size ≤ 1024 → (k : ℕ) × (get_cache size s ≡ some k) × Chosen size k)
      × (1024 < size → get_cache size s ≡ none)
unfolding get_cache size_class
get_cache-Chosen size s h =
    let r = cache_from-Chosen num_caches 0 size s h refl (λ j l. absurd (omega arith)) in
    (
      λ l. elim r [ inl x ↦ x | inr (e, b) ↦ absurd (omega (arith, b 7 (omega arith))) ],
      λ g. elim r [ inl (k, e, c) ↦ absurd (too_small g k c) | inr (e, b) ↦ e ],
    )
  where
    too_small : 1024 < size → (k : ℕ) → Chosen size k → ⊥
    too_small g k c = omega (arith, (size_class_bound k).1, c.fits)

-- From `p` the `next` fields of free objects lead through the list to NULL.
abbrev pub IsFreeList : (Ptr → Ptr) → Ptr → List Ptr → Type 0
IsFreeList next p [] = p ≡ null
IsFreeList next p (q ∷ qs) = (p ≡ q) × (p ≢ null) × IsFreeList next (next p) qs

-- The user pointers of the first `n` slots, the last one first.
abbrev pub slots : (start slot n : ℕ) → List Ptr
slots start slot zero = []
slots start slot (suc n) = (start + n * slot + user_offset) ∷ slots start slot n

-- A write to an object that is not in a list leaves the list as it is.
pub IsFreeList-update :
    (next : Ptr → Ptr) (node v p : Ptr) (qs : List Ptr)
    → has node qs ≡ false
    → IsFreeList next p qs
    → IsFreeList (update next node v) p qs
IsFreeList-update next node v p [] new f = f
IsFreeList-update next node v p (q ∷ qs) new (e, n, f) =
    let ne : p ≢ node = λ x. absurd (ground (arith, x, e, new)) in
    (e, n, rw (==_ne p node ne) (IsFreeList-update next node v (next p) qs (ground (arith, new)) f))

below_next :
    (start slot n q : ℕ)
    → 0 < slot
    → has q (slots start slot n) ≡ true
    → q < start + n * slot + user_offset
below_next start slot zero q pos h = absurd (ground arith)
below_next start slot (suc n) q pos h =
    let step : suc n * slot ≡ n * slot + slot = grind arith in
    elim (eq_cases q (start + n * slot + user_offset)) [
      | inl e ↦ omega arith
      | inr ne ↦ let l = below_next start slot n q pos (ground (arith, h, ne)) in omega arith
    ]

next_is_new :
    (start slot n : ℕ)
    → 0 < slot
    → has (start + n * slot + user_offset) (slots start slot n) ≡ false
next_is_new start slot n pos =
    elim (Bool-cases (has (start + n * slot + user_offset) (slots start slot n))) [
      | inl t ↦
          absurd (omega (arith, below_next start slot n (start + n * slot + user_offset) pos t))
      | inr f ↦ f
    ]

-- After `i` rounds the free list holds the first `i` slots.
carve_loop-IsFreeList :
    (r i m slab start slot : ℕ) (st : Ptr × Slabs)
    → i + r ≡ m
    → 0 < slot
    → IsFreeList st.1.nodes st.0 (slots start slot i)
    → IsFreeList
        (carve_loop r i slab start slot st).1.nodes
        (carve_loop r i slab start slot st).0
        (slots start slot m)
unfolding carve_loop carve
carve_loop-IsFreeList zero i m slab start slot st e pos f =
    let same : m ≡ i = omega arith in rw same f
carve_loop-IsFreeList (suc r) i m slab start slot (head, s) e pos f =
    let node = start + i * slot + user_offset in
    let g : i + 1 ≡ suc i = omega arith in
    carve_loop-IsFreeList r (i + 1) m slab start slot (carve slab node (head, s)) (omega arith) pos
      (rw g (
        refl,
        omega arith,
        rw ==_refl (
            IsFreeList-update s.nodes node head head (slots start slot i)
              (next_is_new start slot i pos) f),
      ))

-- A slab whose free objects are those of a list: the others are in use.
pub record IsSlab (s : Slabs) (slab : Ptr) (free : List Ptr) : Type 0 where
  pub chain : IsFreeList s.nodes (s.slabs slab).free_list free
  pub nodup : Nodup free
  pub count : (s.slabs slab).used + length free ≡ (s.slabs slab).capacity

length-slots : (start slot n : ℕ) → length (slots start slot n) ≡ n
length-slots start slot zero = refl
length-slots start slot (suc n) = omega (arith, length-slots start slot n)

Nodup-slots : (start slot n : ℕ) → 0 < slot → Nodup (slots start slot n)
Nodup-slots start slot zero pos = tt
Nodup-slots start slot (suc n) pos = (next_is_new start slot n pos, Nodup-slots start slot n pos)

-- Each of the first `n` slots holds `size` bytes, from an address that is a multiple of 16, inside the region
-- and behind the slab's own header.
pub record InRegion (region size p : ℕ) : Type 0 where
  pub behind_header : region + slab_header_size + user_offset ≤ p
  pub inside : p + size ≤ region + slab_size
  pub aligned : p % 16 ≡ 0

slot_size_lem :
    (size : ℕ)
    → size ≤ 1024
    → (user_offset + size ≤ slot_size size) × (slot_size size % 16 ≡ 0) × (slot_size size ≤ 1072)
slot_size_lem size h =
    let u = align_up-AlignedUp size 16 (4, omega arith, refl) (omega arith) in
    (omega (arith, u.above), omega (arith, u.multiple), omega (arith, u.near))

slots-InRegion :
    (region size n p : ℕ)
    → region % 16 ≡ 0
    → size ≤ 1024
    → n * slot_size size ≤ slab_size - slab_header_size
    → has p (slots (region + slab_header_size) (slot_size size) n) ≡ true
    → InRegion region size p
slots-InRegion region size zero p al small room h = absurd (ground arith)
slots-InRegion region size (suc n) p al small room h =
    let (big, mult, cap) = slot_size_lem size small in
    let slot = slot_size size in
    let step : suc n * slot ≡ n * slot + slot = grind arith in
    let e : n * slot ≡ n * (slot / 16 * 16) = ap (λ x. n * x) (omega arith) in
    let m : n * slot % 16 ≡ 0 = omega arith in
    elim (eq_cases p (region + slab_header_size + n * slot + user_offset)) [
      | inl e ↦ record { behind_header = omega arith; inside = omega arith; aligned = omega arith }
      | inr ne ↦ slots-InRegion region size n p al small (omega arith) (ground (arith, h, ne))
    ]

abbrev pub capacity_of : ℕ → ℕ
capacity_of size = (slab_size - slab_header_size) / slot_size size

-- Every size class has at least one object in a slab.
pub capacity_pos : (size : ℕ) → size ≤ 1024 → 0 < capacity_of size
capacity_pos size small =
    let slot = slot_size size in
    let (big, mult, cap) = slot_size_lem size small in
    let pos : 0 < slot = omega arith in
    elim (eq_cases (capacity_of size) 0) [
      | inl z ↦
          let no : capacity_of size * slot ≡ 0 * slot = ap (λ x. x * slot) z in
          absurd (
            omega (
              arith,
              div-add-mod' (slab_size - slab_header_size) slot,
              mod-lt (slab_size - slab_header_size) pos,
            ))
      | inr ne ↦ omega arith
    ]

-- For a size class of at most 1024, a region that starts at a multiple of 16 becomes a slab in which every
-- object is free. It has at least one
-- object, no two objects share a user pointer, and each one has room for its size class, is aligned to 16
-- bytes and lies in the region, behind the header of the slab.
pub make_slab-IsSlab :
    (arena extent region cache : ℕ) (s : Slabs)
    → (s.caches cache).obj_size ≤ 1024
    → region % 16 ≡ 0
    → (free : List Ptr) × IsSlab (make_slab arena extent region cache s) region free
      × (0 < length free)
      × ((p : Ptr) → has p free ≡ true → InRegion region (s.caches cache).obj_size p)
unfolding make_slab
make_slab-IsSlab arena extent region cache s small al =
    let size = (s.caches cache).obj_size in
    let slot = slot_size size in
    let (big, mult, cap) = slot_size_lem size small in
    let pos : 0 < slot = omega arith in
    let n = capacity_of size in
    let start = region + slab_header_size in
    let has_object : 0 < n = capacity_pos size small in
    (
      slots start slot n,
      record {
        chain =
            rw ==_refl
              (carve_loop-IsFreeList n 0 n region start slot (null, s) (omega arith) pos refl);
        nodup = Nodup-slots start slot n pos;
        count = rw ==_refl (omega (arith, length-slots start slot n));
      },
      omega (arith, length-slots start slot n, has_object),
      λ p h.
          slots-InRegion region size n p al small
            (div-mul-le_self (slab_size - slab_header_size) slot) h,
    )
