-- ===== src/ArenaAllocator/Laws.antt =====
-- Allocation from an arena: where the object lies, and when there is none.
use sigma_malloc.Base.{
  ℕ, ◌+◌, ◌-◌, ◌%◌, ◌≤◌, ◌<◌, ◌≡◌, refl, sym, ap, ◌∙◌, ◌≢◌, ◌⊎◌, inl, inr, Bool, true, false, not,
  ◌&&◌, ◌||◌, arith, ltb, ◌==◌, if◌then◌else◌, lt→ltb, ==_refl, ==_ne, order_cases, eq_cases,
}
use sigma_malloc.Base.Word.{
  word, size_max, add_size, sub_size, align_up, alignment_is_valid, IsAlignment,
  IsAlignment-lt-word, alignment_is_valid_iff, AlignedUp, align_up-AlignedUp, align_up_wraps,
}
use sigma_malloc.Links.{Ptr, null, update}
use sigma_malloc.Header.{Site}
use sigma_malloc.Vtable.{World, Allocator, max_align, alloc_aligned_debug}
use sigma_malloc.ArenaAllocator.{
  Block, Arena, Result, block_header_size, data_of, new_block, set_used, alloc_in_new_block,
  fits_in, alloc_internal,
}

-- If the padding that is computed fits in what is left of the block, nothing has wrapped around.
padding_fits :
    (x a left : ℕ)
    → x + left < word
    → IsAlignment a
    → sub_size (align_up x a) x ≤ left
    → AlignedUp x a (align_up x a) × (sub_size (align_up x a) x ≡ align_up x a - x)
padding_fits x a left h al p =
    let (pos, small) = IsAlignment-lt-word al in
    elim (order_cases (x + (a - 1)) word) [
      | inl l ↦ let u = align_up-AlignedUp x a al l in (u, omega (arith, u.above, u.near))
      | inr g ↦ let z = align_up_wraps x a (omega arith) al g in absurd (omega arith)
    ]

-- A block's header is consistent, and its bytes lie in the address space.
pub record IsBlock (p : Ptr) (b : Block) : Type 0 where
  pub not_null : p ≢ null
  pub bounded : b.used ≤ b.capacity
  pub in_word : p + block_header_size + b.capacity < word

abbrev pub head : {A : Type 0} → Arena A → Block
head ar = ar.store ar.blocks

-- The arena has no block yet, or its first block is consistent.
abbrev pub IsArena : {A : Type 0} → Arena A → Type 0
IsArena ar = (ar.blocks ≡ null) ⊎ IsBlock ar.blocks (head ar)

-- A parent returns NULL or memory that lies in the address space.
abbrev pub Allocates : {A : Type 0} → Allocator A → Type 0
Allocates {A} t =
    (size : ℕ) (s : Site) (w : World A)
    → ((alloc_aligned_debug t size max_align s w).0 ≡ null)
      ⊎ ((alloc_aligned_debug t size max_align s w).0 + size < word)

-- The object at `r.0` is aligned, starts at `low` or behind it, and ends at the new end of the used part of
-- the first block, which is consistent.
pub record Carved {A : Type 0} (low size alignment : ℕ) (r : Result A) : Type 0 where
  pub aligned : r.0 % alignment ≡ 0
  pub above : low ≤ r.0
  pub end : r.0 + size ≡ r.1.blocks + block_header_size + (head (r.1)).used
  pub block : IsBlock r.1.blocks (head (r.1))

abbrev pub capacity_for : {A : Type 0} → ℕ → Arena A → ℕ
capacity_for n ar = if ltb ar.block_size n then n else ar.block_size

-- What a call of `arena_alloc_internal` comes to.
pub data Outcome {A : Type 0} (size alignment : ℕ) (s : Site) (ar : Arena A) (w : World A)
    (r : Result A) : Type 0 where
  overflow : size_max - (alignment - 1) < size → r ≡ (null, ar, w) → Outcome size alignment s ar w r
  too_large :
      size_max - block_header_size < capacity_for (size + (alignment - 1)) ar
      → r ≡ (null, ar, w)
      → Outcome size alignment s ar w r
  parent_failed :
      (c : ℕ)
      → (alloc_aligned_debug ar.parent c max_align s w).0 ≡ null
      → r ≡ (null, ar, (alloc_aligned_debug ar.parent c max_align s w).1)
      → Outcome size alignment s ar w r
  same_block :
      r.1.blocks ≡ ar.blocks
      → r.2 ≡ w
      → ((p : Ptr) → p ≢ ar.blocks → r.1.store p ≡ ar.store p)
      → (head (r.1)).next ≡ (head ar).next
      → Carved (ar.blocks + block_header_size + (head ar).used) size alignment r
      → Outcome size alignment s ar w r
  fresh_block :
      ((p : Ptr) → p ≢ r.1.blocks → r.1.store p ≡ ar.store p)
      → (head (r.1)).next ≡ ar.blocks
      → Carved (r.1.blocks + block_header_size) size alignment r
      → Outcome size alignment s ar w r

module _ {A : Type 0} (size alignment : ℕ) (s : Site) (ar : Arena A) (w : World A)
    (power_of_two : IsAlignment alignment) (no_overflow : size + (alignment - 1) < word) where
  abbrev b : Block
  b = head ar

  abbrev current : ℕ
  current = add_size (data_of ar.blocks) b.used

  abbrev aligned : ℕ
  aligned = align_up current alignment

  in_same_block :
      IsBlock ar.blocks b
      → fits_in size alignment ar.blocks b ≡ true
      → Outcome size alignment s ar w (
        aligned,
        set_used ar.blocks (add_size b.used (add_size (sub_size aligned current) size)) ar,
        w,
      )
  unfolding set_used fits_in
  in_same_block i f =
      let c : current ≡ ar.blocks + block_header_size + b.used =
        omega (arith, i.in_word, i.bounded) in
      let l : sub_size b.capacity b.used ≡ b.capacity - b.used =
        omega (arith, i.in_word, i.bounded) in
      let p : sub_size aligned current ≤ b.capacity - b.used = ground (arith, f, l) in
      let (u, d) =
        padding_fits current alignment (b.capacity - b.used) (omega (arith, i.in_word, i.bounded))
          power_of_two p in
      let f2 : size ≤ sub_size (sub_size b.capacity b.used) (sub_size aligned current) =
        ground (arith, f) in
      let q : size ≤ b.capacity - b.used - (aligned - current) =
        omega (arith, i.in_word, i.bounded) in
      let new : add_size b.used (add_size (sub_size aligned current) size)
          ≡ b.used + (aligned - current) + size =
        omega (arith, i.in_word, i.bounded) in
      same_block refl refl (λ x n. rw (==_ne x ar.blocks n) refl) (rw ==_refl refl)
        (record {
          aligned = u.multiple;
          above = omega (arith, u.above);
          end = rw ==_refl (omega (arith, new, u.above));
          block = rw ==_refl (record {
            not_null = i.not_null;
            bounded = omega (arith, new, i.bounded);
            in_word = i.in_word;
          });
        })

  -- What `arena_new_block` leaves behind when the parent has given a block at `p`.
  abbrev with_new_block : ℕ → Ptr → Arena A
  with_new_block c p = record ar {
    blocks = p;
    store = update ar.store p (record {
      next = ar.blocks;
      allocation_size = block_header_size + c;
      used = 0;
      capacity = c;
    });
  }

  abbrev c : ℕ
  c = capacity_for (size + (alignment - 1)) ar

  module _ (g : c ≤ size_max - block_header_size) (p : Ptr) (w1 : World A)
      (e : alloc_aligned_debug ar.parent (block_header_size + c) max_align s w ≡ (p, w1)) where
    below : ltb (size_max - block_header_size) c ≡ false
    below = ground arith

    new_block-null : p ≡ null → new_block (size + (alignment - 1)) s ar w ≡ (null, ar, w1)
    unfolding new_block
    new_block-null z = rw (below, e, z) refl

    new_block-some :
        p ≢ null → new_block (size + (alignment - 1)) s ar w ≡ (p, with_new_block c p, w1)
    unfolding new_block
    new_block-some n = rw (below, e, ==_ne p null n) refl

    failed : p ≡ null → alloc_in_new_block size alignment s ar w ≡ (null, ar, w1)
    unfolding alloc_in_new_block
    failed z = rw (new_block-null z) refl

    in_given_block :
        p ≢ null
        → p + (block_header_size + c) < word
        → Outcome size alignment s ar w (alloc_in_new_block size alignment s ar w)
    unfolding alloc_in_new_block set_used
    in_given_block n room =
        let (pos, small) = IsAlignment-lt-word power_of_two in
        let large : size + (alignment - 1) ≤ c = ground arith in
        let d : data_of p ≡ p + block_header_size = omega arith in
        let u : AlignedUp (p + block_header_size) alignment
            (align_up (p + block_header_size) alignment) =
          align_up-AlignedUp (p + block_header_size) alignment power_of_two (omega arith) in
        let r = align_up (p + block_header_size) alignment in
        let new : add_size (sub_size r (p + block_header_size)) size
            ≡ r - (p + block_header_size) + size =
          omega (arith, u.above, u.near) in
        rw (new_block-some n) (
          rw (==_ne p null n, d, new)
            (fresh_block (λ x m. rw (==_ne x p m) refl) (rw ==_refl refl)
              (record {
                aligned = u.multiple;
                above = u.above;
                end = rw ==_refl (omega (arith, u.above));
                block = rw ==_refl (record {
                  not_null = n;
                  bounded = omega (arith, u.above, u.near);
                  in_word = omega arith;
                });
              })))

  no_room :
      size_max - block_header_size < c → alloc_in_new_block size alignment s ar w ≡ (null, ar, w)
  unfolding alloc_in_new_block new_block
  no_room l = rw (lt→ltb (size_max - block_header_size) c l) refl

  in_new_block :
      Allocates ar.parent → Outcome size alignment s ar w (alloc_in_new_block size alignment s ar w)
  in_new_block parent = elim (order_cases (size_max - block_header_size) c) [
    | inl l ↦ too_large l (no_room l)
    | inr g ↦ settled g (got.0) (got.1) refl
  ]
    where
      got : Ptr × World A
      got = alloc_aligned_debug ar.parent (block_header_size + c) max_align s w

      settled :
          c ≤ size_max - block_header_size
          → (p : Ptr) (w1 : World A) → got ≡ (p, w1)
          → Outcome size alignment s ar w (alloc_in_new_block size alignment s ar w)
      settled g p w1 e =
          let e0 : got.0 ≡ p = ap (λ (x : Ptr × World A). x.0) e in
          let e1 : got.1 ≡ w1 = ap (λ (x : Ptr × World A). x.1) e in
          elim (eq_cases p null) [
            | inl z ↦
                parent_failed (block_header_size + c) (e0 ∙ z) (failed g p w1 e z ∙ rw e1 refl)
            | inr n ↦
                let room : p + (block_header_size + c) < word =
                  elim (parent (block_header_size + c) s w) [
                    | inl z ↦ absurd (n (sym e0 ∙ z))
                    | inr l ↦ omega (arith, e0, l)
                  ] in
                in_given_block g p w1 e n room
          ]

-- A call for a positive size and a valid alignment returns NULL only if the size does not fit in a word, the
-- block would not, or the parent fails, and then no block changes. In every other case the object is aligned,
-- lies wholly in the first block and behind everything that this block gave before, and no other block
-- changes; a new block becomes the first and points to the ones before it.
pub alloc_internal-Outcome :
    {A : Type 0} (self size alignment : ℕ) (s : Site) (ar : Arena A) (w : World A)
    → self ≢ null
    → 0 < size
    → size < word
    → IsAlignment alignment
    → Allocates ar.parent
    → IsArena ar
    → Outcome size alignment s ar w (alloc_internal self size alignment s ar w)
unfolding alloc_internal
alloc_internal-Outcome {A = A} self size alignment s ar w has_self pos in_word al parent v =
    let (apos, small) = IsAlignment-lt-word al in
    let valid : (self == null || size == 0 || not (alignment_is_valid alignment)) ≡ false =
      ground (arith, (alignment_is_valid_iff alignment small).1 al) in
    elim (order_cases (size_max - (alignment - 1)) size) [
      | inl l ↦ overflow l (rw (valid, lt→ltb (size_max - (alignment - 1)) size l) refl)
      | inr g ↦
          let t : ltb (size_max - (alignment - 1)) size ≡ false = ground arith in
          let n : size + (alignment - 1) < word = omega arith in
          rw (valid, t)
            (placed n (not (ar.blocks == null) && fits_in size alignment ar.blocks (head ar)) refl)
    ]
  where
    aligned : ℕ
    aligned = align_up (add_size (data_of ar.blocks) (head ar).used) alignment

    placed :
        size + (alignment - 1) < word
        → (fits : Bool)
        → (not (ar.blocks == null) && fits_in size alignment ar.blocks (head ar)) ≡ fits
        → Outcome size alignment s ar w (
            if fits
            then (
              aligned,
              set_used ar.blocks
                  (add_size (head ar).used (
                    add_size (sub_size aligned (add_size (data_of ar.blocks) (head ar).used)) size))
                  ar,
              w,
            )
            else alloc_in_new_block size alignment s ar w)
    placed n false f = in_new_block size alignment s ar w al n parent
    placed n true f = elim v [
      | inl z ↦ absurd (ground (arith, f, z))
      | inr i ↦ in_same_block size alignment s ar w al n i (ground (arith, f))
    ]
