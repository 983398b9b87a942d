-- ===== src/Vtable/Laws.antt =====
-- What the helpers of the allocator handle promise where the table lacks the function of their name.
use sigma_malloc.Base.{
  ℕ, ◌+◌, ◌-◌, ◌*◌, ◌/◌, ◌≤◌, ◌<◌, min, ◌≡◌, refl, ap, ◌≢◌, ◌↔◌, inl, inr, true, not, ◌&&◌, none,
  some, arith, ltb, ◌==◌, if◌then◌else◌, ==_ne, Bool-cases, order_cases, eq_cases,
}
use mathlib.Core.Path.{fun_ext}
use native.Mathlib.Nat.{div-add-mod', mod-lt}
use sigma_malloc.Base.Word.{word, size_max, mul_size}
use sigma_malloc.Links.{Ptr, null}
use sigma_malloc.Zero.{Cpu, within}
use sigma_malloc.Zero.Range.{Zeroed}
use sigma_malloc.Zero.Fill.{fill_zero-Zeroed}
use sigma_malloc.Copy.Laws.{ReadsAhead, memcpy_lem}
use sigma_malloc.Vtable.{
  World, Vtable, Call, zero_bytes, copy_bytes, alloc_aligned, realloc_fallback, realloc_aligned,
  overflows, zero_result, calloc_aligned,
}

mul_mono : (a b s : ℕ) → a ≤ b → a * s ≤ b * s
mul_mono a b s h = grind arith

-- The division test rejects exactly the products that do not fit in a word.
pub overflows_iff : (count size : ℕ) → (overflows count size ≡ true) ↔ (word ≤ count * size)
unfolding overflows
overflows_iff count size = (to, from)
  where
    q : ℕ
    q = size_max / size

    to : (not (size == 0) && ltb q count) ≡ true → word ≤ count * size
    to h =
        let pos : 0 < size = ground arith in
        let m : (q + 1) * size ≤ count * size = mul_mono (q + 1) count size (ground (arith, h)) in
        omega (arith, div-add-mod' size_max size, mod-lt size_max pos)

    from : word ≤ count * size → (not (size == 0) && ltb q count) ≡ true
    from h = elim (eq_cases size 0) [
      | inl z ↦ absurd (omega (arith, ap (λ n. count * n) z))
      | inr n ↦ elim (order_cases q count) [
        | inl l ↦ ground (arith, n, l)
        | inr g ↦ absurd (omega (arith, mul_mono count q size g, div-add-mod' size_max size))
      ]
    ]

-- What a call of `calloc` comes to, `r` being its result and `got` what the allocation gave.
pub data Cleared {A : Type 0} (count size : ℕ) (w : World A) (got r : Ptr × World A) : Type 0 where
  too_many : word ≤ count * size → r ≡ (null, w) → Cleared count size w got r
  refused : got.0 ≡ null → r ≡ got → Cleared count size w got r
  cleared :
      count * size < word
      → got.0 ≢ null
      → r.0 ≡ got.0
      → r.1.own ≡ got.1.own
      → Zeroed got.0 (got.0 + count * size) got.1.bytes r.1.bytes
      → Cleared count size w got r

-- In a table without `calloc`, the helper either refuses a product that does not fit in a word, before
-- any call, or it allocates exactly `count * size` bytes, passes a failure on, and otherwise clears
-- these bytes and no others.
pub calloc_aligned-Cleared :
    {A : Type 0} (cpu : Cpu) (t : Vtable A) (count size alignment : ℕ) (w : World A)
    → t.calloc ≡ none
    → Cleared count size w
        (alloc_aligned (some t) (count * size) alignment w)
        (calloc_aligned cpu (some t) count size alignment w)
unfolding calloc_aligned zero_result zero_bytes alloc_aligned
calloc_aligned-Cleared {A = A} cpu t count size alignment w no_calloc =
    elim (Bool-cases (overflows count size)) [
      | inl o ↦ rw o (too_many ((overflows_iff count size).0 o) refl)
      | inr o ↦
          let fits : count * size < word = elim (order_cases (count * size) word) [
            | inl l ↦ l
            | inr g ↦ absurd (ground (arith, o, (overflows_iff count size).1 g))
          ] in
          let exact : mul_size count size ≡ count * size = omega arith in
          rw (o, no_calloc, exact)
            (settled fits (alloc_aligned (some t) (count * size) alignment w))
    ]
  where
    settled :
        count * size < word
        → (got : Ptr × World A) → Cleared count size w got (zero_result cpu (count * size) got)
    settled fits (q, w1) = elim (eq_cases q null) [
      | inl z ↦ rw z (refused refl refl)
      | inr n ↦
          rw (==_ne q null n)
            (cleared fits n refl refl (fill_zero-Zeroed cpu w1.zero_impl q (count * size) w1.bytes))
    ]

-- The state after the `n` bytes at `p` have been copied to a new block.
abbrev pub copied : {A : Type 0} → Ptr → ℕ → Ptr × World A → World A
copied p n (q, w) = record w {
  bytes = λ a. if within q (q + n) a then w.bytes (p + (a - q)) else w.bytes a;
}

-- What the fallback of `realloc` comes to for a block at `p` that is not NULL.
pub data Moved {A : Type 0} (t : Vtable A) (p old_size new_size alignment : ℕ) (w : World A)
    (r : Call A) : Type 0 where
  released :
      (g : Ptr → (size alignment : ℕ) → World A → World A)
      → t.free ≡ some g
      → new_size ≡ 0
      → r ≡ some (null, g p old_size alignment w)
      → Moved t p old_size new_size alignment w r
  kept :
      0 < new_size
      → (alloc_aligned (some t) new_size alignment w).0 ≡ null
      → r ≡ some (null, (alloc_aligned (some t) new_size alignment w).1)
      → Moved t p old_size new_size alignment w r
  moved :
      (g : Ptr → (size alignment : ℕ) → World A → World A)
      → t.free ≡ some g
      → 0 < new_size
      → (alloc_aligned (some t) new_size alignment w).0 ≢ null
      → r
        ≡ some (
          (alloc_aligned (some t) new_size alignment w).0,
          g p old_size alignment
              (copied p (min old_size new_size) (alloc_aligned (some t) new_size alignment w)),
        )
      → Moved t p old_size new_size alignment w r

-- In a table with `free` and without `realloc`, and if a new block does not start inside the first
-- `min old_size new_size` bytes of the old one, resizing a block either frees it (for the size 0), or returns
-- NULL because the allocation does, and nothing is freed, or returns the block that the allocation gives, after
-- exactly these bytes have been copied to it, no other byte has been changed, and then the old block has been
-- freed.
pub realloc_aligned-Moved :
    {A : Type 0} (t : Vtable A) (g : Ptr → (size alignment : ℕ) → World A → World A)
    (p old_size new_size alignment : ℕ) (w : World A)
    → t.realloc ≡ none
    → t.free ≡ some g
    → p ≢ null
    → ReadsAhead (alloc_aligned (some t) new_size alignment w).0 p (min old_size new_size)
    → Moved t p old_size new_size alignment w
        (realloc_aligned (some t) p old_size new_size alignment w)
unfolding realloc_aligned realloc_fallback copy_bytes
realloc_aligned-Moved {A = A} t g p old_size new_size alignment w no_realloc has_free ne ahead =
    elim (eq_cases new_size 0) [
      | inl z ↦ released g has_free z (ground (arith, no_realloc, has_free, ne, z))
      | inr n ↦ elim (eq_cases got.0 null) [
        | inl q ↦ kept (omega arith) q (ground (arith, no_realloc, has_free, ne, n, q))
        | inr q ↦ moved g has_free (omega arith) q (rw exact at (the_move n q))
      ]
    ]
  where
    got : Ptr × World A
    got = alloc_aligned (some t) new_size alignment w

    least : ℕ
    least = if ltb old_size new_size then old_size else new_size

    the_move :
        new_size ≢ 0
        → got.0 ≢ null
        → realloc_aligned (some t) p old_size new_size alignment w
          ≡ some (got.0, g p old_size alignment (copy_bytes got.0 p least got.1))
    the_move n q = ground (arith, no_realloc, has_free, ne, n, q)

    size_eq : (if ltb old_size new_size then old_size else new_size) ≡ min old_size new_size
    size_eq = ground arith

    exact : copy_bytes got.0 p least got.1 ≡ copied p (min old_size new_size) got
    exact =
        ap (λ (m : ℕ → ℕ). record got.1 { bytes = m })
          (fun_ext
            (λ a. rw size_eq (memcpy_lem got.0 p (min old_size new_size) got.1.bytes a ahead)))
