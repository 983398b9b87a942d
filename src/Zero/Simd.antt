-- ===== src/Zero/Simd.antt =====
-- The SIMD routines.
use sigma_malloc.Base.{
  ℕ, zero, suc, ◌+◌, ◌-◌, ◌*◌, ◌≤◌, ◌<◌, ◌≡◌, inl, inr, false, arith, ◌==◌, lt→ltb, le→ltb,
  order_cases,
}
use sigma_malloc.Zero.{Bytes, store_zero, store_four, simd_loop, zero_sse2, zero_avx2}
use sigma_malloc.Zero.Range.{Zeroed, zero_small-Zeroed, store_four-Zeroed}

-- With the tail stored before it, the loop zeroes everything up to the end of the tail: its last
-- round may run into the tail and never past it.
simd_loop-Zeroed :
    (f w p tail : ℕ) (m : Bytes)
    → 0 < w
    → tail ≤ p + f
    → p ≤ tail + 4 * w
    → Zeroed tail (tail + 4 * w) m m
    → Zeroed p (tail + 4 * w) m (simd_loop f w p tail m)
unfolding simd_loop
simd_loop-Zeroed zero w p tail m pos h k z a = ground (arith, z a)
simd_loop-Zeroed (suc f) w p tail m pos h k z a = elim (order_cases p tail) [
  | inl l ↦ rw (lt→ltb p tail l) (
      ground (
        arith,
        simd_loop-Zeroed f w (p + 4 * w) tail (store_four w p m) pos (omega arith) (omega arith)
            (λ b. ground (arith, z b, store_four-Zeroed w p m b)) a,
        store_four-Zeroed w p m a,
      ))
  | inr g ↦ rw (le→ltb p tail g) (ground (arith, z a))
]

-- A tail of four registers at the end of the range, then the loop.
tail_then_loop-Zeroed :
    (w p n : ℕ) (m : Bytes)
    → 0 < w
    → 4 * w ≤ n
    → Zeroed p (p + n) m (simd_loop n w p (p + n - 4 * w) (store_four w (p + n - 4 * w) m))
tail_then_loop-Zeroed w p n m pos h a =
    let t = p + n - 4 * w in
    let e : t + 4 * w ≡ p + n = omega arith in
    ground (
      arith,
      e,
      simd_loop-Zeroed n w p t (store_four w t m) pos (omega arith) (omega arith)
          (λ b. ground (arith, store_four-Zeroed w t m b)) a,
      store_four-Zeroed w t m a,
    )

pub zero_sse2-Zeroed : (p n : ℕ) (m : Bytes) → Zeroed p (p + n) m (zero_sse2 p n m)
unfolding zero_sse2 store_zero
zero_sse2-Zeroed p n m a = elim (order_cases n 16) [
  | inl l ↦ rw (lt→ltb n 16 l) (zero_small-Zeroed p n m l a)
  | inr g ↦ elim (order_cases n 64) [
    | inl l ↦ rw (le→ltb n 16 g, lt→ltb n 64 l) (ground arith)
    | inr big ↦
        rw (le→ltb n 16 g, le→ltb n 32 (omega arith), le→ltb n 64 big)
          (tail_then_loop-Zeroed 16 p n m (omega arith) big a)
  ]
]

pub zero_avx2-Zeroed : (p n : ℕ) (m : Bytes) → Zeroed p (p + n) m (zero_avx2 p n m)
unfolding zero_avx2 store_zero
zero_avx2-Zeroed p n m a = elim (order_cases n 16) [
  | inl l ↦ rw (lt→ltb n 16 l) (zero_small-Zeroed p n m l a)
  | inr g ↦ elim (order_cases n 128) [
    | inl l ↦ rw (le→ltb n 16 g, lt→ltb n 128 l) (ground arith)
    | inr big ↦
        let ne : (n == 64) ≡ false = ground arith in
        rw
          (
            le→ltb n 16 g,
            le→ltb n 32 (omega arith),
            le→ltb n 64 (omega arith),
            ne,
            le→ltb n 128 big,
          )
          (tail_then_loop-Zeroed 32 p n m (omega arith) big a)
  ]
]
