-- ===== src/Zero/Fill.antt =====
-- `fill_zero`, whichever routine it selects.
use sigma_malloc.Base.{ℕ, ◌+◌, Option, none, some, arith}
use sigma_malloc.Zero.{Bytes, ZeroFn, Cpu, zero_setup, sse2, avx2, fill_zero_simd, fill_zero}
use sigma_malloc.Zero.Range.{Zeroed}
use sigma_malloc.Zero.Simd.{zero_sse2-Zeroed, zero_avx2-Zeroed}
use sigma_malloc.Zero.Words.{zero_words-Zeroed}

fill_zero_simd-Zeroed :
    (f : ZeroFn) (p n : ℕ) (m : Bytes) → Zeroed p (p + n) m (fill_zero_simd f p n m)
unfolding fill_zero_simd
fill_zero_simd-Zeroed sse2 = zero_sse2-Zeroed
fill_zero_simd-Zeroed avx2 = zero_avx2-Zeroed

-- `fill_zero` writes zero to exactly the `n` bytes from `p` on and leaves every other byte as it
-- was, for every size, whatever the processor supports and whether or not the routine was selected
-- before.
pub fill_zero-Zeroed :
    (cpu : Cpu) (impl : Option ZeroFn) (p n : ℕ) (m : Bytes)
    → Zeroed p (p + n) m (fill_zero cpu impl p n m).1
unfolding fill_zero
fill_zero-Zeroed cpu impl p n m a =
    ground (arith, zero_words-Zeroed p n m a, fill_zero_simd-Zeroed f p n m a)
  where
    f : ZeroFn
    f = elim impl [ none ↦ zero_setup cpu | some g ↦ g ]
