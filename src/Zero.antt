-- ===== src/Zero.antt =====
-- src/utils/bzero.c: `fill_zero`, its scalar routines and its two SIMD routines. Memory is a
-- function from addresses to bytes; a store of any width is one `store_zero`. Pointers stay below
-- 2 ^ 64, as C requires of the objects that they point into, so `p + k` does not wrap.
pub mod Range
pub mod Simd
pub mod Words
pub mod Fill
mod Tests
use Prim.Native.Nat.{bit_and}
use sigma_malloc.Base.{
  ℕ, zero, suc, ◌+◌, ◌-◌, ◌*◌, Bool, true, false, not, ◌&&◌, Option, none, some, ltb, leb, ◌==◌,
  if◌then◌else◌,
}

abbrev pub Bytes : Type 0
Bytes = ℕ → ℕ

-- lo ≤ a < hi
abbrev pub within : ℕ → ℕ → ℕ → Bool
within lo hi a = leb lo a && ltb a hi

-- An unaligned store of `w` zero bytes at `p`: 1, 2, 4 or 8 bytes, or a SIMD register of 16 or 32.
pub store_zero : ℕ → ℕ → Bytes → Bytes
store_zero w p m a = if within p (p + w) a then 0 else m a

pub zero_small : ℕ → ℕ → Bytes → Bytes
zero_small p n m =
    if n == 0
    then m
    else if leb 8 n
    then store_zero 8 (p + n - 8) (store_zero 8 p m)
    else if leb 4 n
    then store_zero 4 (p + n - 4) (store_zero 4 p m)
    else if leb 2 n
    then store_zero 2 (p + n - 2) (store_zero 2 p m)
    else store_zero 1 p m

-- The four stores that both the tail and a round of a SIMD loop make, of registers of `w` bytes.
pub store_four : ℕ → ℕ → Bytes → Bytes
store_four w p m =
    store_zero w (p + 3 * w) (store_zero w (p + 2 * w) (store_zero w (p + w) (store_zero w p m)))

-- `while (p < tail)`, four registers a round.
pub simd_loop : (fuel w p tail : ℕ) → Bytes → Bytes
simd_loop zero w p tail m = m
simd_loop (suc f) w p tail m =
    let rest = simd_loop f w (p + 4 * w) tail (store_four w p m) in if ltb p tail then rest else m

pub zero_sse2 : ℕ → ℕ → Bytes → Bytes
zero_sse2 p n m =
    if ltb n 16
    then zero_small p n m
    else if ltb n 32
    then store_zero 16 (p + n - 16) (store_zero 16 p m)
    else if ltb n 64
    then store_zero 16 (p + n - 16)
        (store_zero 16 (p + n - 32) (store_zero 16 (p + 16) (store_zero 16 p m)))
    else simd_loop n 16 p (p + n - 64) (store_four 16 (p + n - 64) m)

pub zero_avx2 : ℕ → ℕ → Bytes → Bytes
zero_avx2 p n m =
    if ltb n 16
    then zero_small p n m
    else if ltb n 32
    then store_zero 16 (p + n - 16) (store_zero 16 p m)
    else if ltb n 64
    then store_zero 32 (p + n - 32) (store_zero 32 p m)
    else if n == 64
    then store_zero 32 (p + 32) (store_zero 32 p m)
    else if ltb n 128
    then store_zero 32 (p + n - 32)
        (store_zero 32 (p + n - 64) (store_zero 32 (p + 32) (store_zero 32 p m)))
    else simd_loop n 32 p (p + n - 128) (store_four 32 (p + n - 128) m)

-- The variables of `zero_words` between its loops.
pub record Cursor : Type 0 where
  pub ptr : ℕ
  pub left : ℕ
  pub bytes : Bytes

abbrev pub cursor : ℕ → ℕ → Bytes → Cursor
cursor p n m = record { ptr = p; left = n; bytes = m }

-- `w` bytes stored and passed over.
pub advance : ℕ → Cursor → Cursor
advance w c = cursor (c.ptr + w) (c.left - w) (store_zero w c.ptr c.bytes)

-- `while (n && ((usize)p & mask))`
pub align_loop : ℕ → Cursor → Cursor
align_loop zero c = c
align_loop (suc f) c =
    let rest = align_loop f (advance 1 c) in
    if not (c.left == 0) && not (bit_and c.ptr 7 == 0) then rest else c

-- The eight word stores of one round of the unrolled loop.
pub advance_eight : Cursor → Cursor
advance_eight c =
    advance 8 (advance 8 (advance 8 (advance 8 (advance 8 (advance 8 (advance 8 (advance 8 c)))))))

-- `while (n >= 8 * W)`
pub block_loop : ℕ → Cursor → Cursor
block_loop zero c = c
block_loop (suc f) c =
    let rest = block_loop f (advance_eight c) in if leb 64 c.left then rest else c

-- `while (n >= W)` for `w` 8, and `while (n--)` for `w` 1
pub step_loop : ℕ → ℕ → Cursor → Cursor
step_loop w zero c = c
step_loop w (suc f) c = let rest = step_loop w f (advance w c) in if leb w c.left then rest else c

-- Every loop is given `n` rounds, and each round stores at least one byte.
pub zero_words : ℕ → ℕ → Bytes → Bytes
zero_words p n m =
    (step_loop 1 n (step_loop 8 n (block_loop n (align_loop n (cursor p n m))))).bytes

-- The static pointer `zero_impl`, NULL (none) until `zero_setup` has run.
pub data ZeroFn : Type 0 where
  sse2 avx2 : ZeroFn

-- SIGMA_USE_CPU_DISPATCH, and what `__builtin_cpu_supports("avx2")` answers.
pub record Cpu : Type 0 where
  pub dispatch : Bool
  pub has_avx2 : Bool

abbrev pub zero_setup : Cpu → ZeroFn
zero_setup cpu = if cpu.dispatch then (if cpu.has_avx2 then avx2 else sse2) else sse2

pub fill_zero_simd : ZeroFn → ℕ → ℕ → Bytes → Bytes
fill_zero_simd sse2 = zero_sse2
fill_zero_simd avx2 = zero_avx2

-- The new value of `zero_impl`, and the memory.
pub fill_zero : Cpu → Option ZeroFn → ℕ → ℕ → Bytes → ZeroFn × Bytes
fill_zero cpu impl p n m =
    let f : ZeroFn = elim impl [ none ↦ zero_setup cpu | some g ↦ g ] in
    if ltb n 16
    then (f, zero_words p n m)
    else if leb (64 * 1024) n
    then (f, zero_words p n m)
    else (f, fill_zero_simd f p n m)
