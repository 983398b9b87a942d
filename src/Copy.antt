-- ===== src/Copy.antt =====
-- src/libc_wrappers.c: `sigma_libc_memset` and `sigma_memcpy`, on memory as a function from addresses
-- to bytes. Each loop counts the rounds that are left; `i` is the loop's index.
pub mod Laws
mod Tests
use sigma_malloc.Base.{
  ℕ, zero, suc, ◌+◌, ◌-◌, ◌*◌, ◌/◌, ◌%◌, ◌^◌, ◌≤◌, ◌<◌, min, ◌≡◌, refl, sym, ap, ◌∙◌, ◌≢◌, ◌↔◌, ◌⊎◌,
  inl, inr, Bool, true, false, not, ◌&&◌, ◌||◌, Option, none, some, List, [], ◌∷◌, ◌++◌, arith, ltb,
  leb, ◌==◌, if◌then◌else◌, ltb→lt, lt→ltb, leb→le, le→ltb, ==_iff, ==_refl, ==_ne, Bool-cases,
  order_cases, eq_cases, length, length-append, All, has, erase, Nodup, has-erase, has-erase-false,
  Nodup-erase,
}
use sigma_malloc.Zero.{Bytes, within}

pub store_byte : ℕ → ℕ → Bytes → Bytes
store_byte p v m a = if a == p then v else m a

pub memset_loop : (rounds i p value : ℕ) → Bytes → Bytes
memset_loop zero i p value m = m
memset_loop (suc r) i p value m = memset_loop r (i + 1) p value (store_byte (p + i) (value % 256) m)

-- `value` is the bit pattern of the C int, of which `(u8)value` keeps the low byte.
pub memset : (p value size : ℕ) → Bytes → Bytes
memset p value size m = memset_loop size 0 p value m

pub memcpy_loop : (rounds i to from : ℕ) → Bytes → Bytes
memcpy_loop zero i to from m = m
memcpy_loop (suc r) i to from m =
    memcpy_loop r (i + 1) to from (store_byte (to + i) (m (from + i)) m)

unfoldable pub memcpy : (to from size : ℕ) → Bytes → Bytes
unfolding memcpy_loop store_byte
memcpy to from size m = memcpy_loop size 0 to from m
