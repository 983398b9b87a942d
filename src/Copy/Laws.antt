-- ===== src/Copy/Laws.antt =====
-- What the two byte loops leave in memory.
use sigma_malloc.Base.{
  ℕ, zero, suc, ◌+◌, ◌-◌, ◌%◌, ◌≤◌, ◌≡◌, ap, ◌∙◌, ◌⊎◌, inl, inr, arith, if◌then◌else◌, eq_cases,
}
use sigma_malloc.Zero.{Bytes, within}
use sigma_malloc.Copy.{store_byte, memset_loop, memset, memcpy_loop, memcpy}

memset_loop_lem :
    (r i p v : ℕ) (m : Bytes) (a : ℕ)
    → memset_loop r i p v m a ≡ (if within (p + i) (p + i + r) a then v % 256 else m a)
unfolding memset_loop store_byte
memset_loop_lem zero i p v m a = ground arith
memset_loop_lem (suc r) i p v m a =
    ground (arith, memset_loop_lem r (i + 1) p v (store_byte (p + i) (v % 256) m) a)

-- `sigma_libc_memset` stores the low byte of `value` at exactly the `size` bytes from `p` on.
pub memset_lem :
    (p v size : ℕ) (m : Bytes) (a : ℕ)
    → memset p v size m a ≡ (if within p (p + size) a then v % 256 else m a)
unfolding memset
memset_lem p v size m a = ground (arith, memset_loop_lem size 0 p v m a)

-- The source bytes that are still to be read have not been overwritten.
abbrev pub ReadsAhead : ℕ → ℕ → ℕ → Type 0
ReadsAhead to from size = (to ≤ from) ⊎ (from + size ≤ to)

memcpy_loop_lem :
    (r i to from : ℕ) (m : Bytes) (a : ℕ)
    → ReadsAhead to from (i + r)
    → memcpy_loop r i to from m a
      ≡ (if within (to + i) (to + i + r) a then m (from + (a - to)) else m a)
unfolding memcpy_loop store_byte
memcpy_loop_lem zero i to from m a h = ground arith
memcpy_loop_lem (suc r) i to from m a h =
    let ih : memcpy_loop r (i + 1) to from (store_byte (to + i) (m (from + i)) m) a ≡ (
        if within (to + (i + 1)) (to + (i + 1) + r) a
        then store_byte (to + i) (m (from + i)) m (from + (a - to))
        else store_byte (to + i) (m (from + i)) m a) =
      memcpy_loop_lem r (i + 1) to from (store_byte (to + i) (m (from + i)) m) a (h' h) in
    elim (eq_cases a (to + i)) [
      | inl e ↦ let q : from + (a - to) ≡ from + i = omega arith in ih ∙ ground (arith, ap m q)
      | inr ne ↦ ih ∙ rest h ne
    ]
  where
    h' : ReadsAhead to from (i + suc r) → ReadsAhead to from (i + 1 + r)
    h' (inl l) = inl l
    h' (inr l) = inr (omega arith)

    rest :
        ReadsAhead to from (i + suc r)
        → (a ≡ to + i → ⊥)
        → (if within (to + (i + 1)) (to + (i + 1) + r) a
            then store_byte (to + i) (m (from + i)) m (from + (a - to))
            else store_byte (to + i) (m (from + i)) m a)
          ≡ (if within (to + i) (to + i + suc r) a then m (from + (a - to)) else m a)
    rest (inl l) ne = ground arith
    rest (inr l) ne = ground arith

-- `sigma_memcpy` moves the `size` bytes at `from` to `to` and changes nothing else, if the ranges are
-- disjoint or the destination is the lower of the two.
pub memcpy_lem :
    (to from size : ℕ) (m : Bytes) (a : ℕ)
    → ReadsAhead to from size
    → memcpy to from size m a ≡ (if within to (to + size) a then m (from + (a - to)) else m a)
unfolding memcpy
memcpy_lem to from size m a h = ground (arith, memcpy_loop_lem size 0 to from m a)
