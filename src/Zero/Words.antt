-- ===== src/Zero/Words.antt =====
-- The scalar routine.
use sigma_malloc.Base.{
  ℕ, zero, suc, ◌+◌, ◌-◌, ◌≤◌, ◌<◌, ◌≡◌, refl, inl, inr, not, ◌&&◌, arith, leb, ◌==◌, leb→le,
  Bool-cases,
}
use Prim.Native.Nat.{bit_and}
use sigma_malloc.Zero.{
  Bytes, Cursor, cursor, store_zero, advance, advance_eight, align_loop, block_loop, step_loop,
  zero_words,
}
use sigma_malloc.Zero.Range.{Zeroed, Zeroed-Zeroed}

-- `d` is `c` moved forward inside the same range, with what lies between zeroed.
pub record Moved (c d : Cursor) : Type 0 where
  pub forward : c.ptr ≤ d.ptr
  pub total : d.ptr + d.left ≡ c.ptr + c.left
  pub zeroed : Zeroed c.ptr d.ptr c.bytes d.bytes

Moved-refl : (c : Cursor) → Moved c c
Moved-refl c = record { forward = omega arith; total = refl; zeroed = λ a. ground arith }

Moved-trans : {c d e : Cursor} → Moved c d → Moved d e → Moved c e
Moved-trans {c} {d} {e} h k = record {
  forward = omega arith;
  total = omega arith;
  zeroed = Zeroed-Zeroed c.ptr d.ptr e.ptr _ _ _ h.forward k.forward h.zeroed k.zeroed;
}

advance-Moved : (w : ℕ) (c : Cursor) → w ≤ c.left → Moved c (advance w c)
unfolding advance store_zero
advance-Moved w c h = record { forward = omega arith; total = omega arith; zeroed = λ a. refl }

advance_after : {c : Cursor} (w : ℕ) (d : Cursor) → w ≤ d.left → Moved c d → Moved c (advance w d)
advance_after w d h moved = Moved-trans moved (advance-Moved w d h)

advance_eight-Moved : (c : Cursor) → 64 ≤ c.left → Moved c (advance_eight c)
unfolding advance_eight advance
advance_eight-Moved c h =
    let go = λ (d : Cursor) (l : 8 ≤ d.left) (m : Moved c d). advance_after 8 d l m in
    go _ (omega arith) (
      go _ (omega arith) (
        go _ (omega arith) (
          go _ (omega arith) (
            go _ (omega arith)
              (go _ (omega arith) (go _ (omega arith) (go c (omega arith) (Moved-refl c))))))))

advance_eight-left : (c : Cursor) → (advance_eight c).left ≡ c.left - 64
unfolding advance_eight advance
advance_eight-left c = omega arith

align_loop-Moved : (f : ℕ) (c : Cursor) → Moved c (align_loop f c)
unfolding align_loop
align_loop-Moved zero c = Moved-refl c
align_loop-Moved (suc f) c = elim (Bool-cases (not (c.left == 0) && not (bit_and c.ptr 7 == 0))) [
  | inl go ↦
      rw go (Moved-trans (advance-Moved 1 c (ground arith)) (align_loop-Moved f (advance 1 c)))
  | inr stop ↦ rw stop (Moved-refl c)
]

block_loop-Moved :
    (f : ℕ) (c : Cursor) → c.left ≤ f → Moved c (block_loop f c) × ((block_loop f c).left < 64)
unfolding block_loop
block_loop-Moved zero c h = (Moved-refl c, omega arith)
block_loop-Moved (suc f) c h = elim (Bool-cases (leb 64 c.left)) [
  | inl go ↦
      let l : 64 ≤ c.left = leb→le 64 c.left go in
      let (moved, left) =
        block_loop-Moved f (advance_eight c) (omega (arith, advance_eight-left c)) in
      rw go (Moved-trans (advance_eight-Moved c l) moved, left)
  | inr stop ↦ rw stop (Moved-refl c, ground arith)
]

step_loop-Moved :
    (w f : ℕ) (c : Cursor)
    → 0 < w
    → c.left ≤ f
    → Moved c (step_loop w f c) × ((step_loop w f c).left < w)
unfolding step_loop advance
step_loop-Moved w zero c pos h = (Moved-refl c, omega arith)
step_loop-Moved w (suc f) c pos h = elim (Bool-cases (leb w c.left)) [
  | inl go ↦
      let l : w ≤ c.left = leb→le w c.left go in
      let (moved, left) = step_loop-Moved w f (advance w c) pos (omega arith) in
      rw go (Moved-trans (advance-Moved w c l) moved, left)
  | inr stop ↦ rw stop (Moved-refl c, ground arith)
]

pub zero_words-Zeroed : (p n : ℕ) (m : Bytes) → Zeroed p (p + n) m (zero_words p n m)
unfolding zero_words
zero_words-Zeroed p n m =
    let c = cursor p n m in
    let m1 = align_loop-Moved n c in
    let (m2, l2) = block_loop-Moved n (align_loop n c) (omega arith) in
    let (m3, l3) =
      step_loop-Moved 8 n (block_loop n (align_loop n c)) (omega arith) (omega arith) in
    let (m4, l4) =
      step_loop-Moved 1 n (step_loop 8 n (block_loop n (align_loop n c))) (omega arith)
        (omega arith) in
    let all = Moved-trans m1 (Moved-trans m2 (Moved-trans m3 m4)) in
    let e : (step_loop 1 n (step_loop 8 n (block_loop n (align_loop n c)))).ptr ≡ p + n =
      omega arith in
    rw e at all.zeroed
