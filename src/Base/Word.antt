-- ===== src/Base/Word.antt =====
-- `usize` arithmetic on x86-64, and the two bit tricks of include/common.h.
use Prim.Native.Nat.{ℕ, ◌+◌, ◌-◌, ◌*◌, ◌/◌, ◌%◌, ◌^◌, ◌≤◌, ◌<◌, bit_and}
use mathlib.Core.Path.{◌≡◌, ap}
use mathlib.Core.Logic.{◌↔◌, inl, inr}
use mathlib.Core.Bool.{Bool, true, not, ◌&&◌}
use native.Mathlib.Omega.{arith}
use native.Mathlib.Nat.{
  pow-le-pow_right, mod-eq_of_lt, div-add-mod', mod-lt, mul-mod_left, div-eq_of_lt,
}
use sigma_malloc.Base.Tests.{◌==◌, order_cases}
use sigma_malloc.Base.Bits.{bit_and-mask, pow2_pos, pow2_bit_and_pred, pow2_of_bit_and_pred}

abbrev pub word : ℕ
word = 2 ^ 64

-- SIZE_MAX
abbrev pub size_max : ℕ
size_max = word - 1

abbrev pub add_size : ℕ → ℕ → ℕ
add_size a b = (a + b) % word

abbrev pub sub_size : ℕ → ℕ → ℕ
sub_size a b = (a + word - b) % word

abbrev pub mul_size : ℕ → ℕ → ℕ
mul_size a b = (a * b) % word

-- ALIGN_UP(x, a): `~m` on 64 bits is `size_max - m`.
unfoldable pub align_up : ℕ → ℕ → ℕ
align_up x a = bit_and (add_size x (sub_size a 1)) (size_max - sub_size a 1)

-- sigma_alignment_is_valid
unfoldable pub alignment_is_valid : ℕ → Bool
alignment_is_valid a = not (a == 0) && (bit_and a (sub_size a 1) == 0)

-- An alignment as the library accepts it: a power of two that fits in a word.
abbrev pub IsAlignment : ℕ → Type 0
IsAlignment a = (k : ℕ) × (k < 64) × (a ≡ 2 ^ k)

pow2_lt_word : (k : ℕ) → 2 ^ k < word → k < 64
pow2_lt_word k h = elim (order_cases k 64) [
  | inl l ↦ l
  | inr g ↦
      let p : 2 ^ 64 ≤ 2 ^ k = pow-le-pow_right {n = 2} (omega arith) g in absurd (omega arith)
]

pub IsAlignment-lt-word : {a : ℕ} → IsAlignment a → (0 < a) × (a < word)
IsAlignment-lt-word (k, l, e) =
    let p : 2 ^ k ≤ 2 ^ 63 = pow-le-pow_right {n = 2} (omega arith) {j = 63} (omega arith) in
    (omega (arith, pow2_pos k), omega arith)

-- The test of the code accepts exactly the powers of two.
pub alignment_is_valid_iff : (a : ℕ) → a < word → (alignment_is_valid a ≡ true) ↔ IsAlignment a
unfolding alignment_is_valid
alignment_is_valid_iff a l = (to, from)
  where
    sub : 0 < a → sub_size a 1 ≡ a - 1
    sub p = omega arith

    to : (not (a == 0) && (bit_and a (sub_size a 1) == 0)) ≡ true → IsAlignment a
    to h =
        let pos : 0 < a = ground arith in
        let (k, e) = pow2_of_bit_and_pred a pos (ground (arith, ap (bit_and a) (sub pos))) in
        (k, pow2_lt_word k (omega arith), e)

    from : IsAlignment a → (not (a == 0) && (bit_and a (sub_size a 1) == 0)) ≡ true
    from (k, l', e) =
        let pos : 0 < a = omega (arith, pow2_pos k) in
        let z : bit_and a (a - 1) ≡ 0 = rw e (pow2_bit_and_pred k) in
        ground (arith, ap (bit_and a) (sub pos), z, pos)

-- Without overflow, ALIGN_UP rounds up to the next multiple.
pub align_up-div :
    (x a : ℕ) → IsAlignment a → x + (a - 1) < word → align_up x a ≡ (x + (a - 1)) / a * a
unfolding align_up
align_up-div x a (k, l, e) h =
    let (pos, small) = IsAlignment-lt-word (k, l, e) in
    let s : sub_size a 1 ≡ a - 1 = omega arith in
    let m : size_max - (a - 1) ≡ word - 2 ^ k = omega arith in
    let w : (x + (a - 1)) % word ≡ x + (a - 1) = mod-eq_of_lt h in
    rw (s, w, m, bit_and-mask 64 k (x + (a - 1)) (omega arith) h) (rw (← e))

pub record AlignedUp (x a r : ℕ) : Type 0 where
  pub above : x ≤ r
  pub near : r < x + a
  pub multiple : r % a ≡ 0

-- For a valid alignment and without overflow, ALIGN_UP gives the least multiple of the alignment that is not
-- below its argument.
pub align_up-AlignedUp :
    (x a : ℕ) → IsAlignment a → x + (a - 1) < word → AlignedUp x a (align_up x a)
align_up-AlignedUp x a al h =
    let (pos, small) = IsAlignment-lt-word al in
    rw (align_up-div x a al h) (record {
      above = omega (arith, div-add-mod' (x + (a - 1)) a, mod-lt (x + (a - 1)) pos);
      near = omega (arith, div-add-mod' (x + (a - 1)) a);
      multiple = mul-mod_left ((x + (a - 1)) / a) a;
    })

-- Past the end of the address space ALIGN_UP wraps around to 0.
pub align_up_wraps : (x a : ℕ) → x < word → IsAlignment a → word ≤ x + (a - 1) → align_up x a ≡ 0
unfolding align_up
align_up_wraps x a h (k, l, e) g =
    let (pos, small) = IsAlignment-lt-word (k, l, e) in
    let s : sub_size a 1 ≡ a - 1 = omega arith in
    let m : size_max - (a - 1) ≡ word - 2 ^ k = omega arith in
    let r = (x + (a - 1)) % word in
    let b : r < 2 ^ k = omega arith in
    let z : r / 2 ^ k ≡ 0 = div-eq_of_lt b in
    rw (s, m, bit_and-mask 64 k r (omega arith) (omega arith), z) (omega arith)
