-- ===== src/Base/Bits.antt =====
-- Bitwise `&` at variables.
use Prim.Native.Nat.{
  ℕ, zero, suc, ◌+◌, ◌-◌, ◌*◌, ◌/◌, ◌%◌, ◌^◌, ◌≤◌, ◌<◌, min, bit_and, digits, bit_and-bitwise,
}
use mathlib.Core.Path.{◌≡◌, refl, ap, ap₂, sym, ◌∙◌}
use mathlib.Core.Logic.{◌⊎◌, inl, inr}
use native.Mathlib.Omega.{arith}
use native.Mathlib.Nat.{pow-zero, pow-suc, pow-succ', div-div-eq-div-mul}

pub pow2_pos : (n : ℕ) → 0 < 2 ^ n
pow2_pos zero = omega (arith, pow-zero 2)
pow2_pos (suc n) = omega (arith, pow-suc 2 n, pow2_pos n)

-- The digits of the native operation, computed with any fuel that is large enough.
enough_digits :
    (bound fuel x y : ℕ) → fuel ≤ bound → x ≤ fuel → digits (λ _. zero) min fuel x y ≡ bit_and x y
enough_digits bound zero zero y _ _ = sym (bit_and-bitwise zero y)
enough_digits bound (suc fuel) zero y _ _ = sym (bit_and-bitwise zero y)
enough_digits bound zero (suc x) y _ below = absurd (omega arith)
enough_digits zero (suc fuel) (suc x) y above _ = absurd (omega arith)
enough_digits (suc bound) (suc fuel) (suc x) y above below =
    let half = suc x / 2 in
    omega (
      arith,
      enough_digits bound fuel half (y / 2) (omega arith) (omega arith),
      enough_digits bound x half (y / 2) (omega arith) (omega arith),
      bit_and-bitwise (suc x) y,
    )

-- `&` of two numbers from `&` of their halves and their lowest bits.
pub bit_and_halves : (x y : ℕ) → bit_and x y ≡ min (x % 2) (y % 2) + 2 * bit_and (x / 2) (y / 2)
bit_and_halves zero y = omega (arith, bit_and-bitwise 0 (y / 2), bit_and-bitwise 0 y)
bit_and_halves (suc x) y = omega (
  arith,
  enough_digits x x (suc x / 2) (y / 2) (omega arith) (omega arith),
  bit_and-bitwise (suc x) y,
)

-- A number and 0, and a number and itself.
pub empty_and_full : (bound x : ℕ) → x ≤ bound → (bit_and x 0 ≡ 0) × (bit_and x x ≡ x)
empty_and_full bound zero _ = (refl, refl)
empty_and_full zero (suc x) below = absurd (omega arith)
empty_and_full (suc bound) (suc x) below =
    let (empty, full) = empty_and_full bound (suc x / 2) (omega arith) in
    (
      omega (arith, bit_and_halves (suc x) 0, empty),
      omega (arith, bit_and_halves (suc x) (suc x), full),
    )

pub bit_and-zero : (x : ℕ) → bit_and x 0 ≡ 0
bit_and-zero x = (empty_and_full x x (omega arith)).0

bit_and_self : (x : ℕ) → bit_and x x ≡ x
bit_and_self x = (empty_and_full x x (omega arith)).1

pub bit_and-one : (x : ℕ) → bit_and x 1 ≡ x % 2
bit_and-one x = omega (arith, bit_and-zero (x / 2), bit_and_halves x 1)

-- All `n` bits set: the identity below `2 ^ n`.
pub bit_and-ones : (n a : ℕ) → a < 2 ^ n → bit_and a (2 ^ n - 1) ≡ a
bit_and-ones zero a h = omega (arith, pow-zero 2, bit_and-zero a, bit_and-bitwise 0 0)
bit_and-ones (suc n) a h =
    let p : 2 ^ suc n ≡ 2 ^ n * 2 = pow-suc 2 n in
    let q : (2 ^ suc n - 1) / 2 ≡ 2 ^ n - 1 = omega (arith, pow2_pos n) in
    omega (
      arith,
      bit_and_halves a (2 ^ suc n - 1),
      bit_and-ones n (a / 2) (omega arith),
      pow2_pos n,
      ap (bit_and (a / 2)) q,
    )

-- The mask of the bits from `k` up to `n` clears the bits below `k`.
pub bit_and-mask : (n k a : ℕ) → k ≤ n → a < 2 ^ n → bit_and a (2 ^ n - 2 ^ k) ≡ a / 2 ^ k * 2 ^ k
bit_and-mask n zero a h l =
    omega (arith, pow-zero 2, bit_and-ones n a l, ap (λ t. bit_and a (2 ^ n - t)) (pow-zero 2))
bit_and-mask zero (suc k) a h l = absurd (omega arith)
bit_and-mask (suc n) (suc k) a h l =
    let p : 2 ^ suc n ≡ 2 ^ n * 2 = pow-suc 2 n in
    let r : 2 ^ suc k ≡ 2 * 2 ^ k = pow-succ' 2 k in
    let q : (2 ^ suc n - 2 ^ suc k) / 2 ≡ 2 ^ n - 2 ^ k = omega arith in
    let d : a / 2 ^ suc k ≡ a / 2 / 2 ^ k =
      ap (λ t. a / t) r ∙ sym (div-div-eq-div-mul a 2 (2 ^ k)) in
    let e : a / 2 ^ suc k * 2 ^ suc k ≡ a / 2 / 2 ^ k * (2 * 2 ^ k) = ap₂ ◌*◌ d r in
    omega (
      arith,
      bit_and_halves a (2 ^ suc n - 2 ^ suc k),
      bit_and-mask n k (a / 2) (omega arith) (omega arith),
      ap (bit_and (a / 2)) q,
      e,
    )

pub pow2_bit_and_pred : (k : ℕ) → bit_and (2 ^ k) (2 ^ k - 1) ≡ 0
pow2_bit_and_pred zero = refl
pow2_bit_and_pred (suc k) =
    let p : 2 ^ suc k ≡ 2 ^ k * 2 = pow-suc 2 k in
    let h : 2 ^ suc k / 2 ≡ 2 ^ k = omega arith in
    let q : (2 ^ suc k - 1) / 2 ≡ 2 ^ k - 1 = omega (arith, pow2_pos k) in
    omega (
      arith,
      bit_and_halves (2 ^ suc k) (2 ^ suc k - 1),
      pow2_bit_and_pred k,
      pow2_pos k,
      ap₂ bit_and h q,
    )

parity : (a : ℕ) → (a % 2 ≡ 0) ⊎ (a % 2 ≡ 1)
parity a = grind arith

-- A positive number that shares no bit with its predecessor is a power of two.
pow2_of_bit_and_pred_fuel :
    (n a : ℕ) → a ≤ n → 0 < a → bit_and a (a - 1) ≡ 0 → (k : ℕ) × (a ≡ 2 ^ k)
pow2_of_bit_and_pred_fuel zero a l h e = absurd (omega arith)
pow2_of_bit_and_pred_fuel (suc n) a l h e = elim (parity a) [
  | inl even ↦
      let q : (a - 1) / 2 ≡ a / 2 - 1 = omega arith in
      let (k, p) =
        pow2_of_bit_and_pred_fuel n (a / 2) (omega arith) (omega arith)
          (omega (arith, bit_and_halves a (a - 1), ap (bit_and (a / 2)) q)) in
      (suc k, omega (arith, pow-suc 2 k))
  | inr odd ↦
      let q : (a - 1) / 2 ≡ a / 2 = omega arith in
      (
        0,
        omega (
          arith,
          pow-zero 2,
          bit_and_halves a (a - 1),
          ap (bit_and (a / 2)) q,
          bit_and_self (a / 2),
        ),
      )
]

pub pow2_of_bit_and_pred : (a : ℕ) → 0 < a → bit_and a (a - 1) ≡ 0 → (k : ℕ) × (a ≡ 2 ^ k)
pow2_of_bit_and_pred a = pow2_of_bit_and_pred_fuel a a (omega arith)
