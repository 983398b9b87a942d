-- ===== src/Base/Lists.antt =====
-- Lists of numbers: length, the Boolean membership test, erasure and absence of repetition.
use Prim.Native.Nat.{ℕ, suc, ◌+◌}
use mathlib.Core.Path.{◌≡◌, refl}
use mathlib.Core.Bool.{Bool, true, false, ◌&&◌, ◌||◌, not}
use mathlib.Core.List.{List, [], ◌∷◌, ◌++◌}
use native.Mathlib.Omega.{arith}
use sigma_malloc.Base.Tests.{◌==◌, if◌then◌else◌}

module _ {ℓ} {A : Type ℓ} where
  abbrev pub length : List A → ℕ
  length [] = 0
  length (x ∷ xs) = suc (length xs)

  pub length-append : (xs ys : List A) → length (xs ++ ys) ≡ length xs + length ys
  length-append [] ys = omega arith
  length-append (x ∷ xs) ys = omega (arith, length-append xs ys)

abbrev pub All {ℓ κ} : {A : Type ℓ} → (A → Type κ) → List A → Type κ
All P [] = Unit
All P (x ∷ xs) = P x × All P xs

abbrev pub has : ℕ → List ℕ → Bool
has a [] = false
has a (x ∷ xs) = (a == x) || has a xs

abbrev pub erase : ℕ → List ℕ → List ℕ
erase a [] = []
erase a (x ∷ xs) = if a == x then xs else x ∷ erase a xs

-- No element occurs twice.
abbrev pub Nodup : List ℕ → Type 0
Nodup [] = Unit
Nodup (x ∷ xs) = (has x xs ≡ false) × Nodup xs

pub has-erase : (a b : ℕ) (xs : List ℕ) → Nodup xs → has b (erase a xs) ≡ (has b xs && not (b == a))
has-erase a b [] h = refl
has-erase a b (x ∷ xs) h = ground (arith, has-erase a b xs h.1)

pub has-erase-false : (a b : ℕ) (xs : List ℕ) → has b xs ≡ false → has b (erase a xs) ≡ false
has-erase-false a b [] h = refl
has-erase-false a b (x ∷ xs) h = ground (arith, has-erase-false a b xs)

pub Nodup-erase : (a : ℕ) (xs : List ℕ) → Nodup xs → Nodup (erase a xs)
Nodup-erase a [] h = tt
Nodup-erase a (x ∷ xs) h = pick (a == x) h.1 (has-erase-false a x xs h.0, Nodup-erase a xs h.1)
  where
    pick : (t : Bool) → Nodup xs → Nodup (x ∷ erase a xs) → Nodup (if t then xs else x ∷ erase a xs)
    pick true p q = p
    pick false p q = q
