-- ===== src/Links/Tests.antt =====
-- A list of three nodes at 16, 32 and 48, and one more at 64.
use sigma_malloc.Base.{
  ℕ, ◌*◌, ◌≡◌, refl, ◌≢◌, true, [], ◌∷◌, arith, ◌==◌, if◌then◌else◌, has, erase,
}
use sigma_malloc.Links.{Ptr, null, Links, list_push, list_remove}
use sigma_malloc.Links.Chain.{Chain}
use sigma_malloc.Links.Laws.{list_push-Chain, list_remove-Chain}

abbrev slot : ℕ → Ptr
slot k = 16 * k

abbrev three : Links
three = record {
  next = λ p. if p == 16 then 32 else if p == 32 then 48 else 0;
  prev = λ p. if p == 32 then 16 else if p == 48 then 32 else 0;
}

slot-injective : (j k : ℕ) → slot j ≡ slot k → j ≡ k
slot-injective j k e = omega arith

slot_ne : (j : ℕ) → has j (1 ∷ 2 ∷ 3 ∷ []) ≡ true → slot j ≢ null
slot_ne j h e = ground arith

three-Chain : Chain slot three null 16 (1 ∷ 2 ∷ 3 ∷ [])
three-Chain = (refl, omega arith, refl, (refl, omega arith, refl, (refl, omega arith, refl, refl)))

list_push-Chain_example :
    Chain slot
      (list_push 16 (slot 4) three).1
      null
      (list_push 16 (slot 4) three).0
      (4 ∷ 1 ∷ 2 ∷ 3 ∷ [])
list_push-Chain_example =
    list_push-Chain slot slot-injective three 16 4 (1 ∷ 2 ∷ 3 ∷ []) (omega arith)
      (refl, (refl, (refl, tt))) refl three-Chain

list_remove-Chain_example :
    Chain slot
      (list_remove 16 (slot 2) three).1
      null
      (list_remove 16 (slot 2) three).0
      (erase 2 (1 ∷ 2 ∷ 3 ∷ []))
list_remove-Chain_example =
    list_remove-Chain slot slot-injective three 16 2 (1 ∷ 2 ∷ 3 ∷ []) (refl, (refl, (refl, tt)))
      refl slot_ne three-Chain
