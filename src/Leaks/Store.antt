-- ===== src/Leaks/Store.antt =====
-- The table of leaks: what is pushed comes back by its index, up to the size of the table.
use sigma_malloc.Base.{
  ℕ, zero, suc, ◌+◌, ◌-◌, ◌≤◌, ◌≡◌, refl, ◌∙◌, inl, inr, Option, none, some, List, [], ◌∷◌, ◌++◌,
  arith, ltb, if◌then◌else◌, Bool-cases, order_cases, eq_cases,
}
use sigma_malloc.Leaks.{LeakInfo, Leaks, max_leaks, leak_push, reset_leaks, leak_info}

abbrev pub push_all : List LeakInfo → Leaks → Leaks
push_all [] s = s
push_all (x ∷ xs) s = push_all xs (leak_push x s)

pub push_all-append :
    (xs ys : List LeakInfo) (s : Leaks) → push_all (xs ++ ys) s ≡ push_all ys (push_all xs s)
push_all-append [] ys s = refl
push_all-append (x ∷ xs) ys s = push_all-append xs ys (leak_push x s)

abbrev pub get_elem? {ℓ} : {A : Type ℓ} → List A → ℕ → Option A
get_elem? [] i = none
get_elem? (x ∷ xs) zero = some x
get_elem? (x ∷ xs) (suc i) = get_elem? xs i

-- What the table holds at `i` once a list has been pushed.
abbrev expected : List LeakInfo → Leaks → ℕ → Option LeakInfo
expected xs s i =
    if ltb i s.count
    then leak_info i s
    else if ltb i max_leaks
    then get_elem? xs (i - s.count)
    else none

expected-push :
    (x : LeakInfo) (xs : List LeakInfo) (s : Leaks) (i : ℕ)
    → s.count ≤ max_leaks
    → expected xs (leak_push x s) i ≡ expected (x ∷ xs) s i
unfolding leak_push leak_info
expected-push x xs s i l = elim (Bool-cases (ltb s.count max_leaks)) [
  | inl t ↦ elim (eq_cases i s.count) [
    | inl e ↦ let z : i - s.count ≡ 0 = omega arith in rw (t, z) (ground (arith, e, t))
    | inr n ↦ elim (order_cases i s.count) [
      | inl below ↦ rw t (ground (arith, n, below))
      | inr above ↦
          let z : i - s.count ≡ suc (i - (s.count + 1)) = omega arith in
          rw (t, z) (ground (arith, n, above, t))
    ]
  ]
  | inr t ↦ rw t (elim (order_cases i s.count) [
    | inl below ↦ ground (arith, below)
    | inr above ↦ ground (arith, above, t)
  ])
]

expected-nil : (s : Leaks) (i : ℕ) → leak_info i s ≡ expected [] s i
unfolding leak_info
expected-nil s i = ground arith

pub leak_push_bounds :
    (x : LeakInfo) (s : Leaks) → s.count ≤ max_leaks → (leak_push x s).count ≤ max_leaks
unfolding leak_push
leak_push_bounds x s l = ground arith

-- A table that holds at most 4096 entries keeps them; the entries that are pushed follow in their order, and
-- those for which there is no room are lost.
pub leak_info-push_all :
    (xs : List LeakInfo) (s : Leaks) (i : ℕ)
    → s.count ≤ max_leaks
    → leak_info i (push_all xs s) ≡ expected xs s i
leak_info-push_all [] s i l = expected-nil s i
leak_info-push_all (x ∷ xs) s i l =
    leak_info-push_all xs (leak_push x s) i (leak_push_bounds x s l) ∙ expected-push x xs s i l

-- After a reset the table holds what is pushed: it reads back as the first 4096 elements of the list.
pub leak_info-reset :
    (xs : List LeakInfo) (s : Leaks) (i : ℕ)
    → leak_info i (push_all xs (reset_leaks s)) ≡ (if ltb i max_leaks then get_elem? xs i else none)
unfolding reset_leaks
leak_info-reset xs s i = leak_info-push_all xs (reset_leaks s) i (omega arith) ∙ ground arith
