-- ===== src/Leaks/Visits.antt =====
-- Which nodes of a pool's tree the traversal reports: every block that is handed out, once.
use sigma_malloc.Base.{
  ℕ, zero, suc, ◌+◌, ◌-◌, ◌*◌, ◌/◌, ◌^◌, ◌≤◌, ◌<◌, ◌≡◌, refl, ◌∙◌, ◌≢◌, inl, inr, Bool, true, false,
  ◌&&◌, List, [], ◌∷◌, ◌++◌, arith, ◌==◌, if◌then◌else◌, ==_refl, ==_ne, Bool-cases, eq_cases,
}
use native.Mathlib.Nat.{pow-zero, pow-suc}
use sigma_malloc.Buddy.{NodeState, free, split, full, is_split}
use sigma_malloc.Buddy.Tree.{Tree, node, live, live-lt}
use sigma_malloc.Buddy.Layout.{top}
use sigma_malloc.Buddy.Split.{is_full, full_leaf}

-- The blocks that the traversal reports below the block of order `o` at `k`, by order and position.
unfoldable pub visits : Tree → (o k : ℕ) → List (ℕ × ℕ)
visits t zero k = if is_full (t (node top k)) then (0, k) ∷ [] else []
visits t (suc o) k =
    let below = visits t o (2 * k) ++ visits t o (2 * k + 1) in
    if is_full (t (node (top - suc o) k))
    then (suc o, k) ∷ []
    else if is_split (t (node (top - suc o) k))
    then below
    else []

-- How often a block occurs in a list.
abbrev pub occurrences : (e j : ℕ) → List (ℕ × ℕ) → ℕ
occurrences e j [] = 0
occurrences e j ((o, k) ∷ xs) = (if e == o && j == k then 1 else 0) + occurrences e j xs

occurrences-append :
    (e j : ℕ) (xs ys : List (ℕ × ℕ))
    → occurrences e j (xs ++ ys) ≡ occurrences e j xs + occurrences e j ys
occurrences-append e j [] ys = omega arith
occurrences-append e j ((o, k) ∷ xs) ys = omega (arith, occurrences-append e j xs ys)

-- The position, `n` rows up, of the block that a block lies in.
abbrev up : (n j : ℕ) → ℕ
up zero j = j
up (suc n) j = up n (j / 2)

up-half : (n j : ℕ) → up n (j / 2) ≡ up n j / 2
up-half zero j = refl
up-half (suc n) j = up-half n (j / 2)

-- What lies above a node that exists is split.
split_above :
    (t : Tree) (d n j : ℕ)
    → live t (suc (n + d)) j ≡ true
    → is_split (t (node d (up (suc n) j))) ≡ true
unfolding live
split_above t d zero j h =
    let e : zero + d ≡ d = omega arith in
    let g : is_split (t (node (zero + d) (j / 2))) ≡ true = ground (arith, h) in rw e at g
split_above t d (suc n) j h =
    let e : suc n + d ≡ suc (n + d) = omega arith in
    let g : live t (suc n + d) (j / 2) ≡ true = ground (arith, h) in
    split_above t d n (j / 2) (rw e at g)

-- So nothing is handed out below a node that is not split.
none_below :
    (t : Tree) (o m j : ℕ)
    → o ≤ top
    → suc m ≤ o
    → is_split (t (node (top - o) (up (suc m) j))) ≡ false
    → full_leaf t (o - suc m) j ≡ false
none_below t o m j h l f =
    let e : top - (o - suc m) ≡ suc (m + (top - o)) = omega arith in
    elim (Bool-cases (live t (top - (o - suc m)) j)) [
      | inl a ↦ absurd (ground (arith, split_above t (top - o) m j (rw e at a), f))
      | inr a ↦ rw a refl
    ]

-- The traversal stays at or below the order that it starts at.
visits_below : (t : Tree) (o k e j : ℕ) → o < e → occurrences e j (visits t o k) ≡ 0
unfolding visits
visits_below t zero k e j h = ground (arith, h)
visits_below t (suc o) k e j h = ground (
  arith,
  h,
  visits_below t o (2 * k) e j,
  visits_below t o (2 * k + 1) e j,
  occurrences-append e j (visits t o (2 * k)) (visits t o (2 * k + 1)),
)

-- The two children of a block share out what lies below it.
halves :
    (m j k : ℕ) (f : Bool)
    → (if up m j == 2 * k && f then 1 else 0) + (if up m j == 2 * k + 1 && f then 1 else 0)
      ≡ (if up (suc m) j == k && f then 1 else 0)
halves m j k f = ground (arith, up-half m j)

module _ (t : Tree) (o k : ℕ) (h : suc o ≤ top) (here : live t (top - suc o) k ≡ true) where
  row : top - o ≡ suc (top - suc o)
  row = omega arith

  left_exists : is_split (t (node (top - suc o) k)) ≡ true → live t (top - o) (2 * k) ≡ true
  unfolding live
  left_exists s = let e : 2 * k / 2 ≡ k = omega arith in rw (row, e) (ground (arith, s, here))

  right_exists : is_split (t (node (top - suc o) k)) ≡ true → live t (top - o) (2 * k + 1) ≡ true
  unfolding live
  right_exists s =
      let e : (2 * k + 1) / 2 ≡ k = omega arith in rw (row, e) (ground (arith, s, here))

split-not-full : (s : NodeState) → is_split s ≡ true → is_full s ≡ false
split-not-full free h = refl
split-not-full split h = refl
split-not-full full h = absurd (ground (arith, h))

pub live_root : (t : Tree) → live t (top - top) 0 ≡ true
unfolding live
live_root t = refl

-- Blocks that are all handed out.
abbrev pub AllFull : Tree → List (ℕ × ℕ) → Type 0
AllFull t [] = Unit
AllFull t ((o, k) ∷ xs) = (o ≤ top) × (full_leaf t o k ≡ true) × AllFull t xs

AllFull-append :
    (t : Tree) (xs ys : List (ℕ × ℕ)) → AllFull t xs → AllFull t ys → AllFull t (xs ++ ys)
AllFull-append t [] ys a b = b
AllFull-append t ((o, k) ∷ xs) ys (l, f, a) b = (l, f, AllFull-append t xs ys a b)

-- The traversal visits only blocks that are handed out.
pub visits-AllFull :
    (t : Tree) (o k : ℕ) → o ≤ top → live t (top - o) k ≡ true → AllFull t (visits t o k)
unfolding visits
visits-AllFull t zero k l h = elim (Bool-cases (is_full (t (node top k)))) [
  | inl f ↦ rw f (omega arith, rw (h, f) refl, tt)
  | inr f ↦ rw f tt
]
visits-AllFull t (suc o) k l h = elim (Bool-cases (is_full (t (node (top - suc o) k)))) [
  | inl f ↦ rw f (l, rw (h, f) refl, tt)
  | inr f ↦ elim (Bool-cases (is_split (t (node (top - suc o) k)))) [
    | inl s ↦
        rw (f, s)
          (AllFull-append t (visits t o (2 * k)) (visits t o (2 * k + 1))
            (visits-AllFull t o (2 * k) (omega arith) (left_exists t o k l h s))
            (visits-AllFull t o (2 * k + 1) (omega arith) (right_exists t o k l h s)))
    | inr s ↦ rw (f, s) tt
  ]
]

-- The block itself is reported if it is handed out.
visits_self :
    (t : Tree) (o k j : ℕ)
    → live t (top - o) k ≡ true
    → occurrences o j (visits t o k) ≡ (if j == k && full_leaf t o j then 1 else 0)
unfolding visits
visits_self t zero k j l =
    let here : live t top k ≡ true = l in
    elim (eq_cases j k) [
      | inl e ↦ rw (e, ==_refl k, here) (ground arith)
      | inr ne ↦ rw (==_ne j k ne) (ground (arith, ne))
    ]
visits_self t (suc o) k j l =
    let below : occurrences (suc o) j (visits t o (2 * k) ++ visits t o (2 * k + 1)) ≡ 0 = omega (
      arith,
      occurrences-append (suc o) j (visits t o (2 * k)) (visits t o (2 * k + 1)),
      visits_below t o (2 * k) (suc o) j (omega arith),
      visits_below t o (2 * k + 1) (suc o) j (omega arith),
    ) in
    elim (eq_cases j k) [
      | inl e ↦
          rw (e, ==_refl k, l)
            (ground (arith, rw e at below, split-not-full (t (node (top - suc o) k))))
      | inr ne ↦ rw (==_ne j k ne) (ground (arith, ne, below))
    ]

-- Below a block of the tree the traversal reports exactly the blocks that are handed out, each once.
visits_count :
    (t : Tree) (o k e n j : ℕ)
    → o ≤ top
    → live t (top - o) k ≡ true
    → e + n ≡ o
    → occurrences e j (visits t o k) ≡ (if up n j == k && full_leaf t e j then 1 else 0)
unfolding visits
visits_count t o k e zero j h l b =
    let oe : o ≡ e = omega arith in rw oe (visits_self t e k j (rw oe at l))
visits_count t zero k e (suc m) j h l b = absurd (omega arith)
visits_count t (suc o) k e (suc m) j h l b =
    let eo : suc o - suc m ≡ e = omega arith in
    let apart : suc o ≢ e = omega arith in
    elim (Bool-cases (is_split (t (node (top - suc o) k)))) [
      | inl s ↦
          rw (split-not-full (t (node (top - suc o) k)) s, s)
            (ground (
              arith,
              occurrences-append e j (visits t o (2 * k)) (visits t o (2 * k + 1)),
              visits_count t o (2 * k) e m j (omega arith) (left_exists t o k h l s) (omega arith),
              visits_count t o (2 * k + 1) e m j (omega arith) (right_exists t o k h l s)
                  (omega arith),
              halves m j k (full_leaf t e j),
            ))
      | inr u ↦ elim (eq_cases (up (suc m) j) k) [
        | inl p ↦
            let v : is_split (t (node (top - suc o) (up (suc m) j))) ≡ false = rw p u in
            rw (u, rw eo at (none_below t (suc o) m j h (omega arith) v)) (ground (arith, apart))
        | inr np ↦ rw (u, ==_ne _ _ np) (ground (arith, apart))
      ]
    ]

up-zero : (n j : ℕ) → j < 2 ^ n → up n j ≡ 0
up-zero zero j h = omega (arith, pow-zero 2)
up-zero (suc n) j h = up-zero n (j / 2) (omega (arith, pow-suc 2 n))

-- The traversal of a whole pool reports the block of order `e` at position `j` once if it is handed out, and
-- not at all if it is not.
pub visits_once :
    (t : Tree) (e j : ℕ)
    → e ≤ top
    → occurrences e j (visits t top 0) ≡ (if full_leaf t e j then 1 else 0)
unfolding live
visits_once t e j h =
    let c = visits_count t top 0 e (top - e) j (omega arith) refl (omega arith) in
    elim (Bool-cases (live t (top - e) j)) [
      | inl l ↦ rw (up-zero (top - e) j (live-lt t (top - e) j l)) at c
      | inr d ↦ rw d (rw d at c ∙ ground arith)
    ]
