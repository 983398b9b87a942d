-- ===== src/Buddy/Tree.antt =====
-- The node array as a complete binary tree. A node has a depth `d` (the order is `10 - d`) and a
-- position `k` in its row; a node exists if every node above it is split.
use sigma_malloc.Base.{
  ℕ, zero, suc, ◌+◌, ◌-◌, ◌*◌, ◌/◌, ◌%◌, ◌^◌, ◌≤◌, ◌<◌, ◌≡◌, refl, sym, ap, ◌∙◌, ◌≢◌, inl, inr,
  Bool, true, false, not, ◌&&◌, ◌||◌, arith, ◌==◌, if◌then◌else◌, ==_ne, Bool-cases, order_cases,
  eq_cases,
}
use mathlib.Core.Path.{ap₂}
use native.Mathlib.Nat.{pow-zero, pow-suc, pow-le-pow_right}
use sigma_malloc.Base.Bits.{pow2_pos, bit_and-one}
use sigma_malloc.Links.{update}
use sigma_malloc.Buddy.{
  NodeState, free, split, is_split, node_parent, node_left, node_right, node_buddy,
}

abbrev pub Tree : Type 0
Tree = ℕ → NodeState

-- Index in the array.
unfoldable pub node : ℕ → ℕ → ℕ
node d k = 2 ^ d - 1 + k

unfoldable pub sibling : ℕ → ℕ
sibling k = if k % 2 == 0 then k + 1 else k - 1

pub sibling-half : (k : ℕ) → sibling k / 2 ≡ k / 2
unfolding sibling
sibling-half k = ground arith

pub sibling_ne : (k : ℕ) → (sibling k == k) ≡ false
unfolding sibling
sibling_ne k = ground arith

-- The two children of a node.
pub same_half : (j k : ℕ) → (j / 2 == k / 2) ≡ (j == k || j == sibling k)
unfolding sibling
same_half j k = elim (Bool-cases (j / 2 == k / 2)) [
  | inl e ↦ rw e (ground arith)
  | inr n ↦ rw n (ground arith)
]

pub left-node : (d k : ℕ) → node_left (node d k) ≡ node (suc d) (2 * k)
unfolding node_left node
left-node d k = omega (arith, pow-suc 2 d, pow2_pos d)

pub right-node : (d k : ℕ) → node_right (node d k) ≡ node (suc d) (2 * k + 1)
unfolding node_right node
right-node d k = omega (arith, pow-suc 2 d, pow2_pos d)

pub parent-node : (d k : ℕ) → node_parent (node (suc d) k) ≡ node d (k / 2)
unfolding node_parent node
parent-node d k = omega (arith, pow-suc 2 d, pow2_pos d)

pub buddy-node : (d k : ℕ) → node_buddy (node (suc d) k) ≡ node (suc d) (sibling k)
unfolding node_buddy node sibling
buddy-node d k = ground (arith, pow-suc 2 d, pow2_pos d, bit_and-one (2 ^ suc d - 1 + k))

rows_apart : (d e k j : ℕ) → d < e → k < 2 ^ d → node d k ≢ node e j
unfolding node
rows_apart d e k j l h eq =
    let p : 2 ^ suc d ≤ 2 ^ e = pow-le-pow_right {n = 2} (omega arith) l in
    absurd (omega (arith, pow-suc 2 d, pow2_pos d))

node_row : (d k j : ℕ) → node d k ≡ node d j → k ≡ j
unfolding node
node_row d k j h = omega arith

pub node-injective : (d e k j : ℕ) → k < 2 ^ d → j < 2 ^ e → node d k ≡ node e j → (d ≡ e) × (k ≡ j)
node-injective d e k j h g eq = elim (order_cases d e) [
  | inl l ↦ absurd (rows_apart d e k j l h eq)
  | inr g1 ↦ elim (order_cases e d) [
    | inl l ↦ absurd (rows_apart e d j k l g (sym eq))
    | inr g2 ↦ let de : d ≡ e = omega arith in (de, same_row (rw de at eq))
  ]
]
  where
    same_row : node e k ≡ node e j → k ≡ j
    same_row q = node_row e k j q

pub node-eq : (d e k j : ℕ) → k < 2 ^ d → j < 2 ^ e → (node e j == node d k) ≡ (e == d && j == k)
node-eq d e k j h g = elim (Bool-cases (e == d && j == k)) [
  | inl same ↦ rw same (ground (arith, ap₂ node (ed same) (jk same)))
  | inr other ↦ elim (eq_cases (node e j) (node d k)) [
    | inl q ↦ ground (arith, node-injective e d j k g h q)
    | inr n ↦ rw other (==_ne _ _ n)
  ]
]
  where
    ed : (e == d && j == k) ≡ true → e ≡ d
    ed s = ground arith

    jk : (e == d && j == k) ≡ true → j ≡ k
    jk s = ground arith

-- The array with one entry replaced.
abbrev pub put : Tree → ℕ → ℕ → NodeState → Tree
put t d k s = update t (node d k) s

pub put_lem :
    (t : Tree) (d k : ℕ) (s : NodeState) (e j : ℕ)
    → k < 2 ^ d
    → j < 2 ^ e
    → put t d k s (node e j) ≡ (if e == d && j == k then s else t (node e j))
put_lem t d k s e j h g = rw (node-eq d e k j h g)

unfoldable pub live : Tree → ℕ → ℕ → Bool
live t zero k = k == 0
live t (suc d) k = live t d (k / 2) && is_split (t (node d (k / 2)))

pub live-lt : (t : Tree) (d k : ℕ) → live t d k ≡ true → k < 2 ^ d
unfolding live
live-lt t zero k h = ground (arith, pow-zero 2)
live-lt t (suc d) k h = ground (arith, pow-suc 2 d, live-lt t d (k / 2))

same_entry :
    (t : Tree) (e d j k : ℕ)
    → (e == d && j == k) ≡ true
    → is_split (t (node e j)) ≡ is_split (t (node d k))
same_entry t e d j k q =
    let a : e ≡ d = ground arith in
    let b : j ≡ k = ground arith in ap₂ (λ x y. is_split (t (node x y))) a b

-- Rewriting an entry that neither is nor becomes a split node moves no node in or out.
pub live-put :
    (t : Tree) (d k : ℕ) (s : NodeState) (e j : ℕ)
    → k < 2 ^ d
    → is_split (t (node d k)) ≡ false
    → is_split s ≡ false
    → live (put t d k s) e j ≡ live t e j
unfolding live
live-put t d k s zero j h a b = refl
live-put t d k s (suc e) j h a b = elim (Bool-cases (live t e (j / 2))) [
  | inl l ↦
      rw (live-put t d k s e (j / 2) h a b, l)
        (ground (arith, put_lem t d k s e (j / 2) h (live-lt t e (j / 2) l), same))
  | inr n ↦ rw (live-put t d k s e (j / 2) h a b, n)
]
  where
    same : (e == d && (j / 2) == k) ≡ true → is_split (t (node e (j / 2))) ≡ false
    same q = same_entry t e d (j / 2) k q ∙ a

-- The array after a free node has been split.
unfoldable pub split_tree : Tree → ℕ → ℕ → Tree
split_tree t d k = put (put (put t d k split) (suc d) (2 * k) free) (suc d) (2 * k + 1) free

pub split_tree_lem :
    (t : Tree) (d k e j : ℕ)
    → k < 2 ^ d
    → j < 2 ^ e
    → split_tree t d k (node e j) ≡ (
        if e == suc d && (j / 2) == k
        then free
        else if e == d && j == k
        then split
        else t (node e j))
unfolding split_tree
split_tree_lem t d k e j h g =
    let p : 2 ^ suc d ≡ 2 ^ d * 2 = pow-suc 2 d in
    let t1 = put t d k split in
    let t2 = put t1 (suc d) (2 * k) free in
    let a = put_lem t d k split e j h g in
    let b = put_lem t1 (suc d) (2 * k) free e j (omega arith) g in
    let c = put_lem t2 (suc d) (2 * k + 1) free e j (omega arith) g in ground (arith, a, b, c)

pub child_of_free :
    (t : Tree) (d k e j : ℕ)
    → t (node d k) ≡ free
    → (e == suc d && (j / 2) == k) ≡ true
    → live t e j ≡ false
unfolding live
child_of_free t d k zero j f h = ground arith
child_of_free t d k (suc e) j f h =
    let g : is_split (t (node e (j / 2))) ≡ is_split (t (node d k)) =
      same_entry t e d (j / 2) k (ground arith) in
    ground (arith, g, ap is_split f)

live_entry :
    (t : Tree) (d k e j : ℕ) → live t d k ≡ true → (e == d && j == k) ≡ true → live t e j ≡ true
live_entry t d k e j h q =
    let a : e ≡ d = ground arith in let b : j ≡ k = ground arith in ap₂ (live t) a b ∙ h

pub live-split_tree :
    (t : Tree) (d k e j : ℕ)
    → live t d k ≡ true
    → t (node d k) ≡ free
    → live (split_tree t d k) e j ≡ (live t e j || (e == suc d && (j / 2) == k))
unfolding live
live-split_tree t d k zero j h f = ground arith
live-split_tree t d k (suc e) j h f =
    let q = j / 2 in
    let kd = live-lt t d k h in
    let bound : (e == suc d && (q / 2) == k) ≡ true → q < 2 ^ e = λ b. child_lt b kd in
    ground (
      arith,
      live-split_tree t d k e q h f,
      child_of_free t d k e q f,
      live_entry t d k e q h,
      live-lt t e q,
      bound,
      split_tree_lem t d k e q kd,
    )
  where
    child_lt : (e == suc d && (j / 2 / 2) == k) ≡ true → k < 2 ^ d → j / 2 < 2 ^ e
    child_lt b kd =
        let a : e ≡ suc d = ground arith in
        let c : j / 2 / 2 ≡ k = ground arith in rw a (omega (arith, pow-suc 2 d))

-- The array after two free siblings have been merged into their parent at depth `d`.
pub live-merge :
    (t : Tree) (d k e j : ℕ)
    → live t d k ≡ true
    → is_split (t (node (suc d) (2 * k))) ≡ false
    → is_split (t (node (suc d) (2 * k + 1))) ≡ false
    → live (put t d k free) e j ≡ (live t e j && not (e == suc d && (j / 2) == k))
unfolding live
live-merge t d k zero j h f g = ground arith
live-merge t d k (suc e) j h f g =
    let q = j / 2 in
    let kd = live-lt t d k h in
    ground (arith, live-merge t d k e q h f g, live-lt t e q, put_lem t d k free e q kd, leaf_child)
  where
    leaf_child : (e == suc d && (j / 2 / 2) == k) ≡ true → is_split (t (node e (j / 2))) ≡ false
    leaf_child b = elim (Bool-cases ((j / 2) % 2 == 0)) [
      | inl even ↦ same_entry t e (suc d) (j / 2) (2 * k) (ground arith) ∙ f
      | inr odd ↦ same_entry t e (suc d) (j / 2) (2 * k + 1) (ground arith) ∙ g
    ]
