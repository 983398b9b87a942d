-- ===== src/Buddy/Layout.antt =====
-- Where the blocks lie: the block of order `o` at position `k` of its row, its node, and the proof
-- that blocks which are leaves of the tree do not overlap.
use sigma_malloc.Base.{
  ℕ, zero, suc, ◌+◌, ◌-◌, ◌*◌, ◌/◌, ◌%◌, ◌^◌, ◌≤◌, ◌<◌, ◌≡◌, refl, sym, ap, ◌∙◌, ◌⊎◌, inl, inr,
  Bool, true, not, ◌&&◌, arith, order_cases,
}
use native.Mathlib.Nat.{pow-suc, mul-div_cancel}
use sigma_malloc.Base.Bits.{pow2_pos}
use sigma_malloc.Base.Word.{word, sub_size}
use sigma_malloc.Links.{Ptr}
use sigma_malloc.Buddy.{
  Pool, pool_size, is_free, is_split, block_size, ptr_to_node_index, node_index_to_ptr,
}
use sigma_malloc.Buddy.Tree.{Tree, node, live}

abbrev pub top : ℕ
top = 10

pub block_size_pos : (o : ℕ) → 0 < block_size o
block_size_pos o = pow2_pos (o + 12)

pub block_size-suc : (o : ℕ) → block_size (suc o) ≡ 2 * block_size o
block_size-suc o =
    let e : suc o + 12 ≡ suc (o + 12) = omega arith in
    let f : 2 ^ (suc o + 12) ≡ 2 ^ suc (o + 12) = ap (λ n. 2 ^ n) e in
    omega (arith, pow-suc 2 (o + 12))

-- A row of blocks fills the pool.
pub row_total_down : (d o : ℕ) → d + o ≡ top → 2 ^ d * block_size o ≡ pool_size
row_total_down zero o e = let f : o ≡ 10 = omega arith in rw f refl
row_total_down (suc d) o e =
    let ih : 2 ^ d * block_size (suc o) ≡ pool_size = row_total_down d (suc o) (omega arith) in
    let q : 2 ^ d * block_size (suc o) ≡ 2 ^ d * (2 * block_size o) =
      ap (λ n. 2 ^ d * n) (block_size-suc o) in
    let r : 2 ^ suc d * block_size o ≡ 2 ^ d * 2 * block_size o =
      ap (λ n. n * block_size o) (pow-suc 2 d) in
    omega arith

pub mul_step : (j k s : ℕ) → j < k → j * s + s ≤ k * s
mul_step j k s h = grind arith

abbrev pub addr : Ptr → ℕ → ℕ → Ptr
addr base o k = base + k * block_size o

pub addr-injective : (base o j k : ℕ) → addr base o j ≡ addr base o k → j ≡ k
addr-injective base o j k e =
    let pos = block_size_pos o in
    elim (order_cases j k) [
      | inl l ↦ absurd (omega (arith, mul_step j k (block_size o) l))
      | inr g ↦ elim (order_cases k j) [
        | inl l ↦ absurd (omega (arith, mul_step k j (block_size o) l))
        | inr g' ↦ omega arith
      ]
    ]

pub addr_in_pool :
    (base o k : ℕ) → o ≤ top → k < 2 ^ (top - o) → addr base o k + block_size o ≤ base + pool_size
addr_in_pool base o k h l =
    let t = row_total_down (top - o) o (omega arith) in
    omega (arith, mul_step k (2 ^ (top - o)) (block_size o) l)

-- Nodes and pointers of the code.
module _ (pool : Pool) (o k : ℕ) (h : o ≤ top) (l : k < 2 ^ (top - o))
    (fits : pool.usable_start + pool_size < word) where
  pub ptr_to_node_index-addr :
      ptr_to_node_index pool (addr pool.usable_start o k) o ≡ node (top - o) k
  unfolding ptr_to_node_index node
  ptr_to_node_index-addr =
      let b = addr_in_pool pool.usable_start o k h l in
      let pos = block_size_pos o in
      let s : sub_size (addr pool.usable_start o k) pool.usable_start ≡ k * block_size o =
        omega arith in
      let q : k * block_size o / block_size o ≡ k = mul-div_cancel k pos in rw (s, q)

  pub node_index_to_ptr-node :
      node_index_to_ptr pool (node (top - o) k) o ≡ addr pool.usable_start o k
  unfolding node_index_to_ptr node
  node_index_to_ptr-node =
      let b = addr_in_pool pool.usable_start o k h l in
      let pos = block_size_pos o in
      let s : 2 ^ (top - o) - 1 + k - (2 ^ (top - o) - 1) ≡ k = omega arith in rw s (omega arith)

-- A leaf is a node that exists and is not split.
abbrev pub leaf : Tree → ℕ → ℕ → Bool
leaf t o k = live t (top - o) k && not (is_split (t (node (top - o) k)))

abbrev pub free_leaf : Tree → ℕ → ℕ → Bool
free_leaf t o k = live t (top - o) k && is_free (t (node (top - o) k))

-- The child at depth `suc e` lies inside its parent.
half_inside :
    (e j : ℕ)
    → suc e ≤ top
    → (j / 2 * block_size (top - e) ≤ j * block_size (top - suc e))
      × (j * block_size (top - suc e) + block_size (top - suc e)
          ≤ j / 2 * block_size (top - e) + block_size (top - e))
half_inside e j h =
    let s = block_size (top - suc e) in
    let q : top - e ≡ suc (top - suc e) = omega arith in
    let p : block_size (top - e) ≡ 2 * s = ap block_size q ∙ block_size-suc (top - suc e) in
    let m : j * s ≡ (2 * (j / 2) + j % 2) * s = ap (λ n. n * s) (omega arith) in
    let r : j / 2 * block_size (top - e) ≡ j / 2 * (2 * s) = ap (λ n. j / 2 * n) p in
    let u : j % 2 * s ≤ s = grind arith in (omega arith, omega arith)

record Above (t : Tree) (e j d : ℕ) : Type 0 where
  place : ℕ
  exists : live t d place ≡ true
  is_split : is_split (t (node d place)) ≡ true
  from : place * block_size (top - d) ≤ j * block_size (top - e)
  upto :
      j * block_size (top - e) + block_size (top - e)
      ≤ place * block_size (top - d) + block_size (top - d)

-- Above a node that exists there is a split node at every smaller depth, and its block contains the
-- block of the node.
above : (t : Tree) (e j d : ℕ) → e ≤ top → d < e → live t e j ≡ true → Above t e j d
unfolding live
above t zero j d h l v = absurd (omega arith)
above t (suc e) j d h l v = elim (order_cases d e) [
  | inl lt ↦
      let up = above t e (j / 2) d (omega arith) lt (ground arith) in
      let (a, b) = half_inside e j h in
      record {
        place = up.place;
        exists = up.exists;
        is_split = up.is_split;
        from = omega (arith, up.from, a);
        upto = omega (arith, up.upto, b);
      }
  | inr ge ↦
      let de : d ≡ e = omega arith in
      rw de (record {
        place = j / 2;
        exists = ground arith;
        is_split = ground arith;
        from = (half_inside e j h).0;
        upto = (half_inside e j h).1;
      })
]

-- Two blocks share no byte.
abbrev pub Disjoint : ℕ → ℕ → ℕ → ℕ → Type 0
Disjoint o k o' j =
    (k * block_size o + block_size o ≤ j * block_size o')
    ⊎ (j * block_size o' + block_size o' ≤ k * block_size o)

record Covers (t : Tree) (o o' j : ℕ) : Type 0 where
  place : ℕ
  is_split : is_split (t (node (top - o) place)) ≡ true
  from : place * block_size o ≤ j * block_size o'
  upto : j * block_size o' + block_size o' ≤ place * block_size o + block_size o

covers : (t : Tree) (o o' j : ℕ) → o ≤ top → o' < o → live t (top - o') j ≡ true → Covers t o o' j
covers t o o' j h l v =
    let u = above t (top - o') j (top - o) (omega arith) (omega arith) v in
    let b1 : block_size (top - (top - o)) ≡ block_size o = ap block_size (omega arith) in
    let b2 : block_size (top - (top - o')) ≡ block_size o' = ap block_size (omega arith) in
    let m1 = ap (λ n. u.place * n) b1 in
    let m2 = ap (λ n. j * n) b2 in
    record {
      place = u.place;
      is_split = u.is_split;
      from = omega (arith, u.from);
      upto = omega (arith, u.upto);
    }

lower_Disjoint : (t : Tree) (o k o' j : ℕ) → leaf t o k ≡ true → Covers t o o' j → Disjoint o k o' j
lower_Disjoint t o k o' j a u = elim (order_cases u.place k) [
  | inl lt ↦ inr (omega (arith, u.upto, mul_step u.place k (block_size o) lt))
  | inr ge ↦ elim (order_cases k u.place) [
    | inl lt ↦ inl (omega (arith, u.from, mul_step k u.place (block_size o) lt))
    | inr ge' ↦ absurd (not_leaf (omega arith))
  ]
]
  where
    not_leaf : k ≡ u.place → ⊥
    not_leaf e = ground (arith, ap (λ n. is_split (t (node (top - o) n))) e, u.is_split)

-- The leaves of the tree do not overlap.
pub leaves-Disjoint :
    (t : Tree) (o k o' j : ℕ)
    → o ≤ top
    → o' ≤ top
    → leaf t o k ≡ true
    → leaf t o' j ≡ true
    → ((o ≡ o') × (k ≡ j)) ⊎ Disjoint o k o' j
leaves-Disjoint t o k o' j h h' a b = elim (order_cases o' o) [
  | inl lt ↦ inr (lower_Disjoint t o k o' j a (covers t o o' j h lt (ground arith)))
  | inr ge ↦ elim (order_cases o o') [
    | inl lt ↦ inr (flip (lower_Disjoint t o' j o k b (covers t o' o k h' lt (ground arith))))
    | inr ge' ↦ same_row (omega arith)
  ]
]
  where
    flip : Disjoint o' j o k → Disjoint o k o' j
    flip (inl x) = inr x
    flip (inr x) = inl x

    same_row : o' ≡ o → ((o ≡ o') × (k ≡ j)) ⊎ Disjoint o k o' j
    same_row e = elim (order_cases k j) [
      | inl lt ↦ inr (inl (rw e (mul_step k j (block_size o) lt)))
      | inr ge ↦ elim (order_cases j k) [
        | inl lt ↦ inr (inr (rw e (mul_step j k (block_size o) lt)))
        | inr ge' ↦ inl (sym e, omega arith)
      ]
    ]
