-- ===== src/Buddy/Size.antt =====
-- The order that `buddy_alloc` computes for a request, and the place of the user's bytes in a block.
use sigma_malloc.Base.{
  ℕ, zero, suc, ◌+◌, ◌-◌, ◌%◌, ◌^◌, ◌≤◌, ◌<◌, ◌≡◌, refl, ap, ◌⊎◌, inl, inr, Bool, true, false,
  arith, leb, lt→ltb, le→ltb, order_cases,
}
use native.Mathlib.Nat.{pow-zero, pow-le-pow_right}
use sigma_malloc.Base.Word.{
  word, size_max, add_size, align_up, IsAlignment, IsAlignment-lt-word, align_up-AlignedUp,
}
use sigma_malloc.Header.{buddy_header_size}
use sigma_malloc.Buddy.{
  pool_size, page_size, num_orders, floor_log2_from, floor_log2, ceil_log2, size_to_order,
  block_size,
}

floor_log2_from_lem :
    (b v : ℕ)
    → 0 < v
    → v < 2 ^ suc b
    → (2 ^ floor_log2_from b v ≤ v) × (v < 2 ^ suc (floor_log2_from b v))
unfolding floor_log2_from
floor_log2_from_lem zero v pos h = (omega (arith, pow-zero 2), h)
floor_log2_from_lem (suc b) v pos h = elim (order_cases v (2 ^ suc b)) [
  | inl lt ↦
      let e : leb (2 ^ suc b) v ≡ false = ground arith in rw e (floor_log2_from_lem b v pos lt)
  | inr ge ↦ let e : leb (2 ^ suc b) v ≡ true = ground arith in rw e (ge, h)
]

-- The least power of two that is not below a word.
pub ceil_log2_lem :
    (v : ℕ)
    → 1 < v
    → v < word
    → (0 < ceil_log2 v) × (v ≤ 2 ^ ceil_log2 v) × (2 ^ (ceil_log2 v - 1) < v)
unfolding ceil_log2 floor_log2
ceil_log2_lem v h l =
    let (a, b) = floor_log2_from_lem 63 (v - 1) (omega arith) (omega arith) in
    let e : leb v 1 ≡ false = ground arith in
    let f : floor_log2_from 63 (v - 1) + 1 ≡ suc (floor_log2_from 63 (v - 1)) = omega arith in
    let g : floor_log2_from 63 (v - 1) + 1 - 1 ≡ floor_log2_from 63 (v - 1) = omega arith in
    rw (e, g, f) (omega arith, omega arith, omega arith)

-- Everything that goes into a block: a pointer, the header, the padding and the user's bytes.
abbrev pub total_size : Bool → ℕ → ℕ → ℕ
total_size debug size alignment = size + 8 + buddy_header_size debug + alignment - 1

pow_mono : (i j : ℕ) → 2 ^ i < 2 ^ j → i < j
pow_mono i j h = elim (order_cases i j) [
  | inl l ↦ l
  | inr g ↦ let p : 2 ^ j ≤ 2 ^ i = pow-le-pow_right {n = 2} (omega arith) g in absurd (omega arith)
]

order_of_total :
    (v : ℕ)
    → page_size < v
    → v ≤ pool_size
    → (ceil_log2 v - 12 < num_orders)
      × (v ≤ block_size (ceil_log2 v - 12))
      × (block_size (ceil_log2 v - 12 - 1) < v)
order_of_total v h l =
    let (pos, up, down) = ceil_log2_lem v (omega arith) (omega arith) in
    let a : 12 < ceil_log2 v = pow_mono 12 (ceil_log2 v) (omega arith) in
    let b : ceil_log2 v - 1 < 22 = pow_mono (ceil_log2 v - 1) 22 (omega arith) in
    let e : ceil_log2 v - 12 + 12 ≡ ceil_log2 v = omega arith in
    let f : ceil_log2 v - 12 - 1 + 12 ≡ ceil_log2 v - 1 = omega arith in
    let e' : 2 ^ (ceil_log2 v - 12 + 12) ≡ 2 ^ ceil_log2 v = ap (λ n. 2 ^ n) e in
    let f' : 2 ^ (ceil_log2 v - 12 - 1 + 12) ≡ 2 ^ (ceil_log2 v - 1) = ap (λ n. 2 ^ n) f in
    (omega arith, omega arith, omega arith)

-- Requests that fit no block have no order below 11; the others have the least order whose block
-- holds them.
pub size_to_order_lem :
    (debug : Bool) (size alignment : ℕ)
    → size < word
    → IsAlignment alignment
    → (size_to_order debug size alignment < num_orders
        → (total_size debug size alignment ≤ block_size (size_to_order debug size alignment))
          × ((size_to_order debug size alignment ≡ 0)
              ⊎ (block_size (size_to_order debug size alignment - 1)
                  < total_size debug size alignment)))
      × (total_size debug size alignment ≤ pool_size
          → size_to_order debug size alignment < num_orders)
unfolding size_to_order
size_to_order_lem debug size alignment w al =
    let (pos, small) = IsAlignment-lt-word al in
    elim (order_cases (size_max - 8 - buddy_header_size debug - (alignment - 1)) size) [
      | inl big ↦ rw (lt→ltb _ _ big) ((λ h. absurd (omega arith)), (λ h. absurd (omega arith)))
      | inr fits ↦ elim (order_cases page_size (total_size debug size alignment)) [
        | inr page ↦
            let e : leb (total_size debug size alignment) page_size ≡ true = ground arith in
            rw (le→ltb _ _ fits, e) ((λ h. (page, inl refl)), (λ h. omega arith))
        | inl more ↦ elim (order_cases pool_size (total_size debug size alignment)) [
          | inl over ↦
              let e : leb (total_size debug size alignment) page_size ≡ false = ground arith in
              rw (le→ltb _ _ fits, e, lt→ltb _ _ over)
                ((λ h. absurd (omega arith)), (λ h. absurd (omega arith)))
          | inr pool ↦
              let e : leb (total_size debug size alignment) page_size ≡ false = ground arith in
              let r = order_of_total (total_size debug size alignment) more pool in
              rw (le→ltb _ _ fits, e, le→ltb _ _ pool) ((λ h. (r.1, inr r.2)), (λ h. r.0))
        ]
      ]
    ]

-- Where the user's bytes lie in a block that is large enough: aligned, behind the pointer and the
-- header, and before the end of the block.
pub record UserBytes (debug : Bool) (block order size alignment user : ℕ) : Type 0 where
  pub behind_header : block + 8 + buddy_header_size debug ≤ user
  pub before_end : user + size ≤ block + block_size order
  pub aligned : user % alignment ≡ 0

pub user_address :
    (debug : Bool) (block order size alignment : ℕ)
    → IsAlignment alignment
    → block + block_size order < word
    → total_size debug size alignment ≤ block_size order
    → UserBytes debug block order size alignment
        (align_up (add_size block (8 + buddy_header_size debug)) alignment)
user_address debug block order size alignment al fits enough =
    let (pos, small) = IsAlignment-lt-word al in
    let e : add_size block (8 + buddy_header_size debug) ≡ block + (8 + buddy_header_size debug) =
      omega arith in
    let u = align_up-AlignedUp (block + (8 + buddy_header_size debug)) alignment al (omega arith) in
    rw e (record {
      behind_header = omega (arith, u.above);
      before_end = omega (arith, u.near);
      aligned = u.multiple;
    })
