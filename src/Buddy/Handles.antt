-- ===== src/Buddy/Handles.antt =====
-- The pointers that a client holds, across calls for other blocks.
use sigma_malloc.Base.{
  ℕ, ◌+◌, ◌-◌, ◌≤◌, ◌<◌, ◌≡◌, sym, ap, ◌∙◌, ◌≢◌, ◌⊎◌, inl, inr, Bool, true, false, ◌&&◌, arith,
  ◌==◌, Bool-cases,
}
use mathlib.Core.Path.{ap₂}
use sigma_malloc.Base.Word.{word}
use sigma_malloc.Header.{
  AllocHeader, BuddyHeader, buddy_header_of, buddy_header_size, alloc_header_from_user,
}
use sigma_malloc.Buddy.{Buddy, block_size}
use sigma_malloc.Buddy.Tree.{Tree, live-lt}
use sigma_malloc.Buddy.Layout.{top, addr, addr_in_pool, leaf, Disjoint, leaves-Disjoint}
use sigma_malloc.Buddy.Lists.{base, at}
use sigma_malloc.Buddy.Split.{full_leaf}
use sigma_malloc.Buddy.Take.{IsHandle, Allocated, buddy_header_of_lem}
use sigma_malloc.Buddy.Release.{Released}

-- Blocks that are handed out are leaves.
full_is_leaf : (t : Tree) (o k : ℕ) → full_leaf t o k ≡ true → leaf t o k ≡ true
full_is_leaf t o k h = ground arith

-- Two blocks that are handed out are the same block or share no byte.
pub handed_out_apart :
    (b : Buddy) (o k e j : ℕ)
    → o ≤ top
    → e ≤ top
    → full_leaf b.pool.tree o k ≡ true
    → full_leaf b.pool.tree e j ≡ true
    → ((o ≡ e) × (k ≡ j)) ⊎ Disjoint o k e j
handed_out_apart b o k e j h l x y =
    leaves-Disjoint b.pool.tree o k e j h l (full_is_leaf b.pool.tree o k x)
      (full_is_leaf b.pool.tree e j y)

header_pos : (debug : Bool) → 0 < buddy_header_size debug
header_pos true = omega arith
header_pos false = omega arith

module _ (debug : Bool) (b b' : Buddy) (user target size alignment : ℕ)
    (a : Allocated debug b b' user target size alignment) (q e j : ℕ)
    (i : IsHandle debug b q e j) where
  still_out : full_leaf b'.pool.tree e j ≡ true
  still_out = ground (arith, a.handed_out e j i.in_range, i.handed_out)

  other_block : ((e ≡ target) × (j ≡ a.place)) → ⊥
  other_block (x, y) =
      let f : full_leaf b.pool.tree e j ≡ full_leaf b.pool.tree target a.place =
        ap₂ (full_leaf b.pool.tree) x y in
      ground (arith, i.handed_out, a.new)

  apart : Disjoint e j target a.place
  apart =
      elim (handed_out_apart b' e j target a.place i.in_range a.handle.in_range still_out
        a.handle.handed_out) [ inl same ↦ absurd (other_block same) | inr d ↦ d ]

  pub ne_user : q ≢ user
  ne_user eq = elim apart [
    | inl d ↦ omega (arith, i.inside, a.bytes.behind_header, a.usable)
    | inr d ↦ omega (arith, header_pos debug, eq, i.header_behind, a.bytes.before_end, a.usable)
  ]

  block_in_word :
      (o k : ℕ) → o ≤ top → full_leaf b'.pool.tree o k ≡ true → at b' o k + block_size o < word
  block_in_word o k h f =
      let s = live-lt b'.pool.tree (top - o) k (ground (arith, f)) in
      omega (arith, addr_in_pool (base b') o k h s, a.valid.fits)

  q_range : (buddy_header_size debug ≤ q) × (q < word)
  q_range =
      let w = block_in_word e j i.in_range still_out in
      (omega (arith, i.header_behind), omega (arith, i.inside, a.usable))

  user_range : (buddy_header_size debug ≤ user) × (user < word)
  user_range =
      let w = block_in_word target a.place a.handle.in_range a.handle.handed_out in
      (omega (arith, a.bytes.behind_header), omega (arith, a.bytes.before_end))

  ne_alloc_header : alloc_header_from_user q ≢ alloc_header_from_user user
  ne_alloc_header eq = elim (Bool-cases debug) [
    | inl d ↦ ne_user (omega (arith, q_range, user_range, size_d d))
    | inr d ↦ ne_user (omega (arith, q_range, user_range, size_r d))
  ]
    where
      size_d : debug ≡ true → buddy_header_size debug ≡ 80
      size_d d = rw d

      size_r : debug ≡ false → buddy_header_size debug ≡ 56
      size_r d = rw d

  ne_buddy_header : buddy_header_of debug q ≢ buddy_header_of debug user
  ne_buddy_header eq =
      let x = buddy_header_of_lem debug q q_range.0 q_range.1 in
      let y = buddy_header_of_lem debug user user_range.0 user_range.1 in
      ne_user (omega (arith, q_range, user_range))

  -- A pointer stays valid across an allocation, and its block shares no byte with the new one.
  pub Allocated-IsHandle : IsHandle debug b' q e j × Disjoint e j target a.place
  Allocated-IsHandle =
      let h = a.other_headers (alloc_header_from_user q) ne_alloc_header in
      let g = a.other_buddy_headers (buddy_header_of debug q) ne_buddy_header in
      let u = ap (λ x. addr x e j) (sym a.usable) in
      (
        record {
          in_range = i.in_range;
          handed_out = still_out;
          not_null = i.not_null;
          magic = ap (λ (x : AllocHeader). x.magic) h ∙ i.magic;
          type = ap (λ (x : AllocHeader). x.type) h ∙ i.type;
          stored_block = ap (λ (x : BuddyHeader). x.block) g ∙ i.stored_block ∙ u;
          stored_order = ap (λ (x : BuddyHeader). x.order) g ∙ i.stored_order;
          header_behind = omega (arith, i.header_behind);
          inside = omega (arith, i.inside);
        },
        apart,
      )

-- A pointer stays valid across the release of another block.
pub Released-IsHandle :
    (debug : Bool) (b b' : Buddy) (o k q e j : ℕ)
    → Released b b' o k
    → IsHandle debug b q e j
    → (((e ≡ o) × (j ≡ k)) → ⊥)
    → IsHandle debug b' q e j
Released-IsHandle debug b b' o k q e j r i other =
    let u = ap (λ x. addr x e j) (sym r.usable) in
    let t : (e == o && j == k) ≡ false = elim (Bool-cases (e == o && j == k)) [
      | inl y ↦ absurd (other (ground arith, ground arith))
      | inr n ↦ n
    ] in
    record {
      in_range = i.in_range;
      handed_out = r.handed_out e j i.in_range ∙ rw (i.handed_out, t);
      not_null = i.not_null;
      magic = ap (λ (x : AllocHeader). x.magic) (r.headers (alloc_header_from_user q)) ∙ i.magic;
      type = ap (λ (x : AllocHeader). x.type) (r.headers (alloc_header_from_user q)) ∙ i.type;
      stored_block = r.blocks (buddy_header_of debug q) ∙ i.stored_block ∙ u;
      stored_order = r.orders (buddy_header_of debug q) ∙ i.stored_order;
      header_behind = omega (arith, i.header_behind, r.usable);
      inside = omega (arith, i.inside, r.usable);
    }
