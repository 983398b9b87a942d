-- ===== src/Buddy/Alloc.antt =====
-- The steps of `buddy_alloc`: the search for a list, taking its head, and marking the block.
use sigma_malloc.Base.{
  ℕ, zero, suc, ◌+◌, ◌-◌, ◌^◌, ◌≤◌, ◌<◌, ◌≡◌, refl, ap, ◌∙◌, ◌≢◌, inl, inr, true, ◌&&◌, ◌||◌, List,
  arith, ltb, ◌==◌, Bool-cases, eq_cases, erase,
}
use mathlib.Core.Path.{ap₂}
use sigma_malloc.Links.{null, update}
use sigma_malloc.Buddy.{
  Buddy, Pool, free, full, num_orders, is_split, mark, remove_free, ptr_to_node_index, find_order,
}
use sigma_malloc.Buddy.Tree.{node, live, live-lt, live-put, put_lem}
use sigma_malloc.Buddy.Layout.{top, free_leaf, ptr_to_node_index-addr}
use sigma_malloc.Buddy.Lists.{
  HasLists, AreLeaves, SameHeaders, base, at, without_block, HasLists-eq, mark-HasLists,
  remove_free-HasLists,
}
use sigma_malloc.Buddy.Split.{full_leaf, IsValid, Holding}

-- The search stops at the first order, from `o` on, whose list is not empty.
pub record Found (pool : Pool) (o c : ℕ) : Type 0 where
  pub from : o ≤ c
  pub upto : c ≤ num_orders
  pub holds : c < num_orders → pool.free_lists c ≢ null
  pub skipped : (i : ℕ) → o ≤ i → i < c → pool.free_lists i ≡ null

pub find_order-Found :
    (f : ℕ) (pool : Pool) (o : ℕ)
    → o ≤ num_orders
    → num_orders ≤ o + f
    → Found pool o (find_order f pool o)
unfolding find_order
find_order-Found zero pool o h l = record {
  from = omega arith;
  upto = h;
  holds = λ x. absurd (omega arith);
  skipped = λ i x y. absurd (omega arith);
}
find_order-Found (suc f) pool o h l =
    elim (Bool-cases (ltb o num_orders && (pool.free_lists o == null))) [
      | inl go ↦
          let r = find_order-Found f pool (o + 1) (ground arith) (omega arith) in
          rw go (record {
            from = omega (arith, r.from);
            upto = r.upto;
            holds = r.holds;
            skipped = λ i x y. elim (eq_cases i o) [
              | inl e ↦ ap pool.free_lists e ∙ ground arith
              | inr n ↦ r.skipped i (omega arith) y
            ];
          })
      | inr stop ↦ rw stop (record {
        from = omega arith;
        upto = h;
        holds = λ x. ground arith;
        skipped = λ i x y. absurd (omega arith);
      })
    ]

-- A free leaf of order `c` becomes a held block.
module _ (b : Buddy) (lists : ℕ → List ℕ) (v : IsValid b lists) where
  pub free-AreLeaves : AreLeaves b.pool.tree (free_leaf b.pool.tree)
  free-AreLeaves o k h m = ground arith

  pub remove_free-Holding :
      (c k : ℕ)
      → c ≤ top
      → free_leaf b.pool.tree c k ≡ true
      → Holding (remove_free c (at b c k) b) (update lists c (erase k (lists c))) c k
  unfolding remove_free
  remove_free-Holding c k h m = record {
    in_range = h;
    exists = ground arith;
    is_free = ground arith;
    others = removed;
  }
    where
      removed :
          HasLists
            (remove_free c (at b c k) b)
            (update lists c (erase k (lists c)))
            (without_block (free_leaf b.pool.tree) c k)
      removed =
          remove_free-HasLists b lists (free_leaf b.pool.tree) v c k h b.pool.tree free-AreLeaves m

  pub tree-remove_free : (c p : ℕ) → (remove_free c p b).pool.tree ≡ b.pool.tree
  unfolding remove_free
  tree-remove_free c p = refl

  pub headers-remove_free : (c p : ℕ) → SameHeaders b (remove_free c p b)
  unfolding remove_free
  headers-remove_free c p = (refl, refl)

  pub usable-remove_free : (c p : ℕ) → base (remove_free c p b) ≡ base b
  unfolding remove_free
  usable-remove_free c p = refl

-- Marking the held block as full makes the pool consistent again, with one block more handed out.
module _ (b : Buddy) (lists : ℕ → List ℕ) (o k : ℕ) (held : Holding b lists o k) where
  small : k < 2 ^ (top - o)
  small = live-lt b.pool.tree (top - o) k held.exists

  self_test : (e : ℕ) → e ≤ top → ((top - e) == (top - o)) ≡ (e == o)
  self_test e h =
      let l : o ≤ top = held.in_range in
      elim (eq_cases e o) [ inl q ↦ ground arith | inr n ↦ ground arith ]

  abbrev pub filled : Buddy
  filled = mark (ptr_to_node_index b.pool (at b o k) o) full b

  tree-filled : filled.pool.tree ≡ update b.pool.tree (node (top - o) k) full
  unfolding mark
  tree-filled = rw (ptr_to_node_index-addr b.pool o k held.in_range small held.others.fits)

  entry_self : (e j : ℕ) → (e == o && j == k) ≡ true → b.pool.tree (node (top - e) j) ≡ free
  entry_self e j q =
      let x : e ≡ o = ground arith in
      let y : j ≡ k = ground arith in ap₂ (λ u w. b.pool.tree (node (top - u) w)) x y ∙ held.is_free

  live_self : (e j : ℕ) → (e == o && j == k) ≡ true → live b.pool.tree (top - e) j ≡ true
  live_self e j q =
      let x : e ≡ o = ground arith in
      let y : j ≡ k = ground arith in ap₂ (λ u w. live b.pool.tree (top - u) w) x y ∙ held.exists

  pub leaves-filled :
      (e j : ℕ)
      → e ≤ top
      → (without_block (free_leaf b.pool.tree) o k e j ≡ free_leaf filled.pool.tree e j)
        × (full_leaf filled.pool.tree e j ≡ (full_leaf b.pool.tree e j || (e == o && j == k)))
  leaves-filled e j h =
      let a =
        live-put b.pool.tree (top - o) k full (top - e) j small (ap is_split held.is_free) refl in
      let c = λ (l : j < 2 ^ (top - e)). put_lem b.pool.tree (top - o) k full (top - e) j small l in
      let l = live-lt b.pool.tree (top - e) j in
      (
        ground (
          arith,
          ap (λ t. free_leaf t e j) tree-filled,
          a,
          c,
          l,
          self_test e h,
          entry_self e j,
          live_self e j,
        ),
        ground (
          arith,
          ap (λ t. full_leaf t e j) tree-filled,
          a,
          c,
          l,
          self_test e h,
          entry_self e j,
          live_self e j,
        ),
      )

  pub filled-IsValid : IsValid filled lists
  filled-IsValid =
      HasLists-eq filled lists (without_block (free_leaf b.pool.tree) o k)
        (free_leaf filled.pool.tree) (λ e j h. (leaves-filled e j h).0)
        (mark-HasLists b lists (without_block (free_leaf b.pool.tree) o k)
          (ptr_to_node_index b.pool (at b o k) o) full held.others)
