-- ===== src/Buddy/Split.antt =====
-- The splitting loop of `buddy_alloc`. While it runs, it holds one free block that is in no list.
use sigma_malloc.Base.{
  ℕ, zero, suc, ◌+◌, ◌-◌, ◌*◌, ◌/◌, ◌^◌, ◌≤◌, ◌<◌, ◌≡◌, refl, sym, ap, ◌∙◌, inl, inr, Bool, true,
  false, ◌&&◌, ◌||◌, List, ◌∷◌, arith, ◌==◌, if◌then◌else◌, eq_cases,
}
use mathlib.Core.Path.{ap₂}
use sigma_malloc.Base.Word.{add_size}
use sigma_malloc.Links.{Ptr, update}
use sigma_malloc.Buddy.{
  Buddy, NodeState, free, split, full, mark, push_free, block_size, ptr_to_node_index, node_left,
  node_right, split_block, split_loop,
}
use sigma_malloc.Buddy.Tree.{
  Tree, node, live, live-lt, left-node, right-node, split_tree, split_tree_lem, live-split_tree,
  child_of_free,
}
use sigma_malloc.Buddy.Layout.{
  top, addr, addr_in_pool, block_size_pos, block_size-suc, free_leaf, ptr_to_node_index-addr,
}
use sigma_malloc.Buddy.Lists.{
  HasLists, AreLeaves, SameHeaders, base, at, with_block, without_block, HasLists-eq, mark-HasLists,
  push_free-HasLists,
}

abbrev pub is_full : NodeState → Bool
is_full free = false
is_full split = false
is_full full = true

-- The blocks that are handed out.
abbrev pub full_leaf : Tree → ℕ → ℕ → Bool
full_leaf t o k = live t (top - o) k && is_full (t (node (top - o) k))

-- The pool is consistent: the free lists hold exactly the free leaves of the tree.
abbrev pub IsValid : Buddy → (ℕ → List ℕ) → Type 0
IsValid b lists = HasLists b lists (free_leaf b.pool.tree)

-- So it is but for one free leaf, which an operation holds.
pub record Holding (b : Buddy) (lists : ℕ → List ℕ) (o k : ℕ) : Type 0 where
  pub in_range : o ≤ top
  pub exists : live b.pool.tree (top - o) k ≡ true
  pub is_free : b.pool.tree (node (top - o) k) ≡ free
  pub others : HasLists b lists (without_block (free_leaf b.pool.tree) o k)

module _ (b : Buddy) (lists : ℕ → List ℕ) (o k : ℕ) (held : Holding b lists (suc o) k) where
  abbrev t' : Tree
  t' = split_tree b.pool.tree (top - suc o) k

  row : suc (top - suc o) ≡ top - o
  row = omega (arith, held.in_range)

  small : k < 2 ^ (top - suc o)
  small = live-lt b.pool.tree (top - suc o) k held.exists

  tree-split_block : (split_block (at b (suc o) k) o b).pool.tree ≡ t'
  unfolding split_block push_free mark split_tree
  tree-split_block = rw (
    ptr_to_node_index-addr b.pool (suc o) k held.in_range small held.others.fits,
    left-node,
    right-node,
  )

  right_address : add_size (at b (suc o) k) (block_size o) ≡ at b o (2 * k + 1)
  right_address =
      let e : k * block_size (suc o) ≡ k * (2 * block_size o) =
        ap (λ n. k * n) (block_size-suc o) in
      omega (
        arith,
        addr_in_pool (base b) (suc o) k held.in_range small,
        held.others.fits,
        block_size-suc o,
        block_size_pos o,
      )

  left_address : at b (suc o) k ≡ at b o (2 * k)
  left_address =
      let e : k * block_size (suc o) ≡ k * (2 * block_size o) =
        ap (λ n. k * n) (block_size-suc o) in
      omega arith

  child_test : (e : ℕ) → e ≤ top → ((top - e) == suc (top - suc o)) ≡ (e == o)
  child_test e h =
      let l : suc o ≤ top = held.in_range in
      elim (eq_cases e o) [ inl q ↦ ground arith | inr n ↦ ground arith ]

  self_test : (e : ℕ) → e ≤ top → ((top - e) == (top - suc o)) ≡ (e == suc o)
  self_test e h =
      let l : suc o ≤ top = held.in_range in
      elim (eq_cases e (suc o)) [ inl q ↦ ground arith | inr n ↦ ground arith ]

  -- The tree after the split, at any node.
  live-t' :
      (e j : ℕ)
      → e ≤ top
      → live t' (top - e) j ≡ (live b.pool.tree (top - e) j || (e == o && (j / 2) == k))
  live-t' e j h =
      live-split_tree b.pool.tree (top - suc o) k (top - e) j held.exists held.is_free
      ∙ ap (λ x. live b.pool.tree (top - e) j || (x && (j / 2) == k)) (child_test e h)

  entry-t' :
      (e j : ℕ)
      → e ≤ top
      → live t' (top - e) j ≡ true
      → t' (node (top - e) j) ≡ (
          if e == o && (j / 2) == k
          then free
          else if e == suc o && j == k
          then split
          else b.pool.tree (node (top - e) j))
  entry-t' e j h l =
      split_tree_lem b.pool.tree (top - suc o) k (top - e) j small (live-lt t' (top - e) j l)
      ∙ ap₂
          (λ x y.
            if x && (j / 2) == k
            then free
            else if y && j == k
            then split
            else b.pool.tree (node (top - e) j))
          (child_test e h) (self_test e h)

  -- A child of the block that is split was no node.
  no_child :
      (e j : ℕ) → e ≤ top → (e == o && (j / 2) == k) ≡ true → live b.pool.tree (top - e) j ≡ false
  no_child e j h q =
      child_of_free b.pool.tree (top - suc o) k (top - e) j held.is_free
        (ap (λ x. x && (j / 2) == k) (child_test e h) ∙ q)

  entry_self :
      (e j : ℕ) → e ≤ top → (e == suc o && j == k) ≡ true → b.pool.tree (node (top - e) j) ≡ free
  entry_self e j h q =
      let x : e ≡ suc o = ground arith in
      let y : j ≡ k = ground arith in ap₂ (λ u w. b.pool.tree (node (top - u) w)) x y ∙ held.is_free

  free_leaf-t' :
      (e j : ℕ)
      → e ≤ top
      → with_block (without_block (free_leaf b.pool.tree) (suc o) k) o (2 * k + 1) e j
        ≡ without_block (free_leaf t') o (2 * k) e j
  free_leaf-t' e j h =
      ground (arith, live-t' e j h, entry-t' e j h, no_child e j h, entry_self e j h)

  full_leaf-t' : (e j : ℕ) → e ≤ top → full_leaf t' e j ≡ full_leaf b.pool.tree e j
  full_leaf-t' e j h =
      ground (arith, live-t' e j h, entry-t' e j h, no_child e j h, entry_self e j h)

  usable-split_block : base (split_block (at b (suc o) k) o b) ≡ base b
  unfolding split_block push_free mark
  usable-split_block = refl

  headers-split_block : SameHeaders b (split_block (at b (suc o) k) o b)
  unfolding split_block push_free mark
  headers-split_block = (refl, refl)

  parts-AreLeaves : AreLeaves t' (without_block (free_leaf b.pool.tree) (suc o) k)
  parts-AreLeaves e j h m =
      ground (arith, live-t' e j h, entry-t' e j h, no_child e j h, entry_self e j h)

  in_range : o ≤ top
  in_range = omega (arith, held.in_range)

  halves :
      (live t' (top - o) (2 * k) ≡ true)
      × (t' (node (top - o) (2 * k)) ≡ free)
      × (live t' (top - o) (2 * k + 1) ≡ true)
      × (t' (node (top - o) (2 * k + 1)) ≡ free)
      × (without_block (free_leaf b.pool.tree) (suc o) k o (2 * k + 1) ≡ false)
  halves = (
    l,
    ground (arith, entry-t' o (2 * k) in_range l),
    r,
    ground (arith, entry-t' o (2 * k + 1) in_range r),
    ground (arith, no_child o (2 * k + 1) in_range),
  )
    where
      l : live t' (top - o) (2 * k) ≡ true
      l = ground (arith, live-t' o (2 * k) in_range)

      r : live t' (top - o) (2 * k + 1) ≡ true
      r = ground (arith, live-t' o (2 * k + 1) in_range)

  pushed :
      HasLists
        (split_block (at b (suc o) k) o b)
        (update lists o ((2 * k + 1) ∷ lists o))
        (with_block (without_block (free_leaf b.pool.tree) (suc o) k) o (2 * k + 1))
  unfolding split_block mark
  pushed =
      let p = without_block (free_leaf b.pool.tree) (suc o) k in
      let n = ptr_to_node_index b.pool (at b (suc o) k) (suc o) in
      let b1 = mark n split b in
      let b2 = mark (node_left n) free b1 in
      let b3 = mark (node_right n) free b2 in
      let v = mark-HasLists b2 lists p (node_right n) free (
        mark-HasLists b1 lists p (node_left n) free
          (mark-HasLists b lists p n split held.others)) in
      rw right_address (
        push_free-HasLists b3 lists p v o (2 * k + 1) in_range t' parts-AreLeaves
          (ground (arith, halves)) halves.4)

  -- After a round, the operation holds the left half.
  split_block-Holding :
      Holding (split_block (at b (suc o) k) o b) (update lists o ((2 * k + 1) ∷ lists o)) o (2 * k)
  split_block-Holding =
      let e = sym tree-split_block in
      record {
        in_range = in_range;
        exists = ap (λ t. live t (top - o) (2 * k)) tree-split_block ∙ halves.0;
        is_free = ap (λ (t : Tree). t (node (top - o) (2 * k))) tree-split_block ∙ halves.1;
        others =
            HasLists-eq _ _ _ _
              (λ i j h. free_leaf-t' i j h ∙ ap (λ t. without_block (free_leaf t) o (2 * k) i j) e)
              pushed;
      }

  full_leaf-split_block :
      (i j : ℕ)
      → i ≤ top
      → full_leaf (split_block (at b (suc o) k) o b).pool.tree i j ≡ full_leaf b.pool.tree i j
  full_leaf-split_block i j h = ap (λ t. full_leaf t i j) tree-split_block ∙ full_leaf-t' i j h

-- What the loop has done when it stops: it holds a block of the target order at the same address.
pub record Splitted (b b' : Buddy) (block : Ptr) (target : ℕ) : Type 0 where
  pub place : ℕ
  pub lists : ℕ → List ℕ
  pub held : Holding b' lists target place
  pub address : block ≡ at b' target place
  pub usable : base b' ≡ base b
  pub headers : SameHeaders b b'
  pub full : (o k : ℕ) → o ≤ top → full_leaf b'.pool.tree o k ≡ full_leaf b.pool.tree o k

pub split_loop-Splitted :
    (r target k : ℕ) (b : Buddy) (lists : ℕ → List ℕ) (o : ℕ)
    → target + r ≡ o
    → Holding b lists o k
    → Splitted b (split_loop r target (at b o k) b) (at b o k) target
unfolding split_loop
split_loop-Splitted zero target k b lists o e held =
    let q : o ≡ target = omega arith in
    record {
      place = k;
      lists = lists;
      held = rw q at held;
      address = ap (λ n. at b n k) q;
      usable = refl;
      headers = (refl, refl);
      full = λ i j h. refl;
    }
split_loop-Splitted (suc r) target k b lists o e held =
    let q : o ≡ suc (target + r) = omega arith in
    let held' : Holding b lists (suc (target + r)) k = rw q at held in
    let b' = split_block (at b (suc (target + r)) k) (target + r) b in
    let u = usable-split_block b lists (target + r) k held' in
    let a : at b (suc (target + r)) k ≡ at b' (target + r) (2 * k) =
      left_address b lists (target + r) k held' ∙ ap (λ x. addr x (target + r) (2 * k)) (sym u) in
    let rest =
      split_loop-Splitted r target (2 * k) b'
        (update lists (target + r) ((2 * k + 1) ∷ lists (target + r))) (target + r) refl
        (split_block-Holding b lists (target + r) k held') in
    let s = rw (← a) at rest in
    let hs = headers-split_block b lists (target + r) k held' in
    rw q (record {
      place = s.place;
      lists = s.lists;
      held = s.held;
      address = s.address;
      usable = s.usable ∙ u;
      headers = (s.headers.0 ∙ hs.0, s.headers.1 ∙ hs.1);
      full = λ i j h. s.full i j h ∙ full_leaf-split_block b lists (target + r) k held' i j h;
    })
