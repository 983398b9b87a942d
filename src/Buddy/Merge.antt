-- ===== src/Buddy/Merge.antt =====
-- The merging loop of `buddy_free`. While it runs, it holds one free block that is in no list.
use sigma_malloc.Base.{
  ℕ, zero, suc, ◌+◌, ◌-◌, ◌*◌, ◌/◌, ◌%◌, ◌^◌, ◌≤◌, ◌<◌, ◌≡◌, refl, sym, ap, ◌∙◌, ◌⊎◌, inl, inr,
  true, false, not, ◌&&◌, ◌||◌, List, arith, ltb, ◌==◌, if◌then◌else◌, lt→ltb, le→ltb, ==_iff,
  Bool-cases, order_cases, eq_cases, erase,
}
use mathlib.Core.Path.{ap₂, fun_ext}
use sigma_malloc.Links.{Ptr, update}
use sigma_malloc.Buddy.{
  Buddy, NodeState, free, split, full, is_free, is_split, mark, remove_free, block_size,
  node_index_to_ptr, node_parent, node_buddy, merge_round, merge_loop,
}
use sigma_malloc.Buddy.Tree.{
  Tree, node, sibling, sibling-half, sibling_ne, same_half, live, live-lt, parent-node, buddy-node,
  put, put_lem, live-merge,
}
use sigma_malloc.Buddy.Layout.{
  top, addr, block_size_pos, block_size-suc, free_leaf, node_index_to_ptr-node,
}
use sigma_malloc.Buddy.Lists.{
  Blocks, HasLists, SameHeaders, base, at, without_block, HasLists-eq, mark-HasLists,
  remove_free-HasLists,
}
use sigma_malloc.Buddy.Split.{full_leaf, Holding}

-- One round of the loop, for the held block of order `o` at `k` whose sibling is free.
module _ (b : Buddy) (lists : ℕ → List ℕ) (o k : ℕ) (held : Holding b lists o k) (below : o < top)
    (buddy_free : b.pool.tree (node (top - o) (sibling k)) ≡ free) where
  abbrev t' : Tree
  t' = put b.pool.tree (top - suc o) (k / 2) free

  row : top - o ≡ suc (top - suc o)
  row = omega arith

  small : k < 2 ^ (top - o)
  small = live-lt b.pool.tree (top - o) k held.exists

  parent_exists :
      (live b.pool.tree (top - suc o) (k / 2) ≡ true)
      × (is_split (b.pool.tree (node (top - suc o) (k / 2))) ≡ true)
  unfolding live
  parent_exists =
      let l : live b.pool.tree (suc (top - suc o)) k ≡ true =
        ap (λ d. live b.pool.tree d k) (sym row) ∙ held.exists in
      ground arith

  sibling_exists : live b.pool.tree (top - o) (sibling k) ≡ true
  unfolding live
  sibling_exists =
      let l : live b.pool.tree (suc (top - suc o)) (sibling k) ≡ true =
        rw (sibling-half k) (ground (arith, parent_exists)) in
      ap (λ d. live b.pool.tree d (sibling k)) row ∙ l

  nodes :
      (node_buddy (node (top - o) k) ≡ node (top - o) (sibling k))
      × (node_parent (node (top - o) k) ≡ node (top - suc o) (k / 2))
  nodes = rw row (buddy-node (top - suc o) k, parent-node (top - suc o) k)

  buddy_address : node_index_to_ptr b.pool (node_buddy (node (top - o) k)) o ≡ at b o (sibling k)
  buddy_address = rw (nodes.0) (
      node_index_to_ptr-node b.pool o (sibling k) held.in_range
        (live-lt b.pool.tree (top - o) (sibling k) sibling_exists) held.others.fits)

  -- What the loop does to the pool in this round.
  abbrev merged : Buddy
  merged = merge_round o (node (top - o) k) b

  tree-merged : merged.pool.tree ≡ t'
  unfolding merge_round mark remove_free
  tree-merged = fun_ext λ n.
      let (nb, np) = nodes in
      let a : (n == node (top - o) (sibling k)) ≡ true → b.pool.tree n ≡ free =
        λ q. ap b.pool.tree ((==_iff n (node (top - o) (sibling k))).0 q) ∙ buddy_free in
      let c : (n == node (top - o) k) ≡ true → b.pool.tree n ≡ free =
        λ q. ap b.pool.tree ((==_iff n (node (top - o) k)).0 q) ∙ held.is_free in
      rw (nb, np) (ground (arith, a, c))

  usable-merged : base merged ≡ base b
  unfolding merge_round mark remove_free
  usable-merged = refl

  headers-merged : SameHeaders b merged
  unfolding merge_round mark remove_free
  headers-merged = (refl, refl)

  lower_address :
      (if ltb (at b o (sibling k)) (at b o k) then at b o (sibling k) else at b o k)
      ≡ at b (suc o) (k / 2)
  unfolding sibling
  lower_address =
      let s = block_size o in
      let p = block_size_pos o in
      let e : k / 2 * block_size (suc o) ≡ k / 2 * (2 * s) =
        ap (λ n. k / 2 * n) (block_size-suc o) in
      elim (Bool-cases (k % 2 == 0)) [
        | inl even ↦
            let h : k * s ≡ 2 * (k / 2) * s = ap (λ n. n * s) (ground arith) in
            let t : ltb (at b o (k + 1)) (at b o k) ≡ false = le→ltb _ _ (omega arith) in
            rw (even, t) (omega arith)
        | inr odd ↦
            let h : k * s ≡ (2 * (k / 2) + 1) * s = ap (λ n. n * s) (ground arith) in
            let g : (k - 1) * s ≡ 2 * (k / 2) * s = ap (λ n. n * s) (ground arith) in
            let t : ltb (at b o (k - 1)) (at b o k) ≡ true = lt→ltb _ _ (omega arith) in
            rw (odd, t) (omega arith)
      ]

  child_test : (e : ℕ) → e ≤ top → ((top - e) == suc (top - suc o)) ≡ (e == o)
  child_test e h = elim (eq_cases e o) [ inl q ↦ ground arith | inr n ↦ ground arith ]

  parent_test : (e : ℕ) → e ≤ top → ((top - e) == (top - suc o)) ≡ (e == suc o)
  parent_test e h = elim (eq_cases e (suc o)) [ inl q ↦ ground arith | inr n ↦ ground arith ]

  child_whole :
      (j : ℕ)
      → (j / 2 == k / 2) ≡ true
      → is_split (b.pool.tree (node (suc (top - suc o)) j)) ≡ false
  child_whole j q =
      let m : (j == k || j == sibling k) ≡ true = sym (same_half j k) ∙ q in
      ap (λ d. is_split (b.pool.tree (node d j))) (sym row) ∙ entry m
    where
      entry : (j == k || j == sibling k) ≡ true → is_split (b.pool.tree (node (top - o) j)) ≡ false
      entry m = elim (eq_cases j k) [
        | inl e ↦ ap (λ n. is_split (b.pool.tree (node (top - o) n))) e ∙ ap is_split held.is_free
        | inr n ↦
            let e : j ≡ sibling k = ground arith in
            ap (λ n. is_split (b.pool.tree (node (top - o) n))) e ∙ ap is_split buddy_free
      ]

  live-t' :
      (e j : ℕ)
      → e ≤ top
      → live t' (top - e) j
        ≡ (live b.pool.tree (top - e) j && not (e == o && (j == k || j == sibling k)))
  live-t' e j h =
      live-merge b.pool.tree (top - suc o) (k / 2) (top - e) j parent_exists.0
        (child_whole (2 * (k / 2)) (ground arith)) (child_whole (2 * (k / 2) + 1) (ground arith))
      ∙ ap₂ (λ x y. live b.pool.tree (top - e) j && not (x && y)) (child_test e h) (same_half j k)

  entry-t' :
      (e j : ℕ)
      → e ≤ top
      → live b.pool.tree (top - e) j ≡ true
      → t' (node (top - e) j)
        ≡ (if e == suc o && j == k / 2 then free else b.pool.tree (node (top - e) j))
  entry-t' e j h l =
      put_lem b.pool.tree (top - suc o) (k / 2) free (top - e) j
        (live-lt b.pool.tree (top - suc o) (k / 2) parent_exists.0)
        (live-lt b.pool.tree (top - e) j l)
      ∙ ap (λ x. if x && j == k / 2 then free else b.pool.tree (node (top - e) j)) (parent_test e h)

  -- The entries that the round looks at, under the tests of the pointwise lemmas.
  entry_self : (e j : ℕ) → (e == o && j == k) ≡ true → b.pool.tree (node (top - e) j) ≡ free
  entry_self e j q =
      let x : e ≡ o = ground arith in
      let y : j ≡ k = ground arith in ap₂ (λ u w. b.pool.tree (node (top - u) w)) x y ∙ held.is_free

  entry_sibling :
      (e j : ℕ) → (e == o && j == sibling k) ≡ true → b.pool.tree (node (top - e) j) ≡ free
  entry_sibling e j q =
      let x : e ≡ o = ground arith in
      let y : j ≡ sibling k = ground arith in
      ap₂ (λ u w. b.pool.tree (node (top - u) w)) x y ∙ buddy_free

  entry_parent :
      (e j : ℕ)
      → (e == suc o && j == k / 2) ≡ true
      → (live b.pool.tree (top - e) j ≡ true) × (is_split (b.pool.tree (node (top - e) j)) ≡ true)
  entry_parent e j q =
      let x : e ≡ suc o = ground arith in
      let y : j ≡ k / 2 = ground arith in
      (
        ap₂ (λ u w. live b.pool.tree (top - u) w) x y ∙ parent_exists.0,
        ap₂ (λ u w. is_split (b.pool.tree (node (top - u) w))) x y ∙ parent_exists.1,
      )

  abbrev before : Blocks
  before = without_block (free_leaf b.pool.tree) o k

  free_leaf-t' :
      (e j : ℕ)
      → e ≤ top
      → without_block before o (sibling k) e j ≡ without_block (free_leaf t') (suc o) (k / 2) e j
  free_leaf-t' e j h = ground (arith, live-t' e j h, entry-t' e j h, entry_parent e j)

  full_leaf-t' : (e j : ℕ) → e ≤ top → full_leaf t' e j ≡ full_leaf b.pool.tree e j
  full_leaf-t' e j h =
      ground
        (arith, live-t' e j h, entry-t' e j h, entry_parent e j, entry_self e j, entry_sibling e j)

  removed :
      HasLists
        (remove_free o (node_index_to_ptr b.pool (node_buddy (node (top - o) k)) o) b)
        (update lists o (erase (sibling k) (lists o)))
        (without_block before o (sibling k))
  removed = rw buddy_address (
      remove_free-HasLists b lists before held.others o (sibling k) held.in_range b.pool.tree
        (λ e j h m. ground arith)
        (ground (arith, sibling_exists, ap is_free buddy_free, sibling_ne k)))

  merged-Holding : Holding merged (update lists o (erase (sibling k) (lists o))) (suc o) (k / 2)
  unfolding merge_round
  merged-Holding = record {
    in_range = below;
    exists = ap (λ t. live t (top - suc o) (k / 2)) tree-merged ∙ exists';
    is_free = ap (λ (t : Tree). t (node (top - suc o) (k / 2))) tree-merged ∙ free';
    others =
        HasLists-eq merged lists' (without_block before o (sibling k)) _
          (λ i j h.
            free_leaf-t' i j h
            ∙ ap (λ t. without_block (free_leaf t) (suc o) (k / 2) i j) (sym tree-merged))
          (mark-HasLists b2 lists' rest (node_parent (node (top - o) k)) free (
            mark-HasLists b1 lists' rest (node_buddy (node (top - o) k)) free
              (mark-HasLists b0 lists' rest (node (top - o) k) free removed)));
  }
    where
      exists' : live t' (top - suc o) (k / 2) ≡ true
      exists' = ground (arith, live-t' (suc o) (k / 2) below, parent_exists)

      free' : t' (node (top - suc o) (k / 2)) ≡ free
      free' = ground (arith, entry-t' (suc o) (k / 2) below parent_exists.0)

      lists' : ℕ → List ℕ
      lists' = update lists o (erase (sibling k) (lists o))

      rest : Blocks
      rest = without_block before o (sibling k)

      b0 : Buddy
      b0 = remove_free o (node_index_to_ptr b.pool (node_buddy (node (top - o) k)) o) b

      b1 : Buddy
      b1 = mark (node (top - o) k) free b0

      b2 : Buddy
      b2 = mark (node_buddy (node (top - o) k)) free b1

free_of_is_free : (s : NodeState) → is_free s ≡ true → s ≡ free
free_of_is_free free h = refl
free_of_is_free split h = cc
free_of_is_free full h = cc

-- What the loop has done when it stops: it holds a block, and unless that is the whole pool, its
-- sibling is not free.
pub record Merged (b : Buddy) (r : ℕ × Ptr × Buddy) : Type 0 where
  pub place : ℕ
  pub lists : ℕ → List ℕ
  pub held : Holding r.2 lists r.0 place
  pub address : r.1 ≡ at r.2 r.0 place
  pub usable : base r.2 ≡ base b
  pub headers : SameHeaders b r.2
  pub full : (o k : ℕ) → o ≤ top → full_leaf r.2.pool.tree o k ≡ full_leaf b.pool.tree o k
  pub maximal : (r.0 ≡ top) ⊎ (is_free (r.2.pool.tree (node (top - r.0) (sibling place))) ≡ false)

pub merge_loop-Merged :
    (f o k : ℕ) (b : Buddy) (lists : ℕ → List ℕ) (n block : ℕ)
    → top ≤ o + f
    → n ≡ node (top - o) k
    → block ≡ at b o k
    → Holding b lists o k
    → Merged b (merge_loop f o n block b)
unfolding merge_loop
merge_loop-Merged zero o k b lists n block fuel en eb held = record {
  place = k;
  lists = lists;
  held = held;
  address = eb;
  usable = refl;
  headers = (refl, refl);
  full = λ i j h. refl;
  maximal = inl (omega (arith, held.in_range));
}
merge_loop-Merged (suc f) o k b lists n block fuel en eb held = elim (order_cases o top) [
  | inr ge ↦ rw (le→ltb o top ge) (stop (inl (omega (arith, held.in_range))))
  | inl lt ↦ elim (Bool-cases (is_free (b.pool.tree (node (top - o) (sibling k))))) [
    | inr no_buddy ↦
        rw (lt→ltb o top lt, ap (λ m. is_free (b.pool.tree m)) (buddy lt), no_buddy)
          (stop (inr no_buddy))
    | inl yes_buddy ↦
        let e : b.pool.tree (node (top - o) (sibling k)) ≡ free = free_of_is_free _ yes_buddy in
        let hs = headers-merged b lists o k held lt e in
        let q : suc o ≡ o + 1 = omega (arith, fuel) in
        let held' = merged-Holding b lists o k held lt e in
        let bp : node_index_to_ptr b.pool (node_buddy n) o ≡ at b o (sibling k) =
          ap (λ m. node_index_to_ptr b.pool (node_buddy m) o) en
          ∙ buddy_address b lists o k held lt e in
        let lower : (if ltb (node_index_to_ptr b.pool (node_buddy n) o) block
              then node_index_to_ptr b.pool (node_buddy n) o
              else block)
            ≡ at (merged b lists o k held lt e) (o + 1) (k / 2) =
          ap₂ (λ x y. if ltb x y then x else y) bp eb
          ∙ lower_address b lists o k held lt e
          ∙ ap₂ (λ x y. addr x y (k / 2)) (sym (usable-merged b lists o k held lt e)) q in
        let rest =
          merge_loop-Merged f (o + 1) (k / 2) (merged b lists o k held lt e)
            (update lists o (erase (sibling k) (lists o))) (node_parent n)
            (if ltb (node_index_to_ptr b.pool (node_buddy n) o) block
              then node_index_to_ptr b.pool (node_buddy n) o
              else block)
            (omega (arith, fuel))
            (ap node_parent en
              ∙ (nodes b lists o k held lt e).1
              ∙ ap (λ x. node (top - x) (k / 2)) q)
            lower (rw q at held') in
        rw
          (
            lt→ltb o top lt,
            ap (λ m. is_free (b.pool.tree m)) (buddy lt),
            yes_buddy,
            ap (λ m. is_split (b.pool.tree m)) (buddy lt),
            ap is_split e,
            ap (λ m. merge_round o m b) en,
          )
          (record {
            place = rest.place;
            lists = rest.lists;
            held = rest.held;
            address = rest.address;
            usable = rest.usable ∙ usable-merged b lists o k held lt e;
            headers = (rest.headers.0 ∙ hs.0, rest.headers.1 ∙ hs.1);
            full = λ i j h.
                rest.full i j h
                ∙ ap (λ t. full_leaf t i j) (tree-merged b lists o k held lt e)
                ∙ full_leaf-t' b lists o k held lt e i j h;
            maximal = rest.maximal;
          })
  ]
]
  where
    stop :
        ((o ≡ top) ⊎ (is_free (b.pool.tree (node (top - o) (sibling k))) ≡ false))
        → Merged b (o, block, b)
    stop m = record {
      place = k;
      lists = lists;
      held = held;
      address = eb;
      usable = refl;
      headers = (refl, refl);
      full = λ i j h. refl;
      maximal = m;
    }

    buddy : o < top → node_buddy n ≡ node (top - o) (sibling k)
    buddy lt =
        let row : top - o ≡ suc (top - suc o) = omega arith in
        ap node_buddy en ∙ rw row (buddy-node (top - suc o) k)
