-- ===== src/Leaks/Nodes.antt =====
-- What the two passes of the leak report push: the blocks and the large allocations in use, in order.
use sigma_malloc.Base.{
  ℕ, zero, suc, ◌+◌, ◌-◌, ◌*◌, ◌^◌, ◌≤◌, ◌<◌, ◌≡◌, refl, ap, ◌∙◌, inl, inr, true, false, List, [],
  ◌∷◌, ◌++◌, arith, leb, if◌then◌else◌, ==_refl, ==_ne, Bool-cases, length,
}
use native.Mathlib.Nat.{pow-zero}
use sigma_malloc.Links.{Ptr, null}
use sigma_malloc.Links.Chain.{Chain}
use sigma_malloc.Buddy.{
  Buddy, pool_size, NodeState, free, split, full, num_orders, is_split, node_left, node_right,
}
use sigma_malloc.Buddy.Tree.{node, live-lt, left-node, right-node}
use sigma_malloc.Buddy.Layout.{top, addr, node_index_to_ptr-node}
use sigma_malloc.Buddy.Take.{IsHandle}
use sigma_malloc.Base.Word.{word, add_size}
use sigma_malloc.Header.{buddy_header_of, buddy_header_offset, alloc_header_from_user}
use sigma_malloc.Buddy.Split.{is_full, full_leaf}
use sigma_malloc.Large.{Larges}
use sigma_malloc.Leaks.{
  LeakInfo, Leaks, leak_push, report_block, traverse_buddy_nodes, collect_buddy_leaks, large_info,
  collect_large_leaks,
}
use sigma_malloc.Leaks.Store.{push_all}
use sigma_malloc.Leaks.Visits.{visits, occurrences, visits_once, AllFull, visits-AllFull, live_root}

abbrev pub map_list {ℓ ℓ'} : {A : Type ℓ} {B : Type ℓ'} → (A → B) → List A → List B
map_list f [] = []
map_list f (x ∷ xs) = f x ∷ map_list f xs

-- Blocks reported one after the other.
abbrev pub report_all : Buddy → List (ℕ × ℕ) → Leaks → Leaks
report_all b [] s = s
report_all b ((o, k) ∷ xs) s = report_all b xs (report_block b (node (top - o) k) o s)

report_all-append :
    (b : Buddy) (xs ys : List (ℕ × ℕ)) (s : Leaks)
    → report_all b (xs ++ ys) s ≡ report_all b ys (report_all b xs s)
report_all-append b [] ys s = refl
report_all-append b ((o, k) ∷ xs) ys s =
    report_all-append b xs ys (report_block b (node (top - o) k) o s)

-- Within the pool the traversal pushes what the blocks that are handed out say, those of the left half of each
-- split block before those of the right half.
pub traverse_buddy_nodes-visits :
    (o k : ℕ) (b : Buddy) (s : Leaks)
    → o ≤ top
    → traverse_buddy_nodes o (node (top - o) k) b s ≡ report_all b (visits b.pool.tree o k) s
unfolding traverse_buddy_nodes visits
traverse_buddy_nodes-visits zero k b s h = same_block (b.pool.tree (node top k))
  where
    same_block :
        (n : NodeState)
        → (elim n as (λ x. Leaks) [ full ↦ report_block b (node top k) 0 s | split ↦ s | free ↦ s ])
          ≡ report_all b (if is_full n then (0, k) ∷ [] else []) s
    same_block full = refl
    same_block split = refl
    same_block free = refl
traverse_buddy_nodes-visits (suc o) k b s h =
    let small : leb num_orders (suc o) ≡ false = ground arith in
    let row : suc (top - suc o) ≡ top - o = omega arith in
    let first = report_all b (visits b.pool.tree o (2 * k)) s in
    rw small (
      same_block (b.pool.tree (node (top - suc o) k)) (
        rw
          (
            left-node (top - suc o) k,
            right-node (top - suc o) k,
            row,
            traverse_buddy_nodes-visits o (2 * k) b s (omega arith),
            traverse_buddy_nodes-visits o (2 * k + 1) b first (omega arith),
            report_all-append b (visits b.pool.tree o (2 * k)) (visits b.pool.tree o (2 * k + 1)) s,
          )
          refl))
  where
    here : ℕ
    here = node (top - suc o) k

    below : List (ℕ × ℕ)
    below = visits b.pool.tree o (2 * k) ++ visits b.pool.tree o (2 * k + 1)

    same_block :
        (n : NodeState)
        → traverse_buddy_nodes o (node_right here) b (traverse_buddy_nodes o (node_left here) b s)
          ≡ report_all b below s
        → (elim n as (λ x. Leaks) [
          | full ↦ report_block b here (suc o) s
          | split ↦
              traverse_buddy_nodes o
                (node_right here)
                b
                (traverse_buddy_nodes o (node_left here) b s)
          | free ↦ s
        ])
          ≡ report_all b (if is_full n then (suc o, k) ∷ [] else if is_split n then below else []) s
    same_block full c = refl
    same_block split c = c
    same_block free c = refl

-- What the loop over the large allocations pushes, for a fuel above their number.
pub collect_large_leaks-push_all :
    (s : Larges) (ks : List Ptr) (q p : Ptr) (fuel : ℕ) (r : Leaks)
    → Chain (λ k. k) s.links q p ks
    → length ks < fuel
    → collect_large_leaks fuel p s r ≡ push_all (map_list (large_info s) ks) r
unfolding collect_large_leaks
collect_large_leaks-push_all s ks q p zero r c l = absurd (omega arith)
collect_large_leaks-push_all s [] q p (suc f) r c l = rw c refl
collect_large_leaks-push_all s (k ∷ ks) q p (suc f) r (e, n, back, rest) l = rw (==_ne p null n) (
    collect_large_leaks-push_all s ks p (s.links.next p) f (leak_push (large_info s p) r) rest
      (omega arith)
    ∙ ap (λ x. push_all (map_list (large_info s) ks) (leak_push (large_info s x) r)) e)

-- The report of a whole pool.
pub collect_buddy_leaks-visits :
    (b : Buddy) (s : Leaks) → collect_buddy_leaks b s ≡ report_all b (visits b.pool.tree top 0) s
unfolding collect_buddy_leaks node
collect_buddy_leaks-visits b s =
    let root : 2 ^ 0 - 1 + 0 ≡ 0 = omega (arith, pow-zero 2) in
    rw root at (traverse_buddy_nodes-visits top 0 b s (omega arith))

-- The pointers that clients hold in a pool of the debug build: one for each block that is handed out, whose first
-- word leads to the header in front of the pointer.
pub record HandedOut (b : Buddy) (user : (order place : ℕ) → Ptr) : Type 0 where
  pub handle :
      (o k : ℕ) → o ≤ top → full_leaf b.pool.tree o k ≡ true → IsHandle true b (user o k) o k
  pub to_header :
      (o k : ℕ)
      → o ≤ top
      → full_leaf b.pool.tree o k ≡ true
      → b.mem.links.next (addr b.pool.usable_start o k) ≡ buddy_header_of true (user o k)
  pub in_space : b.pool.usable_start + pool_size < word
  pub in_word : (o k : ℕ) → o ≤ top → full_leaf b.pool.tree o k ≡ true → user o k < word

-- The site and the requested size in the headers of a pointer.
abbrev pub info_at : Buddy → Ptr → LeakInfo
info_at b p = record {
  site = (b.mem.buddy_headers (buddy_header_of true p)).site;
  size = (b.mem.headers (alloc_header_from_user p)).requested_size;
}

-- What the pointers of some blocks say, less those that are regions of slabs.
abbrev pub infos_at : Buddy → ((order place : ℕ) → Ptr) → List (ℕ × ℕ) → List LeakInfo
infos_at b user [] = []
infos_at b user ((o, k) ∷ xs) =
    if (b.mem.buddy_headers (buddy_header_of true (user o k))).is_slab_region
    then infos_at b user xs
    else info_at b (user o k) ∷ infos_at b user xs

header_back :
    (p : Ptr)
    → 80 ≤ p
    → p < word
    → add_size (buddy_header_of true p) (buddy_header_offset true) ≡ alloc_header_from_user p
header_back p l h = omega (arith, l, h)

module _ (b : Buddy) (user : (order place : ℕ) → Ptr) (hs : HandedOut b user) where
  full_place : (o k : ℕ) → full_leaf b.pool.tree o k ≡ true → k < 2 ^ (top - o)
  full_place o k f = live-lt b.pool.tree (top - o) k (ground (arith, f))

  report_block-info_at :
      (o k : ℕ) (s : Leaks)
      → o ≤ top
      → full_leaf b.pool.tree o k ≡ true
      → report_block b (node (top - o) k) o s ≡ (
          if (b.mem.buddy_headers (buddy_header_of true (user o k))).is_slab_region
          then s
          else leak_push (info_at b (user o k)) s)
  report_block-info_at o k s l f =
      let i = hs.handle o k l f in
      rw
        (
          node_index_to_ptr-node b.pool o k l (full_place o k f) hs.in_space,
          hs.to_header o k l f,
          header_back (user o k) (omega (arith, i.header_behind)) (hs.in_word o k l f),
          i.magic,
          i.stored_order,
          ==_refl o,
        )
        (elim (Bool-cases (b.mem.buddy_headers (buddy_header_of true (user o k))).is_slab_region) [
          | inl t ↦ rw t refl
          | inr t ↦ rw t refl
        ])

  report_all-push_all :
      (xs : List (ℕ × ℕ)) (s : Leaks)
      → AllFull b.pool.tree xs
      → report_all b xs s ≡ push_all (infos_at b user xs) s
  report_all-push_all [] s a = refl
  report_all-push_all ((o, k) ∷ xs) s (l, f, a) =
      rw (report_block-info_at o k s l f)
        (elim (Bool-cases (b.mem.buddy_headers (buddy_header_of true (user o k))).is_slab_region) [
          | inl t ↦ rw t (report_all-push_all xs s a)
          | inr t ↦ rw t (report_all-push_all xs (leak_push (info_at b (user o k)) s) a)
        ])

  pub report_visits-push_all :
      (s : Leaks)
      → report_all b (visits b.pool.tree top 0) s
        ≡ push_all (infos_at b user (visits b.pool.tree top 0)) s
  report_visits-push_all s =
      report_all-push_all (visits b.pool.tree top 0) s
        (visits-AllFull b.pool.tree top 0 (omega arith) (live_root b.pool.tree))

  -- In a pool of the debug build in which each block that is handed out has a pointer with its headers in front, the
  -- leak report pushes the site and the requested size of each of these pointers, but not those of regions of
  -- slabs, in the order of the traversal, and this has the block of order `e` at position `j` once if it is
  -- handed out, and not at all if it is not.
  pub collect_buddy_leaks_complete :
      (s : Leaks) (e j : ℕ)
      → e ≤ top
      → (collect_buddy_leaks b s ≡ push_all (infos_at b user (visits b.pool.tree top 0)) s)
        × (occurrences e j (visits b.pool.tree top 0)
            ≡ (if full_leaf b.pool.tree e j then 1 else 0))
  collect_buddy_leaks_complete s e j h =
      (collect_buddy_leaks-visits b s ∙ report_visits-push_all s, visits_once b.pool.tree e j h)
