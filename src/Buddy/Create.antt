-- ===== src/Buddy/Create.antt =====
-- `buddy_pool_create`: the pool of a fresh piece of memory.
use sigma_malloc.Base.{
  ℕ, zero, suc, ◌+◌, ◌-◌, ◌/◌, ◌≤◌, ◌<◌, ◌≡◌, refl, ◌∙◌, ◌≢◌, ◌⊎◌, inl, inr, false, ◌&&◌, ◌||◌,
  some, List, [], ◌∷◌, arith, ltb, ◌==◌, if◌then◌else◌, ==_refl, ==_ne, eq_cases, has,
}
use sigma_malloc.Base.Word.{word, add_size}
use sigma_malloc.Links.{Ptr, null, update}
use sigma_malloc.Buddy.{
  Buddy, free, full, tree_node_count, pool_size, tree_size, backing_size, num_orders, is_free,
  pool_create,
}
use sigma_malloc.Buddy.Tree.{Tree, node, live}
use sigma_malloc.Buddy.Layout.{top, free_leaf}
use sigma_malloc.Buddy.Lists.{base}
use sigma_malloc.Buddy.Split.{is_full, full_leaf, IsValid}

-- A fresh pool has one free block of the top order and no block that is handed out.
abbrev pub fresh_lists : ℕ → List ℕ
fresh_lists o = if o == top then 0 ∷ [] else []

pub record Created (raw_mem size : ℕ) (b : Buddy) : Type 0 where
  pub valid : IsValid b fresh_lists
  pub none_out : (o k : ℕ) → full_leaf b.pool.tree o k ≡ false
  pub blocks_start : base b ≡ raw_mem + tree_size
  pub blocks_end : base b + pool_size ≤ raw_mem + size

-- Below a root that is free there is no node.
only_root : (t : Tree) (d k : ℕ) → t 0 ≡ free → live t (suc d) k ≡ false
unfolding live node
only_root t zero k e = elim (eq_cases (k / 2) 0) [
  | inl z ↦ rw (z, e) refl
  | inr n ↦ rw (==_ne (k / 2) 0 n) refl
]
only_root t (suc d) k e = rw (only_root t d (k / 2) e) refl

root_is_free : (t : Tree) (k : ℕ) → t 0 ≡ free → (live t 0 k && is_full (t (node 0 k))) ≡ false
unfolding live node
root_is_free t k e = elim (eq_cases k 0) [ inl z ↦ rw (z, e) refl | inr n ↦ rw (==_ne k 0 n) refl ]

root_members :
    (t : Tree) (k : ℕ) → t 0 ≡ free → has k (0 ∷ []) ≡ (live t 0 k && is_free (t (node 0 k)))
unfolding live node
root_members t k e = elim (eq_cases k 0) [ inl z ↦ rw (z, e) refl | inr n ↦ rw (==_ne k 0 n) refl ]

depth_cases : (o : ℕ) → (top - o ≡ 0) ⊎ ((d : ℕ) × (top - o ≡ suc d))
depth_cases o = elim (eq_cases (top - o) 0) [
  | inl e ↦ inl e
  | inr n ↦ inr (top - o - 1, omega arith)
]

fresh_none_out : (t : Tree) (o k : ℕ) → t 0 ≡ free → full_leaf t o k ≡ false
fresh_none_out t o k e = elim (depth_cases o) [
  | inl z ↦ rw z (root_is_free t k e)
  | inr (d, q) ↦ rw (q, only_root t d k e) refl
]

fresh_members :
    (t : Tree) (o k : ℕ) → o ≤ top → t 0 ≡ free → has k (fresh_lists o) ≡ free_leaf t o k
fresh_members t o k h e = elim (eq_cases o top) [
  | inl z ↦ rw z (root_members t k e)
  | inr n ↦
      let q : top - o ≡ suc (top - o - 1) = omega arith in
      rw (==_ne o top n, q, only_root t (top - o - 1) k e) refl
]

-- What `buddy_pool_create` leaves behind, field by field.
record Initial (u : Ptr) (b : Buddy) : Type 0 where
  start : base b ≡ u
  root : b.pool.tree 0 ≡ free
  top_list : b.pool.free_lists top ≡ u
  other_lists : (o : ℕ) → o < top → b.pool.free_lists o ≡ null
  no_next : b.mem.links.next u ≡ null
  no_prev : b.mem.links.prev u ≡ null

Initial-IsValid :
    (u : Ptr) (b : Buddy) → 0 < u → u + pool_size < word → Initial u b → IsValid b fresh_lists
Initial-IsValid u b pos fits i = record {
  usable = omega (arith, i.start);
  fits = omega (arith, i.start);
  chains = λ o h. elim (eq_cases o top) [
    | inl z ↦ rw (z, i.top_list, i.start) (omega arith, omega arith, i.no_prev, i.no_next)
    | inr n ↦ rw (==_ne o top n) (i.other_lists o (omega arith))
  ];
  nodup = λ o h. elim (eq_cases o top) [ inl z ↦ rw z (refl, tt) | inr n ↦ rw (==_ne o top n) tt ];
  members = λ o k h. fresh_members b.pool.tree o k h i.root;
}

module _ (self raw_mem size : ℕ) (b : Buddy) (has_self : self ≢ null) (has_memory : raw_mem ≢ null)
    (enough : backing_size ≤ size) (in_word : raw_mem + size < word) where
  usable_start : add_size raw_mem tree_size ≡ raw_mem + tree_size
  usable_start = omega arith

  -- Given memory of at least `backing_size` bytes, the pool that is created is consistent: its one free
  -- block is the whole pool, which lies inside the memory behind the tree, and nothing is handed out.
  pub pool_create-Created :
      (b' : Buddy) × (pool_create self raw_mem size b ≡ some b') × Created raw_mem size b'
  unfolding pool_create
  pool_create-Created =
      let g : (self == null || raw_mem == null || ltb size backing_size) ≡ false = ground arith in
      (made, rw g refl, created made refl refl refl refl refl)
    where
      u : Ptr
      u = add_size raw_mem tree_size

      made : Buddy
      made = record {
        pool = record {
          memory_start = raw_mem;
          memory_end = add_size raw_mem size;
          tree = update (λ i. if ltb i tree_node_count then full else b.pool.tree i) 0 free;
          free_lists =
              update (λ i. if ltb i num_orders then null else b.pool.free_lists i) (num_orders - 1)
                u;
          usable_start = u;
        };
        mem = record b.mem {
          links = record {
            next = update b.mem.links.next u null;
            prev = update b.mem.links.prev u null;
          };
        };
      }

      created :
          (b' : Buddy)
          → base b' ≡ u
          → b'.pool.tree
            ≡ update (λ i. if ltb i tree_node_count then full else b.pool.tree i) 0 free
          → b'.pool.free_lists
            ≡ update
                (λ i. if ltb i num_orders then null else b.pool.free_lists i)
                (num_orders - 1)
                u
          → b'.mem.links.next ≡ update b.mem.links.next u null
          → b'.mem.links.prev ≡ update b.mem.links.prev u null
          → Created raw_mem size b'
      created b' s t l n p =
          let i : Initial u b' = record {
            start = s;
            root = rw t refl;
            top_list = rw l refl;
            other_lists = λ o h. rw l (ground arith);
            no_next = rw (n, ==_refl) refl;
            no_prev = rw (p, ==_refl) refl;
          } in
          record {
            valid =
                Initial-IsValid u b' (omega (arith, usable_start)) (omega (arith, usable_start)) i;
            none_out = λ o k. fresh_none_out b'.pool.tree o k i.root;
            blocks_start = s ∙ usable_start;
            blocks_end = omega (arith, s, usable_start);
          }
