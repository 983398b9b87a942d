-- ===== src/Buddy/Request.antt =====
-- `buddy_alloc`: what it hands out, and when it fails.
use sigma_malloc.Base.{
  ℕ, ◌≤◌, ◌<◌, ◌≡◌, refl, sym, ◌∙◌, ◌≢◌, inl, inr, Bool, true, false, not, ◌||◌, List, [], ◌∷◌,
  arith, leb, ◌==◌, if◌then◌else◌, ==_ne, order_cases, eq_cases, has,
}
use sigma_malloc.Base.Word.{
  word, alignment_is_valid, IsAlignment, IsAlignment-lt-word, alignment_is_valid_iff,
}
use sigma_malloc.Links.{Ptr, null, Links}
use sigma_malloc.Links.Chain.{Chain}
use sigma_malloc.Buddy.{
  Buddy, pool_size, num_orders, block_size, find_order, size_to_order, take_block, buddy_alloc,
}
use sigma_malloc.Buddy.Tree.{Tree}
use sigma_malloc.Buddy.Layout.{top, free_leaf}
use sigma_malloc.Buddy.Lists.{at, head_cases}
use sigma_malloc.Buddy.Split.{IsValid}
use sigma_malloc.Buddy.Size.{total_size, size_to_order_lem}
use sigma_malloc.Buddy.Alloc.{find_order-Found}
use sigma_malloc.Buddy.Take.{Allocated, take_block-Allocated}

-- The conditions under which `buddy_alloc` looks for a block.
pub record IsRequest (self size alignment : ℕ) : Type 0 where
  pub has_pool : self ≢ null
  pub positive : 0 < size
  pub in_word : size < word
  pub power_of_two : IsAlignment alignment

-- No block of order `o` or more is free.
abbrev pub NoneFree : Tree → ℕ → Type 0
NoneFree t target = (o k : ℕ) → target ≤ o → o ≤ top → free_leaf t o k ≡ false

-- What a call of `buddy_alloc` comes to.
pub data Outcome (debug : Bool) (b : Buddy) (size alignment : ℕ) (r : Ptr × Buddy) : Type 0 where
  too_big :
      pool_size < total_size debug size alignment → r ≡ (null, b) → Outcome debug b size alignment r
  exhausted :
      NoneFree b.pool.tree (size_to_order debug size alignment)
      → r ≡ (null, b)
      → Outcome debug b size alignment r
  allocated :
      r.0 ≢ null
      → Allocated debug b r.1 r.0 (size_to_order debug size alignment) size alignment
      → Outcome debug b size alignment r

nil_of_null :
    (l : Links) (f : ℕ → Ptr) (q p : Ptr) (ks : List ℕ) (k : ℕ)
    → p ≡ null
    → Chain f l q p ks
    → has k ks ≡ false
nil_of_null l f q p [] k e c = refl
nil_of_null l f q p (j ∷ js) k e (x, ne, back, rest) = absurd (ne e)

module _ (debug : Bool) (self size alignment : ℕ) (b : Buddy) (lists : ℕ → List ℕ)
    (v : IsValid b lists) (req : IsRequest self size alignment) where
  abbrev order : ℕ
  order = size_to_order debug size alignment

  -- On a consistent pool a call for a positive size and a valid alignment returns NULL and changes
  -- nothing if the request does not fit a pool or no block of its order or more is free. In every
  -- other case it hands out a block: the pool stays consistent, exactly one block more is handed out,
  -- which was not before, the user's bytes are aligned, lie in that block behind its header, and the
  -- header says which block it is.
  pub buddy_alloc-Outcome : Outcome debug b size alignment (buddy_alloc debug self size alignment b)
  unfolding buddy_alloc
  buddy_alloc-Outcome =
      let (pos, small) = IsAlignment-lt-word req.power_of_two in
      let e : (self == null || size == 0 || not (alignment_is_valid alignment)) ≡ false =
        ground (arith, req, (alignment_is_valid_iff alignment small).1 req.power_of_two) in
      let (fit, low) = size_to_order_lem debug size alignment req.in_word req.power_of_two in
      rw e (elim (order_cases order num_orders) [
        | inr big ↦
            let f : leb num_orders order ≡ true = ground arith in
            let over : pool_size < total_size debug size alignment =
              elim (order_cases pool_size (total_size debug size alignment)) [
                | inl l ↦ l
                | inr g ↦ absurd (omega (arith, low g))
              ] in
            rw f (too_big over refl)
        | inl ok ↦
            let f : leb num_orders order ≡ false = ground arith in rw f (searched ok (fit ok).0)
      ])
    where
      c : ℕ
      c = find_order num_orders b.pool order

      tried : Ptr × Buddy
      tried = if c == num_orders then (null, b) else take_block debug self order c size alignment b

      searched :
          order < num_orders
          → total_size debug size alignment ≤ block_size order
          → Outcome debug b size alignment tried
      searched ok fits =
          let g = find_order-Found num_orders b.pool order (omega arith) (omega arith) in
          elim (eq_cases c num_orders) [
            | inl missing ↦
                let t : (c == num_orders) ≡ true = ground arith in
                rw t (
                  exhausted
                    (λ i k l h.
                      sym (v.members i k h)
                      ∙ nil_of_null b.mem.links (at b i) null (b.pool.free_lists i) (lists i) k
                          (g.skipped i l (omega arith)) (v.chains i h))
                    refl)
            | inr found ↦
                let l : c < num_orders = omega (arith, g.upto) in
                let (k, e, m) =
                  head_cases b lists (free_leaf b.pool.tree) v c (omega arith) (g.holds l) in
                let done =
                  take_block-Allocated debug self size alignment order req.power_of_two fits b lists
                    v c k g.from (omega arith) e m in
                rw (==_ne c num_orders found) (allocated done.handle.not_null done)
          ]
