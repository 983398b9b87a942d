-- ===== src/Links/Chain.antt =====
-- What a list in memory stands for: the keys of its nodes, in order.
use sigma_malloc.Base.{ℕ, ◌≡◌, ◌∙◌, ◌≢◌, true, List, [], ◌∷◌, arith, has}
use sigma_malloc.Links.{Ptr, null, Links}

-- `at` gives the address of the node of a key. From `p` the `next` fields lead through the nodes of
-- `ks` to NULL, and the `prev` fields lead back to `q`.
module _ (at : ℕ → Ptr) where
  abbrev pub Chain : Links → Ptr → Ptr → List ℕ → Type 0
  Chain l q p [] = p ≡ null
  Chain l q p (k ∷ ks) = (p ≡ at k) × (p ≢ null) × (l.prev p ≡ q) × Chain l p (l.next p) ks

  -- Two memories that agree at the nodes of the list hold the same list.
  abbrev pub Agree : Links → Links → List ℕ → Type 0
  Agree l m ks =
      (k : ℕ) → has k ks ≡ true → (m.next (at k) ≡ l.next (at k)) × (m.prev (at k) ≡ l.prev (at k))

  pub Chain-Agree :
      (l m : Links) (q p : Ptr) (ks : List ℕ) → Agree l m ks → Chain l q p ks → Chain m q p ks
  Chain-Agree l m q p [] same c = c
  Chain-Agree l m q p (k ∷ ks) same (e, ne, back, rest) =
      let s : (m.next p ≡ l.next p) × (m.prev p ≡ l.prev p) = rw e (same k (ground arith)) in
      (
        e,
        ne,
        s.1 ∙ back,
        rw (s.0) (Chain-Agree l m p (l.next p) ks (λ j i. same j (ground arith)) rest),
      )

  -- The first node of a list that is not empty.
  pub Chain-head :
      (l : Links) (q p : Ptr) (ks : List ℕ)
      → Chain l q p ks
      → p ≢ null
      → (k : ℕ) × (p ≡ at k) × (has k ks ≡ true)
  Chain-head l q p [] c ne = absurd (ne c)
  Chain-head l q p (k ∷ ks) c ne = (k, c.0, ground arith)
