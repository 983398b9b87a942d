-- ===== src/Large/Chains.antt =====
-- The debug build's list of large allocations. Its nodes are the keys of the list.
use sigma_malloc.Base.{
  ◌≡◌, refl, sym, ◌∙◌, ◌≢◌, ◌⊎◌, inl, inr, true, false, List, [], ◌∷◌, arith, ==_refl, ==_ne,
  eq_cases, has, erase, Nodup, has-erase, Nodup-erase,
}
use sigma_malloc.Links.{Ptr, null, Links, list_push, list_remove}
use sigma_malloc.Links.Chain.{Chain, Chain-Agree}
use sigma_malloc.Links.Laws.{list_push-Chain, list_remove-Chain}
use sigma_malloc.Large.{large_push, large_unlink}

-- The list at `head`: well formed, and without a node twice.
pub record IsLargeList (l : Links) (head : Ptr) (ks : List Ptr) : Type 0 where
  pub chain : Chain (λ k. k) l null head ks
  pub nodup : Nodup ks
  pub not_null : (k : Ptr) → has k ks ≡ true → k ≢ null

pub large_push-IsLargeList :
    (l : Links) (head x : Ptr) (ks : List Ptr)
    → x ≢ null
    → has x ks ≡ false
    → IsLargeList l head ks
    → IsLargeList (large_push head x l).1 (large_push head x l).0 (x ∷ ks)
unfolding large_push list_push
large_push-IsLargeList l head x ks n new v = record {
  chain = list_push-Chain (λ k. k) (λ j k e. e) l head x ks n v.nodup new v.chain;
  nodup = (new, v.nodup);
  not_null = λ k h. elim (eq_cases k x) [
    | inl e ↦ λ z. n (sym e ∙ z)
    | inr ne ↦ v.not_null k (ground (arith, h, ne))
  ];
}

-- In a well-formed list only the first node has no node before it.
first_or_not :
    (l : Links) (q head x : Ptr) (ks : List Ptr)
    → ((k : Ptr) → has k ks ≡ true → k ≢ null)
    → Nodup ks
    → has x ks ≡ true
    → Chain (λ k. k) l q head ks
    → ((x ≡ head) × (l.prev x ≡ q)) ⊎ ((x ≢ head) × (l.prev x ≢ null))
first_or_not l q head x [] nn nd h c = absurd (ground arith)
first_or_not l q head x (k ∷ ks) nn nd h (e, n, back, rest) = elim (eq_cases x k) [
  | inl s ↦ inl (s ∙ sym e, (rw (s ∙ sym e) back))
  | inr ne ↦
      let apart : x ≢ head = λ z. ne (z ∙ e) in
      elim (first_or_not l head (l.next head) x ks (λ j m. nn j (ground (arith, m))) nd.1
        (ground (arith, h, ne)) rest) [
          | inl (at_next, before) ↦ inr (apart, λ z. n (sym before ∙ z))
          | inr (later, before) ↦ inr (apart, before)
        ]
]

-- In such a list the head that `large_free` computes is the one that `list_remove` computes.
same_head :
    (l : Links) (head x : Ptr) (ks : List Ptr)
    → has x ks ≡ true
    → IsLargeList l head ks
    → (large_unlink head x l).0 ≡ (list_remove head x l).0
unfolding large_unlink list_remove
same_head l head x ks h v = elim (first_or_not l null head x ks v.not_null v.nodup h v.chain) [
  | inl (e, b) ↦ rw (b, e) (ground arith)
  | inr (ne, b) ↦ rw (==_ne (l.prev x) null b, ==_ne head x (λ z. ne (sym z))) refl
]

other_nodes :
    (l : Links) (head x k : Ptr)
    → k ≢ x
    → ((large_unlink head x l).1.next k ≡ (list_remove head x l).1.next k)
      × ((large_unlink head x l).1.prev k ≡ (list_remove head x l).1.prev k)
unfolding large_unlink list_remove
other_nodes l head x k n = rw (==_ne k x n) (refl, refl)

pub large_unlink-IsLargeList :
    (l : Links) (head x : Ptr) (ks : List Ptr)
    → has x ks ≡ true
    → IsLargeList l head ks
    → IsLargeList (large_unlink head x l).1 (large_unlink head x l).0 (erase x ks)
large_unlink-IsLargeList l head x ks h v =
    let out = λ (k : Ptr) (m : has k (erase x ks) ≡ true). has-erase x k ks v.nodup in
    record {
      chain = rw (same_head l head x ks h v) (
          Chain-Agree (λ k. k) (list_remove head x l).1 (large_unlink head x l).1 null
            (list_remove head x l).0 (erase x ks)
            (λ k m. other_nodes l head x k (λ e. absurd (ground (arith, out k m, m, e))))
            (list_remove-Chain (λ k. k) (λ j k e. e) l head x ks v.nodup h v.not_null v.chain));
      nodup = Nodup-erase x ks v.nodup;
      not_null = λ k m. v.not_null k (ground (arith, out k m, m));
    }

-- Taking out the node that was put in last gives the list before.
pub erase-cons : (x : Ptr) (ks : List Ptr) → erase x (x ∷ ks) ≡ ks
erase-cons x ks = rw ==_refl refl
