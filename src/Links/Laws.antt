-- ===== src/Links/Laws.antt =====
-- `list_push` puts a node in front of a list, `list_remove` takes one out, and both leave the nodes
-- of every other list alone. The two functions for slabs are the same operations.
use sigma_malloc.Base.{
  ℕ, ◌≡◌, refl, sym, ap, ◌∙◌, ◌≢◌, ◌⊎◌, inl, inr, true, false, List, [], ◌∷◌, arith, ◌==◌,
  if◌then◌else◌, ==_iff, ==_refl, ==_ne, Bool-cases, has, erase, Nodup,
}
use sigma_malloc.Links.{
  Ptr, null, Links, set_next, set_prev, bypass_next, bypass_prev, list_push, list_remove, slab_push,
  slab_remove,
}
use sigma_malloc.Links.Chain.{Chain, Chain-Agree}

pub slab_push-eq-list_push : (h x : Ptr) (l : Links) → slab_push h x l ≡ list_push h x l
unfolding slab_push list_push
slab_push-eq-list_push h x l = refl

pub slab_remove-eq-list_remove : (h x : Ptr) (l : Links) → slab_remove h x l ≡ list_remove h x l
unfolding slab_remove list_remove
slab_remove-eq-list_remove h x l = refl

-- `m` has the fields of `l` at the address `a`.
pub record SameAt (a : Ptr) (l m : Links) : Type 0 where
  pub next : m.next a ≡ l.next a
  pub prev : m.prev a ≡ l.prev a

module _ (at : ℕ → Ptr) where
  Chain-at :
      (l : Links) {q p q' p' : Ptr} (ks : List ℕ)
      → q ≡ q'
      → p ≡ p'
      → Chain at l q p ks
      → Chain at l q' p' ks
  Chain-at l ks e f c = rw (← e, ← f) c

module _ (at : ℕ → Ptr) (inj : (j k : ℕ) → at j ≡ at k → j ≡ k) where
  at-ne : (j k : ℕ) (ks : List ℕ) → has j ks ≡ true → has k ks ≡ false → at j ≢ at k
  at-ne j k ks h n e = let f : j ≡ k = inj j k e in cc (rw f at h)

  pub list_push-SameAt :
      (h k : ℕ) (l : Links) (a : Ptr) → a ≢ at k → a ≢ h → SameAt a l (list_push h (at k) l).1
  unfolding list_push
  list_push-SameAt h k l a n m = ground arith

  -- Pushing a node that is not in a well-formed list gives the well-formed list with the node in front.
  pub list_push-Chain :
      (l : Links) (h k : ℕ) (ks : List ℕ)
      → at k ≢ null
      → Nodup ks
      → has k ks ≡ false
      → Chain at l null h ks
      → Chain at (list_push h (at k) l).1 null (list_push h (at k) l).0 (k ∷ ks)
  unfolding list_push
  list_push-Chain l h k [] ne nd new e = (refl, ne, ground arith, ground arith)
  list_push-Chain l h k (j ∷ js) ne nd new (e, ne', back, rest) =
      let m = (list_push h (at k) l).1 in
      let apart : at j ≢ at k = at-ne j k (j ∷ js) (ground arith) new in
      let nx : m.next (at k) ≡ h = ground arith in
      let nh : m.next h ≡ l.next h = ground arith in
      (
        refl,
        ne,
        ground arith,
        (
          nx ∙ e,
          rw nx ne',
          rw nx (ground arith),
          Chain-at at m js (sym nx) (sym nh ∙ ap m.next (sym nx)) (
              Chain-Agree at l m h (l.next h) js
                (λ i f.
                  let p : at i ≢ at k = at-ne i k (j ∷ js) (ground arith) new in
                  let q : at i ≢ at j = at-ne i j js f nd.0 in (ground arith, ground arith))
                rest),
        ),
      )

  -- The neighbours of a node of a list are nodes of the list, or the ends.
  next-mem :
      (l : Links) (q p : Ptr) (k : ℕ) (ks : List ℕ)
      → Chain at l q p ks
      → has k ks ≡ true
      → (l.next (at k) ≡ null) ⊎ ((i : ℕ) × (l.next (at k) ≡ at i) × (has i ks ≡ true))
  next-mem l q p k [] c h = cc
  next-mem l q p k (j ∷ js) (e, ne, back, rest) h = elim (Bool-cases (k == j)) [
    | inl same ↦
        let s : l.next (at k) ≡ l.next p = ground (arith, ap at ((==_iff k j).0 same)) in
        first js s rest
    | inr other ↦ elim (next-mem l p (l.next p) k js rest (ground arith)) [
      | inl end ↦ inl end
      | inr (i, n, m) ↦ inr (i, n, ground arith)
    ]
  ]
    where
      first :
          (js : List ℕ)
          → l.next (at k) ≡ l.next p
          → Chain at l p (l.next p) js
          → (l.next (at k) ≡ null) ⊎ ((i : ℕ) × (l.next (at k) ≡ at i) × (has i (j ∷ js) ≡ true))
      first [] s c = inl (s ∙ c)
      first (i ∷ is) s c = inr (i, s ∙ c.0, ground arith)

  prev-mem :
      (l : Links) (q p : Ptr) (k : ℕ) (ks : List ℕ)
      → Chain at l q p ks
      → has k ks ≡ true
      → (l.prev (at k) ≡ q) ⊎ ((i : ℕ) × (l.prev (at k) ≡ at i) × (has i ks ≡ true))
  prev-mem l q p k [] c h = cc
  prev-mem l q p k (j ∷ js) (e, ne, back, rest) h = elim (Bool-cases (k == j)) [
    | inl same ↦ inl (ground (arith, ap at ((==_iff k j).0 same)))
    | inr other ↦ elim (prev-mem l p (l.next p) k js rest (ground arith)) [
      | inl start ↦ inr (j, start ∙ e, ground arith)
      | inr (i, n, m) ↦ inr (i, n, ground arith)
    ]
  ]

  -- The links after a removal, without the head.
  abbrev unlinked : Ptr → Links → Links
  unlinked x l = set_prev x null (set_next x null (bypass_prev x (bypass_next x l)))

  -- What a pointer to the node at `x` is replaced by when that node goes.
  abbrev past : Links → Ptr → Ptr → Ptr
  past l x p = if p == x then l.next p else p

  Away : Ptr → List ℕ → Type 0
  Away q ks = (j : ℕ) → has j ks ≡ true → q ≢ at j

  unlinked-prev :
      (x : Ptr) (l : Links) (a : Ptr) → a ≢ x → a ≢ l.next x → (unlinked x l).prev a ≡ l.prev a
  unlinked-prev x l a n m = ground arith

  unlinked-next :
      (x : Ptr) (l : Links) (a : Ptr) → a ≢ x → a ≢ l.prev x → (unlinked x l).next a ≡ l.next a
  unlinked-next x l a n m = ground arith

  unlinked_first :
      (l : Links) (q p : Ptr) (js : List ℕ)
      → p ≢ null
      → l.prev p ≡ q
      → Chain at l p (l.next p) js
      → Nodup js
      → Away p js
      → Away q js
      → q ≢ p
      → Chain at (unlinked p l) q (l.next p) js × (q ≢ null → (unlinked p l).next q ≡ l.next p)
  unfolding Away
  unlinked_first l q p [] ne back c nd pa aq qp = (c, λ n. ground arith)
  unlinked_first l q p (i ∷ is) ne back (e, ne', back', rest) nd pa aq qp =
      let m = unlinked p l in
      let p-i : p ≢ at i = pa i (ground arith) in
      let q-i : q ≢ at i = aq i (ground arith) in
      let nn : m.next (l.next p) ≡ l.next (l.next p) = ground arith in
      (
        (
          e,
          ne',
          ground arith,
          Chain-at at m is refl (sym nn) (
              Chain-Agree at l m (l.next p) (l.next (l.next p)) is
                (λ j h.
                  let a1 : p ≢ at j = pa j (ground arith) in
                  let a2 : q ≢ at j = aq j (ground arith) in
                  let a3 : at j ≢ at i = at-ne j i is h nd.0 in (ground arith, ground arith))
                rest),
        ),
        λ n. ground arith,
      )

  unlinked-Chain :
      (l : Links) (q p : Ptr) (k : ℕ) (ks : List ℕ)
      → Chain at l q p ks
      → Nodup ks
      → has k ks ≡ true
      → Away q ks
      → Chain at (unlinked (at k) l) q (past l (at k) p) (erase k ks)
        × (q ≢ null → (l.next q ≡ p) → (unlinked (at k) l).next q ≡ past l (at k) p)
  unfolding Away
  unlinked-Chain l q p k [] c nd h away = cc
  unlinked-Chain l q p k (j ∷ js) (e, ne, back, rest) nd h away = elim (Bool-cases (k == j)) [
    | inl same ↦
        let kj : k ≡ j = (==_iff k j).0 same in
        let pk : p ≡ at k = e ∙ ap at (sym kj) in
        let (c, n) =
          unlinked_first l q p js ne back rest nd.1 (λ i m x. at-ne i j js m nd.0 (sym x ∙ e))
            (λ i m. away i (ground arith)) (λ x. away j (ground arith) (x ∙ e)) in
        rw (same, ← pk, ==_refl) (c, λ a b. n a)
    | inr other ↦
        let hk : has k js ≡ true = ground arith in
        let (c, n) =
          unlinked-Chain l p (l.next p) k js rest nd.1 hk
            (λ i m x. at-ne i j js m nd.0 (sym x ∙ e)) in
        let pk : p ≢ at k = λ x. at-ne k j js hk nd.0 (sym x ∙ e) in
        let pn : p ≢ l.next (at k) = λ x. elim (next-mem l p (l.next p) k js rest hk) [
          | inl end ↦ ne (x ∙ end)
          | inr (i, f, g) ↦ at-ne i j js g nd.0 (sym f ∙ sym x ∙ e)
        ] in
        let qk : q ≢ l.prev (at k) = λ x. elim (prev-mem l p (l.next p) k js rest hk) [
          | inl start ↦ away j (ground arith) (x ∙ start ∙ e)
          | inr (i, f, g) ↦ away i (ground arith) (x ∙ f)
        ] in
        let m = unlinked (at k) l in
        let pe : (p == at k) ≡ false = ==_ne p (at k) pk in
        rw (other, pe)
          (
            (
              e,
              ne,
              unlinked-prev (at k) l p pk pn ∙ back,
              Chain-at at m (erase k js) refl (sym (n ne refl)) c,
            ),
            λ a b. unlinked-next (at k) l q (away k h) qk ∙ b,
          )
  ]

  -- `list_remove` takes one node out of a list and keeps the order of the others.
  pub list_remove-Chain :
      (l : Links) (h k : ℕ) (ks : List ℕ)
      → Nodup ks
      → has k ks ≡ true
      → ((j : ℕ) → has j ks ≡ true → at j ≢ null)
      → Chain at l null h ks
      → Chain at (list_remove h (at k) l).1 null (list_remove h (at k) l).0 (erase k ks)
  unfolding list_remove Away
  list_remove-Chain l h k ks nd mem ne c =
      let (d, n) = unlinked-Chain l null h k ks c nd mem (λ j m x. ne j m (sym x)) in
      let e : (bypass_prev (at k) (bypass_next (at k) l)).next (at k) ≡ l.next (at k) =
        ground arith in
      Chain-at at (list_remove h (at k) l).1 (erase k ks) refl (ground arith) d

  -- It writes only to nodes of that list.
  pub list_remove-SameAt :
      (l : Links) (h k : ℕ) (ks : List ℕ) (a : Ptr)
      → has k ks ≡ true
      → a ≢ null
      → Chain at l null h ks
      → ((j : ℕ) → has j ks ≡ true → a ≢ at j)
      → SameAt a l (list_remove h (at k) l).1
  unfolding list_remove
  list_remove-SameAt l h k ks a mem ne c away =
      let an : a ≢ l.next (at k) = λ x. elim (next-mem l null h k ks c mem) [
        | inl end ↦ ne (x ∙ end)
        | inr (i, f, g) ↦ away i g (x ∙ f)
      ] in
      let aq : a ≢ l.prev (at k) = λ x. elim (prev-mem l null h k ks c mem) [
        | inl start ↦ ne (x ∙ start)
        | inr (i, f, g) ↦ away i g (x ∙ f)
      ] in
      record {
        next = unlinked-next (at k) l a (away k mem) aq;
        prev = unlinked-prev (at k) l a (away k mem) an;
      }
