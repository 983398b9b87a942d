-- ===== src/Buddy/Client.antt =====
-- A client of one pool: any sequence of calls in which it frees only pointers that it holds. Seen from the
-- outside, the pool is the set of these pointers, each with a block of its own.
use sigma_malloc.Base.{
  ℕ, ◌≤◌, ◌≡◌, refl, sym, ap, ◌∙◌, ◌≢◌, inl, inr, Bool, true, false, ◌&&◌, List, [], ◌∷◌, arith,
  ◌==◌, ==_refl, ==_ne, Bool-cases, eq_cases, has, erase, Nodup, has-erase, Nodup-erase,
}
use mathlib.Core.Path.{subst}
use sigma_malloc.Links.{Ptr, null, update}
use sigma_malloc.Buddy.{Buddy, ok, size_to_order, buddy_alloc, buddy_free}
use sigma_malloc.Buddy.Layout.{top, Disjoint}
use sigma_malloc.Buddy.Split.{full_leaf, IsValid}
use sigma_malloc.Buddy.Take.{IsHandle, Allocated}
use sigma_malloc.Buddy.Request.{
  IsRequest, Outcome, too_big, exhausted, allocated, buddy_alloc-Outcome,
}
use sigma_malloc.Buddy.Release.{Released}
use sigma_malloc.Buddy.Free.{buddy_free-Released}
use sigma_malloc.Buddy.Handles.{handed_out_apart, ne_user, Allocated-IsHandle, Released-IsHandle}
use sigma_malloc.Buddy.Create.{Created, fresh_lists}

-- The states of a pool that starts as `b0`, with the pointers that the client holds.
pub data Reach (debug : Bool) (self : Ptr) (b0 : Buddy) : Buddy → List Ptr → Type 0 where
  start : Reach debug self b0 b0 []
  allocates :
      {b b' : Buddy} {ps : List Ptr} (size alignment p : ℕ)
      → Reach debug self b0 b ps
      → IsRequest self size alignment
      → buddy_alloc debug self size alignment b ≡ (p, b')
      → p ≢ null
      → Reach debug self b0 b' (p ∷ ps)
  fails :
      {b b' : Buddy} {ps : List Ptr} (size alignment : ℕ)
      → Reach debug self b0 b ps
      → IsRequest self size alignment
      → buddy_alloc debug self size alignment b ≡ (null, b')
      → Reach debug self b0 b' ps
  releases :
      {b b' : Buddy} {ps : List Ptr} (p : Ptr)
      → Reach debug self b0 b ps
      → has p ps ≡ true
      → buddy_free debug p b ≡ ok b'
      → Reach debug self b0 b' (erase p ps)

-- The pool holds exactly the blocks of the pointers of a list.
pub record Holds (debug : Bool) (b : Buddy) (ps : List Ptr) : Type 0 where
  pub lists : ℕ → List ℕ
  pub valid : IsValid b lists
  pub order_of : Ptr → ℕ
  pub place_of : Ptr → ℕ
  pub nodup : Nodup ps
  pub handles : (p : Ptr) → has p ps ≡ true → IsHandle debug b p (order_of p) (place_of p)
  pub distinct :
      (p q : Ptr)
      → has p ps ≡ true
      → has q ps ≡ true
      → p ≢ q
      → ((order_of p ≡ order_of q) × (place_of p ≡ place_of q))
      → ⊥
  pub exact :
      (o k : ℕ)
      → o ≤ top
      → full_leaf b.pool.tree o k ≡ true
      → (p : Ptr) × (has p ps ≡ true) × (order_of p ≡ o) × (place_of p ≡ k)

fresh-Holds : (debug : Bool) (raw size : ℕ) (b : Buddy) → Created raw size b → Holds debug b []
fresh-Holds debug raw size b c = record {
  lists = fresh_lists;
  valid = c.valid;
  order_of = λ p. 0;
  place_of = λ p. 0;
  nodup = tt;
  handles = λ p h. absurd (ground arith);
  distinct = λ p q h. absurd (ground arith);
  exact = λ o k l f. absurd (ground (arith, c.none_out o k));
}

module _ (debug : Bool) (b b' : Buddy) (ps : List Ptr) (user target size alignment : ℕ)
    (v : Holds debug b ps) (a : Allocated debug b b' user target size alignment) where
  is_new : has user ps ≡ false
  is_new = elim (Bool-cases (has user ps)) [
    | inl t ↦ absurd (
        ne_user debug b b' user target size alignment a user (v.order_of user) (v.place_of user)
          (v.handles user t) refl)
    | inr f ↦ f
  ]

  not_taken : (q : Ptr) → has q ps ≡ true → ((v.order_of q ≡ target) × (v.place_of q ≡ a.place)) → ⊥
  not_taken q h (e, f) =
      let t : full_leaf b.pool.tree (v.order_of q) (v.place_of q) ≡ true =
        (v.handles q h).handed_out in
      absurd (ground (arith, (rw (e, f) at t), a.new))

  abbrev orders : Ptr → ℕ
  orders = update v.order_of user target

  abbrev places : Ptr → ℕ
  places = update v.place_of user a.place

  held_ne : (q : Ptr) → has q ps ≡ true → q ≢ user
  held_ne q h e = absurd (ground (arith, rw e at h, is_new))

  still_distinct :
      (p q : Ptr)
      → has p (user ∷ ps) ≡ true
      → has q (user ∷ ps) ≡ true
      → p ≢ q
      → ((orders p ≡ orders q) × (places p ≡ places q))
      → ⊥
  still_distinct p q h g n = elim (eq_cases p user) [
    | inl e ↦
        let nq : q ≢ user = λ z. n (e ∙ sym z) in
        rw (e, ==_refl user, ==_ne q user nq)
          (λ (x, y). not_taken q (ground (arith, g, nq)) (sym x, sym y))
    | inr np ↦ elim (eq_cases q user) [
      | inl e ↦ rw (e, ==_refl user, ==_ne p user np) (not_taken p (ground (arith, h, np)))
      | inr nq ↦
          rw (==_ne p user np, ==_ne q user nq)
            (v.distinct p q (ground (arith, h, np)) (ground (arith, g, nq)) n)
    ]
  ]

  old_owner :
      (o k : ℕ)
      → (p : Ptr) × (has p ps ≡ true) × (v.order_of p ≡ o) × (v.place_of p ≡ k)
      → (p : Ptr) × (has p (user ∷ ps) ≡ true) × (orders p ≡ o) × (places p ≡ k)
  old_owner o k (p, h, eo, ek) =
      let n = held_ne p h in (p, ground (arith, h), rw (==_ne p user n) eo, rw (==_ne p user n) ek)

  still_exact :
      (o k : ℕ)
      → o ≤ top
      → full_leaf b'.pool.tree o k ≡ true
      → (p : Ptr) × (has p (user ∷ ps) ≡ true) × (orders p ≡ o) × (places p ≡ k)
  still_exact o k l f = elim (Bool-cases (full_leaf b.pool.tree o k)) [
    | inl t ↦ old_owner o k (v.exact o k l t)
    | inr t ↦
        let s : (o == target && k == a.place) ≡ true = rw t at (sym (a.handed_out o k l) ∙ f) in
        let e : (o ≡ target) × (k ≡ a.place) = ground (arith, s) in
        (user, rw ==_refl refl, rw ==_refl (sym e.0), rw ==_refl (sym e.1))
  ]

  alloc-Holds : Holds debug b' (user ∷ ps)
  alloc-Holds = record {
    lists = a.lists;
    valid = a.valid;
    order_of = orders;
    place_of = places;
    nodup = (is_new, v.nodup);
    handles = λ p h. elim (eq_cases p user) [
      | inl e ↦ rw (e, ==_refl) a.handle
      | inr n ↦
          rw (==_ne p user n)
            (Allocated-IsHandle debug b b' user target size alignment a p (v.order_of p)
              (v.place_of p) (v.handles p (ground (arith, h, n)))).0
    ];
    distinct = still_distinct;
    exact = still_exact;
  }

module _ (debug : Bool) (b b' : Buddy) (ps : List Ptr) (p : Ptr) (v : Holds debug b ps)
    (h : has p ps ≡ true) (r : Released b b' (v.order_of p) (v.place_of p)) where
  remaining : (q : Ptr) → has q (erase p ps) ≡ true → (has q ps ≡ true) × (q ≢ p)
  remaining q g =
      let e = has-erase p q ps v.nodup in
      (ground (arith, e, g), λ z. absurd (ground (arith, e, g, z)))

  kept_owner :
      (o k : ℕ)
      → full_leaf b'.pool.tree o k ≡ true
      → o ≤ top
      → (q : Ptr) × (has q ps ≡ true) × (v.order_of q ≡ o) × (v.place_of q ≡ k)
      → (q : Ptr) × (has q (erase p ps) ≡ true) × (v.order_of q ≡ o) × (v.place_of q ≡ k)
  kept_owner o k f l (q, g, eo, ek) =
      let n : q ≢ p = λ z.
        (let eo' : v.order_of p ≡ o = ap v.order_of (sym z) ∙ eo in
          let ek' : v.place_of p ≡ k = ap v.place_of (sym z) ∙ ek in
          absurd (ground (arith, r.handed_out o k l, f, eo', ek'))) in
      (q, ground (arith, has-erase p q ps v.nodup, g, n), eo, ek)

  free-Holds : Holds debug b' (erase p ps)
  free-Holds = record {
    lists = r.lists;
    valid = r.valid;
    order_of = v.order_of;
    place_of = v.place_of;
    nodup = Nodup-erase p ps v.nodup;
    handles = λ q g.
        (let (m, n) = remaining q g in
          Released-IsHandle debug b b' (v.order_of p) (v.place_of p) q (v.order_of q) (v.place_of q)
            r (v.handles q m) (v.distinct q p m h n));
    distinct = λ q q' g g' n. v.distinct q q' (remaining q g).0 (remaining q' g').0 n;
    exact = λ o k l f. kept_owner o k f l (v.exact o k l (ground (arith, r.handed_out o k l, f)));
  }

ok_same : {b b' : Buddy} → ok b ≡ ok b' → b ≡ b'
ok_same e = cc

after_alloc :
    (debug : Bool) (b b' : Buddy) (ps : List Ptr) (size alignment p : ℕ)
    → Holds debug b ps
    → p ≢ null
    → Outcome debug b size alignment (p, b')
    → Holds debug b' (p ∷ ps)
after_alloc debug b b' ps size alignment p v n (too_big l e) =
    absurd (n (ap (λ (x : Ptr × Buddy). x.0) e))
after_alloc debug b b' ps size alignment p v n (exhausted l e) =
    absurd (n (ap (λ (x : Ptr × Buddy). x.0) e))
after_alloc debug b b' ps size alignment p v n (allocated m a) =
    alloc-Holds debug b b' ps p (size_to_order debug size alignment) size alignment v a

after_failure :
    (debug : Bool) (b b' : Buddy) (ps : List Ptr) (size alignment : ℕ)
    → Holds debug b ps
    → Outcome debug b size alignment (null, b')
    → Holds debug b' ps
after_failure debug b b' ps size alignment v (too_big l e) =
    subst (λ c. Holds debug c ps) (sym (ap (λ (x : Ptr × Buddy). x.1) e)) v
after_failure debug b b' ps size alignment v (exhausted l e) =
    subst (λ c. Holds debug c ps) (sym (ap (λ (x : Ptr × Buddy). x.1) e)) v
after_failure debug b b' ps size alignment v (allocated m a) = absurd (m refl)

-- After any calls of a client on a fresh pool, in which every free is of a pointer that the client holds, the
-- pool is consistent and holds exactly one block for each of these pointers, and each pointer's header says
-- which.
pub Reach-Holds :
    (debug : Bool) (self raw size : ℕ) (b0 b : Buddy) (ps : List Ptr)
    → Created raw size b0
    → Reach debug self b0 b ps
    → Holds debug b ps
Reach-Holds debug self raw size b0 b ps c start = fresh-Holds debug raw size b0 c
Reach-Holds debug self raw size b0 b ps c (allocates {b = d} {ps = qs} n alignment p r q e ne) =
    let v = Reach-Holds debug self raw size b0 d qs c r in
    after_alloc debug d b qs n alignment p v ne (
      subst (Outcome debug d n alignment) e
        (buddy_alloc-Outcome debug self n alignment d v.lists v.valid q))
Reach-Holds debug self raw size b0 b ps c (fails {b = d} n alignment r q e) =
    let v = Reach-Holds debug self raw size b0 d ps c r in
    after_failure debug d b ps n alignment v (
      subst (Outcome debug d n alignment) e
        (buddy_alloc-Outcome debug self n alignment d v.lists v.valid q))
Reach-Holds debug self raw size b0 b ps c (releases {b = d} {ps = qs} p r h e) =
    let v = Reach-Holds debug self raw size b0 d qs c r in
    let (b1, f, rel) =
      buddy_free-Released debug d v.lists v.valid p (v.order_of p) (v.place_of p) (v.handles p h) in
    free-Holds debug d b qs p v h
      (subst (λ x. Released d x (v.order_of p) (v.place_of p)) (ok_same (sym f ∙ e)) rel)

-- A client of a fresh pool that has freed only what it held can free each pointer that it holds: the free does
-- not panic, whatever else the client holds, and afterwards the pool holds exactly the blocks of the other
-- pointers.
pub Reach_safe :
    (debug : Bool) (self raw size : ℕ) (b0 b : Buddy) (ps : List Ptr) (p : Ptr)
    → Created raw size b0
    → Reach debug self b0 b ps
    → has p ps ≡ true
    → (b' : Buddy) × (buddy_free debug p b ≡ ok b') × Holds debug b' (erase p ps)
Reach_safe debug self raw size b0 b ps p c r h =
    let v = Reach-Holds debug self raw size b0 b ps c r in
    let (b1, f, rel) =
      buddy_free-Released debug b v.lists v.valid p (v.order_of p) (v.place_of p) (v.handles p h) in
    (b1, f, free-Holds debug b b1 ps p v h rel)

-- After any calls of a client on a fresh pool, in which every free is of a pointer that the client holds, the
-- blocks of two different pointers that it holds share no byte.
pub Reach_apart :
    (debug : Bool) (self raw size : ℕ) (b0 b : Buddy) (ps : List Ptr) (p q : Ptr)
    → Created raw size b0
    → Reach debug self b0 b ps
    → has p ps ≡ true
    → has q ps ≡ true
    → p ≢ q
    → (o k e j : ℕ) × IsHandle debug b p o k × IsHandle debug b q e j × Disjoint o k e j
Reach_apart debug self raw size b0 b ps p q c r h g n =
    let v = Reach-Holds debug self raw size b0 b ps c r in
    let i = v.handles p h in
    let j = v.handles q g in
    (
      v.order_of p,
      v.place_of p,
      v.order_of q,
      v.place_of q,
      i,
      j,
      elim (handed_out_apart b (v.order_of p) (v.place_of p) (v.order_of q) (v.place_of q)
          i.in_range j.in_range i.handed_out j.handed_out) [
            | inl same ↦ absurd (v.distinct p q h g n same)
            | inr d ↦ d
          ],
    )
