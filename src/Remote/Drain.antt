-- ===== src/Remote/Drain.antt =====
-- The owner's loop: alone it always ends, and it gives back every object that the exchange has taken.
use sigma_malloc.Base.{
  ℕ, zero, suc, ◌≤◌, ◌<◌, ◌≡◌, refl, sym, ap, ◌∙◌, ◌≢◌, inl, inr, true, Option, none, some, List,
  [], ◌∷◌, arith, if◌then◌else◌, ==_refl, ==_ne, eq_cases, length,
}
use sigma_malloc.Header.{type_slab, type_buddy}
use sigma_malloc.Links.{Ptr, null, update}
use sigma_malloc.Remote.{
  Phase, given_back, Shared, set_phase, Step, frees, leaves, Backend, free_node, drain_loop,
}
use sigma_malloc.Remote.Nodes.{Holds, is_taken}
use sigma_malloc.Remote.Queue.{IsQueue, freed}

-- The accesses of the owner in its loop: it gives an object back, which leaves `v p` in its `next` field, and it
-- ends the loop at NULL.
pub data OwnerStep (v : Ptr → Ptr) : Shared → Shared → Type 0 where
  gives :
      (s : Shared) (p : Ptr)
      → s.node ≡ some p
      → p ≢ null
      → OwnerStep v s (
          set_phase p given_back
            (record s { node = some (s.next p); next = update s.next p (v p) }))
  ends : (s : Shared) → s.node ≡ some null → OwnerStep v s (record s { node = none })

-- They are steps of the whole system.
pub OwnerStep-Step : {v : Ptr → Ptr} {s s' : Shared} → OwnerStep v s s' → Step s s'
OwnerStep-Step {v} (gives s p e n) = frees s p (v p) e n
OwnerStep-Step (ends s e) = leaves s e

-- A number of accesses of the owner, no other thread running.
pub data OwnerSteps (v : Ptr → Ptr) : ℕ → Shared → Shared → Type 0 where
  rests : (s : Shared) → OwnerSteps v 0 s s
  then_steps :
      {n : ℕ} {s s' s'' : Shared}
      → OwnerStep v s s'
      → OwnerSteps v n s' s''
      → OwnerSteps v (suc n) s s''

-- What the loop does to the objects, and to their `next` fields.
abbrev pub all_given : (Ptr → Phase) → Ptr → Phase
all_given phase x = if is_taken (phase x) then given_back else phase x

abbrev pub all_left : (v : Ptr → Ptr) → (Ptr → Phase) → (Ptr → Ptr) → Ptr → Ptr
all_left v phase next x = if is_taken (phase x) then v x else next x

-- The loop is over.
pub record Ended (v : Ptr → Ptr) (s s' : Shared) : Type 0 where
  pub node : s'.node ≡ none
  pub head : s'.head ≡ s.head
  pub phases : (x : Ptr) → s'.phase x ≡ all_given s.phase x
  pub fields : (x : Ptr) → s'.next x ≡ all_left v s.phase s.next x

-- The owner alone can go on, or has ended its loop after one access for each object and one more.
pub data Progress (v : Ptr → Ptr) (s : Shared) (size n : ℕ) (s' : Shared) : Type 0 where
  goes_on : {s'' : Shared} → n ≤ size → OwnerStep v s' s'' → Progress v s size n s'
  is_done : n ≡ suc size → Ended v s s' → Progress v s size n s'

not_in_loop : {v : Ptr → Ptr} {s s' : Shared} → s.node ≡ none → OwnerStep v s s' → ⊥
not_in_loop e (gives s p f n) = absurd (ground (arith, sym e ∙ f))
not_in_loop e (ends s f) = absurd (ground (arith, sym e ∙ f))

stays :
    {v : Ptr → Ptr} {n : ℕ} {s s' : Shared}
    → s.node ≡ none
    → OwnerSteps v n s s'
    → (n ≡ 0) × (s' ≡ s)
stays e (rests s) = (refl, refl)
stays e (then_steps a r) = absurd (not_in_loop e a)

module _ (v : Ptr → Ptr) where
  first_step :
      (s : Shared) (qs ds : List Ptr) (p : Ptr)
      → IsQueue s qs ds
      → s.node ≡ some p
      → (s' : Shared) × OwnerStep v s s'
  first_step s qs [] p i e =
      let own : Holds s.next p [] (λ x. is_taken (s.phase x)) = rw e at i.owner in
      (_, ends s (e ∙ ap some own.nodes))
  first_step s qs (d ∷ ds) p i e =
      let own : Holds s.next p (d ∷ ds) (λ x. is_taken (s.phase x)) = rw e at i.owner in
      (_, gives s p e own.nodes.1)

  some_same : {p q : Ptr} → some p ≡ some q → p ≡ q
  some_same e = cc

  -- One more object.
  given_first :
      (s s' : Shared) (qs ds : List Ptr) (p : Ptr) (n : ℕ)
      → IsQueue s qs (p ∷ ds)
      → s.node ≡ some p
      → Progress v
          (set_phase p given_back
            (record s { node = some (s.next p); next = update s.next p (v p) }))
          (length ds)
          n
          s'
      → Progress v s (suc (length ds)) (suc n) s'
  given_first s s' qs ds p n i e (goes_on l a) = goes_on (omega (arith, l)) a
  given_first s s' qs ds p n i e (is_done l d) =
      let own : Holds s.next p (p ∷ ds) (λ x. is_taken (s.phase x)) = rw e at i.owner in
      let t : is_taken (s.phase p) ≡ true = sym (own.exact p) ∙ rw ==_refl refl in
      is_done (ap suc l) (record {
        node = d.node;
        head = d.head;
        phases = λ x. d.phases x ∙ elim (eq_cases x p) [
          | inl m ↦ rw (m, ==_refl p, t) refl
          | inr o ↦ rw (==_ne x p o) refl
        ];
        fields = λ x. d.fields x ∙ elim (eq_cases x p) [
          | inl m ↦ rw (m, ==_refl p, t) refl
          | inr o ↦ rw (==_ne x p o) refl
        ];
      })

  -- From every state in which the owner is in its loop and the two lists are as in the invariant, and for every
  -- number of accesses of the owner with no other thread running, whatever the frees leave in the `next`
  -- fields: either there have been at most as many accesses as the owner has objects, and it can make another
  -- one, or there has been exactly one more, the loop has ended, exactly the objects that it had taken are given
  -- back, and the queue, every other object and every other `next` field are as before.
  pub owner_ends :
      (n : ℕ) (s s' : Shared) (qs ds : List Ptr) (p : Ptr)
      → IsQueue s qs ds
      → s.node ≡ some p
      → OwnerSteps v n s s'
      → Progress v s (length ds) n s'
  owner_ends zero s s' qs ds p i e (rests _) =
      let (s'', a) = first_step s qs ds p i e in goes_on (omega arith) a
  owner_ends (suc n) s s' qs [] p i e (then_steps (gives _ q f z) r) =
      let own : Holds s.next p [] (λ x. is_taken (s.phase x)) = rw e at i.owner in
      absurd (z (some_same (sym f ∙ e) ∙ own.nodes))
  owner_ends (suc n) s s' qs [] p i e (then_steps (ends _ f) r) =
      let own : Holds s.next p [] (λ x. is_taken (s.phase x)) = rw e at i.owner in
      let (m, same) = stays refl r in
      is_done (ap suc m) (record {
        node = ap (λ (t : Shared). t.node) same;
        head = ap (λ (t : Shared). t.head) same;
        phases = λ x. ap (λ (t : Shared). t.phase x) same ∙ rw (sym (own.exact x)) refl;
        fields = λ x. ap (λ (t : Shared). t.next x) same ∙ rw (sym (own.exact x)) refl;
      })
  owner_ends (suc n) s s' qs (d ∷ ds) p i e (then_steps (ends _ f) r) =
      let own : Holds s.next p (d ∷ ds) (λ x. is_taken (s.phase x)) = rw e at i.owner in
      absurd (own.nodes.1 (some_same (sym e ∙ f)))
  owner_ends (suc n) s s' qs (d ∷ ds) p i e (then_steps (gives _ q f z) r) =
      let own : Holds s.next p (d ∷ ds) (λ x. is_taken (s.phase x)) = rw e at i.owner in
      let same : d ≡ q = sym own.nodes.0 ∙ some_same (sym e ∙ f) in
      let i' : IsQueue s qs (q ∷ ds) = rw same at i in
      given_first s s' qs ds q n i' f
        (owner_ends n _ s' qs ds (s.next q) (freed s qs ds q (v q) i' f) refl r)

module _ {S : Type 0} (x : Backend S) where
  -- A run of the loop of the owner from an object on: the objects that it gives back, each to the free of its type
  -- after its `next` field has been read, and the state that it leaves, or none if a free panics.
  pub data Drained : Ptr → S → List Ptr → Option S → Type 0 where
    at_null : (p : Ptr) (s : S) → p ≡ null → Drained p s [] (some s)
    to_slab :
        {p : Ptr} {s s1 : S} {ns : List Ptr} {r : Option S}
        → p ≢ null
        → x.type_of s p ≡ type_slab
        → x.free_local p s ≡ some s1
        → Drained (x.next s p) s1 ns r
        → Drained p s (p ∷ ns) r
    to_pool :
        {p : Ptr} {s s1 : S} {ns : List Ptr} {r : Option S}
        → p ≢ null
        → x.type_of s p ≡ type_buddy
        → x.free_buddy_local p s ≡ some s1
        → Drained (x.next s p) s1 ns r
        → Drained p s (p ∷ ns) r
    left_alone :
        {p : Ptr} {s : S} {ns : List Ptr} {r : Option S}
        → p ≢ null
        → x.type_of s p ≢ type_slab
        → x.type_of s p ≢ type_buddy
        → Drained (x.next s p) s ns r
        → Drained p s (p ∷ ns) r
    slab_panics :
        (p : Ptr) (s : S)
        → p ≢ null
        → x.type_of s p ≡ type_slab
        → x.free_local p s ≡ none
        → Drained p s (p ∷ []) none
    pool_panics :
        (p : Ptr) (s : S)
        → p ≢ null
        → x.type_of s p ≡ type_buddy
        → x.free_buddy_local p s ≡ none
        → Drained p s (p ∷ []) none

  -- The loop of arena_drain_remote_frees does what a run says: for fuel above the number of objects it ends with the
  -- result of the run, in which each object goes to the free of its type after its `next` field has been read, so that
  -- what a free writes there does not matter, and in which the first panic of a free is the end.
  pub drain_loop-Drained :
      (fuel : ℕ) (p : Ptr) (s : S) (ns : List Ptr) (r : Option S)
      → Drained p s ns r
      → length ns < fuel
      → drain_loop x fuel p s ≡ r
  unfolding drain_loop free_node
  drain_loop-Drained zero p s ns r d l = absurd (omega arith)
  drain_loop-Drained (suc f) p s [] r (at_null _ _ e) l = rw e refl
  drain_loop-Drained (suc f) p s (_ ∷ ns) r (to_slab {s1 = s1} n t e d) l =
      rw (==_ne p null n, t, e) (drain_loop-Drained f (x.next s p) s1 ns r d (omega arith))
  drain_loop-Drained (suc f) p s (_ ∷ ns) r (to_pool {s1 = s1} n t e d) l =
      rw (==_ne p null n, t, e) (drain_loop-Drained f (x.next s p) s1 ns r d (omega arith))
  drain_loop-Drained (suc f) p s (_ ∷ ns) r (left_alone n a b d) l =
      rw (==_ne p null n, ==_ne (x.type_of s p) type_slab a, ==_ne (x.type_of s p) type_buddy b)
        (drain_loop-Drained f (x.next s p) s ns r d (omega arith))
  drain_loop-Drained (suc f) p s (_ ∷ []) r (slab_panics _ _ n t e) l =
      rw (==_ne p null n, t, e) refl
  drain_loop-Drained (suc f) p s (_ ∷ []) r (pool_panics _ _ n t e) l =
      rw (==_ne p null n, t, e) refl
