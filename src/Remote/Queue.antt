-- ===== src/Remote/Queue.antt =====
-- The queue of remote frees under any interleaving: it holds exactly the objects whose push is complete, each once.
use sigma_malloc.Base.{
  ◌≡◌, refl, sym, ap, ◌∙◌, ◌≢◌, inl, inr, true, false, none, some, List, [], ◌∷◌, arith, ==_refl,
  ==_ne, eq_cases, has,
}
use sigma_malloc.Links.{Ptr, null, update}
use sigma_malloc.Remote.{
  Phase, held, loaded, linked, queued, given_back, Shared, set_phase, take_queue, Step, loads,
  links, swaps, retries, exchanges, frees, leaves, reuses, writes, Reaches, begins, then_does,
}
use sigma_malloc.Remote.Nodes.{
  is_queued, is_taken, Holds, OwnerHolds, NodeList-same, Holds-same, OwnerHolds-same,
  take_queue-queued, take_queue-taken, take_queue-linked, owner_list, no_owner_list,
  taken-not_queued,
}

pub record IsQueue (s : Shared) (qs ds : List Ptr) : Type 0 where
  pub queue : Holds s.next s.head qs (λ x. is_queued (s.phase x))
  pub owner : OwnerHolds s.node s.next s.phase ds
  pub linking : (p h : Ptr) → s.phase p ≡ linked h → s.next p ≡ h
  pub not_null : (p : Ptr) → s.phase p ≢ held → p ≢ null

-- The steps of a push up to the exchange of the head, and those of a client.
module _ (s : Shared) (qs ds : List Ptr) (i : IsQueue s qs ds) (p : Ptr) where
  outside :
      (next' : Ptr → Ptr) (phase' : Ptr → Phase)
      → ((x : Ptr) → x ≢ p → next' x ≡ s.next x)
      → ((x : Ptr) → x ≢ p → phase' x ≡ s.phase x)
      → is_queued (s.phase p) ≡ false
      → is_taken (s.phase p) ≡ false
      → is_queued (phase' p) ≡ false
      → is_taken (phase' p) ≡ false
      → ((h : Ptr) → phase' p ≡ linked h → next' p ≡ h)
      → (phase' p ≢ held → p ≢ null)
      → IsQueue (record s { next = next'; phase = phase' }) qs ds
  outside next' phase' n f q t q' t' l z = record {
    queue =
        Holds-same s.next next' p s.head qs (λ x. is_queued (s.phase x)) (λ x. is_queued (phase' x))
          n (λ x d. ap is_queued (f x d)) q q' i.queue;
    owner = OwnerHolds-same s.node s.next next' s.phase phase' p ds n f t t' i.owner;
    linking = λ x h e. elim (eq_cases x p) [
      | inl m ↦ rw m (l h (ap phase' (sym m) ∙ e))
      | inr d ↦ n x d ∙ i.linking x h (sym (f x d) ∙ e)
    ];
    not_null = λ x e. elim (eq_cases x p) [
      | inl m ↦ rw m (z (λ w. e (ap phase' m ∙ w)))
      | inr d ↦ i.not_null x (λ w. e (f x d ∙ w))
    ];
  }

swapped :
    (s : Shared) (qs ds : List Ptr) (p h : Ptr)
    → IsQueue s qs ds
    → s.phase p ≡ linked h
    → s.head ≡ h
    → IsQueue (set_phase p queued (record s { head = p })) (p ∷ qs) ds
swapped s qs ds p h i e a =
    let nn : p ≢ null = i.not_null p (λ w. cc) in
    let new : has p qs ≡ false = i.queue.exact p ∙ ap is_queued e in
    let to_head : s.next p ≡ s.head = i.linking p h e ∙ sym a in
    record {
      queue = record {
        nodes = (refl, nn, rw to_head i.queue.nodes);
        nodup = (new, i.queue.nodup);
        exact = λ x. elim (eq_cases x p) [
          | inl m ↦ rw (m, ==_refl p) refl
          | inr d ↦ rw (==_ne x p d) (i.queue.exact x)
        ];
      };
      owner =
          OwnerHolds-same s.node s.next s.next s.phase (update s.phase p queued) p ds (λ x d. refl)
            (λ x d. rw (==_ne x p d) refl) (ap is_taken e) (rw ==_refl refl) i.owner;
      linking = λ x g. elim (eq_cases x p) [
        | inl m ↦ rw (m, ==_refl p) (λ w. cc)
        | inr d ↦ rw (==_ne x p d) (i.linking x g)
      ];
      not_null = λ x. elim (eq_cases x p) [
        | inl m ↦ rw m (λ w. nn)
        | inr d ↦ rw (==_ne x p d) (i.not_null x)
      ];
    }

exchanged :
    (s : Shared) (qs ds : List Ptr)
    → IsQueue s qs ds
    → s.node ≡ none
    → IsQueue
        (record s { head = null; node = some s.head; phase = λ p. take_queue (s.phase p) })
        []
        qs
exchanged s qs ds i e =
    let idle : OwnerHolds none s.next s.phase ds = rw e at i.owner in
    record {
      queue = record { nodes = refl; nodup = tt; exact = λ x. sym (take_queue-queued (s.phase x)) };
      owner = record {
        nodes = i.queue.nodes;
        nodup = i.queue.nodup;
        exact = λ x. i.queue.exact x ∙ sym (take_queue-taken (s.phase x) (idle x));
      };
      linking = λ p h g. i.linking p h (take_queue-linked (s.phase p) h g);
      not_null = λ p g. i.not_null p (λ w. g (ap take_queue w));
    }

pub freed :
    (s : Shared) (qs ds : List Ptr) (p v : Ptr)
    → IsQueue s qs (p ∷ ds)
    → s.node ≡ some p
    → IsQueue
        (set_phase p given_back (record s { node = some (s.next p); next = update s.next p v }))
        qs
        ds
freed s qs ds p v i e =
    let own : Holds s.next p (p ∷ ds) (λ x. is_taken (s.phase x)) = rw e at i.owner in
    let t : is_taken (s.phase p) ≡ true = sym (own.exact p) ∙ rw ==_refl refl in
    let off : (x : Ptr) → x ≢ p → update s.next p v x ≡ s.next x = λ x d. rw (==_ne x p d) refl in
    record {
      queue =
          Holds-same s.next (update s.next p v) p s.head qs (λ x. is_queued (s.phase x))
            (λ x. is_queued (update s.phase p given_back x)) off (λ x d. rw (==_ne x p d) refl)
            (taken-not_queued (s.phase p) t) (rw ==_refl refl) i.queue;
      owner = record {
        nodes =
            NodeList-same s.next (update s.next p v) p (s.next p) ds off own.nodup.0 own.nodes.2;
        nodup = own.nodup.1;
        exact = λ x. elim (eq_cases x p) [
          | inl m ↦ rw (m, ==_refl p) own.nodup.0
          | inr d ↦ rw (==_ne x p d) (ground (arith, own.exact x, d))
        ];
      };
      linking = λ x g. elim (eq_cases x p) [
        | inl m ↦ rw (m, ==_refl p) (λ w. cc)
        | inr d ↦ rw (==_ne x p d) (i.linking x g)
      ];
      not_null = λ x. elim (eq_cases x p) [
        | inl m ↦ rw m (λ w. own.nodes.1)
        | inr d ↦ rw (==_ne x p d) (i.not_null x)
      ];
    }

left :
    (s : Shared) (qs ds : List Ptr)
    → IsQueue s qs ds
    → s.node ≡ some null
    → IsQueue (record s { node = none }) qs []
left s qs ds i e =
    let own : Holds s.next null ds (λ x. is_taken (s.phase x)) = rw e at i.owner in
    let empty : ds ≡ [] = no_owner_list s.next ds own.nodes in
    record {
      queue = i.queue;
      owner = λ x. sym (own.exact x) ∙ rw empty refl;
      linking = i.linking;
      not_null = i.not_null;
    }

-- Every step keeps the two lists well formed, without a node twice, and exact.
pub Step-IsQueue :
    {s s' : Shared} (qs ds : List Ptr)
    → IsQueue s qs ds
    → Step s s'
    → (qs' ds' : List Ptr) × IsQueue s' qs' ds'
Step-IsQueue qs ds i (loads s p n e) = (
  qs,
  ds,
  outside s qs ds i p s.next (update s.phase p (loaded s.head)) (λ x d. refl)
      (λ x d. rw (==_ne x p d) refl) (ap is_queued e) (ap is_taken e) (rw ==_refl refl)
      (rw ==_refl refl) (rw ==_refl (λ h w. cc)) (λ w. n),
)
Step-IsQueue qs ds i (links s p h e) = (
  qs,
  ds,
  outside s qs ds i p (update s.next p h) (update s.phase p (linked h))
      (λ x d. rw (==_ne x p d) refl) (λ x d. rw (==_ne x p d) refl) (ap is_queued e) (ap is_taken e)
      (rw ==_refl refl) (rw ==_refl refl) (rw ==_refl (λ g w. cc)) (λ w. i.not_null p (λ u. cc)),
)
Step-IsQueue qs ds i (swaps s p h e a) = (p ∷ qs, ds, swapped s qs ds p h i e a)
Step-IsQueue qs ds i (retries s p h e) = (
  qs,
  ds,
  outside s qs ds i p s.next (update s.phase p (loaded s.head)) (λ x d. refl)
      (λ x d. rw (==_ne x p d) refl) (ap is_queued e) (ap is_taken e) (rw ==_refl refl)
      (rw ==_refl refl) (rw ==_refl (λ g w. cc)) (λ w. i.not_null p (λ u. cc)),
)
Step-IsQueue qs ds i (exchanges s e) = ([], qs, exchanged s qs ds i e)
Step-IsQueue qs ds i (frees s p v e n) =
    let own : Holds s.next p ds (λ x. is_taken (s.phase x)) = rw e at i.owner in
    let (rest, d) = owner_list s.next p ds own.nodes n in
    (qs, rest, freed s qs rest p v (rw d at i) e)
Step-IsQueue qs ds i (leaves s e) = (qs, [], left s qs ds i e)
Step-IsQueue qs ds i (reuses s p e) = (
  qs,
  ds,
  outside s qs ds i p s.next (update s.phase p held) (λ x d. refl) (λ x d. rw (==_ne x p d) refl)
      (ap is_queued e) (ap is_taken e) (rw ==_refl refl) (rw ==_refl refl) (rw ==_refl (λ h w. cc))
      (λ w. absurd (w (rw ==_refl refl))),
)
Step-IsQueue qs ds i (writes s p v e) = (
  qs,
  ds,
  outside s qs ds i p (update s.next p v) s.phase (λ x d. rw (==_ne x p d) refl) (λ x d. refl)
      (ap is_queued e) (ap is_taken e) (ap is_queued e) (ap is_taken e) (λ h w. cc)
      (λ w. absurd (w e)),
)

-- In every state that the threads can reach, whatever the order of their steps, the chain from the head holds
-- exactly the objects whose push is complete, and the owner's list exactly those that it has taken and not given
-- back, each once.
pub Reaches-IsQueue : {s : Shared} → Reaches s → (qs ds : List Ptr) × IsQueue s qs ds
Reaches-IsQueue (begins next) = (
  [],
  [],
  record {
    queue = record { nodes = refl; nodup = tt; exact = λ x. refl };
    owner = λ x. refl;
    linking = λ p h e. cc;
    not_null = λ p n. absurd (n refl);
  },
)
Reaches-IsQueue (then_does r t) = let (qs, ds, i) = Reaches-IsQueue r in Step-IsQueue qs ds i t
