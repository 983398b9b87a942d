-- ===== src/Remote/Nodes.antt =====
-- Lists of objects in memory, and which of them the queue and the owner hold.
use sigma_malloc.Base.{
  ◌≡◌, refl, sym, ap, ◌∙◌, ◌≢◌, inl, inr, Bool, true, false, Option, none, some, List, [], ◌∷◌,
  arith, eq_cases, has, Nodup,
}
use sigma_malloc.Links.{Ptr, null}
use sigma_malloc.Remote.{Phase, held, loaded, linked, queued, taken, given_back, take_queue}

-- From `p` the `next` fields lead through the objects of a list to NULL.
abbrev pub NodeList : (Ptr → Ptr) → Ptr → List Ptr → Type 0
NodeList next p [] = p ≡ null
NodeList next p (x ∷ xs) = (p ≡ x) × (p ≢ null) × NodeList next (next p) xs

abbrev pub is_queued : Phase → Bool
is_queued held = false
is_queued (loaded h) = false
is_queued (linked h) = false
is_queued queued = true
is_queued taken = false
is_queued given_back = false

abbrev pub is_taken : Phase → Bool
is_taken held = false
is_taken (loaded h) = false
is_taken (linked h) = false
is_taken queued = false
is_taken taken = true
is_taken given_back = false

-- A list in memory that holds exactly the objects that a test picks, each once.
pub record Holds (next : Ptr → Ptr) (p : Ptr) (xs : List Ptr) (test : Ptr → Bool) : Type 0 where
  pub nodes : NodeList next p xs
  pub nodup : Nodup xs
  pub exact : (x : Ptr) → has x xs ≡ test x

-- The owner's list: what it has taken and not yet given back.
abbrev pub OwnerHolds : Option Ptr → (Ptr → Ptr) → (Ptr → Phase) → List Ptr → Type 0
OwnerHolds none next phase ds = (x : Ptr) → is_taken (phase x) ≡ false
OwnerHolds (some p) next phase ds = Holds next p ds (λ x. is_taken (phase x))

pub NodeList-same :
    (next next' : Ptr → Ptr) (p q : Ptr) (xs : List Ptr)
    → ((x : Ptr) → x ≢ p → next' x ≡ next x)
    → has p xs ≡ false
    → NodeList next q xs
    → NodeList next' q xs
NodeList-same next next' p q [] same n c = c
NodeList-same next next' p q (x ∷ xs) same n (e, ne, rest) =
    let d : q ≢ p = λ z. absurd (ground (arith, z, e, n)) in
    (e, ne, rw (same q d) (NodeList-same next next' p (next q) xs same (ground (arith, n)) rest))

-- A change at an object that is not in the list.
pub Holds-same :
    (next next' : Ptr → Ptr) (p q : Ptr) (xs : List Ptr) (test test' : Ptr → Bool)
    → ((x : Ptr) → x ≢ p → next' x ≡ next x)
    → ((x : Ptr) → x ≢ p → test' x ≡ test x)
    → test p ≡ false
    → test' p ≡ false
    → Holds next q xs test
    → Holds next' q xs test'
Holds-same next next' p q xs test test' n t f f' h = record {
  nodes = NodeList-same next next' p q xs n (h.exact p ∙ f) h.nodes;
  nodup = h.nodup;
  exact = λ x. elim (eq_cases x p) [
    | inl e ↦ rw e (h.exact p ∙ f ∙ sym f')
    | inr d ↦ h.exact x ∙ sym (t x d)
  ];
}

pub OwnerHolds-same :
    (node : Option Ptr) (next next' : Ptr → Ptr) (phase phase' : Ptr → Phase) (p : Ptr)
    (ds : List Ptr)
    → ((x : Ptr) → x ≢ p → next' x ≡ next x)
    → ((x : Ptr) → x ≢ p → phase' x ≡ phase x)
    → is_taken (phase p) ≡ false
    → is_taken (phase' p) ≡ false
    → OwnerHolds node next phase ds
    → OwnerHolds node next' phase' ds
OwnerHolds-same none next next' phase phase' p ds n f t t' h =
    λ x. elim (eq_cases x p) [ inl e ↦ rw e t' | inr d ↦ rw (f x d) (h x) ]
OwnerHolds-same (some q) next next' phase phase' p ds n f t t' h =
    Holds-same next next' p q ds (λ x. is_taken (phase x)) (λ x. is_taken (phase' x)) n
      (λ x d. ap is_taken (f x d)) t t' h

pub take_queue-queued : (f : Phase) → is_queued (take_queue f) ≡ false
take_queue-queued held = refl
take_queue-queued (loaded h) = refl
take_queue-queued (linked h) = refl
take_queue-queued queued = refl
take_queue-queued taken = refl
take_queue-queued given_back = refl

pub take_queue-taken : (f : Phase) → is_taken f ≡ false → is_taken (take_queue f) ≡ is_queued f
take_queue-taken held e = refl
take_queue-taken (loaded h) e = refl
take_queue-taken (linked h) e = refl
take_queue-taken queued e = refl
take_queue-taken taken e = absurd (ground (arith, e))
take_queue-taken given_back e = refl

pub take_queue-linked : (f : Phase) (h : Ptr) → take_queue f ≡ linked h → f ≡ linked h
take_queue-linked held h e = e
take_queue-linked (loaded g) h e = e
take_queue-linked (linked g) h e = e
take_queue-linked queued h e = cc
take_queue-linked taken h e = e
take_queue-linked given_back h e = e

-- The owner's list is not empty while its pointer is not NULL.
pub owner_list :
    (next : Ptr → Ptr) (p : Ptr) (ds : List Ptr)
    → NodeList next p ds
    → p ≢ null
    → (rest : List Ptr) × (ds ≡ p ∷ rest)
owner_list next p [] c n = absurd (n c)
owner_list next p (x ∷ xs) c n = (xs, rw c.0 refl)

pub no_owner_list : (next : Ptr → Ptr) (ds : List Ptr) → NodeList next null ds → ds ≡ []
no_owner_list next [] c = refl
no_owner_list next (x ∷ xs) c = absurd (c.1 refl)

pub taken-not_queued : (f : Phase) → is_taken f ≡ true → is_queued f ≡ false
taken-not_queued held e = refl
taken-not_queued (loaded h) e = refl
taken-not_queued (linked h) e = refl
taken-not_queued queued e = absurd (ground (arith, e))
taken-not_queued taken e = refl
taken-not_queued given_back e = refl
