-- ===== src/Remote/Tests.antt =====
-- Two objects that other threads free, and an owner that takes them.
use sigma_malloc.Base.{
  ◌≡◌, refl, Option, none, some, List, [], ◌∷◌, arith, ◌==◌, if◌then◌else◌, length,
}
use sigma_malloc.Links.{Ptr}
use sigma_malloc.Remote.{
  Shared, held, loads, links, swaps, retries, exchanges, Reaches, begins, then_does, Backend, Owner,
  drain_loop,
}
use sigma_malloc.Remote.Queue.{IsQueue, Reaches-IsQueue}
use sigma_malloc.Remote.Drain.{
  OwnerSteps, rests, then_steps, gives, ends, Progress, owner_ends, drain_loop-Drained, to_slab,
  to_pool, at_null,
}

-- The second push reads the head before the first one has exchanged it, and has to try again.
abbrev start : Shared
start = record { head = 0; next = λ p. 0; node = none; phase = λ p. held }

abbrev two_pushes : (s : Shared) × Reaches s × (s.node ≡ some 32)
two_pushes =
    let r1 = then_does (begins (λ p. 0)) (loads start 64 (λ e. omega arith) refl) in
    let r2 = then_does r1 (loads _ 32 (λ e. omega arith) refl) in
    let r3 = then_does r2 (links _ 64 0 refl) in
    let r4 = then_does r3 (links _ 32 0 refl) in
    let r5 = then_does r4 (swaps _ 64 0 refl refl) in
    let r6 = then_does r5 (retries _ 32 0 refl) in
    let r7 = then_does r6 (links _ 32 64 refl) in
    let r8 = then_does r7 (swaps _ 32 64 refl refl) in (_, then_does r8 (exchanges _ refl), refl)

Reaches-IsQueue_example : (qs ds : List Ptr) × IsQueue two_pushes.0 qs ds
Reaches-IsQueue_example = Reaches-IsQueue two_pushes.1

taken_two : (qs ds : List Ptr) × IsQueue two_pushes.0 qs ds
taken_two = Reaches-IsQueue two_pushes.1

alone_three : (s' : Shared) × OwnerSteps (λ p. 7) 3 two_pushes.0 s'
alone_three = (
  _,
  then_steps (gives _ 32 two_pushes.2 (λ e. omega arith))
      (then_steps (gives _ 64 refl (λ e. omega arith)) (then_steps (ends _ refl) (rests _))),
)

owner_ends_example : Progress (λ p. 7) two_pushes.0 (length taken_two.1) 3 alone_three.0
owner_ends_example =
    owner_ends (λ p. 7) 3 two_pushes.0 alone_three.0 taken_two.0 taken_two.1 32 taken_two.2
      two_pushes.2 alone_three.1

-- A backend whose state is the memory of `next` fields and the head of a free list: a free puts the object into
-- this list, and so writes to its `next` field. It never has memory to give.
abbrev FreeList : Type 0
FreeList = (Ptr → Ptr) × Ptr

abbrev put : Ptr → FreeList → Option FreeList
put p (next, head) = some ((λ q. if q == p then head else next q), p)

abbrev listing : Backend FreeList
listing = record {
  exchange = λ s. (32, s);
  next = λ s p. s.0 p;
  type_of = λ s p. if p == 32 then 1 else 2;
  free_local = put;
  free_buddy_local = put;
  slab_alloc = λ size s. (0, s);
  forget_freed = λ p s. s;
}

-- The object at 32 leads to the one at 64, and its free writes 96 there.
abbrev two_objects : FreeList
two_objects = ((λ p. if p == 32 then 64 else 0), 96)

drain_loop-Drained_example :
    drain_loop listing 3 32 two_objects
    ≡ some ((λ q. if q == 64 then 32 else if q == 32 then 96 else two_objects.0 q), 64)
drain_loop-Drained_example =
    drain_loop-Drained listing 3 32 two_objects (32 ∷ 64 ∷ []) _
      (to_slab (λ e. omega arith) refl refl
        (to_pool (λ e. omega arith) refl refl (at_null 0 _ refl)))
      (omega arith)

-- It finds no memory, takes the two objects of the queue back, and finds none again.
abbrev waiting : Owner FreeList
waiting = record { alloc_counter = 5; allocation_count = 0; rest = two_objects }
