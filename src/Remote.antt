-- ===== src/Remote.antt =====
-- src/arena.c: the queue of objects that other threads free, and `arena_alloc`, which empties it. The threads'
-- pushes are steps of a relation, one for each access to the shared memory; the owner's loop is a function. What
-- the loop calls is a parameter, with its own state.
pub mod Nodes
pub mod Queue
pub mod Drain
pub mod Alloc
mod Tests
use sigma_malloc.Base.{
  ℕ, zero, suc, ◌+◌, ◌-◌, ◌*◌, ◌/◌, ◌%◌, ◌^◌, ◌≤◌, ◌<◌, min, ◌≡◌, refl, sym, ap, ◌∙◌, ◌≢◌, ◌↔◌, ◌⊎◌,
  inl, inr, Bool, true, false, not, ◌&&◌, ◌||◌, Option, none, some, List, [], ◌∷◌, ◌++◌, arith, ltb,
  leb, ◌==◌, if◌then◌else◌, ltb→lt, lt→ltb, leb→le, le→ltb, ==_iff, ==_refl, ==_ne, Bool-cases,
  order_cases, eq_cases, length, length-append, All, has, erase, Nodup, has-erase, has-erase-false,
  Nodup-erase,
}
use sigma_malloc.Base.Word.{word, alignment_is_valid}
use Prim.Native.Nat.{bit_and}
use sigma_malloc.Links.{Ptr, null, update}
use sigma_malloc.Header.{type_slab, type_buddy}
use sigma_malloc.Slab.{slab_max_alignment}

-- Where an object stands: with a client, in the three stages of `arena_remote_free`, and then in the queue, in the
-- owner's list, or given back. `loaded` has read the head, `linked` has written it to the object's `next`.
pub data Phase : Type 0 where
  held : Phase
  loaded : Ptr → Phase
  linked : Ptr → Phase
  queued taken given_back : Phase

-- `remote_frees`, the `next` fields, the `node` of the owner's loop (none outside of it), and the objects.
pub record Shared : Type 0 where
  pub head : Ptr
  pub next : Ptr → Ptr
  pub node : Option Ptr
  pub phase : Ptr → Phase

abbrev pub set_phase : Ptr → Phase → Shared → Shared
set_phase p f s = record s { phase = update s.phase p f }

-- The exchange takes the whole queue.
abbrev pub take_queue : Phase → Phase
take_queue held = held
take_queue (loaded h) = loaded h
take_queue (linked h) = linked h
take_queue queued = taken
take_queue taken = taken
take_queue given_back = given_back

-- One access to the shared memory, by any thread. A thread frees only an object that it holds.
pub data Step : Shared → Shared → Type 0 where
  loads :
      (s : Shared) (p : Ptr) → p ≢ null → s.phase p ≡ held → Step s (set_phase p (loaded s.head) s)
  links :
      (s : Shared) (p h : Ptr)
      → s.phase p ≡ loaded h
      → Step s (set_phase p (linked h) (record s { next = update s.next p h }))
  swaps :
      (s : Shared) (p h : Ptr)
      → s.phase p ≡ linked h
      → s.head ≡ h
      → Step s (set_phase p queued (record s { head = p }))
  retries : (s : Shared) (p h : Ptr) → s.phase p ≡ linked h → Step s (set_phase p (loaded s.head) s)
  exchanges :
      (s : Shared)
      → s.node ≡ none
      → Step s (record s { head = null; node = some s.head; phase = λ p. take_queue (s.phase p) })
  frees :
      (s : Shared) (p v : Ptr)
      → s.node ≡ some p
      → p ≢ null
      → Step s
          (set_phase p given_back (record s { node = some (s.next p); next = update s.next p v }))
  leaves : (s : Shared) → s.node ≡ some null → Step s (record s { node = none })
  reuses : (s : Shared) (p : Ptr) → s.phase p ≡ given_back → Step s (set_phase p held s)
  writes :
      (s : Shared) (p v : Ptr) → s.phase p ≡ held → Step s (record s { next = update s.next p v })

-- The states that a run reaches from one in which the queue is empty and the clients hold all objects.
pub data Reaches : Shared → Type 0 where
  begins :
      (next : Ptr → Ptr)
      → Reaches (record { head = null; next = next; node = none; phase = λ p. held })
  then_does : {s s' : Shared} → Reaches s → Step s s' → Reaches s'

-- What the owner's functions call, on a state of their own: the exchange of `remote_frees` with NULL, on the memory
-- that other threads push to at any time, the `next` field and the type of an object, the two
-- local frees (none is a panic), `slab_alloc` and `sigma_debug_forget_freed`.
pub record Backend (S : Type 0) : Type 0 where
  pub exchange : S → Ptr × S
  pub next : S → Ptr → Ptr
  pub type_of : S → Ptr → ℕ
  pub free_local : Ptr → S → Option S
  pub free_buddy_local : Ptr → S → Option S
  pub slab_alloc : ℕ → S → Ptr × S
  pub forget_freed : Ptr → S → S

-- The fields of the arena that only the owner's functions change.
pub record Owner (S : Type 0) : Type 0 where
  pub alloc_counter : ℕ
  pub allocation_count : ℕ
  pub rest : S

-- MAX_SLAB_OBJ_SIZE and ARENA_REMOTE_DRAIN_INTERVAL
abbrev pub max_slab_obj_size : ℕ
max_slab_obj_size = 1024

abbrev pub drain_interval : ℕ
drain_interval = 64

-- The first test of `arena_alloc`
pub arena_rejects : (arena : Ptr) (size alignment : ℕ) → Bool
arena_rejects arena size alignment =
    arena == null
    || size == 0
    || ltb max_slab_obj_size size
    || not (alignment_is_valid alignment)
    || ltb slab_max_alignment alignment

module _ {S : Type 0} (x : Backend S) where
  -- The body of the loop of `arena_drain_remote_frees`
  pub free_node : Ptr → S → Option S
  free_node node s =
      if x.type_of s node == type_slab
      then x.free_local node s
      else if x.type_of s node == type_buddy
      then x.free_buddy_local node s
      else some s

  -- The loop, from `node` on
  pub drain_loop : (fuel : ℕ) → Ptr → S → Option S
  drain_loop zero node s = some s
  drain_loop (suc f) node s =
      if node == null
      then some s
      else elim (free_node node s) [ none ↦ none | some s1 ↦ drain_loop f (x.next s node) s1 ]

  -- arena_drain_remote_frees, for an arena that is not NULL
  pub drain : (fuel : ℕ) → Owner S → Option (Owner S)
  drain fuel o =
      let (node, s) = x.exchange o.rest in
      elim (drain_loop fuel node s) [ none ↦ none | some s1 ↦ some (record o { rest = s1 }) ]

  -- `slab_alloc`, and what follows it if it succeeds
  pub try_slab : (debug : Bool) (size : ℕ) → Owner S → Ptr × Owner S
  try_slab debug size o =
      let (p, s) = x.slab_alloc size o.rest in
      if p == null then (null, record o { rest = s }) else (
        p,
        record o {
          allocation_count = if debug then (o.allocation_count + 1) % word else o.allocation_count;
          rest = x.forget_freed p s;
        },
      )

  -- The part of `arena_alloc` behind the counter's drain
  pub alloc_or_drain : (fuel : ℕ) (debug : Bool) (size : ℕ) → Owner S → Option (Ptr × Owner S)
  alloc_or_drain fuel debug size o =
      let (p, o1) = try_slab debug size o in
      if p == null
      then elim (drain fuel o1) [ none ↦ none | some o2 ↦ some (try_slab debug size o2) ]
      else some (p, o1)

  -- arena_alloc; none is a panic of a free.
  pub arena_alloc :
      (fuel : ℕ) (debug : Bool) (arena size alignment : ℕ) → Owner S → Option (Ptr × Owner S)
  arena_alloc fuel debug arena size alignment o =
      if arena_rejects arena size alignment
      then some (null, o)
      else let o1 = record o { alloc_counter = (o.alloc_counter + 1) % word } in
        if bit_and o1.alloc_counter (drain_interval - 1) == 0
        then elim (drain fuel o1) [ none ↦ none | some o2 ↦ alloc_or_drain fuel debug size o2 ]
        else alloc_or_drain fuel debug size o1
