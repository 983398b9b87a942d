-- ===== src/Remote/Alloc.antt =====
-- `arena_alloc`: when it takes back what other threads have freed, and when it gives up.
use sigma_malloc.Base.{
  ℕ, ◌+◌, ◌%◌, ◌<◌, ◌≡◌, ◌≢◌, Bool, Option, none, some, List, if◌then◌else◌, length,
}
use sigma_malloc.Base.Word.{word}
use sigma_malloc.Links.{Ptr, null}
use sigma_malloc.Remote.{Backend, Owner}
use sigma_malloc.Remote.Drain.{Drained}

module _ {S : Type 0} (x : Backend S) (debug : Bool) (size bound : ℕ) where
  -- The owner after it has got an object: the debug build counts it, and the object is forgotten as freed.
  abbrev pub with_object : Owner S → Ptr → S → Owner S
  with_object o p s = record o {
    allocation_count = if debug then (o.allocation_count + 1) % word else o.allocation_count;
    rest = x.forget_freed p s;
  }

  -- A request to the slabs, and what follows if they have nothing: the queue is taken back, less than `bound` objects,
  -- and the slabs are asked a second time.
  pub data Asked : Owner S → Option (Ptr × Owner S) → Type 0 where
    at_once :
        {o : Owner S} {p : Ptr} {s : S}
        → x.slab_alloc size o.rest ≡ (p, s)
        → p ≢ null
        → Asked o (some (p, with_object o p s))
    after_drain :
        {o : Owner S} {s1 s2 s3 : S} {p : Ptr} (ns : List Ptr)
        → x.slab_alloc size o.rest ≡ (null, s1)
        → Drained x (x.exchange s1).0 (x.exchange s1).1 ns (some s2)
        → length ns < bound
        → x.slab_alloc size s2 ≡ (p, s3)
        → p ≢ null
        → Asked o (some (p, with_object o p s3))
    in_vain :
        {o : Owner S} {s1 s2 s3 : S} (ns : List Ptr)
        → x.slab_alloc size o.rest ≡ (null, s1)
        → Drained x (x.exchange s1).0 (x.exchange s1).1 ns (some s2)
        → length ns < bound
        → x.slab_alloc size s2 ≡ (null, s3)
        → Asked o (some (null, record o { rest = s3 }))
    panics :
        {o : Owner S} {s1 : S} (ns : List Ptr)
        → x.slab_alloc size o.rest ≡ (null, s1)
        → Drained x (x.exchange s1).0 (x.exchange s1).1 ns none
        → length ns < bound
        → Asked o none

  -- The owner after its counter has gone up.
  abbrev pub counted : Owner S → Owner S
  counted o = record o { alloc_counter = (o.alloc_counter + 1) % word }

  -- A call with a valid request: every 64th takes the queue back first.
  pub data Called : Owner S → Option (Ptr × Owner S) → Type 0 where
    between :
        {o : Owner S} {r : Option (Ptr × Owner S)}
        → (counted o).alloc_counter % 64 ≢ 0
        → Asked (counted o) r
        → Called o r
    on_interval :
        {o : Owner S} {s : S} {r : Option (Ptr × Owner S)} (ns : List Ptr)
        → (counted o).alloc_counter % 64 ≡ 0
        → Drained x (x.exchange o.rest).0 (x.exchange o.rest).1 ns (some s)
        → length ns < bound
        → Asked (record (counted o) { rest = s }) r
        → Called o r
    interval_panics :
        {o : Owner S} (ns : List Ptr)
        → (counted o).alloc_counter % 64 ≡ 0
        → Drained x (x.exchange o.rest).0 (x.exchange o.rest).1 ns none
        → length ns < bound
        → Called o none
