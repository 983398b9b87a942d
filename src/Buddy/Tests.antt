-- ===== src/Buddy/Tests.antt =====
-- A pool of the release build at work: it is made from memory at 4096, hands out 100 and then 5000 bytes,
-- and takes the second block back.
use sigma_malloc.Base.{
  ℕ, ◌-◌, ◌≤◌, ◌<◌, ◌≡◌, refl, ap, ◌≢◌, ◌⊎◌, true, false, Option, none, some, [], ◌∷◌, arith,
  ==_refl, has, erase,
}
use sigma_malloc.Base.Word.{IsAlignment, align_up, alignment_is_valid}
use sigma_malloc.Header.{no_site}
use sigma_malloc.Links.{Ptr, null, list_push, list_remove}
use sigma_malloc.Buddy.{
  Buddy, free, ok, pool_size, backing_size, num_orders, block_size, pool_create, size_to_order,
  buddy_alloc, find_order, take_block, finish_block, write_header, ceil_log2, floor_log2,
  floor_log2_from, split_loop, split_block, mark, push_free, remove_free, ptr_to_node_index,
  node_left, node_right, node_index_to_ptr, buddy_free,
}
use sigma_malloc.Buddy.Layout.{Disjoint}
use sigma_malloc.Buddy.Size.{total_size, size_to_order_lem}
use sigma_malloc.Buddy.Take.{IsHandle, Allocated}
use sigma_malloc.Buddy.Request.{
  IsRequest, Outcome, too_big, exhausted, allocated, buddy_alloc-Outcome,
}
use sigma_malloc.Buddy.Release.{Released}
use sigma_malloc.Buddy.Free.{buddy_free-Released, buddy_free_twice}
use sigma_malloc.Buddy.Client.{Reach, start, allocates, Holds, Reach-Holds, Reach_safe, Reach_apart}
use sigma_malloc.Buddy.Create.{Created, fresh_lists, pool_create-Created}

-- Memory that nothing has been written to.
abbrev blank : Buddy
blank = record {
  pool = record {
    memory_start = 0;
    memory_end = 0;
    tree = λ i. free;
    free_lists = λ i. 0;
    usable_start = 0;
  };
  mem = record {
    links = record { next = λ p. 0; prev = λ p. 0 };
    headers = λ p. record { magic = 0; type = 0; requested_size = 0; alignment = 0 };
    buddy_headers = λ p. record {
      site = no_site;
      arena = 0;
      pool = 0;
      block = 0;
      is_slab_region = false;
      order = 0;
    };
  };
}

pool_create-Created_example :
    (b' : Buddy) × (pool_create 1000 4096 backing_size blank ≡ some b')
    × Created 4096 backing_size b'
pool_create-Created_example =
    pool_create-Created 1000 4096 backing_size blank (omega arith) (omega arith) (omega arith)
      (omega arith)

abbrev created_pool : Option Buddy → Buddy
created_pool none = blank
created_pool (some b) = b

abbrev fresh : Buddy
fresh = created_pool (pool_create 1000 4096 backing_size blank)

fresh-Created : Created 4096 backing_size fresh
fresh-Created =
    let (b', e, c) =
      pool_create-Created 1000 4096 backing_size blank (omega arith) (omega arith) (omega arith)
        (omega arith) in
    rw e c

align_16 : IsAlignment 16
align_16 = (4, omega arith, refl)

abbrev first : Ptr × Buddy
first = buddy_alloc false 1000 100 16 fresh

IsRequest-100 : IsRequest 1000 100 16
IsRequest-100 = record {
  has_pool = omega arith;
  positive = omega arith;
  in_word = omega arith;
  power_of_two = align_16;
}

buddy_alloc-Outcome_example : Outcome false fresh 100 16 first
buddy_alloc-Outcome_example =
    buddy_alloc-Outcome false 1000 100 16 fresh fresh_lists fresh-Created.valid IsRequest-100

first_user : first.0 ≢ null
unfolding buddy_alloc alignment_is_valid size_to_order find_order pool_create take_block
    finish_block write_header align_up
first_user = λ e. omega arith

-- A call that does not return NULL has handed out a block.
gave :
    {b : Buddy} {size alignment : ℕ} {r : Ptr × Buddy}
    → Outcome false b size alignment r
    → r.0 ≢ null
    → Allocated false b r.1 r.0 (size_to_order false size alignment) size alignment
gave (too_big l e) n = absurd (n (ap (λ (x : Ptr × Buddy). x.0) e))
gave (exhausted f e) n = absurd (n (ap (λ (x : Ptr × Buddy). x.0) e))
gave (allocated m a) n = a

first-Allocated : Allocated false fresh first.1 first.0 (size_to_order false 100 16) 100 16
first-Allocated =
    gave (buddy_alloc-Outcome false 1000 100 16 fresh fresh_lists fresh-Created.valid IsRequest-100)
      first_user

abbrev second : Ptr × Buddy
second = buddy_alloc false 1000 5000 16 first.1

IsRequest-5000 : IsRequest 1000 5000 16
IsRequest-5000 = record {
  has_pool = omega arith;
  positive = omega arith;
  in_word = omega arith;
  power_of_two = align_16;
}

second_user : second.0 ≢ null
unfolding buddy_alloc alignment_is_valid size_to_order find_order pool_create take_block
    finish_block write_header align_up ceil_log2 floor_log2 floor_log2_from split_loop split_block
    mark push_free remove_free ptr_to_node_index node_left node_right node_index_to_ptr list_push
    list_remove
second_user = λ e. omega arith

second-Allocated : Allocated false first.1 second.1 second.0 (size_to_order false 5000 16) 5000 16
second-Allocated =
    gave
      (buddy_alloc-Outcome false 1000 5000 16 first.1 first-Allocated.lists first-Allocated.valid
        IsRequest-5000)
      second_user

buddy_free-Released_example :
    (b' : Buddy) × (buddy_free false second.0 second.1 ≡ ok b')
    × Released second.1 b' (size_to_order false 5000 16) second-Allocated.place
buddy_free-Released_example =
    buddy_free-Released false second.1 second-Allocated.lists second-Allocated.valid second.0
      (size_to_order false 5000 16) second-Allocated.place second-Allocated.handle

after_free :
    (b' : Buddy) × (buddy_free false second.0 second.1 ≡ ok b')
    × Released second.1 b' (size_to_order false 5000 16) second-Allocated.place
after_free =
    buddy_free-Released false second.1 second-Allocated.lists second-Allocated.valid second.0
      (size_to_order false 5000 16) second-Allocated.place second-Allocated.handle

buddy_free_twice_example : (b'' : Buddy) × (buddy_free false second.0 after_free.0 ≡ ok b'')
buddy_free_twice_example =
    buddy_free_twice false second.1 second-Allocated.lists second-Allocated.valid second.0
      (size_to_order false 5000 16) second-Allocated.place second-Allocated.handle after_free.0
      after_free.1

size_to_order_lem_example :
    (size_to_order false 5000 16 < num_orders
      → (total_size false 5000 16 ≤ block_size (size_to_order false 5000 16))
        × ((size_to_order false 5000 16 ≡ 0)
            ⊎ (block_size (size_to_order false 5000 16 - 1) < total_size false 5000 16)))
    × (total_size false 5000 16 ≤ pool_size → size_to_order false 5000 16 < num_orders)
size_to_order_lem_example = size_to_order_lem false 5000 16 (omega arith) align_16

-- A client that asks for 100 and then for 5000 bytes.
asks_twice : Reach false 1000 fresh second.1 (second.0 ∷ first.0 ∷ [])
asks_twice =
    allocates 5000 16 second.0 (allocates 100 16 first.0 start IsRequest-100 refl first_user)
      IsRequest-5000 refl second_user

Reach-Holds_example : Holds false second.1 (second.0 ∷ first.0 ∷ [])
Reach-Holds_example =
    Reach-Holds false 1000 4096 backing_size fresh second.1 (second.0 ∷ first.0 ∷ []) fresh-Created
      asks_twice

users_differ : first.0 ≢ second.0
unfolding buddy_alloc alignment_is_valid size_to_order find_order pool_create take_block
    finish_block write_header align_up ceil_log2 floor_log2 floor_log2_from split_loop split_block
    mark push_free remove_free ptr_to_node_index node_left node_right node_index_to_ptr list_push
    list_remove
users_differ = λ e. omega arith

first_held : has first.0 (second.0 ∷ first.0 ∷ []) ≡ true
first_held = rw ==_refl (ground arith)

second_held : has second.0 (second.0 ∷ first.0 ∷ []) ≡ true
second_held = rw ==_refl (ground arith)

-- A client that asks once and gives it back.
Reach_safe_example :
    (b' : Buddy) × (buddy_free false first.0 first.1 ≡ ok b')
    × Holds false b' (erase first.0 (first.0 ∷ []))
Reach_safe_example =
    Reach_safe false 1000 4096 backing_size fresh first.1 (first.0 ∷ []) first.0 fresh-Created
      (allocates 100 16 first.0 start IsRequest-100 refl first_user) (rw ==_refl refl)

Reach_apart_example :
    (o k e j : ℕ) × IsHandle false second.1 first.0 o k
    × IsHandle false second.1 second.0 e j
    × Disjoint o k e j
Reach_apart_example =
    Reach_apart false 1000 4096 backing_size fresh second.1 (second.0 ∷ first.0 ∷ []) first.0
      second.0 fresh-Created asks_twice first_held second_held users_differ
