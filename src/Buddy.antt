-- ===== src/Buddy.antt =====
-- src/buddy.c: one buddy pool of 4 MiB. The state is the pool's own fields and the memory that its
-- blocks and headers lie in. The memory is typed: one map for each structure, from the address of a
-- value of the structure to its fields.
pub mod Tree
pub mod Layout
pub mod Lists
pub mod Split
pub mod Size
pub mod Alloc
pub mod Take
pub mod Request
pub mod Merge
pub mod Release
pub mod Free
pub mod Handles
pub mod Create
pub mod Client
mod Tests
use sigma_malloc.Base.{
  ℕ, zero, suc, ◌+◌, ◌-◌, ◌*◌, ◌/◌, ◌%◌, ◌^◌, ◌≤◌, ◌<◌, min, ◌≡◌, refl, sym, ap, ◌∙◌, ◌≢◌, ◌↔◌, ◌⊎◌,
  inl, inr, Bool, true, false, not, ◌&&◌, ◌||◌, Option, none, some, List, [], ◌∷◌, ◌++◌, arith, ltb,
  leb, ◌==◌, if◌then◌else◌, ltb→lt, lt→ltb, leb→le, le→ltb, ==_iff, ==_refl, ==_ne, Bool-cases,
  order_cases, eq_cases, length, length-append, All, has, erase, Nodup, has-erase, has-erase-false,
  Nodup-erase,
}
use Prim.Native.Nat.{bit_and}
use sigma_malloc.Base.Word.{word, size_max, add_size, sub_size, align_up, alignment_is_valid}
use sigma_malloc.Links.{Ptr, null, Links, update, set_next, list_push, list_remove}
use sigma_malloc.Header.{
  AllocHeader, BuddyHeader, no_site, type_buddy, buddy_magic, alloc_header_from_user,
  buddy_header_of, buddy_header_size,
}

abbrev pub page_size : ℕ
page_size = 4096

abbrev pub min_order : ℕ
min_order = 12

abbrev pub num_orders : ℕ
num_orders = 11

abbrev pub pool_size : ℕ
pool_size = 4 * 1024 * 1024

abbrev pub tree_node_count : ℕ
tree_node_count = 2 * (pool_size / page_size) - 1

-- BUDDY_TREE_SIZE: `tree_node_count` enums of 4 bytes, rounded up to a page
abbrev pub tree_size : ℕ
tree_size = 8192

abbrev pub backing_size : ℕ
backing_size = tree_size + pool_size

-- buddy_node_state_t
pub data NodeState : Type 0 where
  free split full : NodeState

-- struct buddy_pool. `tree` holds the array that the source keeps at `memory_start`.
pub record Pool : Type 0 where
  pub memory_start : Ptr
  pub memory_end : Ptr
  pub tree : ℕ → NodeState
  pub free_lists : ℕ → Ptr
  pub usable_start : Ptr

-- The memory of all blocks: list nodes (buddy_block_t), the two parts of the headers, and the user
-- pointers' headers. The first word of an allocated block, which points to its header, is the same
-- memory as the `next` field of a free one.
pub record Mem : Type 0 where
  pub links : Links
  pub headers : Ptr → AllocHeader
  pub buddy_headers : Ptr → BuddyHeader

pub record Buddy : Type 0 where
  pub pool : Pool
  pub mem : Mem

pub data Panic : Type 0 where
  invalid_magic type_mismatch : Panic

pub data Run (A : Type 0) : Type 0 where
  ok : A → Run A
  panic : Panic → Run A

-- `63 - __builtin_clzl(value)`: the position of the highest bit, for a positive word
floor_log2_from : ℕ → ℕ → ℕ
floor_log2_from zero v = 0
floor_log2_from (suc b) v =
    let rest = floor_log2_from b v in if leb (2 ^ suc b) v then suc b else rest

pub floor_log2 : ℕ → ℕ
floor_log2 v = floor_log2_from 63 v

pub ceil_log2 : ℕ → ℕ
ceil_log2 v = if leb v 1 then 0 else floor_log2 (v - 1) + 1

-- buddy_pool_create
pub pool_create : Ptr → Ptr → ℕ → Buddy → Option Buddy
pool_create self raw_mem size b =
    if self == null || raw_mem == null || ltb size backing_size
    then none
    else let usable = add_size raw_mem tree_size in
      some (record {
        pool = record {
          memory_start = raw_mem;
          memory_end = add_size raw_mem size;
          tree = update (λ i. if ltb i tree_node_count then full else b.pool.tree i) 0 free;
          free_lists =
              update (λ i. if ltb i num_orders then null else b.pool.free_lists i) (num_orders - 1)
                usable;
          usable_start = usable;
        };
        mem = record b.mem {
          links = record {
            next = update b.mem.links.next usable null;
            prev = update b.mem.links.prev usable null;
          };
        };
      })

-- Sizes are words, and `alignment` is a power of two, so only the first sum can overflow.
pub size_to_order : Bool → ℕ → ℕ → ℕ
size_to_order debug size alignment =
    if ltb (size_max - 8 - buddy_header_size debug - (alignment - 1)) size
    then num_orders
    else let total = size + 8 + buddy_header_size debug + alignment - 1 in
      if leb total page_size
      then 0
      else if ltb pool_size total
      then 6767
      else ceil_log2 total - min_order

abbrev pub block_size : ℕ → ℕ
block_size order = 2 ^ (order + min_order)

pub ptr_to_node_index : Pool → Ptr → ℕ → ℕ
ptr_to_node_index pool p order =
    2 ^ (num_orders - 1 - order) - 1 + sub_size p pool.usable_start / block_size order

pub node_index_to_ptr : Pool → ℕ → ℕ → Ptr
node_index_to_ptr pool node order =
    add_size pool.usable_start ((node - (2 ^ (num_orders - 1 - order) - 1)) * block_size order)

pub node_parent : ℕ → ℕ
node_parent node = (node - 1) / 2

pub node_left : ℕ → ℕ
node_left node = node * 2 + 1

pub node_right : ℕ → ℕ
node_right node = node * 2 + 2

pub node_buddy : ℕ → ℕ
node_buddy node = if bit_and node 1 == 0 then node - 1 else node + 1

abbrev pub is_free : NodeState → Bool
is_free free = true
is_free split = false
is_free full = false

abbrev pub is_split : NodeState → Bool
is_split free = false
is_split split = true
is_split full = false

-- node_mark_free, node_mark_split and node_mark_full
pub mark : ℕ → NodeState → Buddy → Buddy
mark node s b = record b { pool = record (b.pool) { tree = update b.pool.tree node s } }

-- `list_push` and `list_remove` at `&pool->free_lists[order]`
pub push_free : ℕ → Ptr → Buddy → Buddy
push_free order block b =
    let (head, links) = list_push (b.pool.free_lists order) block b.mem.links in
    record {
      pool = record (b.pool) { free_lists = update b.pool.free_lists order head };
      mem = record (b.mem) { links = links };
    }

pub remove_free : ℕ → Ptr → Buddy → Buddy
remove_free order block b =
    let (head, links) = list_remove (b.pool.free_lists order) block b.mem.links in
    record {
      pool = record (b.pool) { free_lists = update b.pool.free_lists order head };
      mem = record (b.mem) { links = links };
    }

-- `while (current_order < BUDDY_NUM_ORDERS && pool->free_lists[current_order] == NULL)`
pub find_order : ℕ → Pool → ℕ → ℕ
find_order zero pool o = o
find_order (suc f) pool o =
    let rest = find_order f pool (o + 1) in
    if ltb o num_orders && (pool.free_lists o == null) then rest else o

-- One round of the splitting loop, from order `suc o` down to order `o`.
pub split_block : Ptr → ℕ → Buddy → Buddy
split_block block o b =
    let node = ptr_to_node_index b.pool block (suc o) in
    let b' = mark (node_right node) free (mark (node_left node) free (mark node split b)) in
    push_free o (add_size block (block_size o)) b'

-- `while (current_order > target_order)`, by the rounds that are left
pub split_loop : (rounds target : ℕ) → Ptr → Buddy → Buddy
split_loop zero target block b = b
split_loop (suc r) target block b = split_loop r target block (split_block block (target + r) b)

-- What `buddy_alloc` writes into the block that it hands out.
pub write_header : (debug : Bool) (self block : Ptr) (order size alignment : ℕ) → Mem → Ptr × Mem
write_header debug self block order size alignment m =
    let user = align_up (add_size block (8 + buddy_header_size debug)) alignment in
    let hdr = sub_size user (buddy_header_size debug) in
    (
      user,
      record {
        links = set_next block hdr m.links;
        headers = update m.headers (alloc_header_from_user user) (record {
          magic = buddy_magic;
          type = type_buddy;
          requested_size = size;
          alignment = alignment;
        });
        buddy_headers = update m.buddy_headers hdr (record {
          site = (m.buddy_headers hdr).site;
          arena = null;
          pool = self;
          block = block;
          is_slab_region = false;
          order = order % 256;
        });
      },
    )

-- The end of `buddy_alloc`, once `block` has the target order.
pub finish_block :
    (debug : Bool) (self : Ptr) (target size alignment : ℕ) → Ptr → Buddy → Ptr × Buddy
finish_block debug self target size alignment block b =
    let b' = mark (ptr_to_node_index b.pool block target) full b in
    let (user, m) = write_header debug self block target size alignment b'.mem in
    (user, record b' { mem = m })

-- The part of `buddy_alloc` from the point where a list with a block has been found.
pub take_block :
    (debug : Bool) (self : Ptr) (target current size alignment : ℕ) → Buddy → Ptr × Buddy
take_block debug self target current size alignment b =
    let block = b.pool.free_lists current in
    finish_block debug self target size alignment block
      (split_loop (current - target) target block (remove_free current block b))

-- buddy_alloc, for a pool that stands at the address `self`
pub buddy_alloc : (debug : Bool) (self : Ptr) (size alignment : ℕ) → Buddy → Ptr × Buddy
buddy_alloc debug self size alignment b =
    if self == null || size == 0 || not (alignment_is_valid alignment)
    then (null, b)
    else let target = size_to_order debug size alignment in
      if leb num_orders target
      then (null, b)
      else let current = find_order num_orders b.pool target in
        if current == num_orders
        then (null, b)
        else take_block debug self target current size alignment b

-- What a round of the merging loop does to the pool.
pub merge_round : ℕ → ℕ → Buddy → Buddy
merge_round order node b =
    let buddy = node_buddy node in
    mark (node_parent node) free (
      mark buddy free (mark node free (remove_free order (node_index_to_ptr b.pool buddy order) b)))

-- `while (order < BUDDY_NUM_ORDERS - 1)`: the order and block at the end, and the pool.
pub merge_loop : (fuel order node : ℕ) → Ptr → Buddy → ℕ × Ptr × Buddy
merge_loop zero order node block b = (order, block, b)
merge_loop (suc f) order node block b =
    let buddy = node_buddy node in
    let buddy_block = node_index_to_ptr b.pool buddy order in
    let rest =
      merge_loop f (order + 1) (node_parent node)
        (if ltb buddy_block block then buddy_block else block) (merge_round order node b) in
    if not (ltb order (num_orders - 1))
    then (order, block, b)
    else if not (is_free (b.pool.tree buddy))
    then (order, block, b)
    else if is_split (b.pool.tree buddy)
    then (order, block, b)
    else rest

-- buddy_free behind its checks: `hdr` has been read.
pub release_block : (debug : Bool) (hdr : Ptr) → Buddy → Buddy
release_block debug hdr b =
    let h = b.mem.buddy_headers hdr in
    let m = record (b.mem) {
      buddy_headers =
          update b.mem.buddy_headers hdr (record h { site = if debug then no_site else h.site });
    } in
    let node = ptr_to_node_index b.pool h.block h.order in
    let (order, block, b') =
      merge_loop num_orders h.order node h.block (mark node free (record b { mem = m })) in
    push_free order block b'

-- buddy_free
pub buddy_free : (debug : Bool) → Ptr → Buddy → Run Buddy
buddy_free debug p b =
    if p == null
    then ok b
    else let ah = b.mem.headers (alloc_header_from_user p) in
      if not (ah.magic == buddy_magic)
      then panic invalid_magic
      else if not (ah.type == type_buddy)
      then panic type_mismatch
      else ok (release_block debug (buddy_header_of debug p) b)
