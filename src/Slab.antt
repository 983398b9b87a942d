-- ===== src/Slab.antt =====
-- src/slab.c and include/slab.h, for the release build: small objects in slabs of 16 KiB. The memory is one
-- map for each structure; the arena that supplies the regions is a parameter, with its own state.
pub mod Create
pub mod Objects
pub mod Alloc
mod Tests
use sigma_malloc.Base.{
  ℕ, zero, suc, ◌+◌, ◌-◌, ◌*◌, ◌/◌, ◌%◌, ◌^◌, ◌≤◌, ◌<◌, min, ◌≡◌, refl, sym, ap, ◌∙◌, ◌≢◌, ◌↔◌, ◌⊎◌,
  inl, inr, Bool, true, false, not, ◌&&◌, ◌||◌, Option, none, some, List, [], ◌∷◌, ◌++◌, arith, ltb,
  leb, ◌==◌, if◌then◌else◌, ltb→lt, lt→ltb, leb→le, le→ltb, ==_iff, ==_refl, ==_ne, Bool-cases,
  order_cases, eq_cases, length, length-append, All, has, erase, Nodup, has-erase, has-erase-false,
  Nodup-erase,
}
use sigma_malloc.Base.Word.{align_up, sub_size}
use sigma_malloc.Links.{Ptr, null, Links, update, slab_push, slab_remove}
use sigma_malloc.Header.{AllocHeader, slab_magic, type_slab, alloc_header_from_user}

-- SLAB_SIZE, SLAB_MAX_ALIGNMENT and NUM_CACHES
abbrev pub slab_size : ℕ
slab_size = 4096 * 4

abbrev pub slab_max_alignment : ℕ
slab_max_alignment = 16

abbrev pub num_caches : ℕ
num_caches = 8

-- sizeof(slab_t), and sizeof(obj_header_t) without the debug fields
abbrev pub slab_header_size : ℕ
slab_header_size = 64

abbrev pub obj_header_size : ℕ
obj_header_size = 32

-- g_size_classes
pub size_class : ℕ → ℕ
size_class i =
    if i == 0
    then 16
    else if i == 1
    then 32
    else if i == 2
    then 64
    else if i == 3
    then 128
    else if i == 4
    then 256
    else if i == 5
    then 512
    else if i == 6
    then 768
    else 1024

-- cache_t
pub record Cache : Type 0 where
  pub obj_size : ℕ
  pub partial : Ptr
  pub full : Ptr

-- slab_t, less its links. `owner` is the index of a cache.
pub record Slab : Type 0 where
  pub arena : Ptr
  pub extent : Ptr
  pub owner : ℕ
  pub used : ℕ
  pub capacity : ℕ
  pub free_list : Ptr

-- The caches of an arena, and the memory of slabs and objects. `nodes` is the `next` field of the free
-- objects (free_node_t), and `slab_of` the `slab` field of the object headers, by the user pointer.
pub record Slabs : Type 0 where
  pub caches : ℕ → Cache
  pub slabs : Ptr → Slab
  pub links : Links
  pub nodes : Ptr → Ptr
  pub slab_of : Ptr → Ptr
  pub headers : Ptr → AllocHeader

-- The loop of `get_cache`, from index `i` on.
pub cache_from : (left i size : ℕ) → (ℕ → Cache) → Option ℕ
cache_from zero i size c = none
cache_from (suc left) i size c =
    let rest = cache_from left (i + 1) size c in if leb size (c i).obj_size then some i else rest

-- get_cache
pub get_cache : ℕ → Slabs → Option ℕ
get_cache size s = cache_from num_caches 0 size s.caches

-- `user_offset` and `slot_size` of `slab_create`
abbrev pub user_offset : ℕ
user_offset = 32

abbrev pub slot_size : ℕ → ℕ
slot_size obj_size = user_offset + align_up obj_size slab_max_alignment

abbrev pub fresh_header : AllocHeader
fresh_header = record { magic = slab_magic; type = type_slab; requested_size = 0; alignment = 0 }

-- One round of the loop of `slab_create`, for the object at `node`.
pub carve : (slab node : Ptr) → Ptr × Slabs → Ptr × Slabs
carve slab node (head, s) = (
  node,
  record s {
    nodes = update s.nodes node head;
    slab_of = update s.slab_of node slab;
    headers = update s.headers (alloc_header_from_user node) fresh_header;
  },
)

-- The loop of `slab_create`; `start` is `obj_start`.
pub carve_loop : (rounds i : ℕ) → (slab start slot : ℕ) → Ptr × Slabs → Ptr × Slabs
carve_loop zero i slab start slot s = s
carve_loop (suc r) i slab start slot s =
    carve_loop r (i + 1) slab start slot (carve slab (start + i * slot + user_offset) s)

-- `slab_create` behind its checks: the slab stands at the start of its region.
pub make_slab : (arena extent region cache : ℕ) → Slabs → Slabs
make_slab arena extent region cache s =
    let slot = slot_size (s.caches cache).obj_size in
    let start = region + slab_header_size in
    let capacity = (slab_size - slab_header_size) / slot in
    let (head, s1) = carve_loop capacity 0 region start slot (null, s) in
    record s1 {
      links = record {
        next = update s1.links.next region null;
        prev = update s1.links.prev region null;
      };
      slabs = update s1.slabs region (record {
        arena = arena;
        extent = extent;
        owner = cache;
        used = 0;
        capacity = capacity;
        free_list = head;
      });
    }

-- `slab_push` and `slab_remove` at the list heads of a cache
pub push_partial : (cache slab : ℕ) → Slabs → Slabs
push_partial cache slab s =
    let c = s.caches cache in
    let (head, links) = slab_push c.partial slab s.links in
    record s { caches = update s.caches cache (record c { partial = head }); links = links }

pub remove_partial : (cache slab : ℕ) → Slabs → Slabs
remove_partial cache slab s =
    let c = s.caches cache in
    let (head, links) = slab_remove c.partial slab s.links in
    record s { caches = update s.caches cache (record c { partial = head }); links = links }

pub push_full : (cache slab : ℕ) → Slabs → Slabs
push_full cache slab s =
    let c = s.caches cache in
    let (head, links) = slab_push c.full slab s.links in
    record s { caches = update s.caches cache (record c { full = head }); links = links }

pub remove_full : (cache slab : ℕ) → Slabs → Slabs
remove_full cache slab s =
    let c = s.caches cache in
    let (head, links) = slab_remove c.full slab s.links in
    record s { caches = update s.caches cache (record c { full = head }); links = links }

-- The part of `slab_alloc` that takes the first free object of a slab: its user pointer.
pub take_object : (slab size : ℕ) → Slabs → Ptr × Slabs
take_object slab size s =
    let b = s.slabs slab in
    let node = b.free_list in
    let h = s.headers (alloc_header_from_user node) in
    (
      node,
      record s {
        slabs = update s.slabs slab (record b { free_list = s.nodes node; used = b.used + 1 });
        slab_of = update s.slab_of node slab;
        headers =
            update s.headers (alloc_header_from_user node)
              (record h { magic = slab_magic; type = type_slab; requested_size = size });
      },
    )

-- The end of `slab_alloc`, for a slab with a free object.
pub alloc_from : (cache slab size : ℕ) → Slabs → Ptr × Slabs
alloc_from cache slab size s =
    let (node, s1) = take_object slab size s in
    let b = s1.slabs slab in
    (node, if b.used == b.capacity then push_full cache slab (remove_partial cache slab s1) else s1)

-- The part of `slab_free_local` that gives the object at `p` back to its slab.
pub give_object : (slab p : ℕ) → Slabs → Slabs
give_object slab p s =
    let b = s.slabs slab in
    record s {
      nodes = update s.nodes p b.free_list;
      slabs = update s.slabs slab (record b { free_list = p; used = sub_size b.used 1 });
    }

-- `alloc_header->magic = 0`
pub clear_magic : Ptr → Slabs → Slabs
clear_magic p s =
    let a = alloc_header_from_user p in
    record s { headers = update s.headers a (record (s.headers a) { magic = 0 }) }

-- What `slab_free_local` comes to: a panic, or the slab whose region goes back to the arena (NULL for
-- none), and the state.
pub data Freed : Type 0 where
  freed : (region extent : Ptr) → Slabs → Freed
  invalid_free : Freed

-- slab_free_local
pub slab_free_local : (arena p : Ptr) → Slabs → Freed
slab_free_local arena p s =
    if arena == null || p == null
    then freed null null s
    else let h = s.headers (alloc_header_from_user p) in
      let slab = s.slab_of p in
      let b = s.slabs slab in
      if not (h.magic == slab_magic)
        || not (h.type == type_slab)
        || slab == null
        || not (b.arena == arena)
      then invalid_free
      else let s1 = give_object slab p (clear_magic p s) in
        let s2 =
          if b.used == b.capacity
          then push_partial b.owner slab (remove_full b.owner slab s1)
          else s1 in
        if (s2.slabs slab).used == 0
        then freed slab b.extent (remove_partial b.owner slab s2)
        else freed null null s2

-- The arena: `arena_alloc_slab_region` (region and extent, or none for NULL) and `arena_free_slab_region`.
pub record Regions (R : Type 0) : Type 0 where
  pub alloc_region : R → Option (Ptr × Ptr) × R
  pub free_region : (extent region : Ptr) → R → R

-- slab_create
pub slab_create : {R : Type 0} → Regions R → (arena cache : ℕ) → Slabs → R → Ptr × Slabs × R
slab_create regions arena cache s r =
    let (got, r1) = regions.alloc_region r in
    elim got [
      | none ↦ (null, s, r1)
      | some (region, extent) ↦
          if (slab_size - slab_header_size) / slot_size (s.caches cache).obj_size == 0
          then (null, s, regions.free_region extent region r1)
          else (region, make_slab arena extent region cache s, r1)
    ]

-- slab_alloc
pub slab_alloc : {R : Type 0} → Regions R → (arena size : ℕ) → Slabs → R → Ptr × Slabs × R
slab_alloc regions arena size s r = elim (get_cache size s) [
  | none ↦ (null, s, r)
  | some cache ↦
      let partial = (s.caches cache).partial in
      let (slab, s1, r1) = slab_create regions arena cache s r in
      if not (partial == null)
      then (let (p, s2) = alloc_from cache partial size s in (p, s2, r))
      else if slab == null
      then (null, s1, r1)
      else let (p, s2) = alloc_from cache slab size (push_partial cache slab s1) in (p, s2, r1)
]
