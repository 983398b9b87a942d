-- ===== src/Large.antt =====
-- src/large.c and include/large.h: allocations that have a mapping of their own. The memory is one map for
-- each structure. What the file calls is a parameter: the memory source, and the arena that holds the two
-- records of bookkeeping.
pub mod Sizes
pub mod Chains
pub mod Alloc
pub mod Free
mod Tests
use sigma_malloc.Base.{
  ℕ, zero, suc, ◌+◌, ◌-◌, ◌*◌, ◌/◌, ◌%◌, ◌^◌, ◌≤◌, ◌<◌, min, ◌≡◌, refl, sym, ap, ◌∙◌, ◌≢◌, ◌↔◌, ◌⊎◌,
  inl, inr, Bool, true, false, not, ◌&&◌, ◌||◌, Option, none, some, List, [], ◌∷◌, ◌++◌, arith, ltb,
  leb, ◌==◌, if◌then◌else◌, ltb→lt, lt→ltb, leb→le, le→ltb, ==_iff, ==_refl, ==_ne, Bool-cases,
  order_cases, eq_cases, length, length-append, All, has, erase, Nodup, has-erase, has-erase-false,
  Nodup-erase,
}
use sigma_malloc.Base.Word.{size_max, add_size, sub_size, align_up, alignment_is_valid}
use sigma_malloc.Links.{Ptr, null, Links, update, set_next, set_prev, bypass_next, bypass_prev}
use sigma_malloc.Header.{
  AllocHeader, Site, no_site, large_magic, type_large, alloc_header_from_user,
}

-- PAGE_SIZE, sizeof(large_header_t), sizeof(large_node_t) and sizeof(large_metadata_t)
abbrev pub large_page_size : ℕ
large_page_size = 4096

abbrev pub large_header_size : ℕ
large_header_size = 32

abbrev pub large_node_size : ℕ
large_node_size = 48

abbrev pub large_metadata_size : ℕ
large_metadata_size = 32

-- large_node_t, less its links
pub record LargeNode : Type 0 where
  pub backing : Ptr
  pub backing_size : ℕ
  pub allocator : Ptr
  pub user : Ptr

-- large_metadata_t
pub record LargeMetadata : Type 0 where
  pub node : Ptr
  pub site : Site

-- `large_allocs_head` of the allocator, and the memory. `meta_of` is the `meta` field of the headers.
pub record Larges : Type 0 where
  pub head : Ptr
  pub links : Links
  pub nodes : Ptr → LargeNode
  pub metas : Ptr → LargeMetadata
  pub meta_of : Ptr → Ptr
  pub headers : Ptr → AllocHeader

-- What large.c calls: the source's two functions, `arena_get`, `arena_alloc` and `sigma_free`.
pub record Supply (E : Type 0) : Type 0 where
  pub source_alloc : (size alignment : ℕ) → E → Ptr × E
  pub source_free : Ptr → ℕ → E → E
  pub get_arena : E → Ptr × E
  pub arena_alloc : Ptr → (size alignment : ℕ) → E → Ptr × E
  pub free_object : Ptr → E → E

-- `total_size` and `aligned_size` of `large_alloc`
abbrev pub total_size : (size alignment : ℕ) → ℕ
total_size size alignment = size + large_header_size + alignment - 1

abbrev pub aligned_size : (size alignment : ℕ) → ℕ
aligned_size size alignment = align_up (total_size size alignment) large_page_size

-- The tests at the start of `large_alloc`; `source` says whether the allocator has one.
pub rejects : (self : Ptr) (source : Bool) (size alignment : ℕ) → Bool
rejects self source size alignment =
    self == null
    || not source
    || size == 0
    || not (alignment_is_valid alignment)
    || ltb (size_max - large_header_size - (alignment - 1)) size

-- The debug build's list of all large allocations: a node is put in front, and taken out.
pub large_push : Ptr → Ptr → Links → Ptr × Links
large_push head x l =
    let l' = set_next x head (set_prev x null l) in
    (x, if head == null then l' else set_prev head x l')

pub large_unlink : Ptr → Ptr → Links → Ptr × Links
large_unlink head x l =
    (if l.prev x == null then l.next x else head, bypass_prev x (bypass_next x l))

pub list_node : (debug : Bool) → Ptr → Larges → Larges
list_node debug x s =
    if debug
    then (let (h, l) = large_push s.head x s.links in record s { head = h; links = l })
    else s

pub unlist_node : (debug : Bool) → Ptr → Larges → Larges
unlist_node debug x s =
    if debug
    then (let (h, l) = large_unlink s.head x s.links in record s { head = h; links = l })
    else s

-- What `large_alloc` writes once it has the backing, the node and the metadata: the user's address.
pub fill_in : (debug : Bool) (self backing node meta size alignment : ℕ) → Larges → Ptr × Larges
fill_in debug self backing node meta size alignment s =
    let user = align_up (add_size backing large_header_size) alignment in
    (
      user,
      list_node debug node (record s {
        nodes = update s.nodes node (record {
          backing = backing;
          backing_size = aligned_size size alignment;
          allocator = self;
          user = user;
        });
        metas = update s.metas meta (record { node = node; site = no_site });
        meta_of = update s.meta_of (sub_size user large_header_size) meta;
        headers = update s.headers (alloc_header_from_user user) (record {
          magic = large_magic;
          type = type_large;
          requested_size = size;
          alignment = alignment;
        });
      }),
    )

-- A panic is none.
pub data Freeing (E : Type 0) : Type 0 where
  gone : Larges → E → Freeing E
  wrong_owner : Freeing E

module _ {E : Type 0} (x : Supply E) where
  -- `if (node) sigma_free(allocator, node);`
  abbrev pub free_if : Ptr → E → E
  free_if p e = if p == null then e else x.free_object p e

  -- The part of `large_alloc` behind `arena_get`.
  pub with_arena :
      (debug : Bool) (self backing arena size alignment : ℕ) → Larges → E → Ptr × Larges × E
  with_arena debug self backing arena size alignment s e =
      let (node, e1) = x.arena_alloc arena large_node_size 8 e in
      let (meta, e2) = x.arena_alloc arena large_metadata_size 8 e1 in
      if node == null || meta == null
      then (
        null,
        s,
        x.source_free backing (aligned_size size alignment) (free_if meta (free_if node e2)),
      )
      else let (user, s1) = fill_in debug self backing node meta size alignment s in (user, s1, e2)

  -- large_alloc
  pub large_alloc :
      (debug : Bool) (self : Ptr) (source : Bool) (size alignment : ℕ)
      → Larges
      → E
      → Ptr × Larges × E
  large_alloc debug self source size alignment s e =
      if rejects self source size alignment
      then (null, s, e)
      else let (backing, e1) = x.source_alloc (aligned_size size alignment) large_page_size e in
        if backing == null
        then (null, s, e1)
        else let (arena, e2) = x.get_arena e1 in
          if arena == null
          then (null, s, x.source_free backing (aligned_size size alignment) e2)
          else with_arena debug self backing arena size alignment s e2

  -- large_free
  pub large_free : (debug : Bool) (self p : Ptr) → Larges → E → Freeing E
  large_free debug self p s e =
      if p == null
      then gone s e
      else let meta = s.meta_of (sub_size p large_header_size) in
        let node = (s.metas meta).node in
        let n = s.nodes node in
        if not (n.allocator == self)
        then wrong_owner
        else gone (unlist_node debug node s)
            (x.source_free n.backing n.backing_size (x.free_object node (x.free_object meta e)))
