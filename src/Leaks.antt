-- ===== src/Leaks.antt =====
-- src/debug.c of the debug build: which allocations are reported as leaks. The text that the report prints,
-- and the reading of source lines for it, are not modelled.
pub mod Store
pub mod Visits
pub mod Nodes
pub mod Slabs
pub mod InUse
pub mod Whole
mod Tests
use sigma_malloc.Base.{
  ℕ, zero, suc, ◌+◌, ◌-◌, ◌*◌, ◌/◌, ◌%◌, ◌^◌, ◌≤◌, ◌<◌, min, ◌≡◌, refl, sym, ap, ◌∙◌, ◌≢◌, ◌↔◌, ◌⊎◌,
  inl, inr, Bool, true, false, not, ◌&&◌, ◌||◌, Option, none, some, List, [], ◌∷◌, ◌++◌, arith, ltb,
  leb, ◌==◌, if◌then◌else◌, ltb→lt, lt→ltb, leb→le, le→ltb, ==_iff, ==_refl, ==_ne, Bool-cases,
  order_cases, eq_cases, length, length-append, All, has, erase, Nodup, has-erase, has-erase-false,
  Nodup-erase,
}
use sigma_malloc.Base.Word.{add_size, sub_size, align_up}
use sigma_malloc.Links.{Ptr, null, update}
use sigma_malloc.Header.{Site, no_site, buddy_magic, buddy_header_offset, alloc_header_from_user}
use sigma_malloc.Buddy.{
  Buddy, NodeState, free, split, full, num_orders, node_left, node_right, node_index_to_ptr,
}
use sigma_malloc.Slab.{Slab, slab_size, slab_header_size, slab_max_alignment}
use sigma_malloc.Large.{Larges, large_header_size}

abbrev pub max_leaks : ℕ
max_leaks = 4096

-- LeakInfo, less `type`, which nothing here sets.
pub record LeakInfo : Type 0 where
  pub site : Site
  pub size : ℕ

-- g_leaks and g_leak_count
pub record Leaks : Type 0 where
  pub infos : ℕ → LeakInfo
  pub count : ℕ

-- leak_push
pub leak_push : LeakInfo → Leaks → Leaks
leak_push i s =
    if ltb s.count max_leaks
    then record { infos = update s.infos s.count i; count = s.count + 1 }
    else s

-- sigma_debug_reset_leaks
pub reset_leaks : Leaks → Leaks
reset_leaks s = record {
  infos = λ i. if ltb i max_leaks then record { site = no_site; size = 0 } else s.infos i;
  count = 0;
}

-- sigma_debug_leak_info, for an `out` that is not NULL; none is false.
pub leak_info : ℕ → Leaks → Option LeakInfo
leak_info i s = if leb s.count i then none else some (s.infos i)

-- What `traverse_buddy_nodes` does with a node that is handed out.
abbrev pub report_block : Buddy → (index order : ℕ) → Leaks → Leaks
report_block b index order s =
    let hdr = b.mem.links.next (node_index_to_ptr b.pool index order) in
    let h = b.mem.buddy_headers hdr in
    let ah = b.mem.headers (add_size hdr (buddy_header_offset true)) in
    if ah.magic == buddy_magic && h.order == order && not h.is_slab_region
    then leak_push (record { site = h.site; size = ah.requested_size }) s
    else s

-- traverse_buddy_nodes, by the relative order
pub traverse_buddy_nodes : (relative_order index : ℕ) → Buddy → Leaks → Leaks
traverse_buddy_nodes zero index b s = elim (b.pool.tree index) [
  | full ↦ report_block b index 0 s
  | split ↦ s
  | free ↦ s
]
traverse_buddy_nodes (suc o) index b s =
    if leb num_orders (suc o) then s else elim (b.pool.tree index) [
      | full ↦ report_block b index (suc o) s
      | split ↦
          traverse_buddy_nodes o (node_right index) b (traverse_buddy_nodes o (node_left index) b s)
      | free ↦ s
    ]

-- collect_buddy_leaks, for a pool that exists
pub collect_buddy_leaks : Buddy → Leaks → Leaks
collect_buddy_leaks b s = traverse_buddy_nodes (num_orders - 1) 0 b s

-- What `collect_large_leaks` reports of a node.
abbrev pub large_info : Larges → Ptr → LeakInfo
large_info s node =
    let user = (s.nodes node).user in
    record {
      site = (s.metas (s.meta_of (sub_size user large_header_size))).site;
      size = (s.headers (alloc_header_from_user user)).requested_size;
    }

-- The loop of `collect_large_leaks`, from `node` on
pub collect_large_leaks : (fuel : ℕ) → Ptr → Larges → Leaks → Leaks
collect_large_leaks zero node s r = r
collect_large_leaks (suc f) node s r =
    let rest = collect_large_leaks f (s.links.next node) s (leak_push (large_info s node) r) in
    if node == null then r else rest

-- is_ptr_in_freelist
pub is_ptr_in_freelist : (fuel : ℕ) → (Ptr → Ptr) → (head p : Ptr) → Bool
is_ptr_in_freelist zero next head p = false
is_ptr_in_freelist (suc f) next head p =
    let rest = is_ptr_in_freelist f next (next head) p in
    if head == null then false else if head == p then true else rest
