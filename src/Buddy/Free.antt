-- ===== src/Buddy/Free.antt =====
-- `buddy_free`: what it gives back, and that a second call is not noticed.
use sigma_malloc.Base.{
  ℕ, ◌-◌, ◌^◌, ◌<◌, ◌≡◌, refl, sym, ap, ◌∙◌, inl, inr, Bool, List, arith, ==_refl, ==_ne, eq_cases,
}
use mathlib.Core.Path.{ap₂}
use sigma_malloc.Header.{
  AllocHeader, buddy_magic, type_buddy, buddy_header_of, alloc_header_from_user,
}
use sigma_malloc.Links.{Ptr}
use sigma_malloc.Buddy.{
  Buddy, ok, free, num_orders, mark, ptr_to_node_index, merge_loop, release_block, buddy_free,
}
use sigma_malloc.Buddy.Tree.{node, live-lt}
use sigma_malloc.Buddy.Layout.{top, ptr_to_node_index-addr}
use sigma_malloc.Buddy.Lists.{at}
use sigma_malloc.Buddy.Split.{IsValid}
use sigma_malloc.Buddy.Merge.{Merged, merge_loop-Merged}
use sigma_malloc.Buddy.Take.{IsHandle}
use sigma_malloc.Buddy.Release.{Released, freed, freed-Holding, merged-Released, cleared}

cleared-IsValid :
    (debug : Bool) (hdr : Ptr) (b : Buddy) (lists : ℕ → List ℕ)
    → IsValid b lists
    → IsValid (cleared debug hdr b) lists
cleared-IsValid debug hdr b lists v = record {
  usable = v.usable;
  fits = v.fits;
  chains = v.chains;
  nodup = v.nodup;
  members = v.members;
}

cleared_fields :
    (debug : Bool) (hdr : Ptr) (b : Buddy) (a : Ptr)
    → (((cleared debug hdr b).mem.buddy_headers a).block ≡ (b.mem.buddy_headers a).block)
      × (((cleared debug hdr b).mem.buddy_headers a).order ≡ (b.mem.buddy_headers a).order)
cleared_fields debug hdr b a = elim (eq_cases a hdr) [
  | inl e ↦ rw (e, ==_refl) (refl, refl)
  | inr n ↦ rw (==_ne a hdr n) (refl, refl)
]

module _ (debug : Bool) (b : Buddy) (lists : ℕ → List ℕ) (v : IsValid b lists) (p o k : ℕ)
    (i : IsHandle debug b p o k) where
  release_loop :
      (order block n : ℕ)
      → order ≡ o
      → block ≡ at b o k
      → n ≡ node (top - o) k
      → (hd : Ptr)
      → Merged
          (freed
            (cleared debug hd b)
            lists
            (cleared-IsValid debug hd b lists v)
            o
            k
            i.in_range
            i.handed_out)
          (merge_loop num_orders order n block (mark n free (cleared debug hd b)))
  unfolding mark
  release_loop order block n eo eb en hd =
      rw (eo, eb, en)
        (merge_loop-Merged num_orders o k
          (freed (cleared debug hd b) lists (cleared-IsValid debug hd b lists v) o k i.in_range
            i.handed_out)
          lists (node (top - o) k) (at b o k) (omega arith) refl refl
          (freed-Holding (cleared debug hd b) lists (cleared-IsValid debug hd b lists v) o k
            i.in_range i.handed_out))

  release_block-Released : Released b (release_block debug (buddy_header_of debug p) b) o k
  unfolding release_block
  release_block-Released =
      let hd = buddy_header_of debug p in
      let s : k < 2 ^ (top - o) = live-lt b.pool.tree (top - o) k (ground (arith, i.handed_out)) in
      let n : ptr_to_node_index b.pool (b.mem.buddy_headers hd).block (b.mem.buddy_headers hd).order
          ≡ node (top - o) k =
        ap₂ (ptr_to_node_index b.pool) i.stored_block i.stored_order
        ∙ ptr_to_node_index-addr b.pool o k i.in_range s v.fits in
      let r =
        merged-Released (cleared debug hd b) lists (cleared-IsValid debug hd b lists v) o k
          i.in_range i.handed_out _
          (release_loop (b.mem.buddy_headers hd).order (b.mem.buddy_headers hd).block _
            i.stored_order i.stored_block n hd) in
      record {
        lists = r.lists;
        valid = r.valid;
        usable = r.usable;
        handed_out = r.handed_out;
        headers = r.headers;
        blocks = λ a. r.blocks a ∙ (cleared_fields debug hd b a).0;
        orders = λ a. r.orders a ∙ (cleared_fields debug hd b a).1;
      }

  -- On a consistent pool, freeing a pointer that stands for a block which is handed out does not panic.
  -- It gives back exactly that block, the pool stays consistent, and no header loses its magic number,
  -- its type, its block or its order.
  pub buddy_free-Released : (b' : Buddy) × (buddy_free debug p b ≡ ok b') × Released b b' o k
  unfolding buddy_free
  buddy_free-Released = (
    release_block debug (buddy_header_of debug p) b,
    ground (arith, i.not_null, i.magic, i.type),
    release_block-Released,
  )

  -- The header of a freed pointer still looks like the header of an allocated one, so a second free of
  -- the same pointer passes every check of `buddy_free`.
  pub buddy_free_twice :
      (b' : Buddy) → buddy_free debug p b ≡ ok b' → (b'' : Buddy) × (buddy_free debug p b' ≡ ok b'')
  unfolding buddy_free
  buddy_free_twice b' e =
      let (b1, q, r) = buddy_free-Released in
      let same : b1 ≡ b' = cc in
      let kept : b'.mem.headers (alloc_header_from_user p)
          ≡ b.mem.headers (alloc_header_from_user p) =
        ap (λ (x : Buddy). x.mem.headers (alloc_header_from_user p)) (sym same)
        ∙ r.headers (alloc_header_from_user p) in
      let m : (b'.mem.headers (alloc_header_from_user p)).magic ≡ buddy_magic =
        ap (λ (x : AllocHeader). x.magic) kept ∙ i.magic in
      let t : (b'.mem.headers (alloc_header_from_user p)).type ≡ type_buddy =
        ap (λ (x : AllocHeader). x.type) kept ∙ i.type in
      (release_block debug (buddy_header_of debug p) b', ground (arith, i.not_null, m, t))
