-- ===== src/Header.antt =====
-- include/common.h and the header structures of include/buddy.h: what stands in memory in front of a
-- user pointer. Sizes and offsets are those of the x86-64 ABI. Whether SIGMA_DEBUG is set is an
-- argument, since it changes the layout.
use sigma_malloc.Base.{ℕ, Bool, if◌then◌else◌}
use sigma_malloc.Base.Word.{sub_size}
use sigma_malloc.Links.{Ptr}

-- alloc_type_t, as it is stored; memory that holds no header may hold any other number.
abbrev pub type_slab : ℕ
type_slab = 1

abbrev pub type_buddy : ℕ
type_buddy = 2

abbrev pub type_large : ℕ
type_large = 3

abbrev pub slab_magic : ℕ
slab_magic = 0x42

abbrev pub buddy_magic : ℕ
buddy_magic = 0x67

abbrev pub large_magic : ℕ
large_magic = 0x69

-- alloc_header_t
pub record AllocHeader : Type 0 where
  pub magic : ℕ
  pub type : ℕ
  pub requested_size : ℕ
  pub alignment : ℕ

-- sizeof(alloc_header_t): a byte, an enum at offset 4, two words at offsets 8 and 16
abbrev pub alloc_header_size : ℕ
alloc_header_size = 24

-- alloc_header_from_user
abbrev pub alloc_header_from_user : Ptr → Ptr
alloc_header_from_user p = sub_size p alloc_header_size

-- A source position of the debug build: file and function (0 is NULL) and line.
pub record Site : Type 0 where
  pub file : Ptr
  pub func : Ptr
  pub line : ℕ

abbrev pub no_site : Site
no_site = record { file = 0; func = 0; line = 0 }

-- buddy_header_t, less the alloc_header_t at its end, which stands in the map of those. The debug
-- build has the three fields of `site`.
pub record BuddyHeader : Type 0 where
  pub site : Site
  pub arena : Ptr
  pub pool : Ptr
  pub block : Ptr
  pub is_slab_region : Bool
  pub order : ℕ

-- offsetof(buddy_header_t, header)
abbrev pub buddy_header_offset : Bool → ℕ
buddy_header_offset debug = if debug then 56 else 32

-- sizeof(buddy_header_t)
abbrev pub buddy_header_size : Bool → ℕ
buddy_header_size debug = if debug then 80 else 56

-- SIGMA_CONTAINER_OF(alloc_header_from_user(ptr), buddy_header_t, header)
abbrev pub buddy_header_of : Bool → Ptr → Ptr
buddy_header_of debug p = sub_size (alloc_header_from_user p) (buddy_header_offset debug)
