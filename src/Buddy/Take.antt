-- ===== src/Buddy/Take.antt =====
-- Splitting a free block down to the target order and writing its header, as `buddy_alloc` does.
use sigma_malloc.Base.{
  ℕ, ◌+◌, ◌-◌, ◌%◌, ◌≤◌, ◌<◌, ◌≡◌, refl, sym, ap, ◌∙◌, ◌≢◌, inl, inr, Bool, true, false, ◌&&◌, ◌||◌,
  List, arith, ◌==◌, ==_ne, eq_cases, erase,
}
use mathlib.Core.Path.{ap₂}
use sigma_malloc.Base.Word.{word, sub_size, IsAlignment}
use sigma_malloc.Header.{
  AllocHeader, BuddyHeader, buddy_magic, type_buddy, buddy_header_size, buddy_header_of,
  alloc_header_from_user,
}
use sigma_malloc.Links.{Ptr, null, update}
use sigma_malloc.Buddy.{
  Buddy, Mem, mark, remove_free, block_size, split_loop, finish_block, write_header, take_block,
}
use sigma_malloc.Buddy.Tree.{node, live-lt}
use sigma_malloc.Buddy.Layout.{top, addr, addr_in_pool, free_leaf}
use sigma_malloc.Buddy.Lists.{SameHeaders, base, at}
use sigma_malloc.Buddy.Split.{is_full, full_leaf, IsValid, Holding, Splitted, split_loop-Splitted}
use sigma_malloc.Buddy.Size.{total_size, UserBytes, user_address}
use sigma_malloc.Links.{set_next}
use sigma_malloc.Links.Chain.{Chain-Agree}
use sigma_malloc.Buddy.Layout.{addr-injective}
use sigma_malloc.Buddy.Lists.{leaves_apart}
use sigma_malloc.Buddy.Alloc.{
  remove_free-Holding, tree-remove_free, usable-remove_free, headers-remove_free, filled,
  leaves-filled, filled-IsValid,
}

-- A user pointer of the pool: the block that it stands for is handed out, and its header says so.
pub record IsHandle (debug : Bool) (b : Buddy) (p order place : ℕ) : Type 0 where
  pub in_range : order ≤ top
  pub handed_out : full_leaf b.pool.tree order place ≡ true
  pub not_null : p ≢ null
  pub magic : (b.mem.headers (alloc_header_from_user p)).magic ≡ buddy_magic
  pub type : (b.mem.headers (alloc_header_from_user p)).type ≡ type_buddy
  pub stored_block : (b.mem.buddy_headers (buddy_header_of debug p)).block ≡ at b order place
  pub stored_order : (b.mem.buddy_headers (buddy_header_of debug p)).order ≡ order
  pub header_behind : at b order place + buddy_header_size debug ≤ p
  pub inside : p ≤ at b order place + block_size order

-- Writing into a block that is handed out leaves the free lists as they are.
write-IsValid :
    (b : Buddy) (lists : ℕ → List ℕ) (o k : ℕ) (w : Ptr) (m : Mem)
    → o ≤ top
    → full_leaf b.pool.tree o k ≡ true
    → m.links ≡ set_next (at b o k) w b.mem.links
    → IsValid b lists
    → IsValid (record b { mem = m }) lists
write-IsValid b lists o k w m h f e v = record {
  usable = v.usable;
  fits = v.fits;
  chains = λ i l. rw e (
      Chain-Agree (at b i) b.mem.links (set_next (at b o k) w b.mem.links) null
        (b.pool.free_lists i) (lists i)
        (λ j q.
          let ne : at b i j ≢ at b o k = apart i j l (sym (v.members i j l) ∙ q) in
          (ground arith, refl))
        (v.chains i l));
  nodup = v.nodup;
  members = v.members;
}
  where
    apart : (i j : ℕ) → i ≤ top → free_leaf b.pool.tree i j ≡ true → at b i j ≢ at b o k
    apart i j l q = elim (eq_cases i o) [
      | inl e ↦ λ z.
          let y : j ≡ k = addr-injective (base b) o j k (ap (λ n. at b n j) (sym e) ∙ z) in
          let x : b.pool.tree (node (top - i) j) ≡ b.pool.tree (node (top - o) k) =
            ap₂ (λ n c. b.pool.tree (node (top - n) c)) e y in
          ground arith
      | inr n ↦ leaves_apart b.pool.tree (base b) i j o k l h (ground arith) (ground arith) n
    ]

pub buddy_header_of_lem :
    (debug : Bool) (u : ℕ)
    → buddy_header_size debug ≤ u
    → u < word
    → buddy_header_of debug u ≡ sub_size u (buddy_header_size debug)
buddy_header_of_lem true u h l = omega arith
buddy_header_of_lem false u h l = omega arith

-- A successful allocation: a block that was not handed out now is, no other is or ceases to be, the
-- pool stays consistent, and the bytes lie in the block.
pub record Allocated (debug : Bool) (b b' : Buddy) (user target size alignment : ℕ) : Type 0 where
  pub place : ℕ
  pub lists : ℕ → List ℕ
  pub valid : IsValid b' lists
  pub usable : base b' ≡ base b
  pub new : full_leaf b.pool.tree target place ≡ false
  pub handed_out :
      (o k : ℕ)
      → o ≤ top
      → full_leaf b'.pool.tree o k ≡ (full_leaf b.pool.tree o k || (o == target && k == place))
  pub other_headers :
      (a : Ptr) → a ≢ alloc_header_from_user user → b'.mem.headers a ≡ b.mem.headers a
  pub other_buddy_headers :
      (a : Ptr) → a ≢ buddy_header_of debug user → b'.mem.buddy_headers a ≡ b.mem.buddy_headers a
  pub bytes : UserBytes debug (at b' target place) target size alignment user
  pub handle : IsHandle debug b' user target place

module _ (debug : Bool) (self size alignment : ℕ) (b : Buddy) (lists : ℕ → List ℕ) (target k : ℕ)
    (held : Holding b lists target k) where
  abbrev written : Ptr × Mem
  written =
      write_header debug self (at b target k) target size alignment
        (filled b lists target k held).mem

  written-links :
      written.1.links
      ≡ set_next
          (at b target k)
          (sub_size written.0 (buddy_header_size debug))
          (filled b lists target k held).mem.links
  unfolding write_header
  written-links = refl

  abbrev result : Buddy
  result = record (filled b lists target k held) { mem = written.1 }

  module _ (al : IsAlignment alignment)
      (enough : total_size debug size alignment ≤ block_size target) where
    bytes_in_block : UserBytes debug (at b target k) target size alignment written.0
    unfolding write_header
    bytes_in_block =
        let s = live-lt b.pool.tree (top - target) k held.exists in
        let a = addr_in_pool (base b) target k held.in_range s in
        user_address debug (at b target k) target size alignment al
          (omega (arith, held.others.fits)) enough

    in_word : (buddy_header_size debug ≤ written.0) × (written.0 < word)
    in_word =
        let s = live-lt b.pool.tree (top - target) k held.exists in
        let a = addr_in_pool (base b) target k held.in_range s in
        (
          omega (arith, bytes_in_block.behind_header),
          omega (arith, bytes_in_block.before_end, held.others.fits),
        )

    header_address : buddy_header_of debug written.0 ≡ sub_size written.0 (buddy_header_size debug)
    header_address = buddy_header_of_lem debug written.0 in_word.0 in_word.1

    filled_self : full_leaf (filled b lists target k held).pool.tree target k ≡ true
    filled_self = (leaves-filled b lists target k held target k held.in_range).1 ∙ ground arith

    stored :
        ((written.1.headers (alloc_header_from_user written.0)).magic ≡ buddy_magic)
        × ((written.1.headers (alloc_header_from_user written.0)).type ≡ type_buddy)
        × ((written.1.buddy_headers (sub_size written.0 (buddy_header_size debug))).block
            ≡ at b target k)
        × ((written.1.buddy_headers (sub_size written.0 (buddy_header_size debug))).order
            ≡ target % 256)
    unfolding write_header
    stored = (ground arith, ground arith, ground arith, ground arith)

    unwritten :
        ((a : Ptr) → a ≢ alloc_header_from_user written.0 → written.1.headers a ≡ b.mem.headers a)
        × ((a : Ptr)
            → a ≢ sub_size written.0 (buddy_header_size debug)
            → written.1.buddy_headers a ≡ b.mem.buddy_headers a)
    unfolding write_header mark
    unwritten = ((λ a n. rw (==_ne a _ n)), (λ a n. rw (==_ne a _ n)))

    result-IsHandle : IsHandle debug result written.0 target k
    unfolding mark
    result-IsHandle =
        let bytes = bytes_in_block in
        let (low, high) = in_word in
        record {
          in_range = held.in_range;
          handed_out = filled_self;
          not_null = λ e. absurd (omega (arith, bytes.behind_header));
          magic = stored.0;
          type = stored.1;
          stored_block = rw header_address stored.2;
          stored_order = rw header_address (stored.3 ∙ omega (arith, held.in_range));
          header_behind = omega (arith, bytes.behind_header);
          inside = omega (arith, bytes.before_end);
        }

    result-Allocated : Allocated debug b result written.0 target size alignment
    unfolding mark
    result-Allocated = record {
      place = k;
      lists = lists;
      valid =
          write-IsValid (filled b lists target k held) lists target k
            (sub_size written.0 (buddy_header_size debug)) written.1 held.in_range filled_self
            written-links (filled-IsValid b lists target k held);
      usable = refl;
      new = ground (arith, ap is_full held.is_free);
      handed_out = λ o j h. (leaves-filled b lists target k held o j h).1;
      other_headers = unwritten.0;
      other_buddy_headers = λ a n. unwritten.1 a (λ e. n (e ∙ sym header_address));
      bytes = bytes_in_block;
      handle = result-IsHandle;
    }

    finish_block-Allocated :
        Allocated debug b
          (finish_block debug self target size alignment (at b target k) b).1
          (finish_block debug self target size alignment (at b target k) b).0
          target
          size
          alignment
    unfolding finish_block
    finish_block-Allocated = result-Allocated

-- An allocation that starts from a pool with the same blocks handed out.
Allocated-from :
    (debug : Bool) (b b1 b' : Buddy) (user target size alignment : ℕ)
    → base b1 ≡ base b
    → target ≤ top
    → SameHeaders b b1
    → ((o k : ℕ) → o ≤ top → full_leaf b1.pool.tree o k ≡ full_leaf b.pool.tree o k)
    → Allocated debug b1 b' user target size alignment
    → Allocated debug b b' user target size alignment
Allocated-from debug b b1 b' user target size alignment u h hs same a = record {
  place = a.place;
  lists = a.lists;
  valid = a.valid;
  usable = a.usable ∙ u;
  new = sym (same target a.place h) ∙ a.new;
  handed_out =
      λ o k l. a.handed_out o k l ∙ ap (λ x. x || (o == target && k == a.place)) (same o k l);
  other_headers = λ x n. a.other_headers x n ∙ ap (λ (f : Ptr → AllocHeader). f x) hs.0;
  other_buddy_headers = λ x n. a.other_buddy_headers x n ∙ ap (λ (f : Ptr → BuddyHeader). f x) hs.1;
  bytes = a.bytes;
  handle = a.handle;
}

module _ (debug : Bool) (self size alignment target : ℕ) (al : IsAlignment alignment)
    (enough : total_size debug size alignment ≤ block_size target) where
  finish_at :
      (b : Buddy) (lists : ℕ → List ℕ) (k block : ℕ)
      → Holding b lists target k
      → block ≡ at b target k
      → Allocated debug b
          (finish_block debug self target size alignment block b).1
          (finish_block debug self target size alignment block b).0
          target
          size
          alignment
  finish_at b lists k block held e =
      rw e (finish_block-Allocated debug self size alignment b lists target k held al enough)

  finish_splitted :
      (b b0 b1 : Buddy) (block : ℕ)
      → base b0 ≡ base b
      → b0.pool.tree ≡ b.pool.tree
      → SameHeaders b b0
      → Splitted b0 b1 block target
      → Allocated debug b
          (finish_block debug self target size alignment block b1).1
          (finish_block debug self target size alignment block b1).0
          target
          size
          alignment
  finish_splitted b b0 b1 block u t hs s =
      Allocated-from debug b b1 _ _ target size alignment (s.usable ∙ u) s.held.in_range
        (s.headers.0 ∙ hs.0, s.headers.1 ∙ hs.1)
        (λ o j l. s.full o j l ∙ ap (λ t. full_leaf t o j) t)
        (finish_at b1 s.lists s.place block s.held s.address)

  module _ (b : Buddy) (lists : ℕ → List ℕ) (v : IsValid b lists) where
    pub take_block-Allocated :
        (c k : ℕ)
        → target ≤ c
        → c ≤ top
        → b.pool.free_lists c ≡ at b c k
        → free_leaf b.pool.tree c k ≡ true
        → Allocated debug b
            (take_block debug self target c size alignment b).1
            (take_block debug self target c size alignment b).0
            target
            size
            alignment
    unfolding take_block
    take_block-Allocated c k le h e m =
        let b0 = remove_free c (at b c k) b in
        let u : base b0 ≡ base b = usable-remove_free b lists v c (at b c k) in
        let q : at b0 c k ≡ at b c k = ap (λ x. addr x c k) u in
        let s =
          split_loop-Splitted (c - target) target k b0 (update lists c (erase k (lists c))) c
            (omega arith) (remove_free-Holding b lists v c k h m) in
        rw e (
          finish_splitted b b0 (split_loop (c - target) target (at b c k) b0) (at b c k) u
            (tree-remove_free b lists v c (at b c k)) (headers-remove_free b lists v c (at b c k))
            (rw q at s))
