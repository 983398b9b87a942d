-- ===== src/Buddy/Release.antt =====
-- The steps of `buddy_free`: marking the block, merging it, and putting the result on its list.
use sigma_malloc.Base.{
  ℕ, ◌-◌, ◌^◌, ◌≤◌, ◌<◌, ◌≡◌, refl, ap, ◌∙◌, inl, inr, Bool, true, false, not, ◌&&◌, List, ◌∷◌,
  arith, ◌==◌, if◌then◌else◌, eq_cases,
}
use mathlib.Core.Path.{ap₂}
use sigma_malloc.Header.{AllocHeader, BuddyHeader, no_site}
use sigma_malloc.Links.{Ptr, update}
use sigma_malloc.Buddy.{Buddy, free, is_free, is_split, mark, push_free}
use sigma_malloc.Buddy.Tree.{node, live, live-lt, live-put, put_lem}
use sigma_malloc.Buddy.Layout.{top, free_leaf}
use sigma_malloc.Buddy.Lists.{
  SameHeaders, base, at, with_block, without_block, HasLists-eq, mark-HasLists, push_free-HasLists,
}
use sigma_malloc.Buddy.Split.{full_leaf, IsValid, Holding}
use sigma_malloc.Buddy.Merge.{Merged}

-- Marking a block that is handed out as free makes it the held block.
module _ (b : Buddy) (lists : ℕ → List ℕ) (v : IsValid b lists) (o k : ℕ) (h : o ≤ top)
    (f : full_leaf b.pool.tree o k ≡ true) where
  small : k < 2 ^ (top - o)
  small = live-lt b.pool.tree (top - o) k (ground arith)

  abbrev pub freed : Buddy
  freed = mark (node (top - o) k) free b

  self_test : (e : ℕ) → e ≤ top → ((top - e) == (top - o)) ≡ (e == o)
  self_test e l = elim (eq_cases e o) [ inl q ↦ ground arith | inr n ↦ ground arith ]

  entry_self : (e j : ℕ) → (e == o && j == k) ≡ true → full_leaf b.pool.tree e j ≡ true
  entry_self e j q =
      let x : e ≡ o = ground arith in
      let y : j ≡ k = ground arith in ap₂ (full_leaf b.pool.tree) x y ∙ f

  leaves-freed :
      (e j : ℕ)
      → e ≤ top
      → (free_leaf b.pool.tree e j ≡ without_block (free_leaf freed.pool.tree) o k e j)
        × (full_leaf freed.pool.tree e j ≡ (full_leaf b.pool.tree e j && not (e == o && j == k)))
        × (live freed.pool.tree (top - e) j ≡ live b.pool.tree (top - e) j)
  unfolding mark
  leaves-freed e j l =
      let whole : is_split (b.pool.tree (node (top - o) k)) ≡ false = ground arith in
      let a = live-put b.pool.tree (top - o) k free (top - e) j small whole refl in
      let c = λ (q : j < 2 ^ (top - e)). put_lem b.pool.tree (top - o) k free (top - e) j small q in
      let d = live-lt b.pool.tree (top - e) j in
      (
        ground (arith, a, c, d, self_test e l, entry_self e j),
        ground (arith, a, c, d, self_test e l, entry_self e j),
        a,
      )

  pub freed-Holding : Holding freed lists o k
  unfolding mark
  freed-Holding = record {
    in_range = h;
    exists = (leaves-freed o k h).2 ∙ ground arith;
    is_free = ground arith;
    others =
        HasLists-eq freed lists (free_leaf b.pool.tree)
          (without_block (free_leaf freed.pool.tree) o k) (λ e j l. (leaves-freed e j l).0)
          (mark-HasLists b lists (free_leaf b.pool.tree) (node (top - o) k) free v);
  }

-- Putting the held block on its list makes the pool consistent.
module _ (b : Buddy) (lists : ℕ → List ℕ) (o k : ℕ) (held : Holding b lists o k) where
  tree-push_free : (push_free o (at b o k) b).pool.tree ≡ b.pool.tree
  unfolding push_free
  tree-push_free = refl

  headers-push_free : SameHeaders b (push_free o (at b o k) b)
  unfolding push_free
  headers-push_free = (refl, refl)

  usable-push_free : base (push_free o (at b o k) b) ≡ base b
  unfolding push_free
  usable-push_free = refl

  entry_held : (e j : ℕ) → (e == o && j == k) ≡ true → free_leaf b.pool.tree e j ≡ true
  entry_held e j q =
      let x : e ≡ o = ground arith in
      let y : j ≡ k = ground arith in
      ap₂ (free_leaf b.pool.tree) x y ∙ ground (arith, held.exists, ap is_free held.is_free)

  pushed-IsValid : IsValid (push_free o (at b o k) b) (update lists o (k ∷ lists o))
  pushed-IsValid =
      let p = without_block (free_leaf b.pool.tree) o k in
      HasLists-eq _ _ (with_block p o k) _
        (λ e j h. ground (arith, entry_held e j, ap (λ t. free_leaf t e j) tree-push_free))
        (push_free-HasLists b lists p held.others o k held.in_range b.pool.tree
          (λ e j h m. ground arith) (ground (arith, held.exists, ap is_split held.is_free))
          (ground arith))

-- A successful release: exactly the given block is handed out no more, the pool stays consistent, and
-- no header loses its magic number, type, block or order.
pub record Released (b b' : Buddy) (o k : ℕ) : Type 0 where
  pub lists : ℕ → List ℕ
  pub valid : IsValid b' lists
  pub usable : base b' ≡ base b
  pub handed_out :
      (e j : ℕ)
      → e ≤ top
      → full_leaf b'.pool.tree e j ≡ (full_leaf b.pool.tree e j && not (e == o && j == k))
  pub headers : (a : Ptr) → b'.mem.headers a ≡ b.mem.headers a
  pub blocks : (a : Ptr) → (b'.mem.buddy_headers a).block ≡ (b.mem.buddy_headers a).block
  pub orders : (a : Ptr) → (b'.mem.buddy_headers a).order ≡ (b.mem.buddy_headers a).order

-- What `release_block` does first: the debug fields of the header are cleared.
abbrev pub cleared : Bool → Ptr → Buddy → Buddy
cleared debug hdr b =
    let h = b.mem.buddy_headers hdr in
    record b {
      mem = record (b.mem) {
        buddy_headers =
            update b.mem.buddy_headers hdr (record h { site = if debug then no_site else h.site });
      };
    }

module _ (b : Buddy) (lists : ℕ → List ℕ) (v : IsValid b lists) (o k : ℕ) (h : o ≤ top)
    (f : full_leaf b.pool.tree o k ≡ true) where
  pub merged-Released :
      (r : ℕ × Ptr × Buddy)
      → Merged (freed b lists v o k h f) r
      → Released b (push_free r.0 r.1 r.2) o k
  unfolding mark
  merged-Released r m = rw (m.address) (record {
    lists = update m.lists r.0 (m.place ∷ m.lists r.0);
    valid = pushed-IsValid r.2 m.lists r.0 m.place m.held;
    usable = usable-push_free r.2 m.lists r.0 m.place m.held ∙ m.usable;
    handed_out = λ e j l.
        ap (λ t. full_leaf t e j) (tree-push_free r.2 m.lists r.0 m.place m.held)
        ∙ m.full e j l
        ∙ (leaves-freed b lists v o k h f e j l).1;
    headers = λ a. ap (λ (g : Ptr → AllocHeader). g a) (hs.0 ∙ m.headers.0);
    blocks = λ a. ap (λ (g : Ptr → BuddyHeader). (g a).block) (hs.1 ∙ m.headers.1);
    orders = λ a. ap (λ (g : Ptr → BuddyHeader). (g a).order) (hs.1 ∙ m.headers.1);
  })
    where
      hs : SameHeaders r.2 (push_free r.0 (at r.2 r.0 m.place) r.2)
      hs = headers-push_free r.2 m.lists r.0 m.place m.held
