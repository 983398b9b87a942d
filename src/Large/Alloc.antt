-- ===== src/Large/Alloc.antt =====
-- `large_alloc`: what it hands out, and what it gives back when it fails half way.
use sigma_malloc.Base.{
  ℕ, ◌+◌, ◌-◌, ◌%◌, ◌≤◌, ◌<◌, ◌≡◌, refl, ◌≢◌, ◌⊎◌, inl, inr, Bool, true, false, ◌||◌, List, ◌∷◌,
  arith, ◌==◌, if◌then◌else◌, ==_refl, ==_ne, Bool-cases, eq_cases, has,
}
use sigma_malloc.Base.Word.{
  word, add_size, sub_size, align_up, IsAlignment-lt-word, AlignedUp, align_up-AlignedUp,
}
use sigma_malloc.Links.{Ptr, null}
use sigma_malloc.Header.{large_magic, type_large, alloc_header_from_user}
use sigma_malloc.Large.{
  Larges, Supply, large_header_size, large_node_size, large_metadata_size, large_page_size,
  total_size, aligned_size, list_node, fill_in, with_arena, large_alloc,
}
use sigma_malloc.Large.Sizes.{IsLargeRequest, rejects-IsLargeRequest, aligned_size-AlignedUp}
use sigma_malloc.Large.Chains.{IsLargeList, large_push-IsLargeList}

-- A source returns NULL or memory that lies in the address space.
abbrev pub GivesMemory : {E : Type 0} → Supply E → Type 0
GivesMemory {E} x =
    (size alignment : ℕ) (e : E)
    → ((x.source_alloc size alignment e).0 ≡ null)
      ⊎ ((x.source_alloc size alignment e).0 + size < word)

-- The arena does not hand out an object that is in use as a node of the list.
abbrev pub GivesFresh : {E : Type 0} → Supply E → List Ptr → Type 0
GivesFresh {E} x ks =
    (arena size alignment : ℕ) (e : E) → has (x.arena_alloc arena size alignment e).0 ks ≡ false

-- `p` is a large allocation: its header, metadata and node say so, and the user's bytes are aligned and lie
-- in the backing behind the header.
pub record IsLarge (self : Ptr) (s : Larges) (p size alignment backing backing_size node : ℕ)
    : Type 0 where
  pub meta_node : (s.metas (s.meta_of (sub_size p large_header_size))).node ≡ node
  pub backing_of : (s.nodes node).backing ≡ backing
  pub size_of : (s.nodes node).backing_size ≡ backing_size
  pub owner : (s.nodes node).allocator ≡ self
  pub user : (s.nodes node).user ≡ p
  pub magic : (s.headers (alloc_header_from_user p)).magic ≡ large_magic
  pub type : (s.headers (alloc_header_from_user p)).type ≡ type_large
  pub requested : (s.headers (alloc_header_from_user p)).requested_size ≡ size
  pub not_null : p ≢ null
  pub aligned : p % alignment ≡ 0
  pub behind_header : backing + large_header_size ≤ p
  pub inside : p + size ≤ backing + backing_size

-- Writing to the list of nodes keeps every allocation.
list_node-IsLarge :
    (debug : Bool) (k : Ptr) (s : Larges) (p : Ptr)
    {self size alignment backing backing_size node : ℕ}
    → IsLarge self s p size alignment backing backing_size node
    → IsLarge self (list_node debug k s) p size alignment backing backing_size node
unfolding list_node
list_node-IsLarge true k s p i = record {
  meta_node = i.meta_node;
  backing_of = i.backing_of;
  size_of = i.size_of;
  owner = i.owner;
  user = i.user;
  magic = i.magic;
  type = i.type;
  requested = i.requested;
  not_null = i.not_null;
  aligned = i.aligned;
  behind_header = i.behind_header;
  inside = i.inside;
}
list_node-IsLarge false k s p i = i

-- The nodes of the list after one more allocation; the release build has no list.
abbrev pub listed : Bool → Ptr → List Ptr → List Ptr
listed debug node ks = if debug then node ∷ ks else ks

-- What `large_alloc` asks for: the backing, the arena, the node and the metadata, in this order.
module _ {E : Type 0} (x : Supply E) (size alignment : ℕ) (e : E) where
  abbrev pub got : Ptr × E
  got = x.source_alloc (aligned_size size alignment) large_page_size e

  abbrev pub arena_got : Ptr × E
  arena_got = x.get_arena got.1

  abbrev pub node_got : Ptr × E
  node_got = x.arena_alloc arena_got.0 large_node_size 8 arena_got.1

  abbrev pub meta_got : Ptr × E
  meta_got = x.arena_alloc arena_got.0 large_metadata_size 8 node_got.1

-- An object is given back to the arena if there is one.
abbrev pub given_back : {E : Type 0} → Supply E → Ptr → E → E
given_back x p e = if p == null then e else x.free_object p e

-- What a call of `large_alloc` comes to.
pub data LargeOutcome {E : Type 0} (x : Supply E) (debug : Bool) (self size alignment : ℕ)
    (ks : List Ptr) (s : Larges) (e : E) (res : Ptr × Larges × E) : Type 0 where
  no_memory :
      (got x size alignment e).0 ≡ null
      → res ≡ (null, s, (got x size alignment e).1)
      → LargeOutcome x debug self size alignment ks s e res
  no_arena :
      (got x size alignment e).0 ≢ null
      → (arena_got x size alignment e).0 ≡ null
      → res ≡ (
        null,
        s,
        x.source_free
            (got x size alignment e).0
            (aligned_size size alignment)
            (arena_got x size alignment e).1,
      )
      → LargeOutcome x debug self size alignment ks s e res
  no_room :
      (got x size alignment e).0 ≢ null
      → (arena_got x size alignment e).0 ≢ null
      → ((node_got x size alignment e).0 ≡ null) ⊎ ((meta_got x size alignment e).0 ≡ null)
      → res ≡ (
        null,
        s,
        x.source_free (got x size alignment e).0 (aligned_size size alignment) (
            given_back x
              (meta_got x size alignment e).0
              (given_back x (node_got x size alignment e).0 (meta_got x size alignment e).1)),
      )
      → LargeOutcome x debug self size alignment ks s e res
  served :
      (got x size alignment e).0 ≢ null
      → (arena_got x size alignment e).0 ≢ null
      → (node_got x size alignment e).0 ≢ null
      → (meta_got x size alignment e).0 ≢ null
      → res.2 ≡ (meta_got x size alignment e).1
      → IsLarge self res.1 res.0 size alignment
          (got x size alignment e).0
          (aligned_size size alignment)
          (node_got x size alignment e).0
      → res.1.meta_of (sub_size res.0 large_header_size) ≡ (meta_got x size alignment e).0
      → has (node_got x size alignment e).0 ks ≡ false
      → IsLargeList res.1.links res.1.head (listed debug (node_got x size alignment e).0 ks)
      → LargeOutcome x debug self size alignment ks s e res

module _ {E : Type 0} (x : Supply E) (debug : Bool) (self size alignment : ℕ) (ks : List Ptr)
    (s : Larges) (q : IsLargeRequest self size alignment)
    (fits : total_size size alignment + (large_page_size - 1) < word)
    (v : IsLargeList s.links s.head ks) where
  abbrev total : ℕ
  total = aligned_size size alignment

  abbrev user_of : Ptr → Ptr
  user_of backing = align_up (add_size backing large_header_size) alignment

  user_place :
      (backing : Ptr)
      → backing + total < word
      → (user_of backing % alignment ≡ 0)
        × (backing + large_header_size ≤ user_of backing)
        × (user_of backing + size ≤ backing + total)
  user_place backing room =
      let (pos, small) = IsAlignment-lt-word q.power_of_two in
      let a = aligned_size-AlignedUp self size alignment q fits in
      let c : add_size backing large_header_size ≡ backing + large_header_size =
        omega (arith, a.above, q.positive) in
      let u : AlignedUp (backing + large_header_size) alignment
          (align_up (backing + large_header_size) alignment) =
        align_up-AlignedUp (backing + large_header_size) alignment q.power_of_two
          (omega (arith, a.above, q.positive)) in
      rw c (u.multiple, u.above, omega (arith, u.near, a.above))

  filled-IsLarge :
      (backing node meta : Ptr)
      → backing + total < word
      → IsLarge self
          (fill_in debug self backing node meta size alignment s).1
          (fill_in debug self backing node meta size alignment s).0
          size
          alignment
          backing
          total
          node
  unfolding fill_in
  filled-IsLarge backing node meta room =
      let (al, above, below) = user_place backing room in
      list_node-IsLarge debug node _ _ (record {
        meta_node = rw (==_refl (sub_size (user_of backing) large_header_size), ==_refl meta) refl;
        backing_of = rw ==_refl refl;
        size_of = rw ==_refl refl;
        owner = rw ==_refl refl;
        user = rw ==_refl refl;
        magic = rw ==_refl refl;
        type = rw ==_refl refl;
        requested = rw ==_refl refl;
        not_null = λ z. absurd (omega arith);
        aligned = al;
        behind_header = above;
        inside = below;
      })

  filled-IsLargeList :
      (backing node meta : Ptr)
      → node ≢ null
      → has node ks ≡ false
      → IsLargeList
          (fill_in debug self backing node meta size alignment s).1.links
          (fill_in debug self backing node meta size alignment s).1.head
          (listed debug node ks)
  unfolding fill_in list_node
  filled-IsLargeList backing node meta n new = elim (Bool-cases debug) [
    | inl d ↦ rw d (large_push-IsLargeList s.links s.head node ks n new v)
    | inr d ↦ rw d v
  ]

  filled_meta :
      (backing node meta : Ptr)
      → (fill_in debug self backing node meta size alignment s).1.meta_of
          (sub_size (fill_in debug self backing node meta size alignment s).0 large_header_size)
        ≡ meta
  unfolding fill_in list_node
  filled_meta backing node meta = elim (Bool-cases debug) [
    | inl d ↦ rw (d, ==_refl (sub_size (user_of backing) large_header_size)) refl
    | inr d ↦ rw (d, ==_refl (sub_size (user_of backing) large_header_size)) refl
  ]

  module _ (gives : GivesMemory x) (fresh : GivesFresh x ks) (e : E) where
    abbrev backing_got : Ptr × E
    backing_got = got x size alignment e

    room : backing_got.0 ≢ null → backing_got.0 + total < word
    room n = elim (gives total large_page_size e) [ inl z ↦ absurd (n z) | inr l ↦ l ]

    in_arena :
        backing_got.0 ≢ null
        → (arena_got x size alignment e).0 ≢ null
        → LargeOutcome x debug self size alignment ks s e (
            with_arena x debug self backing_got.0
              (arena_got x size alignment e).0
              size
              alignment
              s
              (arena_got x size alignment e).1)
    unfolding with_arena
    in_arena n m =
        let one = node_got x size alignment e in
        let two = meta_got x size alignment e in
        elim (Bool-cases (one.0 == null || two.0 == null)) [
          | inl t ↦ rw t (no_room n m (missing one.0 two.0 t) refl)
          | inr f ↦
              let new =
                fresh (arena_got x size alignment e).0 large_node_size 8
                  (arena_got x size alignment e).1 in
              rw f (
                served n m (ground (arith, f)) (ground (arith, f)) refl
                  (filled-IsLarge backing_got.0 one.0 two.0 (room n))
                  (filled_meta backing_got.0 one.0 two.0) new
                  (filled-IsLargeList backing_got.0 one.0 two.0 (ground (arith, f)) new))
        ]
      where
        missing : (a b : Ptr) → (a == null || b == null) ≡ true → (a ≡ null) ⊎ (b ≡ null)
        missing a b t = elim (eq_cases a null) [
          | inl z ↦ inl z
          | inr z ↦ inr (ground (arith, t, z))
        ]

    -- For a request whose size, header, alignment and rounding fit in a word, a source that returns NULL or
    -- memory in the address space, and an arena that returns fresh objects, `large_alloc` returns NULL and
    -- changes no allocation exactly if the source has no memory, there is no arena, or the arena has no room
    -- for the node or the metadata. In the last two cases the backing goes back to the source with its size,
    -- after the one object that the arena may have given has gone back to it. In every other case nothing is
    -- given back, the user's bytes are aligned and lie in the backing behind the header, header, metadata and
    -- node describe them, and the debug build's list has the node in front.
    pub large_alloc-Outcome :
        LargeOutcome x debug self size alignment ks s e
          (large_alloc x debug self true size alignment s e)
    unfolding large_alloc
    large_alloc-Outcome =
        rw (rejects-IsLargeRequest self size alignment q) (elim (eq_cases backing_got.0 null) [
          | inl z ↦ rw z (no_memory z refl)
          | inr n ↦
              rw (==_ne backing_got.0 null n)
                (elim (eq_cases (arena_got x size alignment e).0 null) [
                  | inl z ↦ rw z (no_arena n z refl)
                  | inr m ↦ rw (==_ne (arena_got x size alignment e).0 null m) (in_arena n m)
                ])
        ])
