-- ===== src/Large/Free.antt =====
-- `large_free`, and that it undoes `large_alloc`.
use sigma_malloc.Base.{
  ℕ, ◌+◌, ◌-◌, ◌<◌, ◌≡◌, refl, ap, ◌≢◌, Bool, true, false, List, arith, if◌then◌else◌, ==_refl,
  ==_ne, has, erase,
}
use sigma_malloc.Base.Word.{word, sub_size}
use sigma_malloc.Links.{Ptr, null}
use sigma_malloc.Large.{
  Larges, Supply, gone, wrong_owner, large_header_size, large_node_size, large_page_size,
  total_size, aligned_size, unlist_node, large_free, large_alloc,
}
use sigma_malloc.Large.Sizes.{IsLargeRequest}
use sigma_malloc.Large.Chains.{IsLargeList, large_unlink-IsLargeList, erase-cons}
use sigma_malloc.Large.Alloc.{
  GivesMemory, GivesFresh, IsLarge, listed, LargeOutcome, no_memory, no_arena, no_room, served,
  large_alloc-Outcome,
}

-- The nodes of the list after a release.
abbrev pub unlisted : Bool → Ptr → List Ptr → List Ptr
unlisted debug node ks = if debug then erase node ks else ks

unlist_node-IsLargeList :
    (debug : Bool) (s : Larges) (node : Ptr) (ks : List Ptr)
    → (debug ≡ true → has node ks ≡ true)
    → IsLargeList s.links s.head ks
    → IsLargeList
        (unlist_node debug node s).links
        (unlist_node debug node s).head
        (unlisted debug node ks)
unfolding unlist_node
unlist_node-IsLargeList true s node ks h v =
    large_unlink-IsLargeList s.links s.head node ks (h refl) v
unlist_node-IsLargeList false s node ks h v = v

module _ {E : Type 0} (x : Supply E) (debug : Bool) (self : Ptr) (s : Larges) (e : E) where
  -- Freeing a large allocation of this allocator gives its metadata, its node and then its backing back, the
  -- backing with the size that was asked for, and takes the node out of the debug build's list.
  pub large_free-IsLargeList :
      (p size alignment backing backing_size node : ℕ) (ks : List Ptr)
      → IsLarge self s p size alignment backing backing_size node
      → (debug ≡ true → has node ks ≡ true)
      → IsLargeList s.links s.head ks
      → (s' : Larges) × (large_free x debug self p s e
          ≡ gone s' (
              x.source_free backing backing_size
                (x.free_object node (x.free_object (s.meta_of (sub_size p large_header_size)) e))))
        × IsLargeList s'.links s'.head (unlisted debug node ks)
  unfolding large_free
  large_free-IsLargeList p size alignment backing backing_size node ks i h v = (
    unlist_node debug node s,
    rw (==_ne p null i.not_null, i.meta_node, i.owner, ==_refl self, i.backing_of, i.size_of) refl,
    unlist_node-IsLargeList debug s node ks h v,
  )

  -- Freeing the allocation of another allocator is refused.
  pub large_free_foreign :
      (p size alignment backing backing_size node other : ℕ)
      → IsLarge other s p size alignment backing backing_size node
      → other ≢ self
      → large_free x debug self p s e ≡ wrong_owner
  unfolding large_free
  large_free_foreign p size alignment backing backing_size node other i ne =
      rw (==_ne p null i.not_null, i.meta_node, i.owner, ==_ne other self ne) refl

unlisted-listed :
    (debug : Bool) (node : Ptr) (ks : List Ptr) → unlisted debug node (listed debug node ks) ≡ ks
unlisted-listed true node ks = erase-cons node ks
unlisted-listed false node ks = refl

in_listed :
    (debug : Bool) (node : Ptr) (ks : List Ptr)
    → debug ≡ true
    → has node (listed debug node ks) ≡ true
in_listed true node ks d = rw ==_refl refl
in_listed false node ks d = absurd (ground arith)

-- Freeing what `large_alloc` has just handed out gives the source its memory back, with the same size, and
-- leaves the list as it was before.
pub large_free-large_alloc :
    {E : Type 0} (x : Supply E) (debug : Bool) (self size alignment : ℕ) (ks : List Ptr)
    (s : Larges) (e : E)
    → IsLargeRequest self size alignment
    → total_size size alignment + (large_page_size - 1) < word
    → IsLargeList s.links s.head ks
    → GivesMemory x
    → GivesFresh x ks
    → (large_alloc x debug self true size alignment s e).0 ≢ null
    → (s' : Larges) × (node meta : Ptr) × (large_free x debug self
          (large_alloc x debug self true size alignment s e).0
          (large_alloc x debug self true size alignment s e).1
          (large_alloc x debug self true size alignment s e).2
        ≡ gone s' (
            x.source_free
              (x.source_alloc (aligned_size size alignment) large_page_size e).0
              (aligned_size size alignment)
              (x.free_object node
                (x.free_object meta (large_alloc x debug self true size alignment s e).2))))
      × IsLargeList s'.links s'.head ks
large_free-large_alloc {E} x debug self size alignment ks s e q fits v gives fresh n =
    undo (large_alloc x debug self true size alignment s e) n
      (large_alloc-Outcome x debug self size alignment ks s q fits v gives fresh e)
  where
    undo :
        (res : Ptr × Larges × E)
        → res.0 ≢ null
        → LargeOutcome x debug self size alignment ks s e res
        → (s' : Larges) × (node meta : Ptr) × (large_free x debug self res.0 res.1 res.2
            ≡ gone s' (
                x.source_free
                  (x.source_alloc (aligned_size size alignment) large_page_size e).0
                  (aligned_size size alignment)
                  (x.free_object node (x.free_object meta res.2))))
          × IsLargeList s'.links s'.head ks
    undo res n (no_memory z r) = absurd (n (ap (λ (t : Ptr × Larges × E). t.0) r))
    undo res n (no_arena m z r) = absurd (n (ap (λ (t : Ptr × Larges × E). t.0) r))
    undo res n (no_room m a z r) = absurd (n (ap (λ (t : Ptr × Larges × E). t.0) r))
    undo res n (served m a nn nm same i of_meta new l) =
        let node =
          (x.arena_alloc
            (x.get_arena (x.source_alloc (aligned_size size alignment) large_page_size e).1).0
            large_node_size 8
            (x.get_arena (x.source_alloc (aligned_size size alignment) large_page_size e).1).1).0 in
        let (s', f, l') =
          large_free-IsLargeList x debug self res.1 res.2 res.0 size alignment
            (x.source_alloc (aligned_size size alignment) large_page_size e).0
            (aligned_size size alignment) node (listed debug node ks) i (in_listed debug node ks)
            l in
        (
          s',
          node,
          res.1.meta_of (sub_size res.0 large_header_size),
          f,
          rw (unlisted-listed debug node ks) at l',
        )
