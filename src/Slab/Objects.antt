-- ===== src/Slab/Objects.antt =====
-- Taking an object from a slab and giving it back.
use sigma_malloc.Base.{
  ℕ, ◌<◌, ◌≡◌, refl, ◌≢◌, inl, inr, false, not, ◌||◌, List, ◌∷◌, arith, ◌==◌, if◌then◌else◌,
  ==_refl, Bool-cases, has,
}
use sigma_malloc.Base.Word.{word}
use sigma_malloc.Links.{Ptr, null}
use sigma_malloc.Header.{slab_magic, type_slab, alloc_header_from_user}
use sigma_malloc.Slab.{
  Slabs, freed, invalid_free, take_object, give_object, clear_magic, slab_free_local, push_partial,
  remove_partial, remove_full,
}
use sigma_malloc.Slab.Create.{IsFreeList-update, IsSlab}

-- Taking the first free object of a slab returns it, leaves the others free, and writes the header that
-- `slab_free_local` wants to see.
pub take_object-IsSlab :
    (s : Slabs) (slab size p : ℕ) (free : List Ptr)
    → IsSlab s slab (p ∷ free)
    → ((take_object slab size s).0 ≡ p)
      × IsSlab (take_object slab size s).1 slab free
      × ((take_object slab size s).1.slab_of p ≡ slab)
      × (((take_object slab size s).1.headers (alloc_header_from_user p)).magic ≡ slab_magic)
unfolding take_object
take_object-IsSlab s slab size p free i =
    let (e, n, rest) = i.chain in
    (
      e,
      record {
        chain = rw ==_refl rest;
        nodup = i.nodup.1;
        count = rw ==_refl (omega (arith, i.count));
      },
      rw (e, ==_refl) refl,
      rw (e, ==_refl) refl,
    )

-- Giving back an object that is not free makes it the first free object of its slab and changes no other.
pub give_object-IsSlab :
    (s : Slabs) (slab p : ℕ) (free : List Ptr)
    → p ≢ null
    → has p free ≡ false
    → 0 < (s.slabs slab).used
    → (s.slabs slab).used < word
    → IsSlab s slab free
    → IsSlab (give_object slab p s) slab (p ∷ free)
unfolding give_object
give_object-IsSlab s slab p free n new pos small i = record {
  chain = rw ==_refl (
    refl,
    n,
    rw ==_refl (
        IsFreeList-update s.nodes p (s.slabs slab).free_list (s.slabs slab).free_list free new
          i.chain),
  );
  nodup = (new, i.nodup);
  count = rw ==_refl (omega (arith, i.count));
}

-- What `slab_free_local` has done before it looks whether the slab is empty.
given_back : (slab p : ℕ) → Slabs → Slabs
given_back slab p s =
    let b = s.slabs slab in
    let s1 = give_object slab p (clear_magic p s) in
    if b.used == b.capacity then push_partial b.owner slab (remove_full b.owner slab s1) else s1

given_back-magic :
    (slab p : ℕ) (s : Slabs) → ((given_back slab p s).headers (alloc_header_from_user p)).magic ≡ 0
unfolding given_back give_object clear_magic push_partial remove_full
given_back-magic slab p s = elim (Bool-cases ((s.slabs slab).used == (s.slabs slab).capacity)) [
  | inl t ↦ rw (t, ==_refl) refl
  | inr f ↦ rw (f, ==_refl) refl
]

given_back_partial :
    (slab p : ℕ) (s : Slabs)
    → ((remove_partial (s.slabs slab).owner slab (given_back slab p s)).headers
        (alloc_header_from_user p)).magic
      ≡ 0
unfolding remove_partial
given_back_partial slab p s = given_back-magic slab p s

refused :
    (arena p : Ptr) (s : Slabs)
    → arena ≢ null
    → p ≢ null
    → (s.headers (alloc_header_from_user p)).magic ≡ 0
    → slab_free_local arena p s ≡ invalid_free
unfolding slab_free_local
refused arena p s na np m = ground (arith, na, np, m)

-- Freeing an object of the arena, as its header and its slab say, does not panic; a second free of the same
-- object panics, as long as nothing has been written to its header in between.
pub slab_free_local_twice :
    (arena p : Ptr) (s : Slabs)
    → arena ≢ null
    → p ≢ null
    → (s.headers (alloc_header_from_user p)).magic ≡ slab_magic
    → (s.headers (alloc_header_from_user p)).type ≡ type_slab
    → s.slab_of p ≢ null
    → (s.slabs (s.slab_of p)).arena ≡ arena
    → (region extent : Ptr) × (s' : Slabs) × (slab_free_local arena p s ≡ freed region extent s')
      × (slab_free_local arena p s' ≡ invalid_free)
unfolding slab_free_local given_back
slab_free_local_twice arena p s na np m t ns a =
    let slab = s.slab_of p in
    let s2 = given_back slab p s in
    let e1 : (arena == null || p == null) ≡ false = ground arith in
    let e2 : (not ((s.headers (alloc_header_from_user p)).magic == slab_magic)
          || not ((s.headers (alloc_header_from_user p)).type == type_slab)
          || slab == null
          || not ((s.slabs slab).arena == arena))
        ≡ false =
      ground (arith, m, t, ns, a) in
    elim (Bool-cases ((s2.slabs slab).used == 0)) [
      | inl z ↦ (
        slab,
        (s.slabs slab).extent,
        remove_partial (s.slabs slab).owner slab s2,
        rw (e1, e2, z) refl,
        refused arena p (remove_partial (s.slabs slab).owner slab s2) na np
            (given_back_partial slab p s),
      )
      | inr z ↦ (
        null,
        null,
        s2,
        rw (e1, e2, z) refl,
        refused arena p s2 na np (given_back-magic slab p s),
      )
    ]
