-- ===== src/Slab/Tests.antt =====
-- An arena at 512 that has one region, at 16384, and an object of it at 16480.
use sigma_malloc.Base.{
  ℕ, ◌+◌, ◌-◌, ◌<◌, ◌≡◌, refl, ap, inl, true, Option, none, some, List, [], ◌∷◌, arith, ◌==◌,
  if◌then◌else◌, length, has,
}
use sigma_malloc.Links.{Ptr}
use sigma_malloc.Header.{slab_magic, type_slab}
use sigma_malloc.Slab.{
  Slabs, Regions, freed, invalid_free, size_class, make_slab, give_object, slab_alloc,
  slab_free_local,
}
use sigma_malloc.Slab.Create.{IsSlab, InRegion, make_slab-IsSlab}
use sigma_malloc.Slab.Objects.{give_object-IsSlab, slab_free_local_twice}
use sigma_malloc.Slab.Alloc.{GivesRegions, Given, slab_alloc-Given}

abbrev no_slabs : Slabs
no_slabs = record {
  caches = λ k. record { obj_size = size_class k; partial = 0; full = 0 };
  slabs = λ p. record { arena = 0; extent = 0; owner = 0; used = 0; capacity = 0; free_list = 0 };
  links = record { next = λ p. 0; prev = λ p. 0 };
  nodes = λ p. 0;
  slab_of = λ p. 0;
  headers = λ p. record { magic = 0; type = 0; requested_size = 0; alignment = 0 };
}

abbrev one_region : Regions ℕ
one_region = record {
  alloc_region = λ r. (some (16384, 7), r + 1);
  free_region = λ extent region r. r - 1;
}

abbrev start_of : Option (Ptr × Ptr) → Ptr
start_of none = 0
start_of (some (region, extent)) = region

one_region-GivesRegions : GivesRegions one_region
one_region-GivesRegions r region extent e =
    let same : 16384 ≡ region = ap start_of e in (omega arith, omega arith)

make_slab-IsSlab_example :
    (free : List Ptr) × IsSlab (make_slab 512 7 16384 3 no_slabs) 16384 free
    × (0 < length free)
    × ((p : Ptr) → has p free ≡ true → InRegion 16384 (no_slabs.caches 3).obj_size p)
unfolding size_class
make_slab-IsSlab_example = make_slab-IsSlab 512 7 16384 3 no_slabs (omega arith) (omega arith)

slab_alloc-Given_example :
    Given one_region 100 no_slabs 0 (slab_alloc one_region 512 100 no_slabs 0)
slab_alloc-Given_example =
    slab_alloc-Given one_region 512 100 no_slabs 0 (λ i l. refl) (λ k l. inl refl)
      one_region-GivesRegions

-- A slab of three objects, of which the one at 16480 is in use.
abbrev one_used : Slabs
one_used = record no_slabs {
  slabs =
      λ p. record { arena = 512; extent = 7; owner = 3; used = 1; capacity = 3; free_list = 16800 };
  nodes = λ p. if p == 16800 then 16640 else 0;
  slab_of = λ p. 16384;
  headers =
      λ p. record { magic = slab_magic; type = type_slab; requested_size = 100; alignment = 16 };
}

one_used-IsSlab : IsSlab one_used 16384 (16800 ∷ 16640 ∷ [])
one_used-IsSlab = record {
  chain = (refl, omega arith, (refl, omega arith, refl));
  nodup = (refl, (refl, tt));
  count = refl;
}

give_object-IsSlab_example :
    IsSlab (give_object 16384 16480 one_used) 16384 (16480 ∷ 16800 ∷ 16640 ∷ [])
give_object-IsSlab_example =
    give_object-IsSlab one_used 16384 16480 (16800 ∷ 16640 ∷ []) (omega arith) refl (omega arith)
      (omega arith) one_used-IsSlab

slab_free_local_twice_example :
    (region extent : Ptr) × (s' : Slabs) × (slab_free_local 512 16480 one_used
      ≡ freed region extent s')
    × (slab_free_local 512 16480 s' ≡ invalid_free)
slab_free_local_twice_example =
    slab_free_local_twice 512 16480 one_used (omega arith) (omega arith) refl refl (omega arith)
      refl
