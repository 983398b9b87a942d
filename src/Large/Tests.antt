-- ===== src/Large/Tests.antt =====
-- An allocator that has a source with memory at 1048576, and an arena that hands out objects of 64 bytes.
use sigma_malloc.Base.{ℕ, ◌+◌, ◌*◌, ◌≡◌, refl, ◌≢◌, true, [], arith, ltb, if◌then◌else◌}
use sigma_malloc.Base.Word.{word, IsAlignment, alignment_is_valid, align_up}
use sigma_malloc.Header.{no_site}
use sigma_malloc.Links.{Ptr, null}
use sigma_malloc.Large.{
  Larges, Supply, gone, large_page_size, aligned_size, large_alloc, large_free, rejects, with_arena,
  fill_in, list_node,
}
use sigma_malloc.Large.Sizes.{IsLargeRequest}
use sigma_malloc.Large.Chains.{IsLargeList}
use sigma_malloc.Large.Alloc.{GivesMemory, GivesFresh, LargeOutcome, large_alloc-Outcome}
use sigma_malloc.Large.Free.{large_free-large_alloc}

-- The state counts the objects.
abbrev supply : Supply ℕ
supply = record {
  source_alloc = λ size alignment e. if ltb (1048576 + size) word then (1048576, e) else (null, e);
  source_free = λ p size e. e;
  get_arena = λ e. (500, e);
  arena_alloc = λ arena size alignment e. (64 * (e + 1), e + 1);
  free_object = λ p e. e;
}

supply-GivesMemory : GivesMemory supply
supply-GivesMemory size alignment e = ground arith

supply-GivesFresh : GivesFresh supply []
supply-GivesFresh arena size alignment e = refl

abbrev none_yet : Larges
none_yet = record {
  head = null;
  links = record { next = λ p. 0; prev = λ p. 0 };
  nodes = λ p. record { backing = 0; backing_size = 0; allocator = 0; user = 0 };
  metas = λ p. record { node = 0; site = no_site };
  meta_of = λ p. 0;
  headers = λ p. record { magic = 0; type = 0; requested_size = 0; alignment = 0 };
}

none_yet-IsLargeList : IsLargeList none_yet.links none_yet.head []
none_yet-IsLargeList = record { chain = refl; nodup = tt; not_null = λ k h. absurd (ground arith) }

align_64 : IsAlignment 64
align_64 = (6, omega arith, refl)

IsLargeRequest-5000 : IsLargeRequest 1000 5000 64
IsLargeRequest-5000 = record {
  has_self = omega arith;
  positive = omega arith;
  power_of_two = align_64;
  no_overflow = omega arith;
}

abbrev given : Ptr × Larges × ℕ
given = large_alloc supply true 1000 true 5000 64 none_yet 0

large_alloc-Outcome_example : LargeOutcome supply true 1000 5000 64 [] none_yet 0 given
large_alloc-Outcome_example =
    large_alloc-Outcome supply true 1000 5000 64 [] none_yet IsLargeRequest-5000 (omega arith)
      none_yet-IsLargeList supply-GivesMemory supply-GivesFresh 0

given_user : given.0 ≢ null
unfolding large_alloc rejects with_arena fill_in list_node alignment_is_valid align_up
given_user = λ e. omega arith

large_free-large_alloc_example :
    (s' : Larges) × (node meta : Ptr) × (large_free supply true 1000 given.0 given.1 given.2
      ≡ gone s' (
          supply.source_free
            (supply.source_alloc (aligned_size 5000 64) large_page_size 0).0
            (aligned_size 5000 64)
            (supply.free_object node (supply.free_object meta given.2))))
    × IsLargeList s'.links s'.head []
large_free-large_alloc_example =
    large_free-large_alloc supply true 1000 5000 64 [] none_yet 0 IsLargeRequest-5000 (omega arith)
      none_yet-IsLargeList supply-GivesMemory supply-GivesFresh given_user
