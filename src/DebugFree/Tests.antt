-- ===== src/DebugFree/Tests.antt =====
-- The ring of freed pointers, with frees of 64, 80 and 96.
use sigma_malloc.Base.{◌≡◌, [], ◌∷◌, arith}
use sigma_malloc.Header.{no_site}
use sigma_malloc.DebugFree.{
  FreedRecord, passes, panics, empty_ring, forget_freed, check_double_free, record_free,
}
use sigma_malloc.DebugFree.Laws.{
  record_all, record_free-check_double_free, forget_freed-check_double_free, forget_freed-other,
}

record_free-check_double_free_example :
    (f : FreedRecord) × (check_double_free 64
        (record_all ((80, no_site) ∷ (96, no_site) ∷ []) (record_free 64 no_site empty_ring))
      ≡ panics f)
    × (f.ptr ≡ 64)
record_free-check_double_free_example =
    record_free-check_double_free 64 no_site ((80, no_site) ∷ (96, no_site) ∷ []) empty_ring
      (omega arith) (omega arith) (omega arith)

forget_freed-check_double_free_example :
    check_double_free 64 (forget_freed 64 (record_free 64 no_site empty_ring)) ≡ passes
forget_freed-check_double_free_example =
    forget_freed-check_double_free 64 (record_free 64 no_site empty_ring)

forget_freed-other_example :
    check_double_free 64 (forget_freed 80 (record_free 64 no_site empty_ring))
    ≡ check_double_free 64 (record_free 64 no_site empty_ring)
forget_freed-other_example =
    forget_freed-other 80 64 (record_free 64 no_site empty_ring) (omega arith) (omega arith)
