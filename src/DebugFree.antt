-- ===== src/DebugFree.antt =====
-- src/debug_free.c of the debug build: the ring of the last 8192 freed pointers, which finds a second
-- free of a pointer. The mutex around each operation makes it one step; it is not modelled further.
pub mod Laws
mod Tests
use sigma_malloc.Base.{
  ℕ, zero, suc, ◌+◌, ◌-◌, ◌*◌, ◌/◌, ◌%◌, ◌^◌, ◌≤◌, ◌<◌, min, ◌≡◌, refl, sym, ap, ◌∙◌, ◌≢◌, ◌↔◌, ◌⊎◌,
  inl, inr, Bool, true, false, not, ◌&&◌, ◌||◌, Option, none, some, List, [], ◌∷◌, ◌++◌, arith, ltb,
  leb, ◌==◌, if◌then◌else◌, ltb→lt, lt→ltb, leb→le, le→ltb, ==_iff, ==_refl, ==_ne, Bool-cases,
  order_cases, eq_cases, length, length-append, All, has, erase, Nodup, has-erase, has-erase-false,
  Nodup-erase,
}
use sigma_malloc.Links.{Ptr, null, update}
use sigma_malloc.Header.{Site, no_site}

-- SIGMA_FREED_RECORDS
abbrev pub freed_records : ℕ
freed_records = 8192

-- freed_record_t
pub record FreedRecord : Type 0 where
  pub ptr : Ptr
  pub site : Site

abbrev pub no_record : FreedRecord
no_record = record { ptr = null; site = no_site }

-- g_freed and g_freed_next
pub record FreedRing : Type 0 where
  pub records : ℕ → FreedRecord
  pub next : ℕ

-- The static variables at the start of the program.
abbrev pub empty_ring : FreedRing
empty_ring = record { records = λ i. no_record; next = 0 }

-- The first `n` rounds of the loop of `sigma_debug_forget_freed`.
pub forget_loop : ℕ → Ptr → (ℕ → FreedRecord) → ℕ → FreedRecord
forget_loop zero p g = g
forget_loop (suc n) p g =
    let rest = forget_loop n p g in if (rest n).ptr == p then update rest n no_record else rest

-- sigma_debug_forget_freed
pub forget_freed : Ptr → FreedRing → FreedRing
forget_freed p r = record r { records = forget_loop freed_records p r.records }

-- The search of `sigma_debug_check_double_free`, from index `i` on: what it leaves in `found`.
pub find_loop : (left i : ℕ) → Ptr → (ℕ → FreedRecord) → FreedRecord
find_loop zero i p g = no_record
find_loop (suc left) i p g =
    let rest = find_loop left (i + 1) p g in if (g i).ptr == p then g i else rest

-- What `sigma_debug_check_double_free` does: it returns false, or it panics and prints a record.
pub data Check : Type 0 where
  passes : Check
  panics : FreedRecord → Check

-- sigma_debug_check_double_free
pub check_double_free : Ptr → FreedRing → Check
check_double_free p r =
    let found = find_loop freed_records 0 p r.records in
    if found.ptr == null then passes else panics found

-- sigma_debug_record_free
pub record_free : Ptr → Site → FreedRing → FreedRing
record_free p s r = record {
  records = update r.records r.next (record { ptr = p; site = s });
  next = (r.next + 1) % freed_records;
}
