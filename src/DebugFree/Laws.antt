-- ===== src/DebugFree/Laws.antt =====
-- A freed pointer is found until it is handed out again or 8192 other frees have followed.
use sigma_malloc.Base.{
  ℕ, zero, suc, ◌+◌, ◌%◌, ◌≤◌, ◌<◌, ◌≡◌, refl, sym, ap, ◌∙◌, ◌≢◌, ◌⊎◌, inl, inr, true, false, ◌&&◌,
  List, [], ◌∷◌, arith, ltb, ◌==◌, if◌then◌else◌, lt→ltb, ==_refl, ==_ne, Bool-cases, eq_cases,
  length,
}
use sigma_malloc.Links.{Ptr, null}
use sigma_malloc.Header.{Site}
use sigma_malloc.DebugFree.{
  FreedRecord, FreedRing, passes, panics, no_record, freed_records, forget_loop, forget_freed,
  find_loop, check_double_free, record_free,
}

-- A slot after the loop has passed it, or not yet.
forget_slot :
    (n : ℕ) (p : Ptr) (g : ℕ → FreedRecord) (i : ℕ)
    → forget_loop n p g i ≡ (if ltb i n && ((g i).ptr == p) then no_record else g i)
unfolding forget_loop
forget_slot zero p g i = ground arith
forget_slot (suc n) p g i =
    let here : forget_loop n p g n ≡ g n = forget_slot n p g n ∙ ground arith in
    elim (Bool-cases ((g n).ptr == p)) [
      | inl t ↦
          rw (here, t)
            (elim (eq_cases i n) [
              | inl e ↦ rw (e, t) (ground arith)
              | inr ne ↦ rw (==_ne i n ne) (forget_slot n p g i ∙ ground (arith, ne))
            ])
      | inr f ↦
          rw (here, f)
            (elim (eq_cases i n) [
              | inl e ↦ rw (e, f) (here ∙ ground arith)
              | inr ne ↦ forget_slot n p g i ∙ ground (arith, ne)
            ])
    ]

-- The search finds no pointer but the one it is for.
find_ptr :
    (n i : ℕ) (p : Ptr) (g : ℕ → FreedRecord)
    → (find_loop n i p g ≡ no_record) ⊎ ((find_loop n i p g).ptr ≡ p)
unfolding find_loop
find_ptr zero i p g = inl refl
find_ptr (suc n) i p g = elim (Bool-cases ((g i).ptr == p)) [
  | inl e ↦ rw e (inr (ground arith))
  | inr e ↦ rw e (find_ptr n (i + 1) p g)
]

-- It finds one that is in the part it searches.
find_present :
    (n i j : ℕ) (p : Ptr) (g : ℕ → FreedRecord)
    → i ≤ j
    → j < i + n
    → (g j).ptr ≡ p
    → (find_loop n i p g).ptr ≡ p
unfolding find_loop
find_present zero i j p g h l e = absurd (omega arith)
find_present (suc n) i j p g h l e = elim (Bool-cases ((g i).ptr == p)) [
  | inl q ↦ rw q (ground arith)
  | inr q ↦
      let ne : i ≢ j = λ same. absurd (ground (arith, ap (λ n. (g n).ptr) same)) in
      rw q (find_present n (i + 1) j p g (omega arith) (omega arith) e)
]

find_absent :
    (n i : ℕ) (p : Ptr) (g : ℕ → FreedRecord)
    → ((j : ℕ) → i ≤ j → j < i + n → (g j).ptr ≢ p)
    → find_loop n i p g ≡ no_record
unfolding find_loop
find_absent zero i p g h = refl
find_absent (suc n) i p g h =
    rw (==_ne (g i).ptr p (h i (omega arith) (omega arith)))
      (find_absent n (i + 1) p g (λ j a b. h j (omega arith) (omega arith)))

forget_hit :
    (p : Ptr) (g : ℕ → FreedRecord) (j : ℕ)
    → (ltb j freed_records && ((g j).ptr == p)) ≡ true
    → forget_loop freed_records p g j ≡ no_record
forget_hit p g j t = rw (forget_slot freed_records p g j, t) refl

forget_miss :
    (p : Ptr) (g : ℕ → FreedRecord) (j : ℕ)
    → (ltb j freed_records && ((g j).ptr == p)) ≡ false
    → forget_loop freed_records p g j ≡ g j
forget_miss p g j t = rw (forget_slot freed_records p g j, t) refl

forgotten :
    (p : Ptr) (g : ℕ → FreedRecord) (j : ℕ)
    → p ≢ null
    → j < freed_records
    → (forget_loop freed_records p g j).ptr ≢ p
forgotten p g j ne l e = elim (Bool-cases ((g j).ptr == p)) [
  | inl t ↦
      let c = forget_hit p g j (rw (lt→ltb j freed_records l, t) refl) in
      ne (sym e ∙ ap (λ (x : FreedRecord). x.ptr) c)
  | inr t ↦
      let c = forget_miss p g j (rw (lt→ltb j freed_records l, t) refl) in
      absurd (ground (arith, ap (λ (x : FreedRecord). x.ptr) c, e, t))
]

-- After `sigma_debug_forget_freed`, as for a block that is handed out again, no free of the pointer is
-- reported, whatever the ring holds.
pub forget_freed-check_double_free :
    (p : Ptr) (r : FreedRing) → check_double_free p (forget_freed p r) ≡ passes
unfolding check_double_free forget_freed
forget_freed-check_double_free p r =
    let g = forget_loop freed_records p r.records in
    elim (eq_cases p null) [
      | inl z ↦ elim (find_ptr freed_records 0 p g) [ inl e ↦ rw e refl | inr e ↦ rw (e ∙ z) refl ]
      | inr n ↦ rw (find_absent freed_records 0 p g (λ j a b e. forgotten p r.records j n b e)) refl
    ]

-- The pointers of a list are freed one after the other.
abbrev pub record_all : List (Ptr × Site) → FreedRing → FreedRing
record_all [] r = r
record_all (x ∷ xs) r = record_all xs (record_free (x.0) (x.1) r)

-- The slot of a pointer, while the ring writes others.
slot_kept :
    (xs : List (Ptr × Site)) (i d : ℕ) (p : Ptr) (r : FreedRing)
    → i < freed_records
    → r.next ≡ (i + 1 + d) % freed_records
    → d + length xs < freed_records
    → (r.records i).ptr ≡ p
    → ((record_all xs r).records i).ptr ≡ p
unfolding record_free
slot_kept [] i d p r h n l e = e
slot_kept (x ∷ xs) i d p r h n l e =
    slot_kept xs i (d + 1) p (record_free (x.0) (x.1) r) h (omega arith) (omega arith)
      (let ne : i ≢ r.next = omega arith in rw (==_ne i r.next ne) e)

-- A pointer that has been freed is reported when it is freed again, if it has not been forgotten and
-- fewer than 8192 other frees came between: the ring holds that many records.
pub record_free-check_double_free :
    (p : Ptr) (s : Site) (xs : List (Ptr × Site)) (r : FreedRing)
    → p ≢ null
    → r.next < freed_records
    → length xs < freed_records
    → (f : FreedRecord) × (check_double_free p (record_all xs (record_free p s r)) ≡ panics f)
      × (f.ptr ≡ p)
unfolding check_double_free record_free
record_free-check_double_free p s xs r ne h l =
    let r' = record_free p s r in
    let kept : ((record_all xs r').records r.next).ptr ≡ p =
      slot_kept xs r.next 0 p r' h (ap (λ n. n % freed_records) (omega arith)) (omega arith)
        (rw ==_refl refl) in
    let found =
      find_present freed_records 0 r.next p (record_all xs r').records (omega arith) h kept in
    (
      find_loop freed_records 0 p (record_all xs r').records,
      rw (found, ==_ne p null ne) refl,
      found,
    )

find_agree :
    (n i : ℕ) (q : Ptr) (g g' : ℕ → FreedRecord)
    → ((j : ℕ) → j < i + n → (g' j ≡ g j) ⊎ ((g j).ptr ≢ q) × ((g' j).ptr ≢ q))
    → find_loop n i q g' ≡ find_loop n i q g
unfolding find_loop
find_agree zero i q g g' h = refl
find_agree (suc n) i q g g' h =
    let ih = find_agree n (i + 1) q g g' (λ j l. h j (omega arith)) in
    elim (h i (omega arith)) [
      | inl same ↦ rw (same, ih) refl
      | inr (a, b) ↦ rw (==_ne (g i).ptr q a, ==_ne (g' i).ptr q b) ih
    ]

other_slot :
    (p q : Ptr) (g : ℕ → FreedRecord) (j : ℕ)
    → q ≢ p
    → q ≢ null
    → (forget_loop freed_records p g j ≡ g j)
      ⊎ ((g j).ptr ≢ q) × ((forget_loop freed_records p g j).ptr ≢ q)
other_slot p q g j ne pos = elim (Bool-cases (ltb j freed_records && ((g j).ptr == p))) [
  | inl t ↦
      let c = ap (λ (x : FreedRecord). x.ptr) (forget_hit p g j t) in
      inr (λ e. ground (arith, t, e, ne), λ e. pos (sym e ∙ c))
  | inr t ↦ inl (forget_miss p g j t)
]

-- Forgetting a pointer changes nothing for another one.
pub forget_freed-other :
    (p q : Ptr) (r : FreedRing)
    → q ≢ p
    → q ≢ null
    → check_double_free q (forget_freed p r) ≡ check_double_free q r
unfolding check_double_free forget_freed
forget_freed-other p q r ne pos =
    let same =
      find_agree freed_records 0 q r.records (forget_loop freed_records p r.records)
        (λ j l. other_slot p q r.records j ne pos) in
    rw same refl
