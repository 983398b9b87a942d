-- ===== src/Entry/Handle/Moves.antt =====
-- What the calls of the handle do to the memory.
use sigma_malloc.Base.{
  ℕ, ◌+◌, ◌*◌, ◌≤◌, ◌<◌, min, ◌≡◌, refl, ◌≢◌, ◌⊎◌, inl, inr, Bool, true, false, ◌&&◌, Option, none,
  some, arith, ◌==◌, ==_ne, Bool-cases, eq_cases,
}
use sigma_malloc.Base.Word.{word, mul_size}
use sigma_malloc.Links.{Ptr, null}
use sigma_malloc.Header.{type_large}
use sigma_malloc.Zero.{Cpu}
use sigma_malloc.Zero.Range.{Zeroed}
use sigma_malloc.Zero.Fill.{fill_zero-Zeroed}
use sigma_malloc.Vtable.{World, zero_bytes, overflows}
use sigma_malloc.Vtable.Laws.{overflows_iff}
use sigma_malloc.Entry.{
  SourceFlags, SigmaAllocator, Parts, Sigma, Result, sigma_alloc, allocation_info,
}
use sigma_malloc.Entry.Handle.{zeroed_source, clear_result, sigma_calloc, set_debug_info}

-- What a call of calloc comes to, when `got` is what the allocation of `count * size` bytes comes to and `zeroed`
-- what the source says.
pub data Calloc {T : Type 0} (x : Parts (World T)) (zeroed : Bool) (count size : ℕ)
    (s : Sigma (World T)) (got r : Result (World T)) : Type 0 where
  too_many : word ≤ count * size → r ≡ some (null, s) → Calloc x zeroed count size s got r
  ended : count * size < word → got ≡ none → r ≡ none → Calloc x zeroed count size s got r
  failed :
      (s1 : Sigma (World T))
      → count * size < word
      → got ≡ some (null, s1)
      → r ≡ some (null, s1)
      → Calloc x zeroed count size s got r
  trusted :
      (p : Ptr) (s1 : Sigma (World T))
      → count * size < word
      → p ≢ null
      → got ≡ some (p, s1)
      → zeroed ≡ true
      → (x.header s1.parts p).type ≡ type_large
      → r ≡ some (p, s1)
      → Calloc x zeroed count size s got r
  cleared :
      (p : Ptr) (s1 s' : Sigma (World T))
      → count * size < word
      → p ≢ null
      → got ≡ some (p, s1)
      → (zeroed ≡ false) ⊎ ((x.header s1.parts p).type ≢ type_large)
      → r ≡ some (p, s')
      → s'.ring ≡ s1.ring
      → s'.parts.own ≡ s1.parts.own
      → Zeroed p (p + count * size) s1.parts.bytes s'.parts.bytes
      → Calloc x zeroed count size s got r

module _ {T : Type 0} (x : Parts (World T)) (debug : Bool) (self : Ptr) (a : SigmaAllocator) where
  clear_result-Calloc :
      (cpu : Cpu) (f : SourceFlags) (count size : ℕ) (s : Sigma (World T)) (r : Result (World T))
      → a.source ≡ some f
      → count * size < word
      → Calloc x f.returns_zeroed_memory count size s r
          (clear_result x debug self a cpu (count * size) r)
  unfolding clear_result zeroed_source zero_bytes
  clear_result-Calloc cpu f count size s none h fits = ended fits refl refl
  clear_result-Calloc cpu f count size s (some (p, s1)) h fits = elim (eq_cases p null) [
    | inl z ↦ rw z (failed s1 fits refl refl)
    | inr n ↦
        elim (Bool-cases (f.returns_zeroed_memory && (x.header s1.parts p).type == type_large)) [
          | inl t ↦
              rw (==_ne p null n, h, t)
                (trusted p s1 fits n refl (ground (arith, t)) (ground (arith, t)) refl)
          | inr t ↦
              rw (==_ne p null n, h, t)
                (cleared p s1 _ fits n refl
                  (untrusted f.returns_zeroed_memory (x.header s1.parts p).type t) refl refl refl
                  (fill_zero-Zeroed cpu s1.parts.zero_impl p (count * size) s1.parts.bytes))
        ]
  ]
    where
      untrusted :
          (b : Bool) (type : ℕ)
          → (b && type == type_large) ≡ false
          → (b ≡ false) ⊎ (type ≢ type_large)
      untrusted false type t = inl refl
      untrusted true type t = inr (λ e. absurd (ground (arith, t, e)))

  -- For an allocator with a source, `sigma_calloc` either refuses a product that does not fit in a word, before any
  -- call, or it allocates exactly `count * size` bytes and passes a panic and NULL on. A large allocation from a
  -- source that says that it returns zeroed memory is returned as it is; in every other case exactly the
  -- `count * size` bytes of the object are cleared after the allocation, and no other byte.
  pub sigma_calloc-Calloc :
      (cpu : Cpu) (f : SourceFlags) (count size alignment : ℕ) (s : Sigma (World T))
      → a.source ≡ some f
      → Calloc x f.returns_zeroed_memory count size s
          (sigma_alloc x debug self a (count * size) alignment s)
          (sigma_calloc x debug self a cpu count size alignment s)
  unfolding sigma_calloc
  sigma_calloc-Calloc cpu f count size alignment s h = elim (Bool-cases (overflows count size)) [
    | inl o ↦ rw o (too_many (ground (arith, o, overflows_iff count size)) refl)
    | inr o ↦
        let fits : count * size < word = ground (arith, o, overflows_iff count size) in
        let c : mul_size count size ≡ count * size = omega arith in
        rw (o, c)
          (clear_result-Calloc cpu f count size s
            (sigma_alloc x debug self a (count * size) alignment s) h fits)
  ]

  -- The new block after a free, which may panic.
  abbrev pub giving : Ptr → Option (Sigma (World T)) → Result (World T)
  giving q none = none
  giving q (some s) = some (q, s)

  -- The state in which the old block is freed, less the copy: the debug information is at the new block.
  abbrev pub before_copy : (p q : Ptr) → Sigma (World T) → Sigma (World T) → Sigma (World T)
  before_copy p q s s1 = set_debug_info x debug self a (allocation_info x debug self a p s) q s1

  -- The least of the size in the header and the two sizes of the call.
  abbrev pub least : (p q old_size new_size : ℕ) → Sigma (World T) → Sigma (World T) → ℕ
  least p q old_size new_size s s1 =
      min (x.header (before_copy p q s s1).parts p).requested_size (min old_size new_size)
