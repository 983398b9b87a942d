-- ===== src/Entry/Dispatch.antt =====
-- What `sigma_free` comes to: the function that its switch calls.
use sigma_malloc.Base.{◌≡◌, refl, ◌≢◌, inl, inr, Bool, false, Option, none, some, ==_ne, Bool-cases}
use sigma_malloc.Links.{Ptr, null}
use sigma_malloc.DebugFree.Laws.{forget_freed-check_double_free}
use sigma_malloc.Entry.{
  SigmaAllocator, Parts, Sigma, finish_alloc, note_free, dispatch, freed_before, sigma_free,
}

module _ {S : Type 0} (x : Parts S) (debug : Bool) (self : Ptr) (a : SigmaAllocator) where
  -- The state after a free that leaves the parts as `r` says.
  abbrev pub freeing : Ptr → Sigma S → Option S → Option (Sigma S)
  freeing p s none = none
  freeing p s (some r) = some (record (note_free x debug self a p s) { parts = r })

  note_free-parts : (p : Ptr) (s : Sigma S) → (note_free x debug self a p s).parts ≡ s.parts
  unfolding note_free
  note_free-parts p s = elim (Bool-cases debug) [ inl t ↦ rw t refl | inr t ↦ rw t refl ]

  -- A free that is not reported comes to what the switch calls.
  pub sigma_free-freeing :
      (p : Ptr) (s : Sigma S) (o : Option S)
      → p ≢ null
      → freed_before x debug self a p s ≡ false
      → dispatch x debug self a p s.parts ≡ o
      → sigma_free x debug self a p s ≡ freeing p s o
  unfolding sigma_free
  sigma_free-freeing p s o n f d = rw (==_ne p null n, f, note_free-parts p s, d) (lifted o)
    where
      lifted :
          (r : Option S)
          → (elim r as (λ t. Option (Sigma S)) [
            | none ↦ none
            | some t ↦ some (record (note_free x debug self a p s) { parts = t })
          ])
            ≡ freeing p s r
      lifted none = refl
      lifted (some t) = refl

  pub not_reported :
      (p : Ptr) (s : Sigma S)
      → p ≢ null
      → freed_before x debug self a p (finish_alloc x debug self a p s).1 ≡ false
  unfolding freed_before finish_alloc
  not_reported p s n = elim (Bool-cases debug) [
    | inl t ↦ rw (t, ==_ne p null n, forget_freed-check_double_free p s.ring) refl
    | inr t ↦ rw t refl
  ]
