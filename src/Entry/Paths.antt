-- ===== src/Entry/Paths.antt =====
-- What `sigma_free` does with what `sigma_alloc` has just handed out.
use sigma_malloc.Base.{◌≡◌, ◌≢◌, Bool, false, Option, none, some}
use sigma_malloc.Links.{Ptr, null}
use sigma_malloc.Entry.{SigmaAllocator, Parts, Sigma, sigma_free, freed_before, dispatch}
use sigma_malloc.Entry.Dispatch.{freeing}

module _ {S : Type 0} (x : Parts S) (debug : Bool) (self : Ptr) (a : SigmaAllocator) where
  -- A pointer that a call gives is not among the freed ones, and a free of it comes to what the switch does.
  abbrev Fresh : Option (Ptr × Sigma S) → Type 0
  Fresh none = Unit
  Fresh (some (p, s)) =
      p ≢ null
      → (freed_before x debug self a p s ≡ false)
        × (sigma_free x debug self a p s
            ≡ freeing x debug self a p s (dispatch x debug self a p s.parts))
