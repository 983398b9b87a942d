-- ===== src/Entry/Sites.antt =====
-- The source position of an allocation in the debug build.
use sigma_malloc.Base.{
  ℕ, ◌≡◌, refl, ◌≢◌, inl, inr, true, Option, none, some, arith, ◌==◌, if◌then◌else◌, ==_ne,
  Bool-cases, eq_cases,
}
use sigma_malloc.Links.{Ptr, null}
use sigma_malloc.Header.{Site}
use sigma_malloc.Entry.{
  SigmaAllocator, Parts, Sigma, has_site, write_site, sigma_alloc, sigma_alloc_debug,
  allocation_info,
}

-- Writing a site is seen by reading it, and leaves the header.
pub record SiteLaws {S : Type 0} (x : Parts S) : Type 0 where
  pub reads : (type p : ℕ) (site : Site) (s : S) → x.site type (x.set_site type p site s) p ≡ site
  pub keeps :
      (type p : ℕ) (site : Site) (s : S) → x.header (x.set_site type p site s) p ≡ x.header s p

module _ {S : Type 0} (x : Parts S) (self : Ptr) (a : SigmaAllocator) (laws : SiteLaws x) where
  -- What `allocation_info` reads of an allocation whose type has a site.
  abbrev Reads : Site → Option (Ptr × Sigma S) → Type 0
  Reads site none = Unit
  Reads site (some (p, s)) =
      p ≢ null
      → has_site x true self a (x.header s.parts p).type ≡ true
      → allocation_info x true self a p s ≡ some (site, (x.header s.parts p).requested_size)

  write_site-Reads :
      (p : Ptr) (site : Site) (s : Sigma S)
      → p ≢ null
      → Reads site (some (p, write_site x true self a p site s))
  unfolding write_site allocation_info
  write_site-Reads p site s n =
      elim (Bool-cases (has_site x true self a (x.header s.parts p).type)) [
        | inl t ↦
            rw
              (
                t,
                laws.keeps (x.header s.parts p).type p site s.parts,
                ==_ne p null n,
                t,
                laws.reads (x.header s.parts p).type p site s.parts,
              )
              (λ _ _. refl)
        | inr t ↦ rw t (λ _ h. absurd (ground (arith, h, t)))
      ]

  sigma_alloc_debug-Reads :
      (size alignment : ℕ) (site : Site) (s : Sigma S)
      → Reads site (sigma_alloc_debug x true self a size alignment site s)
  unfolding sigma_alloc_debug
  sigma_alloc_debug-Reads size alignment site s = go (sigma_alloc x true self a size alignment s)
    where
      go :
          (r : Option (Ptr × Sigma S))
          → Reads site (elim r as (λ t. Option (Ptr × Sigma S)) [
            | none ↦ none
            | some (p, s1) ↦ some (p, if p == null then s1 else write_site x true self a p site s1)
          ])
      go none = tt
      go (some (p, s1)) = elim (eq_cases p null) [
        | inl z ↦ λ n. absurd (n z)
        | inr n ↦ rw (==_ne p null n) (write_site-Reads p site s1 n)
      ]

  -- In the debug build `sigma_debug_allocation_info` of an allocation reads back the source position that
  -- `sigma_alloc_debug` was called with, and the requested size of the header.
  pub allocation_info-sigma_alloc_debug :
      (size alignment : ℕ) (site : Site) (s s' : Sigma S) (p : Ptr)
      → sigma_alloc_debug x true self a size alignment site s ≡ some (p, s')
      → p ≢ null
      → has_site x true self a (x.header s'.parts p).type ≡ true
      → allocation_info x true self a p s' ≡ some (site, (x.header s'.parts p).requested_size)
  allocation_info-sigma_alloc_debug size alignment site s s' p e =
      rw e at (sigma_alloc_debug-Reads size alignment site s)
