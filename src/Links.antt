-- ===== src/Links.antt =====
-- The intrusive doubly linked lists: `list_push` and `list_remove` of src/buddy.c, `slab_push` and
-- `slab_remove` of src/slab.c. The `next` and `prev` fields of all nodes are two maps over
-- addresses; the head, which the code passes by address, is an argument and a result.
pub mod Chain
pub mod Laws
mod Tests
use sigma_malloc.Base.{
  ℕ, zero, suc, ◌+◌, ◌-◌, ◌*◌, ◌/◌, ◌%◌, ◌^◌, ◌≤◌, ◌<◌, min, ◌≡◌, refl, sym, ap, ◌∙◌, ◌≢◌, ◌↔◌, ◌⊎◌,
  inl, inr, Bool, true, false, not, ◌&&◌, ◌||◌, Option, none, some, List, [], ◌∷◌, ◌++◌, arith, ltb,
  leb, ◌==◌, if◌then◌else◌, ltb→lt, lt→ltb, leb→le, le→ltb, ==_iff, ==_refl, ==_ne, Bool-cases,
  order_cases, eq_cases, length, length-append, All, has, erase, Nodup, has-erase, has-erase-false,
  Nodup-erase,
}

abbrev pub Ptr : Type 0
Ptr = ℕ

abbrev pub null : Ptr
null = 0

pub record Links : Type 0 where
  pub next : Ptr → Ptr
  pub prev : Ptr → Ptr

abbrev pub update {ℓ} : {A : Type ℓ} → (ℕ → A) → ℕ → A → ℕ → A
update f p v q = if q == p then v else f q

abbrev pub set_next : Ptr → Ptr → Links → Links
set_next p v l = record l { next = update l.next p v }

abbrev pub set_prev : Ptr → Ptr → Links → Links
set_prev p v l = record l { prev = update l.prev p v }

-- `if (block->prev) block->prev->next = block->next;`
abbrev pub bypass_next : Ptr → Links → Links
bypass_next x l = if l.prev x == null then l else set_next (l.prev x) (l.next x) l

-- `if (block->next) block->next->prev = block->prev;`
abbrev pub bypass_prev : Ptr → Links → Links
bypass_prev x l = if l.next x == null then l else set_prev (l.next x) (l.prev x) l

unfoldable pub list_remove : Ptr → Ptr → Links → Ptr × Links
list_remove head x l =
    let l' = bypass_prev x (bypass_next x l) in
    (if head == x then l'.next x else head, set_prev x null (set_next x null l'))

unfoldable pub list_push : Ptr → Ptr → Links → Ptr × Links
list_push head x l =
    let l' = set_prev x null (set_next x head l) in
    (x, if head == null then l' else set_prev head x l')

unfoldable pub slab_push : Ptr → Ptr → Links → Ptr × Links
slab_push head x l =
    let l' = set_next x head (set_prev x null l) in
    (x, if head == null then l' else set_prev head x l')

unfoldable pub slab_remove : Ptr → Ptr → Links → Ptr × Links
slab_remove head x l =
    let l' = bypass_prev x (bypass_next x l) in
    (if head == x then l'.next x else head, set_next x null (set_prev x null l'))
