-- ===== src/Buddy/Lists.antt =====
-- The free lists of a pool: which blocks they hold, and what the two list operations do to them.
use sigma_malloc.Base.{
  ℕ, ◌+◌, ◌≤◌, ◌<◌, ◌≡◌, refl, sym, ap, ◌∙◌, ◌≢◌, inl, inr, Bool, true, false, not, ◌&&◌, ◌||◌,
  List, ◌∷◌, arith, ◌==◌, ==_refl, ==_ne, Bool-cases, eq_cases, has, erase, Nodup, has-erase,
  Nodup-erase,
}
use mathlib.Core.Path.{subst}
use sigma_malloc.Base.Word.{word}
use sigma_malloc.Links.{Ptr, null, Links, update, list_push, list_remove}
use sigma_malloc.Links.Chain.{Chain, Chain-Agree, Chain-head}
use sigma_malloc.Links.Laws.{
  list_push-SameAt, list_push-Chain, list_remove-SameAt, list_remove-Chain,
}
use sigma_malloc.Buddy.{Buddy, NodeState, pool_size, mark, push_free, remove_free}
use sigma_malloc.Buddy.Tree.{Tree}
use sigma_malloc.Buddy.Layout.{top, addr, addr-injective, block_size_pos, leaf, leaves-Disjoint}

-- A set of blocks, by order and position.
abbrev pub Blocks : Type 0
Blocks = ℕ → ℕ → Bool

abbrev pub base : Buddy → Ptr
base b = b.pool.usable_start

abbrev pub at : Buddy → ℕ → ℕ → Ptr
at b = addr b.pool.usable_start

-- The free list of order `o` is well formed and holds the positions `lists o`, each once; together the
-- lists hold the blocks of `p`.
pub record HasLists (b : Buddy) (lists : ℕ → List ℕ) (p : Blocks) : Type 0 where
  pub usable : 0 < b.pool.usable_start
  pub fits : b.pool.usable_start + pool_size < word
  pub chains : (o : ℕ) → o ≤ top → Chain (at b o) b.mem.links null (b.pool.free_lists o) (lists o)
  pub nodup : (o : ℕ) → o ≤ top → Nodup (lists o)
  pub members : (o k : ℕ) → o ≤ top → has k (lists o) ≡ p o k

-- The headers in the two memories are the same.
abbrev pub SameHeaders : Buddy → Buddy → Type 0
SameHeaders b b' = (b'.mem.headers ≡ b.mem.headers) × (b'.mem.buddy_headers ≡ b.mem.buddy_headers)

-- The blocks of `p` are leaves of one tree.
abbrev pub AreLeaves : Tree → Blocks → Type 0
AreLeaves t p = (o k : ℕ) → o ≤ top → p o k ≡ true → leaf t o k ≡ true

-- Leaves of different orders start at different addresses.
pub leaves_apart :
    (t : Tree) (a o k o' j : ℕ)
    → o ≤ top
    → o' ≤ top
    → leaf t o k ≡ true
    → leaf t o' j ≡ true
    → o ≢ o'
    → addr a o k ≢ addr a o' j
leaves_apart t a o k o' j h h' x y ne e = elim (leaves-Disjoint t o k o' j h h' x y) [
  | inl same ↦ ne same.0
  | inr (inl d) ↦ omega (arith, block_size_pos o)
  | inr (inr d) ↦ omega (arith, block_size_pos o')
]

abbrev pub with_block : Blocks → ℕ → ℕ → Blocks
with_block p o k e j = p e j || (e == o && j == k)

abbrev pub without_block : Blocks → ℕ → ℕ → Blocks
without_block p o k e j = p e j && not (e == o && j == k)

pub mark-HasLists :
    (b : Buddy) (lists : ℕ → List ℕ) (p : Blocks) (n : ℕ) (s : NodeState)
    → HasLists b lists p
    → HasLists (mark n s b) lists p
unfolding mark
mark-HasLists b lists p n s v = record {
  usable = v.usable;
  fits = v.fits;
  chains = v.chains;
  nodup = v.nodup;
  members = v.members;
}

pub HasLists-eq :
    (b : Buddy) (lists : ℕ → List ℕ) (p q : Blocks)
    → ((o k : ℕ) → o ≤ top → p o k ≡ q o k)
    → HasLists b lists p
    → HasLists b lists q
HasLists-eq b lists p q same v = record {
  usable = v.usable;
  fits = v.fits;
  chains = v.chains;
  nodup = v.nodup;
  members = λ o k h. v.members o k h ∙ same o k h;
}

module _ (b : Buddy) (lists : ℕ → List ℕ) (p : Blocks) (v : HasLists b lists p) where
  at-ne-null : (o k : ℕ) → at b o k ≢ null
  at-ne-null o k e = absurd (omega (arith, v.usable))

  -- The head of a list is NULL or a block of the set.
  pub head_cases :
      (o : ℕ)
      → o ≤ top
      → b.pool.free_lists o ≢ null
      → (k : ℕ) × (b.pool.free_lists o ≡ at b o k) × (p o k ≡ true)
  head_cases o h ne =
      let (k, e, m) =
        Chain-head (at b o) b.mem.links null (b.pool.free_lists o) (lists o) (v.chains o h) ne in
      (k, e, sym (v.members o k h) ∙ m)

  module _ (o k : ℕ) (h : o ≤ top) where
    pub push_free-HasLists :
        (t : Tree)
        → AreLeaves t p
        → leaf t o k ≡ true
        → p o k ≡ false
        → HasLists (push_free o (at b o k) b) (update lists o (k ∷ lists o)) (with_block p o k)
    unfolding push_free
    push_free-HasLists t leaves new out = record {
      usable = v.usable;
      fits = v.fits;
      chains = chain;
      nodup = λ i l. elim (Bool-cases (i == o)) [
        | inl same ↦ rw same (v.members o k h ∙ out, v.nodup o h)
        | inr other ↦ rw other (v.nodup i l)
      ];
      members = λ i j l. elim (Bool-cases (i == o)) [
        | inl same ↦
            let e : i ≡ o = ground arith in
            rw (same, ap (λ n. p n j) e) (ground (arith, v.members o j h))
        | inr other ↦ rw other (v.members i j l ∙ ground arith)
      ];
    }
      where
        head : Ptr
        head = b.pool.free_lists o

        links : Links
        links = (list_push head (at b o k) b.mem.links).1

        apart : (i : ℕ) → i ≤ top → i ≢ o → (j : ℕ) → p i j ≡ true → at b i j ≢ at b o k
        apart i l ne j m = leaves_apart t (base b) i j o k l h (leaves i j l m) new ne

        apart_head : (i : ℕ) → i ≤ top → i ≢ o → (j : ℕ) → p i j ≡ true → at b i j ≢ head
        apart_head i l ne j m e =
            let (k', f, m') = head_cases o h (λ z. at-ne-null i j (e ∙ z)) in
            leaves_apart t (base b) i j o k' l h (leaves i j l m) (leaves o k' h m') ne (e ∙ f)

        others :
            (i : ℕ) → i ≤ top → i ≢ o → Chain (at b i) links null (b.pool.free_lists i) (lists i)
        others i l ne =
            Chain-Agree (at b i) b.mem.links links null (b.pool.free_lists i) (lists i)
              (λ j m.
                let m' : p i j ≡ true = sym (v.members i j l) ∙ m in
                let s =
                  list_push-SameAt (at b o) (addr-injective (base b) o) head k b.mem.links
                    (at b i j) (apart i l ne j m') (apart_head i l ne j m') in
                (s.next, s.prev))
              (v.chains i l)

        own : Chain (at b o) links null (list_push head (at b o k) b.mem.links).0 (k ∷ lists o)
        own =
            list_push-Chain (at b o) (addr-injective (base b) o) b.mem.links head k (lists o)
              (at-ne-null o k) (v.nodup o h) (v.members o k h ∙ out) (v.chains o h)

        chain :
            (i : ℕ)
            → i ≤ top
            → Chain
                (at b i)
                links
                null
                (update b.pool.free_lists o (list_push head (at b o k) b.mem.links).0 i)
                (update lists o (k ∷ lists o) i)
        chain i l = elim (eq_cases i o) [
          | inl e ↦
              subst
                (λ n.
                  Chain (at b n) links null
                    (update b.pool.free_lists o (list_push head (at b o k) b.mem.links).0 n)
                    (update lists o (k ∷ lists o) n))
                (sym e) (rw (==_refl o) own)
          | inr ne ↦ rw (==_ne i o ne) (others i l ne)
        ]

    pub remove_free-HasLists :
        (t : Tree)
        → AreLeaves t p
        → p o k ≡ true
        → HasLists
            (remove_free o (at b o k) b)
            (update lists o (erase k (lists o)))
            (without_block p o k)
    unfolding remove_free
    remove_free-HasLists t leaves mem = record {
      usable = v.usable;
      fits = v.fits;
      chains = chain;
      nodup = λ i l. elim (Bool-cases (i == o)) [
        | inl same ↦ rw same (Nodup-erase k (lists o) (v.nodup o h))
        | inr other ↦ rw other (v.nodup i l)
      ];
      members = λ i j l. elim (Bool-cases (i == o)) [
        | inl same ↦
            let e : i ≡ o = ground arith in
            rw (same, has-erase k j (lists o) (v.nodup o h), v.members o j h, ap (λ n. p n j) e)
              refl
        | inr other ↦ rw other (v.members i j l ∙ ground arith)
      ];
    }
      where
        head : Ptr
        head = b.pool.free_lists o

        links : Links
        links = (list_remove head (at b o k) b.mem.links).1

        inj : (i j : ℕ) → at b o i ≡ at b o j → i ≡ j
        inj = addr-injective (base b) o

        k_mem : has k (lists o) ≡ true
        k_mem = v.members o k h ∙ mem

        others :
            (i : ℕ) → i ≤ top → i ≢ o → Chain (at b i) links null (b.pool.free_lists i) (lists i)
        others i l ne =
            Chain-Agree (at b i) b.mem.links links null (b.pool.free_lists i) (lists i)
              (λ j m.
                let m' : p i j ≡ true = sym (v.members i j l) ∙ m in
                let s =
                  list_remove-SameAt (at b o) inj b.mem.links head k (lists o) (at b i j) k_mem
                    (at-ne-null i j) (v.chains o h)
                    (λ n q.
                      leaves_apart t (base b) i j o n l h (leaves i j l m')
                        (leaves o n h (sym (v.members o n h) ∙ q)) ne) in
                (s.next, s.prev))
              (v.chains i l)

        own :
            Chain
              (at b o)
              links
              null
              (list_remove head (at b o k) b.mem.links).0
              (erase k (lists o))
        own =
            list_remove-Chain (at b o) inj b.mem.links head k (lists o) (v.nodup o h) k_mem
              (λ j m. at-ne-null o j) (v.chains o h)

        chain :
            (i : ℕ)
            → i ≤ top
            → Chain
                (at b i)
                links
                null
                (update b.pool.free_lists o (list_remove head (at b o k) b.mem.links).0 i)
                (update lists o (erase k (lists o)) i)
        chain i l = elim (eq_cases i o) [
          | inl e ↦
              subst
                (λ n.
                  Chain (at b n) links null
                    (update b.pool.free_lists o (list_remove head (at b o k) b.mem.links).0 n)
                    (update lists o (erase k (lists o)) n))
                (sym e) (rw (==_refl o) own)
          | inr ne ↦ rw (==_ne i o ne) (others i l ne)
        ]
