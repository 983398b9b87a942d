-- ===== src/Large/Sizes.antt =====
-- The sizes that `large_alloc` computes: when they are right, and when the rounding overflows.
use sigma_malloc.Base.{ℕ, ◌+◌, ◌-◌, ◌≤◌, ◌<◌, ◌≡◌, refl, ◌≢◌, true, false, arith}
use sigma_malloc.Base.Word.{
  word, IsAlignment, IsAlignment-lt-word, alignment_is_valid_iff, AlignedUp, align_up-AlignedUp,
  align_up_wraps,
}
use sigma_malloc.Links.{Ptr, null}
use sigma_malloc.Large.{large_header_size, large_page_size, total_size, aligned_size, rejects}

-- The conditions that the first test of `large_alloc` lets through.
pub record IsLargeRequest (self : Ptr) (size alignment : ℕ) : Type 0 where
  pub has_self : self ≢ null
  pub positive : 0 < size
  pub power_of_two : IsAlignment alignment
  pub no_overflow : size + large_header_size + (alignment - 1) < word

pub rejects-IsLargeRequest :
    (self : Ptr) (size alignment : ℕ)
    → IsLargeRequest self size alignment
    → rejects self true size alignment ≡ false
unfolding rejects
rejects-IsLargeRequest self size alignment q =
    let (pos, small) = IsAlignment-lt-word q.power_of_two in
    ground (arith, q, pos, (alignment_is_valid_iff alignment small).1 q.power_of_two)

page-IsAlignment : IsAlignment large_page_size
page-IsAlignment = (12, omega arith, refl)

-- Unless the rounding overflows, the backing holds whole pages and the total.
pub aligned_size-AlignedUp :
    (self size alignment : ℕ)
    → IsLargeRequest self size alignment
    → total_size size alignment + (large_page_size - 1) < word
    → AlignedUp (total_size size alignment) large_page_size (aligned_size size alignment)
aligned_size-AlignedUp self size alignment q fits =
    align_up-AlignedUp (total_size size alignment) large_page_size page-IsAlignment fits

-- The test does not leave room for the rounding: just below the limit that it sets, the size is 0.
pub aligned_size-zero :
    (self size alignment : ℕ)
    → IsLargeRequest self size alignment
    → word ≤ total_size size alignment + (large_page_size - 1)
    → aligned_size size alignment ≡ 0
aligned_size-zero self size alignment q over =
    let (pos, small) = IsAlignment-lt-word q.power_of_two in
    align_up_wraps (total_size size alignment) large_page_size (omega (arith, q.no_overflow))
      page-IsAlignment over
