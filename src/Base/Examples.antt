-- ===== src/Base/Examples.antt =====
-- The two bit tricks at concrete words.
use mathlib.Core.Path.{◌≡◌, refl}
use mathlib.Core.Logic.{◌↔◌}
use mathlib.Core.Bool.{true}
use native.Mathlib.Omega.{arith}
use sigma_malloc.Base.Word.{
  align_up, alignment_is_valid, IsAlignment, alignment_is_valid_iff, AlignedUp, align_up-AlignedUp,
}

alignment_is_valid_iff_example : (alignment_is_valid 48 ≡ true) ↔ IsAlignment 48
alignment_is_valid_iff_example = alignment_is_valid_iff 48 (omega arith)

align_up-AlignedUp_example : AlignedUp 100 64 (align_up 100 64)
align_up-AlignedUp_example = align_up-AlignedUp 100 64 (6, omega arith, refl) (omega arith)
