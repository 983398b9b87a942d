-- ===== src/Zero/Range.antt =====
-- Zeroing one range and nothing else.
use sigma_malloc.Base.{ℕ, ◌+◌, ◌*◌, ◌≤◌, ◌<◌, ◌≡◌, arith, if◌then◌else◌}
use sigma_malloc.Zero.{Bytes, within, store_zero, zero_small, store_four}

-- `m'` is `m` with zeros at the addresses from `lo` up to `hi`.
abbrev pub Zeroed : ℕ → ℕ → Bytes → Bytes → Type 0
Zeroed lo hi m m' = (a : ℕ) → m' a ≡ (if within lo hi a then 0 else m a)

pub zero_small-Zeroed : (p n : ℕ) (m : Bytes) → n < 16 → Zeroed p (p + n) m (zero_small p n m)
unfolding zero_small store_zero
zero_small-Zeroed p n m h a = ground arith

pub store_four-Zeroed : (w p : ℕ) (m : Bytes) → Zeroed p (p + 4 * w) m (store_four w p m)
unfolding store_four store_zero
store_four-Zeroed w p m a = ground arith

pub Zeroed-Zeroed :
    (lo mid hi : ℕ) (m n o : Bytes)
    → lo ≤ mid
    → mid ≤ hi
    → Zeroed lo mid m n
    → Zeroed mid hi n o
    → Zeroed lo hi m o
Zeroed-Zeroed lo mid hi m n o h k f g a = ground (arith, f a, g a)
