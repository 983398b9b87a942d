-- ===== src/Zero/Tests.antt =====
-- `fill_zero` on each of its routes.
use sigma_malloc.Base.{◌+◌, true, none}
use sigma_malloc.Zero.{Bytes, Cpu, fill_zero}
use sigma_malloc.Zero.Range.{Zeroed}
use sigma_malloc.Zero.Fill.{fill_zero-Zeroed}

abbrev ones : Bytes
ones a = 1

abbrev new_cpu : Cpu
new_cpu = record { dispatch = true; has_avx2 = true }

fill_zero-Zeroed_example : Zeroed 24 (24 + 100) ones (fill_zero new_cpu none 24 100 ones).1
fill_zero-Zeroed_example = fill_zero-Zeroed new_cpu none 24 100 ones
