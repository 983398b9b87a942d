-- ===== src/Copy/Tests.antt =====
-- `sigma_libc_memset` and `sigma_memcpy` on a memory in which each byte holds its address.
use sigma_malloc.Base.{◌+◌, ◌-◌, ◌%◌, ◌≡◌, inl, arith, if◌then◌else◌}
use sigma_malloc.Zero.{Bytes, within}
use sigma_malloc.Copy.{memcpy}
use sigma_malloc.Copy.Laws.{memcpy_lem}

abbrev addresses : Bytes
addresses a = a % 256

memcpy_lem_example :
    memcpy 16 18 8 addresses 20
    ≡ (if within 16 (16 + 8) 20 then addresses (18 + (20 - 16)) else addresses 20)
memcpy_lem_example = memcpy_lem 16 18 8 addresses 20 (inl (omega arith))
