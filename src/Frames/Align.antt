-- ===== src/Frames/Align.antt =====
-- `align_up` at the frame size.
use r_os.Common.{ℕ, ◌+◌, ◌-◌, ◌%◌, ◌≤◌, ◌<◌, ◌≡◌, arith}
use r_os.Common.Bits.{bit_and-page}
use r_os.Frames.{u64_mod, frame_size, align_up}

-- For an address at least a page below the end of the address space `align_up` returns the least multiple of 4096 that is
-- not below the address.
pub align_up-least :
    (addr : ℕ)
    → addr + frame_size ≤ u64_mod
    → (align_up addr frame_size % frame_size ≡ 0)
      × (addr ≤ align_up addr frame_size)
      × (align_up addr frame_size < addr + frame_size)
unfolding align_up
align_up-least addr h = omega (arith, bit_and-page ((addr + frame_size + u64_mod - 1) % u64_mod))

-- Whatever the address, the result is a multiple of 4096 below the end of the address space.
pub align_up-aligned :
    (addr : ℕ) → (align_up addr frame_size % frame_size ≡ 0) × (align_up addr frame_size < u64_mod)
unfolding align_up
align_up-aligned addr = omega (arith, bit_and-page ((addr + frame_size + u64_mod - 1) % u64_mod))
