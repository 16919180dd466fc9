-- ===== src/Frames/Tests.antt =====
-- A small memory map, and the theorems of the frame allocator on it.
use r_os.Common.{
  ℕ, zero, suc, ◌+◌, ◌*◌, ◌≤◌, ◌≡◌, refl, true, Option, some, List, [], ◌∷◌, arith, get_elem?,
}
use r_os.Frames.{
  MemoryRegion, usable, bootloader, frame_size, u64_mod, phys_limit, is_usable, align_up, FrameIter,
  advance_to_usable, new, next, allocate_frame,
}
use r_os.Frames.Inv.{Fits, IsValid}
use r_os.Frames.Alloc.{allocate, Handed}
use r_os.Frames.Firsts.{Firsts, allocate-Firsts}
use r_os.Frames.Least.{IsSorted, CaughtUp, Lowest, allocate_frame-Lowest}

-- A region that begins off a page, one that is taken, one too small, and a last one.
abbrev regions : List MemoryRegion
regions =
    record { start = 0x1800; end = 0x4000; kind = usable }
    ∷ record { start = 0x4000; end = 0x8000; kind = bootloader }
    ∷ record { start = 0x8800; end = 0x8fff; kind = usable }
    ∷ record { start = 0x9000; end = 0xa000; kind = usable }
    ∷ []

abbrev fresh : FrameIter
fresh = record { regions = regions; region_idx = 0; next_addr = 0x2000 }

new-regions : new regions ≡ some fresh
unfolding new advance_to_usable align_up
new-regions = refl

allocate-regions : allocate 5 fresh ≡ some (0x2000 ∷ 0x3000 ∷ 0x9000 ∷ [])
unfolding allocate allocate_frame next advance_to_usable align_up
allocate-regions = refl

regions-Fits : Fits regions
regions-Fits = record { ends = ends }
  where
    ends :
        (i : ℕ) (region : MemoryRegion)
        → get_elem? regions i ≡ some region
        → (region.start ≤ region.end)
          × (region.end + 2 * frame_size ≤ u64_mod)
          × (is_usable region.kind ≡ true → region.end ≤ phys_limit)
    ends zero region e = ground arith
    ends (suc zero) region e = ground arith
    ends (suc (suc zero)) region e = ground arith
    ends (suc (suc (suc zero))) region e = ground arith
    ends (suc (suc (suc (suc i)))) region e = cc

fresh-IsValid : IsValid fresh
fresh-IsValid = record { aligned = omega arith; current = λ region e. ground arith }

regions-IsSorted : IsSorted regions
regions-IsSorted = (
  (omega arith, (omega arith, (omega arith, tt))),
  ((omega arith, (omega arith, tt)), ((omega arith, tt), (tt, tt))),
)

fresh-CaughtUp : CaughtUp fresh
fresh-CaughtUp addr f h = omega arith

allocate_frame-Lowest_example :
    (out : Option ℕ) × (it' : FrameIter) × (allocate_frame fresh ≡ some (out, it'))
    × Handed regions 0x2000 out it'
    × Lowest regions 0x2000 out
    × IsValid it'
    × CaughtUp it'
    × (it'.regions ≡ regions)
allocate_frame-Lowest_example =
    allocate_frame-Lowest fresh regions-Fits regions-IsSorted fresh-IsValid fresh-CaughtUp

allocate-Firsts_example :
    (addrs : List ℕ) × (allocate 5 fresh ≡ some addrs) × Firsts regions 0x2000 5 addrs
allocate-Firsts_example =
    allocate-Firsts 5 fresh regions-Fits regions-IsSorted fresh-IsValid fresh-CaughtUp
