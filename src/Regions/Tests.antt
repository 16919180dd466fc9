-- ===== src/Regions/Tests.antt =====
-- A memory map of two regions.
use r_os.Common.{◌≡◌, List, [], ◌∷◌, ◌++◌, map, take}
use r_os.Common.Loops.{Returns}
use r_os.Frames.{MemoryRegionKind, MemoryRegion}
use r_os.Regions.{heap_info, info_of, no_regions, collect_regions}
use r_os.Regions.Collect.{entries, collect_regions-entries}

abbrev regions : List MemoryRegion
regions =
    record { start = 0; end = 0x9fc00; kind = MemoryRegionKind.usable }
    ∷ record { start = 0xf0000; end = 0x100000; kind = MemoryRegionKind.unknown_bios 3 }
    ∷ []

collect_regions-entries_example :
    Returns
      (λ t. entries t ≡ map info_of (take 30 regions) ++ (heap_info ∷ []))
      (collect_regions regions no_regions)
collect_regions-entries_example = collect_regions-entries regions no_regions
