-- ===== src/Regions.antt =====
-- The table of memory regions that the memory map window shows: its kinds in
-- kernel/src/framebuffer.rs, its collection in kernel_main of kernel/src/main.rs, and its storage in
-- kernel/src/memmap.rs. `none` is a panic of an index out of bounds.
pub mod Collect
mod Tests
use r_os.Common.{
  ℕ, ◌+◌, ◌*◌, min, true, false, Option, none, some, List, [], ◌∷◌, ◌++◌, ltb, leb, ◌==◌,
  if◌then◌else◌, length, set, take, drop, replicate,
}
use r_os.Common.Loops.{◌>>=◌}
use r_os.Fb.{Color}
use r_os.Frames.{MemoryRegionKind, MemoryRegion}

abbrev pub max_regions : ℕ
max_regions = 32

pub data MemRegionKind : Type 0 where
  usable reserved acpi_reclaimable acpi_nvs bad_memory bootloader heap frame_buffer : MemRegionKind

-- The text by which a kind is shown.
abbrev pub label : MemRegionKind → List ℕ
label usable = b'U' ∷ b's' ∷ b'a' ∷ b'b' ∷ b'l' ∷ b'e' ∷ []
label reserved = b'R' ∷ b'e' ∷ b's' ∷ b'e' ∷ b'r' ∷ b'v' ∷ b'e' ∷ b'd' ∷ []
label acpi_reclaimable =
    b'A' ∷ b'C' ∷ b'P' ∷ b'I' ∷ b' ' ∷ b'R' ∷ b'e' ∷ b'c' ∷ b'l' ∷ b'a' ∷ b'i' ∷ b'm' ∷ []
label acpi_nvs = b'A' ∷ b'C' ∷ b'P' ∷ b'I' ∷ b' ' ∷ b'N' ∷ b'V' ∷ b'S' ∷ []
label bad_memory = b'B' ∷ b'a' ∷ b'd' ∷ b' ' ∷ b'M' ∷ b'e' ∷ b'm' ∷ b'o' ∷ b'r' ∷ b'y' ∷ []
label bootloader = b'B' ∷ b'o' ∷ b'o' ∷ b't' ∷ b'l' ∷ b'o' ∷ b'a' ∷ b'd' ∷ b'e' ∷ b'r' ∷ []
label heap = b'H' ∷ b'e' ∷ b'a' ∷ b'p' ∷ []
label frame_buffer = b'F' ∷ b'r' ∷ b'a' ∷ b'm' ∷ b'e' ∷ b'B' ∷ b'u' ∷ b'f' ∷ b'f' ∷ b'e' ∷ b'r' ∷ []

-- The colour in which a kind is shown.
abbrev pub color : MemRegionKind → Color
color usable = record { r = 0x50; g = 0xc8; b = 0x78 }
color reserved = record { r = 0xe0; g = 0x6c; b = 0x5c }
color acpi_reclaimable = record { r = 0xe0; g = 0xa0; b = 0x50 }
color acpi_nvs = record { r = 0xd0; g = 0x80; b = 0x40 }
color bad_memory = record { r = 0xc0; g = 0x30; b = 0x30 }
color bootloader = record { r = 0x5c; g = 0x9c; b = 0xe0 }
color heap = record { r = 0xe0; g = 0xd0; b = 0x50 }
color frame_buffer = record { r = 0xb0; g = 0x70; b = 0xd0 }

unfoldable pub bios_e820_to_kind : ℕ → MemRegionKind
bios_e820_to_kind tag =
    if tag == 1
    then usable
    else if tag == 2
    then reserved
    else if tag == 3
    then acpi_reclaimable
    else if tag == 4
    then acpi_nvs
    else if tag == 5
    then bad_memory
    else reserved

unfoldable pub kind_of : MemoryRegionKind → MemRegionKind
kind_of MemoryRegionKind.usable = usable
kind_of MemoryRegionKind.bootloader = bootloader
kind_of (MemoryRegionKind.unknown_bios tag) = bios_e820_to_kind tag
kind_of (MemoryRegionKind.unknown_uefi tag) = reserved
kind_of MemoryRegionKind.other = reserved

pub record MemRegionInfo : Type 0 where
  pub start : ℕ
  pub end : ℕ
  pub kind : MemRegionKind

-- An array of regions and how many of its entries count.
pub record Table : Type 0 where
  pub regions : List MemRegionInfo
  pub count : ℕ

abbrev pub unset : MemRegionInfo
unset = record { start = 0; end = 0; kind = usable }

-- MEM_REGIONS before it is set, and `regions` and `count` of `kernel_main` at their start.
abbrev pub no_regions : Table
no_regions = record { regions = replicate max_regions unset; count = 0 }

-- `regions[count] = info; count += 1;`
unfoldable pub add : MemRegionInfo → Table → Option Table
add info t =
    if ltb t.count (length t.regions)
    then some (record { regions = set t.regions t.count info; count = t.count + 1 })
    else none

abbrev pub info_of : MemoryRegion → MemRegionInfo
info_of region = record { start = region.start; end = region.end; kind = kind_of region.kind }

-- The loop over the boot loader's regions, with its `break`.
unfoldable pub collect : List MemoryRegion → Table → Option Table
collect [] t = some t
collect (region ∷ rest) t = elim (leb 30 t.count) [
  | true ↦ some t
  | false ↦ add (info_of region) t >>= λ t'. collect rest t'
]

abbrev pub heap_info : MemRegionInfo
heap_info = record { start = 0x444444440000; end = 0x444444440000 + 8 * 1024 * 1024; kind = heap }

unfoldable pub add_heap : Table → Option Table
add_heap t = if ltb t.count 32 then add heap_info t else some t

-- `guard.0[..count].copy_from_slice(&regions[..count])`, with the length as `count`.
unfoldable pub set_memory_regions : List MemRegionInfo → Table → Table
set_memory_regions infos stored =
    let count = min (length infos) max_regions in
    record { regions = take count infos ++ drop count stored.regions; count = count }

-- The block of `kernel_main`: what is stored for the window.
unfoldable pub collect_regions : List MemoryRegion → Table → Option Table
collect_regions regions stored = collect regions no_regions >>= λ t.
    add_heap t >>= λ t'. some (set_memory_regions (take t'.count t'.regions) stored)
