-- ===== src/Frames.antt =====
-- kernel/src/memory.rs: the boot-time frame allocator. Addresses are u64, with their wrap-around
-- written out.
pub mod Align
pub mod Inv
pub mod Alloc
pub mod Least
pub mod Firsts
mod Tests
use r_os.Common.{
  ℕ, zero, suc, ◌+◌, ◌-◌, ◌%◌, ◌^◌, max, Bool, true, false, ◌&&◌, Option, none, some, List, ltb,
  leb, if◌then◌else◌, length, get_elem?,
}
use Prim.Native.Nat.{bit_and}

-- The kinds of bootloader_api that the kernel names, and the rest of them.
pub data MemoryRegionKind : Type 0 where
  usable bootloader other : MemoryRegionKind
  unknown_bios unknown_uefi : ℕ → MemoryRegionKind

abbrev pub is_usable : MemoryRegionKind → Bool
is_usable usable = true
is_usable _ = false

pub record MemoryRegion : Type 0 where
  pub start : ℕ
  pub end : ℕ
  pub kind : MemoryRegionKind

abbrev pub u64_mod : ℕ
u64_mod = 2 ^ 64

abbrev pub add_u64 : ℕ → ℕ → ℕ
add_u64 a b = (a + b) % u64_mod

abbrev pub frame_size : ℕ
frame_size = 4096

-- `(addr + align - 1) & !(align - 1)`
unfoldable pub align_up : ℕ → ℕ → ℕ
align_up addr align = bit_and ((addr + align + u64_mod - 1) % u64_mod) (u64_mod - 1 - (align - 1))

-- UsableFrameIter
pub record FrameIter : Type 0 where
  pub regions : List MemoryRegion
  pub region_idx : ℕ
  pub next_addr : ℕ

-- The `while` of `advance_to_usable`, on fuel: `none` means that the fuel ran out.
unfoldable pub advance_to_usable : ℕ → FrameIter → Option FrameIter
advance_to_usable zero it = none
advance_to_usable (suc fuel) it = elim (get_elem? it.regions it.region_idx) [
  | none ↦ some it
  | some region ↦
      let rest = advance_to_usable fuel (record it { region_idx = it.region_idx + 1 }) in
      let aligned_start = align_up region.start frame_size in
      if is_usable region.kind && ltb aligned_start region.end
      then some (record it { next_addr = max it.next_addr aligned_start })
      else rest
]

-- One round for each region, and the last test.
abbrev pub rounds : List MemoryRegion → ℕ
rounds regions = length regions + 1

unfoldable pub new : List MemoryRegion → Option FrameIter
new regions =
    advance_to_usable (rounds regions) (record { regions = regions; region_idx = 0; next_addr = 0 })

-- `PhysAddr::new` of the crate x86_64 panics on an address with a bit above the 52nd set.
abbrev pub phys_limit : ℕ
phys_limit = 2 ^ 52

-- The `loop` of `next`. A frame is its first address. `none` is a panic, or the end of the fuel.
unfoldable pub next : ℕ → FrameIter → Option (Option ℕ × FrameIter)
next zero it = none
next (suc fuel) it = elim (get_elem? it.regions it.region_idx) [
  | none ↦ some (none, it)
  | some region ↦
      let skipped = record it { region_idx = it.region_idx + 1 } in
      let rest : Option (Option ℕ × FrameIter) =
        elim (advance_to_usable (rounds it.regions) skipped) [
          | none ↦ none
          | some it' ↦ next fuel it'
        ] in
      if leb (add_u64 it.next_addr frame_size) region.end
      then (if ltb it.next_addr phys_limit
          then some (some it.next_addr, record it { next_addr = add_u64 it.next_addr frame_size })
          else none)
      else rest
]

unfoldable pub allocate_frame : FrameIter → Option (Option ℕ × FrameIter)
allocate_frame it = next (rounds it.regions) it
