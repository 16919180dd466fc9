-- ===== src/Frames/Inv.antt =====
-- The invariant of the frame iterator, and the loop of `advance_to_usable`.
use r_os.Common.{
  ℕ, zero, suc, ◌+◌, ◌-◌, ◌*◌, ◌%◌, ◌≤◌, ◌<◌, max, ◌≡◌, refl, inl, inr, true, ◌&&◌, none, some,
  List, [], ◌∷◌, arith, ltb, Bool-cases, Option-cases, length, get_elem?,
}
use r_os.Frames.{
  MemoryRegion, is_usable, frame_size, u64_mod, phys_limit, align_up, FrameIter, advance_to_usable,
  new, rounds,
}
use r_os.Frames.Align.{align_up-least, align_up-aligned}

-- A memory map of which no region ends before it begins or in the last two pages of the address
-- space, and no usable one ends above the physical addresses.
pub record Fits (regions : List MemoryRegion) : Type 0 where
  pub ends :
      (i : ℕ) (region : MemoryRegion)
      → get_elem? regions i ≡ some region
      → (region.start ≤ region.end)
        × (region.end + 2 * frame_size ≤ u64_mod)
        × (is_usable region.kind ≡ true → region.end ≤ phys_limit)

-- The next address is page-aligned, and no sum with it wraps.
abbrev pub IsAligned : FrameIter → Type 0
IsAligned it = (it.next_addr % frame_size ≡ 0) × (it.next_addr + 2 * frame_size ≤ u64_mod)

-- The current region, if there is one left, is usable and does not begin above the next address.
pub record IsValid (it : FrameIter) : Type 0 where
  pub aligned : IsAligned it
  pub current :
      (region : MemoryRegion)
      → get_elem? it.regions it.region_idx ≡ some region
      → (is_usable region.kind ≡ true) × (region.start ≤ it.next_addr)

-- What a step does not change or turn back.
abbrev pub Onwards : FrameIter → FrameIter → Type 0
Onwards it it' =
    (it'.regions ≡ it.regions) × (it.region_idx ≤ it'.region_idx) × (it.next_addr ≤ it'.next_addr)

pub get_elem?-lt {ℓ} :
    {A : Type ℓ} (xs : List A) (i : ℕ) (x : A) → get_elem? xs i ≡ some x → i < length xs
get_elem?-lt [] i x e = cc
get_elem?-lt (y ∷ ys) zero x e = omega arith
get_elem?-lt (y ∷ ys) (suc i) x e = omega (arith, get_elem?-lt ys i x e)

pub get_elem?-ge {ℓ} : {A : Type ℓ} (xs : List A) (i : ℕ) → get_elem? xs i ≡ none → length xs ≤ i
get_elem?-ge [] i e = omega arith
get_elem?-ge (y ∷ ys) zero e = cc
get_elem?-ge (y ∷ ys) (suc i) e = omega (arith, get_elem?-ge ys i e)

pub advance_lem :
    (fuel : ℕ) (it : FrameIter)
    → Fits it.regions
    → IsAligned it
    → length it.regions - it.region_idx < fuel
    → (it' : FrameIter) × (advance_to_usable fuel it ≡ some it') × IsValid it' × Onwards it it'
unfolding advance_to_usable
advance_lem zero it fits al h = absurd (omega arith)
advance_lem (suc fuel) it fits al h = elim (Option-cases (get_elem? it.regions it.region_idx)) [
  | inl done ↦ (
    it,
    rw (done, advance_to_usable),
    record { aligned = al; current = λ region found. cc },
    (refl, omega arith, omega arith),
  )
  | inr (region, found) ↦
      let aligned_start : ℕ = align_up region.start frame_size in
      elim (Bool-cases (is_usable region.kind && ltb aligned_start region.end)) [
        | inl ok ↦ (
          record it { next_addr = max it.next_addr aligned_start },
          rw (found, ok, advance_to_usable),
          record {
            aligned = ground (arith, align_up-aligned region.start, fits.ends it.region_idx region);
            current = λ region' found'.
                ground (arith, align_up-least region.start, fits.ends it.region_idx region);
          },
          (refl, omega arith, omega arith),
        )
        | inr ko ↦
            let (it', run, valid, onwards) =
              advance_lem fuel (record it { region_idx = it.region_idx + 1 }) fits al
                (omega (arith, get_elem?-lt it.regions it.region_idx region found)) in
            (it', rw (found, ko, advance_to_usable) run, valid, (onwards.0, omega arith, onwards.2))
      ]
]

-- On such a map building the iterator ends, in a valid state over that map.
new-IsValid :
    (regions : List MemoryRegion)
    → Fits regions
    → (it : FrameIter) × (new regions ≡ some it) × IsValid it × (it.regions ≡ regions)
unfolding new
new-IsValid regions fits =
    let (it, run, valid, onwards) =
      advance_lem (rounds regions) (record { regions = regions; region_idx = 0; next_addr = 0 })
        fits (omega arith) (omega arith) in
    (it, run, valid, onwards.0)
