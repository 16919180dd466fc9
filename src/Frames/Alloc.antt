-- ===== src/Frames/Alloc.antt =====
-- What `next` and `allocate_frame` hand out.
use r_os.Common.{
  ℕ, zero, suc, ◌+◌, ◌-◌, ◌%◌, ◌≤◌, ◌<◌, ◌≡◌, refl, sym, ◌∙◌, subst, inl, inr, true, Option, none,
  some, List, [], ◌∷◌, arith, ltb, leb, lt→ltb, leb→le, Bool-cases, Option-cases, length, get_elem?,
}
use r_os.Frames.{
  MemoryRegion, is_usable, frame_size, u64_mod, phys_limit, FrameIter, rounds, next, allocate_frame,
}
use r_os.Frames.Inv.{Fits, IsValid, advance_lem, get_elem?-lt, get_elem?-ge}

-- The frame at an address is aligned and lies in a usable region of the map.
pub record IsFrame (regions : List MemoryRegion) (addr : ℕ) : Type 0 where
  pub aligned : addr % frame_size ≡ 0
  pub index : ℕ
  pub region : MemoryRegion
  pub found : get_elem? regions index ≡ some region
  pub usable : is_usable region.kind ≡ true
  pub inside : (region.start ≤ addr) × (addr + frame_size ≤ region.end)

-- What a call may return, from the address `low` on: a frame, going behind it, or `none` with all
-- regions used up.
abbrev pub Handed : List MemoryRegion → ℕ → Option ℕ → FrameIter → Type 0
Handed regions low none it' = length regions ≤ it'.region_idx
Handed regions low (some addr) it' =
    IsFrame regions addr × (low ≤ addr) × (it'.next_addr ≡ addr + frame_size)

Handed-mono :
    (regions : List MemoryRegion) (low low' : ℕ) (out : Option ℕ) (it : FrameIter)
    → low ≤ low'
    → Handed regions low' out it
    → Handed regions low out it
Handed-mono regions low low' none it h handed = handed
Handed-mono regions low low' (some addr) it h handed = (handed.0, omega arith, handed.2)

next_lem :
    (fuel : ℕ) (it : FrameIter) (regions : List MemoryRegion)
    → it.regions ≡ regions
    → Fits regions
    → IsValid it
    → length regions - it.region_idx < fuel
    → (out : Option ℕ) × (it' : FrameIter) × (next fuel it ≡ some (out, it'))
      × Handed regions it.next_addr out it'
      × IsValid it'
      × (it'.regions ≡ regions)
unfolding next
next_lem zero it regions e fits v h = absurd (omega arith)
next_lem (suc fuel) it regions e fits v h =
    elim (Option-cases (get_elem? it.regions it.region_idx)) [
      | inl done ↦
          (none, it, rw (done, next), rw e at (get_elem?-ge it.regions it.region_idx done), v, e)
      | inr (region, found) ↦
          let found' : get_elem? regions it.region_idx ≡ some region = rw e at found in
          let limits = fits.ends it.region_idx region found' in
          elim (Bool-cases (leb ((it.next_addr + frame_size) % u64_mod) region.end)) [
            | inl ok ↦
                let inside : it.next_addr + frame_size ≤ region.end =
                  omega (arith, leb→le _ _ ok, v.aligned) in
                let physical : ltb it.next_addr phys_limit ≡ true =
                  lt→ltb it.next_addr phys_limit
                    (omega (arith, limits.2 (v.current region found).0)) in
                (
                  some it.next_addr,
                  record it { next_addr = (it.next_addr + frame_size) % u64_mod },
                  rw (found, ok, next) (rw physical refl),
                  (
                    record {
                      aligned = v.aligned.0;
                      index = it.region_idx;
                      region = region;
                      found = found';
                      usable = (v.current region found).0;
                      inside = ((v.current region found).1, inside);
                    },
                    omega arith,
                    omega arith,
                  ),
                  record {
                    aligned = omega (arith, v.aligned);
                    current = λ region' other.
                        let now : (is_usable region'.kind ≡ true) × (region'.start ≤ it.next_addr) =
                          v.current region' other in
                        (now.0, omega arith);
                  },
                  e,
                )
            | inr ko ↦
                let (it1, run1, valid1, onwards) =
                  advance_lem (rounds it.regions) (record it { region_idx = it.region_idx + 1 })
                    (subst Fits (sym e) fits) v.aligned (omega arith) in
                let (out, it', run, handed, valid, same) =
                  next_lem fuel it1 regions (onwards.0 ∙ e) fits valid1
                    (omega (arith, get_elem?-lt regions it.region_idx region found')) in
                (
                  out,
                  it',
                  rw (found, ko, next, run1) run,
                  Handed-mono regions it.next_addr it1.next_addr out it' onwards.2 handed,
                  valid,
                  same,
                )
          ]
    ]

-- On a valid iterator, over a map of which no region ends in the last two pages of the
-- address space and no usable one above the physical addresses, `allocate_frame` ends. It returns a whole, aligned frame inside a usable region, not below the
-- iterator's address, which goes behind the frame; or `none`, with every region used up. The
-- iterator stays valid.
pub allocate_frame-Handed :
    (it : FrameIter)
    → Fits it.regions
    → IsValid it
    → (out : Option ℕ) × (it' : FrameIter) × (allocate_frame it ≡ some (out, it'))
      × Handed it.regions it.next_addr out it'
      × IsValid it'
      × (it'.regions ≡ it.regions)
unfolding allocate_frame
allocate_frame-Handed it fits v =
    next_lem (rounds it.regions) it it.regions refl fits v (omega arith)

-- A caller's first `n` frames, or as many as there are.
unfoldable pub allocate : ℕ → FrameIter → Option (List ℕ)
allocate zero it = some []
allocate (suc n) it = elim (allocate_frame it) [
  | none ↦ none
  | some (none, it') ↦ some []
  | some (some addr, it') ↦ elim (allocate n it') [ none ↦ none | some addrs ↦ some (addr ∷ addrs) ]
]
