-- ===== src/Frames/Least.antt =====
-- On a sorted memory map `allocate_frame` of kernel/src/memory.rs misses no frame.
use r_os.Common.{
  ℕ, zero, suc, ◌+◌, ◌%◌, ◌≤◌, ◌<◌, ◌≡◌, refl, ap, ◌∙◌, inl, inr, true, false, ◌&&◌, Option, none,
  some, List, [], ◌∷◌, arith, dec_lt, ltb, leb, ltb→lt, Bool-cases, Option-cases, length, get_elem?,
  All,
}
use r_os.Common.Loops.{Whenever}
use r_os.Frames.{
  MemoryRegionKind, MemoryRegion, is_usable, frame_size, u64_mod, phys_limit, align_up, FrameIter,
  advance_to_usable, rounds, new, next, allocate_frame,
}
use r_os.Frames.Align.{align_up-least}
use r_os.Frames.Inv.{Fits, IsValid, get_elem?-lt, get_elem?-ge}
use r_os.Frames.Alloc.{IsFrame, Handed, allocate_frame-Handed}

-- Each region begins behind the end of those before it.
abbrev pub IsSorted : List MemoryRegion → Type 0
IsSorted [] = Unit
IsSorted (r ∷ rs) = All (λ (s : MemoryRegion). r.end ≤ s.start) rs × IsSorted rs

all_at :
    (P : MemoryRegion → Type 0) (rs : List MemoryRegion) (i : ℕ) (r : MemoryRegion)
    → All P rs
    → get_elem? rs i ≡ some r
    → P r
all_at P [] i r all e = absurd (ground (arith, e))
all_at P (s ∷ rs) zero r all e = let same : s ≡ r = cc in rw (← same) all.0
all_at P (s ∷ rs) (suc i) r all e = all_at P rs i r all.1 e

sorted_at :
    (rs : List MemoryRegion) (i j : ℕ) (r s : MemoryRegion)
    → IsSorted rs
    → i < j
    → get_elem? rs i ≡ some r
    → get_elem? rs j ≡ some s
    → r.end ≤ s.start
sorted_at [] i j r s o h e f = absurd (ground (arith, e))
sorted_at (t ∷ rs) zero zero r s o h e f = absurd (omega arith)
sorted_at (t ∷ rs) zero (suc j) r s o h e f =
    let same : t ≡ r = cc in
    rw (← same) (all_at (λ (u : MemoryRegion). t.end ≤ u.start) rs j s o.0 f)
sorted_at (t ∷ rs) (suc i) zero r s o h e f = absurd (omega arith)
sorted_at (t ∷ rs) (suc i) (suc j) r s o h e f = sorted_at rs i j r s o.1 (omega arith) e f

same_at :
    (rs : List MemoryRegion) (i j : ℕ) (r s : MemoryRegion)
    → i ≡ j
    → get_elem? rs i ≡ some r
    → get_elem? rs j ≡ some s
    → r ≡ s
same_at rs i j r s e f g = let f' : get_elem? rs j ≡ some r = rw (← e) f in cc

-- The frames of the map from `low` up are not behind the iterator.
abbrev pub Ahead : List MemoryRegion → ℕ → FrameIter → Type 0
Ahead regions low it =
    (addr : ℕ) (f : IsFrame regions addr)
    → low ≤ addr
    → (it.region_idx ≤ f.index) × (it.next_addr ≤ addr)

-- The frames from the iterator's address up are not in a region that it has left.
abbrev pub CaughtUp : FrameIter → Type 0
CaughtUp it =
    (addr : ℕ) (f : IsFrame it.regions addr) → it.next_addr ≤ addr → it.region_idx ≤ f.index

-- The frame is the lowest from `low` up; `none` only if there is none.
abbrev pub Lowest : List MemoryRegion → ℕ → Option ℕ → Type 0
Lowest regions low none = (addr : ℕ) → IsFrame regions addr → low ≤ addr → ⊥
Lowest regions low (some addr) = (addr' : ℕ) → IsFrame regions addr' → low ≤ addr' → addr ≤ addr'

module _ (regions : List MemoryRegion) (fits : Fits regions) (sorted : IsSorted regions)
    (low : ℕ) where
  -- A frame of a region is not below the region's first aligned address.
  in_region :
      (i : ℕ) (region : MemoryRegion) (addr : ℕ) (f : IsFrame regions addr)
      → get_elem? regions i ≡ some region
      → i ≡ f.index
      → (align_up region.start frame_size ≤ addr)
        × (addr + frame_size ≤ region.end)
        × (is_usable region.kind ≡ true)
  in_region i region addr f found e =
      let same = same_at regions i f.index region f.region e found f.found in
      let start : region.start ≡ f.region.start = ap (λ (r : MemoryRegion). r.start) same in
      let last : region.end ≡ f.region.end = ap (λ (r : MemoryRegion). r.end) same in
      let limits = fits.ends i region found in
      (
        omega (arith, align_up-least region.start (omega (arith, limits)), f.aligned, f.inside),
        omega (arith, f.inside),
        rw same f.usable,
      )

  abbrev IsOn : FrameIter → FrameIter → Type 0
  IsOn it it' = Ahead regions low it' × (it.next_addr ≤ it'.next_addr) × (it'.regions ≡ it.regions)

  advance-Ahead :
      (fuel : ℕ) (it : FrameIter)
      → it.regions ≡ regions
      → Ahead regions low it
      → Whenever (IsOn it) (advance_to_usable fuel it)
  unfolding advance_to_usable
  advance-Ahead zero it e ahead = tt
  advance-Ahead (suc fuel) it e ahead = elim (Option-cases (get_elem? it.regions it.region_idx)) [
    | inl done ↦ rw (done, advance_to_usable) (ahead, omega arith, refl)
    | inr (region, found) ↦
        let found' : get_elem? regions it.region_idx ≡ some region = rw e at found in
        let aligned_start : ℕ = align_up region.start frame_size in
        elim (Bool-cases (is_usable region.kind && ltb aligned_start region.end)) [
          | inl ok ↦
              rw (found, ok, advance_to_usable)
                (
                  (λ addr f h.
                      let at = ahead addr f h in
                      elim (dec_lt it.region_idx f.index) [
                        | yes before ↦
                            let apart =
                              sorted_at regions it.region_idx f.index region f.region sorted before
                                found' f.found in
                            let short : aligned_start < region.end = ground arith in
                            (at.0, omega (arith, at.1, f.inside))
                        | no here ↦ (
                          at.0,
                          omega (
                            arith,
                            at.1,
                            in_region it.region_idx region addr f found' (omega arith),
                          ),
                        )
                      ]),
                  omega arith,
                  refl,
                )
          | inr ko ↦
              rw (found, ko, advance_to_usable)
                (advance-Ahead fuel (record it { region_idx = it.region_idx + 1 }) e
                  (λ addr f h.
                    let at = ahead addr f h in
                    elim (dec_lt it.region_idx f.index) [
                      | yes before ↦ (omega arith, at.1)
                      | no here ↦
                          let inside = in_region it.region_idx region addr f found' (omega arith) in
                          absurd (left_out region.kind aligned_start region.end addr ko inside)
                    ]))
        ]
  ]
    where
      left_out :
          (kind : MemoryRegionKind) (start end addr : ℕ)
          → (is_usable kind && ltb start end) ≡ false
          → (start ≤ addr) × (addr + frame_size ≤ end) × (is_usable kind ≡ true)
          → ⊥
      left_out kind start end addr ko inside = ground arith

  -- What the lowest frame is, and what the iterator has left behind it.
  abbrev IsLowest : Option ℕ × FrameIter → Type 0
  IsLowest r =
      Lowest regions low r.0
      × ((addr : ℕ) (f : IsFrame regions addr) → r.1.next_addr ≤ addr → r.1.region_idx ≤ f.index)

  continued :
      (fuel : ℕ) (it : FrameIter) (o : Option FrameIter)
      → Whenever (IsOn it) o
      → ((it' : FrameIter) → IsOn it it' → Whenever IsLowest (next fuel it'))
      → Whenever IsLowest (elim o [ none ↦ none | some it' ↦ next fuel it' ])
  continued fuel it none on k = tt
  continued fuel it (some it') on k = k it' on

  next-Lowest :
      (fuel : ℕ) (it : FrameIter)
      → it.regions ≡ regions
      → Ahead regions low it
      → low ≤ it.next_addr
      → Whenever IsLowest (next fuel it)
  unfolding next
  next-Lowest zero it e ahead from = tt
  next-Lowest (suc fuel) it e ahead from =
      elim (Option-cases (get_elem? it.regions it.region_idx)) [
        | inl done ↦
            let end : length regions ≤ it.region_idx =
              rw e at (get_elem?-ge it.regions it.region_idx done) in
            rw (done, next)
              (
                (λ addr f h.
                    omega (arith, ahead addr f h, get_elem?-lt regions f.index f.region f.found)),
                (λ addr f h. (ahead addr f (omega arith)).0),
              )
        | inr (region, found) ↦
            let found' : get_elem? regions it.region_idx ≡ some region = rw e at found in
            elim (Bool-cases (leb ((it.next_addr + frame_size) % u64_mod) region.end)) [
              | inl ok ↦ elim (Bool-cases (ltb it.next_addr phys_limit)) [
                | inl physical ↦
                    let low_enough : it.next_addr < phys_limit =
                      ltb→lt it.next_addr phys_limit physical in
                    rw (found, ok, next)
                      (rw physical (
                        (λ addr f h. (ahead addr f h).1),
                        (λ addr f h. (ahead addr f (omega arith)).0),
                      ))
                | inr beyond ↦ rw (found, ok, next) (rw beyond tt)
              ]
              | inr ko ↦
                  rw (found, ko, next)
                    (continued fuel (record it { region_idx = it.region_idx + 1 })
                      (advance_to_usable (rounds it.regions)
                        (record it { region_idx = it.region_idx + 1 }))
                      (advance-Ahead (rounds it.regions)
                        (record it { region_idx = it.region_idx + 1 }) e
                        (λ addr f h.
                          let at = ahead addr f h in
                          elim (dec_lt it.region_idx f.index) [
                            | yes before ↦ (omega arith, at.1)
                            | no here ↦
                                let inside =
                                  in_region it.region_idx region addr f found' (omega arith) in
                                absurd (no_room it.next_addr region.end addr ko at.1 inside.1)
                          ]))
                      (λ it' on. next-Lowest fuel it' (on.2 ∙ e) on.0 (omega (arith, on.1))))
            ]
      ]
    where
      no_room :
          (a end addr : ℕ)
          → leb ((a + frame_size) % u64_mod) end ≡ false
          → a ≤ addr
          → addr + frame_size ≤ end
          → ⊥
      no_room a end addr ko h k = ground arith

-- On a valid iterator that has left no frame above its address, over a sorted map of which no
-- region ends in the last two pages of the address space and no usable one above the 52-bit physical
-- addresses, `allocate_frame` ends without a panic. It returns the lowest whole, aligned frame inside
-- a usable region from the iterator's address on, which goes behind the frame; or `none`, if there is
-- no such frame. The iterator stays valid, and leaves no frame.
pub allocate_frame-Lowest :
    (it : FrameIter)
    → Fits it.regions
    → IsSorted it.regions
    → IsValid it
    → CaughtUp it
    → (out : Option ℕ) × (it' : FrameIter) × (allocate_frame it ≡ some (out, it'))
      × Handed it.regions it.next_addr out it'
      × Lowest it.regions it.next_addr out
      × IsValid it'
      × CaughtUp it'
      × (it'.regions ≡ it.regions)
unfolding allocate_frame
allocate_frame-Lowest it fits sorted v caught =
    let (out, it', run, handed, valid, same) = allocate_frame-Handed it fits v in
    let l =
      next-Lowest it.regions fits sorted it.next_addr (rounds it.regions) it refl
        (λ addr f h. (caught addr f h, h)) (omega arith) in
    let r = rw run at l in (out, it', run, handed, r.0, valid, rw same r.1, same)

-- On a map with `Fits` the iterator that `new` builds has left no frame of a sorted map.
new-CaughtUp :
    (regions : List MemoryRegion)
    → Fits regions
    → IsSorted regions
    → Whenever (λ it. (addr : ℕ) (f : IsFrame regions addr) → it.region_idx ≤ f.index) (new regions)
unfolding new
new-CaughtUp regions fits sorted =
    started
      (advance_to_usable (rounds regions)
        (record { regions = regions; region_idx = 0; next_addr = 0 }))
      (advance-Ahead regions fits sorted 0 (rounds regions)
        (record { regions = regions; region_idx = 0; next_addr = 0 }) refl
        (λ addr f h. (omega arith, omega arith)))
  where
    started :
        (o : Option FrameIter)
        → Whenever
            (IsOn regions fits sorted 0
              (record { regions = regions; region_idx = 0; next_addr = 0 }))
            o
        → Whenever (λ it. (addr : ℕ) (f : IsFrame regions addr) → it.region_idx ≤ f.index) o
    started none h = tt
    started (some it) h = λ addr f. (h.0 addr f (omega arith)).0
