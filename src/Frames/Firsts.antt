-- ===== src/Frames/Firsts.antt =====
-- The frames that the calls of `allocate_frame` of kernel/src/memory.rs hand out, one after the other.
use r_os.Common.{ℕ, zero, suc, ◌+◌, ◌≤◌, ◌≡◌, refl, sym, subst, Option, none, some, List, [], ◌∷◌}
use r_os.Frames.{MemoryRegion, frame_size, FrameIter, allocate_frame}
use r_os.Frames.Inv.{Fits, IsValid}
use r_os.Frames.Alloc.{IsFrame, Handed, allocate}
use r_os.Frames.Least.{IsSorted, CaughtUp, Lowest, allocate_frame-Lowest}

-- The first `n` frames of the map from `low` up, or all of them if there are fewer: each is the
-- lowest behind the one before.
abbrev pub Firsts : List MemoryRegion → ℕ → ℕ → List ℕ → Type 0
Firsts regions low zero addrs = addrs ≡ []
Firsts regions low (suc n) [] = Lowest regions low none
Firsts regions low (suc n) (addr ∷ addrs) =
    IsFrame regions addr
    × (low ≤ addr)
    × Lowest regions low (some addr)
    × Firsts regions (addr + frame_size) n addrs

abbrev Allocated : ℕ → FrameIter → Type 0
Allocated n it =
    (addrs : List ℕ) × (allocate n it ≡ some addrs) × Firsts it.regions it.next_addr n addrs

allocate-one :
    (n : ℕ) (it it' : FrameIter) (out : Option ℕ)
    → allocate_frame it ≡ some (out, it')
    → Handed it.regions it.next_addr out it'
    → Lowest it.regions it.next_addr out
    → it'.regions ≡ it.regions
    → Allocated n it'
    → Allocated (suc n) it
unfolding allocate
allocate-one n it it' none run handed lowest same rest = ([], rw (run, allocate), lowest)
allocate-one n it it' (some addr) run handed lowest same (addrs, eq, firsts) = (
  addr ∷ addrs,
  rw (run, allocate) (rw eq refl),
  (
    handed.0,
    handed.1,
    lowest,
    subst (λ low. Firsts it.regions low n addrs) handed.2
        (subst (λ rs. Firsts rs it'.next_addr n addrs) same firsts),
  ),
)

-- On a valid iterator that has left no frame above its address, over a sorted map of which no
-- region ends in the last two pages of the address space and no usable one above the 52-bit physical
-- addresses, the calls end without a panic however many frames are asked for. They hand out the
-- lowest frames of the usable memory, each wholly above the one before, so that none is handed out
-- twice; and fewer than are asked for only if there are no more.
pub allocate-Firsts :
    (n : ℕ) (it : FrameIter)
    → Fits it.regions
    → IsSorted it.regions
    → IsValid it
    → CaughtUp it
    → (addrs : List ℕ) × (allocate n it ≡ some addrs) × Firsts it.regions it.next_addr n addrs
unfolding allocate
allocate-Firsts zero it fits sorted v caught = ([], refl, refl)
allocate-Firsts (suc n) it fits sorted v caught =
    let (out, it', run, handed, lowest, valid, caught', same) =
      allocate_frame-Lowest it fits sorted v caught in
    allocate-one n it it' out run handed lowest same (
      allocate-Firsts n it' (subst Fits (sym same) fits) (subst IsSorted (sym same) sorted) valid
        caught')
