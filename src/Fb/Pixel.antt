-- ===== src/Fb/Pixel.antt =====
-- One pixel of an RGB or BGR buffer.
use r_os.Common.{
  ℕ, ◌+◌, ◌≤◌, ◌<◌, ◌≡◌, ◌⊎◌, inl, inr, some, arith, leb, if◌then◌else◌, Bool-cases, length, get_or,
  set, length-set, get_or-set,
}
use r_os.Fb.{Buf, rgb, bgr, FrameBufferInfo, write_three}

-- The formats with a byte for each colour, and three or four bytes for a pixel.
pub record IsTrueColor (info : FrameBufferInfo) : Type 0 where
  pub format : (info.pixel_format ≡ rgb) ⊎ (info.pixel_format ≡ bgr)
  pub bytes : 3 ≤ info.bytes_per_pixel

-- What the three writes, and the fourth, leave in the buffer.
abbrev pub plot : ℕ → ℕ → ℕ → ℕ → ℕ → Buf → Buf
plot bpp offset c0 c1 c2 buf =
    let b = set (set (set buf offset c0) (offset + 1) c1) (offset + 2) c2 in
    if leb 4 bpp then set b (offset + 3) 0xff else b

ruleset sets = (get_or-set, length-set)

pub write_three_lem :
    (bpp offset c0 c1 c2 : ℕ) (buf : Buf)
    → 3 ≤ bpp
    → offset + bpp ≤ length buf
    → write_three bpp offset c0 c1 c2 buf ≡ some (plot bpp offset c0 c1 c2 buf)
unfolding write_three
write_three_lem bpp offset c0 c1 c2 buf h fits = ground (
  arith,
  length-set buf offset c0,
  length-set (set buf offset c0) (offset + 1) c1,
  length-set (set (set buf offset c0) (offset + 1) c1) (offset + 2) c2,
)

pub plot-same :
    (bpp offset c0 c1 c2 : ℕ) (buf : Buf)
    → 3 ≤ bpp
    → offset + bpp ≤ length buf
    → (get_or (plot bpp offset c0 c1 c2 buf) offset 0 ≡ c0)
      × (get_or (plot bpp offset c0 c1 c2 buf) (offset + 1) 0 ≡ c1)
      × (get_or (plot bpp offset c0 c1 c2 buf) (offset + 2) 0 ≡ c2)
plot-same bpp offset c0 c1 c2 buf h fits = elim (Bool-cases (leb 4 bpp)) [
  | inl four ↦
      rw four (simp sets (ground arith), simp sets (ground arith), simp sets (ground arith))
  | inr three ↦
      rw three (simp sets (ground arith), simp sets (ground arith), simp sets (ground arith))
]

pub plot-other :
    (bpp offset c0 c1 c2 : ℕ) (buf : Buf) (a : ℕ)
    → 3 ≤ bpp
    → (a < offset) ⊎ (offset + bpp ≤ a)
    → get_or (plot bpp offset c0 c1 c2 buf) a 0 ≡ get_or buf a 0
plot-other bpp offset c0 c1 c2 buf a h out = elim (Bool-cases (leb 4 bpp)) [
  | inl four ↦ rw four (simp sets (ground arith))
  | inr three ↦ rw three (simp sets (ground arith))
]

pub length-plot :
    (bpp offset c0 c1 c2 : ℕ) (buf : Buf) → length (plot bpp offset c0 c1 c2 buf) ≡ length buf
length-plot bpp offset c0 c1 c2 buf = elim (Bool-cases (leb 4 bpp)) [
  | inl four ↦ rw four (simp length-set)
  | inr three ↦ rw three (simp length-set)
]
