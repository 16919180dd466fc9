-- ===== src/Console/Copy.antt =====
-- Rows of the content copied within the buffer, and the pixels that they hold.
use r_os.Common.{
  ℕ, ◌+◌, ◌-◌, ◌*◌, ◌≤◌, ◌<◌, ◌≡◌, refl, inl, inr, ◌&&◌, arith, ◌==◌, if◌then◌else◌, Bool-cases,
  length,
}
use r_os.Fb.{Buf, Rect, FrameBufferInfo, offset_of}
use r_os.Fb.Canvas.{IsCanvas, pixel_at}
use r_os.Fb.Paint.{between}
use r_os.Fb.Run.{run, run_pixels, length-run, run-IsCanvas}
use r_os.Fb.Run

-- A content area that lies on the screen.
pub record OnScreen (info : FrameBufferInfo) (content : Rect) : Type 0 where
  pub right : content.x + content.width ≤ info.width
  pub bottom : content.y + content.height ≤ info.height

module _ (info : FrameBufferInfo) (content : Rect) (on : OnScreen info content) (buf : Buf)
    (v : IsCanvas info buf) (sy dy : ℕ) (hs : sy < info.height) (hd : dy < info.height) where
  abbrev pub copied : Buf
  copied = run info info refl refl buf buf content.x sy content.x dy content.width v hd on.right

  -- A run of pixels from the content's left edge takes its bytes.
  pub run_fits :
      (y : ℕ)
      → y < info.height
      → offset_of info content.x y + content.width * info.bytes_per_pixel ≤ length buf
  run_fits y hy =
      Run.run_fits info info refl refl buf buf content.x sy content.x y content.width v hy on.right

  -- The row `dy` of the content shows what the row `sy` showed; no other pixel has changed.
  pub copied_pixels :
      (px py : ℕ)
      → px < info.width
      → pixel_at info copied px py ≡ (
          if py == dy && between content.x (content.x + content.width) px
          then pixel_at info buf px sy
          else pixel_at info buf px py)
  copied_pixels px py hx =
      let moved =
        run_pixels info info refl refl buf buf content.x sy content.x dy content.width v hd on.right
          px py hx in
      elim (Bool-cases (py == dy && between content.x (content.x + content.width) px)) [
        | inl here ↦
            let same : content.x + (px - content.x) ≡ px = ground arith in
            rw here (rw (here, same) at moved)
        | inr other ↦ rw other (rw other at moved)
      ]

  pub length-copied : length copied ≡ length buf
  length-copied =
      length-run info info refl refl buf buf content.x sy content.x dy content.width v hd on.right

  pub copied-IsCanvas : IsCanvas info copied
  copied-IsCanvas =
      run-IsCanvas info info refl refl buf buf content.x sy content.x dy content.width v hd on.right
