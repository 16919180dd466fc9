-- ===== src/Console/Rows.antt =====
-- The loop of `scroll_up` over the pixel rows of the content.
use r_os.Common.{
  ℕ, zero, suc, ◌+◌, ◌-◌, ◌*◌, ◌<◌, ◌≡◌, refl, sym, ap, ◌∙◌, subst, inl, inr, true, false, ◌&&◌,
  arith, ltb, leb, ◌==◌, if◌then◌else◌, Bool-cases, length,
}
use r_os.Common.Loops.{Returns, Returns->>=}
use r_os.Fb.{Buf, Rect, FrameBufferInfo, offset_of}
use r_os.Fb.Canvas.{IsCanvas, pixel_at}
use r_os.Fb.Paint.{between}
use r_os.Fb.Text.{font_height}
use r_os.Console.{copy_row, copy_rows}
use r_os.Console.Copy.{OnScreen, copied, copied_pixels, copied-IsCanvas, run_fits, length-copied}

-- After rounds up to row `k` of the content, the rows above show what stood a text row below.
pub record Moved (info : FrameBufferInfo) (content : Rect) (k : ℕ) (buf buf' : Buf) : Type 0 where
  pub canvas : IsCanvas info buf'
  pub same_length : length buf' ≡ length buf
  pub pixels :
      (px py : ℕ)
      → px < info.width
      → py < info.height
      → pixel_at info buf' px py ≡ (
          if between content.y (content.y + k) py
            && between content.x (content.x + content.width) px
          then pixel_at info buf px (py + font_height)
          else pixel_at info buf px py)

module _ (info : FrameBufferInfo) (content : Rect) (on : OnScreen info content) (orig : Buf) where
  copy_row-Moved :
      (k : ℕ) (buf : Buf)
      → k < content.height - font_height
      → Moved info content k orig buf
      → Returns (Moved info content (k + 1) orig) (copy_row info content k buf)
  unfolding copy_row
  copy_row-Moved k buf hk m = rw fits (record {
    canvas =
        copied-IsCanvas info content on buf m.canvas (content.y + k + font_height) (content.y + k)
          (omega (arith, on.bottom)) (omega (arith, on.bottom));
    same_length =
        length-copied info content on buf m.canvas (content.y + k + font_height) (content.y + k)
          (omega (arith, on.bottom)) (omega (arith, on.bottom))
        ∙ m.same_length;
    pixels = pixels;
  })
    where
      fits :
          (leb
              (offset_of info content.x (content.y + k + font_height)
                + content.width * info.bytes_per_pixel)
              (length buf)
            && leb
                (offset_of info content.x (content.y + k) + content.width * info.bytes_per_pixel)
                (length buf))
          ≡ true
      fits = ground (
        arith,
        run_fits info content on buf m.canvas (content.y + k + font_height) (content.y + k)
            (omega (arith, on.bottom)) (omega (arith, on.bottom)) (content.y + k + font_height)
            (omega (arith, on.bottom)),
        run_fits info content on buf m.canvas (content.y + k + font_height) (content.y + k)
            (omega (arith, on.bottom)) (omega (arith, on.bottom)) (content.y + k)
            (omega (arith, on.bottom)),
      )

      below : content.y + k + font_height < info.height
      below = omega (arith, on.bottom)

      here : content.y + k < info.height
      here = omega (arith, on.bottom)

      new : Buf
      new =
          copied info content on buf m.canvas (content.y + k + font_height) (content.y + k) below
            here

      copied_now :
          (px py : ℕ)
          → px < info.width
          → (py == content.y + k && between content.x (content.x + content.width) px) ≡ true
          → pixel_at info new px py ≡ pixel_at info buf px (content.y + k + font_height)
      copied_now px py hx now = rw now at (
          copied_pixels info content on buf m.canvas (content.y + k + font_height) (content.y + k)
            below here px py hx)

      copied_before :
          (px py : ℕ)
          → px < info.width
          → (py == content.y + k && between content.x (content.x + content.width) px) ≡ false
          → pixel_at info new px py ≡ pixel_at info buf px py
      copied_before px py hx before = rw before at (
          copied_pixels info content on buf m.canvas (content.y + k + font_height) (content.y + k)
            below here px py hx)

      pixels :
          (px py : ℕ)
          → px < info.width
          → py < info.height
          → pixel_at info
              (copied info content on buf m.canvas
                (content.y + k + font_height)
                (content.y + k)
                below
                here)
              px
              py
            ≡ (if between content.y (content.y + (k + 1)) py
                  && between content.x (content.x + content.width) px
                then pixel_at info orig px (py + font_height)
                else pixel_at info orig px py)
      pixels px py hx hy =
          elim (Bool-cases
            (py == content.y + k && between content.x (content.x + content.width) px)) [
              | inl now ↦
                  let at : py ≡ content.y + k = ground arith in
                  let moved : (between content.y (content.y + (k + 1)) py
                        && between content.x (content.x + content.width) px)
                      ≡ true =
                    ground arith in
                  let not_yet : (between content.y (content.y + k) (content.y + k + font_height)
                        && between content.x (content.x + content.width) px)
                      ≡ false =
                    ground arith in
                  copied_now px py hx now
                  ∙ rw not_yet at (m.pixels px (content.y + k + font_height) hx below)
                  ∙ rw moved (ap (λ (r : ℕ). pixel_at info orig px (r + font_height)) (sym at))
              | inr before ↦
                  let same : (between content.y (content.y + (k + 1)) py
                        && between content.x (content.x + content.width) px)
                      ≡ (between content.y (content.y + k) py
                          && between content.x (content.x + content.width) px) =
                    ground arith in
                  copied_before px py hx before ∙ m.pixels px py hx hy ∙ rw same refl
            ]

  -- The loop takes its `break` in no round, and copies every row that has a row below it.
  pub copy_rows-Moved :
      (n k : ℕ) (buf : Buf)
      → k + n ≡ content.height - font_height
      → Moved info content k orig buf
      → Returns
          (Moved info content (content.height - font_height) orig)
          (copy_rows info content n k buf)
  unfolding copy_rows
  copy_rows-Moved zero k buf e m =
      let e' : k ≡ content.height - font_height = omega arith in
      subst (λ j. Moved info content j orig buf) e' m
  copy_rows-Moved (suc n) k buf e m =
      let stays : ltb (content.y + content.height) (content.y + k + font_height + 1) ≡ false =
        ground arith in
      rw (stays, copy_rows)
        (Returns->>= (Moved info content (k + 1) orig)
          (Moved info content (content.height - font_height) orig) (copy_row info content k buf)
          (λ buf'. copy_rows info content n (k + 1) buf') (copy_row-Moved k buf (omega arith) m)
          (λ buf' m'. copy_rows-Moved n (k + 1) buf' (omega arith) m'))
