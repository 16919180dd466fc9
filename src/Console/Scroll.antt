-- ===== src/Console/Scroll.antt =====
-- `scroll_up` and the picture of the content.
use r_os.Common.{
  ℕ, ◌+◌, ◌-◌, ◌≤◌, ◌<◌, ◌≡◌, refl, ◌∙◌, ◌≢◌, Bool, false, ◌&&◌, not, arith, ltb, ◌==◌,
  if◌then◌else◌, length,
}
use r_os.Common.Loops.{Returns, Returns->>=}
use r_os.Fb.{Buf, Rect, FrameBufferInfo}
use r_os.Fb.Canvas.{IsCanvas, pixel_at, Painted}
use r_os.Fb.Paint.{between}
use r_os.Fb.Rects.{in_rect, fill_rect-Painted}
use r_os.Fb.Text.{font_height}
use r_os.Console.{copy_rows, Console, scroll_up, Color, black, fill_rect}
use r_os.Console.Copy.{OnScreen}
use r_os.Console.Rows.{Moved, copy_rows-Moved}

-- The three strips of the content: blanked, moved, and outside.
strip :
    (inside low last moved : Bool) (blank above same : Color)
    → last ≡ (inside && not low)
    → moved ≡ (inside && low)
    → (if last then blank else if moved then above else same)
      ≡ (if inside then (if low then above else blank) else same)
strip inside low last moved blank above same e f = ground arith

-- The picture has gone up by one text row, the last text row is black, and nothing outside the
-- content has changed.
pub record Scrolled (info : FrameBufferInfo) (content : Rect) (buf buf' : Buf) : Type 0 where
  pub canvas : IsCanvas info buf'
  pub same_length : length buf' ≡ length buf
  pub pixels :
      (px py : ℕ)
      → px < info.width
      → py < info.height
      → pixel_at info buf' px py ≡ (
          if in_rect content.x content.y content.width content.height px py
          then (if ltb (py + font_height) (content.y + content.height)
              then pixel_at info buf px (py + font_height)
              else black)
          else pixel_at info buf px py)

module _ (info : FrameBufferInfo) (con : Console) (on : OnScreen info con.content)
    (tall : font_height ≤ con.content.height) (buf : Buf) (v : IsCanvas info buf) where
  open con use {content}

  Moved-Scrolled :
      (b d : Buf)
      → Moved info content (content.height - font_height) buf b
      → Painted info
          (in_rect content.x (content.y + content.height - font_height) content.width font_height)
          black
          b
          d
      → Scrolled info content buf d
  Moved-Scrolled b d m p = record {
    canvas = p.canvas;
    same_length = p.same_length ∙ m.same_length;
    pixels = λ px py hx hy. p.pixels px py hx hy ∙ shape px py (m.pixels px py hx hy);
  }
    where
      shape :
          (px py : ℕ)
          → pixel_at info b px py ≡ (
              if between content.y (content.y + (content.height - font_height)) py
                && between content.x (content.x + content.width) px
              then pixel_at info buf px (py + font_height)
              else pixel_at info buf px py)
          → (if in_rect content.x
                (content.y + content.height - font_height)
                content.width
                font_height
                px
                py
              then black
              else pixel_at info b px py)
            ≡ (if in_rect content.x content.y content.width content.height px py
                then (if ltb (py + font_height) (content.y + content.height)
                    then pixel_at info buf px (py + font_height)
                    else black)
                else pixel_at info buf px py)
      shape px py e = rw e (
          strip (in_rect content.x content.y content.width content.height px py)
            (ltb (py + font_height) (content.y + content.height)) _ _ black
            (pixel_at info buf px (py + font_height)) (pixel_at info buf px py) (ground arith)
            (ground arith))

  -- On a canvas, for a console with rows whose content lies on the screen and is at least a text row
  -- high, `scroll_up` does not panic, moves the picture of the content up by one
  -- text row, blanks the last text row, changes no pixel outside, and puts the cursor in the last
  -- row.
  pub scroll_up-Scrolled :
      con.rows ≢ 0
      → Returns
          (λ p. (p.0 ≡ record con { row = con.rows - 1 }) × Scrolled info content buf p.1)
          (scroll_up info con buf)
  unfolding scroll_up
  scroll_up-Scrolled some_rows =
      let going : (con.rows == 0) ≡ false = ground arith in
      rw going (
        Returns->>= (Moved info content (content.height - font_height) buf) _
          (copy_rows info content (content.height - font_height) 0 buf) _
          (copy_rows-Moved info content on buf (content.height - font_height) 0 buf (omega arith)
            start)
          (λ b m.
            Returns->>=
              (Painted info
                (in_rect content.x (content.y + content.height - font_height) content.width
                  font_height)
                black b)
              _
              (fill_rect info content.x (content.y + content.height - font_height) content.width
                font_height black b)
              _
              (fill_rect-Painted info black content.x (content.y + content.height - font_height)
                content.width font_height b m.canvas)
              (λ d p. (refl, Moved-Scrolled b d m p))))
    where
      start : Moved info content 0 buf buf
      start = record { canvas = v; same_length = refl; pixels = λ px py hx hy. ground arith }
