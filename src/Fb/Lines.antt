-- ===== src/Fb/Lines.antt =====
-- A line of text against a region that contains its rows.
use r_os.Common.{ℕ, ◌+◌, ◌≡◌, Bool, false, List, [], ◌∷◌, arith}
use r_os.Common.Loops.{Returns-imp}
use r_os.Fb.{Color, FrameBufferInfo, saturating_add}
use r_os.Fb.Paint.{between}
use r_os.Fb.Rects.{in_rect}
use r_os.Fb.Text.{Font, font_width, font_height, draw_char_at, draw_text}
use r_os.Fb.Within.{Kept-refl, Kept-mono, DrawsIn, DrawsIn->>=, draw_char_at-Kept}

module _ (font : Font) (info : FrameBufferInfo) (region : ℕ → ℕ → Bool) (y : ℕ) (c : Color)
    (rows : (px py : ℕ) → region px py ≡ false → between y (y + font_height) py ≡ false) where
  draw_char_at-DrawsIn : (x char : ℕ) → DrawsIn info region (draw_char_at font info x y char c)
  draw_char_at-DrawsIn x char buf v =
      Returns-imp _ _ (draw_char_at font info x y char c buf)
        (λ b k.
          Kept-mono info (in_rect x y font_width font_height) region buf b
            (λ px py out. ground (arith, rows px py out)) k)
        (draw_char_at-Kept font info x y c char buf v)

  pub draw_text-DrawsIn :
      (x : ℕ) (text : List ℕ) → DrawsIn info region (draw_text font info x y text c)
  unfolding draw_text
  draw_text-DrawsIn x [] = λ buf v. Kept-refl info region buf v
  draw_text-DrawsIn x (char ∷ text) =
      DrawsIn->>= info region (draw_char_at font info x y char c)
        (draw_text font info (saturating_add x font_width) y text c) (draw_char_at-DrawsIn x char)
        (draw_text-DrawsIn (saturating_add x font_width) text)
