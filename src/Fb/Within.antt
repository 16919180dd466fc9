-- ===== src/Fb/Within.antt =====
-- Steps that draw nothing outside a region, whatever they draw inside.
use r_os.Common.{
  ℕ, ◌+◌, ◌-◌, ◌*◌, ◌^◌, ◌≤◌, ◌<◌, ◌≡◌, refl, ap₂, ◌∙◌, inl, inr, Bool, true, false, ◌&&◌, Option,
  none, some, List, [], ◌∷◌, arith, ◌==◌, Bool-cases, length,
}
use r_os.Common.Loops.{for_range_inv, Returns, Returns->>=, Returns-imp, ◌>>=◌}
use Prim.Native.Nat.{bit_and}
use r_os.Fb.{Buf, Color, FrameBufferInfo, for_in, put_pixel}
use r_os.Fb.Canvas.{IsCanvas, Painted, pixel_at}
use r_os.Fb.Paint.{Paints, Paints-put_pixel}
use r_os.Fb.Rects.{in_rect}
use r_os.Fb.Text.{
  Font, font_scale_x, font_scale_y, font_width, font_height, or_question, glyph_of, draw_bit,
  draw_rows, draw_char_at,
}

-- The pixels outside the region are as they were.
pub record Kept (info : FrameBufferInfo) (region : ℕ → ℕ → Bool) (buf buf' : Buf) : Type 0 where
  pub canvas : IsCanvas info buf'
  pub same_length : length buf' ≡ length buf
  pub outside :
      (x y : ℕ)
      → x < info.width
      → y < info.height
      → region x y ≡ false
      → pixel_at info buf' x y ≡ pixel_at info buf x y

pub Kept-mono :
    (info : FrameBufferInfo) (small large : ℕ → ℕ → Bool) (a b : Buf)
    → ((x y : ℕ) → large x y ≡ false → small x y ≡ false)
    → Kept info small a b
    → Kept info large a b
Kept-mono info small large a b inside k = record {
  canvas = k.canvas;
  same_length = k.same_length;
  outside = λ x y hx hy out. k.outside x y hx hy (inside x y out);
}

module _ (info : FrameBufferInfo) (region : ℕ → ℕ → Bool) where
  pub Kept-refl : (buf : Buf) → IsCanvas info buf → Kept info region buf buf
  Kept-refl buf v = record { canvas = v; same_length = refl; outside = λ x y hx hy out. refl }

  pub Kept-trans :
      (a b d : Buf) → Kept info region a b → Kept info region b d → Kept info region a d
  Kept-trans a b d p q = record {
    canvas = q.canvas;
    same_length = q.same_length ∙ p.same_length;
    outside = λ x y hx hy out. q.outside x y hx hy out ∙ p.outside x y hx hy out;
  }

  pub Kept-Painted :
      (c : Color) (painted : ℕ → ℕ → Bool) (a b : Buf)
      → ((x y : ℕ) → x < info.width → y < info.height → region x y ≡ false → painted x y ≡ false)
      → Painted info painted c a b
      → Kept info region a b
  Kept-Painted c painted a b inside p = record {
    canvas = p.canvas;
    same_length = p.same_length;
    outside = λ x y hx hy out. p.pixels x y hx hy ∙ rw (inside x y hx hy out);
  }

  -- On any canvas the step returns, and draws only in the region.
  abbrev pub DrawsIn : (Buf → Option Buf) → Type 0
  DrawsIn step = (buf : Buf) → IsCanvas info buf → Returns (Kept info region buf) (step buf)

  pub DrawsIn-Paints :
      (c : Color) (painted : ℕ → ℕ → Bool) (step : Buf → Option Buf)
      → ((x y : ℕ) → x < info.width → y < info.height → region x y ≡ false → painted x y ≡ false)
      → Paints info c painted step
      → DrawsIn step
  DrawsIn-Paints c painted step inside p buf v =
      Returns-imp _ _ (step buf) (λ b pb. Kept-Painted c painted buf b inside pb) (p buf v)

  pub DrawsIn->>= :
      (s1 s2 : Buf → Option Buf) → DrawsIn s1 → DrawsIn s2 → DrawsIn (λ buf. s1 buf >>= s2)
  DrawsIn->>= s1 s2 p q buf v =
      Returns->>= (Kept info region buf) _ (s1 buf) s2 (p buf v)
        (λ b pb. Returns-imp _ _ (s2 b) (λ d pd. Kept-trans buf b d pb pd) (q b pb.canvas))

  pub DrawsIn-loop :
      (a b : ℕ) (body : ℕ → Buf → Option Buf)
      → ((k : ℕ) → a ≤ k → k < b → DrawsIn (body k))
      → DrawsIn (for_in a b body)
  DrawsIn-loop a b body draws buf v =
      for_range_inv (λ k. Kept info region buf) body (b - a) a (a + (b - a)) buf refl
        (λ k s lo hi p.
          Returns-imp _ _ (body k s) (λ d pd. Kept-trans buf s d p pd)
            (draws k lo (omega arith) s p.canvas))
        (Kept-refl buf v)

  pub DrawsIn-put_pixel : (x y : ℕ) (c : Color) → region x y ≡ true → DrawsIn (put_pixel info x y c)
  DrawsIn-put_pixel x y c at =
      DrawsIn-Paints c (λ px py. px == x && py == y) (put_pixel info x y c)
        (λ px py hx hy out. elim (Bool-cases (px == x && py == y)) [
          | inl same ↦
              let here : (px ≡ x) × (py ≡ y) = ground arith in
              let at' : region px py ≡ true = ap₂ region here.0 here.1 ∙ at in cc
          | inr other ↦ other
        ])
        (Paints-put_pixel info c x y)

module _ (font : Font) (info : FrameBufferInfo) (x0 y0 : ℕ) (c : Color) where
  abbrev cell : ℕ → ℕ → Bool
  cell = in_rect x0 y0 font_width font_height

  draw_bit-DrawsIn :
      (gly_x gly_y byte : ℕ)
      → gly_x < 8
      → gly_y < 8
      → DrawsIn info cell (draw_bit font info x0 y0 gly_x gly_y byte c)
  unfolding draw_bit
  draw_bit-DrawsIn gly_x gly_y byte hx hy buf v =
      elim (Bool-cases (bit_and byte (2 ^ gly_x) == 0)) [
        | inl off ↦ rw off (Kept-refl info cell buf v)
        | inr on ↦ rw on (
            DrawsIn-loop info cell 0 font_scale_y _
              (λ sy lo hi. DrawsIn-loop info cell 0 font_scale_x _ (λ sx lo' hi'.
                DrawsIn-put_pixel info cell (x0 + gly_x * font_scale_x + sx)
                  (y0 + gly_y * font_scale_y + sy) c (ground arith)))
              buf v)
      ]

  draw_rows-DrawsIn :
      (glyph : List ℕ) (gly_y : ℕ)
      → gly_y + length glyph ≤ 8
      → DrawsIn info cell (draw_rows font info x0 y0 gly_y glyph c)
  unfolding draw_rows
  draw_rows-DrawsIn [] gly_y h = λ buf v. Kept-refl info cell buf v
  draw_rows-DrawsIn (byte ∷ rest) gly_y h =
      DrawsIn->>= info cell _ (draw_rows font info x0 y0 (gly_y + 1) rest c)
        (DrawsIn-loop info cell 0 8 _
          (λ gly_x lo hi. draw_bit-DrawsIn gly_x gly_y byte hi (omega arith)))
        (draw_rows-DrawsIn rest (gly_y + 1) (omega arith))

  length-or_question :
      (char : ℕ) (found : Option (List ℕ))
      → font.get char ≡ found
      → length (or_question font found) ≡ 8
  length-or_question char none e = font.eight_rows b'?' font.question.0 font.question.1
  length-or_question char (some glyph) e = font.eight_rows char glyph e

  -- On a canvas `draw_char_at` does not panic and draws inside the cell of 8 by 16 pixels, whatever
  -- the character and its glyph.
  pub draw_char_at-Kept :
      (char : ℕ) (buf : Buf)
      → IsCanvas info buf
      → Returns (Kept info cell buf) (draw_char_at font info x0 y0 char c buf)
  unfolding draw_char_at
  draw_char_at-Kept char =
      draw_rows-DrawsIn (glyph_of font char) 0
        (omega (arith, length-or_question char (font.get char) refl))
