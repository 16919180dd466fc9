-- ===== src/Fb/Text.antt =====
-- Text drawing of kernel/src/framebuffer.rs. The font of the crate font8x8 is a parameter.
use r_os.Common.{
  ℕ, ◌+◌, ◌*◌, ◌^◌, ◌≡◌, Option, none, some, List, [], ◌∷◌, ◌==◌, if◌then◌else◌, length,
}
use r_os.Common.Loops.{◌>>=◌}
use Prim.Native.Nat.{bit_and}
use r_os.Fb.{Buf, Color, FrameBufferInfo, put_pixel, for_in, saturating_add}

abbrev pub font_scale_x : ℕ
font_scale_x = 1

abbrev pub font_scale_y : ℕ
font_scale_y = 2

abbrev pub font_width : ℕ
font_width = 8 * font_scale_x

abbrev pub font_height : ℕ
font_height = 8 * font_scale_y

-- A glyph is eight bytes, one for each row, the lowest bit leftmost. A character is its code.
-- BASIC_FONTS has a glyph for some characters, `?` among them.
pub record Font : Type 0 where
  pub get : ℕ → Option (List ℕ)
  pub question : (glyph : List ℕ) × (get b'?' ≡ some glyph)
  pub eight_rows : (char : ℕ) (glyph : List ℕ) → get char ≡ some glyph → length glyph ≡ 8

module _ (font : Font) where
  -- `unwrap_or` of the glyph of `?`.
  abbrev pub or_question : Option (List ℕ) → List ℕ
  or_question none = font.question.0
  or_question (some glyph) = glyph

  abbrev pub glyph_of : ℕ → List ℕ
  glyph_of char = or_question (font.get char)

  -- One bit of a glyph, as `font_scale_x` by `font_scale_y` pixels.
  unfoldable pub draw_bit : FrameBufferInfo → ℕ → ℕ → ℕ → ℕ → ℕ → Color → Buf → Option Buf
  draw_bit info x0 y0 gly_x gly_y byte c buf =
      if bit_and byte (2 ^ gly_x) == 0
      then some buf
      else for_in 0 font_scale_y
          (λ sy. for_in 0 font_scale_x (λ sx.
            put_pixel info (x0 + gly_x * font_scale_x + sx) (y0 + gly_y * font_scale_y + sy) c))
          buf

  -- `for (gly_y, &byte) in glyph.iter().enumerate()`
  unfoldable pub draw_rows : FrameBufferInfo → ℕ → ℕ → ℕ → List ℕ → Color → Buf → Option Buf
  draw_rows info x0 y0 gly_y [] c buf = some buf
  draw_rows info x0 y0 gly_y (byte ∷ rest) c buf =
      for_in 0 8 (λ gly_x. draw_bit info x0 y0 gly_x gly_y byte c) buf >>= λ buf'.
      draw_rows info x0 y0 (gly_y + 1) rest c buf'

  unfoldable pub draw_char_at : FrameBufferInfo → ℕ → ℕ → ℕ → Color → Buf → Option Buf
  draw_char_at info x0 y0 char c buf = draw_rows info x0 y0 0 (glyph_of char) c buf

  unfoldable pub draw_text : FrameBufferInfo → ℕ → ℕ → List ℕ → Color → Buf → Option Buf
  draw_text info x y [] c buf = some buf
  draw_text info x y (char ∷ text) c buf = draw_char_at info x y char c buf >>= λ buf'.
      draw_text info (saturating_add x font_width) y text c buf'
