-- ===== src/Fb/Lengths.antt =====
-- Drawing never changes the length of a buffer, canvas or not.
use r_os.Common.{
  ℕ, zero, suc, ◌+◌, ◌*◌, ◌/◌, ◌%◌, min, ◌≡◌, refl, ◌∙◌, inl, inr, Bool, true, false, ◌||◌, Option,
  none, some, List, [], ◌∷◌, ltb, leb, if◌then◌else◌, Bool-cases, length, length-set,
}
use r_os.Common.Loops.{for_range, ◌>>=◌, Whenever}
use r_os.Fb.{
  Buf, Color, FrameBufferInfo, PixelFormat, rgb, bgr, u8, unknown, other, offset_of, write,
  write_three, write_le, shift_u32, write_unknown, put_pixel, fill_rect, saturating_add, bit_or,
}
use r_os.Fb.Gradient.{draw_background, fill_vertical_gradient, gradient_row}
use r_os.Fb.Text.{
  Font, font_scale_x, font_scale_y, font_width, glyph_of, draw_bit, draw_rows, draw_char_at,
  draw_text,
}

-- A step that keeps the length of a buffer, if it does not panic.
abbrev pub Sized : (Buf → Option Buf) → Type 0
Sized step = (buf : Buf) → Whenever (λ b. length b ≡ length buf) (step buf)

both :
    (orig : Buf) (m : Option Buf) (f : Buf → Option Buf)
    → Whenever (λ b. length b ≡ length orig) m
    → Sized f
    → Whenever (λ b. length b ≡ length orig) (m >>= f)
both orig none f h s = tt
both orig (some b) f h s = behind (f b) (s b)
  where
    behind :
        (m : Option Buf)
        → Whenever (λ d. length d ≡ length b) m
        → Whenever (λ d. length d ≡ length orig) m
    behind none k = tt
    behind (some d) k = k ∙ h

pub Sized->>= : (s1 s2 : Buf → Option Buf) → Sized s1 → Sized s2 → Sized (λ buf. s1 buf >>= s2)
Sized->>= s1 s2 p q buf = both buf (s1 buf) s2 (p buf) q

pub Sized-if :
    (b : Bool) (s1 s2 : Buf → Option Buf)
    → Sized s1
    → Sized s2
    → Sized (λ buf. if b then s1 buf else s2 buf)
Sized-if true s1 s2 p q = p
Sized-if false s1 s2 p q = q

pub Sized-for_range :
    (n i : ℕ) (body : ℕ → Buf → Option Buf)
    → ((k : ℕ) → Sized (body k))
    → Sized (for_range n i body)
unfolding for_range
Sized-for_range zero i body h = λ buf. refl
Sized-for_range (suc n) i body h =
    Sized->>= (body i) (for_range n (i + 1) body) (h i) (Sized-for_range n (i + 1) body h)

Sized-write : (offset v : ℕ) → Sized (write offset v)
Sized-write offset v buf = elim (Bool-cases (ltb offset (length buf))) [
  | inl fits ↦ rw fits (length-set buf offset v)
  | inr beyond ↦ rw beyond tt
]

Sized-write_three : (bpp offset c0 c1 c2 : ℕ) → Sized (write_three bpp offset c0 c1 c2)
unfolding write_three
Sized-write_three bpp offset c0 c1 c2 = Sized->>= (write offset c0) _ (Sized-write offset c0) (
    Sized->>= (write (offset + 1) c1) _ (Sized-write (offset + 1) c1) (
      Sized->>= (write (offset + 2) c2) _ (Sized-write (offset + 2) c2) (
        Sized-if (leb 4 bpp) (write (offset + 3) 0xff) some (Sized-write (offset + 3) 0xff)
          (λ buf. refl))))

Sized-write_le : (n pixel offset : ℕ) → Sized (write_le n pixel offset)
unfolding write_le
Sized-write_le zero pixel offset = λ buf. refl
Sized-write_le (suc n) pixel offset =
    Sized->>= (write offset (pixel % 256)) _ (Sized-write offset (pixel % 256))
      (Sized-write_le n (pixel / 256) (offset + 1))

Sized-given :
    (m : Option ℕ) (step : ℕ → Buf → Option Buf)
    → ((v : ℕ) → Sized (step v))
    → Sized (λ buf. m >>= λ v. step v buf)
Sized-given none step h = λ buf. tt
Sized-given (some v) step h = h v

Sized-write_unknown :
    (rp gp bp bpp offset : ℕ) (c : Color) → Sized (write_unknown rp gp bp bpp offset c)
unfolding write_unknown
Sized-write_unknown rp gp bp bpp offset c = Sized-given (shift_u32 c.r rp) _ (λ r.
    Sized-given (shift_u32 c.g gp) _ (λ g.
      Sized-given (shift_u32 c.b bp) _
        (λ b. Sized-write_le (min bpp 4) (bit_or (bit_or r g) b) offset)))

pub Sized-put_pixel : (info : FrameBufferInfo) (x y : ℕ) (c : Color) → Sized (put_pixel info x y c)
unfolding put_pixel
Sized-put_pixel info x y c buf = elim (Bool-cases (leb info.width x || leb info.height y)) [
  | inl off ↦ rw off refl
  | inr on ↦ elim (Bool-cases (ltb (length buf) (offset_of info x y + info.bytes_per_pixel))) [
    | inl short ↦ rw (on, short) refl
    | inr fits ↦ by_format on fits info.pixel_format refl
  ]
]
  where
    by_format :
        (leb info.width x || leb info.height y) ≡ false
        → ltb (length buf) (offset_of info x y + info.bytes_per_pixel) ≡ false
        → (f : PixelFormat) → info.pixel_format ≡ f
        → Whenever (λ b. length b ≡ length buf) (put_pixel info x y c buf)
    by_format on fits rgb e =
        rw (on, fits, e)
          (Sized-write_three info.bytes_per_pixel (offset_of info x y) c.r c.g c.b buf)
    by_format on fits bgr e =
        rw (on, fits, e)
          (Sized-write_three info.bytes_per_pixel (offset_of info x y) c.b c.g c.r buf)
    by_format on fits u8 e =
        rw (on, fits, e) (Sized-write (offset_of info x y) ((c.r + c.g + c.b) / 3 % 256) buf)
    by_format on fits (unknown rp gp bp) e =
        rw (on, fits, e)
          (Sized-write_unknown rp gp bp info.bytes_per_pixel (offset_of info x y) c buf)
    by_format on fits other e = rw (on, fits, e) refl

module _ (info : FrameBufferInfo) where
  pub Sized-fill_rect :
      (x y width height : ℕ) (c : Color) → Sized (fill_rect info x y width height c)
  unfolding fill_rect
  Sized-fill_rect x y width height c =
      Sized-for_range _ y _ (λ py. Sized-for_range _ x _ (λ px. Sized-put_pixel info px py c))

  pub Sized-draw_background : Sized (draw_background info)
  unfolding draw_background fill_vertical_gradient gradient_row
  Sized-draw_background =
      Sized->>= _ _
        (Sized-if _ some _ (λ buf. refl)
          (Sized-for_range _ 0 _ (λ i.
            Sized-if _ (λ buf. none) _ (λ buf. tt) (Sized-fill_rect 0 (0 + i) info.width 1 _))))
        (Sized-for_range _ 0 _ (λ j.
          Sized-for_range _ 0 _
            (λ i. Sized-if _ _ some (Sized-put_pixel info (4 * i) (4 * j) _) (λ buf. refl))))

  module _ (font : Font) where
    Sized-draw_rows :
        (x0 y0 gly_y : ℕ) (glyph : List ℕ) (c : Color)
        → Sized (draw_rows font info x0 y0 gly_y glyph c)
    unfolding draw_rows draw_bit
    Sized-draw_rows x0 y0 gly_y [] c = λ buf. refl
    Sized-draw_rows x0 y0 gly_y (byte ∷ rest) c =
        Sized->>= _ (draw_rows font info x0 y0 (gly_y + 1) rest c)
          (Sized-for_range 8 0 _ (λ gly_x.
            Sized-if _ some _ (λ buf. refl)
              (Sized-for_range font_scale_y 0 _
                (λ sy. Sized-for_range font_scale_x 0 _ (λ sx. Sized-put_pixel info _ _ c)))))
          (Sized-draw_rows x0 y0 (gly_y + 1) rest c)

    pub Sized-draw_text :
        (x y : ℕ) (text : List ℕ) (c : Color) → Sized (draw_text font info x y text c)
    unfolding draw_text draw_char_at
    Sized-draw_text x y [] c = λ buf. refl
    Sized-draw_text x y (char ∷ text) c =
        Sized->>= (draw_char_at font info x y char c) _
          (Sized-draw_rows x y 0 (glyph_of font char) c)
          (Sized-draw_text (saturating_add x font_width) y text c)
