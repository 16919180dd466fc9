-- ===== src/Wm/Chrome.antt =====
-- What drawing a window's chrome keeps.
use r_os.Common.{
  ℕ, ◌+◌, ◌-◌, ◌*◌, ◌/◌, ◌≤◌, ◌≡◌, refl, inl, inr, Bool, false, not, Option, List, arith, ltb, leb,
  Bool-cases, length, take,
}
use r_os.Common.Loops.{Returns, Returns->>=, Returns-imp}
use r_os.Fb.{Buf, FrameBufferInfo, Rect, fill_rect, draw_rect_outline, window_padding}
use r_os.Fb.Canvas.{IsCanvas}
use r_os.Fb.Rects.{in_rect, on_border, fill_rect-Painted, draw_rect_outline-Painted}
use r_os.Fb.Lines.{draw_text-DrawsIn}
use r_os.Fb.Text.{Font, font_height}
use r_os.Fb.Within.{Kept, Kept-refl, Kept-Painted, Kept-trans, DrawsIn}
use r_os.Wm.Window.{
  WmWindow, title_height, content_rect, border_color, title_color, bar_color, title_str,
  or_question_mark, draw_title, draw_chrome,
}

-- A window whose buffer is a canvas of its size, at least as large as its chrome.
pub record IsDrawable (win : WmWindow) : Type 0 where
  pub canvas : IsCanvas win.buf_info win.buf
  pub sizes : (win.buf_info.width ≡ win.width) × (win.buf_info.height ≡ win.height)
  pub room : (2 * window_padding ≤ win.width) × (title_height win + 2 * window_padding ≤ win.height)
  pub titled : win.title_len ≤ length win.title

-- The pixels of the buffer outside the content.
abbrev pub frame : WmWindow → ℕ → ℕ → Bool
frame win x y =
    let content = content_rect win in
    not (in_rect content.x content.y content.width content.height x y)

-- The same window but for its buffer, whose pixels in the content are as they were.
pub record Redrawn (win win' : WmWindow) : Type 0 where
  pub drawn : Buf
  pub kept : Kept win.buf_info (frame win) win.buf drawn
  pub same : win' ≡ record win { buf = drawn }

module _ (font : Font) (from_utf8 : List ℕ → Option (List ℕ)) where
  draw_title-DrawsIn :
      (win : WmWindow)
      → IsDrawable win
      → DrawsIn win.buf_info (frame win) (draw_title font from_utf8 win)
  unfolding draw_title title_str
  draw_title-DrawsIn win d buf v = elim (Bool-cases (leb font_height (title_height win))) [
    | inl high ↦
        let named : ltb (length win.title) win.title_len ≡ false = ground (arith, d.titled) in
        rw (high, named)
          (draw_text-DrawsIn font win.buf_info (frame win) ((title_height win - font_height) / 2)
            title_color (λ px py out. ground arith) window_padding
            (or_question_mark (from_utf8 (take win.title_len win.title))) buf v)
    | inr low ↦ rw low (Kept-refl win.buf_info (frame win) buf v)
  ]

  -- `draw_chrome` of a window that is at least as large as its chrome does not panic. It changes
  -- only the buffer, and there no pixel of the content.
  pub draw_chrome-Redrawn :
      (focused : Bool) (win : WmWindow)
      → IsDrawable win
      → Returns (Redrawn win) (draw_chrome font from_utf8 focused win)
  unfolding draw_chrome
  draw_chrome-Redrawn focused win d =
      let info : FrameBufferInfo = win.buf_info in
      let edge : Rect = record { x = 0; y = 0; width = win.width; height = win.height } in
      Returns->>= (Kept info (frame win) win.buf) _
        (fill_rect info 0 0 win.width (title_height win) (bar_color focused) win.buf) _
        (Returns-imp _ _
          (fill_rect info 0 0 win.width (title_height win) (bar_color focused) win.buf)
          (λ b p.
            Kept-Painted info (frame win) (bar_color focused) _ win.buf b
              (λ x y hx hy out. ground arith) p)
          (fill_rect-Painted info (bar_color focused) 0 0 win.width (title_height win) win.buf
            d.canvas))
        (λ b1 k1.
          Returns->>= (Kept info (frame win) win.buf) _
            (draw_rect_outline info edge border_color b1) _
            (Returns-imp _ _ (draw_rect_outline info edge border_color b1)
              (λ b p. Kept-trans info (frame win) win.buf b1 b k1 (
                Kept-Painted info (frame win) border_color (on_border info border_color edge) b1 b
                  (λ x y hx hy out. ground (arith, d.sizes, d.room)) p))
              (draw_rect_outline-Painted info border_color edge (omega (arith, d.sizes, d.room))
                (omega (arith, d.sizes, d.room)) b1 k1.canvas))
            (λ b2 k2.
              Returns->>= (Kept info (frame win) b2) _ (draw_title font from_utf8 win b2) _
                (draw_title-DrawsIn win d b2 k2.canvas)
                (λ b3 k3. record {
                  drawn = b3;
                  kept = Kept-trans info (frame win) win.buf b2 b3 k2 k3;
                  same = refl;
                })))
