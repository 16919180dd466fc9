-- ===== src/Wm/Layers.antt =====
-- The windows on the screen, one over the other, and which of them a point belongs to.
use r_os.Common.{
  ℕ, ◌+◌, ◌-◌, ◌<◌, ◌≡◌, refl, ap, ◌∙◌, ◌&&◌, List, [], ◌∷◌, arith, if◌then◌else◌, length, All,
}
use r_os.Common.Loops.{Returns, Returns-imp, Returns->>=}
use r_os.Fb.{Buf, Color, FrameBufferInfo}
use r_os.Fb.Canvas.{IsCanvas, pixel_at}
use r_os.Fb.Paint.{between}
use r_os.Wm.Window.{WmWindow}
use r_os.Wm.Screen.{blit_window, blit_windows, copy_w, copy_h, covers}
use r_os.Wm.Blit.{IsShowable, Blitted, blit_window-Blitted}

-- The window's pixel at a point of the screen.
abbrev pub window_pixel : WmWindow → ℕ → ℕ → Color
window_pixel win px py = pixel_at win.buf_info win.buf (px - win.x) (py - win.y)

-- What windows, back to front, show at a point over a colour: the pixel of the last that covers it.
abbrev pub shown : ℕ → ℕ → List WmWindow → Color → Color
shown px py [] c = c
shown px py (w ∷ ws) c = shown px py ws (if covers px py w then window_pixel w px py else c)

-- The screen shows the windows, over what it showed before.
pub record Layered (info : FrameBufferInfo) (ws : List WmWindow) (buf buf' : Buf) : Type 0 where
  pub canvas : IsCanvas info buf'
  pub same_length : length buf' ≡ length buf
  pub pixels :
      (px py : ℕ)
      → px < info.width
      → py < info.height
      → pixel_at info buf' px py ≡ shown px py ws (pixel_at info buf px py)

covers-on_screen :
    (info : FrameBufferInfo) (win : WmWindow) (px py : ℕ)
    → px < info.width
    → py < info.height
    → (between win.y (win.y + copy_h info win) py && between win.x (win.x + copy_w info win) px)
      ≡ covers px py win
covers-on_screen info win px py hx hy = ground arith

pub blit_windows-Layered :
    (info : FrameBufferInfo) (ws : List WmWindow) (buf : Buf)
    → All (IsShowable info) ws
    → IsCanvas info buf
    → Returns (Layered info ws buf) (blit_windows info ws buf)
unfolding blit_windows
blit_windows-Layered info [] buf all v = record {
  canvas = v;
  same_length = refl;
  pixels = λ px py hx hy. refl;
}
blit_windows-Layered info (w ∷ ws) buf all v =
    Returns->>= (Blitted info w (copy_h info w) buf) _ (blit_window info w buf)
      (λ b. blit_windows info ws b) (blit_window-Blitted info w all.0 buf v)
      (λ b m.
        Returns-imp _ _ (blit_windows info ws b)
          (λ d n. record {
            canvas = n.canvas;
            same_length = n.same_length ∙ m.same_length;
            pixels = λ px py hx hy.
                n.pixels px py hx hy
                ∙ ap (shown px py ws)
                    (rw (covers-on_screen info w px py hx hy) at (m.pixels px py hx hy));
          })
          (blit_windows-Layered info ws b all.1 m.canvas))
