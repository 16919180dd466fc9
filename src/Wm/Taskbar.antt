-- ===== src/Wm/Taskbar.antt =====
-- The taskbar of kernel/src/wm.rs: draw_taskbar.
use r_os.Common.{
  ℕ, ◌+◌, ◌-◌, ◌*◌, ◌≤◌, ◌≡◌, Bool, true, false, Option, List, [], ◌∷◌, arith, ltb, leb, length,
  take, All,
}
use r_os.Fb.{Color, FrameBufferInfo, fill_rect}
use r_os.Fb.Rects.{in_rect, fill_rect-Painted}
use r_os.Fb.Lines.{draw_text-DrawsIn}
use r_os.Fb.Text.{Font, font_width, draw_text}
use r_os.Fb.Within.{Kept-refl, DrawsIn, DrawsIn->>=, DrawsIn-Paints}
use r_os.Wm.Window.{WmWindow, title_str, or_question_mark}
use r_os.Wm.Manager.{taskbar_height, is_some}
use r_os.Wm.Screen.{
  taskbar_y, rgb, os_name, separator_x, draw_highlight, label_color, draw_labels, draw_taskbar,
}

-- The rows of the taskbar.
abbrev pub bar : FrameBufferInfo → ℕ → ℕ → Bool
bar info px py = leb (taskbar_y info) py

module _ (info : FrameBufferInfo) where
  fill-DrawsIn :
      (x y width height : ℕ) (c : Color)
      → taskbar_y info ≤ y
      → DrawsIn info (bar info) (fill_rect info x y width height c)
  fill-DrawsIn x y width height c low =
      DrawsIn-Paints info (bar info) c (in_rect x y width height)
        (fill_rect info x y width height c) (λ px py hx hy out. ground arith)
        (fill_rect-Painted info c x y width height)

  highlight-DrawsIn :
      (on : Bool) (lx : ℕ) (w : WmWindow) → DrawsIn info (bar info) (draw_highlight info on lx w)
  unfolding draw_highlight
  highlight-DrawsIn false lx w = Kept-refl info (bar info)
  highlight-DrawsIn true lx w = fill-DrawsIn _ _ _ _ _ (omega arith)

  module _ (font : Font) (from_utf8 : List ℕ → Option (List ℕ)) where
    text-DrawsIn :
        (x : ℕ) (text : List ℕ) (c : Color)
        → DrawsIn info (bar info) (draw_text font info x (taskbar_y info + 6) text c)
    text-DrawsIn x text c =
        draw_text-DrawsIn font info (bar info) (taskbar_y info + 6) c (λ px py out. ground arith) x
          text

    draw_labels-DrawsIn :
        (focused : Option ℕ) (lx : ℕ) (ws : List WmWindow)
        → All (λ (w : WmWindow). w.title_len ≤ length w.title) ws
        → DrawsIn info (bar info) (draw_labels font from_utf8 info focused lx ws)
    unfolding draw_labels title_str
    draw_labels-DrawsIn focused lx [] all = Kept-refl info (bar info)
    draw_labels-DrawsIn focused lx (w ∷ ws) all =
        let named : ltb (length w.title) w.title_len ≡ false = ground (arith, all.0) in
        rw named (
          DrawsIn->>= info (bar info) (draw_highlight info (is_some focused w.id) lx w) _
            (highlight-DrawsIn (is_some focused w.id) lx w)
            (DrawsIn->>= info (bar info) _
              (draw_labels font from_utf8 info focused (lx + (w.title_len * font_width + 16)) ws)
              (text-DrawsIn lx (or_question_mark (from_utf8 (take w.title_len w.title)))
                (label_color (is_some focused w.id)))
              (draw_labels-DrawsIn focused (lx + (w.title_len * font_width + 16)) ws all.1)))

    -- The taskbar is drawn below its first row.
    pub draw_taskbar-DrawsIn :
        (windows : List WmWindow) (focused : Option ℕ)
        → All (λ (w : WmWindow). w.title_len ≤ length w.title) windows
        → DrawsIn info (bar info) (draw_taskbar font from_utf8 info windows focused)
    unfolding draw_taskbar
    draw_taskbar-DrawsIn windows focused all =
        DrawsIn->>= info (bar info) _ _
          (fill-DrawsIn 0 (taskbar_y info) info.width taskbar_height (rgb 0x1a 0x1e 0x28)
            (omega arith))
          (DrawsIn->>= info (bar info) _ _
            (fill-DrawsIn 0 (taskbar_y info) info.width 1 (rgb 0x33 0x38 0x44) (omega arith))
            (DrawsIn->>= info (bar info) _ _ (text-DrawsIn 8 os_name (rgb 0xe0 0xe4 0xec)) (
              DrawsIn->>= info (bar info) _ _
                (fill-DrawsIn separator_x (taskbar_y info + 4) 1 (taskbar_height - 8)
                  (rgb 0x44 0x48 0x55) (omega arith))
                (draw_labels-DrawsIn focused (separator_x + 8) windows all))))
