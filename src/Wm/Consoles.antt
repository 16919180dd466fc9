-- ===== src/Wm/Consoles.antt =====
-- The consoles of the windows: the functions of kernel/src/wm.rs that write to them.
use r_os.Common.{
  ℕ, ◌+◌, ◌*◌, ◌≡◌, refl, ◌∙◌, inl, inr, Bool, true, not, Option, some, List, arith, Option-cases,
}
use r_os.Common.Loops.{Returns, Returns->>=, Returns-imp, Returns-if, ◌>>=◌}
use r_os.Fb.{Buf, Color, FrameBufferInfo, black}
use r_os.Fb.Canvas.{IsCanvas}
use r_os.Fb.Rects.{in_rect}
use r_os.Fb.Text.{Font, font_width, font_height}
use r_os.Fb.Within.{DrawsIn, DrawsIn-loop, DrawsIn-put_pixel}
use r_os.Console
use r_os.Console.{Console}
use r_os.Console.Copy.{OnScreen}
use r_os.Console.Cursor.{IsValid, write_str-Safe}
use r_os.Console.Fresh.{new-Painted, clear-Painted}
use r_os.Wm.Window.{WmWindow, content_rect}
use r_os.Wm.Manager.{WindowManager, with_window, init_window_console, init_console, mark_dirty}
use r_os.Wm.Api.{with_console, on_console}
use r_os.Wm.Focus.{IsSound_drawn}
use r_os.Wm.Valid.{IsSound, IsHosted, IsManager, displayed, ids, with_window-All}

-- What a method of a console keeps: it does not panic, and leaves a valid console with the same
-- content and a canvas.
abbrev pub Keeps : (FrameBufferInfo → Console → Buf → Console.Result) → Type 0
Keeps method =
    (info : FrameBufferInfo) (con : Console) (buf : Buf)
    → IsValid info con
    → IsCanvas info buf
    → Returns (λ p. IsValid info p.0 × (p.0.content ≡ con.content) × IsCanvas info p.1)
        (method info con buf)

pub Keeps-write_str :
    (font : Font) (text : List ℕ) → Keeps (λ info con buf. Console.write_str font info text con buf)
Keeps-write_str font text info con buf c v =
    Returns-imp _ _ (Console.write_str font info text con buf) (λ p h. (h.0, h.1, h.2.canvas))
      (write_str-Safe info font text con buf c v)

pub Keeps-clear : Keeps Console.clear
Keeps-clear info con buf c v =
    Returns-imp _ _ (Console.clear info con buf) (λ p h. (h.0, h.1, h.3.canvas))
      (clear-Painted info con buf c v)

draw_bar-Kept :
    (info : FrameBufferInfo) (con : Console) (c : Color)
    → DrawsIn info
        (in_rect
          (con.content.x + con.col * font_width)
          (con.content.y + con.row * font_height)
          1
          font_height)
        (Console.draw_bar info con c)
unfolding Console.draw_bar
draw_bar-Kept info con c = DrawsIn-loop info _ 0 font_height _ (λ dy lo hi.
    DrawsIn-put_pixel info _ (con.content.x + con.col * font_width)
      (con.content.y + con.row * font_height + dy) c (ground arith))

pub Keeps-draw_cursor : Keeps Console.draw_cursor
unfolding Console.draw_cursor
Keeps-draw_cursor info con buf c v =
    Returns-if _ (not con.cursor_visible) _ _
      (Returns->>= _ _ (Console.draw_bar info con Console.white buf) _
        (draw_bar-Kept info con Console.white buf v)
        (λ b k. (
          record { on = c.on; grid = c.grid; row_in = c.row_in; col_in = c.col_in },
          refl,
          k.canvas,
        )))
      (c, refl, v)

pub Keeps-erase_cursor : Keeps Console.erase_cursor
unfolding Console.erase_cursor
Keeps-erase_cursor info con buf c v =
    Returns-if _ con.cursor_visible _ _
      (Returns->>= _ _ (Console.draw_bar info con black buf) _ (draw_bar-Kept info con black buf v)
        (λ b k. (
          record { on = c.on; grid = c.grid; row_in = c.row_in; col_in = c.col_in },
          refl,
          k.canvas,
        )))
      (c, refl, v)

module _ (screen : FrameBufferInfo) where
  -- A window with its console changed.
  hosted_then :
      (win : WmWindow) (b : Buf) (con : Console) (d : Bool)
      → IsSound screen win
      → IsCanvas win.buf_info b
      → IsValid win.buf_info con
      → con.content ≡ content_rect win
      → IsSound screen (record win { buf = b; console = some con; dirty = d })
  hosted_then win b con d s v c e = record {
    drawable = record {
      canvas = v;
      sizes = s.drawable.sizes;
      room = s.drawable.room;
      titled = s.drawable.titled;
    };
    same_format = s.same_format;
    same_bytes = s.same_bytes;
    modest = s.modest;
    near = record { left = s.near.left; wide = s.near.wide };
    hosted = (c, e);
  }

  with_console-IsSound :
      (method : FrameBufferInfo → Console → Buf → Console.Result)
      → Keeps method
      → (win : WmWindow) → IsSound screen win
      → Returns (λ w. IsSound screen w × (w.id ≡ win.id)) (with_console method win)
  unfolding with_console
  with_console-IsSound method keeps win s = elim (Option-cases win.console) [
    | inl bare ↦ rw (with_console, bare) (s, refl)
    | inr (con, there) ↦
        let hosted : IsHosted win.buf_info (content_rect win) (some con) = rw there at s.hosted in
        rw (with_console, there)
          (Returns->>= _ _ (method win.buf_info con win.buf) _
            (keeps win.buf_info con win.buf hosted.0 s.drawable.canvas)
            (λ p h. (hosted_then win p.1 p.0 true s h.2 h.0 (h.1 ∙ hosted.1), refl)))
  ]

  content-OnScreen :
      (win : WmWindow) → IsSound screen win → OnScreen win.buf_info (content_rect win)
  content-OnScreen win s = record {
    right = omega (arith, s.drawable.sizes, s.drawable.room);
    bottom = omega (arith, s.drawable.sizes, s.drawable.room);
  }

  init_window_console-IsSound :
      (win : WmWindow)
      → IsSound screen win
      → Returns (λ w. IsSound screen w × (w.id ≡ win.id)) (init_window_console win)
  unfolding init_window_console
  init_window_console-IsSound win s =
      Returns->>= _ _ (Console.new win.buf_info (content_rect win) win.buf) _
        (new-Painted win.buf_info (content_rect win) win.buf (content-OnScreen win s)
          s.drawable.canvas)
        (λ p h. (hosted_then win p.1 p.0 win.dirty s h.3.canvas h.0 h.1, refl))

-- One of the windows changed by a method that keeps it sound.
on_window-IsManager :
    (id : ℕ) (f : WmWindow → Option WmWindow) (wm : WindowManager) (composite : Bool)
    → ((w : WmWindow)
        → IsSound wm.screen_info w
        → Returns (λ w'. IsSound wm.screen_info w' × (w'.id ≡ w.id)) (f w))
    → IsManager wm
    → Returns
        (λ wm'.
          IsManager wm'
          × (ids wm'.windows ≡ ids wm.windows)
          × (wm'.focused ≡ wm.focused)
          × (displayed wm' ≡ displayed wm))
        (with_window id f wm.windows >>= λ ws.
          some (record wm { windows = ws; needs_composite = composite }))
on_window-IsManager id f wm composite keeps m =
    Returns->>= _ _ (with_window id f wm.windows) _
      (with_window-All (IsSound wm.screen_info) id f keeps wm.windows m.windows)
      (λ ws h. (
        record {
          windows = h.0;
          distinct = rw h.1 m.distinct;
          below = rw h.1 m.below;
          focus = rw h.1 m.focus;
        },
        h.1,
        refl,
        refl,
      ))

pub on_console-IsManager :
    (method : FrameBufferInfo → Console → Buf → Console.Result) (id : ℕ) (wm : WindowManager)
    → Keeps method
    → IsManager wm
    → Returns
        (λ wm'.
          IsManager wm'
          × (ids wm'.windows ≡ ids wm.windows)
          × (wm'.focused ≡ wm.focused)
          × (displayed wm' ≡ displayed wm))
        (on_console method id wm)
unfolding on_console
on_console-IsManager method id wm keeps m =
    on_window-IsManager id (with_console method) wm true
      (with_console-IsSound wm.screen_info method keeps) m

pub init_console-IsManager :
    (id : ℕ) (wm : WindowManager)
    → IsManager wm
    → Returns
        (λ wm'.
          IsManager wm'
          × (ids wm'.windows ≡ ids wm.windows)
          × (wm'.focused ≡ wm.focused)
          × (displayed wm' ≡ displayed wm))
        (init_console id wm)
unfolding init_console
init_console-IsManager id wm m =
    on_window-IsManager id init_window_console wm wm.needs_composite
      (init_window_console-IsSound wm.screen_info) m

pub mark_dirty-IsManager :
    (id : ℕ) (wm : WindowManager)
    → IsManager wm
    → Returns
        (λ wm'.
          IsManager wm'
          × (ids wm'.windows ≡ ids wm.windows)
          × (wm'.focused ≡ wm.focused)
          × (displayed wm' ≡ displayed wm))
        (mark_dirty id wm)
unfolding mark_dirty
mark_dirty-IsManager id wm m =
    on_window-IsManager id _ wm true
      (λ w s. (IsSound_drawn wm.screen_info w w.buf true s s.drawable.canvas, refl)) m
