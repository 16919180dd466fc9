-- ===== src/Wm/Screen.antt =====
-- The screen of the window manager of kernel/src/wm.rs: drawing all windows into the back buffer,
-- and the mouse. `none` is a panic.
use r_os.Common.{
  ℕ, ◌+◌, ◌-◌, ◌*◌, ◌^◌, min, Bool, true, false, not, ◌&&◌, ◌||◌, Option, none, some, List, [], ◌∷◌,
  map, ltb, leb, ◌==◌, if◌then◌else◌, length,
}
use r_os.Common.Loops.{◌>>=◌}
use mathlib.Core.List.{reverse}
use r_os.Fb.{copy_bytes, Buf, Color, FrameBufferInfo, fill_rect, for_in}
use r_os.Fb.Text.{Font, font_width, draw_text}
use r_os.Mouse.{MouseEvent}
use r_os.Wm.Cursor.{as_usize, save_background, restore_background, draw, apply_delta}
use r_os.Wm.Window.{WmWindow, title_str}
use r_os.Wm.Manager.{WindowManager, taskbar_height, is_some, focus_target, handle_taskbar_click}

-- `dst.copy_from_slice(src)`
abbrev pub copy_from_slice : Buf → Buf → Option Buf
copy_from_slice dst src = if length dst == length src then some src else none

-- The offsets of a row, and the sums that the test of the row forms, do not overflow a `usize`. The
-- sum for the screen is formed only if the row ends in the window's buffer.
abbrev pub is_addressed : FrameBufferInfo → WmWindow → ℕ → ℕ → Bool
is_addressed info win copy_w row =
    let bpp = info.bytes_per_pixel in
    let src_offset = row * win.buf_info.stride * bpp in
    let dst_offset = ((win.y + row) * info.stride + win.x) * bpp in
    let bytes = copy_w * bpp in
    ltb (row * win.buf_info.stride) (2 ^ 64)
    && ltb ((win.y + row) * info.stride + win.x) (2 ^ 64)
    && ltb (src_offset + bytes) (2 ^ 64)
    && ltb dst_offset (2 ^ 64)
    && (not (leb (src_offset + bytes) (length win.buf)) || ltb (dst_offset + bytes) (2 ^ 64))

-- One row of a window, from its first pixel.
unfoldable pub blit_row : FrameBufferInfo → WmWindow → ℕ → ℕ → Buf → Option Buf
blit_row info win copy_w row buf =
    let bpp = info.bytes_per_pixel in
    let src_offset = row * win.buf_info.stride * bpp in
    let dst_offset = ((win.y + row) * info.stride + win.x) * bpp in
    let bytes = copy_w * bpp in
    if not (is_addressed info win copy_w row)
    then none
    else if leb (src_offset + bytes) (length win.buf) && leb (dst_offset + bytes) (length buf)
    then some (copy_bytes bytes src_offset dst_offset win.buf buf)
    else some buf

-- `copy_w` and `copy_h`: the part of a window on the screen.
abbrev pub copy_w : FrameBufferInfo → WmWindow → ℕ
copy_w info win = min win.width (info.width - win.x)

abbrev pub copy_h : FrameBufferInfo → WmWindow → ℕ
copy_h info win = min win.height (info.height - win.y)

unfoldable pub blit_window : FrameBufferInfo → WmWindow → Buf → Option Buf
blit_window info win buf = for_in 0 (copy_h info win) (blit_row info win (copy_w info win)) buf

unfoldable pub blit_windows : FrameBufferInfo → List WmWindow → Buf → Option Buf
blit_windows info [] buf = some buf
blit_windows info (w ∷ ws) buf = blit_window info w buf >>= λ buf'. blit_windows info ws buf'

-- The row at which the taskbar begins.
abbrev pub taskbar_y : FrameBufferInfo → ℕ
taskbar_y info = info.height - taskbar_height

abbrev pub rgb : ℕ → ℕ → ℕ → Color
rgb r g b = record { r = r; g = g; b = b }

-- "r-os"
abbrev pub os_name : List ℕ
os_name = b'r' ∷ b'-' ∷ b'o' ∷ b's' ∷ []

abbrev pub separator_x : ℕ
separator_x = 8 + 4 * font_width + 6

-- Whether the window under a point is this one.
abbrev pub covers : ℕ → ℕ → WmWindow → Bool
covers mx my win =
    leb win.x mx && ltb mx (win.x + win.width) && leb win.y my && ltb my (win.y + win.height)

-- The first window of a list that covers a point.
unfoldable pub first_hit : ℕ → ℕ → List WmWindow → Option ℕ
first_hit mx my [] = none
first_hit mx my (w ∷ ws) =
    let rest = first_hit mx my ws in if covers mx my w then some w.id else rest

-- The highlight of the focused window's label.
unfoldable pub draw_highlight : FrameBufferInfo → Bool → ℕ → WmWindow → Buf → Option Buf
draw_highlight info false lx win buf = some buf
draw_highlight info true lx win buf =
    fill_rect info (lx - 4) (taskbar_y info + 2) (win.title_len * font_width + 12)
      (taskbar_height - 4) (rgb 0x28 0x32 0x44) buf

abbrev pub label_color : Bool → Color
label_color true = rgb 0xff 0xff 0xff
label_color false = rgb 0x88 0x8c 0x96

abbrev pub clean : WmWindow → WmWindow
clean win = record win { dirty = false }

-- The cursor drawn at its new place, unless all is to be drawn again.
unfoldable pub show_cursor : FrameBufferInfo → WindowManager → Buf → Option (WindowManager × Buf)
show_cursor info wm fb_buf =
    if wm.needs_composite
    then some (wm, fb_buf)
    else (save_background fb_buf info wm.cursor >>= λ cursor. draw cursor info fb_buf >>= λ fb.
        some (record wm { cursor = record cursor { visible = true } }, fb))

module _ (font : Font) (from_utf8 : List ℕ → Option (List ℕ)) where
  unfoldable pub draw_labels : FrameBufferInfo → Option ℕ → ℕ → List WmWindow → Buf → Option Buf
  draw_labels info focused lx [] buf = some buf
  draw_labels info focused lx (w ∷ ws) buf =
      draw_highlight info (is_some focused w.id) lx w buf >>= λ b1.
      title_str font from_utf8 w >>= λ text.
      draw_text font info lx (taskbar_y info + 6) text (label_color (is_some focused w.id)) b1
      >>= λ b2. draw_labels info focused (lx + (w.title_len * font_width + 16)) ws b2

  unfoldable pub draw_taskbar : FrameBufferInfo → List WmWindow → Option ℕ → Buf → Option Buf
  draw_taskbar info windows focused buf =
      fill_rect info 0 (taskbar_y info) info.width taskbar_height (rgb 0x1a 0x1e 0x28) buf >>= λ b1.
      fill_rect info 0 (taskbar_y info) info.width 1 (rgb 0x33 0x38 0x44) b1 >>= λ b2.
      draw_text font info 8 (taskbar_y info + 6) os_name (rgb 0xe0 0xe4 0xec) b2 >>= λ b3.
      fill_rect info separator_x (taskbar_y info + 4) 1 (taskbar_height - 8) (rgb 0x44 0x48 0x55) b3
      >>= λ b4. draw_labels info focused (separator_x + 8) windows b4

  -- The back buffer without the cursor.
  unfoldable pub draw_desktop : FrameBufferInfo → WindowManager → Option Buf
  draw_desktop info wm = copy_from_slice wm.back_buf wm.bg_cache >>= λ b1.
      draw_taskbar info wm.windows wm.focused b1 >>= λ b2. blit_windows info wm.windows b2

  -- The manager and the frame buffer behind the call.
  unfoldable pub composite : FrameBufferInfo → WindowManager → Buf → Option (WindowManager × Buf)
  composite info wm fb_buf = draw_desktop info wm >>= λ b1.
      save_background b1 info wm.cursor >>= λ cursor. draw cursor info b1 >>= λ b2.
      copy_from_slice fb_buf b2 >>= λ fb. some (
        record wm {
          back_buf = b2;
          cursor = record cursor { visible = true };
          needs_composite = false;
          windows = map clean wm.windows;
        },
        fb,
      )

  -- A left click, at the cursor.
  unfoldable pub click : WindowManager → Option WindowManager
  click wm =
      let mx = as_usize wm.cursor.x in
      let my = as_usize wm.cursor.y in
      if leb (taskbar_y wm.screen_info) my
      then (handle_taskbar_click font from_utf8 mx wm >>= λ wm'.
          some (record wm' { needs_composite = true }))
      else focus_target font from_utf8 (first_hit mx my (reverse wm.windows)) wm

  -- The loop at its begin is that of `restore_background`.
  unfoldable pub handle_mouse :
      FrameBufferInfo → MouseEvent → WindowManager → Buf → Option (WindowManager × Buf)
  handle_mouse info event wm fb_buf = restore_background wm.cursor info fb_buf >>= λ fb1.
      apply_delta event.dx event.dy wm.cursor >>= λ cursor.
      (if event.left
        then click (record wm { cursor = cursor })
        else some (record wm { cursor = cursor }))
      >>= λ wm'. show_cursor info wm' fb1
