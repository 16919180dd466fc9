-- ===== src/Wm/Manager.antt =====
-- WindowManager of kernel/src/wm.rs: its windows, back to front, and the focus. `none` is a panic.
use r_os.Common.{
  ℕ, ◌+◌, ◌-◌, ◌*◌, ◌^◌, min, Bool, true, false, ◌&&◌, ◌||◌, Option, none, some, List, [], ◌∷◌,
  ◌++◌, ltb, leb, ◌==◌, if◌then◌else◌, length, take, replicate,
}
use r_os.Common.Loops.{◌>>=◌}
use r_os.Fb.{Buf, FrameBufferInfo}
use r_os.Fb.Gradient.{draw_background}
use r_os.Fb.Text.{Font, font_width}
use r_os.Console
use r_os.Wm.Cursor
use r_os.Wm.Cursor.{CursorState}
use r_os.Wm.Window.{WmWindow, max_title, content_rect, draw_chrome}

abbrev pub taskbar_height : ℕ
taskbar_height = 28

-- The height of the taskbar, a field that is always TASKBAR_HEIGHT, is that constant here.
pub record WindowManager : Type 0 where
  pub windows : List WmWindow
  pub focused : Option ℕ
  pub next_id : ℕ
  pub cursor : CursorState
  pub screen_info : FrameBufferInfo
  pub needs_composite : Bool
  pub back_buf : Buf
  pub bg_cache : Buf

abbrev pub zeros : ℕ → Buf
zeros n = replicate n 0

abbrev pub screen_bytes : FrameBufferInfo → ℕ
screen_bytes info = info.width * info.height * info.bytes_per_pixel

-- `vec![0u8; width * height * bpp]` returns: the product fits a `usize`, and a vector of at most
-- `isize::MAX` bytes is asked for.
abbrev pub is_allocated : ℕ → ℕ → ℕ → Bool
is_allocated width height bpp = ltb (width * height) (2 ^ 64) && ltb (width * height * bpp) (2 ^ 63)

-- The fields of a new manager.
abbrev pub new_manager : FrameBufferInfo → Buf → WindowManager
new_manager info bg = record {
  windows = [];
  focused = none;
  next_id = 0;
  cursor = Cursor.new info.width info.height;
  screen_info = info;
  needs_composite = true;
  back_buf = zeros (screen_bytes info);
  bg_cache = bg;
}

unfoldable pub new : FrameBufferInfo → Option WindowManager
new info =
    if is_allocated info.width info.height info.bytes_per_pixel
    then (draw_background info (zeros (screen_bytes info)) >>= λ bg. some (new_manager info bg))
    else none

-- `focused == Some(id)`
abbrev pub is_some : Option ℕ → ℕ → Bool
is_some none id = false
is_some (some f) id = f == id

unfoldable pub is_focused : WindowManager → ℕ → Bool
is_focused wm id = is_some wm.focused id

-- `find(|w| w.id == id)`
unfoldable pub find_window : ℕ → List WmWindow → Option WmWindow
find_window id [] = none
find_window id (w ∷ ws) = let rest = find_window id ws in if w.id == id then some w else rest

-- The window that `find` gives, changed in place; nothing if there is none.
unfoldable pub with_window :
    ℕ → (WmWindow → Option WmWindow) → List WmWindow → Option (List WmWindow)
with_window id f [] = some []
with_window id f (w ∷ ws) = elim (w.id == id) [
  | true ↦ f w >>= λ w'. some (w' ∷ ws)
  | false ↦ with_window id f ws >>= λ ws'. some (w ∷ ws')
]

-- `position`, `remove`: the first window with the id, and the others.
unfoldable pub take_out : ℕ → List WmWindow → Option (WmWindow × List WmWindow)
take_out id [] = none
take_out id (w ∷ ws) = elim (w.id == id) [
  | true ↦ some (w, ws)
  | false ↦ take_out id ws >>= λ p. some (p.0, w ∷ p.1)
]

-- The window moved to the end, which is the front.
unfoldable pub to_front : ℕ → List WmWindow → List WmWindow
to_front id ws = elim (take_out id ws) [ none ↦ ws | some (w, rest) ↦ rest ++ (w ∷ []) ]

-- The arguments of `create_window`; the title is its bytes.
pub record Spec : Type 0 where
  pub x : ℕ
  pub y : ℕ
  pub width : ℕ
  pub height : ℕ
  pub title : List ℕ
  pub owner_task : ℕ

-- The window before its chrome is drawn.
abbrev pub blank_window : FrameBufferInfo → ℕ → Spec → WmWindow
blank_window info id spec =
    let tlen = min (length spec.title) max_title in
    record {
      id = id;
      x = spec.x;
      y = spec.y;
      width = spec.width;
      height = spec.height;
      title = take tlen spec.title ++ replicate (max_title - tlen) 0;
      title_len = tlen;
      buf = zeros (spec.width * spec.height * info.bytes_per_pixel);
      buf_info = record info { width = spec.width; height = spec.height; stride = spec.width };
      console = none;
      dirty = true;
      owner_task = spec.owner_task;
    }

-- `focused.is_none()`
abbrev pub is_none : Option ℕ → Bool
is_none none = true
is_none (some f) = false

unfoldable pub init_window_console : WmWindow → Option WmWindow
init_window_console win = Console.new win.buf_info (content_rect win) win.buf >>= λ p.
    some (record win { buf = p.1; console = some p.0 })

unfoldable pub init_console : ℕ → WindowManager → Option WindowManager
init_console id wm =
    with_window id init_window_console wm.windows >>= λ ws. some (record wm { windows = ws })

abbrev set_dirty : WmWindow → Option WmWindow
set_dirty win = some (record win { dirty = true })

unfoldable pub mark_dirty : ℕ → WindowManager → Option WindowManager
mark_dirty id wm = with_window id set_dirty wm.windows >>= λ ws.
    some (record wm { windows = ws; needs_composite = true })

abbrev pub request_composite : WindowManager → WindowManager
request_composite wm = record wm { needs_composite = true }

-- Which label of the taskbar is at `mx`, the first of `windows` beginning at `lx`.
unfoldable pub label_at : ℕ → ℕ → List WmWindow → Option ℕ
label_at mx lx [] = none
label_at mx lx (w ∷ ws) =
    let label_w = w.title_len * font_width + 16 in
    let rest = label_at mx (lx + label_w) ws in
    if leb (lx - 4) mx && ltb mx (lx + label_w) then some w.id else rest

-- Where the labels begin.
abbrev pub labels_x : ℕ
labels_x = 8 + 4 * font_width + 6 + 8

module _ (font : Font) (from_utf8 : List ℕ → Option (List ℕ)) where
  -- Behind the allocation of the window's buffer.
  unfoldable pub add_window : Spec → WindowManager → Option (ℕ × WindowManager)
  add_window spec wm =
      let id = wm.next_id in
      draw_chrome font from_utf8 (is_none wm.focused || is_some wm.focused id)
        (blank_window wm.screen_info id spec)
      >>= λ win. some (
        id,
        record wm {
          windows = wm.windows ++ (win ∷ []);
          focused = if is_none wm.focused then some id else wm.focused;
          next_id = id + 1;
          needs_composite = true;
        },
      )

  unfoldable pub create_window : Spec → WindowManager → Option (ℕ × WindowManager)
  create_window spec wm =
      if is_allocated spec.width spec.height wm.screen_info.bytes_per_pixel
      then add_window spec wm
      else none

  -- `draw_chrome` and `dirty = true`
  unfoldable pub redraw : Bool → WmWindow → Option WmWindow
  redraw focused win =
      draw_chrome font from_utf8 focused win >>= λ win'. some (record win' { dirty = true })

  -- The old focused window redrawn.
  unfoldable pub unfocus : Option ℕ → List WmWindow → Option (List WmWindow)
  unfocus none ws = some ws
  unfocus (some old) ws = with_window old (redraw false) ws

  unfoldable pub focus_window : ℕ → WindowManager → Option WindowManager
  focus_window id wm =
      if is_some wm.focused id
      then some wm
      else (unfocus wm.focused wm.windows >>= λ ws.
          with_window id (redraw true) (to_front id ws) >>= λ ws'.
          some (record wm { windows = ws'; focused = some id; needs_composite = true }))

  -- `if let Some(id) = target { focus_window(id) }`
  unfoldable pub focus_target : Option ℕ → WindowManager → Option WindowManager
  focus_target none wm = some wm
  focus_target (some id) wm = focus_window id wm

  unfoldable pub handle_taskbar_click : ℕ → WindowManager → Option WindowManager
  handle_taskbar_click mx wm = focus_target (label_at mx labels_x wm.windows) wm
