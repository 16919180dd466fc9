-- ===== src/Wm/Api.antt =====
-- The functions of kernel/src/wm.rs over the two global states WM and FB_STATE, whose locks no
-- other code holds, and `init` of kernel/src/framebuffer.rs. `none` is a panic.
use r_os.Common.{ℕ, Bool, true, false, Option, none, some, List, if◌then◌else◌}
use r_os.Common.Loops.{◌>>=◌}
use r_os.Fb.{Buf, FrameBufferInfo}
use r_os.Fb.Gradient.{draw_background}
use r_os.Fb.Text.{Font}
use r_os.Console
use r_os.Mouse.{MouseEvent}
use r_os.Wm.Manager
use r_os.Wm.Manager.{WindowManager, Spec, with_window}
use r_os.Wm.Screen
use r_os.Wm.Window.{WmWindow}

pub record FrameBufferState : Type 0 where
  pub buf : Buf
  pub info : FrameBufferInfo

-- WM and FB_STATE
pub record Globals : Type 0 where
  pub wm : Option WindowManager
  pub fb : Option FrameBufferState

unfoldable pub init_fb : Buf → FrameBufferInfo → Globals → Option Globals
init_fb buf info g = draw_background info buf >>= λ buf'.
    some (record g { fb = some (record { buf = buf'; info = info }) })

-- `wm::init`
unfoldable pub init : Globals → Option Globals
init g = elim g.fb [
  | none ↦ some g
  | some fb ↦ Manager.new fb.info >>= λ wm. some (record g { wm = some wm })
]

-- `with_wm`, of a function that returns nothing.
unfoldable pub with_wm : (WindowManager → Option WindowManager) → Globals → Option Globals
with_wm f g = elim g.wm [
  | none ↦ some g
  | some wm ↦ f wm >>= λ wm'. some (record g { wm = some wm' })
]

-- The closures of the four console functions: the method on the window's console, if it has one.
unfoldable pub with_console :
    (FrameBufferInfo → Console.Console → Buf → Console.Result) → WmWindow → Option WmWindow
with_console method win = elim win.console [
  | none ↦ some win
  | some con ↦ method win.buf_info con win.buf >>= λ p.
      some (record win { console = some p.0; buf = p.1; dirty = true })
]

unfoldable pub on_console :
    (FrameBufferInfo → Console.Console → Buf → Console.Result)
    → ℕ
    → WindowManager
    → Option WindowManager
on_console method id wm = with_window id (with_console method) wm.windows >>= λ ws.
    some (record wm { windows = ws; needs_composite = true })

unfoldable pub console_show_cursor : ℕ → Globals → Option Globals
console_show_cursor id = with_wm (on_console Console.draw_cursor id)

unfoldable pub console_hide_cursor : ℕ → Globals → Option Globals
console_hide_cursor id = with_wm (on_console Console.erase_cursor id)

unfoldable pub console_clear : ℕ → Globals → Option Globals
console_clear id = with_wm (on_console Console.clear id)

unfoldable pub init_console : ℕ → Globals → Option Globals
init_console id = with_wm (Manager.init_console id)

unfoldable pub mark_dirty : ℕ → Globals → Option Globals
mark_dirty id = with_wm (Manager.mark_dirty id)

unfoldable pub is_focused : ℕ → Globals → Bool
is_focused id g = elim g.wm [ none ↦ false | some wm ↦ Manager.is_focused wm id ]

-- Both states, if they are there.
unfoldable pub with_both :
    (FrameBufferInfo → WindowManager → Buf → Option (WindowManager × Buf))
    → Globals
    → Option Globals
with_both f g = elim g.wm [
  | none ↦ some g
  | some wm ↦ elim g.fb [
    | none ↦ some g
    | some fb ↦ f fb.info wm fb.buf >>= λ p.
        some (record { wm = some p.0; fb = some (record fb { buf = p.1 }) })
  ]
]

module _ (font : Font) (from_utf8 : List ℕ → Option (List ℕ)) where
  -- `unwrap_or(0)`
  unfoldable pub create_window : Spec → Globals → Option (ℕ × Globals)
  create_window spec g = elim g.wm [
    | none ↦ some (0, g)
    | some wm ↦
        Manager.create_window font from_utf8 spec wm >>= λ p. some (p.0, record g { wm = some p.1 })
  ]

  -- `s` is the characters of the text.
  unfoldable pub console_write : ℕ → List ℕ → Globals → Option Globals
  console_write id s =
      with_wm (on_console (λ info con buf. Console.write_str font info s con buf) id)

  unfoldable pub composite : Globals → Option Globals
  composite = with_both (Screen.composite font from_utf8)

  -- A mouse event, and a composite if that is needed behind it.
  unfoldable pub mouse_then_composite :
      MouseEvent → FrameBufferInfo → WindowManager → Buf → Option (WindowManager × Buf)
  mouse_then_composite event info wm buf =
      Screen.handle_mouse font from_utf8 info event wm buf >>= λ p.
      (if p.0.needs_composite then Screen.composite font from_utf8 info p.0 p.1 else some p)

  unfoldable pub handle_mouse : MouseEvent → Globals → Option Globals
  handle_mouse event = with_both (mouse_then_composite event)
