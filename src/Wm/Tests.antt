-- ===== src/Wm/Tests.antt =====
-- Runs on a screen of 64 by 48 pixels, with two windows.
use r_os.Common.{
  ℕ, ◌<◌, ◌≡◌, refl, inl, inr, true, false, Option, none, some, List, [], ◌∷◌, ◌++◌, map, arith,
  ltb, ◌≢◌, if◌then◌else◌, replicate, length-replicate,
}
use r_os.Common.Distinct.{Among, Among-append_right}
use r_os.Common.Int.{pos, negsuc, ◌+ℤ◌, ◌-ℤ◌}
use r_os.Common.Loops.{Returns, Returns-some, Returns-imp, ◌>>=◌}
use mathlib.Core.List.{reverse}
use r_os.Fb.{Buf, FrameBufferInfo, black, bgr}
use r_os.Fb.Canvas.{IsCanvas, pixel_at}
use r_os.Fb.Tests.{blocks}
use r_os.Mouse.{MouseEvent}
use r_os.Wm.Api
use r_os.Wm.Api.{Globals}
use r_os.Wm.Create.{IsRoomy, focus_or, create_window-IsManager}
use r_os.Wm.Cursor
use r_os.Wm.Cursor.{CursorState, apply_delta, save_background, draw, restore_background}
use r_os.Wm.Display.{IsDisplay, composite-IsManager}
use r_os.Wm.Events.{IsDisplay_same}
use r_os.Wm.Window.{WmWindow}
use r_os.Wm.Focus.{InFront, focus_window-IsManager}
use r_os.Wm.Hit.{IsSeen, first_hit-IsSeen}
use r_os.Wm.Layers.{shown}
use r_os.Wm.Manager
use r_os.Wm.Manager.{zeros, WindowManager, Spec, is_some, zeros, blank_window}
use r_os.Wm.Padded.{boot-composite-none}
use r_os.Wm.Pointer.{IsI16, Confined, apply_delta-Confined}
use r_os.Wm.Saved.{draw-restore_background}
use r_os.Wm.Screen
use r_os.Wm.Screen.{clean, first_hit, taskbar_y}
use r_os.Wm.Session.{Call, create, init_console, write, mouse, composite, IsReady, run, run-IsReady}
use r_os.Wm.Sprite.{sprite}
use r_os.Wm.Start.{IsScreen, init-IsReady}
use r_os.Wm.Valid.{IsManager, displayed, ids}

abbrev screen : FrameBufferInfo
screen = record { width = 64; height = 48; stride = 64; bytes_per_pixel = 4; pixel_format = bgr }

abbrev screen_buf : Buf
screen_buf = replicate 12288 0

pub screen_buf-IsCanvas : IsCanvas screen screen_buf
screen_buf-IsCanvas = record {
  colors = record { format = inr refl; bytes = omega arith };
  in_stride = omega arith;
  in_words = (omega arith, omega arith);
  holds = omega (arith, length-replicate {A = ℕ} 12288 0);
}

pub screen_buf-IsScreen : IsScreen screen screen_buf
screen_buf-IsScreen = record {
  canvas = screen_buf-IsCanvas;
  exact = length-replicate {A = ℕ} 12288 0;
  some_pixel = (omega arith, omega arith);
  in_i32 = (omega arith, omega arith);
  modest = record { pixels = omega arith; bytes = omega arith };
}

-- Texts of ASCII alone.
abbrev pub ascii : List ℕ → Option (List ℕ)
ascii [] = some []
ascii (b ∷ bs) = let rest = ascii bs in if ltb b 128 then (rest >>= λ l. some (b ∷ l)) else none

abbrev spec : Spec
spec = record { x = 4; y = 2; width = 40; height = 40; title = b'S' ∷ []; owner_task = 1 }

spec-IsRoomy : IsRoomy spec
spec-IsRoomy = record {
  wide = omega arith;
  high = omega arith;
  sizes = (omega arith, omega arith);
  place = omega arith;
}

init-IsReady_example :
    Returns IsReady (Api.init_fb screen_buf screen (record { wm = none; fb = none }) >>= Api.init)
init-IsReady_example =
    init-IsReady screen screen_buf (record { wm = none; fb = none }) screen_buf-IsScreen

abbrev pub started :
    (g : Globals) × (((Api.init_fb screen_buf screen (record { wm = none; fb = none }) >>= Api.init)
        ≡ some g)
      × IsReady g)
started =
    Returns-some IsReady
      (Api.init_fb screen_buf screen (record { wm = none; fb = none }) >>= Api.init)
      (init-IsReady screen screen_buf (record { wm = none; fb = none }) screen_buf-IsScreen)

-- A left click far to the right and below.
abbrev event : MouseEvent
event = record { dx = pos 200; dy = negsuc 200; left = true; right = false; middle = false }

event-IsI16 : IsI16 event.dx × IsI16 event.dy
event-IsI16 = ((omega arith, omega arith), (omega arith, omega arith))

abbrev calls : List Call
calls =
    create spec
    ∷ init_console 0
    ∷ write 0 (b'h' ∷ b'i' ∷ 10 ∷ [])
    ∷ create spec
    ∷ mouse event
    ∷ composite
    ∷ []

run-IsReady_example : Returns IsReady (run blocks ascii calls started.0)
run-IsReady_example =
    run-IsReady blocks ascii calls started.0
      (spec-IsRoomy, (tt, (tt, (spec-IsRoomy, (event-IsI16, (tt, tt)))))) started.1.1

-- The manager at the beginning, with its frame buffer.
abbrev wm : WindowManager
wm = started.1.1.0

abbrev fb : Buf
fb = started.1.1.1.buf

wm-IsManager : IsManager wm
wm-IsManager = started.1.1.3.manager

wm-IsDisplay : IsDisplay wm fb
wm-IsDisplay = started.1.1.3.display

create_window-IsManager_example :
    Returns
      (λ p.
        IsManager p.1
        × (p.0 ≡ wm.next_id)
        × (¬ Among p.0 (ids wm.windows))
        × (ids p.1.windows ≡ ids wm.windows ++ (p.0 ∷ []))
        × (p.1.focused ≡ focus_or wm.focused p.0)
        × (displayed p.1 ≡ displayed wm))
      (Manager.create_window blocks ascii spec wm)
create_window-IsManager_example =
    create_window-IsManager blocks ascii spec wm wm-IsDisplay.screen.colors wm-IsDisplay.modest
      spec-IsRoomy wm-IsManager

-- What is used of a manager with a first window.
abbrev IsMade : ℕ × WindowManager → Type 0
IsMade p = IsManager p.1 × (ids p.1.windows ≡ ids wm.windows ++ (p.0 ∷ [])) × IsDisplay p.1 fb

abbrev made :
    (p : ℕ × WindowManager) × ((Manager.create_window blocks ascii spec wm ≡ some p) × IsMade p)
made = Returns-some IsMade (Manager.create_window blocks ascii spec wm) (
    Returns-imp _ _ (Manager.create_window blocks ascii spec wm)
      (λ p h. (h.0, h.3, IsDisplay_same wm p.1 fb h.5 wm-IsDisplay))
      (create_window-IsManager blocks ascii spec wm wm-IsDisplay.screen.colors wm-IsDisplay.modest
        spec-IsRoomy wm-IsManager))

-- The manager with a window, and the window's id.
abbrev wm1 : WindowManager
wm1 = made.0.1

abbrev id1 : ℕ
id1 = made.0.0

id1_there : Among id1 (ids wm1.windows)
id1_there = rw made.1.1.1 (Among-append_right id1 (ids wm.windows) (id1 ∷ []) (inl refl))

focus_window-IsManager_example :
    Returns
      (λ wm'.
        IsManager wm'
        × (wm'.focused ≡ some id1)
        × InFront (is_some wm1.focused id1) id1 (ids wm1.windows) (ids wm'.windows)
        × (wm1.focused ≡ some id1 → wm' ≡ wm1)
        × (wm1.focused ≢ some id1 → wm'.needs_composite ≡ true)
        × (displayed wm' ≡ displayed wm1))
      (Manager.focus_window blocks ascii id1 wm1)
focus_window-IsManager_example = focus_window-IsManager blocks ascii id1 wm1 made.1.1.0 id1_there

composite-IsManager_example :
    Returns
      (λ p.
        IsManager p.0
        × IsDisplay p.0 p.1
        × ((p.0.windows ≡ map clean wm1.windows)
            × (p.0.focused ≡ wm1.focused)
            × (p.0.needs_composite ≡ false)
            × (p.0.screen_info ≡ wm1.screen_info)
            × (p.0.bg_cache ≡ wm1.bg_cache)
            × (p.0.next_id ≡ wm1.next_id)
            × (p.0.cursor ≡ record wm1.cursor { saved_bg = p.0.cursor.saved_bg; visible = true }))
        × ((px py : ℕ)
            → px < wm1.screen_info.width
            → py < taskbar_y wm1.screen_info
            → sprite wm1.cursor px py ≡ false
            → pixel_at wm1.screen_info p.1 px py
              ≡ shown px py wm1.windows (pixel_at wm1.screen_info wm1.bg_cache px py)))
      (Screen.composite blocks ascii wm1.screen_info wm1 fb)
composite-IsManager_example = composite-IsManager blocks ascii wm1 fb made.1.1.0 made.1.1.2

-- Two windows, the one in front over a part of the other.
abbrev windows : List WmWindow
windows = blank_window screen 0 spec ∷ blank_window screen 1 (record spec { x = 20 }) ∷ []

first_hit-IsSeen_example : IsSeen 30 10 windows black (first_hit 30 10 (reverse windows))
first_hit-IsSeen_example = first_hit-IsSeen 30 10 windows black

-- The cursor in the corner, with most of its sprite off the screen.
abbrev corner : CursorState
corner = record (Cursor.new 64 48) { x = pos 60; y = pos 47 }

draw-restore_background_example :
    Returns
      (λ b.
        (px py : ℕ)
        → px < screen.width
        → py < screen.height
        → pixel_at screen b px py ≡ pixel_at screen screen_buf px py)
      (save_background screen_buf screen corner >>= λ c.
        draw c screen screen_buf >>= λ b. restore_background (record c { visible = true }) screen b)
unfolding Cursor.new
draw-restore_background_example =
    draw-restore_background screen screen_buf corner screen_buf-IsCanvas
      (length-replicate 192 black) (record { x_in = omega arith; y_in = omega arith })

apply_delta-Confined_example :
    Returns
      (λ c.
        Confined corner.screen_width (corner.x +ℤ negsuc 80) c.x
        × Confined corner.screen_height (corner.y -ℤ negsuc 3) c.y
        × (c ≡ record corner { x = c.x; y = c.y }))
      (apply_delta (negsuc 80) (negsuc 3) corner)
unfolding Cursor.new ◌+ℤ◌
apply_delta-Confined_example =
    apply_delta-Confined (negsuc 80) (negsuc 3) corner
      ((omega arith, omega arith), (omega arith, omega arith))
      (record { low = omega arith; high = omega arith; in_i32 = omega arith })
      (record { low = omega arith; high = omega arith; in_i32 = omega arith })

-- Rows of 66 pixels, of which 64 are on the screen.
abbrev padded : FrameBufferInfo
padded = record screen { stride = 66 }

boot-composite-none_example :
    (Api.init_fb (zeros 12672) padded (record { wm = none; fb = none }) >>= λ g1.
    Api.init g1 >>= λ g2. Api.composite blocks ascii g2)
    ≡ none
boot-composite-none_example =
    boot-composite-none blocks ascii padded (zeros 12672) (record { wm = none; fb = none })
      (λ e. omega (arith, length-replicate {A = ℕ} 12672 0))
