-- ===== src/Wm/Session.antt =====
-- Calls of the window manager of kernel/src/wm.rs in any order, from its beginning.
use r_os.Common.{ℕ, ◌≡◌, refl, sym, ap, ◌∙◌, Option, some, List, [], ◌∷◌, All}
use r_os.Common.Loops.{Returns, Returns->>=, Returns-imp, Returns-if, ◌>>=◌}
use r_os.Console
use r_os.Fb.{Buf, FrameBufferInfo}
use r_os.Fb.Pixel.{IsTrueColor}
use r_os.Fb.Text.{Font}
use r_os.Mouse.{MouseEvent}
use r_os.Wm.Api
use r_os.Wm.Api.{Globals, FrameBufferState, mouse_then_composite}
use r_os.Wm.Manager
use r_os.Wm.Manager.{WindowManager, Spec}
use r_os.Wm.Screen
use r_os.Wm.Consoles.{
  Keeps, Keeps-write_str, Keeps-clear, Keeps-draw_cursor, Keeps-erase_cursor, on_console-IsManager,
  init_console-IsManager, mark_dirty-IsManager,
}
use r_os.Wm.Create.{IsRoomy, create_window-IsManager}
use r_os.Wm.Display.{IsDisplay, composite-IsManager}
use r_os.Wm.Events.{IsDisplay_same, handle_mouse-IsManager}
use r_os.Wm.Pointer.{IsI16}
use r_os.Wm.Valid.{IsManager, displayed}

-- The calls that the tasks make. A text is its characters.
pub data Call : Type 0 where
  create : Spec → Call
  init_console : ℕ → Call
  write : ℕ → List ℕ → Call
  show_cursor : ℕ → Call
  hide_cursor : ℕ → Call
  clear : ℕ → Call
  mark_dirty : ℕ → Call
  mouse : MouseEvent → Call
  composite : Call

-- What is asked of the calls: a window has room for its chrome and is not too large, and the
-- movements of the mouse are of the type `i16`.
abbrev pub IsAllowed : Call → Type 0
IsAllowed (create spec) = IsRoomy spec
IsAllowed (mouse event) = IsI16 event.dx × IsI16 event.dy
IsAllowed _ = Unit

-- Both states there, of one screen, and valid.
pub record IsUp (wm : WindowManager) (fb : FrameBufferState) : Type 0 where
  pub manager : IsManager wm
  pub display : IsDisplay wm fb.buf
  pub same : fb.info ≡ wm.screen_info

abbrev pub IsReady : Globals → Type 0
IsReady g =
    (wm : WindowManager) × (fb : FrameBufferState) × (g ≡ record { wm = some wm; fb = some fb })
    × IsUp wm fb

-- A step of the manager alone.
with_wm-IsReady :
    (f : WindowManager → Option WindowManager) (g : Globals)
    → ((wm : WindowManager)
        → IsManager wm
        → Returns (λ wm'. IsManager wm' × (displayed wm' ≡ displayed wm)) (f wm))
    → IsReady g
    → Returns IsReady (Api.with_wm f g)
unfolding Api.with_wm
with_wm-IsReady f g keeps (wm, fb, e, up) = rw e (
    Returns->>= _ _ (f wm) _ (keeps wm up.manager) (λ wm' h. (
      wm',
      fb,
      refl,
      record {
        manager = h.0;
        display = IsDisplay_same wm wm' fb.buf h.1 up.display;
        same = up.same ∙ sym (ap (λ t. t.0) h.1);
      },
    )))

-- A step of the manager and the screen.
with_both-IsReady :
    (f : FrameBufferInfo → WindowManager → Buf → Option (WindowManager × Buf)) (g : Globals)
    → ((wm : WindowManager) (fb : Buf)
        → IsManager wm
        → IsDisplay wm fb
        → Returns
            (λ p. IsManager p.0 × IsDisplay p.0 p.1 × (p.0.screen_info ≡ wm.screen_info))
            (f wm.screen_info wm fb))
    → IsReady g
    → Returns IsReady (Api.with_both f g)
unfolding Api.with_both
with_both-IsReady f g keeps (wm, fb, e, up) =
    rw (e, up.same)
      (Returns->>= _ _ (f wm.screen_info wm fb.buf) _ (keeps wm fb.buf up.manager up.display)
        (λ p h. (
          p.0,
          record { buf = p.1; info = wm.screen_info },
          refl,
          record { manager = h.0; display = h.1; same = sym h.2 },
        )))

console_step :
    (method : FrameBufferInfo → Console.Console → Buf → Console.Result)
    → Keeps method
    → (id : ℕ) (g : Globals) → IsReady g
    → Returns IsReady (Api.with_wm (Api.on_console method id) g)
console_step method keeps id g ready =
    with_wm-IsReady (Api.on_console method id) g
      (λ wm m.
        Returns-imp _ _ (Api.on_console method id wm) (λ wm' h. (h.0, h.3))
          (on_console-IsManager method id wm keeps m))
      ready

module _ (font : Font) (from_utf8 : List ℕ → Option (List ℕ)) where
  -- The call of `create_window`, whose id is dropped.
  abbrev pub step : Call → Globals → Option Globals
  step (create spec) g = Api.create_window font from_utf8 spec g >>= λ p. some p.1
  step (init_console id) g = Api.init_console id g
  step (write id text) g = Api.console_write font from_utf8 id text g
  step (show_cursor id) g = Api.console_show_cursor id g
  step (hide_cursor id) g = Api.console_hide_cursor id g
  step (clear id) g = Api.console_clear id g
  step (mark_dirty id) g = Api.mark_dirty id g
  step (mouse event) g = Api.handle_mouse font from_utf8 event g
  step composite g = Api.composite font from_utf8 g

  unfoldable pub run : List Call → Globals → Option Globals
  run [] g = some g
  run (call ∷ calls) g = step call g >>= λ g'. run calls g'

  composite-keeps :
      (wm : WindowManager) (fb : Buf)
      → IsManager wm
      → IsDisplay wm fb
      → Returns
          (λ p. IsManager p.0 × IsDisplay p.0 p.1 × (p.0.screen_info ≡ wm.screen_info))
          (Screen.composite font from_utf8 wm.screen_info wm fb)
  composite-keeps wm fb m d =
      Returns-imp _ _ (Screen.composite font from_utf8 wm.screen_info wm fb)
        (λ p h. (h.0, h.1, h.2.3)) (composite-IsManager font from_utf8 wm fb m d)

  mouse-keeps :
      (event : MouseEvent)
      → IsI16 event.dx × IsI16 event.dy
      → (wm : WindowManager) (fb : Buf) → IsManager wm
      → IsDisplay wm fb
      → Returns
          (λ p. IsManager p.0 × IsDisplay p.0 p.1 × (p.0.screen_info ≡ wm.screen_info))
          (mouse_then_composite font from_utf8 event wm.screen_info wm fb)
  unfolding mouse_then_composite
  mouse-keeps event i wm fb m d =
      Returns->>= _ _ (Screen.handle_mouse font from_utf8 wm.screen_info event wm fb) _
        (handle_mouse-IsManager font from_utf8 event wm fb i m d)
        (λ p h.
          Returns-if _ p.0.needs_composite _ (some p) (rw (← h.2) (composite-keeps p.0 p.1 h.0 h.1))
            h)

  pub step-IsReady :
      (call : Call) (g : Globals) → IsAllowed call → IsReady g → Returns IsReady (step call g)
  unfolding Api.create_window Api.init_console Api.console_write Api.console_show_cursor
      Api.console_hide_cursor Api.console_clear Api.mark_dirty Api.handle_mouse Api.composite
  step-IsReady (create spec) g roomy (wm, fb, e, up) =
      let colors : IsTrueColor wm.screen_info = up.display.screen.colors in
      rw e (
        Returns->>= _ _
          (Manager.create_window font from_utf8 spec wm >>= λ p.
            some (p.0, record { wm = some p.1; fb = some fb }))
          _
          (Returns->>= _ (λ q. IsReady q.1) (Manager.create_window font from_utf8 spec wm) _
            (create_window-IsManager font from_utf8 spec wm colors up.display.modest roomy
              up.manager)
            (λ p h. (
              p.1,
              fb,
              refl,
              record {
                manager = h.0;
                display = IsDisplay_same wm p.1 fb.buf h.5 up.display;
                same = up.same ∙ sym (ap (λ t. t.0) h.5);
              },
            )))
          (λ q r. r))
  step-IsReady (init_console id) g a ready =
      with_wm-IsReady (Manager.init_console id) g
        (λ wm m.
          Returns-imp _ _ (Manager.init_console id wm) (λ wm' h. (h.0, h.3))
            (init_console-IsManager id wm m))
        ready
  step-IsReady (write id text) g a ready =
      console_step (λ info con buf. Console.write_str font info text con buf)
        (Keeps-write_str font text) id g ready
  step-IsReady (show_cursor id) g a ready =
      console_step Console.draw_cursor Keeps-draw_cursor id g ready
  step-IsReady (hide_cursor id) g a ready =
      console_step Console.erase_cursor Keeps-erase_cursor id g ready
  step-IsReady (clear id) g a ready = console_step Console.clear Keeps-clear id g ready
  step-IsReady (mark_dirty id) g a ready =
      with_wm-IsReady (Manager.mark_dirty id) g
        (λ wm m.
          Returns-imp _ _ (Manager.mark_dirty id wm) (λ wm' h. (h.0, h.3))
            (mark_dirty-IsManager id wm m))
        ready
  step-IsReady (mouse event) g a ready =
      with_both-IsReady (mouse_then_composite font from_utf8 event) g (mouse-keeps event a) ready
  step-IsReady composite g a ready =
      with_both-IsReady (Screen.composite font from_utf8) g composite-keeps ready

  -- From two valid states of one screen any calls, in any order, with any ids, texts and mouse
  -- events of two `i16`, run without a panic to two valid states, if each window that is created has
  -- room for its chrome and its width, height and left edge are below 2^24.
  pub run-IsReady :
      (calls : List Call) (g : Globals)
      → All IsAllowed calls
      → IsReady g
      → Returns IsReady (run calls g)
  unfolding run
  run-IsReady [] g a ready = ready
  run-IsReady (call ∷ calls) g a ready =
      Returns->>= IsReady IsReady (step call g) _ (step-IsReady call g a.0 ready)
        (λ g' r. run-IsReady calls g' a.1 r)
