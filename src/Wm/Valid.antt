-- ===== src/Wm/Valid.antt =====
-- What holds of the windows of a manager, and the steps on the list of windows that keep it.
use r_os.Common.{
  ℕ, ◌<◌, ◌≡◌, refl, ap, inl, inr, Option, none, some, List, [], ◌∷◌, ◌++◌, map, ◌==◌, Bool-cases,
  All,
}
use r_os.Common.Distinct.{Among, Distinct}
use r_os.Common.Loops.{Returns, Returns->>=}
use r_os.Wm.Cursor.{CursorState}
use r_os.Fb.{Buf, Rect, FrameBufferInfo}
use r_os.Console.{Console}
use r_os.Console.Cursor.{IsValid}
use r_os.Wm.Window.{WmWindow, content_rect}
use r_os.Wm.Manager.{WindowManager, with_window}
use r_os.Wm.Chrome.{IsDrawable}
use r_os.Wm.Blit.{IsModest, IsNear, IsShowable}

-- The console of a window, if it has one: valid, and in the content.
abbrev pub IsHosted : FrameBufferInfo → Rect → Option Console → Type 0
IsHosted info content none = Unit
IsHosted info content (some con) = IsValid info con × (con.content ≡ content)

-- A window that can be drawn and shown on the screen of that format, with its console.
pub record IsSound (screen : FrameBufferInfo) (win : WmWindow) : Type 0 where
  pub drawable : IsDrawable win
  pub same_format : win.buf_info.pixel_format ≡ screen.pixel_format
  pub same_bytes : win.buf_info.bytes_per_pixel ≡ screen.bytes_per_pixel
  pub modest : IsModest win.buf_info
  pub near : IsNear win
  pub hosted : IsHosted win.buf_info (content_rect win) win.console

pub IsShowable-IsSound :
    (screen : FrameBufferInfo) (win : WmWindow)
    → IsModest screen
    → IsSound screen win
    → IsShowable screen win
IsShowable-IsSound screen win modest s = record {
  canvas = s.drawable.canvas;
  sizes = s.drawable.sizes;
  same_format = s.same_format;
  same_bytes = s.same_bytes;
  modest = (modest, s.modest);
  near = s.near;
}

abbrev pub ids : List WmWindow → List ℕ
ids ws = map (λ w. w.id) ws

pub ids-append : (ws vs : List WmWindow) → ids (ws ++ vs) ≡ ids ws ++ ids vs
ids-append [] vs = refl
ids-append (w ∷ ws) vs = ap (λ l. w.id ∷ l) (ids-append ws vs)

-- The focus of a manager of these windows: one of them, and none only if there are none.
abbrev pub IsFocus : Option ℕ → List ℕ → Type 0
IsFocus none l = l ≡ []
IsFocus (some id) l = Among id l

pub record IsManager (wm : WindowManager) : Type 0 where
  pub windows : All (IsSound wm.screen_info) wm.windows
  pub distinct : Distinct (ids wm.windows)
  pub below : All (λ id. id < wm.next_id) (ids wm.windows)
  pub focus : IsFocus wm.focused (ids wm.windows)

-- What a display is made of, which only the drawing of the screen and the mouse change.
abbrev pub displayed : WindowManager → FrameBufferInfo × Buf × Buf × CursorState
displayed wm = (wm.screen_info, wm.back_buf, wm.bg_cache, wm.cursor)

module _ {A : Type 0} (P : A → Type 0) where
  pub All-append : (ws vs : List A) → All P ws → All P vs → All P (ws ++ vs)
  All-append [] vs a b = b
  All-append (w ∷ ws) vs a b = (a.0, All-append ws vs a.1 b)

  pub All_moved :
      (before : List A) (w : A) (after : List A)
      → All P (before ++ (w ∷ after))
      → All P ((before ++ after) ++ (w ∷ []))
  All_moved [] w after all = All-append after (w ∷ []) all.1 (all.0, tt)
  All_moved (v ∷ before) w after all = (all.0, All_moved before w after all.1)

module _ (P : WmWindow → Type 0) where
  -- A method on the window with an id, which may change all but the id.
  pub with_window-All :
      (id : ℕ) (f : WmWindow → Option WmWindow)
      → ((w : WmWindow) → P w → Returns (λ w'. P w' × (w'.id ≡ w.id)) (f w))
      → (ws : List WmWindow) → All P ws
      → Returns (λ ws'. All P ws' × (ids ws' ≡ ids ws)) (with_window id f ws)
  unfolding with_window
  with_window-All id f keeps [] all = (all, refl)
  with_window-All id f keeps (w ∷ ws) all = elim (Bool-cases (w.id == id)) [
    | inl this ↦
        rw (with_window, this)
          (Returns->>= _ _ (f w) _ (keeps w all.0)
            (λ w' h. ((h.0, all.1), ap (λ x. x ∷ ids ws) h.1)))
    | inr other ↦
        rw (with_window, other)
          (Returns->>= _ _ (with_window id f ws) _ (with_window-All id f keeps ws all.1)
            (λ ws' h. ((all.0, h.0), ap (λ l. w.id ∷ l) h.1)))
  ]
