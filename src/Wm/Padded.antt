-- ===== src/Wm/Padded.antt =====
-- Frame buffers whose rows are longer than the screen is wide: `composite` of kernel/src/wm.rs on
-- a buffer of another length than the back buffer.
use r_os.Common.{
  ℕ, ◌+◌, ◌*◌, ◌≡◌, refl, sym, ◌∙◌, ◌≢◌, ◌⊎◌, inl, inr, Bool, true, false, not, ◌&&◌, Option, none,
  some, List, [], ◌∷◌, arith, leb, ◌==◌, if◌then◌else◌, Bool-cases, length, length-replicate,
}
use r_os.Common.Loops.{◌>>=◌, Whenever, Whenever->>=, none->>=}
use r_os.Fb.{Buf, Color, FrameBufferInfo, black}
use r_os.Fb.Gradient.{draw_background}
use r_os.Fb.Lengths.{
  Sized, Sized->>=, Sized-if, Sized-for_range, Sized-fill_rect, Sized-put_pixel, Sized-draw_text,
  Sized-draw_background,
}
use r_os.Fb.Run.{length-copy_bytes}
use r_os.Fb.Text.{Font, font_width}
use r_os.Console.{white}
use r_os.Wm.Api
use r_os.Wm.Api.{Globals, FrameBufferState}
use r_os.Wm.Cursor.{
  CursorState, for_sprite, draw, draw_sprite_pixel, save_background, sprite_at, as_usize, in_words,
  put_at,
}
use r_os.Wm.Manager
use r_os.Wm.Manager.{WindowManager, is_some, is_allocated, screen_bytes, zeros}
use r_os.Wm.Screen.{
  is_addressed, blit_row, blit_window, blit_windows, copy_w, copy_from_slice, draw_highlight,
  draw_labels, draw_taskbar, draw_desktop, composite,
}
use r_os.Wm.Window.{WmWindow, title_str}

module _ (info : FrameBufferInfo) where
  Sized-blit_row : (win : WmWindow) (w row : ℕ) → Sized (blit_row info win w row)
  unfolding blit_row
  Sized-blit_row win w row buf =
      let src : ℕ = row * win.buf_info.stride * info.bytes_per_pixel in
      let dst : ℕ = ((win.y + row) * info.stride + win.x) * info.bytes_per_pixel in
      let bytes : ℕ = w * info.bytes_per_pixel in
      elim (Bool-cases (not (is_addressed info win w row))) [
        | inl bad ↦ rw bad tt
        | inr fine ↦
            rw fine
              (elim (Bool-cases
                (leb (src + bytes) (length win.buf) && leb (dst + bytes) (length buf))) [
                  | inl fits ↦ rw fits (length-copy_bytes bytes src dst win.buf buf)
                  | inr beyond ↦ rw beyond refl
                ])
      ]

  Sized-blit_windows : (ws : List WmWindow) → Sized (blit_windows info ws)
  unfolding blit_windows blit_window
  Sized-blit_windows [] = λ buf. refl
  Sized-blit_windows (w ∷ ws) =
      Sized->>= _ (blit_windows info ws)
        (Sized-for_range _ 0 _ (λ row. Sized-blit_row w (copy_w info w) row))
        (Sized-blit_windows ws)

  Sized-draw : (cursor : CursorState) → Sized (draw cursor info)
  unfolding draw for_sprite draw_sprite_pixel
  Sized-draw cursor = Sized-for_range _ 0 _ (λ sy. Sized-for_range _ 0 _ (λ sx.
      Sized-if (sprite_at sx sy == 1) _
        (λ buf. if sprite_at sx sy == 2 then put_at cursor info sy sx white buf else some buf)
        (Sized-put_at sx sy black)
        (Sized-if (sprite_at sx sy == 2) _ some (Sized-put_at sx sy white) (λ buf. refl))))
    where
      Sized-put_at : (sx sy : ℕ) (c : Color) → Sized (put_at cursor info sy sx c)
      Sized-put_at sx sy c =
          Sized-if (in_words (as_usize cursor.x) (as_usize cursor.y) sx sy) _ (λ buf. none)
            (Sized-put_pixel info (as_usize cursor.x + sx) (as_usize cursor.y + sy) c) (λ buf. tt)

  Sized-draw_highlight : (on : Bool) (lx : ℕ) (w : WmWindow) → Sized (draw_highlight info on lx w)
  unfolding draw_highlight
  Sized-draw_highlight false lx w = λ buf. refl
  Sized-draw_highlight true lx w = Sized-fill_rect info _ _ _ _ _

  module _ (font : Font) (from_utf8 : List ℕ → Option (List ℕ)) where
    Sized-titled :
        (m : Option (List ℕ)) (step : List ℕ → Buf → Option Buf)
        → ((t : List ℕ) → Sized (step t))
        → Sized (λ buf. m >>= λ t. step t buf)
    Sized-titled none step h = λ buf. tt
    Sized-titled (some t) step h = h t

    Sized-draw_labels :
        (focused : Option ℕ) (lx : ℕ) (ws : List WmWindow)
        → Sized (draw_labels font from_utf8 info focused lx ws)
    unfolding draw_labels
    Sized-draw_labels focused lx [] = λ buf. refl
    Sized-draw_labels focused lx (w ∷ ws) =
        Sized->>= (draw_highlight info (is_some focused w.id) lx w) _
          (Sized-draw_highlight (is_some focused w.id) lx w)
          (Sized-titled (title_str font from_utf8 w) _ (λ text.
            Sized->>= _
              (draw_labels font from_utf8 info focused (lx + (w.title_len * font_width + 16)) ws)
              (Sized-draw_text info font _ _ text _)
              (Sized-draw_labels focused (lx + (w.title_len * font_width + 16)) ws)))

    Sized-draw_taskbar :
        (ws : List WmWindow) (focused : Option ℕ)
        → Sized (draw_taskbar font from_utf8 info ws focused)
    unfolding draw_taskbar
    Sized-draw_taskbar ws focused = Sized->>= _ _ (Sized-fill_rect info _ _ _ _ _) (
        Sized->>= _ _ (Sized-fill_rect info _ _ _ _ _) (
          Sized->>= _ _ (Sized-draw_text info font _ _ _ _)
            (Sized->>= _ _ (Sized-fill_rect info _ _ _ _ _) (Sized-draw_labels focused _ ws))))

copied :
    (dst src : Buf)
    → (copy_from_slice dst src ≡ none)
      ⊎ ((copy_from_slice dst src ≡ some src) × (length dst ≡ length src))
copied dst src = elim (Bool-cases (length dst == length src)) [
  | inl same ↦ inr (rw same refl, ground arith)
  | inr other ↦ inl (rw other refl)
]

-- The global states behind each `init`.
abbrev IsDrawn : FrameBufferInfo → Buf → Globals → Globals → Type 0
IsDrawn info buf g g1 =
    (b : Buf) × (g1 ≡ record g { fb = some (record { buf = b; info = info }) })
    × (length b ≡ length buf)

abbrev HasBackground : FrameBufferInfo → Buf → Globals → Type 0
HasBackground info b g2 =
    (wm : WindowManager) × (g2
      ≡ record { wm = some wm; fb = some (record { buf = b; info = info }) })
    × (length wm.bg_cache ≡ screen_bytes info)

module _ (font : Font) (from_utf8 : List ℕ → Option (List ℕ)) where
  draw_desktop-length :
      (info : FrameBufferInfo) (wm : WindowManager)
      → Whenever (λ b. length b ≡ length wm.bg_cache) (draw_desktop font from_utf8 info wm)
  unfolding draw_desktop
  draw_desktop-length info wm = elim (copied wm.back_buf wm.bg_cache) [
    | inl e ↦ rw e tt
    | inr (e, l) ↦ rw e (
        Sized->>= (draw_taskbar font from_utf8 info wm.windows wm.focused)
          (blit_windows info wm.windows)
          (Sized-draw_taskbar info font from_utf8 wm.windows wm.focused)
          (Sized-blit_windows info wm.windows) wm.bg_cache)
  ]

  -- Whatever the windows are.
  composite-none :
      (info : FrameBufferInfo) (wm : WindowManager) (fb : Buf)
      → length fb ≢ length wm.bg_cache
      → composite font from_utf8 info wm fb ≡ none
  unfolding composite
  composite-none info wm fb ne =
      none->>= (λ b. length b ≡ length wm.bg_cache) (draw_desktop font from_utf8 info wm) _
        (draw_desktop-length info wm)
        (λ b1 l.
          none->>= (λ c. Unit) (save_background b1 info wm.cursor) _
            (anything (save_background b1 info wm.cursor))
            (λ c u.
              none->>= (λ b. length b ≡ length b1) (draw c info b1) _ (Sized-draw info c b1)
                (λ b2 l'. elim (copied fb b2) [
                  | inl e ↦ rw e refl
                  | inr (e, l'') ↦ absurd (ne (l'' ∙ l' ∙ l))
                ])))
    where
      anything : {A : Type 0} (m : Option A) → Whenever (λ a. Unit) m
      anything none = tt
      anything (some a) = tt

  new-length :
      (info : FrameBufferInfo)
      → Whenever (λ wm. length wm.bg_cache ≡ screen_bytes info) (Manager.new info)
  unfolding Manager.new
  new-length info = elim (Bool-cases (is_allocated info.width info.height info.bytes_per_pixel)) [
    | inr refused ↦ rw refused tt
    | inl given ↦ rw given (
        Whenever->>= (λ b. length b ≡ length (zeros (screen_bytes info))) _
          (draw_background info (zeros (screen_bytes info))) _
          (Sized-draw_background info (zeros (screen_bytes info)))
          (λ bg e. e ∙ length-replicate (screen_bytes info) 0))
  ]

  -- The boot sequence on a frame buffer that has not exactly the bytes of the screen's pixels, as
  -- one whose rows are padded, panics at the first composite at the latest.
  pub boot-composite-none :
      (info : FrameBufferInfo) (buf : Buf) (g : Globals)
      → length buf ≢ screen_bytes info
      → (Api.init_fb buf info g >>= λ g1. Api.init g1 >>= λ g2. Api.composite font from_utf8 g2)
        ≡ none
  unfolding Api.init_fb Api.init Api.composite Api.with_both
  boot-composite-none info buf g ne =
      none->>= (IsDrawn info buf g)
        (draw_background info buf >>= λ b.
          some (record g { fb = some (record { buf = b; info = info }) }))
        _
        (Whenever->>= (λ b. length b ≡ length buf) _ (draw_background info buf) _
          (Sized-draw_background info buf) (λ b l. (b, refl, l)))
        (λ g1 (b, e, l). rw e (
          none->>= (HasBackground info b)
            (Manager.new info >>= λ wm.
              some (record { wm = some wm; fb = some (record { buf = b; info = info }) }))
            _
            (Whenever->>= (λ wm. length wm.bg_cache ≡ screen_bytes info) _ (Manager.new info) _
              (new-length info) (λ wm l'. (wm, refl, l')))
            (λ g2 (wm, e', l'). rw e' (
              none->>= (λ p. ⊥) (composite font from_utf8 info wm b) _
                (rw (composite-none info wm b (λ eq. ne (sym l ∙ eq ∙ l'))) tt)
                (λ p bad. absurd bad)))))
