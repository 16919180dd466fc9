-- ===== src/Wm/Display.antt =====
-- The screen as a whole: `composite` of kernel/src/wm.rs.
use r_os.Common.{
  ℕ, ◌+◌, ◌*◌, ◌^◌, ◌≤◌, ◌<◌, ◌≡◌, refl, sym, ap, ◌∙◌, true, false, Option, some, List, [], ◌∷◌,
  map, arith, ◌==◌, length, All,
}
use r_os.Common.Int.{ℤ, pos, negsuc, ◌+ℤ◌}
use r_os.Common.Loops.{Returns, Returns->>=, Returns-imp}
use r_os.Fb.{Buf, FrameBufferInfo}
use r_os.Fb.Canvas.{IsCanvas, pixel_at}
use r_os.Fb.Text.{Font}
use r_os.Wm.Cursor.{CursorState, cursor_w, cursor_h, as_usize, save_background, draw}
use r_os.Wm.Window.{WmWindow}
use r_os.Wm.Manager.{WindowManager}
use r_os.Wm.Screen.{
  draw_desktop, composite, draw_taskbar, blit_windows, taskbar_y, clean, copy_from_slice,
}
use r_os.Wm.Layers.{shown, blit_windows-Layered}
use r_os.Wm.Pointer.{IsAxis}
use r_os.Wm.Saved.{saved_words, save_background-IsSaved}
use r_os.Wm.Sprite.{IsInWords, sprite, draw-DrawsIn}
use r_os.Wm.Taskbar.{draw_taskbar-DrawsIn}
use r_os.Wm.Focus.{IsSound_drawn}
use r_os.Wm.Valid.{IsSound, IsManager, IsShowable-IsSound, ids}
use r_os.Wm.Blit.{IsModest, IsShowable}

-- The buffers of a manager and the frame buffer: canvases of one length, with the cursor on the
-- screen.
pub record IsDisplay (wm : WindowManager) (fb : Buf) : Type 0 where
  pub screen : IsCanvas wm.screen_info fb
  pub ground : IsCanvas wm.screen_info wm.bg_cache
  pub lengths : (length wm.bg_cache ≡ length fb) × (length wm.back_buf ≡ length fb)
  pub slots : length wm.cursor.saved_bg ≡ cursor_w * cursor_h
  pub across : IsAxis wm.cursor.screen_width wm.cursor.x
  pub down : IsAxis wm.cursor.screen_height wm.cursor.y
  pub modest : IsModest wm.screen_info

at_words : (size at : ℤ) → IsAxis size at → as_usize at + 16 ≤ 2 ^ 64
unfolding ◌+ℤ◌
at_words size (pos n) a = let high = a.high in let top = a.in_i32 in ground arith
at_words size (negsuc n) a = let low = a.low in absurd (ground arith)

pub cursor-IsInWords :
    (c : CursorState) → IsAxis c.screen_width c.x → IsAxis c.screen_height c.y → IsInWords c
cursor-IsInWords c across down = record {
  x_in = omega (arith, at_words c.screen_width c.x across);
  y_in = omega (arith, at_words c.screen_height c.y down);
}

copy_from_slice_lem : (dst src : Buf) → length dst ≡ length src → copy_from_slice dst src ≡ some src
copy_from_slice_lem dst src e =
    let same : (length dst == length src) ≡ true = ground arith in rw same

showable :
    (screen : FrameBufferInfo) (ws : List WmWindow)
    → IsModest screen
    → All (IsSound screen) ws
    → All (IsShowable screen) ws
showable screen [] modest all = tt
showable screen (w ∷ ws) modest all =
    (IsShowable-IsSound screen w modest all.0, showable screen ws modest all.1)

titled :
    (screen : FrameBufferInfo) (ws : List WmWindow)
    → All (IsSound screen) ws
    → All (λ (w : WmWindow). w.title_len ≤ length w.title) ws
titled screen [] all = tt
titled screen (w ∷ ws) all = (all.0.drawable.titled, titled screen ws all.1)

cleaned :
    (screen : FrameBufferInfo) (ws : List WmWindow)
    → All (IsSound screen) ws
    → All (IsSound screen) (map clean ws)
cleaned screen [] all = tt
cleaned screen (w ∷ ws) all =
    (IsSound_drawn screen w w.buf false all.0 all.0.drawable.canvas, cleaned screen ws all.1)

cleaned_ids : (ws : List WmWindow) → ids (map clean ws) ≡ ids ws
cleaned_ids [] = refl
cleaned_ids (w ∷ ws) = ap (λ l. w.id ∷ l) (cleaned_ids ws)

-- The windows over the background, above the taskbar.
record IsDesktop (wm : WindowManager) (b : Buf) : Type 0 where
  canvas : IsCanvas wm.screen_info b
  same_length : length b ≡ length wm.bg_cache
  pixels :
      (px py : ℕ)
      → px < wm.screen_info.width
      → py < taskbar_y wm.screen_info
      → pixel_at wm.screen_info b px py
        ≡ shown px py wm.windows (pixel_at wm.screen_info wm.bg_cache px py)

module _ (font : Font) (from_utf8 : List ℕ → Option (List ℕ)) where
  draw_desktop-IsDesktop :
      (wm : WindowManager) (fb : Buf)
      → IsManager wm
      → IsDisplay wm fb
      → Returns (IsDesktop wm) (draw_desktop font from_utf8 wm.screen_info wm)
  unfolding draw_desktop
  draw_desktop-IsDesktop wm fb m d =
      let info : FrameBufferInfo = wm.screen_info in
      rw (copy_from_slice_lem wm.back_buf wm.bg_cache (d.lengths.1 ∙ sym d.lengths.0)) (
        Returns->>= _ _ (draw_taskbar font from_utf8 info wm.windows wm.focused wm.bg_cache) _
          (draw_taskbar-DrawsIn info font from_utf8 wm.windows wm.focused
            (titled info wm.windows m.windows) wm.bg_cache d.ground)
          (λ b k.
            Returns-imp _ _ (blit_windows info wm.windows b)
              (λ b' l. record {
                canvas = l.canvas;
                same_length = l.same_length ∙ k.same_length;
                pixels = λ px py hx hy.
                    l.pixels px py hx (omega arith)
                    ∙ ap (shown px py wm.windows) (k.outside px py hx (omega arith) (ground arith));
              })
              (blit_windows-Layered info wm.windows b (showable info wm.windows d.modest m.windows)
                k.canvas)))

  -- `composite` of a valid manager does not panic and keeps the manager valid. Each window stays as
  -- it is but for its mark of a change, which is taken away; focus, screen and background stay, the
  -- cursor stays at its place and is visible, and no other composite is asked for. Above the taskbar and off the cursor every pixel
  -- of the frame buffer is that of the front window that covers it, or of the background if none does.
  pub composite-IsManager :
      (wm : WindowManager) (fb : Buf)
      → IsManager wm
      → IsDisplay wm fb
      → Returns
          (λ p.
            IsManager p.0
            × IsDisplay p.0 p.1
            × ((p.0.windows ≡ map clean wm.windows)
                × (p.0.focused ≡ wm.focused)
                × (p.0.needs_composite ≡ false)
                × (p.0.screen_info ≡ wm.screen_info)
                × (p.0.bg_cache ≡ wm.bg_cache)
                × (p.0.next_id ≡ wm.next_id)
                × (p.0.cursor
                    ≡ record wm.cursor { saved_bg = p.0.cursor.saved_bg; visible = true }))
            × ((px py : ℕ)
                → px < wm.screen_info.width
                → py < taskbar_y wm.screen_info
                → sprite wm.cursor px py ≡ false
                → pixel_at wm.screen_info p.1 px py
                  ≡ shown px py wm.windows (pixel_at wm.screen_info wm.bg_cache px py)))
          (composite font from_utf8 wm.screen_info wm fb)
  unfolding composite
  composite-IsManager wm fb m d =
      let info : FrameBufferInfo = wm.screen_info in
      Returns->>= _ _ (draw_desktop font from_utf8 info wm) _ (draw_desktop-IsDesktop wm fb m d)
        (λ b1 t.
          Returns->>= _ _ (save_background b1 info wm.cursor) _
            (save_background-IsSaved info b1 wm.cursor t.canvas d.slots
              (cursor-IsInWords wm.cursor d.across d.down))
            (λ c s.
              let there : IsInWords c =
                saved_words wm.cursor c s.0 (cursor-IsInWords wm.cursor d.across d.down) in
              Returns->>= _ _ (draw c info b1) _ (draw-DrawsIn c info there b1 t.canvas) (λ b2 k.
                let long : length b2 ≡ length fb = k.same_length ∙ t.same_length ∙ d.lengths.0 in
                rw (copy_from_slice_lem fb b2 (sym long)) (
                  record {
                    windows = cleaned info wm.windows m.windows;
                    distinct = rw (cleaned_ids wm.windows) m.distinct;
                    below = rw (cleaned_ids wm.windows) m.below;
                    focus = rw (cleaned_ids wm.windows) m.focus;
                  },
                  record {
                    screen = k.canvas;
                    ground = d.ground;
                    lengths = (d.lengths.0 ∙ sym long, refl);
                    slots = s.1.slots;
                    across = rw s.0 d.across;
                    down = rw s.0 d.down;
                    modest = d.modest;
                  },
                  (
                    refl,
                    refl,
                    refl,
                    refl,
                    refl,
                    refl,
                    ap (λ (t : CursorState). record t { visible = true }) s.0,
                  ),
                  λ px py hx hy off.
                      k.outside px py hx (omega arith) (ap (λ t. sprite t px py) s.0 ∙ off)
                      ∙ t.pixels px py hx hy,
                ))))
