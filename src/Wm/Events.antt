-- ===== src/Wm/Events.antt =====
-- One mouse event: `handle_mouse` of kernel/src/wm.rs.
use r_os.Common.{
  ℕ, ◌+◌, ◌*◌, ◌≡◌, refl, sym, ap, ◌∙◌, inl, inr, Bool, true, not, Option, some, List, ◌==◌,
  Bool-cases, length, get_or,
}
use r_os.Common.Loops.{Returns, Returns->>=, Returns-imp, Returns-if}
use r_os.Fb.{Buf, FrameBufferInfo, black}
use r_os.Fb.Text.{Font}
use r_os.Fb.Within.{Kept, Kept-refl, DrawsIn, DrawsIn-loop, DrawsIn-put_pixel}
use r_os.Mouse.{MouseEvent}
use r_os.Wm.Cursor.{
  CursorState, as_usize, cursor_w, cursor_h, slot, sprite_at, restore_pixel, restore_background,
  for_sprite, save_background, draw, apply_delta,
}
use r_os.Wm.Manager.{WindowManager}
use r_os.Wm.Screen.{click, show_cursor, handle_mouse}
use r_os.Wm.Clicks.{click-IsManager}
use r_os.Wm.Display.{IsDisplay, cursor-IsInWords}
use r_os.Wm.Pointer.{IsAxis, IsI16, Confined-IsAxis, apply_delta-Confined}
use r_os.Wm.Saved.{saved_words, save_background-IsSaved}
use r_os.Wm.Sprite.{IsInWords, words_true, sprite, in_sprite, draw-DrawsIn}
use r_os.Wm.Valid.{IsManager, displayed}

pub IsDisplay_same :
    (wm wm' : WindowManager) (fb : Buf)
    → displayed wm' ≡ displayed wm
    → IsDisplay wm fb
    → IsDisplay wm' fb
IsDisplay_same wm wm' fb e d =
    let info : wm'.screen_info ≡ wm.screen_info = ap (λ t. t.0) e in
    let back : wm'.back_buf ≡ wm.back_buf = ap (λ t. t.1) e in
    let bg : wm'.bg_cache ≡ wm.bg_cache = ap (λ t. t.2) e in
    let cursor : wm'.cursor ≡ wm.cursor = ap (λ t. t.3) e in
    record {
      screen = rw info d.screen;
      ground = rw (info, bg) d.ground;
      lengths = (ap length bg ∙ d.lengths.0, ap length back ∙ d.lengths.1);
      slots = ap (λ (c : CursorState). length c.saved_bg) cursor ∙ d.slots;
      across = rw cursor d.across;
      down = rw cursor d.down;
      modest = rw info d.modest;
    }

restore_background-DrawsIn :
    (cursor : CursorState) (info : FrameBufferInfo)
    → IsInWords cursor
    → DrawsIn info (sprite cursor) (restore_background cursor info)
unfolding restore_background for_sprite restore_pixel
restore_background-DrawsIn cursor info words buf v =
    Returns-if _ (not cursor.visible) _ _ (Kept-refl info (sprite cursor) buf v) (
      DrawsIn-loop info (sprite cursor) 0 cursor_h _
        (λ sy lo hi. DrawsIn-loop info (sprite cursor) 0 cursor_w _ (λ sx lo' hi' b v'.
          elim (Bool-cases (sprite_at sx sy == 0)) [
            | inl clear ↦ rw clear (Kept-refl info (sprite cursor) b v')
            | inr full ↦
                rw (full, words_true cursor sx sy words hi' hi)
                  (DrawsIn-put_pixel info (sprite cursor) (as_usize cursor.x + sx)
                    (as_usize cursor.y + sy) (get_or cursor.saved_bg (slot sx sy) black)
                    (in_sprite cursor info words sx sy hi' hi full) b v')
          ]))
        buf v)

-- The cursor at another place of the same screen, and a frame buffer drawn on.
moved :
    (wm : WindowManager) (fb b : Buf) (c : CursorState) (region : ℕ → ℕ → Bool)
    → IsDisplay wm fb
    → Kept wm.screen_info region fb b
    → IsAxis c.screen_width c.x
      × IsAxis c.screen_height c.y
      × (length c.saved_bg ≡ cursor_w * cursor_h)
    → IsDisplay (record wm { cursor = c }) b
moved wm fb b c region d k e = record {
  screen = k.canvas;
  ground = d.ground;
  lengths = (d.lengths.0 ∙ sym k.same_length, d.lengths.1 ∙ sym k.same_length);
  slots = e.2;
  across = e.0;
  down = e.1;
  modest = d.modest;
}

show_cursor-IsManager :
    (wm : WindowManager) (fb : Buf)
    → IsManager wm
    → IsDisplay wm fb
    → Returns
        (λ p. IsManager p.0 × IsDisplay p.0 p.1 × (p.0.screen_info ≡ wm.screen_info))
        (show_cursor wm.screen_info wm fb)
unfolding show_cursor
show_cursor-IsManager wm fb m d =
    Returns-if _ wm.needs_composite _ _ (m, d, refl)
      (Returns->>= _ _ (save_background fb wm.screen_info wm.cursor) _
        (save_background-IsSaved wm.screen_info fb wm.cursor d.screen d.slots
          (cursor-IsInWords wm.cursor d.across d.down))
        (λ c s.
          let there : IsInWords c =
            saved_words wm.cursor c s.0 (cursor-IsInWords wm.cursor d.across d.down) in
          Returns->>= _ _ (draw c wm.screen_info fb) _
            (draw-DrawsIn c wm.screen_info there fb d.screen)
            (λ b k. (
              record {
                windows = m.windows;
                distinct = m.distinct;
                below = m.below;
                focus = m.focus;
              },
              moved wm fb b (record c { visible = true }) (sprite c) d k
                  (rw s.0 d.across, rw s.0 d.down, s.1.slots),
              refl,
            ))))

module _ (font : Font) (from_utf8 : List ℕ → Option (List ℕ)) where
  -- A mouse event, its movements any two `i16`, does not panic, wherever it takes the cursor, and leaves a valid manager and its
  -- display.
  pub handle_mouse-IsManager :
      (event : MouseEvent) (wm : WindowManager) (fb : Buf)
      → IsI16 event.dx × IsI16 event.dy
      → IsManager wm
      → IsDisplay wm fb
      → Returns
          (λ p. IsManager p.0 × IsDisplay p.0 p.1 × (p.0.screen_info ≡ wm.screen_info))
          (handle_mouse font from_utf8 wm.screen_info event wm fb)
  unfolding handle_mouse
  handle_mouse-IsManager event wm fb i m d =
      Returns->>= _ _ (restore_background wm.cursor wm.screen_info fb) _
        (restore_background-DrawsIn wm.cursor wm.screen_info
          (cursor-IsInWords wm.cursor d.across d.down) fb d.screen)
        (λ fb1 k.
          Returns->>= _ _ (apply_delta event.dx event.dy wm.cursor) _
            (apply_delta-Confined event.dx event.dy wm.cursor i d.across d.down)
            (λ c h.
              let at : WindowManager = record wm { cursor = c } in
              let there : IsManager at = record {
                windows = m.windows;
                distinct = m.distinct;
                below = m.below;
                focus = m.focus;
              } in
              let shown : IsDisplay at fb1 = moved wm fb fb1 c (sprite wm.cursor) d k (
                rw h.2 (Confined-IsAxis _ _ _ c.x d.across h.0),
                rw h.2 (Confined-IsAxis _ _ _ c.y d.down h.1),
                ap (λ (t : CursorState). length t.saved_bg) h.2 ∙ d.slots,
              ) in
              Returns->>= (λ wm'. IsManager wm' × (displayed wm' ≡ displayed at)) _ _ _
                (Returns-if _ event.left (click font from_utf8 at) (some at)
                  (Returns-imp _ _ (click font from_utf8 at) (λ wm' t. (t.0, t.2))
                    (click-IsManager font from_utf8 at there))
                  (there, refl))
                (λ wm' t.
                  let same : wm'.screen_info ≡ wm.screen_info = ap (λ u. u.0) t.1 in
                  rw (← same)
                    (show_cursor-IsManager wm' fb1 t.0 (IsDisplay_same at wm' fb1 t.1 shown)))))
