-- ===== src/Wm/Saved.antt =====
-- The pixels under the mouse cursor of kernel/src/wm.rs, saved and put back.
use r_os.Common.{
  ℕ, ◌+◌, ◌*◌, ◌^◌, ◌≤◌, ◌<◌, ◌≡◌, refl, ap, ◌∙◌, ◌≢◌, inl, inr, true, false, ◌&&◌, ◌||◌, List,
  arith, ltb, leb, ◌==◌, ltb→lt, Bool-cases, length, get_or, length-set, get_or-set_self,
  get_or-set_ne,
}
use r_os.Common.Loops.{Returns, Returns->>=, Returns-imp, for_range, for_range_inv, ◌>>=◌}
use r_os.Fb.{Buf, Color, FrameBufferInfo, black}
use r_os.Fb.Canvas.{IsCanvas, pixel_at, read_pixel-pixel_at}
use r_os.Wm.Cursor.{
  CursorState, cursor_w, cursor_h, as_usize, slot, save_pixel, save_background, restore_background,
  draw,
}
use r_os.Wm.Sprite.{IsInWords, sums_fit, draw-DrawsIn, restore-Kept}

-- The slots of the pixels before a pixel of the sprite, in the order of the loops, hold the
-- pixels under them.
pub record IsSaved (info : FrameBufferInfo) (buf : Buf) (x y k j : ℕ) (saved : List Color)
    : Type 0 where
  pub slots : length saved ≡ cursor_w * cursor_h
  pub held :
      (sx sy : ℕ)
      → sx < cursor_w
      → sy < cursor_h
      → (ltb sy k || (sy == k && ltb sx j)) ≡ true
      → x + sx < info.width
      → y + sy < info.height
      → get_or saved (slot sx sy) black ≡ pixel_at info buf (x + sx) (y + sy)

module _ (info : FrameBufferInfo) (buf : Buf) (v : IsCanvas info buf) (x y : ℕ)
    (x_in : x + cursor_w ≤ 2 ^ 64) (y_in : y + cursor_h ≤ 2 ^ 64) where
  save_pixel-IsSaved :
      (sy sx : ℕ) (saved : List Color)
      → sx < cursor_w
      → sy < cursor_h
      → IsSaved info buf x y sy sx saved
      → Returns (IsSaved info buf x y sy (sx + 1)) (save_pixel buf info x y sy sx saved)
  unfolding save_pixel
  save_pixel-IsSaved sy sx saved hx hy s =
      let room : ltb (slot sx sy) (length saved) ≡ true = ground (arith, s.slots) in
      rw
        (
          sums_fit x y sx sy (omega arith) (omega arith),
          read_pixel-pixel_at info buf v (x + sx) (y + sy),
          room,
        )
        (record {
          slots = length-set saved (slot sx sy) _ ∙ s.slots;
          held = λ tx ty bx by before ox oy. elim (Bool-cases (slot sx sy == slot tx ty)) [
            | inl here ↦
                let at : (sx ≡ tx) × (sy ≡ ty) = ground arith in
                let on : (leb info.width (x + sx) || leb info.height (y + sy)) ≡ false =
                  ground arith in
                rw (← at.0, ← at.1)
                  (get_or-set_self saved (slot sx sy) _ black (ltb→lt _ _ room) ∙ rw on refl)
            | inr other ↦
                let ne : slot sx sy ≢ slot tx ty = ground arith in
                get_or-set_ne saved (slot sx sy) (slot tx ty) _ black ne
                ∙ s.held tx ty bx by (ground arith) ox oy
          ];
        })

  save_row-IsSaved :
      (sy : ℕ) (saved : List Color)
      → sy < cursor_h
      → IsSaved info buf x y sy 0 saved
      → Returns
          (IsSaved info buf x y (sy + 1) 0)
          (for_range cursor_w 0 (λ sx saved'. save_pixel buf info x y sy sx saved') saved)
  save_row-IsSaved sy saved hy s =
      Returns-imp _ _
        (for_range cursor_w 0 (λ sx saved'. save_pixel buf info x y sy sx saved') saved)
        (λ saved' s'. record {
          slots = s'.slots;
          held = λ tx ty bx by before ox oy. s'.held tx ty bx by (ground arith) ox oy;
        })
        (for_range_inv (λ sx. IsSaved info buf x y sy sx) _ cursor_w 0 cursor_w saved refl
          (λ sx saved' lo hi s'. save_pixel-IsSaved sy sx saved' hi hy s') s)

  save_loop-IsSaved :
      (saved : List Color)
      → length saved ≡ cursor_w * cursor_h
      → Returns (IsSaved info buf x y cursor_h 0) (
          for_range cursor_h 0
            (λ sy saved'.
              for_range cursor_w 0 (λ sx saved''. save_pixel buf info x y sy sx saved'') saved')
            saved)
  save_loop-IsSaved saved e =
      for_range_inv (λ sy. IsSaved info buf x y sy 0) _ cursor_h 0 cursor_h saved refl
        (λ sy saved' lo hi s'. save_row-IsSaved sy saved' hi s')
        (record { slots = e; held = λ tx ty bx by before ox oy. absurd (ground arith) })

module _ (info : FrameBufferInfo) (buf : Buf) (cursor : CursorState) (v : IsCanvas info buf)
    (e : length cursor.saved_bg ≡ cursor_w * cursor_h) (words : IsInWords cursor) where
  -- On a canvas `save_background` does not panic and changes only the saved pixels.
  pub save_background-IsSaved :
      Returns
        (λ c.
          (c ≡ record cursor { saved_bg = c.saved_bg })
          × IsSaved info buf (as_usize cursor.x) (as_usize cursor.y) cursor_h 0 c.saved_bg)
        (save_background buf info cursor)
  unfolding save_background
  save_background-IsSaved =
      Returns->>= _ _
        (for_range cursor_h 0
          (λ sy saved'.
            for_range cursor_w 0
              (λ sx saved''.
                save_pixel buf info (as_usize cursor.x) (as_usize cursor.y) sy sx saved'')
              saved')
          cursor.saved_bg)
        _
        (save_loop-IsSaved info buf v (as_usize cursor.x) (as_usize cursor.y) words.x_in words.y_in
          cursor.saved_bg e)
        (λ saved s. (refl, s))

pub saved_words :
    (cursor c : CursorState)
    → c ≡ record cursor { saved_bg = c.saved_bg }
    → IsInWords cursor
    → IsInWords c
saved_words cursor c e words =
    let ex : c.x ≡ cursor.x = ap (λ (t : CursorState). t.x) e in
    let ey : c.y ≡ cursor.y = ap (λ (t : CursorState). t.y) e in
    record { x_in = rw ex words.x_in; y_in = rw ey words.y_in }

-- Saving the pixels under the cursor, drawing it and restoring them, on a canvas, does not panic
-- and brings back every pixel of the screen, if the coordinates of the cursor as `usize` leave room
-- for the sprite below 2^64, partly or wholly off the screen included.
pub draw-restore_background :
    (info : FrameBufferInfo) (buf : Buf) (cursor : CursorState)
    → IsCanvas info buf
    → length cursor.saved_bg ≡ cursor_w * cursor_h
    → IsInWords cursor
    → Returns
        (λ b.
          (px py : ℕ)
          → px < info.width
          → py < info.height
          → pixel_at info b px py ≡ pixel_at info buf px py)
        (save_background buf info cursor >>= λ c.
          draw c info buf >>= λ b. restore_background (record c { visible = true }) info b)
unfolding restore_background
draw-restore_background info buf cursor v e words =
    Returns->>= _ _ (save_background buf info cursor) _
      (save_background-IsSaved info buf cursor v e words)
      (λ c s.
        let there : IsInWords c = saved_words cursor c s.0 words in
        Returns->>= _ _ (draw c info buf) _ (draw-DrawsIn c info there buf v) (λ b k.
          let shown : CursorState = record c { visible = true } in
          Returns-imp _ _ (restore_background shown info b)
            (λ d k' px py bx by. k'.outside px py bx by refl)
            (restore-Kept shown info (record { x_in = there.x_in; y_in = there.y_in }) buf
              (λ sx sy hx hy ox oy.
                let ex : c.x ≡ cursor.x = ap (λ (t : CursorState). t.x) s.0 in
                let ey : c.y ≡ cursor.y = ap (λ (t : CursorState). t.y) s.0 in
                rw (ex, ey) (s.1.held sx sy hx hy (ground arith) (rw ex at ox) (rw ey at oy)))
              b (record { canvas = k.canvas; same_length = k.same_length; outside = k.outside }))))
