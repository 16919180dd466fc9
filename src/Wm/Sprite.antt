-- ===== src/Wm/Sprite.antt =====
-- Drawing the mouse cursor of kernel/src/wm.rs and taking it away.
use r_os.Common.{
  ℕ, ◌+◌, ◌-◌, ◌^◌, ◌≤◌, ◌<◌, ◌≡◌, refl, ap, ap₂, ◌∙◌, inl, inr, Bool, true, false, ◌&&◌, ◌||◌, not,
  arith, ltb, leb, ◌==◌, Bool-cases, get_or,
}
use r_os.Common.Loops.{Returns, Returns-imp, for_range_inv}
use r_os.Fb.{Buf, FrameBufferInfo, black, put_pixel, for_in}
use r_os.Fb.Canvas.{pixel_at, Painted, put_pixel-Painted}
use r_os.Fb.Rects.{in_rect}
use r_os.Fb.Within.{Kept, Kept-refl, Kept-mono, DrawsIn, DrawsIn-loop, DrawsIn-put_pixel}
use r_os.Console.{white}
use r_os.Wm.Cursor.{
  CursorState, cursor_w, cursor_h, sprite_at, as_usize, slot, for_sprite, restore_pixel,
  draw_sprite_pixel, draw, in_words,
}

-- No sum with the cursor's place overflows.
pub record IsInWords (cursor : CursorState) : Type 0 where
  pub x_in : as_usize cursor.x + cursor_w ≤ 2 ^ 64
  pub y_in : as_usize cursor.y + cursor_h ≤ 2 ^ 64

-- The pixels of the sprite, at the cursor.
abbrev pub sprite : CursorState → ℕ → ℕ → Bool
sprite cursor px py =
    in_rect (as_usize cursor.x) (as_usize cursor.y) cursor_w cursor_h px py
    && not (sprite_at (px - as_usize cursor.x) (py - as_usize cursor.y) == 0)

&&-false : (b : Bool) → (b && false) ≡ false
&&-false b = ground arith

-- A pixel other than the next one.
not_next :
    (s : Bool) (x x' y px py : ℕ)
    → x' ≡ x + 1
    → (px == x && py == y) ≡ false
    → (s && (ltb y py || (py == y && leb x' px))) ≡ false
    → (s && (ltb y py || (py == y && leb x px))) ≡ false
not_next s x x' y px py e ne out = ground arith

-- Behind a row of the sprite its next row begins.
row_done :
    (t : Bool) (x y sy px py : ℕ)
    → ((in_rect x y cursor_w cursor_h px py && t)
        && (ltb (y + (sy + 1)) py || (py == y + (sy + 1) && leb (x + 0) px)))
      ≡ false
    → ((in_rect x y cursor_w cursor_h px py && t)
        && (ltb (y + sy) py || (py == y + sy && leb (x + cursor_w) px)))
      ≡ false
row_done t x y sy px py out = ground arith

all_done :
    (t : Bool) (x y px py : ℕ)
    → ((in_rect x y cursor_w cursor_h px py && t)
        && (ltb (y + cursor_h) py || (py == y + cursor_h && leb (x + 0) px)))
      ≡ false
all_done t x y px py = ground arith

none_done :
    (t : Bool) (x y px py : ℕ)
    → ((in_rect x y cursor_w cursor_h px py && t)
        && (ltb (y + 0) py || (py == y + 0 && leb (x + 0) px)))
      ≡ false
    → (in_rect x y cursor_w cursor_h px py && t) ≡ false
none_done t x y px py out = ground arith

pub sums_fit : (x y sx sy : ℕ) → x + sx < 2 ^ 64 → y + sy < 2 ^ 64 → in_words x y sx sy ≡ true
sums_fit x y sx sy h k = ground arith

pub words_true :
    (cursor : CursorState) (sx sy : ℕ)
    → IsInWords cursor
    → sx < cursor_w
    → sy < cursor_h
    → in_words (as_usize cursor.x) (as_usize cursor.y) sx sy ≡ true
words_true cursor sx sy i hx hy =
    sums_fit (as_usize cursor.x) (as_usize cursor.y) sx sy (omega (arith, i.x_in))
      (omega (arith, i.y_in))

module _ (cursor : CursorState) (info : FrameBufferInfo) (words : IsInWords cursor) where
  abbrev cx : ℕ
  cx = as_usize cursor.x

  abbrev cy : ℕ
  cy = as_usize cursor.y

  not_in_sprite :
      (sx sy px py : ℕ)
      → (sprite_at sx sy == 0) ≡ true
      → (px == cx + sx && py == cy + sy) ≡ true
      → sprite cursor px py ≡ false
  not_in_sprite sx sy px py clear here =
      let at : (px ≡ cx + sx) × (py ≡ cy + sy) = ground arith in
      let ex : (cx + sx) - cx ≡ sx = omega arith in
      let ey : (cy + sy) - cy ≡ sy = omega arith in
      rw (at.0, at.1, ex, ey, clear)
        (&&-false (in_rect cx cy cursor_w cursor_h (cx + sx) (cy + sy)))

  pub in_sprite :
      (sx sy : ℕ)
      → sx < cursor_w
      → sy < cursor_h
      → (sprite_at sx sy == 0) ≡ false
      → sprite cursor (cx + sx) (cy + sy) ≡ true
  in_sprite sx sy hx hy full =
      let ex : (cx + sx) - cx ≡ sx = omega arith in
      let ey : (cy + sy) - cy ≡ sy = omega arith in
      let rect : in_rect cx cy cursor_w cursor_h (cx + sx) (cy + sy) ≡ true = ground arith in
      rw (ex, ey, rect, full) refl

  draw_sprite_pixel-DrawsIn :
      (sx sy : ℕ)
      → sx < cursor_w
      → sy < cursor_h
      → DrawsIn info (sprite cursor) (draw_sprite_pixel cursor info sy sx)
  unfolding draw_sprite_pixel
  draw_sprite_pixel-DrawsIn sx sy hx hy buf v = elim (Bool-cases (sprite_at sx sy == 1)) [
    | inl edge ↦
        rw (edge, words_true cursor sx sy words hx hy)
          (DrawsIn-put_pixel info (sprite cursor) (cx + sx) (cy + sy) black
            (in_sprite sx sy hx hy (ground arith)) buf v)
    | inr not_edge ↦ elim (Bool-cases (sprite_at sx sy == 2)) [
      | inl inner ↦
          rw (not_edge, inner, words_true cursor sx sy words hx hy)
            (DrawsIn-put_pixel info (sprite cursor) (cx + sx) (cy + sy) white
              (in_sprite sx sy hx hy (ground arith)) buf v)
      | inr clear ↦ rw (not_edge, clear) (Kept-refl info (sprite cursor) buf v)
    ]
  ]

  -- Drawing the cursor changes no pixel but those of the sprite.
  pub draw-DrawsIn : DrawsIn info (sprite cursor) (draw cursor info)
  unfolding draw for_sprite
  draw-DrawsIn = DrawsIn-loop info (sprite cursor) 0 cursor_h _ (λ sy lo hi.
      DrawsIn-loop info (sprite cursor) 0 cursor_w _
        (λ sx lo' hi'. draw_sprite_pixel-DrawsIn sx sy hi' hi))

  -- The pixels of the sprite from one of its pixels on, in the order of the loops.
  abbrev ahead : ℕ → ℕ → ℕ → ℕ → Bool
  ahead sy sx px py =
      sprite cursor px py && (ltb (cy + sy) py || (py == cy + sy && leb (cx + sx) px))

  module _ (orig : Buf)
      (saved : (sx sy : ℕ)
        → sx < cursor_w
        → sy < cursor_h
        → cx + sx < info.width
        → cy + sy < info.height
        → get_or cursor.saved_bg (slot sx sy) black ≡ pixel_at info orig (cx + sx) (cy + sy)) where
    restore_pixel-Kept :
        (sx sy : ℕ) (buf : Buf)
        → sx < cursor_w
        → sy < cursor_h
        → Kept info (ahead sy sx) orig buf
        → Returns (Kept info (ahead sy (sx + 1)) orig) (restore_pixel cursor info sy sx buf)
    unfolding restore_pixel
    restore_pixel-Kept sx sy buf hx hy k = elim (Bool-cases (sprite_at sx sy == 0)) [
      | inl clear ↦ rw clear (record {
        canvas = k.canvas;
        same_length = k.same_length;
        outside = λ px py bx by out. k.outside px py bx by (still px py clear out);
      })
      | inr full ↦
          rw (full, words_true cursor sx sy words hx hy)
            (Returns-imp _ _
              (put_pixel info (cx + sx) (cy + sy) (get_or cursor.saved_bg (slot sx sy) black) buf)
              (λ b p. record {
                canvas = p.canvas;
                same_length = p.same_length ∙ k.same_length;
                outside = λ px py bx by out. restored px py b p bx by out;
              })
              (put_pixel-Painted info buf k.canvas (cx + sx) (cy + sy)
                (get_or cursor.saved_bg (slot sx sy) black)))
    ]
      where
        still :
            (px py : ℕ)
            → (sprite_at sx sy == 0) ≡ true
            → ahead sy (sx + 1) px py ≡ false
            → ahead sy sx px py ≡ false
        still px py clear out = elim (Bool-cases (px == cx + sx && py == cy + sy)) [
          | inl here ↦
              ap (λ s. s && (ltb (cy + sy) py || (py == cy + sy && leb (cx + sx) px)))
                (not_in_sprite sx sy px py clear here)
          | inr other ↦
              not_next (sprite cursor px py) (cx + sx) (cx + (sx + 1)) (cy + sy) px py (omega arith)
                other out
        ]

        restored :
            (px py : ℕ) (b : Buf)
            → Painted info
                (λ px' py'. px' == cx + sx && py' == cy + sy)
                (get_or cursor.saved_bg (slot sx sy) black)
                buf
                b
            → px < info.width
            → py < info.height
            → ahead sy (sx + 1) px py ≡ false
            → pixel_at info b px py ≡ pixel_at info orig px py
        restored px py b p bx by out = elim (Bool-cases (px == cx + sx && py == cy + sy)) [
          | inl here ↦
              let at : (cx + sx ≡ px) × (cy + sy ≡ py) = ground arith in
              rw here at (p.pixels px py bx by)
              ∙ saved sx sy hx hy (omega arith) (omega arith)
              ∙ ap₂ (pixel_at info orig) at.0 at.1
          | inr other ↦
              rw other at (p.pixels px py bx by)
              ∙ k.outside px py bx by (
                  not_next (sprite cursor px py) (cx + sx) (cx + (sx + 1)) (cy + sy) px py
                    (omega arith) other out)
        ]

    -- A row, from one with all the sprite to come to the next.
    restore_row-Kept :
        (sy : ℕ) (buf : Buf)
        → sy < cursor_h
        → Kept info (ahead sy 0) orig buf
        → Returns
            (Kept info (ahead (sy + 1) 0) orig)
            (for_in 0 cursor_w (λ sx. restore_pixel cursor info sy sx) buf)
    restore_row-Kept sy buf hy k =
        Returns-imp _ _ (for_in 0 cursor_w (λ sx. restore_pixel cursor info sy sx) buf)
          (λ b k'.
            Kept-mono info (ahead sy cursor_w) (ahead (sy + 1) 0) orig b
              (λ px py out. row_done (not (sprite_at (px - cx) (py - cy) == 0)) cx cy sy px py out)
              k')
          (for_range_inv (λ sx. Kept info (ahead sy sx) orig)
            (λ sx. restore_pixel cursor info sy sx) cursor_w 0 cursor_w buf refl
            (λ sx b lo hi k'. restore_pixel-Kept sx sy b hi hy k') k)

    -- All the rows: nothing of the sprite is left.
    pub restore-Kept :
        (buf : Buf)
        → Kept info (sprite cursor) orig buf
        → Returns (Kept info (λ px py. false) orig) (for_sprite (restore_pixel cursor info) buf)
    unfolding for_sprite
    restore-Kept buf k =
        Returns-imp _ _
          (for_in 0 cursor_h (λ sy. for_in 0 cursor_w (λ sx. restore_pixel cursor info sy sx)) buf)
          (λ b k'.
            Kept-mono info (ahead cursor_h 0) (λ px py. false) orig b
              (λ px py out. all_done (not (sprite_at (px - cx) (py - cy) == 0)) cx cy px py) k')
          (for_range_inv (λ sy. Kept info (ahead sy 0) orig) _ cursor_h 0 cursor_h buf refl
            (λ sy b lo hi k'. restore_row-Kept sy b hi k')
            (Kept-mono info (sprite cursor) (ahead 0 0) orig buf
              (λ px py out. none_done (not (sprite_at (px - cx) (py - cy) == 0)) cx cy px py out)
              k))
