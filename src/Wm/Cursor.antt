-- ===== src/Wm/Cursor.antt =====
-- The mouse cursor: CursorState of kernel/src/wm.rs and the sprite of kernel/src/framebuffer.rs.
-- `none` is a panic, of a sum that overflows its type too.
use r_os.Common.{
  ℕ, ◌+◌, ◌-◌, ◌*◌, ◌/◌, ◌%◌, ◌^◌, Bool, false, ◌&&◌, not, Option, none, some, List, [], ◌∷◌, ltb,
  ◌==◌, if◌then◌else◌, length, get_or, set, replicate,
}
use r_os.Common.Int.{ℤ, pos, negsuc, ◌+ℤ◌, ◌-ℤ◌, ltb_ℤ}
use r_os.Console.{white}
use r_os.Common.Loops.{◌>>=◌, for_range}
use r_os.Fb.{Buf, Color, black, FrameBufferInfo, put_pixel, read_pixel, for_in}

abbrev pub cursor_w : ℕ
cursor_w = 12

abbrev pub cursor_h : ℕ
cursor_h = 16

abbrev pub cursor_sprite : List (List ℕ)
cursor_sprite =
    (1 ∷ 0 ∷ 0 ∷ 0 ∷ 0 ∷ 0 ∷ 0 ∷ 0 ∷ 0 ∷ 0 ∷ 0 ∷ 0 ∷ [])
    ∷ (1 ∷ 1 ∷ 0 ∷ 0 ∷ 0 ∷ 0 ∷ 0 ∷ 0 ∷ 0 ∷ 0 ∷ 0 ∷ 0 ∷ [])
    ∷ (1 ∷ 2 ∷ 1 ∷ 0 ∷ 0 ∷ 0 ∷ 0 ∷ 0 ∷ 0 ∷ 0 ∷ 0 ∷ 0 ∷ [])
    ∷ (1 ∷ 2 ∷ 2 ∷ 1 ∷ 0 ∷ 0 ∷ 0 ∷ 0 ∷ 0 ∷ 0 ∷ 0 ∷ 0 ∷ [])
    ∷ (1 ∷ 2 ∷ 2 ∷ 2 ∷ 1 ∷ 0 ∷ 0 ∷ 0 ∷ 0 ∷ 0 ∷ 0 ∷ 0 ∷ [])
    ∷ (1 ∷ 2 ∷ 2 ∷ 2 ∷ 2 ∷ 1 ∷ 0 ∷ 0 ∷ 0 ∷ 0 ∷ 0 ∷ 0 ∷ [])
    ∷ (1 ∷ 2 ∷ 2 ∷ 2 ∷ 2 ∷ 2 ∷ 1 ∷ 0 ∷ 0 ∷ 0 ∷ 0 ∷ 0 ∷ [])
    ∷ (1 ∷ 2 ∷ 2 ∷ 2 ∷ 2 ∷ 2 ∷ 2 ∷ 1 ∷ 0 ∷ 0 ∷ 0 ∷ 0 ∷ [])
    ∷ (1 ∷ 2 ∷ 2 ∷ 2 ∷ 2 ∷ 2 ∷ 2 ∷ 2 ∷ 1 ∷ 0 ∷ 0 ∷ 0 ∷ [])
    ∷ (1 ∷ 2 ∷ 2 ∷ 2 ∷ 2 ∷ 2 ∷ 2 ∷ 2 ∷ 2 ∷ 1 ∷ 0 ∷ 0 ∷ [])
    ∷ (1 ∷ 2 ∷ 2 ∷ 2 ∷ 2 ∷ 2 ∷ 1 ∷ 1 ∷ 1 ∷ 1 ∷ 1 ∷ 0 ∷ [])
    ∷ (1 ∷ 2 ∷ 2 ∷ 1 ∷ 2 ∷ 2 ∷ 1 ∷ 0 ∷ 0 ∷ 0 ∷ 0 ∷ 0 ∷ [])
    ∷ (1 ∷ 2 ∷ 1 ∷ 0 ∷ 1 ∷ 2 ∷ 2 ∷ 1 ∷ 0 ∷ 0 ∷ 0 ∷ 0 ∷ [])
    ∷ (1 ∷ 1 ∷ 0 ∷ 0 ∷ 1 ∷ 2 ∷ 2 ∷ 1 ∷ 0 ∷ 0 ∷ 0 ∷ 0 ∷ [])
    ∷ (1 ∷ 0 ∷ 0 ∷ 0 ∷ 0 ∷ 1 ∷ 2 ∷ 2 ∷ 1 ∷ 0 ∷ 0 ∷ 0 ∷ [])
    ∷ (0 ∷ 0 ∷ 0 ∷ 0 ∷ 0 ∷ 1 ∷ 1 ∷ 1 ∷ 0 ∷ 0 ∷ 0 ∷ 0 ∷ [])
    ∷ []

-- 1 is the outline, 2 the inside, 0 see-through.
abbrev pub sprite_at : ℕ → ℕ → ℕ
sprite_at sx sy = get_or (get_or cursor_sprite sy []) sx 0

pub record CursorState : Type 0 where
  pub x : ℤ
  pub y : ℤ
  pub screen_width : ℤ
  pub screen_height : ℤ
  pub saved_bg : List Color
  pub visible : Bool

-- `as i32` of a `usize`
abbrev pub as_i32 : ℕ → ℤ
as_i32 n = if ltb (n % 2 ^ 32) (2 ^ 31) then pos (n % 2 ^ 32) else negsuc (2 ^ 32 - 1 - n % 2 ^ 32)

-- `as usize` of an `i32`
abbrev pub as_usize : ℤ → ℕ
as_usize (pos n) = n
as_usize (negsuc n) = 2 ^ 64 - 1 - n

unfoldable pub new : ℕ → ℕ → CursorState
new w h = record {
  x = as_i32 (w / 2);
  y = as_i32 (h / 2);
  screen_width = as_i32 w;
  screen_height = as_i32 h;
  saved_bg = replicate (cursor_w * cursor_h) black;
  visible = false;
}

-- The slot of a pixel of the sprite in `saved_bg`.
abbrev pub slot : ℕ → ℕ → ℕ
slot sx sy = sy * cursor_w + sx

-- The sums `cx + sx` and `cy + sy` of `usize` do not overflow.
abbrev pub in_words : ℕ → ℕ → ℕ → ℕ → Bool
in_words cx cy sx sy = ltb (cx + sx) (2 ^ 64) && ltb (cy + sy) (2 ^ 64)

-- A pixel of the sprite put on the screen.
abbrev pub put_at : CursorState → FrameBufferInfo → ℕ → ℕ → Color → Buf → Option Buf
put_at cursor info sy sx color buf =
    if in_words (as_usize cursor.x) (as_usize cursor.y) sx sy
    then put_pixel info (as_usize cursor.x + sx) (as_usize cursor.y + sy) color buf
    else none

-- One pixel saved: `read_pixel`, and the write to `saved_bg`, which has a slot for it.
unfoldable pub save_pixel : Buf → FrameBufferInfo → ℕ → ℕ → ℕ → ℕ → List Color → Option (List Color)
save_pixel buf info cx cy sy sx saved =
    if in_words cx cy sx sy
    then (read_pixel info (cx + sx) (cy + sy) buf >>= λ c.
        if ltb (slot sx sy) (length saved) then some (set saved (slot sx sy) c) else none)
    else none

unfoldable pub save_background : Buf → FrameBufferInfo → CursorState → Option CursorState
save_background buf info cursor =
    for_range cursor_h 0
      (λ sy saved.
        for_range cursor_w 0
          (λ sx saved'. save_pixel buf info (as_usize cursor.x) (as_usize cursor.y) sy sx saved')
          saved)
      cursor.saved_bg
    >>= λ saved. some (record cursor { saved_bg = saved })

-- The loops over the sprite that put pixels.
unfoldable pub for_sprite : (ℕ → ℕ → Buf → Option Buf) → Buf → Option Buf
for_sprite body buf = for_in 0 cursor_h (λ sy. for_in 0 cursor_w (λ sx. body sy sx)) buf

-- One pixel of the saved background, where the sprite has one.
unfoldable pub restore_pixel : CursorState → FrameBufferInfo → ℕ → ℕ → Buf → Option Buf
restore_pixel cursor info sy sx buf =
    if sprite_at sx sy == 0
    then some buf
    else put_at cursor info sy sx (get_or cursor.saved_bg (slot sx sy) black) buf

unfoldable pub restore_background : CursorState → FrameBufferInfo → Buf → Option Buf
restore_background cursor info buf =
    if not cursor.visible then some buf else for_sprite (restore_pixel cursor info) buf

-- One pixel of the sprite.
unfoldable pub draw_sprite_pixel : CursorState → FrameBufferInfo → ℕ → ℕ → Buf → Option Buf
draw_sprite_pixel cursor info sy sx buf =
    if sprite_at sx sy == 1
    then put_at cursor info sy sx black buf
    else if sprite_at sx sy == 2
    then put_at cursor info sy sx white buf
    else some buf

unfoldable pub draw : CursorState → FrameBufferInfo → Buf → Option Buf
draw cursor info buf = for_sprite (draw_sprite_pixel cursor info) buf

-- `clamp`, which panics if the bounds are the wrong way round.
abbrev pub clamp : ℤ → ℤ → ℤ → Option ℤ
clamp v low high =
    if ltb_ℤ high low
    then none
    else some (if ltb_ℤ v low then low else if ltb_ℤ high v then high else v)

-- A result of `i32` arithmetic, which panics if it does not fit.
abbrev pub checked_i32 : ℤ → Option ℤ
checked_i32 v =
    if ltb_ℤ v (negsuc (2 ^ 31 - 1))
    then none
    else if ltb_ℤ (pos (2 ^ 31 - 1)) v
    then none
    else some v

-- The y axis of PS/2 points up.
unfoldable pub apply_delta : ℤ → ℤ → CursorState → Option CursorState
apply_delta dx dy cursor = checked_i32 (cursor.x +ℤ dx) >>= λ x1.
    checked_i32 (cursor.y -ℤ dy) >>= λ y1. checked_i32 (cursor.screen_width -ℤ pos 1) >>= λ right.
    clamp x1 (pos 0) right >>= λ x. checked_i32 (cursor.screen_height -ℤ pos 1) >>= λ bottom.
    clamp y1 (pos 0) bottom >>= λ y. some (record cursor { x = x; y = y })
