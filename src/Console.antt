-- ===== src/Console.antt =====
-- The text console of kernel/src/framebuffer.rs, which draws in a window's buffer. `none` is a
-- panic.
pub mod Copy
pub mod Rows
pub mod Scroll
pub mod Cursor
pub mod Fresh
mod Tests
use r_os.Common.{
  ℕ, zero, suc, ◌+◌, ◌-◌, ◌*◌, ◌/◌, Bool, true, false, ◌&&◌, ◌||◌, not, Option, some, List, [], ◌∷◌,
  ltb, leb, ◌==◌, if◌then◌else◌, length,
}
use r_os.Common.Loops.{◌>>=◌, for_range}
use r_os.Fb.{Buf, Color, black, Rect, FrameBufferInfo, put_pixel, fill_rect, for_in, copy_bytes}
use r_os.Fb.Text.{Font, font_width, font_height, draw_char_at}

abbrev pub white : Color
white = record { r = 0xff; g = 0xff; b = 0xff }

pub record Console : Type 0 where
  pub content : Rect
  pub col : ℕ
  pub row : ℕ
  pub cols : ℕ
  pub rows : ℕ
  pub cursor_visible : Bool

-- What a method leaves of `self` and the buffer.
abbrev pub Result : Type 0
Result = Option (Console × Buf)

-- The whole content area in black.
abbrev pub blank : FrameBufferInfo → Rect → Buf → Option Buf
blank info content buf = fill_rect info content.x content.y content.width content.height black buf

unfoldable pub new : FrameBufferInfo → Rect → Buf → Result
new info content buf = blank info content buf >>= λ buf'. some (
  record {
    content = content;
    col = 0;
    row = 0;
    cols = content.width / font_width;
    rows = content.height / font_height;
    cursor_visible = false;
  },
  buf',
)

unfoldable pub clear : FrameBufferInfo → Console → Buf → Result
clear info con buf =
    blank info con.content buf >>= λ buf'. some (record con { col = 0; row = 0 }, buf')

-- One round of the loop: a pixel row of the content, copied up by the height of a text row.
unfoldable pub copy_row : FrameBufferInfo → Rect → ℕ → Buf → Option Buf
copy_row info content wy buf =
    let bpp = info.bytes_per_pixel in
    let row_bytes = content.width * bpp in
    let src_y = content.y + wy + font_height in
    let dst_y = content.y + wy in
    let src_start = (src_y * info.stride + content.x) * bpp in
    let dst_start = (dst_y * info.stride + content.x) * bpp in
    if leb (src_start + row_bytes) (length buf) && leb (dst_start + row_bytes) (length buf)
    then some (copy_bytes row_bytes src_start dst_start buf buf)
    else some buf

-- The loop, with its `break` at a row whose source lies below the content.
unfoldable pub copy_rows : FrameBufferInfo → Rect → ℕ → ℕ → Buf → Option Buf
copy_rows info content zero wy buf = some buf
copy_rows info content (suc n) wy buf =
    elim (ltb (content.y + content.height) (content.y + wy + font_height + 1)) [
      | true ↦ some buf
      | false ↦ copy_row info content wy buf >>= λ buf'. copy_rows info content n (wy + 1) buf'
    ]

unfoldable pub scroll_up : FrameBufferInfo → Console → Buf → Result
scroll_up info con buf =
    if con.rows == 0
    then some (con, buf)
    else (let content = con.content in
        copy_rows info content (content.height - font_height) 0 buf >>= λ buf'.
        fill_rect info content.x (content.y + content.height - font_height) content.width
          font_height black buf'
        >>= λ buf''. some (record con { row = con.rows - 1 }, buf''))

-- `self.row += 1`, and a scroll if that is behind the last row.
unfoldable pub next_row : FrameBufferInfo → Console → Buf → Result
next_row info con buf =
    let con' = record con { col = 0; row = con.row + 1 } in
    if leb con.rows (con.row + 1) then scroll_up info con' buf else some (con', buf)

unfoldable pub clear_char : FrameBufferInfo → Console → ℕ → ℕ → Buf → Option Buf
clear_char info con col row buf =
    for_in 0 font_height
      (λ dy. for_in 0 font_width (λ dx.
        put_pixel info (con.content.x + col * font_width + dx)
          (con.content.y + row * font_height + dy) black))
      buf

-- The bar of the cursor, in one colour.
unfoldable pub draw_bar : FrameBufferInfo → Console → Color → Buf → Option Buf
draw_bar info con c buf =
    for_in 0 font_height
      (λ dy.
        put_pixel info (con.content.x + con.col * font_width)
          (con.content.y + con.row * font_height + dy) c)
      buf

unfoldable pub draw_cursor : FrameBufferInfo → Console → Buf → Result
draw_cursor info con buf =
    if not con.cursor_visible
    then (draw_bar info con white buf >>= λ buf'. some (record con { cursor_visible = true }, buf'))
    else some (con, buf)

unfoldable pub erase_cursor : FrameBufferInfo → Console → Buf → Result
erase_cursor info con buf =
    if con.cursor_visible
    then (draw_bar info con black buf >>= λ buf'.
        some (record con { cursor_visible = false }, buf'))
    else some (con, buf)

module _ (font : Font) where
  unfoldable pub draw_char : FrameBufferInfo → Console → ℕ → ℕ → ℕ → Buf → Option Buf
  draw_char info con char col row buf =
      draw_char_at font info (con.content.x + col * font_width) (con.content.y + row * font_height)
        char white buf

  -- The last arm of `write_char`, once there is room in the row.
  unfoldable pub print_char : FrameBufferInfo → ℕ → Console → Buf → Result
  print_char info char con buf = draw_char info con char con.col con.row buf >>= λ buf'.
      some (record con { col = con.col + 1 }, buf')

  unfoldable pub write_char : FrameBufferInfo → ℕ → Console → Buf → Result
  write_char info char con buf =
      if con.rows == 0 || con.cols == 0
      then some (con, buf)
      else if char == 10
      then next_row info con buf
      else if char == 13
      then some (record con { col = 0 }, buf)
      else if char == 8
      then (if ltb 0 con.col
          then (let con' = record con { col = con.col - 1 } in
              clear_char info con' con'.col con'.row buf >>= λ buf'. some (con', buf'))
          else some (con, buf))
      else ((if leb con.cols con.col then next_row info con buf else some (con, buf)) >>= λ p.
          print_char info char p.0 p.1)

  unfoldable pub write_str : FrameBufferInfo → List ℕ → Console → Buf → Result
  write_str info [] con buf = some (con, buf)
  write_str info (char ∷ text) con buf =
      write_char info char con buf >>= λ p. write_str info text p.0 p.1
