-- ===== src/Fb/Tests.antt =====
-- Runs on a canvas of four by three pixels, with a stride of five.
use r_os.Common.{
  ℕ, refl, sym, ap, inr, ◌&&◌, Option, none, some, List, arith, ◌==◌, length, replicate,
}
use r_os.Common.Loops.{Returns}
use r_os.Fb.{Buf, Color, FrameBufferInfo, Rect, bgr, put_pixel, fill_rect, draw_rect_outline}
use r_os.Fb.Canvas.{IsCanvas, Painted, put_pixel-Painted}
use r_os.Fb.Rects.{in_rect, on_border, fill_rect-Painted, draw_rect_outline-Painted}
use r_os.Fb.Text.{Font}

abbrev small : FrameBufferInfo
small = record { width = 4; height = 3; stride = 5; bytes_per_pixel = 4; pixel_format = bgr }

abbrev blank_buf : Buf
blank_buf = replicate 60 0

abbrev red : Color
red = record { r = 0xff; g = 0; b = 0 }

blank_buf-IsCanvas : IsCanvas small blank_buf
blank_buf-IsCanvas = record {
  colors = record { format = inr refl; bytes = omega arith };
  in_stride = omega arith;
  in_words = (omega arith, omega arith);
  holds = omega arith;
}

put_pixel-Painted_example :
    Returns
      (Painted small (λ px py. px == 2 && py == 1) red blank_buf)
      (put_pixel small 2 1 red blank_buf)
put_pixel-Painted_example = put_pixel-Painted small blank_buf blank_buf-IsCanvas 2 1 red

-- A rectangle that hangs over the right and lower edge.
fill_rect-Painted_example :
    Returns (Painted small (in_rect 2 1 7 7) red blank_buf) (fill_rect small 2 1 7 7 red blank_buf)
fill_rect-Painted_example = fill_rect-Painted small red 2 1 7 7 blank_buf blank_buf-IsCanvas

abbrev frame : Rect
frame = record { x = 1; y = 1; width = 9; height = 2 }

draw_rect_outline-Painted_example :
    Returns
      (Painted small (on_border small red frame) red blank_buf)
      (draw_rect_outline small frame red blank_buf)
draw_rect_outline-Painted_example =
    draw_rect_outline-Painted small red frame (omega arith) (omega arith) blank_buf
      blank_buf-IsCanvas

abbrev size_of : Option (List ℕ) → ℕ
size_of none = 0
size_of (some glyph) = length glyph

-- A font in which every character is a full block.
abbrev pub blocks : Font
blocks = record {
  get = λ char. some (replicate 8 0xff);
  question = (replicate 8 0xff, refl);
  eight_rows = λ char glyph e. ap size_of (sym e);
}
