-- ===== src/Fb.antt =====
-- kernel/src/framebuffer.rs: pixels and rectangles over a byte buffer. `none` is a panic of an
-- index out of bounds. Sums and products of coordinates are taken as not overflowing `usize`.
pub mod Pixel
pub mod Canvas
pub mod Paint
pub mod Rects
pub mod Text
pub mod Within
pub mod Lines
pub mod Lengths
pub mod Run
pub mod Gradient
pub mod Tests
use r_os.Common.{
  ℕ, zero, suc, ◌+◌, ◌-◌, ◌*◌, ◌/◌, ◌%◌, ◌^◌, min, ◌||◌, Option, none, some, List, ltb, leb, ◌==◌,
  if◌then◌else◌, length, get_elem?, get_or, set,
}
use mathlib.Core.Path.{◌∙◌}
use r_os.Common.Loops.{◌>>=◌, for_range}
use Prim.Native.Nat.{bit_or, bit_and}

abbrev pub default_title_bar_height : ℕ
default_title_bar_height = 24

abbrev pub window_padding : ℕ
window_padding = 6

pub record Rect : Type 0 where
  pub x : ℕ
  pub y : ℕ
  pub width : ℕ
  pub height : ℕ

pub record Color : Type 0 where
  pub r : ℕ
  pub g : ℕ
  pub b : ℕ

abbrev pub black : Color
black = record { r = 0; g = 0; b = 0 }

-- The enum of bootloader_api is open: `other` is what a later version may add.
pub data PixelFormat : Type 0 where
  rgb bgr u8 other : PixelFormat
  unknown : (red_position green_position blue_position : ℕ) → PixelFormat

pub record FrameBufferInfo : Type 0 where
  pub width : ℕ
  pub height : ℕ
  pub stride : ℕ
  pub bytes_per_pixel : ℕ
  pub pixel_format : PixelFormat

abbrev pub Buf : Type 0
Buf = List ℕ

-- `buf[i] = v`
abbrev pub write : ℕ → ℕ → Buf → Option Buf
write i v buf = if ltb i (length buf) then some (set buf i v) else none

-- `offset` of the pixel at `x`, `y`.
abbrev pub offset_of : FrameBufferInfo → ℕ → ℕ → ℕ
offset_of info x y = (y * info.stride + x) * info.bytes_per_pixel

unfoldable pub write_three : ℕ → ℕ → ℕ → ℕ → ℕ → Buf → Option Buf
write_three bpp offset c0 c1 c2 buf = write offset c0 buf >>= λ b0.
    write (offset + 1) c1 b0 >>= λ b1.
    write (offset + 2) c2 b1 >>= λ b2. if leb 4 bpp then write (offset + 3) 0xff b2 else some b2

-- `(c as u32) << position`, which panics from 32 on where overflow is checked.
shift_u32 : ℕ → ℕ → Option ℕ
shift_u32 c position = if ltb position 32 then some (c * 2 ^ position % 2 ^ 32) else none

-- The first `n` bytes of a number, the lowest first.
write_le : ℕ → ℕ → ℕ → Buf → Option Buf
write_le zero pixel offset buf = some buf
write_le (suc n) pixel offset buf =
    write offset (pixel % 256) buf >>= λ b. write_le n (pixel / 256) (offset + 1) b

write_unknown : ℕ → ℕ → ℕ → ℕ → ℕ → Color → Buf → Option Buf
unfolding shift_u32 write_le
write_unknown rp gp bp bpp offset c buf = shift_u32 c.r rp >>= λ r. shift_u32 c.g gp >>= λ g.
    shift_u32 c.b bp >>= λ b. write_le (min bpp 4) (bit_or (bit_or r g) b) offset buf

unfoldable pub put_pixel : FrameBufferInfo → ℕ → ℕ → Color → Buf → Option Buf
unfolding write_three write_unknown
put_pixel info x y c buf =
    if leb info.width x || leb info.height y
    then some buf
    else (let bpp = info.bytes_per_pixel in
        let offset = offset_of info x y in
        if ltb (length buf) (offset + bpp) then some buf else elim info.pixel_format [
          | rgb ↦ write_three bpp offset c.r c.g c.b buf
          | bgr ↦ write_three bpp offset c.b c.g c.r buf
          | u8 ↦ write offset ((c.r + c.g + c.b) / 3 % 256) buf
          | unknown rp gp bp ↦ write_unknown rp gp bp bpp offset c buf
          | other ↦ some buf
        ])

-- `raw` of `n` bytes from `offset`, the lowest first.
read_le : ℕ → ℕ → Buf → Option ℕ
read_le zero offset buf = some 0
read_le (suc n) offset buf =
    get_elem? buf offset >>= λ low. read_le n (offset + 1) buf >>= λ high. some (low + 256 * high)

-- `((raw >> position) & 0xFF) as u8`
component : ℕ → ℕ → Option ℕ
component raw position = if ltb position 32 then some (raw / 2 ^ position % 256) else none

unfoldable pub read_three : ℕ → Buf → (ℕ → ℕ → ℕ → Color) → Option Color
read_three offset buf color = get_elem? buf offset >>= λ c0.
    get_elem? buf (offset + 1) >>= λ c1. get_elem? buf (offset + 2) >>= λ c2. some (color c0 c1 c2)

unfoldable pub read_pixel : FrameBufferInfo → ℕ → ℕ → Buf → Option Color
unfolding read_three read_le component
read_pixel info x y buf =
    if leb info.width x || leb info.height y
    then some black
    else (let bpp = info.bytes_per_pixel in
        let offset = offset_of info x y in
        if ltb (length buf) (offset + bpp) then some black else elim info.pixel_format [
          | rgb ↦ read_three offset buf (λ c0 c1 c2. record { r = c0; g = c1; b = c2 })
          | bgr ↦ read_three offset buf (λ c0 c1 c2. record { r = c2; g = c1; b = c0 })
          | u8 ↦ get_elem? buf offset >>= λ v. some (record { r = v; g = v; b = v })
          | unknown rp gp bp ↦ read_le (min bpp 4) offset buf >>= λ raw. component raw rp >>= λ r.
              component raw gp >>= λ g.
              component raw bp >>= λ b. some (record { r = r; g = g; b = b })
          | other ↦ some black
        ])

-- `saturating_add`
abbrev pub saturating_add : ℕ → ℕ → ℕ
saturating_add a b = min (a + b) (2 ^ 64 - 1)

-- `for k in a..b`
abbrev pub for_in : ℕ → ℕ → (ℕ → Buf → Option Buf) → Buf → Option Buf
for_in a b body buf = for_range (b - a) a body buf

unfoldable pub fill_rect : FrameBufferInfo → ℕ → ℕ → ℕ → ℕ → Color → Buf → Option Buf
fill_rect info x y width height c buf =
    let x_end = min (saturating_add x width) info.width in
    let y_end = min (saturating_add y height) info.height in
    for_in y y_end (λ py. for_in x x_end (λ px. put_pixel info px py c)) buf

unfoldable pub draw_rect_outline : FrameBufferInfo → Rect → Color → Buf → Option Buf
draw_rect_outline info rect c buf =
    if rect.width == 0 || rect.height == 0
    then some buf
    else (let x_last = min (saturating_add rect.x rect.width) info.width - 1 in
        let y_last = min (saturating_add rect.y rect.height) info.height - 1 in
        for_in rect.x (x_last + 1)
          (λ x b. put_pixel info x rect.y c b >>= λ b'. put_pixel info x y_last c b') buf
        >>= λ buf'.
            for_in rect.y (y_last + 1)
              (λ y b. put_pixel info rect.x y c b >>= λ b'. put_pixel info x_last y c b') buf')

-- `n` bytes of `orig` from `src` on, written to `buf` from `dst` on: `copy_from_slice` of two
-- slices, and `copy_within` of one buffer, whose bytes before the call are then `orig`.
abbrev pub copy_bytes : ℕ → ℕ → ℕ → Buf → Buf → Buf
copy_bytes zero src dst orig buf = buf
copy_bytes (suc n) src dst orig buf =
    copy_bytes n (src + 1) (dst + 1) orig (set buf dst (get_or orig src 0))
