-- ===== src/Memmap.antt =====
-- The memory map window of kernel/src/memmap.rs: draw_memmap and the task's begin. `none` is a
-- panic, also of an arithmetic overflow where overflow is checked.
pub mod Drawn
mod Tests
use r_os.Common.{
  ℕ, ◌+◌, ◌-◌, ◌*◌, ◌/◌, ◌%◌, min, true, Option, none, some, List, [], ◌∷◌, ltb, ◌==◌,
  if◌then◌else◌, length, take,
}
use r_os.Common.Loops.{◌>>=◌}
use r_os.Fb.{Buf, Rect, FrameBufferInfo, fill_rect}
use r_os.Fb.Text.{Font, font_width, font_height, draw_text}
use r_os.Format.{Text, format_size, format_addr_range}
use r_os.Regions.{
  MemRegionKind, usable, reserved, acpi_reclaimable, acpi_nvs, bootloader, heap, frame_buffer,
  label, color, MemRegionInfo, Table,
}
use r_os.Wm.Api
use r_os.Wm.Api.{Globals, with_wm}
use r_os.Wm.Manager.{with_window, zeros}
use r_os.Wm.Screen.{rgb}
use r_os.Wm.Window.{WmWindow, content_rect}

abbrev pub heading : List ℕ
heading =
    b'P' ∷ b'h' ∷ b'y' ∷ b's' ∷ b'i' ∷ b'c' ∷ b'a' ∷ b'l' ∷ b' ' ∷ b'M' ∷ b'e' ∷ b'm' ∷ b'o' ∷ b'r'
    ∷ b'y' ∷ []

-- `row_height`
abbrev pub row_height : ℕ
row_height = font_height * 2 + 8

abbrev pub legend_kinds : List MemRegionKind
legend_kinds =
    usable ∷ reserved ∷ acpi_reclaimable ∷ acpi_nvs ∷ bootloader ∷ heap ∷ frame_buffer ∷ []

-- `legend_height`
abbrev pub legend_height : ℕ
legend_height = (length legend_kinds + 1) / 2 * (font_height + 4) + 8

-- `unwrap_or("")`
abbrev or_empty : Option (List ℕ) → List ℕ
or_empty none = []
or_empty (some text) = text

-- `a - b`, which panics below 0 where overflow is checked.
abbrev pub sub : ℕ → ℕ → Option ℕ
sub a b = if ltb a b then none else some (a - b)

-- How many regions there is room for above the legend.
abbrev pub max_visible : Rect → ℕ
max_visible content = (content.height - (legend_height + (font_height + 4 + 4))) / row_height

module _ (font : Font) (from_utf8 : List ℕ → Option (List ℕ)) where
  -- The bytes of a buffer before a position, as a text.
  unfoldable pub printed : Text → Option (List ℕ)
  printed t =
      if ltb (length t.buf) t.pos then none else some (or_empty (from_utf8 (take t.pos t.buf)))

  unfoldable pub draw_header : FrameBufferInfo → Rect → Buf → Option Buf
  draw_header info content buf =
      draw_text font info content.x content.y heading (rgb 0xa0 0xa8 0xb4) buf >>= λ b.
      fill_rect info content.x (content.y + (font_height + 4)) content.width 1 (rgb 0x33 0x38 0x44)
        b

  -- The size, right-aligned.
  unfoldable pub draw_size : FrameBufferInfo → Rect → ℕ → ℕ → Buf → Option Buf
  draw_size info content cy size buf = format_size (zeros 24) size >>= λ t. printed t >>= λ text.
      draw_text font info (content.x + content.width - (t.pos * font_width + 2)) cy text
        (rgb 0xcc 0xcc 0xcc) buf

  unfoldable pub draw_range : FrameBufferInfo → Rect → ℕ → MemRegionInfo → Buf → Option Buf
  draw_range info content cy region buf =
      format_addr_range (zeros 40) region.start region.end >>= λ t.
      printed t >>= λ text. draw_text font info (content.x + 2) cy text (rgb 0x88 0x8c 0x96) buf

  -- One round of the loop, with `cy` at its begin.
  unfoldable pub draw_region : FrameBufferInfo → Rect → ℕ → MemRegionInfo → Buf → Option Buf
  draw_region info content cy region buf = sub region.end region.start >>= λ size.
      fill_rect info content.x cy content.width 3 (color region.kind) buf >>= λ b1.
      draw_text font info (content.x + 2) (cy + 4) (label region.kind) (color region.kind) b1
      >>= λ b2. draw_size info content (cy + 4) size b2 >>= λ b3.
          draw_range info content (cy + 4 + font_height) region b3 >>= λ b4.
          fill_rect info content.x (cy + 4 + font_height + font_height + 1) content.width 1
            (rgb 0x1a 0x1e 0x28) b4

  -- The loop. Its rounds advance `cy` by `row_height`.
  unfoldable pub draw_regions : FrameBufferInfo → Rect → ℕ → List MemRegionInfo → Buf → Option Buf
  draw_regions info content cy [] buf = some buf
  draw_regions info content cy (region ∷ rest) buf = draw_region info content cy region buf >>= λ b.
      draw_regions info content (cy + row_height) rest b

  -- The loop over the kinds, from the index `i`, with `cols` 2.
  unfoldable pub draw_legend :
      FrameBufferInfo → Rect → ℕ → ℕ → List MemRegionKind → Buf → Option Buf
  draw_legend info content legend_y i [] buf = some buf
  draw_legend info content legend_y i (kind ∷ kinds) buf =
      let lx = content.x + i % 2 * (content.width / 2) in
      let ly = legend_y + 6 + i / 2 * (font_height + 4) in
      fill_rect info lx (ly + 2) 12 12 (color kind) buf >>= λ b1.
      draw_text font info (lx + 16) ly (label kind) (rgb 0xaa 0xaa 0xaa) b1 >>= λ b2.
      draw_legend info content legend_y (i + 1) kinds b2

  -- The drawing of a table that is not empty.
  unfoldable pub draw_table : Table → FrameBufferInfo → Rect → Buf → Option Buf
  draw_table table info content buf = draw_header info content buf >>= λ b1.
      draw_regions info content (content.y + (font_height + 4) + 4)
        (take (min table.count (max_visible content)) table.regions) b1
      >>= λ b2. sub (content.y + content.height) legend_height >>= λ legend_y.
          fill_rect info content.x legend_y content.width 1 (rgb 0x33 0x38 0x44) b2 >>= λ b3.
          draw_legend info content legend_y 0 legend_kinds b3

  -- The closure on the window. `regions[..count]` panics if the count is beyond the array.
  unfoldable pub draw_window : Table → WmWindow → Option WmWindow
  draw_window table win =
      if table.count == 0
      then some win
      else if ltb (length table.regions) table.count
      then none
      else (draw_table table win.buf_info (content_rect win) win.buf >>= λ buf.
          some (record win { buf = buf; dirty = true }))

  unfoldable pub draw_memmap : Table → ℕ → Globals → Option Globals
  draw_memmap table id = with_wm (λ wm.
      with_window id (draw_window table) wm.windows >>= λ ws. some (record wm { windows = ws }))

  -- `task_main` up to its loop, which only yields.
  unfoldable pub task_begin : Table → ℕ → Globals → Option Globals
  task_begin table id g = draw_memmap table id g >>= λ g'. Api.mark_dirty id g'
