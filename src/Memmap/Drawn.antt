-- ===== src/Memmap/Drawn.antt =====
-- What the memory map window of kernel/src/memmap.rs draws on.
use r_os.Common.{
  ℕ, zero, suc, ◌+◌, ◌-◌, ◌*◌, ◌/◌, ◌%◌, ◌^◌, ◌≤◌, ◌<◌, min, ◌≡◌, refl, inl, inr, Bool, true, false,
  Option, none, some, List, [], ◌∷◌, arith, ltb, ◌==◌, Bool-cases, length, take, length-replicate,
  length-take, All,
}
use r_os.Common.Loops.{Returns, Returns->>=, ◌>>=◌}
use r_os.Fb.{Buf, Color, Rect, FrameBufferInfo, fill_rect}
use r_os.Fb.Lines.{draw_text-DrawsIn}
use r_os.Fb.Paint.{between}
use r_os.Fb.Rects.{in_rect, fill_rect-Painted}
use r_os.Fb.Text.{Font, font_height, draw_text, font_width}
use r_os.Fb.Within.{Kept-refl, DrawsIn, Kept, DrawsIn->>=, DrawsIn-Paints}
use r_os.Format.{Text, format_size, format_addr_range}
use r_os.Format.Size.{format_size-SizePrinted}
use r_os.Format.Hex.{format_addr_range-RangePrinted}
use r_os.Regions.{MemRegionKind, MemRegionInfo, Table, label, color}
use r_os.Wm.Manager.{zeros}
use r_os.Wm.Screen.{rgb}
use r_os.Memmap.{
  heading, row_height, legend_kinds, legend_height, sub, max_visible, printed, draw_header,
  draw_size, draw_range, draw_region, draw_regions, draw_legend, draw_table, draw_window,
}
use r_os.Wm.Focus.{IsSound_drawn}
use r_os.Wm.Valid.{IsSound}
use r_os.Wm.Window.{WmWindow, content_rect}

-- A region whose end is not before its begin, with 64-bit addresses.
pub record IsOrdered (region : MemRegionInfo) : Type 0 where
  pub ordered : region.start ≤ region.end
  pub in_word : region.end < 2 ^ 64

-- The pixel rows of a content area, over the whole width.
abbrev pub rows : Rect → ℕ → ℕ → Bool
rows content px py = between content.y (content.y + content.height) py

sub_lem : (a b : ℕ) → b ≤ a → sub a b ≡ some (a - b)
sub_lem a b h = let no_less : ltb a b ≡ false = ground arith in rw no_less refl

All-take :
    (P : MemRegionInfo → Type 0) (n : ℕ) (l : List MemRegionInfo) → All P l → All P (take n l)
All-take P zero l all = tt
All-take P (suc n) [] all = tt
All-take P (suc n) (x ∷ l) all = (all.0, All-take P n l all.1)

module _ (font : Font) (from_utf8 : List ℕ → Option (List ℕ)) (info : FrameBufferInfo)
    (content : Rect) where
  DrawsIn-given :
      {A : Type 0} (P : A → Type 0) (m : Option A) (step : A → Buf → Option Buf)
      → Returns P m
      → ((a : A) → P a → DrawsIn info (rows content) (step a))
      → DrawsIn info (rows content) (λ buf. m >>= λ a. step a buf)
  DrawsIn-given P none step h k = absurd h
  DrawsIn-given P (some a) step h k = k a h

  fill-DrawsIn :
      (x y width height : ℕ) (c : Color)
      → content.y ≤ y
      → y + height ≤ content.y + content.height
      → DrawsIn info (rows content) (fill_rect info x y width height c)
  fill-DrawsIn x y width height c top bottom =
      DrawsIn-Paints info (rows content) c (in_rect x y width height)
        (fill_rect info x y width height c) (λ px py hx hy out. ground arith)
        (fill_rect-Painted info c x y width height)

  line-DrawsIn :
      (x y : ℕ) (text : List ℕ) (c : Color)
      → content.y ≤ y
      → y + font_height ≤ content.y + content.height
      → DrawsIn info (rows content) (draw_text font info x y text c)
  line-DrawsIn x y text c top bottom =
      draw_text-DrawsIn font info (rows content) y c (λ px py out. ground arith) x text

  printed-Returns :
      (t : Text) → t.pos ≤ length t.buf → Returns (λ text. Unit) (printed font from_utf8 t)
  unfolding printed
  printed-Returns t h = let fits : ltb (length t.buf) t.pos ≡ false = ground arith in rw fits tt

  draw_size-DrawsIn :
      (cy size : ℕ)
      → content.y ≤ cy
      → cy + font_height ≤ content.y + content.height
      → size < 2 ^ 64
      → DrawsIn info (rows content) (draw_size font from_utf8 info content cy size)
  unfolding draw_size
  draw_size-DrawsIn cy size top bottom h =
      DrawsIn-given _ (format_size (zeros 24) size) _
        (format_size-SizePrinted (zeros 24) size (length-replicate {A = ℕ} 24 0) h)
        (λ t p. DrawsIn-given _ (printed font from_utf8 t) _ (printed-Returns t p.1) (λ text u.
          line-DrawsIn (content.x + content.width - (t.pos * font_width + 2)) cy text
            (rgb 0xcc 0xcc 0xcc) top bottom))

  draw_range-DrawsIn :
      (cy : ℕ) (region : MemRegionInfo)
      → content.y ≤ cy
      → cy + font_height ≤ content.y + content.height
      → IsOrdered region
      → DrawsIn info (rows content) (draw_range font from_utf8 info content cy region)
  unfolding draw_range
  draw_range-DrawsIn cy region top bottom o =
      DrawsIn-given _ (format_addr_range (zeros 40) region.start region.end) _
        (format_addr_range-RangePrinted (zeros 40) region.start region.end
          (length-replicate {A = ℕ} 40 0) (omega (arith, o.ordered, o.in_word)) o.in_word)
        (λ t p.
          DrawsIn-given _ (printed font from_utf8 t) _ (printed-Returns t p.1)
            (λ text u. line-DrawsIn (content.x + 2) cy text (rgb 0x88 0x8c 0x96) top bottom))

  draw_region-DrawsIn :
      (cy : ℕ) (region : MemRegionInfo)
      → content.y ≤ cy
      → cy + row_height ≤ content.y + content.height
      → IsOrdered region
      → DrawsIn info (rows content) (draw_region font from_utf8 info content cy region)
  unfolding draw_region
  draw_region-DrawsIn cy region top bottom o =
      let size : ℕ = region.end - region.start in
      rw (sub_lem region.end region.start o.ordered) (
        DrawsIn->>= info (rows content) _ _
          (fill-DrawsIn content.x cy content.width 3 (color region.kind) top (omega arith))
          (DrawsIn->>= info (rows content) _ _
            (line-DrawsIn (content.x + 2) (cy + 4) (label region.kind) (color region.kind)
              (omega arith) (omega arith))
            (DrawsIn->>= info (rows content) _ _
              (draw_size-DrawsIn (cy + 4) size (omega arith) (omega arith)
                (omega (arith, o.in_word)))
              (DrawsIn->>= info (rows content) _ _
                (draw_range-DrawsIn (cy + 4 + font_height) region (omega arith) (omega arith) o)
                (fill-DrawsIn content.x (cy + 4 + font_height + font_height + 1) content.width 1
                  (rgb 0x1a 0x1e 0x28) (omega arith) (omega arith))))))

  draw_regions-DrawsIn :
      (cy : ℕ) (regions : List MemRegionInfo)
      → content.y ≤ cy
      → cy + length regions * row_height ≤ content.y + content.height
      → All IsOrdered regions
      → DrawsIn info (rows content) (draw_regions font from_utf8 info content cy regions)
  unfolding draw_regions
  draw_regions-DrawsIn cy [] top bottom all = Kept-refl info (rows content)
  draw_regions-DrawsIn cy (region ∷ rest) top bottom all =
      DrawsIn->>= info (rows content) _
        (draw_regions font from_utf8 info content (cy + row_height) rest)
        (draw_region-DrawsIn cy region top (omega arith) all.0)
        (draw_regions-DrawsIn (cy + row_height) rest (omega arith) (omega arith) all.1)

  -- The legend from the index `i` on, with room for its rows.
  draw_legend-DrawsIn :
      (legend_y i : ℕ) (kinds : List MemRegionKind)
      → content.y ≤ legend_y
      → i + length kinds ≤ length legend_kinds
      → legend_y + legend_height ≤ content.y + content.height
      → DrawsIn info (rows content) (draw_legend font from_utf8 info content legend_y i kinds)
  unfolding draw_legend
  draw_legend-DrawsIn legend_y i [] top few bottom = Kept-refl info (rows content)
  draw_legend-DrawsIn legend_y i (kind ∷ kinds) top few bottom =
      let ly : ℕ = legend_y + 6 + i / 2 * (font_height + 4) in
      let lx : ℕ = content.x + i % 2 * (content.width / 2) in
      DrawsIn->>= info (rows content) _ _
        (fill-DrawsIn lx (ly + 2) 12 12 (color kind) (omega arith) (omega arith))
        (DrawsIn->>= info (rows content) _
          (draw_legend font from_utf8 info content legend_y (i + 1) kinds)
          (line-DrawsIn (lx + 16) ly (label kind) (rgb 0xaa 0xaa 0xaa) (omega arith) (omega arith))
          (draw_legend-DrawsIn legend_y (i + 1) kinds top (omega arith) bottom))

  draw_table-DrawsIn :
      (table : Table)
      → All IsOrdered table.regions
      → legend_height ≤ content.height
      → DrawsIn info (rows content) (draw_table font from_utf8 table info content)
  unfolding draw_table draw_header
  draw_table-DrawsIn table all room =
      let visible : ℕ = min table.count (max_visible content) in
      let shown : List MemRegionInfo = take visible table.regions in
      let few : length shown ≤ max_visible content =
        omega (arith, length-take visible table.regions) in
      rw (sub_lem (content.y + content.height) legend_height (omega arith)) (
        DrawsIn->>= info (rows content) _ _
          (DrawsIn->>= info (rows content) _ _
            (line-DrawsIn content.x content.y heading (rgb 0xa0 0xa8 0xb4) (omega arith)
              (omega arith))
            (fill-DrawsIn content.x (content.y + (font_height + 4)) content.width 1
              (rgb 0x33 0x38 0x44) (omega arith) (omega arith)))
          (DrawsIn->>= info (rows content) _ _
            (draw_regions-DrawsIn (content.y + (font_height + 4) + 4) shown (omega arith)
              (omega (arith, few)) (All-take IsOrdered visible table.regions all))
            (DrawsIn->>= info (rows content) _ _
              (fill-DrawsIn content.x (content.y + content.height - legend_height) content.width 1
                (rgb 0x33 0x38 0x44) (omega arith) (omega arith))
              (draw_legend-DrawsIn (content.y + content.height - legend_height) 0 legend_kinds
                (omega arith) (omega arith) (omega arith)))))

-- A window that was drawn to in some of its rows.
pub record IsDrawnIn (screen : FrameBufferInfo) (win win' : WmWindow) : Type 0 where
  pub sound : IsSound screen win'
  pub same : win' ≡ record win { buf = win'.buf; dirty = win'.dirty }
  pub kept : Kept win.buf_info (rows (content_rect win)) win.buf win'.buf

module _ (font : Font) (from_utf8 : List ℕ → Option (List ℕ)) where
  -- Drawing a table of 64-bit regions whose ends are not before their begins in a window with room
  -- for the legend does not panic. It changes only the buffer, where it draws in no row outside the
  -- content, and the mark that the window is to be shown.
  pub draw_window-IsDrawnIn :
      (screen : FrameBufferInfo) (table : Table) (win : WmWindow)
      → IsSound screen win
      → All IsOrdered table.regions
      → table.count ≤ length table.regions
      → legend_height ≤ (content_rect win).height
      → Returns (IsDrawnIn screen win) (draw_window font from_utf8 table win)
  unfolding draw_window
  draw_window-IsDrawnIn screen table win s all few room = elim (Bool-cases (table.count == 0)) [
    | inl empty ↦ rw empty (record {
      sound = s;
      same = refl;
      kept = Kept-refl win.buf_info _ win.buf s.drawable.canvas;
    })
    | inr some_region ↦
        let in_array : ltb (length table.regions) table.count ≡ false = ground arith in
        rw (some_region, in_array)
          (Returns->>= _ _ (draw_table font from_utf8 table win.buf_info (content_rect win) win.buf)
            _
            (draw_table-DrawsIn font from_utf8 win.buf_info (content_rect win) table all room
              win.buf s.drawable.canvas)
            (λ b k. record {
              sound = IsSound_drawn screen win b true s k.canvas;
              same = refl;
              kept = k;
            }))
  ]
