-- ===== src/Wm/Blit.antt =====
-- A window copied to the screen.
use r_os.Common.{
  ℕ, ◌+◌, ◌-◌, ◌*◌, ◌^◌, ◌≤◌, ◌<◌, ◌≡◌, refl, sym, ap, ◌∙◌, inl, inr, Bool, true, false, not, ◌&&◌,
  ◌||◌, arith, mul_mono, lt→ltb, ℕ_discrete, leb, ◌==◌, if◌then◌else◌, Bool-cases, length,
}
use r_os.Common.Loops.{Returns, for_range_inv}
use r_os.Fb.{Buf, FrameBufferInfo, offset_of}
use r_os.Fb.Canvas.{IsCanvas, pixel_at}
use r_os.Fb.Paint.{between}
use r_os.Fb.Run.{run, run_fits, run_pixels, length-run, run-IsCanvas}
use r_os.Wm.Window.{WmWindow}
use r_os.Wm.Screen.{is_addressed, blit_row, blit_window, copy_w, copy_h}

-- A buffer's pixels of fewer than 2^48, of at most 16 bytes.
pub record IsModest (info : FrameBufferInfo) : Type 0 where
  pub pixels : info.height * info.stride < 2 ^ 48
  pub bytes : info.bytes_per_pixel ≤ 16

-- A window near the screen: it begins, and ends, less than 2^24 columns from its edge.
pub record IsNear (win : WmWindow) : Type 0 where
  pub left : win.x < 2 ^ 24
  pub wide : win.width < 2 ^ 24

-- A window whose buffer has the screen's pixel format, and holds all its pixels.
pub record IsShowable (info : FrameBufferInfo) (win : WmWindow) : Type 0 where
  pub canvas : IsCanvas win.buf_info win.buf
  pub sizes : (win.buf_info.width ≡ win.width) × (win.buf_info.height ≡ win.height)
  pub same_format : win.buf_info.pixel_format ≡ info.pixel_format
  pub same_bytes : win.buf_info.bytes_per_pixel ≡ info.bytes_per_pixel
  pub modest : IsModest info × IsModest win.buf_info
  pub near : IsNear win

-- The screen shows `n` rows of the window, and what it showed elsewhere.
pub record Blitted (info : FrameBufferInfo) (win : WmWindow) (n : ℕ) (buf buf' : Buf) : Type 0 where
  pub canvas : IsCanvas info buf'
  pub same_length : length buf' ≡ length buf
  pub pixels :
      (px py : ℕ)
      → px < info.width
      → py < info.height
      → pixel_at info buf' px py ≡ (
          if between win.y (win.y + n) py && between win.x (win.x + copy_w info win) px
          then pixel_at win.buf_info win.buf (px - win.x) (py - win.y)
          else pixel_at info buf px py)

-- The end of a part of a row, in bytes.
bytes_fit :
    (row h s x n bpp : ℕ)
    → row < h
    → h * s < 2 ^ 48
    → x < 2 ^ 24
    → n < 2 ^ 24
    → bpp ≤ 16
    → (row * s + x < 2 ^ 64) × ((row * s + x) * bpp + n * bpp < 2 ^ 64)
bytes_fit row h s x n bpp hr hp hx hn hb =
    let rows : row * s ≤ h * s = mul_mono row h s (omega arith) in
    let start : bpp * (row * s + x) ≤ 16 * (row * s + x) = mul_mono bpp 16 (row * s + x) hb in
    let part : bpp * n ≤ 16 * n = mul_mono bpp 16 n hb in
    let e1 : (row * s + x) * bpp ≡ bpp * (row * s + x) = grind arith in
    let e2 : n * bpp ≡ bpp * n = grind arith in (omega arith, omega arith)

all_true :
    (a b c d e f : Bool)
    → a ≡ true
    → b ≡ true
    → c ≡ true
    → d ≡ true
    → f ≡ true
    → (a && b && c && d && (not e || f)) ≡ true
all_true a b c d e f ha hb hc hd hf = ground arith

addressed :
    (info : FrameBufferInfo) (win : WmWindow) (row : ℕ)
    → IsShowable info win
    → row < copy_h info win
    → is_addressed info win (copy_w info win) row ≡ true
addressed info win row w h =
    let to =
      bytes_fit (win.y + row) info.height info.stride win.x (copy_w info win) info.bytes_per_pixel
        (omega arith) w.modest.0.pixels w.near.left (omega (arith, w.near.wide)) w.modest.0.bytes in
    let from =
      bytes_fit row win.buf_info.height win.buf_info.stride 0 (copy_w info win) info.bytes_per_pixel
        (omega (arith, w.sizes)) w.modest.1.pixels (omega arith) (omega (arith, w.near.wide))
        w.modest.0.bytes in
    let start : (row * win.buf_info.stride + 0) * info.bytes_per_pixel
        ≡ row * win.buf_info.stride * info.bytes_per_pixel =
      ap (λ (t : ℕ). t * info.bytes_per_pixel) (omega arith) in
    all_true _ _ _ _ _ _ (lt→ltb _ _ (omega (arith, from))) (lt→ltb _ _ to.0)
      (lt→ltb _ _ (omega (arith, from, start))) (lt→ltb _ _ (omega (arith, to))) (lt→ltb _ _ to.1)

module _ (info : FrameBufferInfo) (win : WmWindow) (w : IsShowable info win) (orig : Buf) where
  -- A row that has no pixel on the screen.
  no_pixels :
      (row : ℕ) (buf : Buf)
      → copy_w info win ≡ 0
      → Blitted info win row orig buf
      → Blitted info win (row + 1) orig buf
  no_pixels row buf e b = record {
    canvas = b.canvas;
    same_length = b.same_length;
    pixels = λ px py hx hy. b.pixels px py hx hy ∙ nowhere px py;
  }
    where
      nowhere :
          (px py : ℕ)
          → (if between win.y (win.y + row) py && between win.x (win.x + copy_w info win) px
              then pixel_at win.buf_info win.buf (px - win.x) (py - win.y)
              else pixel_at info orig px py)
            ≡ (if between win.y (win.y + (row + 1)) py && between win.x (win.x + copy_w info win) px
                then pixel_at win.buf_info win.buf (px - win.x) (py - win.y)
                else pixel_at info orig px py)
      nowhere px py =
          let off : between win.x (win.x + copy_w info win) px ≡ false = ground arith in
          let a : (between win.y (win.y + row) py && between win.x (win.x + copy_w info win) px)
              ≡ false =
            ground arith in
          let b : (between win.y (win.y + (row + 1)) py
                && between win.x (win.x + copy_w info win) px)
              ≡ false =
            ground arith in
          rw (a, b) refl

  module _ (row : ℕ) (buf : Buf) (in_window : row < win.height)
      (on_screen : win.y + row < info.height) (wide : win.x + copy_w info win ≤ info.width)
      (b : Blitted info win row orig buf)
      (words : is_addressed info win (copy_w info win) row ≡ true) where
    abbrev line : Buf
    line =
        run win.buf_info info w.same_format w.same_bytes win.buf buf 0 row win.x (win.y + row)
          (copy_w info win) b.canvas on_screen wide

    line_pixels :
        (px py : ℕ)
        → px < info.width
        → py < info.height
        → pixel_at info line px py ≡ (
            if between win.y (win.y + (row + 1)) py && between win.x (win.x + copy_w info win) px
            then pixel_at win.buf_info win.buf (px - win.x) (py - win.y)
            else pixel_at info orig px py)
    line_pixels px py hx hy =
        let now =
          run_pixels win.buf_info info w.same_format w.same_bytes win.buf buf 0 row win.x
            (win.y + row) (copy_w info win) b.canvas on_screen wide px py hx in
        elim (Bool-cases (py == win.y + row && between win.x (win.x + copy_w info win) px)) [
          | inl here ↦
              let inside : (between win.y (win.y + (row + 1)) py
                    && between win.x (win.x + copy_w info win) px)
                  ≡ true =
                ground arith in
              let from_x : 0 + (px - win.x) ≡ px - win.x = omega arith in
              let from_y : row ≡ py - win.y = ground arith in
              rw inside (
                rw (here, from_x) at now
                ∙ ap (λ (r : ℕ). pixel_at win.buf_info win.buf (px - win.x) r) from_y)
          | inr other ↦
              let same : (between win.y (win.y + (row + 1)) py
                    && between win.x (win.x + copy_w info win) px)
                  ≡ (between win.y (win.y + row) py && between win.x (win.x + copy_w info win) px) =
                ground arith in
              rw same (rw other at now ∙ b.pixels px py hx hy)
        ]

    line-Blitted : Blitted info win (row + 1) orig line
    line-Blitted = record {
      canvas =
          run-IsCanvas win.buf_info info w.same_format w.same_bytes win.buf buf 0 row win.x
            (win.y + row) (copy_w info win) b.canvas on_screen wide;
      same_length =
          length-run win.buf_info info w.same_format w.same_bytes win.buf buf 0 row win.x
            (win.y + row) (copy_w info win) b.canvas on_screen wide
          ∙ b.same_length;
      pixels = line_pixels;
    }

    -- The bytes of the row in the window.
    row_bytes : row * win.buf_info.stride * info.bytes_per_pixel ≡ offset_of win.buf_info 0 row
    row_bytes =
        ap (λ (t : ℕ). row * win.buf_info.stride * t) (sym w.same_bytes)
        ∙ ap (λ (t : ℕ). t * win.buf_info.bytes_per_pixel) (omega arith)

    row_fits :
        (leb
            (row * win.buf_info.stride * info.bytes_per_pixel
              + copy_w info win * info.bytes_per_pixel)
            (length win.buf)
          && leb
              (offset_of info win.x (win.y + row) + copy_w info win * info.bytes_per_pixel)
              (length buf))
        ≡ true
    row_fits =
        let to =
          run_fits win.buf_info info w.same_format w.same_bytes win.buf buf 0 row win.x
            (win.y + row) (copy_w info win) b.canvas on_screen wide in
        let from =
          run_fits win.buf_info win.buf_info refl refl win.buf win.buf 0 row 0 row (copy_w info win)
            w.canvas (omega (arith, w.sizes)) (omega (arith, w.sizes)) in
        let same : copy_w info win * win.buf_info.bytes_per_pixel
            ≡ copy_w info win * info.bytes_per_pixel =
          ap (λ (t : ℕ). copy_w info win * t) w.same_bytes in
        ground (arith, row_bytes)

    wide_row-Blitted :
        Returns (Blitted info win (row + 1) orig) (blit_row info win (copy_w info win) row buf)
    unfolding blit_row
    wide_row-Blitted = rw words (rw row_fits (rw row_bytes line-Blitted))

  empty_row-Blitted :
      (row : ℕ) (buf : Buf)
      → copy_w info win ≡ 0
      → Blitted info win row orig buf
      → is_addressed info win (copy_w info win) row ≡ true
      → Returns (Blitted info win (row + 1) orig) (blit_row info win (copy_w info win) row buf)
  unfolding blit_row
  empty_row-Blitted row buf e b words =
      rw words
        (elim (Bool-cases (
          leb
            (row * win.buf_info.stride * info.bytes_per_pixel
              + copy_w info win * info.bytes_per_pixel)
            (length win.buf)
          && leb (offset_of info win.x (win.y + row) + copy_w info win * info.bytes_per_pixel)
              (length buf))) [
                | inl fits ↦
                    let none_wide : copy_w info win * info.bytes_per_pixel ≡ 0 =
                      ap (λ (t : ℕ). t * info.bytes_per_pixel) e ∙ omega arith in
                    rw fits (rw none_wide (no_pixels row buf e b))
                | inr beyond ↦ rw beyond (no_pixels row buf e b)
              ])

  blit_row-Blitted :
      (row : ℕ) (buf : Buf)
      → row < copy_h info win
      → Blitted info win row orig buf
      → Returns (Blitted info win (row + 1) orig) (blit_row info win (copy_w info win) row buf)
  blit_row-Blitted row buf h b = elim (ℕ_discrete (copy_w info win) 0) [
    | yes none_wide ↦ empty_row-Blitted row buf none_wide b (addressed info win row w h)
    | no some_wide ↦
        wide_row-Blitted row buf (omega arith) (omega arith) (omega arith) b
          (addressed info win row w h)
  ]

  -- The whole window.
  pub blit_window-Blitted :
      IsCanvas info orig
      → Returns (Blitted info win (copy_h info win) orig) (blit_window info win orig)
  unfolding blit_window
  blit_window-Blitted v =
      for_range_inv (λ n. Blitted info win n orig) (blit_row info win (copy_w info win))
        (copy_h info win - 0) 0 (copy_h info win) orig (omega arith)
        (λ row buf lo hi b. blit_row-Blitted row buf hi b)
        (record { canvas = v; same_length = refl; pixels = λ px py hx hy. ground arith })
