-- ===== src/Fb/Canvas.antt =====
-- A buffer as a canvas of pixels: where pixels lie, and what one write changes.
use r_os.Common.{
  ℕ, ◌+◌, ◌*◌, ◌^◌, ◌≤◌, ◌<◌, ◌≡◌, refl, ap, ◌≢◌, ◌⊎◌, inl, inr, Bool, true, false, ◌&&◌, ◌||◌,
  some, arith, dec_lt, ltb, leb, ◌==◌, if◌then◌else◌, Bool-cases, length, get_or,
  get_elem?-eq-get_or,
}
use r_os.Common.Loops.{Returns}
use r_os.Fb.{
  Buf, Color, black, PixelFormat, rgb, bgr, FrameBufferInfo, put_pixel, read_pixel, offset_of,
  read_three,
}
use r_os.Fb.Pixel.{IsTrueColor, plot, write_three_lem, plot-same, plot-other, length-plot}

-- A true-colour buffer that holds all pixels of its screen.
pub record IsCanvas (info : FrameBufferInfo) (buf : Buf) : Type 0 where
  pub colors : IsTrueColor info
  pub in_stride : info.width ≤ info.stride
  pub in_words : (info.width < 2 ^ 64) × (info.height < 2 ^ 64)
  pub holds : info.stride * info.height * info.bytes_per_pixel ≤ length buf

-- The colour stored for a pixel of the screen.
abbrev pub stored : PixelFormat → Buf → ℕ → Color
stored bgr buf o = record { r = get_or buf (o + 2) 0; g = get_or buf (o + 1) 0; b = get_or buf o 0 }
stored _ buf o = record { r = get_or buf o 0; g = get_or buf (o + 1) 0; b = get_or buf (o + 2) 0 }

abbrev pub pixel_at : FrameBufferInfo → Buf → ℕ → ℕ → Color
pixel_at info buf x y = stored info.pixel_format buf (offset_of info x y)

pub offset_fits :
    (info : FrameBufferInfo) (buf : Buf) (x y : ℕ)
    → IsCanvas info buf
    → x < info.width
    → y < info.height
    → offset_of info x y + info.bytes_per_pixel ≤ length buf
offset_fits info buf x y v hx hy =
    let row : y * info.stride + x + 1 ≤ info.stride * info.height = grind (arith, v.in_stride) in
    let bytes : (y * info.stride + x + 1) * info.bytes_per_pixel
        ≤ info.stride * info.height * info.bytes_per_pixel =
      grind arith in
    omega (arith, v.holds)

-- A pixel before another in the order of rows lies wholly before it in the buffer.
before : (i j bpp : ℕ) → i < j → i * bpp + bpp ≤ j * bpp
before i j bpp h = let wide : (i + 1) * bpp ≤ j * bpp = grind arith in omega arith

index_apart :
    (s x y x' y' : ℕ)
    → x < s
    → x' < s
    → (x ≢ x') ⊎ (y ≢ y')
    → (y * s + x < y' * s + x') ⊎ (y' * s + x' < y * s + x)
index_apart s x y x' y' hx hx' ne = elim (dec_lt y y') [
  | yes above ↦ let rows : (y + 1) * s ≤ y' * s = grind arith in inl (omega arith)
  | no lo ↦ elim (dec_lt y' y) [
    | yes below ↦ let rows : (y' + 1) * s ≤ y * s = grind arith in inr (omega arith)
    | no hi ↦
        let same : y ≡ y' = omega arith in
        let rows : y * s ≡ y' * s = ap (λ (t : ℕ). t * s) same in
        elim (dec_lt x x') [ yes h ↦ inl (omega arith) | no h ↦ inr (omega arith) ]
  ]
]

offset_apart :
    (info : FrameBufferInfo) (x y x' y' : ℕ)
    → x < info.stride
    → x' < info.stride
    → (x ≢ x') ⊎ (y ≢ y')
    → (offset_of info x' y' + info.bytes_per_pixel ≤ offset_of info x y)
      ⊎ (offset_of info x y + info.bytes_per_pixel ≤ offset_of info x' y')
offset_apart info x y x' y' hx hx' ne = elim (index_apart info.stride x y x' y' hx hx' ne) [
  | inl h ↦ inr (before (y * info.stride + x) (y' * info.stride + x') info.bytes_per_pixel h)
  | inr h ↦ inl (before (y' * info.stride + x') (y * info.stride + x) info.bytes_per_pixel h)
]

Color_eq : {c d : Color} → c.r ≡ d.r → c.g ≡ d.g → c.b ≡ d.b → c ≡ d
Color_eq p q s = λ i. record { r = p i; g = q i; b = s i }

-- The region, given by a test, has the colour `c`, and the other pixels of the screen are as they
-- were in `buf`.
pub record Painted (info : FrameBufferInfo) (region : ℕ → ℕ → Bool) (c : Color) (buf buf' : Buf)
    : Type 0 where
  pub canvas : IsCanvas info buf'
  pub same_length : length buf' ≡ length buf
  pub pixels :
      (x y : ℕ)
      → x < info.width
      → y < info.height
      → pixel_at info buf' x y ≡ (if region x y then c else pixel_at info buf x y)

module _ (info : FrameBufferInfo) (buf : Buf) (v : IsCanvas info buf) where
  -- A write of three bytes in the pixel's place, in whichever order.
  module _ (x y c0 c1 c2 : ℕ) (hx : x < info.width) (hy : y < info.height) where
    abbrev plotted : Buf
    plotted = plot info.bytes_per_pixel (offset_of info x y) c0 c1 c2 buf

    plotted-IsCanvas : IsCanvas info plotted
    plotted-IsCanvas = record {
      colors = v.colors;
      in_stride = v.in_stride;
      in_words = v.in_words;
      holds =
          omega
            (arith, v.holds, length-plot info.bytes_per_pixel (offset_of info x y) c0 c1 c2 buf);
    }

    plotted_here :
        (get_or plotted (offset_of info x y) 0 ≡ c0)
        × (get_or plotted (offset_of info x y + 1) 0 ≡ c1)
        × (get_or plotted (offset_of info x y + 2) 0 ≡ c2)
    plotted_here =
        plot-same info.bytes_per_pixel (offset_of info x y) c0 c1 c2 buf v.colors.bytes
          (offset_fits info buf x y v hx hy)

    plotted_there :
        (px py a : ℕ)
        → px < info.width
        → (x ≢ px) ⊎ (y ≢ py)
        → offset_of info px py ≤ a
        → a < offset_of info px py + 3
        → get_or plotted a 0 ≡ get_or buf a 0
    plotted_there px py a hpx ne lo hi =
        plot-other info.bytes_per_pixel (offset_of info x y) c0 c1 c2 buf a v.colors.bytes (
          omega (
            arith,
            offset_apart info x y px py (omega (arith, v.in_stride)) (omega (arith, v.in_stride))
                ne,
            v.colors.bytes,
          ))

    plotted_elsewhere :
        (px py : ℕ)
        → px < info.width
        → (x ≢ px) ⊎ (y ≢ py)
        → pixel_at info plotted px py ≡ pixel_at info buf px py
    plotted_elsewhere px py hpx ne = elim v.colors.format [
      | inl e ↦ rw e (Color_eq zeroth first second)
      | inr e ↦ rw e (Color_eq second first zeroth)
    ]
      where
        zeroth : get_or plotted (offset_of info px py) 0 ≡ get_or buf (offset_of info px py) 0
        zeroth = plotted_there px py (offset_of info px py) hpx ne (omega arith) (omega arith)

        first :
            get_or plotted (offset_of info px py + 1) 0 ≡ get_or buf (offset_of info px py + 1) 0
        first = plotted_there px py (offset_of info px py + 1) hpx ne (omega arith) (omega arith)

        second :
            get_or plotted (offset_of info px py + 2) 0 ≡ get_or buf (offset_of info px py + 2) 0
        second = plotted_there px py (offset_of info px py + 2) hpx ne (omega arith) (omega arith)

    plotted-Painted :
        (c : Color)
        → pixel_at info plotted x y ≡ c
        → Painted info (λ px py. px == x && py == y) c buf plotted
    plotted-Painted c here = record {
      canvas = plotted-IsCanvas;
      same_length = length-plot info.bytes_per_pixel (offset_of info x y) c0 c1 c2 buf;
      pixels = λ px py hpx hpy. elim (Bool-cases (px == x && py == y)) [
        | inl same ↦ let at : (px ≡ x) × (py ≡ y) = ground arith in rw same (rw (at.0, at.1) here)
        | inr other ↦ rw other (plotted_elsewhere px py hpx (ground arith))
      ];
    }

    on_screen : (ltb (length buf) (offset_of info x y + info.bytes_per_pixel)) ≡ false
    on_screen = ground (arith, offset_fits info buf x y v hx hy)

  inside :
      (x y : ℕ)
      → (leb info.width x || leb info.height y) ≡ false
      → (x < info.width) × (y < info.height)
  inside x y on = ground arith

  read_three_lem :
      (o : ℕ) (color : ℕ → ℕ → ℕ → Color)
      → o + 3 ≤ length buf
      → read_three o buf color
        ≡ some (color (get_or buf o 0) (get_or buf (o + 1) 0) (get_or buf (o + 2) 0))
  unfolding read_three
  read_three_lem o color h = rw (
    get_elem?-eq-get_or buf o 0 (omega arith),
    get_elem?-eq-get_or buf (o + 1) 0 (omega arith),
    get_elem?-eq-get_or buf (o + 2) 0 (omega arith),
  )

  -- On a canvas `read_pixel` returns the stored colour, and black off the screen.
  pub read_pixel-pixel_at :
      (x y : ℕ)
      → read_pixel info x y buf
        ≡ some (if leb info.width x || leb info.height y then black else pixel_at info buf x y)
  unfolding read_pixel
  read_pixel-pixel_at x y = elim (Bool-cases (leb info.width x || leb info.height y)) [
    | inl off ↦ rw off
    | inr on ↦
        let (hx, hy) = inside x y on in
        let fits : offset_of info x y + info.bytes_per_pixel ≤ length buf =
          offset_fits info buf x y v hx hy in
        elim v.colors.format [
          | inl e ↦
              rw (on, on_screen x y 0 0 0 hx hy, e)
                (read_three_lem (offset_of info x y) (λ c0 c1 c2. record { r = c0; g = c1; b = c2 })
                  (omega (arith, v.colors.bytes)))
          | inr e ↦
              rw (on, on_screen x y 0 0 0 hx hy, e)
                (read_three_lem (offset_of info x y) (λ c0 c1 c2. record { r = c2; g = c1; b = c0 })
                  (omega (arith, v.colors.bytes)))
        ]
  ]

  module _ (x y : ℕ) (c : Color) where
    put_pixel-off :
        (leb info.width x || leb info.height y) ≡ true → put_pixel info x y c buf ≡ some buf
    unfolding put_pixel
    put_pixel-off off = rw off

    module _ (on : (leb info.width x || leb info.height y) ≡ false) where
      fits : offset_of info x y + info.bytes_per_pixel ≤ length buf
      fits = offset_fits info buf x y v (inside x y on).0 (inside x y on).1

      put_pixel-rgb :
          info.pixel_format ≡ rgb
          → put_pixel info x y c buf
            ≡ some (plot info.bytes_per_pixel (offset_of info x y) c.r c.g c.b buf)
      unfolding put_pixel
      put_pixel-rgb e =
          rw (on, on_screen x y 0 0 0 (inside x y on).0 (inside x y on).1, e)
            (write_three_lem info.bytes_per_pixel (offset_of info x y) c.r c.g c.b buf
              v.colors.bytes fits)

      put_pixel-bgr :
          info.pixel_format ≡ bgr
          → put_pixel info x y c buf
            ≡ some (plot info.bytes_per_pixel (offset_of info x y) c.b c.g c.r buf)
      unfolding put_pixel
      put_pixel-bgr e =
          rw (on, on_screen x y 0 0 0 (inside x y on).0 (inside x y on).1, e)
            (write_three_lem info.bytes_per_pixel (offset_of info x y) c.b c.g c.r buf
              v.colors.bytes fits)

  -- On a canvas `put_pixel` does not panic. It gives the pixel the colour, if it is on the screen, and changes
  -- no other pixel.
  pub put_pixel-Painted :
      (x y : ℕ) (c : Color)
      → Returns (Painted info (λ px py. px == x && py == y) c buf) (put_pixel info x y c buf)
  put_pixel-Painted x y c = elim (Bool-cases (leb info.width x || leb info.height y)) [
    | inl off ↦
        rw (put_pixel-off x y c off)
          (record { canvas = v; same_length = refl; pixels = λ px py hx hy. ground arith })
    | inr on ↦
        let (hx, hy) = inside x y on in
        elim v.colors.format [
          | inl e ↦
              let (r_at, g_at, b_at) = plotted_here x y c.r c.g c.b hx hy in
              rw (put_pixel-rgb x y c on e)
                (plotted-Painted x y c.r c.g c.b hx hy c (rw e (Color_eq r_at g_at b_at)))
          | inr e ↦
              let (b_at, g_at, r_at) = plotted_here x y c.b c.g c.r hx hy in
              rw (put_pixel-bgr x y c on e)
                (plotted-Painted x y c.b c.g c.r hx hy c (rw e (Color_eq r_at g_at b_at)))
        ]
  ]
