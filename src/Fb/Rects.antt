-- ===== src/Fb/Rects.antt =====
-- Filled and outlined rectangles, clipped to the screen.
use r_os.Common.{
  ℕ, ◌+◌, ◌-◌, ◌^◌, ◌<◌, min, ◌≡◌, inl, inr, Bool, true, false, ◌&&◌, ◌||◌, arith, ◌==◌, Bool-cases,
}
use r_os.Fb.{
  Buf, Color, Rect, FrameBufferInfo, fill_rect, draw_rect_outline, put_pixel, for_in,
  saturating_add,
}
use r_os.Fb.Paint.{
  Paints, Paints-put_pixel, Paints->>=, Paints-loop, Painted-same, Painted-none, between,
}
use r_os.Fb.Canvas.{IsCanvas, Painted}
use r_os.Common.Loops.{Returns, Returns-imp, ◌>>=◌}

-- The pixels of a rectangle.
abbrev pub in_rect : ℕ → ℕ → ℕ → ℕ → ℕ → ℕ → Bool
in_rect x y width height px py = between x (x + width) px && between y (y + height) py

-- The last column, or row, of a run that is cut off at `limit`.
abbrev pub last_of : ℕ → ℕ → ℕ → ℕ
last_of a size limit = min (a + size) limit - 1

min-saturating_add :
    (a size limit : ℕ) → limit < 2 ^ 64 → min (saturating_add a size) limit ≡ min (a + size) limit
min-saturating_add a size limit h = omega arith

between-last :
    (a size limit k : ℕ)
    → 0 < size
    → a < limit
    → k < limit
    → between a (last_of a size limit + 1) k ≡ between a (a + size) k
between-last a size limit k h ha hk = ground arith

ends-between :
    (a size limit k : ℕ)
    → 0 < size
    → a < limit
    → (k == a || k == last_of a size limit) ≡ true
    → between a (a + size) k ≡ true
ends-between a size limit k h ha e = ground arith

border_bits :
    (bx by ex ey : Bool)
    → (ex ≡ true → bx ≡ true)
    → (ey ≡ true → by ≡ true)
    → ((bx && ey) || (by && ex)) ≡ (bx && by && (ex || ey))
border_bits bx by ex ey hx hy = ground arith

module _ (info : FrameBufferInfo) (c : Color) where
  -- A horizontal run of pixels.
  pub Paints-row :
      (a b y : ℕ)
      → Paints info c
          (λ px py. between a b px && py == y)
          (for_in a b (λ px. put_pixel info px y c))
  Paints-row a b y =
      Paints-loop info c a b (λ k px py. px == k && py == y) (λ px py. between a b px && py == y)
        (λ px. put_pixel info px y c) (λ k lo hi. Paints-put_pixel info c k y)
        (λ k px py. between a k px && py == y) (λ px py. ground arith)
        (λ k px py lo hi. ground arith) (λ px py hx hy. ground arith)

  Paints-rows :
      (a b y z : ℕ)
      → Paints info c
          (λ px py. between a b px && between y z py)
          (for_in y z (λ py. for_in a b (λ px. put_pixel info px py c)))
  Paints-rows a b y z =
      Paints-loop info c y z (λ k px py. between a b px && py == k)
        (λ px py. between a b px && between y z py)
        (λ py. for_in a b (λ px. put_pixel info px py c)) (λ k lo hi. Paints-row a b k)
        (λ k px py. between a b px && between y k py) (λ px py. ground arith)
        (λ k px py lo hi. ground arith) (λ px py hx hy. ground arith)

  -- `fill_rect` on a canvas does not panic, gives exactly the pixels of the rectangle that are on the screen
  -- the colour, and leaves every other pixel.
  pub fill_rect-Painted :
      (x y width height : ℕ) (buf : Buf)
      → IsCanvas info buf
      → Returns
          (Painted info (in_rect x y width height) c buf)
          (fill_rect info x y width height c buf)
  unfolding fill_rect
  fill_rect-Painted x y width height buf v =
      let x_end : ℕ = min (saturating_add x width) info.width in
      let y_end : ℕ = min (saturating_add y height) info.height in
      Returns-imp _ _ _
        (λ d pd.
          Painted-same info c (λ px py. between x x_end px && between y y_end py)
            (in_rect x y width height) buf d (λ px py hx hy. ground (arith, v.in_words)) pd)
        (Paints-rows x x_end y y_end buf v)

  Paints-horizontal :
      (a b y z : ℕ)
      → Paints info c
          (λ px py. between a b px && (py == y || py == z))
          (for_in a b (λ k buf. put_pixel info k y c buf >>= λ buf'. put_pixel info k z c buf'))
  Paints-horizontal a b y z =
      Paints-loop info c a b (λ k px py. (px == k && py == y) || (px == k && py == z))
        (λ px py. between a b px && (py == y || py == z))
        (λ k buf. put_pixel info k y c buf >>= λ buf'. put_pixel info k z c buf')
        (λ k lo hi.
          Paints->>= info c (λ px py. px == k && py == y) (λ px py. px == k && py == z)
            (put_pixel info k y c) (put_pixel info k z c) (Paints-put_pixel info c k y)
            (Paints-put_pixel info c k z))
        (λ k px py. between a k px && (py == y || py == z)) (λ px py. ground arith)
        (λ k px py lo hi. ground arith) (λ px py hx hy. ground arith)

  Paints-vertical :
      (a b x z : ℕ)
      → Paints info c
          (λ px py. between a b py && (px == x || px == z))
          (for_in a b (λ k buf. put_pixel info x k c buf >>= λ buf'. put_pixel info z k c buf'))
  Paints-vertical a b x z =
      Paints-loop info c a b (λ k px py. (px == x && py == k) || (px == z && py == k))
        (λ px py. between a b py && (px == x || px == z))
        (λ k buf. put_pixel info x k c buf >>= λ buf'. put_pixel info z k c buf')
        (λ k lo hi.
          Paints->>= info c (λ px py. px == x && py == k) (λ px py. px == z && py == k)
            (put_pixel info x k c) (put_pixel info z k c) (Paints-put_pixel info c x k)
            (Paints-put_pixel info c z k))
        (λ k px py. between a k py && (px == x || px == z)) (λ px py. ground arith)
        (λ k px py lo hi. ground arith) (λ px py hx hy. ground arith)

  -- The border of a rectangle, cut off at the screen: its last column and row on the screen count
  -- as border.
  abbrev pub on_border : Rect → ℕ → ℕ → Bool
  on_border rect px py =
      let x_last = last_of rect.x rect.width info.width in
      let y_last = last_of rect.y rect.height info.height in
      in_rect rect.x rect.y rect.width rect.height px py
      && ((px == rect.x || px == x_last) || (py == rect.y || py == y_last))

  -- `draw_rect_outline` on a canvas does not panic, gives exactly the border pixels of a rectangle that
  -- begins on the screen the colour, and leaves every other pixel.
  pub draw_rect_outline-Painted :
      (rect : Rect)
      → rect.x < info.width
      → rect.y < info.height
      → (buf : Buf) → IsCanvas info buf
      → Returns (Painted info (on_border rect) c buf) (draw_rect_outline info rect c buf)
  unfolding draw_rect_outline
  draw_rect_outline-Painted rect hx hy buf v =
      elim (Bool-cases (rect.width == 0 || rect.height == 0)) [
        | inl flat ↦ rw flat (
            Painted-same info c (λ px py. false) (on_border rect) buf buf
              (λ px py h1 h2. ground arith) (Painted-none info c buf v))
        | inr solid ↦
            rw
              (
                solid,
                min-saturating_add rect.x rect.width info.width v.in_words.0,
                min-saturating_add rect.y rect.height info.height v.in_words.1,
              )
              (Returns-imp _ _ _
                (λ d pd.
                  Painted-same info c
                    (λ px py.
                      (between rect.x (last_of rect.x rect.width info.width + 1) px
                        && (py == rect.y || py == last_of rect.y rect.height info.height))
                      || (between rect.y (last_of rect.y rect.height info.height + 1) py
                          && (px == rect.x || px == last_of rect.x rect.width info.width)))
                    (on_border rect) buf d (same solid) pd)
                (Paints->>= info c _ _ _ _
                  (Paints-horizontal rect.x (last_of rect.x rect.width info.width + 1) rect.y
                    (last_of rect.y rect.height info.height))
                  (Paints-vertical rect.y (last_of rect.y rect.height info.height + 1) rect.x
                    (last_of rect.x rect.width info.width))
                  buf v))
      ]
    where
      same :
          (rect.width == 0 || rect.height == 0) ≡ false
          → (px py : ℕ) → px < info.width
          → py < info.height
          → ((between rect.x (last_of rect.x rect.width info.width + 1) px
                && (py == rect.y || py == last_of rect.y rect.height info.height))
              || (between rect.y (last_of rect.y rect.height info.height + 1) py
                  && (px == rect.x || px == last_of rect.x rect.width info.width)))
            ≡ on_border rect px py
      same solid px py h1 h2 =
          let sizes : (0 < rect.width) × (0 < rect.height) = ground arith in
          rw
            (
              between-last rect.x rect.width info.width px sizes.0 hx h1,
              between-last rect.y rect.height info.height py sizes.1 hy h2,
            )
            (border_bits _ _ _ _ (ends-between rect.x rect.width info.width px sizes.0 hx)
              (ends-between rect.y rect.height info.height py sizes.1 hy))
