-- ===== src/Fb/Gradient.antt =====
-- The background of kernel/src/framebuffer.rs: colours between two, rows of them, and the dots.
use r_os.Fb.Canvas.{IsCanvas}
use r_os.Common.{
  ℕ, ◌+◌, ◌-◌, ◌*◌, ◌/◌, ◌%◌, ◌^◌, ◌≤◌, ◌<◌, min, max, ◌≡◌, ◌≢◌, inl, inr, false, ◌||◌, Option,
  none, some, arith, leb, ◌==◌, if◌then◌else◌, Bool-cases, mul_mono,
}
use r_os.Fb.Rects.{in_rect, fill_rect-Painted}
use r_os.Fb.Within.{
  Kept-refl, DrawsIn, DrawsIn-Paints, DrawsIn-loop, DrawsIn->>=, DrawsIn-put_pixel, Kept,
}
use r_os.Common.Loops.{Returns, ◌>>=◌}
use r_os.Common.Int.{ℤ, pos, pos_part, ◌+ℤ◌, ◌-ℤ◌, ◌*ℤ◌, div_trunc, neg_part}
use r_os.Fb.{
  for_in, Buf, Color, FrameBufferInfo, Rect, fill_rect, saturating_add, bit_and, put_pixel,
}

-- `value.clamp(0, 255) as u8`
abbrev pub clamp_u8 : ℤ → ℕ
clamp_u8 v = min (pos_part v) 255

-- `as i32` keeps the values that are used, and no sum or product of them overflows.
unfoldable pub lerp_u8 : ℕ → ℕ → ℕ → ℕ
lerp_u8 a b t = clamp_u8 (pos a +ℤ div_trunc ((pos b -ℤ pos a) *ℤ pos t) 255)

-- One row of the gradient. A product that overflows a `u32` panics, and a division by zero.
unfoldable pub gradient_row : FrameBufferInfo → Rect → Color → Color → ℕ → ℕ → Buf → Option Buf
gradient_row info rect top bottom denom i buf =
    let t = i % 2 ^ 32 * 255 / denom in
    if denom == 0 || leb (2 ^ 32) (i % 2 ^ 32 * 255)
    then none
    else fill_rect info rect.x (rect.y + i) rect.width 1
        (record {
          r = lerp_u8 top.r bottom.r t;
          g = lerp_u8 top.g bottom.g t;
          b = lerp_u8 top.b bottom.b t;
        })
        buf

unfoldable pub fill_vertical_gradient : FrameBufferInfo → Rect → Color → Color → Buf → Option Buf
fill_vertical_gradient info rect top bottom buf =
    let y_end = min (saturating_add rect.y rect.height) info.height in
    let denom = max (rect.height - 1) 1 % 2 ^ 32 in
    if rect.height == 0
    then some buf
    else for_in 0 (y_end - rect.y) (λ i b. gradient_row info rect top bottom denom i b) buf

-- `for y in (0..n).step_by(4)`: the rounds at y = 4 k.
abbrev for_steps : ℕ → (ℕ → Buf → Option Buf) → Buf → Option Buf
for_steps n body buf = for_in 0 ((n + 3) / 4) (λ k b. body (4 * k) b) buf

unfoldable pub draw_background : FrameBufferInfo → Buf → Option Buf
draw_background info buf =
    fill_vertical_gradient info (record { x = 0; y = 0; width = info.width; height = info.height })
      (record { r = 0x1e; g = 0x22; b = 0x2b }) (record { r = 0x12; g = 0x14; b = 0x1a }) buf
    >>= λ buf'.
        for_steps info.height
          (λ y. for_steps info.width (λ x b.
            if bit_and (x + y) 0xf == 0
            then put_pixel info x y (record { r = 0x2a; g = 0x2e; b = 0x38 }) b
            else some b))
          buf'

-- The difference times `t`, in its two parts.
product_parts :
    (a b t : ℕ)
    → (pos_part ((pos b -ℤ pos a) *ℤ pos t) ≡ (b - a) * t)
      × (neg_part ((pos b -ℤ pos a) *ℤ pos t) ≡ (a - b) * t)
unfolding ◌-ℤ◌ ◌*ℤ◌
product_parts a b t = elim (Bool-cases (leb a b)) [
  | inl up ↦ ground arith
  | inr down ↦ ground arith
]

-- Adding a part of 255 of an integer to a byte.
shifted_parts :
    (a m n : ℕ) (x : ℤ)
    → pos_part x ≡ m
    → neg_part x ≡ n
    → clamp_u8 (pos a +ℤ div_trunc x 255) ≡ min (a + m / 255 - n / 255) 255
unfolding ◌+ℤ◌ div_trunc
shifted_parts a m n x e f = ground arith

-- The part of a difference for `t` of 255 is at most the difference.
part_le : (d t : ℕ) → t ≤ 255 → d * t / 255 ≤ d
part_le d t h = let top : t * d ≤ 255 * d = mul_mono t 255 d h in omega arith

-- For bytes and `t` up to 255, `lerp_u8` lies between the two bytes; at 0 it is the first and at 255
-- the second.
lerp_u8-between :
    (a b t : ℕ)
    → a ≤ 255
    → b ≤ 255
    → t ≤ 255
    → (min a b ≤ lerp_u8 a b t)
      × (lerp_u8 a b t ≤ max a b)
      × (lerp_u8 a b 0 ≡ a)
      × (lerp_u8 a b 255 ≡ b)
unfolding lerp_u8
lerp_u8-between a b t ha hb ht =
    let at : (t : ℕ) → lerp_u8 a b t ≡ min (a + (b - a) * t / 255 - (a - b) * t / 255) 255 = λ t.
      shifted_parts a ((b - a) * t) ((a - b) * t) ((pos b -ℤ pos a) *ℤ pos t)
        (product_parts a b t).0 (product_parts a b t).1 in
    (
      omega (arith, at t, part_le (b - a) t ht, part_le (a - b) t ht),
      omega (arith, at t, part_le (b - a) t ht, part_le (a - b) t ht),
      omega (arith, at 0),
      omega (arith, at 255),
    )

module _ (info : FrameBufferInfo) where
  gradient_row-DrawsIn :
      (rect : Rect) (top bottom : Color) (denom i : ℕ)
      → denom ≢ 0
      → i ≤ 16843009
      → i < rect.height
      → DrawsIn info
          (in_rect rect.x rect.y rect.width rect.height)
          (gradient_row info rect top bottom denom i)
  unfolding gradient_row
  gradient_row-DrawsIn rect top bottom denom i hd ho hi buf v =
      let no_panic : (denom == 0 || leb (2 ^ 32) (i % 2 ^ 32 * 255)) ≡ false = ground arith in
      rw no_panic (
        DrawsIn-Paints info (in_rect rect.x rect.y rect.width rect.height) _
          (in_rect rect.x (rect.y + i) rect.width 1) _ (λ x y hx hy out. ground arith)
          (fill_rect-Painted info _ rect.x (rect.y + i) rect.width 1) buf v)

  -- On a canvas the gradient of a rectangle of at most 16843010 rows does not panic and stays
  -- inside the rectangle.
  fill_vertical_gradient-Kept :
      (rect : Rect) (top bottom : Color)
      → rect.height ≤ 16843010
      → (buf : Buf) → IsCanvas info buf
      → Returns
          (Kept info (in_rect rect.x rect.y rect.width rect.height) buf)
          (fill_vertical_gradient info rect top bottom buf)
  unfolding fill_vertical_gradient
  fill_vertical_gradient-Kept rect top bottom h buf v = elim (Bool-cases (rect.height == 0)) [
    | inl flat ↦ rw flat (Kept-refl info _ buf v)
    | inr solid ↦ rw solid (
        DrawsIn-loop info (in_rect rect.x rect.y rect.width rect.height) 0
          (min (saturating_add rect.y rect.height) info.height - rect.y) _
          (λ k lo hi.
            gradient_row-DrawsIn rect top bottom (max (rect.height - 1) 1 % 2 ^ 32) k (omega arith)
              (omega arith) (omega arith))
          buf v)
  ]

  dots-DrawsIn :
      (c : Color)
      → DrawsIn info (in_rect 0 0 info.width info.height) (
          for_steps info.height (λ y.
            for_steps info.width
              (λ x b. if bit_and (x + y) 0xf == 0 then put_pixel info x y c b else some b)))
  dots-DrawsIn c =
      DrawsIn-loop info (in_rect 0 0 info.width info.height) 0 ((info.height + 3) / 4) _ (λ j lo hi.
        DrawsIn-loop info (in_rect 0 0 info.width info.height) 0 ((info.width + 3) / 4) _
          (λ i lo' hi' buf v. elim (Bool-cases (bit_and (4 * i + 4 * j) 0xf == 0)) [
            | inl dot ↦ rw dot (
                DrawsIn-put_pixel info (in_rect 0 0 info.width info.height) (4 * i) (4 * j) c
                  (ground arith) buf v)
            | inr gap ↦ rw gap (Kept-refl info (in_rect 0 0 info.width info.height) buf v)
          ]))

  -- On a canvas of at most 16843010 rows the background is drawn without a panic, and the buffer
  -- stays a canvas of the same length.
  pub draw_background-Kept :
      info.height ≤ 16843010
      → (buf : Buf) → IsCanvas info buf
      → Returns (Kept info (in_rect 0 0 info.width info.height) buf) (draw_background info buf)
  unfolding draw_background
  draw_background-Kept h =
      DrawsIn->>= info (in_rect 0 0 info.width info.height) _ _
        (fill_vertical_gradient-Kept
          (record { x = 0; y = 0; width = info.width; height = info.height }) _ _ h)
        (dots-DrawsIn (record { r = 0x2a; g = 0x2e; b = 0x38 }))
