-- ===== src/Wm/Start.antt =====
-- The beginning of the window manager: `init` of kernel/src/framebuffer.rs and of kernel/src/wm.rs.
use r_os.Common.{
  ℕ, ◌-◌, ◌*◌, ◌/◌, ◌^◌, ◌≤◌, ◌<◌, ◌≡◌, refl, sym, ◌∙◌, Bool, true, ◌&&◌, some, arith, mul_mono,
  lt→ltb, length, length-replicate,
}
use r_os.Common.Int.{pos, ◌+ℤ◌}
use r_os.Common.Loops.{Returns, Returns->>=, ◌>>=◌}
use r_os.Fb.{Buf, FrameBufferInfo, black}
use r_os.Fb.Canvas.{IsCanvas}
use r_os.Fb.Gradient.{draw_background, draw_background-Kept}
use r_os.Wm.Api
use r_os.Wm.Api.{Globals, FrameBufferState}
use r_os.Wm.Cursor
use r_os.Wm.Cursor.{as_i32, cursor_w, cursor_h}
use r_os.Wm.Manager
use r_os.Wm.Manager.{WindowManager, is_allocated, zeros, screen_bytes}
use r_os.Wm.Blit.{IsModest}
use r_os.Wm.Pointer.{IsAxis}
use r_os.Wm.Session.{IsUp, IsReady}

-- A screen that the cursor can be moved on and the gradient drawn on, in a buffer of exactly its
-- pixels.
pub record IsScreen (info : FrameBufferInfo) (buf : Buf) : Type 0 where
  pub canvas : IsCanvas info buf
  pub exact : length buf ≡ screen_bytes info
  pub some_pixel : (0 < info.width) × (0 < info.height)
  pub in_i32 : (info.width ≤ 2 ^ 31 - 2 ^ 15) × (info.height ≤ 16843010)
  pub modest : IsModest info

zeros-IsCanvas :
    (info : FrameBufferInfo) (buf : Buf)
    → IsScreen info buf
    → IsCanvas info (zeros (screen_bytes info))
zeros-IsCanvas info buf s = record {
  colors = s.canvas.colors;
  in_stride = s.canvas.in_stride;
  in_words = s.canvas.in_words;
  holds = omega (arith, s.canvas.holds, s.exact, length-replicate {A = ℕ} (screen_bytes info) 0);
}

-- The middle of a size is on it.
middle-IsAxis : (n : ℕ) → 0 < n → n ≤ 2 ^ 31 - 2 ^ 15 → IsAxis (as_i32 n) (as_i32 (n / 2))
unfolding ◌+ℤ◌
middle-IsAxis n low high =
    let whole : as_i32 n ≡ pos n = ground arith in
    let half : as_i32 (n / 2) ≡ pos (n / 2) = ground arith in
    rw (whole, half) (record { low = omega arith; high = ground arith; in_i32 = omega arith })

allocated :
    (info : FrameBufferInfo) (buf : Buf)
    → IsScreen info buf
    → is_allocated info.width info.height info.bytes_per_pixel ≡ true
allocated info buf s =
    let area : info.width * info.height ≤ info.stride * info.height =
      mul_mono info.width info.stride info.height s.canvas.in_stride in
    let turned : info.stride * info.height ≡ info.height * info.stride = grind arith in
    let bytes : info.bytes_per_pixel * (info.width * info.height)
        ≤ 16 * (info.width * info.height) =
      mul_mono info.bytes_per_pixel 16 (info.width * info.height) s.modest.bytes in
    let e : info.width * info.height * info.bytes_per_pixel
        ≡ info.bytes_per_pixel * (info.width * info.height) =
      grind arith in
    both _ _ (lt→ltb (info.width * info.height) (2 ^ 64) (omega (arith, s.modest.pixels))) (
      lt→ltb (info.width * info.height * info.bytes_per_pixel) (2 ^ 63)
        (omega (arith, s.modest.pixels)))
  where
    both : (a b : Bool) → a ≡ true → b ≡ true → (a && b) ≡ true
    both a b ha hb = ground arith

new-IsUp :
    (info : FrameBufferInfo) (buf b : Buf)
    → IsScreen info buf
    → IsCanvas info b
    → length b ≡ length buf
    → Returns (λ wm. IsUp wm (record { buf = b; info = info })) (Manager.new info)
unfolding Manager.new Cursor.new
new-IsUp info buf b s v e = rw (allocated info buf s) (
    Returns->>= _ _ (draw_background info (zeros (screen_bytes info))) _
      (draw_background-Kept info (omega (arith, s.in_i32)) (zeros (screen_bytes info))
        (zeros-IsCanvas info buf s))
      (λ bg k. record {
        manager = record { windows = tt; distinct = tt; below = tt; focus = refl };
        display = record {
          screen = v;
          ground = k.canvas;
          lengths = (
            k.same_length ∙ length-replicate (screen_bytes info) 0 ∙ sym s.exact ∙ sym e,
            length-replicate (screen_bytes info) 0 ∙ sym s.exact ∙ sym e,
          );
          slots = length-replicate (cursor_w * cursor_h) black;
          across = middle-IsAxis info.width s.some_pixel.0 s.in_i32.0;
          down = middle-IsAxis info.height s.some_pixel.1 (omega (arith, s.in_i32));
          modest = s.modest;
        };
        same = refl;
      }))

-- On a true-colour screen that is not empty, of at most 2^31 - 2^15 columns and 16843010 rows, whose
-- rows together have fewer than 2^48 pixels of at most 16 bytes, in a buffer of exactly its pixels, `framebuffer::init` and then `wm::init` do not panic and leave two valid states.
pub init-IsReady :
    (info : FrameBufferInfo) (buf : Buf) (g : Globals)
    → IsScreen info buf
    → Returns IsReady (Api.init_fb buf info g >>= Api.init)
unfolding Api.init_fb Api.init
init-IsReady info buf g s =
    Returns->>= _ _
      (draw_background info buf >>= λ b.
        some (record g { fb = some (record { buf = b; info = info }) }))
      _
      (Returns->>= _
        (λ g'.
          (b : Buf) × (g' ≡ record g { fb = some (record { buf = b; info = info }) })
          × IsCanvas info b
          × (length b ≡ length buf))
        (draw_background info buf) _
        (draw_background-Kept info (omega (arith, s.in_i32)) buf s.canvas)
        (λ b k. (b, refl, k.canvas, k.same_length)))
      (λ g' (b, e, v, l). rw e (
        Returns->>= _ _ (Manager.new info) _ (new-IsUp info buf b s v l)
          (λ wm up. (wm, record { buf = b; info = info }, refl, up))))
