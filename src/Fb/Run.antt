-- ===== src/Fb/Run.antt =====
-- A run of pixels of one row, copied from a row of another buffer of the same pixel format.
use r_os.Common.{
  ℕ, zero, suc, ◌+◌, ◌-◌, ◌*◌, ◌≤◌, ◌<◌, ◌≡◌, refl, ap, ◌∙◌, ◌≢◌, ◌⊎◌, inl, inr, ◌&&◌, arith,
  dec_lt, ◌==◌, if◌then◌else◌, Bool-cases, length, get_or, set, length-set, get_or-set_self,
  get_or-set_ne, mul_mono,
}
use r_os.Fb.{copy_bytes, Buf, PixelFormat, rgb, bgr, FrameBufferInfo, offset_of}
use r_os.Fb.Canvas.{IsCanvas, pixel_at, stored}
use r_os.Fb.Paint.{between}

copy_bytes_outside :
    (n src dst : ℕ) (orig buf : Buf) (a : ℕ)
    → (a < dst) ⊎ (dst + n ≤ a)
    → get_or (copy_bytes n src dst orig buf) a 0 ≡ get_or buf a 0
copy_bytes_outside zero src dst orig buf a out = refl
copy_bytes_outside (suc n) src dst orig buf a out =
    copy_bytes_outside n (src + 1) (dst + 1) orig (set buf dst (get_or orig src 0)) a (omega arith)
    ∙ get_or-set_ne buf dst a (get_or orig src 0) 0 (omega arith)

copy_bytes_inside :
    (n src dst : ℕ) (orig buf : Buf) (k a b : ℕ)
    → dst + n ≤ length buf
    → k < n
    → a ≡ dst + k
    → b ≡ src + k
    → get_or (copy_bytes n src dst orig buf) a 0 ≡ get_or orig b 0
copy_bytes_inside zero src dst orig buf k a b h hk ea eb = absurd (omega arith)
copy_bytes_inside (suc n) src dst orig buf zero a b h hk ea eb =
    let at : a ≡ dst = omega arith in
    let from : b ≡ src = omega arith in
    copy_bytes_outside n (src + 1) (dst + 1) orig (set buf dst (get_or orig src 0)) a (omega arith)
    ∙ rw (at, from) (get_or-set_self buf dst (get_or orig src 0) 0 (omega arith))
copy_bytes_inside (suc n) src dst orig buf (suc k) a b h hk ea eb =
    copy_bytes_inside n (src + 1) (dst + 1) orig (set buf dst (get_or orig src 0)) k a b
      (omega (arith, length-set buf dst (get_or orig src 0))) (omega arith) (omega arith)
      (omega arith)

pub length-copy_bytes :
    (n src dst : ℕ) (orig buf : Buf) → length (copy_bytes n src dst orig buf) ≡ length buf
length-copy_bytes zero src dst orig buf = refl
length-copy_bytes (suc n) src dst orig buf =
    length-copy_bytes n (src + 1) (dst + 1) orig (set buf dst (get_or orig src 0))
    ∙ length-set buf dst (get_or orig src 0)

-- Two buffers that store the same colour, at two places.
stored_eq :
    (f : PixelFormat) (a b : Buf) (o p : ℕ)
    → get_or a o 0 ≡ get_or b p 0
    → get_or a (o + 1) 0 ≡ get_or b (p + 1) 0
    → get_or a (o + 2) 0 ≡ get_or b (p + 2) 0
    → stored f a o ≡ stored f b p
stored_eq rgb a b o p e0 e1 e2 = λ i. record { r = e0 i; g = e1 i; b = e2 i }
stored_eq bgr a b o p e0 e1 e2 = λ i. record { r = e2 i; g = e1 i; b = e0 i }
stored_eq _ a b o p e0 e1 e2 = λ i. record { r = e0 i; g = e1 i; b = e2 i }

-- A pixel outside a run of `w` pixels lies before it or behind it in the order of rows.
run_apart :
    (s px py x w y : ℕ)
    → px < s
    → x + w ≤ s
    → (py ≢ y) ⊎ ((px < x) ⊎ (x + w ≤ px))
    → (py * s + px + 1 ≤ y * s + x) ⊎ (y * s + x + w ≤ py * s + px)
run_apart s px py x w y hx hw out = elim (dec_lt py y) [
  | yes above ↦
      let rows : (py + 1) * s ≤ y * s = mul_mono (py + 1) y s (omega arith) in inl (omega arith)
  | no lo ↦ elim (dec_lt y py) [
    | yes below ↦
        let rows : (y + 1) * s ≤ py * s = mul_mono (y + 1) py s (omega arith) in inr (omega arith)
    | no hi ↦
        let same : py ≡ y = omega arith in
        let rows : py * s ≡ y * s = ap (λ (t : ℕ). t * s) same in omega arith
  ]
]

-- The run of `w` pixels at `sx`, `sy` of `src`, copied to `dx`, `dy`.
module _ (sinfo info : FrameBufferInfo) (same_format : sinfo.pixel_format ≡ info.pixel_format)
    (same_bytes : sinfo.bytes_per_pixel ≡ info.bytes_per_pixel) (src buf : Buf) (sx sy dx dy w : ℕ)
    (v : IsCanvas info buf) (hd : dy < info.height) (fits : dx + w ≤ info.width) where
  abbrev bpp : ℕ
  bpp = info.bytes_per_pixel

  abbrev pub run : Buf
  run = copy_bytes (w * bpp) (offset_of sinfo sx sy) (offset_of info dx dy) src buf

  pub run_fits : offset_of info dx dy + w * bpp ≤ length buf
  run_fits =
      let row : dy * info.stride + dx + w ≤ info.stride * info.height =
        grind (arith, v.in_stride) in
      let bytes : (dy * info.stride + dx + w) * bpp ≤ info.stride * info.height * bpp =
        mul_mono _ _ bpp row in
      omega (arith, v.holds)

  inside_bytes :
      (d k a b : ℕ)
      → d < w
      → k < bpp
      → a ≡ offset_of info (dx + d) dy + k
      → b ≡ offset_of sinfo (sx + d) sy + k
      → get_or run a 0 ≡ get_or src b 0
  inside_bytes d k a b hd' hk ea eb =
      let enough : (d + 1) * bpp ≤ w * bpp = mul_mono (d + 1) w bpp (omega arith) in
      let wide : (sy * sinfo.stride + (sx + d)) * sinfo.bytes_per_pixel
          ≡ (sy * sinfo.stride + (sx + d)) * bpp =
        ap (λ (t : ℕ). (sy * sinfo.stride + (sx + d)) * t) same_bytes in
      let left : (sy * sinfo.stride + sx) * sinfo.bytes_per_pixel ≡ (sy * sinfo.stride + sx) * bpp =
        ap (λ (t : ℕ). (sy * sinfo.stride + sx) * t) same_bytes in
      copy_bytes_inside (w * bpp) (offset_of sinfo sx sy) (offset_of info dx dy) src buf
        (d * bpp + k) a b run_fits (omega arith) (omega arith) (omega arith)

  outside_bytes :
      (px py a : ℕ)
      → px < info.width
      → (py ≢ dy) ⊎ ((px < dx) ⊎ (dx + w ≤ px))
      → offset_of info px py ≤ a
      → a < offset_of info px py + bpp
      → get_or run a 0 ≡ get_or buf a 0
  outside_bytes px py a hx out lo hi =
      copy_bytes_outside (w * bpp) (offset_of sinfo sx sy) (offset_of info dx dy) src buf a
        (elim (run_apart info.stride px py dx w dy (omega (arith, v.in_stride))
          (omega (arith, v.in_stride)) out) [
            | inl h ↦
                let bytes : (py * info.stride + px + 1) * bpp ≤ (dy * info.stride + dx) * bpp =
                  mul_mono _ _ bpp h in
                inl (omega arith)
            | inr h ↦
                let bytes : (dy * info.stride + dx + w) * bpp ≤ (py * info.stride + px) * bpp =
                  mul_mono _ _ bpp h in
                inr (omega arith)
          ])

  run_here :
      (d px : ℕ) → d < w → px ≡ dx + d → pixel_at info run px dy ≡ pixel_at sinfo src (sx + d) sy
  run_here d px h e =
      let three : 3 ≤ bpp = v.colors.bytes in
      rw (e, same_format)
        (stored_eq info.pixel_format run src (offset_of info (dx + d) dy)
          (offset_of sinfo (sx + d) sy)
          (inside_bytes d 0 _ _ h (omega arith) (omega arith) (omega arith))
          (inside_bytes d 1 _ _ h (omega arith) refl refl)
          (inside_bytes d 2 _ _ h (omega arith) refl refl))

  -- The run shows what the source shows; no other pixel has changed.
  pub run_pixels :
      (px py : ℕ)
      → px < info.width
      → pixel_at info run px py ≡ (
          if py == dy && between dx (dx + w) px
          then pixel_at sinfo src (sx + (px - dx)) sy
          else pixel_at info buf px py)
  run_pixels px py hx = elim (Bool-cases (py == dy && between dx (dx + w) px)) [
    | inl here ↦
        let facts : (py ≡ dy) × (dx ≤ px) × (px < dx + w) = ground arith in
        rw (here, facts.0) (run_here (px - dx) px (omega arith) (omega arith))
    | inr other ↦ rw other (
        stored_eq info.pixel_format run buf (offset_of info px py) (offset_of info px py)
          (outside_bytes px py (offset_of info px py) hx (ground arith) (omega arith)
            (omega (arith, v.colors.bytes)))
          (outside_bytes px py (offset_of info px py + 1) hx (ground arith) (omega arith)
            (omega (arith, v.colors.bytes)))
          (outside_bytes px py (offset_of info px py + 2) hx (ground arith) (omega arith)
            (omega (arith, v.colors.bytes))))
  ]

  pub length-run : length run ≡ length buf
  length-run = length-copy_bytes (w * bpp) (offset_of sinfo sx sy) (offset_of info dx dy) src buf

  pub run-IsCanvas : IsCanvas info run
  run-IsCanvas = record {
    colors = v.colors;
    in_stride = v.in_stride;
    in_words = v.in_words;
    holds = omega (arith, v.holds, length-run);
  }
