-- ===== src/Fb/Paint.antt =====
-- How painted regions compose, and loops that paint.
use r_os.Common.{
  ℕ, ◌+◌, ◌-◌, ◌≤◌, ◌<◌, ◌≡◌, refl, sym, ◌∙◌, Bool, false, ◌&&◌, ◌||◌, Option, arith, ltb, leb,
  ◌==◌,
}
use r_os.Common.Loops.{for_range_inv, Returns, Returns->>=, Returns-imp, ◌>>=◌}
use r_os.Fb.{Buf, Color, FrameBufferInfo, for_in, put_pixel}
use r_os.Fb.Canvas.{IsCanvas, Painted, put_pixel-Painted}

-- A region between two bounds.
abbrev pub between : ℕ → ℕ → ℕ → Bool
between a b k = leb a k && ltb k b

module _ (info : FrameBufferInfo) (c : Color) where
  pub Painted-none : (buf : Buf) → IsCanvas info buf → Painted info (λ x y. false) c buf buf
  Painted-none buf v = record { canvas = v; same_length = refl; pixels = λ x y hx hy. refl }

  -- Painting twice in one colour paints the union.
  pub Painted-union :
      (r1 r2 : ℕ → ℕ → Bool) (a b d : Buf)
      → Painted info r1 c a b
      → Painted info r2 c b d
      → Painted info (λ x y. r1 x y || r2 x y) c a d
  Painted-union r1 r2 a b d p q = record {
    canvas = q.canvas;
    same_length = q.same_length ∙ p.same_length;
    pixels = λ x y hx hy. ground (arith, p.pixels x y hx hy, q.pixels x y hx hy);
  }

  -- Two tests of the same region, on the screen.
  pub Painted-same :
      (r1 r2 : ℕ → ℕ → Bool) (a b : Buf)
      → ((x y : ℕ) → x < info.width → y < info.height → r1 x y ≡ r2 x y)
      → Painted info r1 c a b
      → Painted info r2 c a b
  Painted-same r1 r2 a b same p = record {
    canvas = p.canvas;
    same_length = p.same_length;
    pixels = λ x y hx hy. rw (← same x y hx hy) (p.pixels x y hx hy);
  }

  -- What a step of a loop may be: on any canvas it paints a region.
  abbrev pub Paints : (ℕ → ℕ → Bool) → (Buf → Option Buf) → Type 0
  Paints region step =
      (buf : Buf) → IsCanvas info buf → Returns (Painted info region c buf) (step buf)

  pub Paints-put_pixel : (x y : ℕ) → Paints (λ px py. px == x && py == y) (put_pixel info x y c)
  Paints-put_pixel x y buf v = put_pixel-Painted info buf v x y c

  -- One step after another.
  pub Paints->>= :
      (r1 r2 : ℕ → ℕ → Bool) (s1 s2 : Buf → Option Buf)
      → Paints r1 s1
      → Paints r2 s2
      → Paints (λ x y. r1 x y || r2 x y) (λ buf. s1 buf >>= s2)
  Paints->>= r1 r2 s1 s2 p q buf v =
      Returns->>= (Painted info r1 c buf) _ (s1 buf) s2 (p buf v)
        (λ b pb. Returns-imp _ _ (s2 b) (λ d pd. Painted-union r1 r2 buf b d pb pd) (q b pb.canvas))

  -- A loop whose rounds paint one row, or one column, each.
  pub Paints-loop :
      (a b : ℕ) (row : ℕ → ℕ → ℕ → Bool) (region : ℕ → ℕ → Bool) (body : ℕ → Buf → Option Buf)
      → ((k : ℕ) → a ≤ k → k < b → Paints (row k) (body k))
      → (upto : ℕ → ℕ → ℕ → Bool) → ((x y : ℕ) → upto a x y ≡ false)
      → ((k x y : ℕ) → a ≤ k → k < b → upto (k + 1) x y ≡ (upto k x y || row k x y))
      → ((x y : ℕ) → x < info.width → y < info.height → upto (a + (b - a)) x y ≡ region x y)
      → Paints region (for_in a b body)
  Paints-loop a b row region body paints upto nothing more all buf v =
      Returns-imp _ _ (for_in a b body buf)
        (λ d pd. Painted-same (upto (a + (b - a))) region buf d all pd)
        (for_range_inv (λ k. Painted info (upto k) c buf) body (b - a) a (a + (b - a)) buf refl
          (λ k s lo hi p.
            Returns-imp _ _ (body k s)
              (λ d pd.
                Painted-same (λ x y. upto k x y || row k x y) (upto (k + 1)) buf d
                  (λ x y hx hy. sym (more k x y lo (omega arith)))
                  (Painted-union (upto k) (row k) buf s d p pd))
              (paints k lo (omega arith) s p.canvas))
          (Painted-same (λ x y. false) (upto a) buf buf (λ x y hx hy. sym (nothing x y))
            (Painted-none buf v)))
