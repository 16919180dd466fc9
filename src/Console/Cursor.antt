-- ===== src/Console/Cursor.antt =====
-- Writing to a console: the grid, the cursor, and the pixels outside the content.
use r_os.Common.{
  ℕ, ◌+◌, ◌-◌, ◌*◌, ◌/◌, ◌≤◌, ◌<◌, max, ◌≡◌, refl, ap, ◌∙◌, subst, ◌≢◌, inl, inr, Bool, false, ◌||◌,
  some, List, [], ◌∷◌, arith, ltb, leb, ◌==◌, if◌then◌else◌, ltb→lt, Bool-cases,
}
use r_os.Common.Loops.{◌>>=◌, Returns, Returns->>=, Returns-imp}
use r_os.Fb.{black}
use r_os.Fb.{Buf, Rect, FrameBufferInfo}
use r_os.Fb.Canvas.{IsCanvas}
use r_os.Fb.Rects.{in_rect}
use r_os.Fb.Text.{font_width, font_height}
use r_os.Fb.Within.{
  Kept, Kept-refl, DrawsIn, DrawsIn-loop, DrawsIn-put_pixel, Kept-trans, Kept-mono,
  draw_char_at-Kept,
}
use r_os.Console.{
  Console, Result, scroll_up, next_row, clear_char, Font, print_char, write_char, write_str,
  draw_char, draw_char_at, white,
}
use r_os.Console.Copy.{OnScreen}
use r_os.Console.Scroll.{Scrolled, scroll_up-Scrolled}

-- The grid is what fits in the content, and the cursor is in a row of it, at most behind its last
-- column.
pub record IsValid (info : FrameBufferInfo) (con : Console) : Type 0 where
  pub on : OnScreen info con.content
  pub grid :
      (con.cols ≡ con.content.width / font_width) × (con.rows ≡ con.content.height / font_height)
  pub row_in : con.row < max con.rows 1
  pub col_in : con.col ≤ con.cols

abbrev pub area : Rect → ℕ → ℕ → Bool
area content = in_rect content.x content.y content.width content.height

-- A rectangle inside another.
within :
    (px py x y w h x' y' w' h' : ℕ)
    → x ≤ x'
    → x' + w' ≤ x + w
    → y ≤ y'
    → y' + h' ≤ y + h
    → in_rect x y w h px py ≡ false
    → in_rect x' y' w' h' px py ≡ false
within px py x y w h x' y' w' h' a b c d out = ground arith

module _ (info : FrameBufferInfo) where
  -- A run of a method from `con` and `buf`: no panic, the same valid console but for its cursor,
  -- and nothing drawn outside its content.
  abbrev pub Safe : Console → Buf → Result → Type 0
  Safe con buf =
      Returns
        (λ p. IsValid info p.0 × (p.0.content ≡ con.content) × Kept info (area con.content) buf p.1)

  Kept-Scrolled :
      (content : Rect) (a b : Buf) → Scrolled info content a b → Kept info (area content) a b
  Kept-Scrolled content a b s = record {
    canvas = s.canvas;
    same_length = s.same_length;
    outside = λ x y hx hy out. rw out at (s.pixels x y hx hy);
  }

  scroll_up-Safe :
      (con : Console) (buf : Buf)
      → OnScreen info con.content
      → (con.cols ≡ con.content.width / font_width) × (con.rows ≡ con.content.height / font_height)
      → con.col ≤ con.cols
      → con.rows ≢ 0
      → IsCanvas info buf
      → Returns
          (λ p.
            (p.0.col ≡ con.col)
            × IsValid info p.0
            × (p.0.content ≡ con.content)
            × Kept info (area con.content) buf p.1)
          (scroll_up info con buf)
  scroll_up-Safe con buf on grid col rows v =
      Returns-imp _ _ (scroll_up info con buf)
        (λ p h. (
          ap (λ (c : Console). c.col) h.0,
          rw (h.0) (record { on = on; grid = grid; row_in = omega arith; col_in = col }),
          ap (λ (c : Console). c.content) h.0,
          Kept-Scrolled con.content buf p.1 h.1,
        ))
        (scroll_up-Scrolled info con on (omega (arith, grid.1)) buf v rows)

  next_row-Safe :
      (con : Console) (buf : Buf)
      → IsValid info con
      → con.rows ≢ 0
      → IsCanvas info buf
      → Returns
          (λ p.
            (p.0.col ≡ 0)
            × IsValid info p.0
            × (p.0.content ≡ con.content)
            × Kept info (area con.content) buf p.1)
          (next_row info con buf)
  unfolding next_row
  next_row-Safe con buf c rows v = elim (Bool-cases (leb con.rows (con.row + 1))) [
    | inl last ↦ rw last (
        scroll_up-Safe (record con { col = 0; row = con.row + 1 }) buf c.on c.grid (omega arith)
          rows v)
    | inr more ↦ rw more (
      refl,
      record { on = c.on; grid = c.grid; row_in = ground arith; col_in = omega arith },
      refl,
      Kept-refl info (area con.content) buf v,
    )
  ]

  -- A cell of the grid lies in the content.
  cell_inside :
      (con : Console) (col row : ℕ)
      → (con.cols ≡ con.content.width / font_width) × (con.rows ≡ con.content.height / font_height)
      → col < con.cols
      → row < con.rows
      → (x y : ℕ) → area con.content x y ≡ false
      → in_rect
          (con.content.x + col * font_width)
          (con.content.y + row * font_height)
          font_width
          font_height
          x
          y
        ≡ false
  cell_inside con col row grid hc hr x y out =
      let right : col * font_width + font_width ≤ con.content.width = omega arith in
      let bottom : row * font_height + font_height ≤ con.content.height = omega arith in
      within x y _ _ _ _ _ _ _ _ (omega arith) (omega arith) (omega arith) (omega arith) out

  clear_char-DrawsIn :
      (con : Console) (col row : ℕ)
      → DrawsIn info
          (in_rect
            (con.content.x + col * font_width)
            (con.content.y + row * font_height)
            font_width
            font_height)
          (clear_char info con col row)
  unfolding clear_char
  clear_char-DrawsIn con col row = DrawsIn-loop info cell 0 font_height _ (λ dy lo hi.
      DrawsIn-loop info cell 0 font_width _ (λ dx lo' hi'.
        DrawsIn-put_pixel info cell (con.content.x + col * font_width + dx)
          (con.content.y + row * font_height + dy) black (ground arith)))
    where
      cell : ℕ → ℕ → Bool
      cell =
          in_rect (con.content.x + col * font_width) (con.content.y + row * font_height) font_width
            font_height

  module _ (font : Font) where
    print_char-Safe :
        (char : ℕ) (con : Console) (buf : Buf)
        → IsValid info con
        → con.col < con.cols
        → con.row < con.rows
        → IsCanvas info buf
        → Safe con buf (print_char font info char con buf)
    unfolding print_char draw_char
    print_char-Safe char con buf c hc hr v =
        Returns->>= _ _
          (draw_char_at font info (con.content.x + con.col * font_width)
            (con.content.y + con.row * font_height) char white buf)
          _
          (draw_char_at-Kept font info (con.content.x + con.col * font_width)
            (con.content.y + con.row * font_height) white char buf v)
          (λ b k. (
            record { on = c.on; grid = c.grid; row_in = c.row_in; col_in = omega arith },
            refl,
            Kept-mono info _ (area con.content) buf b (cell_inside con con.col con.row c.grid hc hr)
                k,
          ))

    -- The last arm of `write_char`: a new row first where this one is full.
    print-Safe :
        (char : ℕ) (con : Console) (buf : Buf)
        → IsValid info con
        → con.rows ≢ 0
        → con.cols ≢ 0
        → IsCanvas info buf
        → Safe con buf (
            (if leb con.cols con.col then next_row info con buf else some (con, buf)) >>= λ p.
            print_char font info char p.0 p.1)
    print-Safe char con buf c hr hc v = elim (Bool-cases (leb con.cols con.col)) [
      | inl full ↦ rw full (
          Returns->>= _ _ (next_row info con buf) _ (next_row-Safe con buf c hr v) (λ p h.
            let height : p.0.content.height ≡ con.content.height =
              ap (λ (r : Rect). r.height) h.2 in
            let width : p.0.content.width ≡ con.content.width = ap (λ (r : Rect). r.width) h.2 in
            Returns-imp _ _ (print_char font info char p.0 p.1)
              (λ q g. (
                g.0,
                g.1 ∙ h.2,
                Kept-trans info (area con.content) buf p.1 q.1 h.3
                    (subst (λ content. Kept info (area content) p.1 q.1) h.2 g.2),
              ))
              (print_char-Safe char p.0 p.1 h.1 (omega (arith, h.0, h.1.grid.0, c.grid.0, width))
                (omega (arith, h.1.row_in, h.1.grid.1, c.grid.1, height)) h.3.canvas)))
      | inr free ↦
          rw free (print_char-Safe char con buf c (ground arith) (omega (arith, c.row_in)) v)
    ]

    back-Safe :
        (con : Console) (buf : Buf)
        → IsValid info con
        → con.rows ≢ 0
        → 0 < con.col
        → IsCanvas info buf
        → let con' = record con { col = con.col - 1 } in
          Safe con buf (clear_char info con' con'.col con'.row buf >>= λ buf'. some (con', buf'))
    back-Safe con buf c hr h v =
        Returns->>= _ _
          (clear_char info (record con { col = con.col - 1 }) (con.col - 1) con.row buf) _
          (clear_char-DrawsIn (record con { col = con.col - 1 }) (con.col - 1) con.row buf v)
          (λ b k. (
            record {
              on = c.on;
              grid = c.grid;
              row_in = c.row_in;
              col_in = omega (arith, c.col_in);
            },
            refl,
            Kept-mono info _ (area con.content) buf b
                (cell_inside con (con.col - 1) con.row c.grid (omega (arith, c.col_in))
                  (omega (arith, c.row_in)))
                k,
          ))

    -- One character.
    write_char-Safe :
        (char : ℕ) (con : Console) (buf : Buf)
        → IsValid info con
        → IsCanvas info buf
        → Safe con buf (write_char font info char con buf)
    unfolding write_char
    write_char-Safe char con buf c v = elim (Bool-cases (con.rows == 0 || con.cols == 0)) [
      | inl flat ↦ rw flat unchanged
      | inr solid ↦
          let sizes : (con.rows ≢ 0) × (con.cols ≢ 0) = ground arith in
          elim (Bool-cases (char == 10)) [
            | inl newline ↦
                rw (solid, newline)
                  (Returns-imp _ _ (next_row info con buf) (λ p h. (h.1, h.2, h.3))
                    (next_row-Safe con buf c sizes.0 v))
            | inr not_newline ↦ elim (Bool-cases (char == 13)) [
              | inl return ↦
                  rw (solid, not_newline, return)
                    (
                      record { on = c.on; grid = c.grid; row_in = c.row_in; col_in = omega arith },
                      refl,
                      Kept-refl info (area con.content) buf v,
                    )
              | inr not_return ↦ elim (Bool-cases (char == 8)) [
                | inl back ↦ elim (Bool-cases (ltb 0 con.col)) [
                  | inl room ↦
                      rw (solid, not_newline, not_return, back, room)
                        (back-Safe con buf c sizes.0 (ltb→lt _ _ room) v)
                  | inr start ↦ rw (solid, not_newline, not_return, back, start) unchanged
                ]
                | inr printed ↦
                    rw (solid, not_newline, not_return, printed)
                      (print-Safe char con buf c sizes.0 sizes.1 v)
              ]
            ]
          ]
    ]
      where
        unchanged :
            IsValid info con × (con.content ≡ con.content) × Kept info (area con.content) buf buf
        unchanged = (c, refl, Kept-refl info (area con.content) buf v)

    -- Writing any text to a valid console in a canvas does not panic; the console stays valid, its
    -- cursor in the grid, its content where it is; and no pixel outside the content changes.
    pub write_str-Safe :
        (text : List ℕ) (con : Console) (buf : Buf)
        → IsValid info con
        → IsCanvas info buf
        → Safe con buf (write_str font info text con buf)
    unfolding write_str
    write_str-Safe [] con buf c v = (c, refl, Kept-refl info (area con.content) buf v)
    write_str-Safe (char ∷ text) con buf c v =
        Returns->>= _ _ (write_char font info char con buf) _ (write_char-Safe char con buf c v)
          (λ p h.
            Returns-imp _ _ (write_str font info text p.0 p.1)
              (λ q g. (
                g.0,
                g.1 ∙ h.1,
                Kept-trans info (area con.content) buf p.1 q.1 h.2
                    (subst (λ content. Kept info (area content) p.1 q.1) h.1 g.2),
              ))
              (write_str-Safe text p.0 p.1 h.0 h.2.canvas))
