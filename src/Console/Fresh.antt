-- ===== src/Console/Fresh.antt =====
-- A new and a cleared console.
use r_os.Common.{◌≡◌, refl, arith}
use r_os.Common.Loops.{Returns, Returns->>=}
use r_os.Fb.{Buf, Rect, FrameBufferInfo, black}
use r_os.Fb.Canvas.{IsCanvas, Painted}
use r_os.Fb.Rects.{fill_rect-Painted}
use r_os.Console.{Console, new, clear, blank}
use r_os.Console.Copy.{OnScreen}
use r_os.Console.Cursor.{IsValid, area}

module _ (info : FrameBufferInfo) where
  -- On a canvas `new` for a content that lies on the screen does not panic: the console is valid, with the
  -- cursor at the origin, and the content is black and nothing else has changed.
  pub new-Painted :
      (content : Rect) (buf : Buf)
      → OnScreen info content
      → IsCanvas info buf
      → Returns
          (λ p.
            IsValid info p.0
            × (p.0.content ≡ content)
            × ((p.0.col ≡ 0) × (p.0.row ≡ 0))
            × Painted info (area content) black buf p.1)
          (new info content buf)
  unfolding new
  new-Painted content buf on v =
      Returns->>= (Painted info (area content) black buf) _ (blank info content buf) _
        (fill_rect-Painted info black content.x content.y content.width content.height buf v)
        (λ b p. (
          record { on = on; grid = (refl, refl); row_in = omega arith; col_in = omega arith },
          refl,
          (refl, refl),
          p,
        ))

  -- On a canvas `clear` does not panic: a valid console stays valid, its cursor goes to the origin, and its
  -- content is black and nothing else has changed.
  pub clear-Painted :
      (con : Console) (buf : Buf)
      → IsValid info con
      → IsCanvas info buf
      → Returns
          (λ p.
            IsValid info p.0
            × (p.0.content ≡ con.content)
            × ((p.0.col ≡ 0) × (p.0.row ≡ 0))
            × Painted info (area con.content) black buf p.1)
          (clear info con buf)
  unfolding clear
  clear-Painted con buf c v =
      let content : Rect = con.content in
      Returns->>= (Painted info (area content) black buf) _ (blank info content buf) _
        (fill_rect-Painted info black content.x content.y content.width content.height buf v)
        (λ b p. (
          record { on = c.on; grid = c.grid; row_in = omega arith; col_in = omega arith },
          refl,
          (refl, refl),
          p,
        ))
