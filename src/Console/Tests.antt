-- ===== src/Console/Tests.antt =====
-- Runs on a screen of 18 by 34 pixels, with a console of two columns and two rows.
use r_os.Common.{ℕ, ◌≡◌, refl, inr, false, [], ◌∷◌, arith, replicate, length-replicate}
use r_os.Common.Loops.{Returns}
use r_os.Fb.{Buf, Rect, FrameBufferInfo, bgr}
use r_os.Fb.Canvas.{IsCanvas}
use r_os.Fb.Tests.{blocks}
use r_os.Console.{Console, scroll_up, write_str}
use r_os.Console.Copy.{OnScreen}
use r_os.Console.Scroll.{Scrolled, scroll_up-Scrolled}
use r_os.Console.Cursor.{IsValid, Safe, write_str-Safe}

abbrev screen : FrameBufferInfo
screen = record { width = 18; height = 34; stride = 20; bytes_per_pixel = 3; pixel_format = bgr }

abbrev screen_buf : Buf
screen_buf = replicate 2040 0

screen_buf-IsCanvas : IsCanvas screen screen_buf
screen_buf-IsCanvas = record {
  colors = record { format = inr refl; bytes = omega arith };
  in_stride = omega arith;
  in_words = (omega arith, omega arith);
  holds = omega (arith, length-replicate {A = ℕ} 2040 0);
}

abbrev inside : Rect
inside = record { x = 1; y = 1; width = 17; height = 33 }

inside-OnScreen : OnScreen screen inside
inside-OnScreen = record { right = omega arith; bottom = omega arith }

abbrev console : Console
console = record { content = inside; col = 2; row = 1; cols = 2; rows = 2; cursor_visible = false }

console-IsValid : IsValid screen console
console-IsValid = record {
  on = inside-OnScreen;
  grid = (refl, refl);
  row_in = omega arith;
  col_in = omega arith;
}

scroll_up-Scrolled_example :
    Returns
      (λ p. (p.0 ≡ record console { row = 1 }) × Scrolled screen inside screen_buf p.1)
      (scroll_up screen console screen_buf)
scroll_up-Scrolled_example =
    scroll_up-Scrolled screen console inside-OnScreen (omega arith) screen_buf screen_buf-IsCanvas
      (λ e. omega arith)

-- A character behind the last column of the last row: it wraps and scrolls.
write_str-Safe_example :
    Safe screen console screen_buf (write_str blocks screen (b'a' ∷ 10 ∷ 8 ∷ []) console screen_buf)
write_str-Safe_example =
    write_str-Safe screen blocks (b'a' ∷ 10 ∷ 8 ∷ []) console screen_buf console-IsValid
      screen_buf-IsCanvas
