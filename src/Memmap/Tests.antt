-- ===== src/Memmap/Tests.antt =====
-- A window of 340 by 160 pixels with two regions.
use r_os.Common.{refl, inr, some, [], ◌∷◌, arith}
use r_os.Common.Loops.{Returns}
use r_os.Fb.{FrameBufferInfo, bgr}
use r_os.Fb.Tests.{blocks}
use r_os.Regions.{Table, usable, heap}
use r_os.Wm.Create.{blank_window-IsSound}
use r_os.Wm.Manager.{blank_window, Spec}
use r_os.Wm.Window.{WmWindow}
use r_os.Memmap.{draw_window}
use r_os.Memmap.Drawn.{IsDrawnIn, draw_window-IsDrawnIn}

abbrev screen : FrameBufferInfo
screen = record { width = 640; height = 480; stride = 640; bytes_per_pixel = 4; pixel_format = bgr }

abbrev spec : Spec
spec = record { x = 20; y = 40; width = 340; height = 160; title = b'M' ∷ []; owner_task = 2 }

abbrev window : WmWindow
window = blank_window screen 0 spec

abbrev regions : Table
regions = record {
  regions =
      record { start = 0x1000; end = 0x9f000; kind = usable }
      ∷ record { start = 0x444444440000; end = 0x444444c40000; kind = heap }
      ∷ [];
  count = 2;
}

draw_window-IsDrawnIn_example :
    Returns (IsDrawnIn screen window) (draw_window blocks (λ text. some text) regions window)
draw_window-IsDrawnIn_example =
    draw_window-IsDrawnIn blocks (λ text. some text) screen regions window
      (blank_window-IsSound screen 0 spec (record { format = inr refl; bytes = omega arith })
        (record { pixels = omega arith; bytes = omega arith })
        (record {
          wide = omega arith;
          high = omega arith;
          sizes = (omega arith, omega arith);
          place = omega arith;
        }))
      (
        record { ordered = omega arith; in_word = omega arith },
        (record { ordered = omega arith; in_word = omega arith }, tt),
      )
      (omega arith) (omega arith)
