-- ===== src/Wm/Window.antt =====
-- WmWindow of kernel/src/wm.rs. `none` is a panic. The font and `from_utf8` are parameters.
use r_os.Common.{
  ℕ, ◌+◌, ◌-◌, ◌*◌, ◌/◌, min, Bool, true, false, Option, none, some, List, [], ◌∷◌, ltb, leb,
  if◌then◌else◌, length, take,
}
use r_os.Common.Loops.{◌>>=◌}
use r_os.Fb.{
  black, Buf, Color, Rect, FrameBufferInfo, fill_rect, draw_rect_outline, default_title_bar_height,
  window_padding,
}
use r_os.Fb.Text.{Font, font_height, draw_text}
use r_os.Console.{Console}

abbrev pub max_title : ℕ
max_title = 32

pub record WmWindow : Type 0 where
  pub id : ℕ
  pub x : ℕ
  pub y : ℕ
  pub width : ℕ
  pub height : ℕ
  pub title : List ℕ
  pub title_len : ℕ
  pub buf : Buf
  pub buf_info : FrameBufferInfo
  pub console : Option Console
  pub dirty : Bool
  pub owner_task : ℕ

-- The height of the title bar.
abbrev pub title_height : WmWindow → ℕ
title_height win = min default_title_bar_height win.height

abbrev pub content_rect : WmWindow → Rect
content_rect win = record {
  x = window_padding;
  y = title_height win + window_padding;
  width = win.width - window_padding * 2;
  height = win.height - (title_height win + window_padding * 2);
}

abbrev pub border_color : Color
border_color = record { r = 0x55; g = 0x5a; b = 0x66 }

abbrev pub title_color : Color
title_color = record { r = 0xf0; g = 0xf2; b = 0xf6 }

abbrev pub bar_color : Bool → Color
bar_color true = record { r = 0x20; g = 0x3a; b = 0x58 }
bar_color false = record { r = 0x18; g = 0x2a; b = 0x40 }

-- `unwrap_or("?")`
abbrev pub or_question_mark : Option (List ℕ) → List ℕ
or_question_mark none = b'?' ∷ []
or_question_mark (some text) = text

module _ (font : Font) (from_utf8 : List ℕ → Option (List ℕ)) where
  unfoldable pub title_str : WmWindow → Option (List ℕ)
  title_str win =
      if ltb (length win.title) win.title_len
      then none
      else some (or_question_mark (from_utf8 (take win.title_len win.title)))

  -- The title, if the bar is high enough for it.
  unfoldable pub draw_title : WmWindow → Buf → Option Buf
  draw_title win buf =
      if leb font_height (title_height win)
      then (title_str win >>= λ text.
          draw_text font win.buf_info window_padding ((title_height win - font_height) / 2) text
            title_color buf)
      else some buf

  unfoldable pub draw_chrome : Bool → WmWindow → Option WmWindow
  draw_chrome focused win =
      fill_rect win.buf_info 0 0 win.width (title_height win) (bar_color focused) win.buf >>= λ b1.
      draw_rect_outline win.buf_info
        (record { x = 0; y = 0; width = win.width; height = win.height }) border_color b1
      >>= λ b2. draw_title win b2 >>= λ b3. some (record win { buf = b3 })

  unfoldable pub init_chrome : WmWindow → Option WmWindow
  init_chrome win = fill_rect win.buf_info 0 0 win.width win.height black win.buf >>= λ b.
      draw_chrome false (record win { buf = b })
