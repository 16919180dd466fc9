-- ===== src/Counter.antt =====
-- The task of kernel/src/counter.rs. `none` is a panic. Its format_u64 is that of Format.
pub mod Fresh
mod Tests
use r_os.Common.{
  ℕ, ◌+◌, ◌-◌, ◌/◌, ◌%◌, ◌^◌, Option, none, some, List, [], ◌∷◌, ltb, leb, if◌then◌else◌, length,
  take,
}
use r_os.Common.Loops.{◌>>=◌}
use r_os.Fb.Text.{Font}
use r_os.Format.{Text, format_u64}
use r_os.Wm.Api.{Globals}
use r_os.Wm.Manager.{zeros}
use r_os.Wm.Session.{Call, write, clear, mark_dirty, run}
use r_os.Wm.Window.{or_question_mark}

-- "Tick Counter\n\n"
abbrev pub title : List ℕ
title =
    b'T' ∷ b'i' ∷ b'c' ∷ b'k' ∷ b' ' ∷ b'C' ∷ b'o' ∷ b'u' ∷ b'n' ∷ b't' ∷ b'e' ∷ b'r' ∷ 10 ∷ 10 ∷ []

-- The calls before the loop.
abbrev pub banner : ℕ → List Call
banner win =
    write win title
    ∷ write win (
        b'T' ∷ b'h' ∷ b'i' ∷ b's' ∷ b' ' ∷ b't' ∷ b'a' ∷ b's' ∷ b'k' ∷ b' ' ∷ b'r' ∷ b'u' ∷ b'n'
        ∷ b's' ∷ b' ' ∷ b'i' ∷ b'n' ∷ b' ' ∷ b'p' ∷ b'a' ∷ b'r' ∷ b'a' ∷ b'l' ∷ b'l' ∷ b'e' ∷ b'l'
        ∷ 10 ∷ [])
    ∷ write win (
        b'w' ∷ b'i' ∷ b't' ∷ b'h' ∷ b' ' ∷ b't' ∷ b'h' ∷ b'e' ∷ b' ' ∷ b's' ∷ b'h' ∷ b'e' ∷ b'l'
        ∷ b'l' ∷ b'.' ∷ 10 ∷ 10 ∷ [])
    ∷ []

-- `ticks.wrapping_sub(last)`
abbrev pub wrapping_sub : ℕ → ℕ → ℕ
wrapping_sub a b = (a + 2 ^ 64 - b) % 2 ^ 64

-- The calls that show two numbers, in their order.
abbrev pub display : ℕ → List ℕ → List ℕ → List Call
display win s s2 =
    clear win
    ∷ write win title
    ∷ write win (b'T' ∷ b'i' ∷ b'c' ∷ b'k' ∷ b's' ∷ b':' ∷ b' ' ∷ [])
    ∷ write win s
    ∷ write win (10 ∷ 10 ∷ [])
    ∷ write win (b'U' ∷ b'p' ∷ b't' ∷ b'i' ∷ b'm' ∷ b'e' ∷ b':' ∷ b' ' ∷ [])
    ∷ write win s2
    ∷ write win (b's' ∷ 10 ∷ [])
    ∷ mark_dirty win
    ∷ []

module _ (font : Font) (from_utf8 : List ℕ → Option (List ℕ)) where
  -- A number as the text of its bytes in a buffer of 24.
  unfoldable pub number_text : ℕ → Option (List ℕ)
  number_text val = format_u64 (zeros 24) val >>= λ t.
      if ltb (length t.buf) t.pos
      then none
      else some (or_question_mark (from_utf8 (take t.pos t.buf)))

  -- The calls of a refresh, with its two numbers.
  unfoldable pub refresh : ℕ → ℕ → Option (List Call)
  refresh win ticks =
      number_text ticks >>= λ s. number_text (ticks / 18) >>= λ s2. some (display win s s2)

  -- One round of the loop up to `yield_now`, with the number of ticks that it reads and
  -- `last_displayed`, which it gives back.
  unfoldable pub round : ℕ → ℕ → ℕ → Globals → Option (ℕ × Globals)
  round win ticks last g =
      if leb 16 (wrapping_sub ticks last)
      then (refresh win ticks >>= λ calls. run font from_utf8 calls g >>= λ g'. some (ticks, g'))
      else some (last, g)
