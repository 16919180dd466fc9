-- ===== src/Shell/Rounds.antt =====
-- task_main of kernel/src/shell.rs: its begin, and a round of its loop. `none` is a panic, or a read
-- of a key that has not ended. Which keys of the crate pc_keyboard are characters is a parameter.
use r_os.Common.{ℕ, ◌⊎◌, inl, inr, Option, none, some, List, [], ◌∷◌, if◌then◌else◌, replicate}
use r_os.Common.Loops.{◌>>=◌}
use r_os.Fb.Text.{Font}
use r_os.Keyboard.{Decoder, try_read_key}
use r_os.Ring.{RingBuffer, buf_size}
use r_os.Shell
use r_os.Shell.{Line, max_line, prompt, handle_char}
use r_os.Wm.Api
use r_os.Wm.Api.{Globals}

-- "Welcome to r-os shell.\nType 'help' for commands.\n\n"
abbrev welcome : List ℕ
welcome =
    b'W' ∷ b'e' ∷ b'l' ∷ b'c' ∷ b'o' ∷ b'm' ∷ b'e' ∷ b' ' ∷ b't' ∷ b'o' ∷ b' ' ∷ b'r' ∷ b'-' ∷ b'o'
    ∷ b's' ∷ b' ' ∷ b's' ∷ b'h' ∷ b'e' ∷ b'l' ∷ b'l' ∷ b'.' ∷ 10 ∷ b'T' ∷ b'y' ∷ b'p' ∷ b'e' ∷ b' '
    ∷ 39 ∷ b'h' ∷ b'e' ∷ b'l' ∷ b'p' ∷ 39 ∷ b' ' ∷ b'f' ∷ b'o' ∷ b'r' ∷ b' ' ∷ b'c' ∷ b'o' ∷ b'm'
    ∷ b'm' ∷ b'a' ∷ b'n' ∷ b'd' ∷ b's' ∷ b'.' ∷ 10 ∷ 10 ∷ []

abbrev pub empty_line : Line
empty_line = record { buf = replicate max_line 0; len = 0 }

-- How a step ends: with a value, or with the processor halted for ever over those states. Behind a
-- halt nothing runs: `cmd_halt` does not return.
abbrev pub Outcome : Type 0 → Type 0
Outcome A = A ⊎ Globals

abbrev pub then_on : {A B : Type 0} → Outcome A → (A → Option (Outcome B)) → Option (Outcome B)
then_on (inl a) f = f a
then_on (inr g) f = some (inr g)

module _ (d : Decoder) where
  -- The variables of the loop and the statics of kernel/src/keyboard.rs, with the states of the
  -- window manager.
  pub record Session : Type 0 where
    pub line : Line
    pub queue : RingBuffer ℕ
    pub kb : d.State
    pub globals : Globals

module _ (font : Font) (from_utf8 : List ℕ → Option (List ℕ)) where
  -- The calls of a key, made on the window.
  unfoldable pub perform : ℕ → List Shell.Call → Globals → Option (Outcome Globals)
  perform win [] g = some (inl g)
  perform win (Shell.Call.console_write text ∷ calls) g =
      Api.console_write font from_utf8 win text g >>= λ g'. perform win calls g'
  perform win (Shell.Call.console_clear ∷ calls) g =
      Api.console_clear win g >>= λ g'. perform win calls g'
  perform win (Shell.Call.halt ∷ calls) g = some (inr g)

  -- The calls before the loop.
  unfoldable pub begin : ℕ → Globals → Option Globals
  begin win g = Api.console_write font from_utf8 win welcome g >>= λ g1.
      Api.console_write font from_utf8 win prompt g1 >>= λ g2. Api.console_show_cursor win g2

  -- The `match` on the key.
  unfoldable pub type_key : ℕ → Option ℕ → Line → Globals → Option (Outcome (Line × Globals))
  type_key win none line g = some (inl (line, g))
  type_key win (some c) line g = handle_char from_utf8 c line >>= λ r.
      perform win r.0 g >>= λ o. then_on o (λ g'. some (inl (r.1, g')))

module _ (d : Decoder) (unicode : d.DecodedKey → Option ℕ) (font : Font)
    (from_utf8 : List ℕ → Option (List ℕ)) where
  -- A key that was read.
  unfoldable pub serve : ℕ → d.DecodedKey → Line → Globals → Option (Outcome (Line × Globals))
  serve win key line g = Api.console_hide_cursor win g >>= λ g1.
      type_key font from_utf8 win (unicode key) line g1 >>= λ o. then_on o (λ r.
        Api.console_show_cursor win r.1 >>= λ g3.
        Api.mark_dirty win g3 >>= λ g4. some (inl (r.0, g4)))

  -- One round up to `yield_now`, which a halt does not reach.
  unfoldable pub round : ℕ → Session d → Option (Outcome (Session d))
  round win s =
      if Api.is_focused win s.globals
      then (try_read_key d buf_size s.queue s.kb >>= λ r. elim r.0 [
        | none ↦ some (inl (record s { queue = r.1; kb = r.2 }))
        | some key ↦ serve win key s.line s.globals >>= λ o.
            then_on o
              (λ p. some (inl (record { line = p.0; queue = r.1; kb = r.2; globals = p.1 })))
      ])
      else some (inl s)
