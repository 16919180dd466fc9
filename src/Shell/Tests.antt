-- ===== src/Shell/Tests.antt =====
-- Keys typed at the shell, and its theorem on a short line.
use r_os.Common.{◌≡◌, refl, inl, true, true, false, some, [], ◌∷◌, arith, replicate}
use r_os.Common.Loops.{Returns}
use r_os.Shell.{
  Call, console_write, console_clear, Line, prompt, newline, rub_out, execute, handle_char,
}
use r_os.Fb.Tests.{blocks}
use r_os.Keyboard.Tests.{counting, typed, typed-IsValid}
use r_os.Shell.Rounds
use r_os.Shell.Rounds.{Outcome}
use r_os.Shell.Served.{IsServed, halts, round-IsAlive}
use r_os.Wm.Api
use r_os.Wm.Tests.{started}
use r_os.Shell.Edit.{view, IsValid, edit, handle_char-edit}

-- " clear "
clears : execute (32 ∷ b'c' ∷ b'l' ∷ b'e' ∷ b'a' ∷ b'r' ∷ 32 ∷ []) ≡ console_clear ∷ []
unfolding execute r_os.Shell.same_text r_os.Shell.command_of r_os.Shell.split_space
    r_os.Shell.trim_end r_os.Shell.trim_start
clears = refl

-- "echo  a b"
echoes :
    execute (b'e' ∷ b'c' ∷ b'h' ∷ b'o' ∷ 32 ∷ 32 ∷ b'a' ∷ 32 ∷ b'b' ∷ [])
    ≡ console_write (b'a' ∷ 32 ∷ b'b' ∷ []) ∷ console_write newline ∷ []
unfolding execute r_os.Shell.same_text r_os.Shell.command_of r_os.Shell.split_space
    r_os.Shell.trim_end r_os.Shell.trim_start
echoes = refl

-- "ab" on the line.
abbrev line : Line
line = record { buf = b'a' ∷ b'b' ∷ replicate 254 0; len = 2 }

line-IsValid : IsValid line
line-IsValid = record { size = refl; len_in = omega arith; printable = (refl, (refl, tt)) }

-- A backspace.
handle_char-edit_example :
    Returns
      (λ r. IsValid r.1 × ((r.0, view r.1) ≡ edit 8 (b'a' ∷ b'b' ∷ [])))
      (handle_char some 8 line)
handle_char-edit_example = handle_char-edit some (λ bytes h. refl) 8 line line-IsValid

-- "halt" on the line, and the enter key.
enter-halts :
    halts (some 10) (record { buf = b'h' ∷ b'a' ∷ b'l' ∷ b't' ∷ replicate 252 0; len = 4 }) ≡ true
unfolding edit execute r_os.Shell.same_text r_os.Shell.command_of r_os.Shell.split_space
    r_os.Shell.trim_end r_os.Shell.trim_start
enter-halts = refl

-- The shell with a key in its queue.
abbrev waiting : Rounds.Session counting
waiting = record { line = line; queue = typed; kb = 0; globals = started.0 }

round-IsAlive_example :
    Returns
      (λ (o : Outcome (Rounds.Session counting)).
        (Api.is_focused 0 waiting.globals ≡ false → o ≡ inl waiting)
        × (Api.is_focused 0 waiting.globals ≡ true → IsServed counting some waiting o))
      (Rounds.round counting some blocks some 0 waiting)
round-IsAlive_example =
    round-IsAlive blocks some (λ bytes h. refl) counting some 0 waiting
      (record { line = line-IsValid; queue = typed-IsValid; ready = started.1.1 })
