-- ===== src/Shell.antt =====
-- kernel/src/shell.rs: the line editor and the dispatch of commands. What the shell does to its
-- console is the list of its calls to the window manager, in order.
pub mod Edit
pub mod Rounds
pub mod Served
mod Tests
use r_os.Common.{
  ℕ, ◌+◌, ◌-◌, ◌*◌, ◌/◌, Bool, true, false, ◌&&◌, ◌||◌, Option, none, some, List, [], ◌∷◌, ltb, leb,
  ◌==◌, if◌then◌else◌, length, take, replicate,
}
use r_os.Common.Loops.{◌>>=◌}
use r_os.Fb.{write}
use r_os.Format.{Text, format_u64}

abbrev pub max_line : ℕ
max_line = 256

-- `console_write`, `console_clear`, and `cmd_halt`, which does not return.
pub data Call : Type 0 where
  console_write : List ℕ → Call
  console_clear : Call
  halt : Call

-- `line_buf` and `line_len`.
pub record Line : Type 0 where
  pub buf : List ℕ
  pub len : ℕ

abbrev pub prompt : List ℕ
prompt = b'r' ∷ b'-' ∷ b'o' ∷ b's' ∷ b'>' ∷ b' ' ∷ []

abbrev pub newline : List ℕ
newline = 10 ∷ []

-- "\u{8} \u{8}"
abbrev pub rub_out : List ℕ
rub_out = 8 ∷ 32 ∷ 8 ∷ []

-- White space among the ASCII bytes.
abbrev pub is_space : ℕ → Bool
is_space c = c == 32 || (leb 9 c && leb c 13)

unfoldable pub trim_start : List ℕ → List ℕ
trim_start [] = []
trim_start (c ∷ cs) = let rest = trim_start cs in if is_space c then rest else c ∷ cs

unfoldable pub trim_end : List ℕ → List ℕ
trim_end [] = []
trim_end (c ∷ cs) = elim (trim_end cs) [
  | [] ↦ if is_space c then [] else c ∷ []
  | d ∷ ds ↦ c ∷ d ∷ ds
]

-- `trim`
abbrev pub trim : List ℕ → List ℕ
trim cs = trim_end (trim_start cs)

-- `find(' ')` and the two slices around it: all of the text and "" if there is no space.
unfoldable pub split_space : List ℕ → List ℕ × List ℕ
split_space [] = ([], [])
split_space (c ∷ cs) =
    let rest = split_space cs in if c == 32 then ([], cs) else (c ∷ rest.0, rest.1)

-- The command and its arguments.
unfoldable pub command_of : List ℕ → List ℕ × List ℕ
command_of cmd = let (command, args) = split_space (trim cmd) in (command, trim args)

unfoldable pub same_text : List ℕ → List ℕ → Bool
same_text [] [] = true
same_text (a ∷ cs) (b ∷ ds) = a == b && same_text cs ds
same_text _ _ = false

abbrev pub cmd_help : List Call
cmd_help =
    console_write (
      b'A' ∷ b'v' ∷ b'a' ∷ b'i' ∷ b'l' ∷ b'a' ∷ b'b' ∷ b'l' ∷ b'e' ∷ b' ' ∷ b'c' ∷ b'o' ∷ b'm'
      ∷ b'm' ∷ b'a' ∷ b'n' ∷ b'd' ∷ b's' ∷ b':' ∷ 10 ∷ [])
    ∷ console_write (
        b' ' ∷ b' ' ∷ b'h' ∷ b'e' ∷ b'l' ∷ b'p' ∷ b' ' ∷ b' ' ∷ b'-' ∷ b' ' ∷ b'S' ∷ b'h' ∷ b'o'
        ∷ b'w' ∷ b' ' ∷ b't' ∷ b'h' ∷ b'i' ∷ b's' ∷ b' ' ∷ b'h' ∷ b'e' ∷ b'l' ∷ b'p' ∷ 10 ∷ [])
    ∷ console_write (
        b' ' ∷ b' ' ∷ b'e' ∷ b'c' ∷ b'h' ∷ b'o' ∷ b' ' ∷ b' ' ∷ b'-' ∷ b' ' ∷ b'P' ∷ b'r' ∷ b'i'
        ∷ b'n' ∷ b't' ∷ b' ' ∷ b'a' ∷ b'r' ∷ b'g' ∷ b'u' ∷ b'm' ∷ b'e' ∷ b'n' ∷ b't' ∷ b's' ∷ 10
        ∷ [])
    ∷ console_write (
        b' ' ∷ b' ' ∷ b'c' ∷ b'l' ∷ b'e' ∷ b'a' ∷ b'r' ∷ b' ' ∷ b'-' ∷ b' ' ∷ b'C' ∷ b'l' ∷ b'e'
        ∷ b'a' ∷ b'r' ∷ b' ' ∷ b's' ∷ b'c' ∷ b'r' ∷ b'e' ∷ b'e' ∷ b'n' ∷ 10 ∷ [])
    ∷ console_write (
        b' ' ∷ b' ' ∷ b'm' ∷ b'e' ∷ b'm' ∷ b'i' ∷ b'n' ∷ b'f' ∷ b'o' ∷ b' ' ∷ b'-' ∷ b' ' ∷ b'H'
        ∷ b'e' ∷ b'a' ∷ b'p' ∷ b' ' ∷ b'i' ∷ b'n' ∷ b'f' ∷ b'o' ∷ 10 ∷ [])
    ∷ console_write (
        b' ' ∷ b' ' ∷ b'h' ∷ b'a' ∷ b'l' ∷ b't' ∷ b' ' ∷ b' ' ∷ b'-' ∷ b' ' ∷ b'H' ∷ b'a' ∷ b'l'
        ∷ b't' ∷ b' ' ∷ b'C' ∷ b'P' ∷ b'U' ∷ 10 ∷ [])
    ∷ []

abbrev pub cmd_echo : List ℕ → List Call
cmd_echo args = console_write args ∷ console_write newline ∷ []

-- The text of the number that `format_u64` leaves in a buffer of 24 zeros.
abbrev number_text : Option Text → List ℕ
number_text none = []
number_text (some text) = take text.pos text.buf

-- HEAP_SIZE is 8 MiB.
unfoldable pub cmd_meminfo : List Call
cmd_meminfo =
    console_write (
      b'H' ∷ b'e' ∷ b'a' ∷ b'p' ∷ b':' ∷ b' ' ∷ b'0' ∷ b'x' ∷ b'4' ∷ b'4' ∷ b'4' ∷ b'4' ∷ b'_'
      ∷ b'4' ∷ b'4' ∷ b'4' ∷ b'4' ∷ b'_' ∷ b'0' ∷ b'0' ∷ b'0' ∷ b'0' ∷ 10 ∷ [])
    ∷ console_write (b'S' ∷ b'i' ∷ b'z' ∷ b'e' ∷ b':' ∷ b' ' ∷ [])
    ∷ console_write (number_text (format_u64 (replicate 24 0) (8 * 1024 * 1024 / 1024)))
    ∷ console_write (b' ' ∷ b'K' ∷ b'i' ∷ b'B' ∷ 10 ∷ [])
    ∷ []

unfoldable pub execute : List ℕ → List Call
execute cmd =
    let (command, args) = command_of cmd in
    if same_text command (b'h' ∷ b'e' ∷ b'l' ∷ b'p' ∷ [])
    then cmd_help
    else if same_text command (b'e' ∷ b'c' ∷ b'h' ∷ b'o' ∷ [])
    then cmd_echo args
    else if same_text command (b'c' ∷ b'l' ∷ b'e' ∷ b'a' ∷ b'r' ∷ [])
    then console_clear ∷ []
    else if same_text command (b'm' ∷ b'e' ∷ b'm' ∷ b'i' ∷ b'n' ∷ b'f' ∷ b'o' ∷ [])
    then cmd_meminfo
    else if same_text command (b'h' ∷ b'a' ∷ b'l' ∷ b't' ∷ [])
    then halt ∷ []
    else console_write (
        b'U' ∷ b'n' ∷ b'k' ∷ b'n' ∷ b'o' ∷ b'w' ∷ b'n' ∷ b' ' ∷ b'c' ∷ b'o' ∷ b'm' ∷ b'm' ∷ b'a'
        ∷ b'n' ∷ b'd' ∷ b':' ∷ b' ' ∷ 39 ∷ [])
      ∷ console_write command
      ∷ console_write (39 ∷ 10 ∷ [])
      ∷ []

-- `c.is_ascii() && !c.is_ascii_control()`
abbrev pub is_printable : ℕ → Bool
is_printable c = leb 32 c && leb c 126

-- Calls one after the other. `halt` does not return, so that nothing behind it happens.
abbrev pub and_then : List Call → List Call → List Call
and_then [] after = after
and_then (halt ∷ calls) after = halt ∷ []
and_then (call ∷ calls) after = call ∷ and_then calls after

-- `unwrap_or("")`
abbrev pub or_empty : Option (List ℕ) → List ℕ
or_empty none = []
or_empty (some text) = text

-- `if !cmd.is_empty() { execute(win_id, cmd) }`
abbrev pub run_line : List ℕ → List Call
run_line [] = []
run_line (c ∷ cs) = execute (c ∷ cs)

-- The standard library's `from_utf8` is a parameter.
module _ (from_utf8 : List ℕ → Option (List ℕ)) where
  -- One key: the calls, and the line behind it, if no call halts. `none` is a panic.
  unfoldable pub handle_char : ℕ → Line → Option (List Call × Line)
  handle_char c line =
      if c == 10 || c == 13
      then (if ltb (length line.buf) line.len
          then none
          else some (
            console_write newline
                ∷ and_then (run_line (or_empty (from_utf8 (take line.len line.buf))))
                    (console_write prompt ∷ []),
            record line { len = 0 },
          ))
      else if c == 8 || c == 127
      then (if ltb 0 line.len
          then some (console_write rub_out ∷ [], record line { len = line.len - 1 })
          else some ([], line))
      else if is_printable c
      then (if ltb line.len max_line
          then (write line.len c line.buf >>= λ buf.
              some (console_write (c ∷ []) ∷ [], record { buf = buf; len = line.len + 1 }))
          else some ([], line))
      else some ([], line)
