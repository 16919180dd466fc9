-- ===== src/Idle.antt =====
-- The loop of `run` in kernel/src/task.rs: what the idle task does between two switches. `none` is
-- a panic. The mouse interrupt brings no byte within the round.
pub mod Drained
mod Tests
use r_os.Common.{ℕ, zero, suc, Bool, false, Option, none, some, List, if◌then◌else◌}
use r_os.Common.Loops.{◌>>=◌}
use r_os.Fb.Text.{Font}
use r_os.Mouse.{Mouse, try_read_event}
use r_os.Ring.{buf_size}
use r_os.Wm.Api
use r_os.Wm.Api.{Globals}

-- `with_wm(|wm| wm.needs_composite()).unwrap_or(false)`
unfoldable pub needs_composite : Globals → Bool
needs_composite g = elim g.wm [ none ↦ false | some wm ↦ wm.needs_composite ]

module _ (font : Font) (from_utf8 : List ℕ → Option (List ℕ)) where
  -- The `while let` loop, on fuel.
  unfoldable pub drain : ℕ → Mouse → Globals → Option (Mouse × Globals)
  drain zero mouse g = some (mouse, g)
  drain (suc n) mouse g = elim (try_read_event mouse).0 [
    | none ↦ some ((try_read_event mouse).1, g)
    | some event ↦
        Api.handle_mouse font from_utf8 event g >>= λ g'. drain n (try_read_event mouse).1 g'
  ]

  unfoldable pub composite_if_needed : Globals → Option Globals
  composite_if_needed g = if needs_composite g then Api.composite font from_utf8 g else some g

  -- One round up to `yield_now`. The queue holds fewer events than it has slots.
  unfoldable pub idle_round : Mouse → Globals → Option (Mouse × Globals)
  idle_round mouse g =
      drain buf_size mouse g >>= λ p. composite_if_needed p.1 >>= λ g'. some (p.0, g')
