-- ===== src/Idle/Tests.antt =====
-- A round with two queued clicks.
use r_os.Common.{◌≡◌, true, false, some, [], arith}
use r_os.Common.Loops.{Returns, ◌>>=◌}
use r_os.Common.Int.{pos, negsuc}
use r_os.Fb.Tests.{blocks}
use r_os.Mouse.{Mouse, MouseEvent, mouse, empty_event}
use r_os.Ring.{push, empty_ring}
use r_os.Ring.Inv.{IsValid, empty_ring-IsValid, push-IsValid}
use r_os.Wm.Session.{IsReady}
use r_os.Wm.Tests.{started, ascii}
use r_os.Idle.{needs_composite, composite_if_needed, idle_round}
use r_os.Idle.Drained.{IsShort, events, handle_all, idle_round-IsReady}

abbrev event : MouseEvent
event = record { dx = pos 3; dy = negsuc 4; left = true; right = false; middle = false }

abbrev clicked : Mouse
clicked = record mouse { queue = push (push (empty_ring empty_event) event) event }

short : IsShort event
short = ((omega arith, omega arith), (omega arith, omega arith))

clicked-IsValid : IsValid clicked.queue
clicked-IsValid =
    push-IsValid (push (empty_ring empty_event) event) event
      (push-IsValid (empty_ring empty_event) event (empty_ring-IsValid empty_event))

idle_round-IsReady_example :
    Returns
      (λ p.
        (events p.0 ≡ [])
        × IsReady p.1
        × (needs_composite p.1 ≡ false)
        × ((handle_all blocks ascii (events clicked) started.0 >>= composite_if_needed blocks ascii)
            ≡ some p.1))
      (idle_round blocks ascii clicked started.0)
unfolding push
idle_round-IsReady_example =
    idle_round-IsReady blocks ascii clicked started.0 clicked-IsValid (short, (short, tt))
      started.1.1
