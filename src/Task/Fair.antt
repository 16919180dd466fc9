-- ===== src/Task/Fair.antt =====
-- Turns over many calls of `yield_now`, with no task asleep.
use r_os.Common.{
  ℕ, zero, suc, ◌+◌, ◌%◌, ◌≤◌, ◌<◌, ◌≡◌, refl, ap₂, ◌∙◌, subst, ◌↔◌, inl, inr, true, false, none,
  some, ◌∷◌, arith, length, get_elem?,
}
use r_os.Task.{
  Task, Scheduler, Kernel, is_runnable, yield_now, switch_context, start, ready, running,
}
use r_os.Task.Search.{Runs, round-zero, round-suc}
use r_os.Task.Switched.{OneRunning, switched, switched-state, length-switched}
use r_os.Task.Yield.{yield_now-round_robin}

abbrev pub Awake : Scheduler → Type 0
Awake sched = (i : ℕ) (t : Task) → get_elem? sched.tasks i ≡ some t → is_runnable t.state ≡ true

-- The scheduler runs, with `count` tasks, all awake, of which the one at `current` is running.
pub record Turn (k : Kernel) (count current : ℕ) : Type 0 where
  pub on : k.scheduler_running ≡ true
  pub sched : Scheduler
  pub up : k.scheduler ≡ some sched
  pub many : (length sched.tasks ≡ count) × (2 ≤ count)
  pub here : sched.current ≡ current
  pub one : OneRunning sched
  pub awake : Awake sched

not_asleep : (sched : Scheduler) (i : ℕ) → Awake sched → Runs sched.tasks i false → ⊥
not_asleep sched i awake (t, here, asleep) = cc (awake i t here)

switched-Awake : (sched : Scheduler) (j rsp : ℕ) → Awake sched → Awake (switched sched j rsp)
switched-Awake sched j rsp awake i t e =
    let (t0, found, state) = switched-state sched j rsp i t e in ground (arith, awake i t0 found)

-- One call gives the turn to the next task round.
yield_now-Turn :
    (k : Kernel) (count current : ℕ)
    → Turn k count current
    → Turn (yield_now k) count ((current + 1) % count)
yield_now-Turn k count current turn = elim (yield_now-round_robin k sched up on one (omega arith)) [
  | inl (zero, hd, goes) ↦
      let (t, found, runs, before, result, one') = goes in
      let next_idx : ℕ = (sched.current + 1) % length sched.tasks in
      let rsp : ℕ = (switch_context k.cpu t.context).1 in
      rw result (record {
        on = on;
        sched = switched sched next_idx rsp;
        up = refl;
        many = (length-switched sched next_idx rsp ∙ many.0, many.1);
        here = ap₂ (λ a n. (a + 1) % n) here many.0;
        one = one';
        awake = switched-Awake sched next_idx rsp awake;
      })
  | inl (suc d, hd, goes) ↦
      absurd
        (not_asleep sched ((sched.current + 1) % length sched.tasks) awake (goes.3 0 (omega arith)))
  | inr stays ↦
      absurd (
        not_asleep sched ((sched.current + 1) % length sched.tasks) awake (stays.0 0 (omega arith)))
]
  where
    open turn use {on, sched, up, many, here, one, awake}

-- `n` calls of `yield_now`, by whichever tasks are current.
unfoldable pub yields : ℕ → Kernel → Kernel
yields zero k = k
yields (suc n) k = yields n (yield_now k)

-- While the scheduler runs, with at least two tasks, none asleep and the current one running, `n`
-- calls of `yield_now` give the turn to the task `n`
-- places round: each task is current once in every `count` calls.
pub yields-Turn :
    (n : ℕ) (k : Kernel) (count current : ℕ)
    → Turn k count current
    → Turn (yields n k) count ((current + n) % count)
unfolding yields
yields-Turn zero k count current turn =
    let in_range : current < count = omega (arith, turn.here, turn.one.current_in, turn.many.0) in
    rw (round-zero current count in_range) turn
yields-Turn (suc n) k count current turn =
    subst (λ c. Turn (yields n (yield_now k)) count c) (round-suc current n count)
      (yields-Turn n (yield_now k) count ((current + 1) % count)
        (yield_now-Turn k count current turn))

-- The kernel behind the start: one running task without a stack or a window, with the next id, before
-- the tasks that there were; the machine as it was.
pub record IsStarted (k : Kernel) (sched : Scheduler) (k' : Kernel) : Type 0 where
  pub idle : Task
  pub tasks :
      k'.scheduler
      ≡ some (record { tasks = idle ∷ sched.tasks; current = 0; next_id = sched.next_id + 1 })
  pub new : idle.id ≡ sched.next_id
  pub bare : (idle.stack_len ≡ 0) × (idle.window_id ≡ none) × (idle.state ≡ running)
  pub machine : k'.cpu ≡ k.cpu

-- When `run` starts over a non-empty list of ready tasks, the idle task, with the next id and no
-- window, is put before them, which all stay as they are, and has the first turn.
pub start-Turn :
    (k : Kernel) (sched : Scheduler)
    → k.scheduler ≡ some sched
    → 1 ≤ length sched.tasks
    → ((i : ℕ) (t : Task) → get_elem? sched.tasks i ≡ some t → t.state ≡ ready)
    → (k' : Kernel) × (start k ≡ some k')
      × IsStarted k sched k'
      × Turn k' (length sched.tasks + 1) 0
unfolding start
start-Turn k sched up some_task all_ready = (
  started,
  rw (up, start) refl,
  record { idle = idle; tasks = refl; new = refl; bare = (refl, refl, refl); machine = refl },
  record {
    on = refl;
    sched = after;
    up = refl;
    many = (omega arith, omega arith);
    here = refl;
    one = record { current_in = omega arith; running_is = states };
    awake = awake;
  },
)
  where
    idle : Task
    idle = record {
      id = sched.next_id;
      context = 0;
      stack_len = 0;
      state = running;
      window_id = none;
    }

    after : Scheduler
    after = record { tasks = idle ∷ sched.tasks; current = 0; next_id = sched.next_id + 1 }

    started : Kernel
    started = record k { scheduler = some after; scheduler_running = true }

    states :
        (i : ℕ) (t : Task)
        → get_elem? (idle ∷ sched.tasks) i ≡ some t
        → (t.state ≡ running) ↔ (i ≡ 0)
    states zero t e = ground arith
    states (suc i) t e = ground (arith, all_ready i t e)

    awake :
        (i : ℕ) (t : Task) → get_elem? (idle ∷ sched.tasks) i ≡ some t → is_runnable t.state ≡ true
    awake zero t e = ground arith
    awake (suc i) t e = ground (arith, all_ready i t e)
