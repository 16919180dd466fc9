-- ===== src/Task/Switched.antt =====
-- The scheduler behind a switch to another task.
use r_os.Common.{
  ℕ, ◌<◌, ◌≡◌, ◌∙◌, ◌↔◌, inl, inr, some, List, arith, ◌==◌, if◌then◌else◌, Option-cases, length,
  get_elem?,
}
use mathlib.Core.Option
use r_os.Task.{Task, ready, running, Scheduler, update_task, set_state, set_context}
use r_os.Task.Search.{get_elem?-update_task, length-update_task}

-- One running task, the current one.
pub record OneRunning (sched : Scheduler) : Type 0 where
  pub current_in : sched.current < length sched.tasks
  pub running_is :
      (i : ℕ) (t : Task)
      → get_elem? sched.tasks i ≡ some t
      → (t.state ≡ running) ↔ (i ≡ sched.current)

-- The scheduler behind a switch to the task at `next_idx`, its own pointer saved as `rsp`.
abbrev pub switched : Scheduler → ℕ → ℕ → Scheduler
switched sched next_idx rsp = record sched {
  tasks =
      update_task
        (update_task (update_task sched.tasks sched.current (set_state ready)) next_idx
          (set_state running))
        sched.current (set_context rsp);
  current = next_idx;
}

-- The state of a task behind a switch.
pub switched-state :
    (sched : Scheduler) (next_idx rsp i : ℕ) (t : Task)
    → get_elem? (switched sched next_idx rsp).tasks i ≡ some t
    → (t0 : Task) × (get_elem? sched.tasks i ≡ some t0)
      × (t.state
          ≡ (if next_idx == i then running else if sched.current == i then ready else t0.state))
switched-state sched next_idx rsp i t e = elim (Option-cases (get_elem? sched.tasks i)) [
  | inl gone ↦ ground (arith, one, two, three)
  | inr (t0, found) ↦ (t0, found, ground (arith, one, two, three))
]
  where
    ts1 : List Task
    ts1 = update_task sched.tasks sched.current (set_state ready)

    ts2 : List Task
    ts2 = update_task ts1 next_idx (set_state running)

    one : get_elem? ts1 i ≡ (
        if sched.current == i
        then Option.map (set_state ready) (get_elem? sched.tasks i)
        else get_elem? sched.tasks i)
    one = get_elem?-update_task sched.tasks sched.current i (set_state ready)

    two : get_elem? ts2 i ≡ (
        if next_idx == i then Option.map (set_state running) (get_elem? ts1 i) else get_elem? ts1 i)
    two = get_elem?-update_task ts1 next_idx i (set_state running)

    three : get_elem? (switched sched next_idx rsp).tasks i ≡ (
        if sched.current == i
        then Option.map (set_context rsp) (get_elem? ts2 i)
        else get_elem? ts2 i)
    three = get_elem?-update_task ts2 sched.current i (set_context rsp)

pub length-switched :
    (sched : Scheduler) (next_idx rsp : ℕ)
    → length (switched sched next_idx rsp).tasks ≡ length sched.tasks
length-switched sched next_idx rsp =
    length-update_task
      (update_task (update_task sched.tasks sched.current (set_state ready)) next_idx
        (set_state running))
      sched.current (set_context rsp)
    ∙ length-update_task (update_task sched.tasks sched.current (set_state ready)) next_idx
        (set_state running)
    ∙ length-update_task sched.tasks sched.current (set_state ready)

pub switched-OneRunning :
    (sched : Scheduler) (next_idx rsp : ℕ)
    → next_idx < length sched.tasks
    → OneRunning sched
    → OneRunning (switched sched next_idx rsp)
switched-OneRunning sched next_idx rsp h v = record {
  current_in = omega (arith, length-switched sched next_idx rsp);
  running_is = λ i t e.
      let (t0, found, state) = switched-state sched next_idx rsp i t e in
      ground (arith, v.running_is i t0 found);
}
