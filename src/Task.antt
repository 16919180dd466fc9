-- ===== src/Task.antt =====
-- kernel/src/task.rs: cooperative tasks. The scheduler with its two statics, over the machine of
-- `r_os.Task.Context`, on which `spawn` lays out a stack and `yield_now` switches.
mod Context
pub mod Switch
pub mod Spawn
pub mod Search
pub mod Switched
pub mod Yield
pub mod Fair
mod Tests
pub use Context.{Cpu, Memory}
unfoldable pub use Context.{push_frame, pop_frame, switch_context, zero_stack, store_frame}
use r_os.Common.{
  ℕ, zero, suc, ◌+◌, ◌-◌, ◌*◌, ◌%◌, ◌^◌, Bool, true, false, not, Option, none, some, List, [], ◌∷◌,
  ◌++◌, leb, ◌==◌, if◌then◌else◌, length, get_elem?,
}
use Prim.Native.Nat.{bit_and}

pub data TaskState : Type 0 where
  ready running sleeping : TaskState

-- `context` is the saved stack pointer. Of the stack only its length is kept here, the bytes are
-- in the machine's memory.
pub record Task : Type 0 where
  pub id : ℕ
  pub context : ℕ
  pub stack_len : ℕ
  pub state : TaskState
  pub window_id : Option ℕ

pub record Scheduler : Type 0 where
  pub tasks : List Task
  pub current : ℕ
  pub next_id : ℕ

-- SCHEDULER, SCHEDULER_RUNNING, and the processor that runs the current task.
pub record Kernel : Type 0 where
  pub scheduler : Option Scheduler
  pub scheduler_running : Bool
  pub cpu : Cpu

unfoldable pub init : Kernel → Kernel
init k = record k { scheduler = some (record { tasks = []; current = 0; next_id = 0 }) }

abbrev pub task_stack_size : ℕ
task_stack_size = 64 * 1024

-- `(base + TASK_STACK_SIZE) & !0xF`
unfoldable pub stack_top : ℕ → ℕ
stack_top base = bit_and (base + task_stack_size) (2 ^ 64 - 1 - 0xf)

-- `base` is where the allocator has put the stack, `entry` the address of the task's function.
-- `none` is the panic of `expect`.
unfoldable pub spawn : Kernel → ℕ → ℕ → Option ℕ → Option (ℕ × Kernel)
spawn k base entry window_id = elim k.scheduler [
  | none ↦ none
  | some sched ↦
      let top = stack_top base in
      let task : Task = record {
        id = sched.next_id;
        context = top - 56;
        stack_len = task_stack_size;
        state = ready;
        window_id = window_id;
      } in
      some (
        sched.next_id,
        record k {
          scheduler =
              some
                (record sched { tasks = sched.tasks ++ (task ∷ []); next_id = sched.next_id + 1 });
          cpu = record k.cpu {
            mem = store_frame (zero_stack base task_stack_size k.cpu.mem) top entry;
          };
        },
      )
]

unfoldable pub current_window_id : Kernel → Option ℕ
current_window_id k = elim k.scheduler [
  | none ↦ none
  | some sched ↦ elim (get_elem? sched.tasks sched.current) [
    | none ↦ none
    | some task ↦ task.window_id
  ]
]

abbrev pub is_runnable : TaskState → Bool
is_runnable sleeping = false
is_runnable _ = true

-- The `for` loop of `yield_now` with its `break`: the index found, if one is.
unfoldable pub find_next : ℕ → List Task → ℕ → Option ℕ
find_next zero tasks next_idx = none
find_next (suc rounds) tasks next_idx =
    let rest = find_next rounds tasks ((next_idx + 1) % length tasks) in
    elim (get_elem? tasks next_idx) [
      | none ↦ none
      | some task ↦ if is_runnable task.state then some next_idx else rest
    ]

-- A write to one task of the list.
abbrev pub update_task : List Task → ℕ → (Task → Task) → List Task
update_task [] i f = []
update_task (t ∷ ts) zero f = f t ∷ ts
update_task (t ∷ ts) (suc i) f = t ∷ update_task ts i f

abbrev pub set_state : TaskState → Task → Task
set_state s t = record t { state = s }

abbrev pub set_context : ℕ → Task → Task
set_context rsp t = record t { context = rsp }

-- The switch from one task to another: the states, `current`, and the machine.
unfoldable pub switch_to : Kernel → Scheduler → ℕ → Task → Kernel
switch_to k sched next_idx next_task =
    let (cpu, rsp) = switch_context k.cpu next_task.context in
    let tasks =
      update_task (update_task sched.tasks sched.current (set_state ready)) next_idx
        (set_state running) in
    record k {
      scheduler = some (record sched {
        tasks = update_task tasks sched.current (set_context rsp);
        current = next_idx;
      });
      cpu = cpu;
    }

-- Up to the return of another task's `yield_now`, or the start of a new task.
unfoldable pub yield_now : Kernel → Kernel
yield_now k = if not k.scheduler_running then k else elim k.scheduler [
  | none ↦ k
  | some sched ↦
      let count = length sched.tasks in
      if leb count 1 then k else elim (find_next count sched.tasks ((sched.current + 1) % count)) [
        | none ↦ k
        | some next_idx ↦
            if next_idx == sched.current then k else elim (get_elem? sched.tasks next_idx) [
              | none ↦ k
              | some task ↦ switch_to k sched next_idx task
            ]
      ]
]

-- The first part of `run`: the running context becomes the idle task, at index 0.
unfoldable pub start : Kernel → Option Kernel
start k = elim k.scheduler [
  | none ↦ none
  | some sched ↦
      let idle : Task = record {
        id = sched.next_id;
        context = 0;
        stack_len = 0;
        state = running;
        window_id = none;
      } in
      some (record k {
        scheduler =
            some (record { tasks = idle ∷ sched.tasks; current = 0; next_id = sched.next_id + 1 });
        scheduler_running = true;
      })
]
