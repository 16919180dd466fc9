-- ===== src/Task/Spawn.antt =====
-- What `spawn` adds, and how a new task begins.
use r_os.Common.{
  ℕ, ◌+◌, ◌-◌, ◌%◌, ◌^◌, ◌≤◌, ◌<◌, ◌≡◌, refl, ◌∙◌, ◌⊎◌, inl, inr, Option, some, [], ◌∷◌, ◌++◌,
  arith,
}
use r_os.Common.Bits.{bit_and-paragraph}
use r_os.Task.{
  Cpu, Memory, zero_stack, store_frame, switch_context, Task, ready, Scheduler, Kernel, stack_top,
  task_stack_size, spawn,
}
use r_os.Task.Switch.{Holds, SameRegisters, switch_context-Holds}

-- The machine at the first instruction of a task.
abbrev pub at_entry : ℕ → ℕ → Memory → Cpu
at_entry top entry mem = record {
  rsp = top;
  rbp = 0;
  rbx = 0;
  r12 = 0;
  r13 = 0;
  r14 = 0;
  r15 = 0;
  rip = entry;
  mem = mem;
}

-- The top is a multiple of 16 in the last 16 bytes of the stack, and the frame below it lies in
-- the stack.
pub stack_top_bounds :
    (base : ℕ)
    → base + task_stack_size < 2 ^ 64
    → (stack_top base % 16 ≡ 0)
      × (base ≤ stack_top base - 56)
      × (56 ≤ stack_top base)
      × (stack_top base ≤ base + task_stack_size)
unfolding stack_top
stack_top_bounds base h = omega (arith, bit_and-paragraph (base + task_stack_size))

store_frame-Holds :
    (mem : Memory) (top entry : ℕ)
    → 56 ≤ top
    → Holds (store_frame mem top entry) (top - 56) (at_entry top entry mem)
unfolding store_frame
store_frame-Holds mem top entry h = record {
  r15_at = ground arith;
  r14_at = ground arith;
  r13_at = ground arith;
  r12_at = ground arith;
  rbx_at = ground arith;
  rbp_at = ground arith;
  rip_at = ground arith;
  top = omega arith;
}

-- The task that `spawn` makes.
abbrev pub new_task : ℕ → ℕ → Option ℕ → Task
new_task id base window_id = record {
  id = id;
  context = stack_top base - 56;
  stack_len = task_stack_size;
  state = ready;
  window_id = window_id;
}

-- The memory with a new stack: its frame, zeros in the rest, and all else as it was.
pub record IsLaid (base entry : ℕ) (mem mem' : Memory) : Type 0 where
  pub frame : Holds mem' (stack_top base - 56) (at_entry (stack_top base) entry mem)
  pub within : (base ≤ stack_top base - 56) × (stack_top base ≤ base + task_stack_size)
  pub zeros : (a : ℕ) → base ≤ a → a < stack_top base - 56 → mem' a ≡ 0
  pub others : (a : ℕ) → (a < base) ⊎ (base + task_stack_size ≤ a) → mem' a ≡ mem a

store_frame-outside :
    (mem : Memory) (top entry a : ℕ)
    → 56 ≤ top
    → (a < top - 56) ⊎ (top ≤ a)
    → store_frame mem top entry a ≡ mem a
unfolding store_frame
store_frame-outside mem top entry a h out = ground arith

store_frame-IsLaid :
    (base entry : ℕ) (mem : Memory)
    → base + task_stack_size < 2 ^ 64
    → IsLaid base entry mem
        (store_frame (zero_stack base task_stack_size mem) (stack_top base) entry)
unfolding zero_stack
store_frame-IsLaid base entry mem h =
    let bounds = stack_top_bounds base h in
    let top : ℕ = stack_top base in
    let zeroed : Memory = zero_stack base task_stack_size mem in
    let f = store_frame-Holds zeroed top entry (omega (arith, bounds)) in
    record {
      frame = record {
        r15_at = f.r15_at;
        r14_at = f.r14_at;
        r13_at = f.r13_at;
        r12_at = f.r12_at;
        rbx_at = f.rbx_at;
        rbp_at = f.rbp_at;
        rip_at = f.rip_at;
        top = f.top;
      };
      within = (omega (arith, bounds), omega (arith, bounds));
      zeros = λ a lo hi.
          store_frame-outside zeroed top entry a (omega (arith, bounds)) (inl hi)
          ∙ zeroed_in a lo (omega (arith, bounds));
      others = λ a out.
          store_frame-outside zeroed top entry a (omega (arith, bounds)) (apart a out)
          ∙ zeroed_out a out;
    }
  where
    zeroed_in :
        (a : ℕ)
        → base ≤ a
        → a + 8 ≤ base + task_stack_size
        → zero_stack base task_stack_size mem a ≡ 0
    zeroed_in a lo hi = ground arith

    zeroed_out :
        (a : ℕ)
        → (a < base) ⊎ (base + task_stack_size ≤ a)
        → zero_stack base task_stack_size mem a ≡ mem a
    zeroed_out a out = ground arith

    apart :
        (a : ℕ)
        → (a < base) ⊎ (base + task_stack_size ≤ a)
        → (a < stack_top base - 56) ⊎ (stack_top base ≤ a)
    apart a (inl lo) = inl (omega (arith, stack_top_bounds base h))
    apart a (inr hi) = inr (omega (arith, stack_top_bounds base h))

-- Behind `init`, with a stack that ends below 2^64, `spawn` returns the next id and appends one
-- ready task with that id and its window, which is to go on at the frame in its stack; the other
-- tasks, the current one and the registers stay. In memory the new stack is zero but for the frame,
-- which holds the address of the function and zeros for the registers, and no word outside the stack
-- changes.
pub spawn-appends :
    (k : Kernel) (sched : Scheduler) (base entry : ℕ) (window_id : Option ℕ)
    → k.scheduler ≡ some sched
    → base + task_stack_size < 2 ^ 64
    → (k' : Kernel) × (spawn k base entry window_id ≡ some (sched.next_id, k'))
      × (k'.scheduler
          ≡ some (record {
            tasks = sched.tasks ++ (new_task sched.next_id base window_id ∷ []);
            current = sched.current;
            next_id = sched.next_id + 1;
          }))
      × (k'.scheduler_running ≡ k.scheduler_running)
      × (k'.cpu ≡ record k.cpu { mem = k'.cpu.mem })
      × IsLaid base entry k.cpu.mem k'.cpu.mem
unfolding spawn
spawn-appends k sched base entry window_id up h = (
  record k {
    scheduler = some (record {
      tasks = sched.tasks ++ (new_task sched.next_id base window_id ∷ []);
      current = sched.current;
      next_id = sched.next_id + 1;
    });
    cpu = record k.cpu {
      mem = store_frame (zero_stack base task_stack_size k.cpu.mem) (stack_top base) entry;
    };
  },
  rw (up, spawn) refl,
  refl,
  refl,
  refl,
  store_frame-IsLaid base entry k.cpu.mem h,
)

-- The first switch to a new task enters its function with the stack pointer at the aligned top
-- of its stack and the saved registers zero, if the stack ends below 2^64, the switch comes
-- from another stack with room for a frame, and the memory is as `spawn` has left it.
pub spawn-enters :
    (base entry : ℕ) (mem : Memory) (other : Cpu)
    → base + task_stack_size < 2 ^ 64
    → 56 ≤ other.rsp
    → (other.rsp ≤ base) ⊎ (base + task_stack_size ≤ other.rsp - 56)
    → other.mem ≡ store_frame mem (stack_top base) entry
    → SameRegisters
        (switch_context other (stack_top base - 56)).0
        (at_entry (stack_top base) entry mem)
spawn-enters base entry mem other fits h apart e =
    switch_context-Holds other (at_entry (stack_top base) entry mem) (stack_top base - 56) h
      (omega (arith, stack_top_bounds base fits))
      (rw e
        (store_frame-Holds mem (stack_top base) entry (omega (arith, stack_top_bounds base fits))))
