-- ===== src/Task/Tests.antt =====
-- Three tasks, spawned and started as `kernel_main` does, and the theorems on them.
use r_os.Common.{
  ℕ, zero, suc, ◌+◌, ◌-◌, ◌%◌, ◌<◌, ◌≡◌, refl, ◌⊎◌, inl, inr, false, none, some, [], ◌∷◌, ◌++◌,
  arith, length, get_elem?,
}
use r_os.Task.{
  Cpu, push_frame, switch_context, store_frame, Task, ready, Scheduler, Kernel, stack_top, spawn,
  start,
}
use r_os.Task.Switch.{SameRegisters, switch_context-restores}
use r_os.Task.Spawn.{at_entry, IsLaid, new_task, spawn-appends, spawn-enters}
use r_os.Task.Yield.{Goes, Stays, yield_now-round_robin}
use r_os.Task.Fair.{IsStarted, Turn, yields, yields-Turn, start-Turn}

abbrev cold : Cpu
cold = record {
  rsp = 0x8000;
  rbp = 1;
  rbx = 2;
  r12 = 3;
  r13 = 4;
  r14 = 5;
  r15 = 6;
  rip = 0x100;
  mem = λ a. 0;
}

-- A machine on another stack, which keeps the memory that `cold` leaves.
abbrev elsewhere : Cpu
elsewhere = record cold { rsp = 0x20000; rip = 0x200; mem = (push_frame cold).mem }

abbrev spawned : Scheduler
spawned = record {
  tasks =
      new_task 0 0x100000 (some 0)
      ∷ new_task 1 0x200000 (some 1)
      ∷ new_task 2 0x300000 (some 2)
      ∷ [];
  current = 0;
  next_id = 3;
}

abbrev booted : Kernel
booted = record { scheduler = some spawned; scheduler_running = false; cpu = cold }

switch_context-restores_example :
    SameRegisters (switch_context elsewhere (switch_context cold 0x9000).1).0 cold
switch_context-restores_example =
    switch_context-restores cold elsewhere 0x9000 (omega arith) (omega arith) (inr (omega arith))
      (λ a lo hi. refl)

spawn-appends_example :
    (k' : Kernel) × (spawn booted 0x100000 0x400 none ≡ some (3, k'))
    × (k'.scheduler
        ≡ some (record {
          tasks = spawned.tasks ++ (new_task 3 0x100000 none ∷ []);
          current = 0;
          next_id = 4;
        }))
    × (k'.scheduler_running ≡ false)
    × (k'.cpu ≡ record cold { mem = k'.cpu.mem })
    × IsLaid 0x100000 0x400 cold.mem k'.cpu.mem
spawn-appends_example = spawn-appends booted spawned 0x100000 0x400 none refl (omega arith)

-- A stack whose base is no multiple of 16.
abbrev entering : Cpu
entering = record cold { mem = store_frame cold.mem (stack_top 0x100008) 0x400 }

spawn-enters_example :
    SameRegisters
      (switch_context entering (stack_top 0x100008 - 56)).0
      (at_entry (stack_top 0x100008) 0x400 cold.mem)
spawn-enters_example =
    spawn-enters 0x100008 0x400 cold.mem entering (omega arith) (omega arith) (inl (omega arith))
      refl

ready_tasks : (i : ℕ) (t : Task) → get_elem? spawned.tasks i ≡ some t → t.state ≡ ready
ready_tasks zero t e = ground arith
ready_tasks (suc zero) t e = ground arith
ready_tasks (suc (suc zero)) t e = ground arith
ready_tasks (suc (suc (suc i))) t e = cc

start-Turn_example :
    (k' : Kernel) × (start booted ≡ some k') × IsStarted booted spawned k' × Turn k' 4 0
start-Turn_example = start-Turn booted spawned refl (omega arith) ready_tasks

abbrev running_kernel : Kernel
running_kernel = (start-Turn booted spawned refl (omega arith) ready_tasks).0

first_turn : Turn running_kernel 4 0
first_turn = (start-Turn booted spawned refl (omega arith) ready_tasks).3

yields-Turn_example : Turn (yields 6 running_kernel) 4 ((0 + 6) % 4)
yields-Turn_example = yields-Turn 6 running_kernel 4 0 first_turn

yield_now-round_robin_example :
    ((d : ℕ) × (suc d < length first_turn.sched.tasks) × Goes running_kernel first_turn.sched d)
    ⊎ Stays running_kernel first_turn.sched
yield_now-round_robin_example =
    yield_now-round_robin running_kernel first_turn.sched first_turn.up first_turn.on first_turn.one
      (omega (arith, first_turn.many))
