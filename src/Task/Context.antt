-- ===== src/Task/Context.antt =====
-- The machine that a context switch works on: the stack pointer, the registers that a call
-- preserves, the instruction pointer, and memory by 8-byte words; and `switch_context` of
-- kernel/src/task.rs, an instruction at a time.
use r_os.Common.{ℕ, ◌+◌, ◌-◌, ◌&&◌, leb, ◌==◌, if◌then◌else◌}

abbrev pub Memory : Type 0
Memory = ℕ → ℕ

pub record Cpu : Type 0 where
  pub rsp : ℕ
  pub rbp : ℕ
  pub rbx : ℕ
  pub r12 : ℕ
  pub r13 : ℕ
  pub r14 : ℕ
  pub r15 : ℕ
  pub rip : ℕ
  pub mem : Memory

abbrev pub update : Memory → ℕ → ℕ → Memory
update mem addr v a = if addr == a then v else mem a

-- `push`: the pointer goes down by 8, then the word is stored. A stack does not begin at 0.
abbrev pub push_word : ℕ → Cpu → Cpu
push_word v c = record c { rsp = c.rsp - 8; mem = update c.mem (c.rsp - 8) v }

-- `pop`
abbrev pub pop_word : Cpu → ℕ × Cpu
pop_word c = (c.mem c.rsp, record c { rsp = c.rsp + 8 })

-- The call pushes the return address, and the first instructions six registers.
unfoldable pub push_frame : Cpu → Cpu
push_frame c = push_word c.r15 (
    push_word c.r14
      (push_word c.r13 (push_word c.r12 (push_word c.rbx (push_word c.rbp (push_word c.rip c))))))

-- The last instructions pop them in the other order, and `ret` takes the return address.
unfoldable pub pop_frame : Cpu → Cpu
pop_frame c =
    let (r15, c1) = pop_word c in
    let (r14, c2) = pop_word c1 in
    let (r13, c3) = pop_word c2 in
    let (r12, c4) = pop_word c3 in
    let (rbx, c5) = pop_word c4 in
    let (rbp, c6) = pop_word c5 in
    let (rip, c7) = pop_word c6 in
    record c7 { rbp = rbp; rbx = rbx; r12 = r12; r13 = r13; r14 = r14; r15 = r15; rip = rip }

-- Returns the machine behind `ret`, and the stack pointer that went to `[rdi]`.
unfoldable pub switch_context : Cpu → ℕ → Cpu × ℕ
switch_context c new =
    let saved = push_frame c in (pop_frame (record saved { rsp = new }), saved.rsp)

-- `vec![0u8; len]` at `base`: the words of the new stack are zero.
unfoldable pub zero_stack : ℕ → ℕ → Memory → Memory
zero_stack base len mem a = if leb base a && leb (a + 8) (base + len) then 0 else mem a

-- The initial frame that `spawn` writes below the top of a stack.
unfoldable pub store_frame : Memory → ℕ → ℕ → Memory
store_frame mem top entry =
    update
      (update
        (update
          (update (update (update (update mem (top - 8) entry) (top - 16) 0) (top - 24) 0)
            (top - 32) 0)
          (top - 40) 0)
        (top - 48) 0)
      (top - 56) 0
