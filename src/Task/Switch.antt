-- ===== src/Task/Switch.antt =====
-- The frame that a context switch saves, and what a switch to it restores.
use r_os.Common.{ℕ, zero, suc, ◌+◌, ◌-◌, ◌*◌, ◌≤◌, ◌<◌, ◌≡◌, ap, ◌∙◌, ◌⊎◌, arith}
use r_os.Task.Context.{Cpu, Memory, push_frame, pop_frame, switch_context}

-- The frame of seven words from `rsp` up, as a switch saves it for a task that goes on as `c`.
pub record Holds (mem : Memory) (rsp : ℕ) (c : Cpu) : Type 0 where
  pub r15_at : mem rsp ≡ c.r15
  pub r14_at : mem (rsp + 8) ≡ c.r14
  pub r13_at : mem (rsp + 16) ≡ c.r13
  pub r12_at : mem (rsp + 24) ≡ c.r12
  pub rbx_at : mem (rsp + 32) ≡ c.rbx
  pub rbp_at : mem (rsp + 40) ≡ c.rbp
  pub rip_at : mem (rsp + 48) ≡ c.rip
  pub top : rsp + 56 ≡ c.rsp

-- Two machines that go on alike, whatever their memories.
abbrev pub SameRegisters : Cpu → Cpu → Type 0
SameRegisters a b =
    (a.rsp ≡ b.rsp)
    × (a.rip ≡ b.rip)
    × (a.rbp ≡ b.rbp)
    × (a.rbx ≡ b.rbx)
    × (a.r12 ≡ b.r12)
    × (a.r13 ≡ b.r13)
    × (a.r14 ≡ b.r14)
    × (a.r15 ≡ b.r15)

-- The memory `after` agrees with `before` on the frame from `rsp` up.
abbrev pub KeepsFrame : ℕ → Memory → Memory → Type 0
KeepsFrame rsp before after = (a : ℕ) → rsp ≤ a → a < rsp + 56 → after a ≡ before a

push_frame-rsp : (c : Cpu) → (push_frame c).rsp ≡ c.rsp - 56
unfolding push_frame
push_frame-rsp c = omega arith

push_frame-Holds : (c : Cpu) → 56 ≤ c.rsp → Holds (push_frame c).mem (push_frame c).rsp c
unfolding push_frame
push_frame-Holds c h = record {
  r15_at = ground arith;
  r14_at = ground arith;
  r13_at = ground arith;
  r12_at = ground arith;
  rbx_at = ground arith;
  rbp_at = ground arith;
  rip_at = ground arith;
  top = omega arith;
}

push_frame-outside :
    (c : Cpu) (a : ℕ) → 56 ≤ c.rsp → (a < c.rsp - 56) ⊎ (c.rsp ≤ a) → (push_frame c).mem a ≡ c.mem a
unfolding push_frame
push_frame-outside c a h out = ground arith

Holds-keeps :
    (before after : Memory) (rsp : ℕ) (c : Cpu)
    → Holds before rsp c
    → KeepsFrame rsp before after
    → Holds after rsp c
Holds-keeps before after rsp c h keeps = record {
  r15_at = keeps rsp (omega arith) (omega arith) ∙ h.r15_at;
  r14_at = keeps (rsp + 8) (omega arith) (omega arith) ∙ h.r14_at;
  r13_at = keeps (rsp + 16) (omega arith) (omega arith) ∙ h.r13_at;
  r12_at = keeps (rsp + 24) (omega arith) (omega arith) ∙ h.r12_at;
  rbx_at = keeps (rsp + 32) (omega arith) (omega arith) ∙ h.rbx_at;
  rbp_at = keeps (rsp + 40) (omega arith) (omega arith) ∙ h.rbp_at;
  rip_at = keeps (rsp + 48) (omega arith) (omega arith) ∙ h.rip_at;
  top = h.top;
}

pop_frame-Holds : (m c : Cpu) → Holds m.mem m.rsp c → SameRegisters (pop_frame m) c
unfolding pop_frame
pop_frame-Holds m c h = ground (
  arith,
  ap m.mem (plus 1),
  ap m.mem (plus 2),
  ap m.mem (plus 3),
  ap m.mem (plus 4),
  ap m.mem (plus 5),
  ap m.mem (plus 6),
)
  where
    chain : ℕ → ℕ
    chain zero = m.rsp
    chain (suc n) = chain n + 8

    plus : (n : ℕ) → chain n ≡ m.rsp + 8 * n
    plus zero = omega arith
    plus (suc n) = omega (arith, plus n)

-- Switching to a saved frame, which the switch's own frame does not overlap, goes on as the task
-- that the frame was saved for.
pub switch_context-Holds :
    (other c : Cpu) (rsp : ℕ)
    → 56 ≤ other.rsp
    → (other.rsp ≤ rsp) ⊎ (rsp + 56 ≤ other.rsp - 56)
    → Holds other.mem rsp c
    → SameRegisters (switch_context other rsp).0 c
unfolding switch_context
switch_context-Holds other c rsp h apart holds =
    pop_frame-Holds (record (push_frame other) { rsp = rsp }) c
      (Holds-keeps other.mem (push_frame other).mem rsp c holds
        (λ a lo hi. push_frame-outside other a h (omega arith)))

-- A task that has switched away goes on, when a task on another stack switches back to it, at its
-- return address, with its stack pointer and its six registers as they were, if nothing has
-- written to its saved frame in between and both stacks have room for a frame.
pub switch_context-restores :
    (c other : Cpu) (new : ℕ)
    → 56 ≤ c.rsp
    → 56 ≤ other.rsp
    → (other.rsp ≤ c.rsp - 56) ⊎ (c.rsp ≤ other.rsp - 56)
    → KeepsFrame (switch_context c new).1 (push_frame c).mem other.mem
    → SameRegisters (switch_context other (switch_context c new).1).0 c
unfolding switch_context
switch_context-restores c other new h ho apart keeps =
    switch_context-Holds other c (push_frame c).rsp ho (omega (arith, push_frame-rsp c))
      (Holds-keeps (push_frame c).mem other.mem (push_frame c).rsp c (push_frame-Holds c h) keeps)
