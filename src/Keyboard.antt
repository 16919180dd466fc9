-- ===== src/Keyboard.antt =====
-- kernel/src/keyboard.rs: scancodes from the interrupt handler to decoded keys. The ring is
-- `r_os.Ring`. The decoder of the crate pc_keyboard is a parameter.
pub mod Read
pub mod Tests
use r_os.Common.{ℕ, zero, suc, Option, none, some}
use r_os.Ring.{RingBuffer, empty_ring, push, pop}

-- What `Keyboard::add_byte` returns: Err, or Ok of an optional key event.
pub data ByteResult (E : Type 0) : Type 0 where
  err : ByteResult E
  ok : Option E → ByteResult E

-- The part of pc_keyboard that the kernel calls: a decoder with a state of its own.
pub record Decoder : Type 1 where
  pub State : Type 0
  pub KeyEvent : Type 0
  pub DecodedKey : Type 0
  pub add_byte : State → ℕ → ByteResult KeyEvent × State
  pub process_keyevent : State → KeyEvent → Option DecodedKey × State

-- SCANCODE_QUEUE
abbrev pub scancode_queue : RingBuffer ℕ
scancode_queue = empty_ring 0

unfoldable pub add_scancode : RingBuffer ℕ → ℕ → RingBuffer ℕ
unfolding push
add_scancode queue scancode = push queue scancode

module _ (d : Decoder) where
  open d use {State, KeyEvent, DecodedKey, add_byte, process_keyevent}

  -- The body of the loop behind its `pop`: a key, if the scancode completes one.
  unfoldable pub feed : State → ℕ → Option DecodedKey × State
  feed kb scancode =
      let (res, kb') = add_byte kb scancode in
      elim res [
        | err ↦ (none, kb')
        | ok none ↦ (none, kb')
        | ok (some event) ↦ process_keyevent kb' event
      ]

  -- The loop on fuel: `none` means that the fuel ran out.
  unfoldable pub try_read_key :
      ℕ → RingBuffer ℕ → State → Option (Option DecodedKey × RingBuffer ℕ × State)
  try_read_key zero queue kb = none
  try_read_key (suc fuel) queue kb =
      let (code, queue') = pop queue in
      elim code [
        | none ↦ some (none, queue', kb)
        | some scancode ↦
            let (key, kb') = feed kb scancode in
            elim key [ none ↦ try_read_key fuel queue' kb' | some k ↦ some (some k, queue', kb') ]
      ]
