-- ===== src/Ring.antt =====
-- The lock-free ring buffer of kernel/src/keyboard.rs and kernel/src/mouse.rs. The two copies
-- differ only in the type of an entry, which is a parameter here.
pub mod Queue
pub mod Inv
pub mod Refine
pub mod Spsc
pub mod Fifo
mod Tests
use r_os.Common.{
  ℕ, ◌+◌, ◌%◌, Option, none, some, List, set, get_elem?, replicate, ◌==◌, if◌then◌else◌,
}

-- BUF_SIZE
abbrev pub buf_size : ℕ
buf_size = 128

-- The slot behind slot `i`.
abbrev pub next_slot : ℕ → ℕ
next_slot i = (i + 1) % buf_size

pub record RingBuffer (A : Type 0) : Type 0 where
  pub slots : List A
  pub head : ℕ
  pub tail : ℕ

module _ {A : Type 0} where
  -- The static initialiser of the two queues.
  abbrev pub empty_ring : A → RingBuffer A
  empty_ring blank = record { slots = replicate buf_size blank; head = 0; tail = 0 }

  -- A full buffer drops the entry.
  unfoldable pub push : RingBuffer A → A → RingBuffer A
  push r val =
      if next_slot r.head == r.tail
      then r
      else record { slots = set r.slots r.head val; head = next_slot r.head; tail = r.tail }

  -- Outside the buffer the read is `none`, where the code panics.
  unfoldable pub pop : RingBuffer A → Option A × RingBuffer A
  pop r =
      if r.tail == r.head
      then (none, r)
      else (get_elem? r.slots r.tail, record r { tail = next_slot r.tail })
