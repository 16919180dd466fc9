-- ===== src/Ring/Tests.antt =====
-- Runs of the ring buffer, and its theorems at concrete rings.
use r_os.Common.{ℕ, ◌≤◌, ◌≡◌, refl, [], ◌∷◌, ◌++◌, arith, length, set, replicate}
use r_os.Ring.{RingBuffer, empty_ring, push, pop}
use r_os.Ring.Queue.{enqueue, dequeue}
use r_os.Ring.Inv.{IsValid, contents}
use r_os.Ring.Refine.{push_refines, pop_refines}
use r_os.Ring.Spsc.{
  System, Reach, start, later, load_head, free, write, store_head, load_tail, some_left,
}
use r_os.Ring.Fifo.{Reach-fifo}

abbrev fresh : RingBuffer ℕ
fresh = empty_ring 0

-- Head and tail near the end of the buffer, with two entries that go round it.
abbrev wrapping : RingBuffer ℕ
wrapping = record { slots = set (set (replicate 128 0) 127 8) 0 9; head = 1; tail = 127 }

wrapping-IsValid : IsValid wrapping
wrapping-IsValid = record { size = refl; head_in = omega arith; tail_in = omega arith }

contents-wrapping : contents 0 wrapping ≡ 8 ∷ 9 ∷ []
contents-wrapping = refl

push_refines_example : contents 0 (push wrapping 5) ≡ enqueue (8 ∷ 9 ∷ []) 5
push_refines_example = push_refines 0 wrapping wrapping-IsValid 5

pop_refines_example : let (out, r) = pop wrapping in (out, contents 0 r) ≡ dequeue (8 ∷ 9 ∷ [])
pop_refines_example = pop_refines 0 wrapping wrapping-IsValid

-- A push runs to its end, then a pop reaches its read.
abbrev reading : (s : System ℕ) × Reach 0 s
reading = (
  _,
  later
      (later
        (later
          (later (later (later (start) (load_head 7 refl)) (free 7 0 refl (omega arith)))
            (write 7 0 1 refl))
          (store_head 7 1 refl))
        (load_tail refl))
      (some_left 0 refl (omega arith)),
)

Reach-fifo_example :
    ([] ++ contents 0 reading.0.ring ≡ 7 ∷ []) × (length (contents 0 reading.0.ring) ≤ 127)
Reach-fifo_example = Reach-fifo 0 reading.1
