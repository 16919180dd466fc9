-- ===== src/Ring/Refine.antt =====
-- The ring against the bounded queue of the entries that it holds.
use r_os.Common.{◌≡◌, arith, get_elem?-eq-get_or}
use r_os.Ring.{RingBuffer, push, pop}
use r_os.Ring.Queue.{enqueue, dequeue}
use r_os.Ring.Inv.{IsValid, used, contents, length-window, window-set_end, window_of_pos}

module _ {A : Type 0} (blank : A) (r : RingBuffer A) (valid : IsValid r) where
  -- On a valid ring `push` appends the entry if fewer than 127 are held, and changes nothing else.
  pub push_refines : (v : A) → contents blank (push r v) ≡ enqueue (contents blank r) v
  unfolding push enqueue
  push_refines v = ground (
    arith,
    length-window blank r.slots r.tail (used r.head r.tail),
    window-set_end blank r.slots v (used r.head r.tail) r.tail r.head,
  )

  -- On a valid ring `pop` returns and removes the oldest entry, or `none` exactly if there is none.
  pub pop_refines : let (out, r') = pop r in (out, contents blank r') ≡ dequeue (contents blank r)
  unfolding pop dequeue
  pop_refines = ground (
    arith,
    window_of_pos blank r.slots r.tail (used r.head r.tail),
    get_elem?-eq-get_or r.slots r.tail blank,
  )
