-- ===== src/Keyboard/Read.antt =====
-- `try_read_key` against the list of scancodes in the ring.
use r_os.Common.{
  ℕ, zero, suc, ◌<◌, ◌≡◌, refl, ap, ◌∙◌, inl, inr, Option, none, some, List, [], ◌∷◌, arith,
  Option-cases, length,
}
use r_os.Ring.{RingBuffer, pop, buf_size}
use r_os.Ring.Queue.{dequeue}
use r_os.Ring.Inv.{IsValid, used, contents, length-window, pop-IsValid}
use r_os.Ring.Refine.{pop_refines}
use r_os.Keyboard.{Decoder, feed, try_read_key}

pop_view :
    (queue : RingBuffer ℕ) (codes : List ℕ)
    → IsValid queue
    → contents 0 queue ≡ codes
    → ((pop queue).0 ≡ (dequeue codes).0) × (contents 0 (pop queue).1 ≡ (dequeue codes).1)
pop_view queue codes v e = (
  ap (λ p. p.0) (pop_refines 0 queue v ∙ ap dequeue e),
  ap (λ p. p.1) (pop_refines 0 queue v ∙ ap dequeue e),
)

module _ (d : Decoder) where
  open d use {State, DecodedKey}

  -- The first key of a list of scancodes, what is left of the list, and the decoder behind it.
  unfoldable pub first_key : List ℕ → State → Option DecodedKey × List ℕ × State
  first_key [] kb = (none, [], kb)
  first_key (c ∷ q) kb =
      let (key, kb') = feed d kb c in
      elim key [ none ↦ first_key q kb' | some k ↦ (some k, q, kb') ]

  -- A run that ends, with a result that shows the same as `view`.
  abbrev pub Reads :
      Option (Option DecodedKey × RingBuffer ℕ × State)
      → Option DecodedKey × List ℕ × State
      → Type 0
  Reads none view = ⊥
  Reads (some (key, queue, kb)) view = ((key, contents 0 queue, kb) ≡ view) × IsValid queue

  read_loop :
      (fuel : ℕ) (codes : List ℕ) (queue : RingBuffer ℕ) (kb : State)
      → IsValid queue
      → contents 0 queue ≡ codes
      → length codes < fuel
      → Reads (try_read_key d fuel queue kb) (first_key codes kb)
  unfolding try_read_key first_key dequeue
  read_loop zero codes queue kb v e h = absurd (omega arith)
  read_loop (suc fuel) [] queue kb v e h =
      let (out, left) = pop_view queue [] v e in
      rw (out, try_read_key) (ap (λ l. (none, l, kb)) left, pop-IsValid queue v)
  read_loop (suc fuel) (c ∷ codes) queue kb v e h =
      let (out, left) = pop_view queue (c ∷ codes) v e in
      rw (out, try_read_key)
        (elim (Option-cases (feed d kb c).0) [
          | inl skipped ↦
              rw (skipped, try_read_key, first_key)
                (read_loop fuel codes (pop queue).1 (feed d kb c).1 (pop-IsValid queue v) left
                  (omega arith))
          | inr (k, done) ↦
              rw (done, try_read_key, first_key)
                (ap (λ l. (some k, l, (feed d kb c).1)) left, pop-IsValid queue v)
        ])

  -- On a valid ring `try_read_key` ends: as many rounds as the buffer has slots are enough. It returns the first
  -- key that the scancodes in the ring complete, has removed exactly the scancodes up to that
  -- one, all of them if there is no key, and has fed just these to the decoder, in order.
  pub try_read_key-Reads :
      (queue : RingBuffer ℕ) (kb : State)
      → IsValid queue
      → Reads (try_read_key d buf_size queue kb) (first_key (contents 0 queue) kb)
  try_read_key-Reads queue kb v =
      read_loop buf_size (contents 0 queue) queue kb v refl
        (omega (arith, length-window 0 queue.slots queue.tail (used queue.head queue.tail)))
