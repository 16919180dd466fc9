-- ===== src/Ring/Fifo.antt =====
-- The ring under every interleaving of one producer and one consumer.
use r_os.Common.{
  ℕ, ◌-◌, ◌≤◌, ◌<◌, ◌≡◌, refl, some, [], ◌∷◌, ◌++◌, append_assoc, arith, length, get_elem?, get_or,
  length-set, get_or-set_self, get_or-set_ne, get_elem?-eq-get_or,
}
use r_os.Ring.{RingBuffer, next_slot}
use r_os.Ring.Inv.{
  IsValid, used, window, contents, length-window, window_of_pos, empty_ring-IsValid, window-set_ne,
  window-suc_append,
}
use r_os.Ring.Spsc.{
  Producer, ready, written, Consumer, waiting, taken, System, Step, load_head, full, free, write,
  store_head, load_tail, none_left, some_left, read, store_tail, Reach, start, later,
}

module _ {A : Type 0} (blank : A) where
  -- What the locals of `push` say about the shared ring.
  abbrev ProducerFits : RingBuffer A → Producer A → Type 0
  ProducerFits r ready = Unit {0}
  ProducerFits r (Producer.loaded val head) = head ≡ r.head
  ProducerFits r (Producer.checked val head next) =
      (head ≡ r.head) × (next ≡ next_slot r.head) × (used r.head r.tail < 127)
  ProducerFits r (written val next) =
      (get_or r.slots r.head blank ≡ val) × (next ≡ next_slot r.head) × (used r.head r.tail < 127)

  -- What the locals of `pop` say.
  abbrev ConsumerFits : RingBuffer A → Consumer A → Type 0
  ConsumerFits r waiting = Unit {0}
  ConsumerFits r (Consumer.loaded tail) = tail ≡ r.tail
  ConsumerFits r (Consumer.checked tail) = (tail ≡ r.tail) × (0 < used r.head r.tail)
  ConsumerFits r (taken val tail) =
      (tail ≡ r.tail) × (0 < used r.head r.tail) × (get_or r.slots r.tail blank ≡ val)

  pub record Inv (s : System A) : Type 0 where
    pub valid : IsValid s.ring
    pub producer : ProducerFits s.ring s.producer
    pub consumer : ConsumerFits s.ring s.consumer
    pub history : s.returned ++ contents blank s.ring ≡ s.accepted

  Step-Inv : {s t : System A} → Step s t → Inv s → Inv t
  Step-Inv (load_head val e) inv = ground arith
  Step-Inv (full val head e g) inv = ground arith
  Step-Inv (free val head e g) inv = ground arith
  Step-Inv {s} (write val head next e) inv = ground (
    arith,
    length-set s.ring.slots head val,
    get_or-set_self s.ring.slots head val blank,
    get_or-set_ne s.ring.slots head s.ring.tail val blank,
    window-set_ne blank s.ring.slots val (used s.ring.head s.ring.tail) s.ring.tail head,
  )
  Step-Inv {s} (store_head val next e) inv = ground (
    arith,
    window-suc_append blank s.ring.slots (used s.ring.head s.ring.tail) s.ring.tail s.ring.head,
    append_assoc s.returned (contents blank s.ring) (val ∷ []),
  )
  Step-Inv (load_tail e) inv = ground arith
  Step-Inv (none_left tail e g) inv = ground arith
  Step-Inv (some_left tail e g) inv = ground arith
  Step-Inv {s} (read val tail e g) inv = ground (arith, get_elem?-eq-get_or s.ring.slots tail blank)
  Step-Inv {s} (store_tail val tail e) inv = ground (
    arith,
    window_of_pos blank s.ring.slots s.ring.tail (used s.ring.head s.ring.tail),
    append_assoc s.returned (val ∷ [])
        (window blank s.ring.slots (next_slot s.ring.tail) (used s.ring.head s.ring.tail - 1)),
  )

  Reach-Inv : {s : System A} → Reach blank s → Inv s
  Reach-Inv start = record {
    valid = empty_ring-IsValid blank;
    producer = tt;
    consumer = tt;
    history = refl;
  }
  Reach-Inv (later r st) = Step-Inv st (Reach-Inv r)

  -- In every state that the two threads can reach, in any interleaving, what `pop` has returned,
  -- followed by what the ring holds, is what `push` has accepted, in order: nothing is lost,
  -- repeated, reordered or torn. The ring never holds more than 127 entries.
  pub Reach-fifo :
      {s : System A}
      → Reach blank s
      → (s.returned ++ contents blank s.ring ≡ s.accepted) × (length (contents blank s.ring) ≤ 127)
  Reach-fifo {s} r =
      let inv = Reach-Inv r in
      (
        inv.history,
        omega (arith, length-window blank s.ring.slots s.ring.tail (used s.ring.head s.ring.tail)),
      )

  -- No interleaving makes `pop` read outside the buffer: about to read, it finds an entry.
  Reach-read :
      {s : System A} (tail : ℕ)
      → Reach blank s
      → s.consumer ≡ Consumer.checked tail
      → (val : A) × (get_elem? s.ring.slots tail ≡ some val)
  Reach-read {s} tail r e =
      let inv = Reach-Inv r in
      let (at, pending) : (tail ≡ s.ring.tail) × (0 < used s.ring.head s.ring.tail) =
        ground arith in
      (get_or s.ring.slots tail blank, get_elem?-eq-get_or s.ring.slots tail blank (ground arith))

  -- `push` gives an entry up only where the ring holds 127 at the moment of its second load.
  pub Step-full :
      {s : System A} (val : A) (head : ℕ)
      → Reach blank s
      → s.producer ≡ Producer.loaded val head
      → next_slot head ≡ s.ring.tail
      → length (contents blank s.ring) ≡ 127
  Step-full {s} val head r e g =
      let inv = Reach-Inv r in
      ground (arith, length-window blank s.ring.slots s.ring.tail (used s.ring.head s.ring.tail))
