-- ===== src/Ring/Spsc.antt =====
-- One producer (the interrupt handler) and one consumer (the task) on one ring, an access to the
-- shared memory at a time. The atomics are taken as sequentially consistent.
use r_os.Common.{ℕ, ◌≡◌, ◌≢◌, some, List, [], ◌∷◌, ◌++◌, get_elem?, set}
use r_os.Ring.{RingBuffer, next_slot, empty_ring}

-- Where `push` stands, with its live local variables.
pub data Producer (A : Type 0) : Type 0 where
  ready : Producer A
  loaded : (val : A) (head : ℕ) → Producer A
  checked : (val : A) (head next : ℕ) → Producer A
  written : (val : A) (next : ℕ) → Producer A

-- Where `pop` stands.
pub data Consumer (A : Type 0) : Type 0 where
  waiting : Consumer A
  loaded : (tail : ℕ) → Consumer A
  checked : (tail : ℕ) → Consumer A
  taken : (val : A) (tail : ℕ) → Consumer A

-- The shared ring, both threads, and the history: the entries accepted, and those returned.
pub record System (A : Type 0) : Type 0 where
  pub ring : RingBuffer A
  pub producer : Producer A
  pub consumer : Consumer A
  pub accepted : List A
  pub returned : List A

abbrev pub boot : {A : Type 0} → A → System A
boot blank = record {
  ring = empty_ring blank;
  producer = ready;
  consumer = waiting;
  accepted = [];
  returned = [];
}

-- The handler may call `push` with any entry and the task may call `pop`, at any time.
pub data Step {A : Type 0} (s : System A) : System A → Type 0 where
  load_head :
      (val : A) → s.producer ≡ ready → Step s (record s { producer = loaded val s.ring.head })
  full :
      (val : A) (head : ℕ)
      → s.producer ≡ loaded val head
      → next_slot head ≡ s.ring.tail
      → Step s (record s { producer = ready })
  free :
      (val : A) (head : ℕ)
      → s.producer ≡ loaded val head
      → next_slot head ≢ s.ring.tail
      → Step s (record s { producer = checked val head (next_slot head) })
  write :
      (val : A) (head next : ℕ)
      → s.producer ≡ checked val head next
      → Step s (record s {
        ring = record { slots = set s.ring.slots head val; head = s.ring.head; tail = s.ring.tail };
        producer = written val next;
      })
  store_head :
      (val : A) (next : ℕ)
      → s.producer ≡ written val next
      → Step s (record s {
        ring = record { slots = s.ring.slots; head = next; tail = s.ring.tail };
        producer = ready;
        accepted = s.accepted ++ (val ∷ []);
      })
  load_tail : s.consumer ≡ waiting → Step s (record s { consumer = loaded s.ring.tail })
  none_left :
      (tail : ℕ)
      → s.consumer ≡ loaded tail
      → tail ≡ s.ring.head
      → Step s (record s { consumer = waiting })
  some_left :
      (tail : ℕ)
      → s.consumer ≡ loaded tail
      → tail ≢ s.ring.head
      → Step s (record s { consumer = checked tail })
  read :
      (val : A) (tail : ℕ)
      → s.consumer ≡ checked tail
      → get_elem? s.ring.slots tail ≡ some val
      → Step s (record s { consumer = taken val tail })
  store_tail :
      (val : A) (tail : ℕ)
      → s.consumer ≡ taken val tail
      → Step s (record s {
        ring = record { slots = s.ring.slots; head = s.ring.head; tail = next_slot tail };
        consumer = waiting;
        returned = s.returned ++ (val ∷ []);
      })

pub data Reach {A : Type 0} (blank : A) : System A → Type 0 where
  start : Reach blank (boot blank)
  later : {s t : System A} → Reach blank s → Step s t → Reach blank t
