-- ===== src/Mouse/Stream.antt =====
-- Any sequence of interrupts: the machine as a parser of the byte stream.
use r_os.Common.{ℕ, ◌≤◌, ◌<◌, ◌≡◌, refl, true, false, ◌||◌, List, [], ◌∷◌, arith, All}
use mathlib.Core.List.{foldl}
use r_os.Ring.{push}
use r_os.Mouse.{MouseEvent, Mouse, add_byte}
use r_os.Mouse.Packet.{bit, described, add_byte-packet, add_byte-skip}

-- The packets of a stream: a byte without the always-set bit is skipped where a packet should
-- begin, a packet with an overflow bit is dropped, and an unfinished one at the end is left.
unfoldable pub parse : List ℕ → List MouseEvent
parse [] = []
parse (b0 ∷ []) = []
parse (b0 ∷ b1 ∷ []) = elim (bit 3 b0) [ true ↦ [] | false ↦ parse (b1 ∷ []) ]
parse (b0 ∷ b1 ∷ b2 ∷ rest) = elim (bit 3 b0) [
  | true ↦ elim (bit 6 b0 || bit 7 b0) [
    | true ↦ parse rest
    | false ↦ described b0 b1 b2 ∷ parse rest
  ]
  | false ↦ parse (b1 ∷ b2 ∷ rest)
]

-- The first two bytes of a packet queue nothing.
early : (m : Mouse) (b : ℕ) → m.packet_state ≤ 1 → (add_byte m b).queue ≡ m.queue
unfolding add_byte
early m b h = ground arith

started : (m : Mouse) (b : ℕ) → m.packet_state ≡ 0 → (add_byte m b).packet_state ≤ 1
unfolding add_byte
started m b e = ground arith

-- Fed byte by byte to a machine in its first state, a stream queues the events of its packets,
-- each dropped where the queue is full.
pub add_byte-parse :
    (bytes : List ℕ) (m : Mouse)
    → All (λ b. b < 256) bytes
    → m.packet_state ≡ 0
    → (foldl add_byte m bytes).queue ≡ foldl push m.queue (parse bytes)
unfolding parse
add_byte-parse [] m h e = refl
add_byte-parse (b0 ∷ []) m h e = early m b0 (omega arith)
add_byte-parse (b0 ∷ b1 ∷ []) m h e = ground (
  arith,
  early (add_byte m b0) b1 (started m b0 e),
  early m b0,
  add_byte-skip m b0 e h.0,
  add_byte-parse (b1 ∷ []) m h.1 e,
)
add_byte-parse (b0 ∷ b1 ∷ b2 ∷ rest) m h e = ground (
  arith,
  add_byte-packet m b0 b1 b2 e h.0 h.1.0 h.1.1.0,
  add_byte-parse rest (add_byte (add_byte (add_byte m b0) b1) b2) h.1.1.1,
  add_byte-skip m b0 e h.0,
  add_byte-parse (b1 ∷ b2 ∷ rest) m h.1 e,
)
