-- ===== src/Mouse/Packet.antt =====
-- One packet through `add_byte`, against the layout of the three bytes.
use r_os.Common.{
  ℕ, ◌-◌, ◌/◌, ◌%◌, ◌^◌, ◌<◌, ◌≡◌, refl, Bool, true, false, ◌||◌, arith, ◌==◌, if◌then◌else◌,
}
use r_os.Common.Bits.{agree, agree_lem}
use r_os.Common.Int.{ℤ, pos, negsuc}
use r_os.Mouse.{MouseEvent, has_bit, extend, decode, add_byte, Mouse, push}

-- Bit `k` of a byte, by arithmetic.
abbrev pub bit : ℕ → ℕ → Bool
bit k byte = byte / 2 ^ k % 2 == 1

-- A nine-bit two's complement number, from its sign bit and its low byte.
abbrev pub nine_bits : Bool → ℕ → ℤ
nine_bits true low = negsuc (255 - low)
nine_bits false low = pos low

-- The event that the first byte's bits and the two movements describe.
abbrev pub described : ℕ → ℕ → ℕ → MouseEvent
described b0 b1 b2 = record {
  dx = nine_bits (bit 4 b0) b1;
  dy = nine_bits (bit 5 b0) b2;
  left = bit 0 b0;
  right = bit 1 b0;
  middle = bit 2 b0;
}

-- The masks of the first byte.
has_bit-overflow : (b : ℕ) → b < 256 → has_bit b 0xc0 ≡ (bit 6 b || bit 7 b)
unfolding agree
has_bit-overflow b h = agree_lem (λ n. has_bit n 0xc0) (λ n. bit 6 n || bit 7 n) 256 b refl h

has_bit-bit :
    (mask k b : ℕ)
    → agree 256 (λ n. has_bit n mask) (λ n. bit k n) ≡ true
    → b < 256
    → has_bit b mask ≡ bit k b
has_bit-bit mask k b = agree_lem (λ n. has_bit n mask) (λ n. bit k n) 256 b

pub has_bit-sync : (b : ℕ) → b < 256 → has_bit b 0x08 ≡ bit 3 b
unfolding agree
has_bit-sync b h = has_bit-bit 0x08 3 b refl h

extend-nine_bits :
    (negative : Bool) (low : ℕ) → low < 256 → extend negative low ≡ nine_bits negative low
unfolding extend
extend-nine_bits true low h = ground arith
extend-nine_bits false low h = refl

pub decode-described :
    (b0 b1 b2 : ℕ) → b0 < 256 → b1 < 256 → b2 < 256 → decode b0 b1 b2 ≡ described b0 b1 b2
unfolding decode agree
decode-described b0 b1 b2 h0 h1 h2 = ground (
  arith,
  has_bit-bit 0x10 4 b0 refl h0,
  has_bit-bit 0x20 5 b0 refl h0,
  has_bit-bit 0x01 0 b0 refl h0,
  has_bit-bit 0x02 1 b0 refl h0,
  has_bit-bit 0x04 2 b0 refl h0,
  extend-nine_bits (bit 4 b0) b1 h1,
  extend-nine_bits (bit 5 b0) b2 h2,
)

-- In the first state, three bytes, the first with its always-set bit, come back to the first
-- state. They queue the event that they describe, and nothing if an overflow bit is set.
pub add_byte-packet :
    (m : Mouse) (b0 b1 b2 : ℕ)
    → m.packet_state ≡ 0
    → b0 < 256
    → b1 < 256
    → b2 < 256
    → bit 3 b0 ≡ true
    → let m' = add_byte (add_byte (add_byte m b0) b1) b2 in
      (m'.packet_state ≡ 0)
      × (m'.queue ≡ (if bit 6 b0 || bit 7 b0 then m.queue else push m.queue (described b0 b1 b2)))
unfolding add_byte
add_byte-packet m b0 b1 b2 e h0 h1 h2 sync =
    ground (arith, has_bit-sync b0 h0, has_bit-overflow b0 h0, decode-described b0 b1 b2 h0 h1 h2)

-- In the first state a byte without the always-set bit changes nothing.
pub add_byte-skip :
    (m : Mouse) (b : ℕ) → m.packet_state ≡ 0 → b < 256 → bit 3 b ≡ false → add_byte m b ≡ m
unfolding add_byte
add_byte-skip m b e h lost = ground (arith, has_bit-sync b h)
