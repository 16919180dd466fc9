-- ===== src/Mouse.antt =====
-- kernel/src/mouse.rs: the packet state machine that the mouse interrupt handler drives, and the
-- queue of decoded events. Mouse/Init has the handshake of `init` with the controller.
pub mod Packet
pub mod Stream
pub mod Init
pub mod Polite
mod Tests
use r_os.Common.{ℕ, Bool, false, not, Option, ◌==◌, if◌then◌else◌}
use Prim.Native.Nat.{bit_and}
use r_os.Common.Int.{ℤ, pos, sub_ℕ}
use r_os.Ring.{RingBuffer, empty_ring, push, pop}

pub record MouseEvent : Type 0 where
  pub dx : ℤ  -- i16
  pub dy : ℤ  -- i16
  pub left : Bool
  pub right : Bool
  pub middle : Bool

abbrev pub empty_event : MouseEvent
empty_event = record { dx = pos 0; dy = pos 0; left = false; right = false; middle = false }

-- The statics of the module: PACKET_STATE, PACKET_BYTES and MOUSE_QUEUE.
pub record Mouse : Type 0 where
  pub packet_state : ℕ
  pub byte0 : ℕ
  pub byte1 : ℕ
  pub byte2 : ℕ
  pub queue : RingBuffer MouseEvent

abbrev pub mouse : Mouse
mouse = record { packet_state = 0; byte0 = 0; byte1 = 0; byte2 = 0; queue = empty_ring empty_event }

-- `byte & mask != 0`
abbrev pub has_bit : ℕ → ℕ → Bool
has_bit byte mask = not (bit_and byte mask == 0)

-- The movement with the sign bit of byte 0.
unfoldable pub extend : Bool → ℕ → ℤ
extend negative byte = if negative then sub_ℕ byte 256 else pos byte

unfoldable pub decode : ℕ → ℕ → ℕ → MouseEvent
unfolding extend
decode b0 b1 b2 = record {
  dx = extend (has_bit b0 0x10) b1;
  dy = extend (has_bit b0 0x20) b2;
  left = has_bit b0 0x01;
  right = has_bit b0 0x02;
  middle = has_bit b0 0x04;
}

-- The third byte: back to the first state, and the event is queued unless it overflowed.
unfoldable pub finish : Mouse → ℕ → Mouse
finish m byte =
    let m' = record m { packet_state = 0; byte2 = byte } in
    if has_bit m.byte0 0xc0
    then m'
    else record m' { queue = push m.queue (decode m.byte0 m.byte1 byte) }

unfoldable pub add_byte : Mouse → ℕ → Mouse
unfolding finish
add_byte m byte =
    if m.packet_state == 0
    then (if has_bit byte 0x08 then record m { packet_state = 1; byte0 = byte } else m)
    else if m.packet_state == 1
    then record m { packet_state = 2; byte1 = byte }
    else if m.packet_state == 2
    then finish m byte
    else record m { packet_state = 0 }

unfoldable pub try_read_event : Mouse → Option MouseEvent × Mouse
try_read_event m = let (e, q) = pop m.queue in (e, record m { queue = q })
