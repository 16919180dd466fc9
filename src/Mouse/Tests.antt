-- ===== src/Mouse/Tests.antt =====
-- Packets through the machine, and its theorems at concrete bytes.
use r_os.Common.{ℕ, ◌≡◌, refl, true, false, some, [], ◌∷◌, arith, ◌==◌, if◌then◌else◌}
use mathlib.Core.List.{foldl}
use r_os.Common.Int.{pos, negsuc}
use r_os.Ring.{push, pop}
use Prim.Native.Nat.{bit_or}
use r_os.Mouse.{Mouse, mouse, decode, add_byte, try_read_event}
use r_os.Mouse.Init.{Ports, Bus, status_port, data_port, init}
use r_os.Mouse.Packet.{described, add_byte-packet}
use r_os.Mouse.Polite.{IsPolite, IsRead, writes, init-IsPolite}
use r_os.Mouse.Stream.{parse, add_byte-parse}

-- Left button, three to the left, two up; behind a stray byte.
abbrev moved : Mouse
moved = foldl add_byte mouse (0x01 ∷ 0x19 ∷ 0xfd ∷ 0x02 ∷ [])

moved_event :
    (try_read_event moved).0
    ≡ some (record { dx = negsuc 2; dy = pos 2; left = true; right = false; middle = false })
unfolding try_read_event add_byte pop push decode
moved_event = refl

add_byte-packet_example :
    let m = add_byte (add_byte (add_byte mouse 0x19) 0xfd) 0x02 in
    (m.packet_state ≡ 0) × (m.queue ≡ push mouse.queue (described 0x19 0xfd 0x02))
add_byte-packet_example =
    add_byte-packet mouse 0x19 0xfd 0x02 refl (omega arith) (omega arith) (omega arith) refl

add_byte-parse_example :
    moved.queue ≡ foldl push mouse.queue (parse (0x01 ∷ 0x19 ∷ 0xfd ∷ 0x02 ∷ []))
add_byte-parse_example = add_byte-parse (0x01 ∷ 0x19 ∷ 0xfd ∷ 0x02 ∷ []) mouse (omega arith) refl

-- A controller that always has a byte to give, which is the last one that it took.
abbrev echo : Ports
echo = record {
  Device = ℕ;
  read = λ device port. (if port == status_port then 0x01 else device, device);
  write = λ device port value. value;
}

abbrev powered : Bus echo
powered = record { device = 0x47; trace = [] }

init-IsPolite_example :
    (IsPolite [] → IsPolite (init echo powered).trace)
    × ((config : ℕ) × IsRead config (init echo powered).trace
        × (writes (init echo powered).trace
            ≡ (status_port, 0xae)
              ∷ (data_port, 0xf4)
              ∷ (status_port, 0xd4)
              ∷ (data_port, 0xf6)
              ∷ (status_port, 0xd4)
              ∷ (data_port, bit_or config 0x02)
              ∷ (status_port, 0x60)
              ∷ (status_port, 0x20)
              ∷ (status_port, 0xa8)
              ∷ (status_port, 0xa7)
              ∷ (status_port, 0xad)
              ∷ []))
init-IsPolite_example = init-IsPolite echo powered
