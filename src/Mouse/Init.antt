-- ===== src/Mouse/Init.antt =====
-- The handshake with the PS/2 controller in kernel/src/mouse.rs: `init` and its helpers. What the
-- ports answer is a parameter, a machine with states of its own.
use r_os.Common.{ℕ, zero, suc, Bool, true, false, not, List, ◌∷◌, ◌==◌}
use Prim.Native.Nat.{bit_and, bit_or}

-- The device behind the I/O ports: a read of a port gives a byte, and both change the state.
pub record Ports : Type 1 where
  pub Device : Type 0
  pub read : Device → ℕ → ℕ × Device
  pub write : Device → ℕ → ℕ → Device

-- An access to a port, with the byte.
pub data Access : Type 0 where
  read write : (port value : ℕ) → Access

abbrev pub status_port : ℕ
status_port = 0x64

abbrev pub data_port : ℕ
data_port = 0x60

abbrev pub timeout : ℕ
timeout = 100000

abbrev pub can_write : ℕ → Bool
can_write status = bit_and status 0x02 == 0

abbrev pub can_read : ℕ → Bool
can_read status = not (bit_and status 0x01 == 0)

module _ (ports : Ports) where
  -- The device, and the accesses so far, the last one first.
  pub record Bus : Type 0 where
    pub device : ports.Device
    pub trace : List Access

  unfoldable pub port_read : ℕ → Bus → ℕ × Bus
  port_read port bus =
      let (value, device) = ports.read bus.device port in
      (value, record { device = device; trace = read port value ∷ bus.trace })

  unfoldable pub port_write : ℕ → ℕ → Bus → Bus
  port_write port value bus = record {
    device = ports.write bus.device port value;
    trace = write port value ∷ bus.trace;
  }

  -- At most `n` reads of the status, up to the first that passes the test.
  unfoldable pub wait : (ℕ → Bool) → ℕ → Bus → Bus
  wait test zero bus = bus
  wait test (suc n) bus = elim (test (port_read status_port bus).0) [
    | true ↦ (port_read status_port bus).1
    | false ↦ wait test n (port_read status_port bus).1
  ]

  abbrev pub wait_for_write : Bus → Bus
  wait_for_write bus = wait can_write timeout bus

  abbrev pub wait_for_read : Bus → Bus
  wait_for_read bus = wait can_read timeout bus

  unfoldable pub write_command : ℕ → Bus → Bus
  write_command cmd bus = port_write status_port cmd (wait_for_write bus)

  unfoldable pub write_data : ℕ → Bus → Bus
  write_data byte bus = port_write data_port byte (wait_for_write bus)

  unfoldable pub read_data : Bus → ℕ × Bus
  read_data bus = port_read data_port (wait_for_read bus)

  -- The loop of `flush_output_buffer`, with `n` rounds left.
  unfoldable pub flush : ℕ → Bus → Bus
  flush zero bus = bus
  flush (suc n) bus = elim (bit_and (port_read status_port bus).0 0x01 == 0) [
    | true ↦ (port_read status_port bus).1
    | false ↦ flush n (port_read data_port (port_read status_port bus).1).1
  ]

  unfoldable pub write_mouse : ℕ → Bus → Bus
  write_mouse byte bus = write_data byte (write_command 0xd4 bus)

  -- The steps 1 to 4, with the configuration that is read.
  unfoldable pub configure : Bus → Bus
  configure bus =
      let b1 = write_command 0xa7 (write_command 0xad bus) in
      let b2 = write_command 0xa8 (flush timeout b1) in
      let (config, b3) = read_data (write_command 0x20 b2) in
      write_data (bit_or config 0x02) (write_command 0x60 b3)

  unfoldable pub init : Bus → Bus
  init bus =
      let b5 = (read_data (write_mouse 0xf6 (configure bus))).1 in
      let b6 = (read_data (write_mouse 0xf4 b5)).1 in write_command 0xae b6
