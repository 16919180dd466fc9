-- ===== src/Mouse/Polite.antt =====
-- The trace of port accesses that `init` of kernel/src/mouse.rs leaves.
use r_os.Common.{
  ℕ, zero, suc, ◌≡◌, refl, sym, ap, ◌∙◌, ◌⊎◌, inl, inr, Bool, true, List, [], ◌∷◌, ◌++◌, arith,
  ◌==◌, Bool-cases, length, length-append,
}
use Prim.Native.Nat.{bit_and, bit_or}
use r_os.Mouse.Init.{
  Ports, Access, read, write, status_port, data_port, timeout, can_write, can_read, Bus, port_read,
  port_write, wait, wait_for_write, write_command, write_data, read_data, flush, write_mouse,
  configure, init,
}

-- Reads of the status, the last one first.
abbrev pub asked : List ℕ → List Access
asked [] = []
asked (s ∷ l) = read status_port s ∷ asked l

-- What goes before a write: a status by which the controller takes a byte, or as many reads of the
-- status as the time-out allows.
abbrev pub IsGuarded : List Access → Type 0
IsGuarded t =
    ((s : ℕ) × (before : List Access) × (t ≡ read status_port s ∷ before) × (can_write s ≡ true))
    ⊎ ((l : List ℕ) × (before : List Access) × (t ≡ asked l ++ before) × (length l ≡ timeout))

-- A trace, the last access first, in which each write is guarded.
abbrev pub IsPolite : List Access → Type 0
IsPolite [] = Unit
IsPolite (read port value ∷ t) = IsPolite t
IsPolite (write port value ∷ t) = IsGuarded t × IsPolite t

-- The ports and bytes written, the last first.
abbrev pub writes : List Access → List (ℕ × ℕ)
writes [] = []
writes (read port value ∷ t) = writes t
writes (write port value ∷ t) = (port, value) ∷ writes t

-- The byte was read from the data port.
abbrev pub IsRead : ℕ → List Access → Type 0
IsRead c [] = ⊥
IsRead c (read port value ∷ t) = ((port ≡ data_port) × (value ≡ c)) ⊎ IsRead c t
IsRead c (write port value ∷ t) = IsRead c t

asked_append :
    (l : List ℕ) (s : ℕ) (t : List Access)
    → asked (l ++ (s ∷ [])) ++ t ≡ asked l ++ (read status_port s ∷ t)
asked_append [] s t = refl
asked_append (r ∷ l) s t = ap (λ u. read status_port r ∷ u) (asked_append l s t)

module _ (ports : Ports) where
  -- A step that only reads.
  record OnlyReads (bus bus' : Bus ports) : Type 0 where
    polite : IsPolite bus.trace → IsPolite bus'.trace
    known : (c : ℕ) → IsRead c bus.trace → IsRead c bus'.trace
    same : writes bus'.trace ≡ writes bus.trace

  -- How a wait of `n` rounds for a free controller ends.
  abbrev IsWaited : ℕ → List Access → List Access → Type 0
  IsWaited n t t' =
      ((s : ℕ) × (before : List Access) × (t' ≡ read status_port s ∷ before) × (can_write s ≡ true))
      ⊎ ((l : List ℕ) × (t' ≡ asked l ++ t) × (length l ≡ n))

  wait-OnlyReads :
      (test : ℕ → Bool) (n : ℕ) (bus : Bus ports) → OnlyReads bus (wait ports test n bus)
  unfolding wait port_read
  wait-OnlyReads test zero bus = record { polite = λ h. h; known = λ c h. h; same = refl }
  wait-OnlyReads test (suc n) bus = elim (Bool-cases (test (ports.read bus.device status_port).0)) [
    | inl passes ↦ rw (wait, passes) (record { polite = λ h. h; known = λ c h. inr h; same = refl })
    | inr fails ↦
        let rest = wait-OnlyReads test n (port_read ports status_port bus).1 in
        rw (wait, fails)
          (record { polite = rest.polite; known = λ c h. rest.known c (inr h); same = rest.same })
  ]

  wait-IsWaited :
      (n : ℕ) (bus : Bus ports) → IsWaited n bus.trace (wait ports can_write n bus).trace
  unfolding wait port_read
  wait-IsWaited zero bus = inr ([], refl, refl)
  wait-IsWaited (suc n) bus = elim (Bool-cases (can_write (ports.read bus.device status_port).0)) [
    | inl passes ↦
        rw (wait, passes) (inl ((ports.read bus.device status_port).0, bus.trace, refl, passes))
    | inr fails ↦
        rw (wait, fails)
          (elim (wait-IsWaited n (port_read ports status_port bus).1) [
            | inl found ↦ inl found
            | inr (l, e, size) ↦
                let s : ℕ = (ports.read bus.device status_port).0 in
                inr (
                  l ++ (s ∷ []),
                  e ∙ sym (asked_append l s bus.trace),
                  length-append l (s ∷ []) ∙ omega arith,
                )
          ])
  ]

  -- A step that writes one byte, behind a wait.
  record Writes (port value : ℕ) (bus bus' : Bus ports) : Type 0 where
    polite : IsPolite bus.trace → IsPolite bus'.trace
    known : (c : ℕ) → IsRead c bus.trace → IsRead c bus'.trace
    same : writes bus'.trace ≡ (port, value) ∷ writes bus.trace

  written :
      (port value : ℕ) (bus : Bus ports)
      → Writes port value bus (port_write ports port value (wait_for_write ports bus))
  unfolding port_write
  written port value bus =
      let w = wait-OnlyReads can_write timeout bus in
      record {
        polite = λ h. (
          elim (wait-IsWaited timeout bus) [
            | inl found ↦ inl found
            | inr (l, e, size) ↦ inr (l, bus.trace, e, size)
          ],
          w.polite h,
        );
        known = w.known;
        same = ap (λ t. (port, value) ∷ t) w.same;
      }

  read_data-OnlyReads : (bus : Bus ports) → OnlyReads bus (read_data ports bus).1
  unfolding read_data port_read
  read_data-OnlyReads bus =
      let w = wait-OnlyReads can_read timeout bus in
      record { polite = w.polite; known = λ c h. inr (w.known c h); same = w.same }

  flush-OnlyReads : (n : ℕ) (bus : Bus ports) → OnlyReads bus (flush ports n bus)
  unfolding flush port_read
  flush-OnlyReads zero bus = record { polite = λ h. h; known = λ c h. h; same = refl }
  flush-OnlyReads (suc n) bus =
      elim (Bool-cases (bit_and (ports.read bus.device status_port).0 0x01 == 0)) [
        | inl empty ↦
            rw (flush, empty) (record { polite = λ h. h; known = λ c h. inr h; same = refl })
        | inr full ↦
            let rest =
              flush-OnlyReads n (port_read ports data_port (port_read ports status_port bus).1).1 in
            rw (flush, full)
              (record {
                polite = rest.polite;
                known = λ c h. rest.known c (inr (inr h));
                same = rest.same;
              })
      ]

  -- The bytes of `configure`, the last one first.
  abbrev configured : ℕ → List (ℕ × ℕ)
  configured config =
      (data_port, bit_or config 0x02)
      ∷ (status_port, 0x60)
      ∷ (status_port, 0x20)
      ∷ (status_port, 0xa8)
      ∷ (status_port, 0xa7)
      ∷ (status_port, 0xad)
      ∷ []

  -- What `configure` does, with the byte that it reads.
  record Configured (config : ℕ) (bus bus' : Bus ports) : Type 0 where
    polite : IsPolite bus.trace → IsPolite bus'.trace
    read : IsRead config bus'.trace
    same : writes bus'.trace ≡ configured config ++ writes bus.trace

  configure-Configured :
      (bus : Bus ports) → (config : ℕ) × Configured config bus (configure ports bus)
  unfolding configure write_command write_data read_data port_read
  configure-Configured bus =
      let b0 = write_command ports 0xad bus in
      let b1 = write_command ports 0xa7 b0 in
      let f = flush ports timeout b1 in
      let b2 = write_command ports 0xa8 f in
      let b3 = write_command ports 0x20 b2 in
      let r = read_data ports b3 in
      let b4 = write_command ports 0x60 r.1 in
      let w0 = written status_port 0xad bus in
      let w1 = written status_port 0xa7 b0 in
      let o1 = flush-OnlyReads timeout b1 in
      let w2 = written status_port 0xa8 f in
      let w3 = written status_port 0x20 b2 in
      let o3 = read_data-OnlyReads b3 in
      let w4 = written status_port 0x60 r.1 in
      let w5 = written data_port (bit_or r.0 0x02) b4 in
      (
        r.0,
        record {
          polite = λ h.
              w5.polite (
                w4.polite
                  (o3.polite (w3.polite (w2.polite (o1.polite (w1.polite (w0.polite h)))))));
          read = w5.known r.0 (w4.known r.0 (inl (refl, refl)));
          same = rw (w5.same, w4.same, o3.same, w3.same, w2.same, o1.same, w1.same, w0.same) refl;
        },
      )

  write_mouse-Writes :
      (byte : ℕ) (bus : Bus ports)
      → let bus' = (read_data ports (write_mouse ports byte bus)).1 in
        (IsPolite bus.trace → IsPolite bus'.trace)
        × ((c : ℕ) → IsRead c bus.trace → IsRead c bus'.trace)
        × (writes bus'.trace ≡ (data_port, byte) ∷ (status_port, 0xd4) ∷ writes bus.trace)
  unfolding write_mouse write_command write_data
  write_mouse-Writes byte bus =
      let b1 = write_command ports 0xd4 bus in
      let w1 = written status_port 0xd4 bus in
      let w2 = written data_port byte b1 in
      let o = read_data-OnlyReads (write_mouse ports byte bus) in
      (
        λ h. o.polite (w2.polite (w1.polite h)),
        λ c h. o.known c (w2.known c (w1.known c h)),
        o.same ∙ w2.same ∙ ap (λ t. (data_port, byte) ∷ t) w1.same,
      )

  -- Whatever the ports answer, when each write so far was guarded, so is each write of `init` of
  -- the mouse: the last access before it is a read of the status that says the controller takes a
  -- byte, or the accesses before it are as many reads of the status as the time-out allows. And
  -- what `init` writes is this sequence, the last byte first: both devices are switched off, then
  -- the mouse on, the configuration is asked for, a byte that was read from the data port is sent
  -- for it with the bit of the mouse's interrupt set, the mouse takes 0xf6 and 0xf4, and the
  -- keyboard is switched on.
  pub init-IsPolite :
      (bus : Bus ports)
      → (IsPolite bus.trace → IsPolite (init ports bus).trace)
        × ((config : ℕ) × IsRead config (init ports bus).trace
            × (writes (init ports bus).trace
                ≡ (status_port, 0xae)
                  ∷ (data_port, 0xf4)
                  ∷ (status_port, 0xd4)
                  ∷ (data_port, 0xf6)
                  ∷ (status_port, 0xd4)
                  ∷ (data_port, bit_or config 0x02)
                  ∷ (status_port, 0x60)
                  ∷ (status_port, 0x20)
                  ∷ (status_port, 0xa8)
                  ∷ (status_port, 0xa7)
                  ∷ (status_port, 0xad)
                  ∷ writes bus.trace))
  unfolding init write_command
  init-IsPolite bus =
      let b4 = configure ports bus in
      let b5 = (read_data ports (write_mouse ports 0xf6 b4)).1 in
      let b6 = (read_data ports (write_mouse ports 0xf4 b5)).1 in
      let (config, c4) = configure-Configured bus in
      let (p5, k5, e5) = write_mouse-Writes 0xf6 b4 in
      let (p6, k6, e6) = write_mouse-Writes 0xf4 b5 in
      let w7 = written status_port 0xae b6 in
      (
        λ h. w7.polite (p6 (p5 (c4.polite h))),
        (
          config,
          w7.known config (k6 config (k5 config c4.read)),
          rw (w7.same, e6, e5, c4.same) refl,
        ),
      )
