-- ===== src/Shell/Served.antt =====
-- The rounds of the shell of kernel/src/shell.rs, and the states that they keep.
use r_os.Common.{
  ℕ, ◌≡◌, refl, sym, ap, ◌∙◌, inl, inr, Bool, true, false, Option, none, some, List, [], ◌∷◌, arith,
  All,
}
use r_os.Common.Loops.{Returns, Returns->>=, Returns-imp, Returns-if_cases, ◌>>=◌}
use r_os.Fb.Text.{Font}
use r_os.Keyboard.{Decoder, try_read_key}
use r_os.Keyboard.Read.{first_key, Reads, try_read_key-Reads}
use r_os.Ring.{RingBuffer, buf_size}
use r_os.Ring.Inv
use r_os.Ring.Inv.{contents}
use r_os.Shell
use r_os.Shell.{Line, handle_char}
use r_os.Shell.Edit
use r_os.Shell.Edit.{IsPrintable, view, edit, handle_char-edit}
use r_os.Shell.Rounds
use r_os.Shell.Rounds.{Outcome, then_on, perform, type_key, serve, round}
use r_os.Wm.Api
use r_os.Wm.Api.{Globals}
use r_os.Wm.Session.{IsReady, step-IsReady, write, clear, show_cursor, hide_cursor, mark_dirty}

module _ (d : Decoder) where
  -- The states of the shell: a valid line, a valid queue, and those of the window manager.
  pub record IsAlive (s : Rounds.Session d) : Type 0 where
    pub line : Edit.IsValid s.line
    pub queue : Inv.IsValid s.queue
    pub ready : IsReady s.globals

  -- What the reader leaves of the queue and the decoder.
  abbrev pub IsFed : Rounds.Session d → Rounds.Session d → Type 0
  IsFed s s' =
      (contents 0 s'.queue ≡ (first_key d (contents 0 s.queue) s.kb).1)
      × (s'.kb ≡ (first_key d (contents 0 s.queue) s.kb).2)

-- Whether one of the calls halts the processor.
abbrev pub has_halt : List Shell.Call → Bool
has_halt [] = false
has_halt (Shell.Call.halt ∷ calls) = true
has_halt (call ∷ calls) = has_halt calls

-- A property of the value that a step ends with, and one of a halt.
abbrev pub Ends : {A : Type 0} → (A → Type 0) → (Globals → Type 0) → Outcome A → Type 0
Ends P H (inl a) = P a
Ends P H (inr g) = H g

Ends-then_on :
    {A B : Type 0} (P : A → Type 0) (Q : B → Type 0) (H K : Globals → Type 0) (o : Outcome A)
    (f : A → Option (Outcome B))
    → Ends P H o
    → ((g : Globals) → H g → K g)
    → ((a : A) → P a → Returns (Ends Q K) (f a))
    → Returns (Ends Q K) (then_on o f)
Ends-then_on P Q H K (inl a) f h halt k = k a h
Ends-then_on P Q H K (inr g) f h halt k = halt g h

-- The character whose calls halt the processor, typed at a line.
abbrev pub halts : Option ℕ → Line → Bool
halts none line = false
halts (some c) line = has_halt (edit c (view line)).0

module _ (d : Decoder) (unicode : d.DecodedKey → Option ℕ) where
  -- The key that the queue completes, if there is one, halts the processor.
  abbrev pub key_halts : Option d.DecodedKey → Line → Bool
  key_halts none line = false
  key_halts (some key) line = halts (unicode key) line

  -- How a round of the shell that has the focus ends.
  abbrev pub IsServed : Rounds.Session d → Outcome (Rounds.Session d) → Type 0
  IsServed s =
      Ends
        (λ s'.
          IsAlive d s'
          × IsFed d s s'
          × (key_halts (first_key d (contents 0 s.queue) s.kb).0 s.line ≡ false))
        (λ g'. IsReady g' × (key_halts (first_key d (contents 0 s.queue) s.kb).0 s.line ≡ true))

module _ (font : Font) (from_utf8 : List ℕ → Option (List ℕ))
    (decodes : (bytes : List ℕ) → All IsPrintable bytes → from_utf8 bytes ≡ some bytes) where
  perform-IsReady :
      (win : ℕ) (calls : List Shell.Call) (g : Globals)
      → IsReady g
      → Returns
          (Ends
            (λ g'. IsReady g' × (has_halt calls ≡ false))
            (λ g'. IsReady g' × (has_halt calls ≡ true)))
          (perform font from_utf8 win calls g)
  unfolding perform
  perform-IsReady win [] g ready = (ready, refl)
  perform-IsReady win (Shell.Call.console_write text ∷ calls) g ready =
      Returns->>= IsReady _ (Api.console_write font from_utf8 win text g) _
        (step-IsReady font from_utf8 (write win text) g tt ready)
        (λ g' r. perform-IsReady win calls g' r)
  perform-IsReady win (Shell.Call.console_clear ∷ calls) g ready =
      Returns->>= IsReady _ (Api.console_clear win g) _
        (step-IsReady font from_utf8 (clear win) g tt ready)
        (λ g' r. perform-IsReady win calls g' r)
  perform-IsReady win (Shell.Call.halt ∷ calls) g ready = (ready, refl)

  type_key-IsReady :
      (win : ℕ) (c : Option ℕ) (line : Line) (g : Globals)
      → Edit.IsValid line
      → IsReady g
      → Returns
          (Ends
            (λ r. Edit.IsValid r.0 × IsReady r.1 × (halts c line ≡ false))
            (λ g'. IsReady g' × (halts c line ≡ true)))
          (type_key font from_utf8 win c line g)
  unfolding type_key
  type_key-IsReady win none line g v ready = (v, ready, refl)
  type_key-IsReady win (some c) line g v ready =
      Returns->>= _ _ (handle_char from_utf8 c line) _ (handle_char-edit from_utf8 decodes c line v)
        (λ r h.
          let same : has_halt r.0 ≡ has_halt (edit c (view line)).0 = ap (λ t. has_halt t.0) h.1 in
          Returns->>= _ _ (perform font from_utf8 win r.0 g) _ (perform-IsReady win r.0 g ready)
            (λ o k.
              Ends-then_on _ _ _ _ o _ k (λ g' e. (e.0, sym same ∙ e.1))
                (λ g' e. (h.0, e.0, sym same ∙ e.1))))

  module _ (d : Decoder) (unicode : d.DecodedKey → Option ℕ) where
    serve-IsReady :
        (win : ℕ) (key : d.DecodedKey) (line : Line) (g : Globals)
        → Edit.IsValid line
        → IsReady g
        → Returns
            (Ends
              (λ r. Edit.IsValid r.0 × IsReady r.1 × (halts (unicode key) line ≡ false))
              (λ g'. IsReady g' × (halts (unicode key) line ≡ true)))
            (serve d unicode font from_utf8 win key line g)
    unfolding serve
    serve-IsReady win key line g v ready =
        Returns->>= IsReady _ (Api.console_hide_cursor win g) _
          (step-IsReady font from_utf8 (hide_cursor win) g tt ready)
          (λ g1 r1.
            Returns->>= _ _ (type_key font from_utf8 win (unicode key) line g1) _
              (type_key-IsReady win (unicode key) line g1 v r1)
              (λ o h.
                Ends-then_on _ _ _ _ o _ h (λ g' e. e)
                  (λ r e.
                    Returns->>= IsReady _ (Api.console_show_cursor win r.1) _
                      (step-IsReady font from_utf8 (show_cursor win) r.1 tt e.1)
                      (λ g3 r3.
                        Returns->>= IsReady _ (Api.mark_dirty win g3) _
                          (step-IsReady font from_utf8 (mark_dirty win) g3 tt r3)
                          (λ g4 r4. (e.0, r4, e.2))))))

    try_read_key-IsFed :
        (win : ℕ) (s : Rounds.Session d)
        → IsAlive d s
        → (o : Option (Option d.DecodedKey × RingBuffer ℕ × d.State))
        → Reads d o (first_key d (contents 0 s.queue) s.kb)
        → Returns (IsServed d unicode s) (
            o >>= λ r. elim r.0 [
              | none ↦ some (inl (record s { queue = r.1; kb = r.2 }))
              | some key ↦ serve d unicode font from_utf8 win key s.line s.globals >>= λ o.
                  then_on o
                    (λ p. some (inl (record { line = p.0; queue = r.1; kb = r.2; globals = p.1 })))
            ])
    try_read_key-IsFed win s a none reads = absurd reads
    try_read_key-IsFed win s a (some (none, queue, kb)) reads =
        let read = ap (λ t. t.0) reads.0 in
        (
          record { line = a.line; queue = reads.1; ready = a.ready },
          (ap (λ t. t.1) reads.0, ap (λ t. t.2) reads.0),
          rw (← read) refl,
        )
    try_read_key-IsFed win s a (some (some key, queue, kb)) reads =
        let read = ap (λ t. t.0) reads.0 in
        Returns->>= _ _ (serve d unicode font from_utf8 win key s.line s.globals) _
          (serve-IsReady win key s.line s.globals a.line a.ready)
          (λ o h.
            Ends-then_on _ _ _ _ o _ h (λ g' e. (e.0, rw (← read) e.1))
              (λ p e. (
                record { line = e.0; queue = reads.1; ready = e.1 },
                (ap (λ t. t.1) reads.0, ap (λ t. t.2) reads.0),
                rw (← read) e.2,
              )))

    -- A round of the shell does not panic. If its window has not the focus it ends and nothing
    -- changes: no key is taken. If it has, and the first key that the queued scancodes complete is a
    -- character at which the line editor runs the command to halt, the processor is halted, over
    -- valid states of the window manager, and the round does not end; with any other key, or none,
    -- the round ends with its states valid, and the scancodes up to that key are taken and fed to the
    -- decoder.
    pub round-IsAlive :
        (win : ℕ) (s : Rounds.Session d)
        → IsAlive d s
        → Returns
            (λ (o : Outcome (Rounds.Session d)).
              (Api.is_focused win s.globals ≡ false → o ≡ inl s)
              × (Api.is_focused win s.globals ≡ true → IsServed d unicode s o))
            (round d unicode font from_utf8 win s)
    unfolding round
    round-IsAlive win s a =
        Returns-if_cases _ (Api.is_focused win s.globals) _ _
          (λ focused.
            Returns-imp (IsServed d unicode s) _ _
              (λ o h. ((λ e. absurd (ground (arith, e, focused))), (λ e. h)))
              (try_read_key-IsFed win s a (try_read_key d buf_size s.queue s.kb)
                (try_read_key-Reads d s.queue s.kb a.queue)))
          (λ unfocused. ((λ e. refl), (λ e. absurd (ground (arith, e, unfocused)))))
