-- ===== src/Idle/Drained.antt =====
-- A round of the idle task against the events that are queued.
use r_os.Common.{
  ℕ, zero, suc, ◌<◌, ◌≡◌, refl, sym, ap, ◌∙◌, false, Option, none, some, List, [], ◌∷◌, arith,
  length, All,
}
use r_os.Common.Loops.{Returns, Returns->>=, Returns-if_cases, ◌>>=◌}
use r_os.Fb.{FrameBufferInfo}
use r_os.Fb.Text.{Font}
use r_os.Mouse.{Mouse, MouseEvent, empty_event, try_read_event}
use r_os.Ring.{buf_size, pop}
use r_os.Ring.Inv.{IsValid, contents, pop-IsValid, length-window, used}
use r_os.Ring.Queue.{dequeue}
use r_os.Ring.Refine.{pop_refines}
use r_os.Wm.Session.{IsReady, step-IsReady, mouse}
use r_os.Wm.Pointer.{IsI16}
use r_os.Wm.Api
use r_os.Wm.Api.{Globals}
use r_os.Wm.Display.{composite-IsManager}
use r_os.Wm.Screen
use r_os.Idle.{needs_composite, drain, composite_if_needed, idle_round}

abbrev pub events : Mouse → List MouseEvent
events m = contents empty_event m.queue

-- The two movements of an event are of the type `i16`.
abbrev pub IsShort : MouseEvent → Type 0
IsShort event = IsI16 event.dx × IsI16 event.dy

module _ (font : Font) (from_utf8 : List ℕ → Option (List ℕ)) where
  -- Events handled in their order.
  abbrev pub handle_all : List MouseEvent → Globals → Option Globals
  handle_all [] g = some g
  handle_all (e ∷ es) g = Api.handle_mouse font from_utf8 e g >>= λ g'. handle_all es g'

  -- The same run, at its end with no event left.
  abbrev pub IsDrained : Option (Mouse × Globals) → Option Globals → Type 0
  IsDrained none none = Unit
  IsDrained (some p) (some g) = (p.1 ≡ g) × (events p.0 ≡ [])
  IsDrained _ _ = ⊥

  drain-IsDrained :
      (n : ℕ) (es : List MouseEvent) (m : Mouse) (g : Globals)
      → IsValid m.queue
      → events m ≡ es
      → length es < n
      → IsDrained (drain font from_utf8 n m g) (handle_all es g)
  unfolding drain try_read_event dequeue
  drain-IsDrained zero es m g v e h = absurd (omega arith)
  drain-IsDrained (suc n) [] m g v e h =
      let p : ((pop m.queue).0, contents empty_event (pop m.queue).1) ≡ dequeue [] =
        pop_refines empty_event m.queue v ∙ ap dequeue e in
      rw (drain, ap (λ t. t.0) p) (refl, ap (λ t. t.1) p)
  drain-IsDrained (suc n) (e1 ∷ es) m g v e h =
      let p : ((pop m.queue).0, contents empty_event (pop m.queue).1) ≡ dequeue (e1 ∷ es) =
        pop_refines empty_event m.queue v ∙ ap dequeue e in
      rw (drain, ap (λ t. t.0) p)
        (next (Api.handle_mouse font from_utf8 e1 g) (λ g'.
          drain-IsDrained n es (try_read_event m).1 g' (pop-IsValid m.queue v) (ap (λ t. t.1) p)
            (omega arith)))
    where
      next :
          (o : Option Globals)
          → ((g' : Globals)
              → IsDrained (drain font from_utf8 n (try_read_event m).1 g') (handle_all es g'))
          → IsDrained
              (o >>= λ g'. drain font from_utf8 n (try_read_event m).1 g')
              (o >>= λ g'. handle_all es g')
      next none k = tt
      next (some g') k = k g'

  handle_all-IsReady :
      (es : List MouseEvent) (g : Globals)
      → All IsShort es
      → IsReady g
      → Returns IsReady (handle_all es g)
  handle_all-IsReady [] g short ready = ready
  handle_all-IsReady (e ∷ es) g short ready =
      Returns->>= IsReady IsReady (Api.handle_mouse font from_utf8 e g) _
        (step-IsReady font from_utf8 (mouse e) g short.0 ready)
        (λ g' r. handle_all-IsReady es g' short.1 r)

  composited :
      (g : Globals)
      → IsReady g
      → Returns
          (λ g'. IsReady g' × (needs_composite g' ≡ false))
          (composite_if_needed font from_utf8 g)
  unfolding composite_if_needed needs_composite Api.composite Api.with_both
  composited g (wm, fb, e, up) =
      rw (e, up.same)
        (Returns-if_cases _ wm.needs_composite _ _
          (λ needed.
            Returns->>= _ _ (Screen.composite font from_utf8 wm.screen_info wm fb.buf) _
              (composite-IsManager font from_utf8 wm fb.buf up.manager up.display)
              (λ p h. (
                (
                  p.0,
                  record { buf = p.1; info = wm.screen_info },
                  refl,
                  record { manager = h.0; display = h.1; same = sym h.2.3 },
                ),
                h.2.2,
              )))
          (λ not_needed. (
            (
              wm,
              fb,
              ap
                  (λ (i : FrameBufferInfo). record {
                    wm = some wm;
                    fb = some (record fb { info = i });
                  })
                  (sym up.same),
              up,
            ),
            not_needed,
          )))

  drained :
      (o : Option (Mouse × Globals)) (h : Option Globals)
      → IsDrained o h
      → Returns IsReady h
      → Returns (λ p. (events p.0 ≡ []) × IsReady p.1 × (h ≡ some p.1)) o
  drained none none d r = absurd r
  drained (some p) (some g) d r = (d.1, rw d.0 r, ap some (sym d.0))
  drained none (some g) d r = absurd d
  drained (some p) none d r = absurd d

  -- From two valid states and a valid queue, the movements in it of the type `i16`, a round of the idle task does not panic. It handles the
  -- queued mouse events, all of them and in their order, and then composites if that is needed: at
  -- its end the queue is empty, nothing waits to be drawn, and the states are valid.
  pub idle_round-IsReady :
      (m : Mouse) (g : Globals)
      → IsValid m.queue
      → All IsShort (events m)
      → IsReady g
      → Returns
          (λ p.
            (events p.0 ≡ [])
            × IsReady p.1
            × (needs_composite p.1 ≡ false)
            × ((handle_all (events m) g >>= composite_if_needed font from_utf8) ≡ some p.1))
          (idle_round font from_utf8 m g)
  unfolding idle_round
  idle_round-IsReady m g v short ready =
      let few : length (events m) < buf_size = ground (
        arith,
        length-window empty_event m.queue.slots m.queue.tail (used m.queue.head m.queue.tail),
        v.head_in,
        v.tail_in,
      ) in
      Returns->>=
        (λ (p : Mouse × Globals).
          (events p.0 ≡ []) × IsReady p.1 × (handle_all (events m) g ≡ some p.1))
        _ (drain font from_utf8 buf_size m g) _
        (drained (drain font from_utf8 buf_size m g) (handle_all (events m) g)
          (drain-IsDrained buf_size (events m) m g v refl few)
          (handle_all-IsReady (events m) g short ready))
        (λ p h. finish p h.0 h.2 (composite_if_needed font from_utf8 p.1) refl (composited p.1 h.1))
    where
      finish :
          (p : Mouse × Globals)
          → events p.0 ≡ []
          → handle_all (events m) g ≡ some p.1
          → (o : Option Globals) → composite_if_needed font from_utf8 p.1 ≡ o
          → Returns (λ g'. IsReady g' × (needs_composite g' ≡ false)) o
          → Returns
              (λ (q : Mouse × Globals).
                (events q.0 ≡ [])
                × IsReady q.1
                × (needs_composite q.1 ≡ false)
                × ((handle_all (events m) g >>= composite_if_needed font from_utf8) ≡ some q.1))
              (o >>= λ g'. some (p.0, g'))
      finish p empty all none e r = absurd r
      finish p empty all (some g') e r = (empty, r.0, r.1, rw all e)
