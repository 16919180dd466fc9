-- ===== src/Wm/Focus.antt =====
-- Moving the focus: `focus_window` of kernel/src/wm.rs.
use r_os.Common.{
  ℕ, ◌<◌, ◌≡◌, ◌≢◌, refl, sym, ap, ◌∙◌, subst, inl, inr, Bool, true, false, Option, none, some,
  List, [], ◌∷◌, ◌++◌, arith, Bool-cases, All,
}
use r_os.Common.Distinct.{Among, Distinct, Among-append_right, Distinct-moved}
use r_os.Common.Loops.{Returns, Returns->>=, Returns-imp, ◌>>=◌, >>=_assoc}
use r_os.Fb.{Buf, FrameBufferInfo}
use r_os.Fb.Text.{Font}
use r_os.Fb.Canvas.{IsCanvas}
use r_os.Wm.Window.{WmWindow, draw_chrome}
use r_os.Wm.Manager.{WindowManager, to_front, with_window, is_some, redraw, unfocus, focus_window}
use r_os.Wm.Chrome.{Redrawn, draw_chrome-Redrawn}
use r_os.Wm.Front.{IsRaised, to_front-IsRaised}
use r_os.Wm.Valid.{IsSound, IsManager, displayed, ids, with_window-All, All_moved, ids-append}

-- The order of the ids behind a change of focus: as it was if the window had the focus, else the
-- window in front of all others, in their order.
abbrev pub InFront : Bool → ℕ → List ℕ → List ℕ → Type 0
InFront true id l l' = l' ≡ l
InFront false id l l' =
    (behind : List ℕ) × (before : List ℕ) × (l ≡ behind ++ (id ∷ before))
    × (l' ≡ (behind ++ before) ++ (id ∷ []))

-- A window with another buffer that is a canvas of its size.
pub IsSound_drawn :
    (screen : FrameBufferInfo) (win : WmWindow) (b : Buf) (d : Bool)
    → IsSound screen win
    → IsCanvas win.buf_info b
    → IsSound screen (record win { buf = b; dirty = d })
IsSound_drawn screen win b d s v = record {
  drawable = record {
    canvas = v;
    sizes = s.drawable.sizes;
    room = s.drawable.room;
    titled = s.drawable.titled;
  };
  same_format = s.same_format;
  same_bytes = s.same_bytes;
  modest = s.modest;
  near = record { left = s.near.left; wide = s.near.wide };
  hosted = s.hosted;
}

module _ (font : Font) (from_utf8 : List ℕ → Option (List ℕ)) (screen : FrameBufferInfo) where
  redraw-IsSound :
      (focused : Bool) (w : WmWindow)
      → IsSound screen w
      → Returns (λ w'. IsSound screen w' × (w'.id ≡ w.id)) (redraw font from_utf8 focused w)
  unfolding redraw
  redraw-IsSound focused w s =
      Returns->>= (Redrawn w) _ (draw_chrome font from_utf8 focused w) _
        (draw_chrome-Redrawn font from_utf8 focused w s.drawable)
        (λ w' r. rw (r.same) (IsSound_drawn screen w r.drawn true s r.kept.canvas, refl))

  unfocus-IsSound :
      (old : Option ℕ) (ws : List WmWindow)
      → All (IsSound screen) ws
      → Returns
          (λ ws'. All (IsSound screen) ws' × (ids ws' ≡ ids ws))
          (unfocus font from_utf8 old ws)
  unfolding unfocus
  unfocus-IsSound none ws all = (all, refl)
  unfocus-IsSound (some old) ws all =
      with_window-All (IsSound screen) old (redraw font from_utf8 false) (redraw-IsSound false) ws
        all

raised-InFront :
    (id : ℕ) (ws ws' : List WmWindow) → IsRaised id ws ws' → InFront false id (ids ws) (ids ws')
raised-InFront id ws ws' r = (
  ids r.behind,
  ids r.before,
  ap ids r.at
      ∙ ids-append r.behind (r.window ∷ r.before)
      ∙ ap (λ x. ids r.behind ++ (x ∷ ids r.before)) r.named,
  ap ids r.raised
      ∙ ids-append (r.behind ++ r.before) (r.window ∷ [])
      ∙ ap (λ l. l ++ (r.window.id ∷ [])) (ids-append r.behind r.before)
      ∙ ap (λ x. (ids r.behind ++ ids r.before) ++ (x ∷ [])) r.named,
)

focused_on : (focused : Option ℕ) (id : ℕ) → is_some focused id ≡ true → focused ≡ some id
focused_on none id h = absurd (ground arith)
focused_on (some f) id h = ap some (ground arith)

not_focused : (focused : Option ℕ) (id : ℕ) → focused ≡ some id → is_some focused id ≡ false → ⊥
not_focused focused id e off = absurd (ground (arith, rw e at off))

-- The ids behind a change of focus.
kept_ids :
    (next id : ℕ) (l l' : List ℕ)
    → InFront false id l l'
    → Distinct l
    → All (λ x. x < next) l
    → Distinct l' × All (λ x. x < next) l' × Among id l'
kept_ids next id l l' f d below = (
  rw f.3 (Distinct-moved id f.0 f.1 (rw f.2 at d)),
  rw f.3 (All_moved (λ x. x < next) f.0 id f.1 (rw f.2 at below)),
  rw f.3 (Among-append_right id (f.0 ++ f.1) (id ∷ []) (inl refl)),
)

module _ (font : Font) (from_utf8 : List ℕ → Option (List ℕ)) where
  -- The steps of a change of focus to a window.
  raise :
      (id : ℕ) (wm : WindowManager)
      → IsManager wm
      → Among id (ids wm.windows)
      → Returns
          (λ ws. All (IsSound wm.screen_info) ws × InFront false id (ids wm.windows) (ids ws))
          (unfocus font from_utf8 wm.focused wm.windows >>= λ ws.
            with_window id (redraw font from_utf8 true) (to_front id ws))
  raise id wm m among =
      Returns->>= _ _ (unfocus font from_utf8 wm.focused wm.windows) _
        (unfocus-IsSound font from_utf8 wm.screen_info wm.focused wm.windows m.windows)
        (λ ws h.
          let r = to_front-IsRaised id ws (subst (Among id) (sym h.1) among) in
          let all : All (IsSound wm.screen_info) (to_front id ws) =
            rw r.raised
              (All_moved (IsSound wm.screen_info) r.behind r.window r.before (rw r.at at h.0)) in
          Returns-imp _ _ (with_window id (redraw font from_utf8 true) (to_front id ws))
            (λ ws' k. (k.0, rw (k.1, ← h.1) (raised-InFront id ws (to_front id ws) r)))
            (with_window-All (IsSound wm.screen_info) id (redraw font from_utf8 true)
              (redraw-IsSound font from_utf8 wm.screen_info true) (to_front id ws) all))

  -- `focus_window` of a window of a valid manager does not panic. The manager stays valid, the
  -- window has the focus. If it had the focus already, nothing of the manager changes; else it comes
  -- in front of the others, which keep their order, and a composite is asked for. The screen, its buffers and the cursor stay as they are.
  pub focus_window-IsManager :
      (id : ℕ) (wm : WindowManager)
      → IsManager wm
      → Among id (ids wm.windows)
      → Returns
          (λ wm'.
            IsManager wm'
            × (wm'.focused ≡ some id)
            × InFront (is_some wm.focused id) id (ids wm.windows) (ids wm'.windows)
            × (wm.focused ≡ some id → wm' ≡ wm)
            × (wm.focused ≢ some id → wm'.needs_composite ≡ true)
            × (displayed wm' ≡ displayed wm))
          (focus_window font from_utf8 id wm)
  unfolding focus_window
  focus_window-IsManager id wm m among = elim (Bool-cases (is_some wm.focused id)) [
    | inl has ↦ rw has (
      m,
      focused_on wm.focused id has,
      refl,
      (λ e. refl),
      (λ ne. absurd (ne (focused_on wm.focused id has))),
      refl,
    )
    | inr other ↦ rw other (
        subst (Returns _)
          (>>=_assoc (unfocus font from_utf8 wm.focused wm.windows)
            (λ ws. with_window id (redraw font from_utf8 true) (to_front id ws)) _)
          (Returns->>= _ _
            (unfocus font from_utf8 wm.focused wm.windows >>= λ ws.
              with_window id (redraw font from_utf8 true) (to_front id ws))
            _ (raise id wm m among)
            (λ ws h.
              let k = kept_ids wm.next_id id (ids wm.windows) (ids ws) h.1 m.distinct m.below in
              (
                record { windows = h.0; distinct = k.0; below = k.1; focus = k.2 },
                refl,
                h.1,
                (λ e. absurd (not_focused wm.focused id e other)),
                (λ ne. refl),
                refl,
              ))))
  ]
