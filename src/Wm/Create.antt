-- ===== src/Wm/Create.antt =====
-- A new window: `create_window` of kernel/src/wm.rs.
use r_os.Common.{
  ℕ, ◌+◌, ◌-◌, ◌*◌, ◌^◌, ◌≤◌, ◌<◌, min, ◌≡◌, refl, ap, ◌∙◌, inl, inr, Bool, true, ◌&&◌, ◌||◌,
  mul_mono, lt→ltb, Option, none, some, List, [], ◌∷◌, ◌++◌, arith, if◌then◌else◌, length, take,
  replicate, length-append, length-replicate, length-take, All,
}
use r_os.Common.Distinct.{Among, Among-append_left, Among-append_right, Distinct-append_new}
use r_os.Common.Loops.{Returns, Returns->>=}
use r_os.Fb.{FrameBufferInfo}
use r_os.Fb.Text.{Font}
use r_os.Wm.Window.{WmWindow, draw_chrome}
use r_os.Wm.Manager.{WindowManager, is_some}
use r_os.Wm.Chrome.{Redrawn, draw_chrome-Redrawn}
use r_os.Fb.{window_padding, default_title_bar_height}
use r_os.Fb.Pixel.{IsTrueColor}
use r_os.Wm.Window.{max_title}
use r_os.Wm.Manager.{Spec, blank_window, is_none, is_allocated, add_window, create_window}
use r_os.Wm.Window.{draw_chrome}
use r_os.Wm.Manager.{WindowManager, is_some}
use r_os.Wm.Valid.{IsSound, IsManager, displayed, IsFocus, ids, ids-append, All-append}
use r_os.Wm.Blit.{IsModest}
use r_os.Wm.Focus.{IsSound_drawn}

-- A window with room for its chrome, and of sizes and at a place below 2^24.
pub record IsRoomy (spec : Spec) : Type 0 where
  pub wide : 2 * window_padding ≤ spec.width
  pub high : default_title_bar_height + 2 * window_padding ≤ spec.height
  pub sizes : (spec.width < 2 ^ 24) × (spec.height < 2 ^ 24)
  pub place : spec.x < 2 ^ 24

area_lt : (spec : Spec) → IsRoomy spec → spec.height * spec.width < 2 ^ 48
area_lt spec roomy =
    let most : spec.height * spec.width ≤ 2 ^ 24 * spec.width =
      mul_mono spec.height (2 ^ 24) spec.width (omega (arith, roomy.sizes)) in
    omega (arith, roomy.sizes)

allocated :
    (screen : FrameBufferInfo) (spec : Spec)
    → IsModest screen
    → IsRoomy spec
    → is_allocated spec.width spec.height screen.bytes_per_pixel ≡ true
allocated screen spec modest roomy =
    let area : spec.width * spec.height < 2 ^ 48 =
      let e : spec.width * spec.height ≡ spec.height * spec.width = grind arith in
      omega (arith, area_lt spec roomy) in
    let bytes : screen.bytes_per_pixel * (spec.width * spec.height)
        ≤ 16 * (spec.width * spec.height) =
      mul_mono screen.bytes_per_pixel 16 (spec.width * spec.height) modest.bytes in
    let e : spec.width * spec.height * screen.bytes_per_pixel
        ≡ screen.bytes_per_pixel * (spec.width * spec.height) =
      grind arith in
    both _ _ (lt→ltb (spec.width * spec.height) (2 ^ 64) (omega arith))
      (lt→ltb (spec.width * spec.height * screen.bytes_per_pixel) (2 ^ 63) (omega arith))
  where
    both : (a b : Bool) → a ≡ true → b ≡ true → (a && b) ≡ true
    both a b ha hb = ground arith

pub blank_window-IsSound :
    (screen : FrameBufferInfo) (id : ℕ) (spec : Spec)
    → IsTrueColor screen
    → IsModest screen
    → IsRoomy spec
    → IsSound screen (blank_window screen id spec)
blank_window-IsSound screen id spec colors modest roomy = record {
  drawable = record {
    canvas = record {
      colors = record { format = colors.format; bytes = colors.bytes };
      in_stride = omega arith;
      in_words = (omega (arith, roomy.sizes), omega (arith, roomy.sizes));
      holds =
          omega
            (arith, length-replicate {A = ℕ} (spec.width * spec.height * screen.bytes_per_pixel) 0);
    };
    sizes = (refl, refl);
    room = (roomy.wide, omega (arith, roomy.high));
    titled = omega (
      arith,
      length-append (take (min (length spec.title) max_title) spec.title)
          (replicate (max_title - min (length spec.title) max_title) 0),
      length-take (min (length spec.title) max_title) spec.title,
      length-replicate {A = ℕ} (max_title - min (length spec.title) max_title) 0,
    );
  };
  same_format = refl;
  same_bytes = refl;
  modest = record { pixels = area_lt spec roomy; bytes = modest.bytes };
  near = record { left = roomy.place; wide = roomy.sizes.0 };
  hosted = tt;
}

-- The focus once a window is there.
abbrev pub focus_or : Option ℕ → ℕ → Option ℕ
focus_or none id = some id
focus_or (some f) id = some f

focused_then :
    (focused : Option ℕ) (id : ℕ)
    → (if is_none focused then some id else focused) ≡ focus_or focused id
focused_then none id = refl
focused_then (some f) id = refl

new-IsFocus :
    (focused : Option ℕ) (id : ℕ) (l : List ℕ)
    → IsFocus focused l
    → IsFocus (focus_or focused id) (l ++ (id ∷ []))
new-IsFocus none id l h = Among-append_right id l (id ∷ []) (inl refl)
new-IsFocus (some f) id l h = Among-append_left f l (id ∷ []) h

not-Among : (id : ℕ) (l : List ℕ) → All (λ x. x < id) l → ¬ Among id l
not-Among id [] below h = h
not-Among id (x ∷ l) below (inl e) = omega (arith, below.0)
not-Among id (x ∷ l) below (inr h) = not-Among id l below.1 h

All-imp : (P Q : ℕ → Type 0) (l : List ℕ) → ((x : ℕ) → P x → Q x) → All P l → All Q l
All-imp P Q [] f h = tt
All-imp P Q (x ∷ l) f h = (f x h.0, All-imp P Q l f h.1)

module _ (font : Font) (from_utf8 : List ℕ → Option (List ℕ)) where
  -- On a true-colour screen of fewer than 2^48 pixels of at most 16 bytes, a window with room for
  -- its chrome, its width, height and left edge below 2^24, is created without a panic: the
  -- manager stays valid, the window has a new id and is in front of all others, and it has the
  -- focus if no window had it. The screen, its buffers and the cursor
  -- stay as they are.
  pub create_window-IsManager :
      (spec : Spec) (wm : WindowManager)
      → IsTrueColor wm.screen_info
      → IsModest wm.screen_info
      → IsRoomy spec
      → IsManager wm
      → Returns
          (λ p.
            IsManager p.1
            × (p.0 ≡ wm.next_id)
            × (¬ Among p.0 (ids wm.windows))
            × (ids p.1.windows ≡ ids wm.windows ++ (p.0 ∷ []))
            × (p.1.focused ≡ focus_or wm.focused p.0)
            × (displayed p.1 ≡ displayed wm))
          (create_window font from_utf8 spec wm)
  unfolding create_window add_window
  create_window-IsManager spec wm colors modest roomy m =
      let id : ℕ = wm.next_id in
      let win : WmWindow = blank_window wm.screen_info id spec in
      let sound = blank_window-IsSound wm.screen_info id spec colors modest roomy in
      let new = not-Among id (ids wm.windows) m.below in
      rw (allocated wm.screen_info spec modest roomy) (
        Returns->>= (Redrawn win) _
          (draw_chrome font from_utf8 (is_none wm.focused || is_some wm.focused id) win) _
          (draw_chrome-Redrawn font from_utf8 (is_none wm.focused || is_some wm.focused id) win
            sound.drawable)
          (λ win' r.
            let here : ids (wm.windows ++ (win' ∷ [])) ≡ ids wm.windows ++ (id ∷ []) =
              ids-append wm.windows (win' ∷ [])
              ∙ ap (λ (w : WmWindow). ids wm.windows ++ (w.id ∷ [])) r.same in
            (
              record {
                windows = All-append (IsSound wm.screen_info) wm.windows (win' ∷ []) m.windows (
                  rw (r.same) (IsSound_drawn wm.screen_info win r.drawn true sound r.kept.canvas),
                  tt,
                );
                distinct = rw here (Distinct-append_new (ids wm.windows) id new m.distinct);
                below = rw here (
                    All-append (λ x. x < id + 1) (ids wm.windows) (id ∷ [])
                      (All-imp (λ x. x < id) (λ x. x < id + 1) (ids wm.windows) (λ x h. omega arith)
                        m.below)
                      (omega arith, tt));
                focus =
                    rw (here, focused_then wm.focused id)
                      (new-IsFocus wm.focused id (ids wm.windows) m.focus);
              },
              refl,
              new,
              here,
              focused_then wm.focused id,
              refl,
            )))
