-- ===== src/Wm/Clicks.antt =====
-- The mouse of kernel/src/wm.rs: `handle_mouse` and the clicks.
use r_os.Common.{
  ℕ, ◌+◌, ◌-◌, ◌*◌, ◌≤◌, ◌<◌, ◌≡◌, refl, sym, ap, ◌⊎◌, inl, inr, Bool, true, false, ◌&&◌, Option,
  none, some, List, [], ◌∷◌, ◌++◌, arith, dec_lt, ltb, leb, if◌then◌else◌, Bool-cases,
}
use r_os.Common.Distinct.{Among, Among-append_right}
use r_os.Common.Loops.{Returns, Returns->>=, Returns-imp}
use mathlib.Core.List.{reverse}
use r_os.Fb.{black}
use r_os.Fb.Text.{Font, font_width}
use r_os.Wm.Cursor.{as_usize}
use r_os.Wm.Window.{WmWindow}
use r_os.Wm.Manager.{
  WindowManager, label_at, labels_x, focus_target, focus_window, handle_taskbar_click,
}
use r_os.Wm.Screen.{first_hit, click, taskbar_y}
use r_os.Wm.Focus.{focus_window-IsManager}
use r_os.Wm.Hit.{IsSeen, first_hit-IsSeen}
use r_os.Wm.Valid.{IsManager, displayed, ids, ids-append}

-- What a search for a window may give.
abbrev pub IsTarget : List WmWindow → Option ℕ → Type 0
IsTarget ws none = Unit
IsTarget ws (some id) = Among id (ids ws)

label_at-IsTarget : (mx lx : ℕ) (ws : List WmWindow) → IsTarget ws (label_at mx lx ws)
unfolding label_at
label_at-IsTarget mx lx [] = tt
label_at-IsTarget mx lx (w ∷ ws) =
    later w ws (leb (lx - 4) mx && ltb mx (lx + (w.title_len * font_width + 16)))
      (label_at mx (lx + (w.title_len * font_width + 16)) ws)
      (label_at-IsTarget mx (lx + (w.title_len * font_width + 16)) ws)
  where
    later :
        (w : WmWindow) (ws : List WmWindow) (b : Bool) (rest : Option ℕ)
        → IsTarget ws rest
        → IsTarget (w ∷ ws) (if b then some w.id else rest)
    later w ws true rest t = inl refl
    later w ws false none t = tt
    later w ws false (some id) t = inr t

seen-IsTarget :
    (px py : ℕ) (ws : List WmWindow) (found : Option ℕ)
    → IsSeen px py ws black found
    → IsTarget ws found
seen-IsTarget px py ws none seen = tt
seen-IsTarget px py ws (some id) seen =
    rw (seen.3, ids-append seen.1 (seen.0 ∷ seen.2))
      (Among-append_right id (ids seen.1) (seen.0.id ∷ ids seen.2) (inl (sym seen.4)))

-- Where the label behind those of some windows begins.
abbrev pub label_end : ℕ → List WmWindow → ℕ
label_end lx [] = lx
label_end lx (w ∷ ws) = label_end (lx + (w.title_len * font_width + 16)) ws

-- The label at `mx`, if there is one, the first beginning at `lx`. A label reaches up to the next one; the first
-- begins four pixels early.
abbrev pub IsLabel : ℕ → ℕ → List WmWindow → Option ℕ → Type 0
IsLabel mx lx ws none = (ws ≡ []) ⊎ (mx + 4 < lx) ⊎ (label_end lx ws ≤ mx)
IsLabel mx lx ws (some id) =
    (before : List WmWindow) × (w : WmWindow) × (after : List WmWindow) × (ws
      ≡ before ++ (w ∷ after))
    × (w.id ≡ id)
    × ((label_end lx before ≤ mx) ⊎ ((before ≡ []) × (lx ≤ mx + 4)))
    × (mx < label_end lx before + (w.title_len * font_width + 16))

-- No label at `mx` but one behind the first.
later :
    (mx lx : ℕ) (w : WmWindow) (ws : List WmWindow)
    → (leb (lx - 4) mx && ltb mx (lx + (w.title_len * font_width + 16))) ≡ false
    → (found : Option ℕ) → IsLabel mx (lx + (w.title_len * font_width + 16)) ws found
    → 4 ≤ lx
    → IsLabel mx lx (w ∷ ws) found
later mx lx w ws off none (inl e) h = elim (dec_lt (mx + 4) lx) [
  | yes left ↦ inr (inl left)
  | no right ↦ inr (inr (rw e (ground arith)))
]
later mx lx w ws off none (inr (inl left)) h = inr (inl (ground arith))
later mx lx w ws off none (inr (inr behind)) h = inr (inr behind)
later mx lx w ws off (some id) (before, v, after, at, named, inl from, to) h =
    (w ∷ before, v, after, ap (λ l. w ∷ l) at, named, inl from, to)
later mx lx w ws off (some id) (before, v, after, at, named, inr (e, early), to) h =
    (w ∷ before, v, after, ap (λ l. w ∷ l) at, named, inl (rw e (ground arith)), to)

label_at-IsLabel : (mx lx : ℕ) (ws : List WmWindow) → 4 ≤ lx → IsLabel mx lx ws (label_at mx lx ws)
unfolding label_at
label_at-IsLabel mx lx [] h = inl refl
label_at-IsLabel mx lx (w ∷ ws) h =
    elim (Bool-cases (leb (lx - 4) mx && ltb mx (lx + (w.title_len * font_width + 16)))) [
      | inl here ↦ rw here ([], w, ws, refl, refl, inr (refl, ground arith), ground arith)
      | inr off ↦ rw off (
          later mx lx w ws off (label_at mx (lx + (w.title_len * font_width + 16)) ws)
            (label_at-IsLabel mx (lx + (w.title_len * font_width + 16)) ws (omega arith)) h)
    ]

-- The focus behind a search.
abbrev pub focus_behind : Option ℕ → Option ℕ → Option ℕ
focus_behind none focused = focused
focus_behind (some id) focused = some id

-- What a click at `mx`, `my` finds, in the taskbar or above it, has the focus then.
abbrev pub IsClicked : Bool → ℕ → ℕ → WindowManager → WindowManager → Type 0
IsClicked true mx my wm wm' =
    (found : Option ℕ) × IsLabel mx labels_x wm.windows found
    × (wm'.focused ≡ focus_behind found wm.focused)
IsClicked false mx my wm wm' =
    (found : Option ℕ) × IsSeen mx my wm.windows black found
    × (wm'.focused ≡ focus_behind found wm.focused)

module _ (font : Font) (from_utf8 : List ℕ → Option (List ℕ)) where
  focus_target-IsManager :
      (found : Option ℕ) (wm : WindowManager)
      → IsManager wm
      → IsTarget wm.windows found
      → Returns
          (λ wm'.
            IsManager wm'
            × (wm'.focused ≡ focus_behind found wm.focused)
            × (displayed wm' ≡ displayed wm))
          (focus_target font from_utf8 found wm)
  unfolding focus_target
  focus_target-IsManager none wm m t = (m, refl, refl)
  focus_target-IsManager (some id) wm m t =
      Returns-imp _ _ (focus_window font from_utf8 id wm) (λ wm' h. (h.0, h.1, h.5))
        (focus_window-IsManager font from_utf8 id wm m t)

  pub click-IsManager :
      (wm : WindowManager)
      → IsManager wm
      → Returns
          (λ wm'.
            IsManager wm'
            × IsClicked
                (leb (taskbar_y wm.screen_info) (as_usize wm.cursor.y))
                (as_usize wm.cursor.x)
                (as_usize wm.cursor.y)
                wm
                wm'
            × (displayed wm' ≡ displayed wm))
          (click font from_utf8 wm)
  unfolding click handle_taskbar_click
  click-IsManager wm m = elim (Bool-cases (leb (taskbar_y wm.screen_info) (as_usize wm.cursor.y))) [
    | inl bar ↦ rw (bar) (
        Returns->>= _ _
          (focus_target font from_utf8 (label_at (as_usize wm.cursor.x) labels_x wm.windows) wm) _
          (focus_target-IsManager (label_at (as_usize wm.cursor.x) labels_x wm.windows) wm m
            (label_at-IsTarget (as_usize wm.cursor.x) labels_x wm.windows))
          (λ wm' h. (
            record {
              windows = h.0.windows;
              distinct = h.0.distinct;
              below = h.0.below;
              focus = h.0.focus;
            },
            (
              label_at (as_usize wm.cursor.x) labels_x wm.windows,
              label_at-IsLabel (as_usize wm.cursor.x) labels_x wm.windows (omega arith),
              h.1,
            ),
            h.2,
          )))
    | inr above ↦
        let mx : ℕ = as_usize wm.cursor.x in
        let my : ℕ = as_usize wm.cursor.y in
        let found : Option ℕ = first_hit mx my (reverse wm.windows) in
        rw above (
          Returns-imp _ _ (focus_target font from_utf8 found wm)
            (λ wm' h. (h.0, (found, first_hit-IsSeen mx my wm.windows black, h.1), h.2))
            (focus_target-IsManager found wm m
              (seen-IsTarget mx my wm.windows found (first_hit-IsSeen mx my wm.windows black))))
  ]
