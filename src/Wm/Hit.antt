-- ===== src/Wm/Hit.antt =====
-- Which window a point belongs to, and what is seen there: the search of handle_mouse in
-- kernel/src/wm.rs against the layers of the screen.
use r_os.Common.{
  ℕ, ◌≡◌, refl, ap, ◌∙◌, inl, inr, true, Option, none, some, List, [], ◌∷◌, ◌++◌, if◌then◌else◌,
  Bool-cases,
}
use mathlib.Core.List.{reverse, reverse-cons}
use r_os.Fb.{Color}
use r_os.Wm.Window.{WmWindow}
use r_os.Wm.Screen.{covers, first_hit}
use r_os.Wm.Layers.{window_pixel, shown}

-- What a search from the front may find: nothing where the ground is seen, else the window seen,
-- with those behind it and those before it.
abbrev pub IsSeen : ℕ → ℕ → List WmWindow → Color → Option ℕ → Type 0
IsSeen px py ws c none = shown px py ws c ≡ c
IsSeen px py ws c (some id) =
    (win : WmWindow) × (behind : List WmWindow) × (before : List WmWindow) × (ws
      ≡ behind ++ (win ∷ before))
    × (win.id ≡ id)
    × (covers px py win ≡ true)
    × (shown px py ws c ≡ window_pixel win px py)

first_hit-append :
    (px py : ℕ) (ws : List WmWindow) (w : WmWindow)
    → first_hit px py (ws ++ (w ∷ [])) ≡ elim (first_hit px py ws) [
      | none ↦ if covers px py w then some w.id else none
      | some id ↦ some id
    ]
unfolding first_hit
first_hit-append px py [] w = refl
first_hit-append px py (v ∷ ws) w = elim (Bool-cases (covers px py v)) [
  | inl here ↦ rw here
  | inr off ↦ rw off (first_hit-append px py ws w)
]

-- A window behind others.
over :
    (px py : ℕ) (w : WmWindow) (ws : List WmWindow) (c : Color) (found : Option ℕ)
    → IsSeen px py ws (if covers px py w then window_pixel w px py else c) found
    → IsSeen px py
        (w ∷ ws)
        c
        (elim found [ none ↦ if covers px py w then some w.id else none | some id ↦ some id ])
over px py w ws c none seen = elim (Bool-cases (covers px py w)) [
  | inl here ↦ rw here (w, [], ws, refl, refl, here, seen ∙ rw here)
  | inr off ↦
      let clear : (if covers px py w then window_pixel w px py else c) ≡ c = rw off refl in
      rw off (seen ∙ clear)
]
over px py w ws c (some id) seen =
    (seen.0, w ∷ seen.1, seen.2, ap (λ l. w ∷ l) seen.3, seen.4, seen.5, seen.6)

-- The window that a click finds at a point is the one whose pixel is seen there, whatever lies
-- below the windows; where it finds none, what lies below is seen.
pub first_hit-IsSeen :
    (px py : ℕ) (ws : List WmWindow) (c : Color) → IsSeen px py ws c (first_hit px py (reverse ws))
unfolding first_hit
first_hit-IsSeen px py [] c = refl
first_hit-IsSeen px py (w ∷ ws) c =
    let under : Color = if covers px py w then window_pixel w px py else c in
    rw (reverse-cons w ws, first_hit-append px py (reverse ws) w)
      (over px py w ws c (first_hit px py (reverse ws)) (first_hit-IsSeen px py ws under))
