-- ===== src/Wm/Front.antt =====
-- Moving a window to the front: `to_front`.
use r_os.Common.{ℕ, ◌≡◌, refl, ap, inl, inr, some, List, [], ◌∷◌, ◌++◌, arith, ◌==◌, Bool-cases}
use r_os.Common.Distinct.{Among}
use r_os.Wm.Window.{WmWindow}
use r_os.Wm.Manager.{take_out, to_front}
use r_os.Wm.Valid.{ids}

-- The window with the id taken from between those behind it and those before it, and put in front.
pub record IsRaised (id : ℕ) (ws ws' : List WmWindow) : Type 0 where
  pub behind : List WmWindow
  pub window : WmWindow
  pub before : List WmWindow
  pub named : window.id ≡ id
  pub at : ws ≡ behind ++ (window ∷ before)
  pub raised : ws' ≡ (behind ++ before) ++ (window ∷ [])

-- What `take_out` gives of a list with the window.
record IsTaken (id : ℕ) (ws : List WmWindow) : Type 0 where
  behind : List WmWindow
  window : WmWindow
  before : List WmWindow
  named : window.id ≡ id
  at : ws ≡ behind ++ (window ∷ before)
  taken : take_out id ws ≡ some (window, behind ++ before)

take_out-IsTaken : (id : ℕ) (ws : List WmWindow) → Among id (ids ws) → IsTaken id ws
unfolding take_out
take_out-IsTaken id [] among = absurd among
take_out-IsTaken id (w ∷ ws) among = elim (Bool-cases (w.id == id)) [
  | inl this ↦ record {
    behind = [];
    window = w;
    before = ws;
    named = ground arith;
    at = refl;
    taken = rw (take_out, this) refl;
  }
  | inr other ↦
      let later : Among id (ids ws) = elim among [ inl e ↦ absurd (ground arith) | inr h ↦ h ] in
      let rest = take_out-IsTaken id ws later in
      record {
        behind = w ∷ rest.behind;
        window = rest.window;
        before = rest.before;
        named = rest.named;
        at = ap (λ l. w ∷ l) rest.at;
        taken = rw (take_out, other, rest.taken) refl;
      }
]

pub to_front-IsRaised :
    (id : ℕ) (ws : List WmWindow) → Among id (ids ws) → IsRaised id ws (to_front id ws)
unfolding to_front
to_front-IsRaised id ws among =
    let t = take_out-IsTaken id ws among in
    record {
      behind = t.behind;
      window = t.window;
      before = t.before;
      named = t.named;
      at = t.at;
      raised = rw (to_front, t.taken) refl;
    }
