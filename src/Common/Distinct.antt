-- ===== src/Common/Distinct.antt =====
-- Lists of numbers without repetition, and one of them moved to the end.
use r_os.Common.{ℕ, ◌≡◌, sym, ◌⊎◌, inl, inr, List, [], ◌∷◌, ◌++◌}

-- Whether a number is one of a list.
abbrev pub Among : ℕ → List ℕ → Type 0
Among id [] = ⊥
Among id (x ∷ xs) = (id ≡ x) ⊎ Among id xs

-- No number twice.
abbrev pub Distinct : List ℕ → Type 0
Distinct [] = Unit
Distinct (x ∷ xs) = (¬ Among x xs) × Distinct xs

pub Among-append : (x : ℕ) (a b : List ℕ) → Among x (a ++ b) → Among x a ⊎ Among x b
Among-append x [] b h = inr h
Among-append x (y ∷ a) b (inl e) = inl (inl e)
Among-append x (y ∷ a) b (inr h) = elim (Among-append x a b h) [
  | inl l ↦ inl (inr l)
  | inr r ↦ inr r
]

pub Among-append_left : (x : ℕ) (a b : List ℕ) → Among x a → Among x (a ++ b)
Among-append_left x [] b h = absurd h
Among-append_left x (y ∷ a) b (inl e) = inl e
Among-append_left x (y ∷ a) b (inr h) = inr (Among-append_left x a b h)

pub Among-append_right : (x : ℕ) (a b : List ℕ) → Among x b → Among x (a ++ b)
Among-append_right x [] b h = h
Among-append_right x (y ∷ a) b h = inr (Among-append_right x a b h)

-- A new number at the end.
pub Distinct-append_new : (l : List ℕ) (x : ℕ) → ¬ Among x l → Distinct l → Distinct (l ++ (x ∷ []))
Distinct-append_new [] x new d = (λ h. h, tt)
Distinct-append_new (y ∷ l) x new d = (
  λ h. elim (Among-append y l (x ∷ []) h) [
    | inl there ↦ d.0 there
    | inr (inl e) ↦ new (inl (sym e))
    | inr (inr none) ↦ none
  ],
  Distinct-append_new l x (λ h. new (inr h)) d.1,
)

module _ (y : ℕ) where
  -- `y` out of its place, to the end.
  pub Among-moved :
      (x : ℕ) (before after : List ℕ)
      → Among x ((before ++ after) ++ (y ∷ []))
      → Among x (before ++ (y ∷ after))
  Among-moved x [] after h = elim (Among-append x after (y ∷ []) h) [
    | inl there ↦ inr there
    | inr (inl e) ↦ inl e
    | inr (inr none) ↦ absurd none
  ]
  Among-moved x (z ∷ before) after (inl e) = inl e
  Among-moved x (z ∷ before) after (inr h) = inr (Among-moved x before after h)

  pub Distinct-moved :
      (before after : List ℕ)
      → Distinct (before ++ (y ∷ after))
      → Distinct ((before ++ after) ++ (y ∷ []))
  Distinct-moved [] after d = Distinct-append_new after y d.0 d.1
  Distinct-moved (z ∷ before) after d =
      (λ h. d.0 (Among-moved z before after h), Distinct-moved before after d.1)
