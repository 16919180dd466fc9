-- ===== src/Common/Loops.antt =====
-- A counted loop whose body may panic, and the rule to reason about it.
use Prim.Native.Nat.{ℕ, zero, suc, ◌+◌, ◌≤◌, ◌<◌}
use mathlib.Core.Path.{◌≡◌, refl, subst}
use mathlib.Core.Bool.{Bool, true, false}
use r_os.Common.Tests.{if◌then◌else◌}
use mathlib.Core.Option.{Option, none, some}
use native.Mathlib.Omega.{arith}

infixl 5 ◌>>=◌
abbrev pub ◌>>=◌ {ℓ κ} : {A : Type ℓ} {B : Type κ} → Option A → (A → Option B) → Option B
none >>= f = none
some a >>= f = f a

-- `for k in i..i + n`
unfoldable pub for_range {ℓ} : {S : Type ℓ} → ℕ → ℕ → (ℕ → S → Option S) → S → Option S
for_range zero i body s = some s
for_range (suc n) i body s = body i s >>= λ s'. for_range n (i + 1) body s'

-- The result of a run that does not panic, with a property.
abbrev pub Returns {ℓ} : {A : Type ℓ} → (A → Type 0) → Option A → Type 0
Returns P none = ⊥
Returns P (some a) = P a

pub Returns->>= {ℓ κ} :
    {A : Type ℓ} {B : Type κ} (P : A → Type 0) (Q : B → Type 0) (m : Option A) (f : A → Option B)
    → Returns P m
    → ((a : A) → P a → Returns Q (f a))
    → Returns Q (m >>= f)
Returns->>= P Q none f h k = absurd h
Returns->>= P Q (some a) f h k = k a h

pub Returns-imp {ℓ} :
    {A : Type ℓ} (P Q : A → Type 0) (m : Option A)
    → ((a : A) → P a → Q a)
    → Returns P m
    → Returns Q m
Returns-imp P Q none f h = h
Returns-imp P Q (some a) f h = f a h

-- A loop whose rounds all return and keep an invariant returns and keeps it. The end `j` is a
-- variable with an equation.
pub for_range_inv {ℓ} :
    {S : Type ℓ} (P : ℕ → S → Type 0) (body : ℕ → S → Option S) (n i j : ℕ) (s : S)
    → i + n ≡ j
    → ((k : ℕ) (s : S) → i ≤ k → k < j → P k s → Returns (P (k + 1)) (body k s))
    → P i s
    → Returns (P j) (for_range n i body s)
unfolding for_range
for_range_inv P body zero i j s e keep h = let e' : i ≡ j = omega arith in subst (λ k. P k s) e' h
for_range_inv P body (suc n) i j s e keep h =
    Returns->>= (P (i + 1)) (P j) (body i s) (λ s'. for_range n (i + 1) body s')
      (keep i s (omega arith) (omega arith) h)
      (λ s' h'.
        for_range_inv P body n (i + 1) j s' (omega arith)
          (λ k s'' lo hi p. keep k s'' (omega arith) hi p) h')

-- A run that returns has a result.
pub Returns-some {ℓ} :
    {A : Type ℓ} (P : A → Type 0) (m : Option A) → Returns P m → (a : A) × ((m ≡ some a) × P a)
Returns-some P none h = absurd h
Returns-some P (some a) h = (a, (refl, h))

pub >>=_assoc {ℓ κ μ} :
    {A : Type ℓ} {B : Type κ} {C : Type μ} (m : Option A) (f : A → Option B) (g : B → Option C)
    → ((m >>= f) >>= g) ≡ (m >>= λ a. f a >>= g)
>>=_assoc none f g = refl
>>=_assoc (some a) f g = refl

-- Either branch.
pub Returns-if {ℓ} :
    {A : Type ℓ} (P : A → Type 0) (b : Bool) (m n : Option A)
    → Returns P m
    → Returns P n
    → Returns P (if b then m else n)
Returns-if P true m n h k = h
Returns-if P false m n h k = k

-- A property of the result of a run, if it has one.
abbrev pub Whenever {ℓ} : {A : Type ℓ} → (A → Type 0) → Option A → Type 0
Whenever P none = Unit
Whenever P (some a) = P a

pub Whenever->>= {ℓ κ} :
    {A : Type ℓ} {B : Type κ} (P : A → Type 0) (Q : B → Type 0) (m : Option A) (f : A → Option B)
    → Whenever P m
    → ((a : A) → P a → Whenever Q (f a))
    → Whenever Q (m >>= f)
Whenever->>= P Q none f h k = tt
Whenever->>= P Q (some a) f h k = k a h

-- A run all of whose results lead to a panic.
pub none->>= {ℓ κ} :
    {A : Type ℓ} {B : Type κ} (P : A → Type 0) (m : Option A) (f : A → Option B)
    → Whenever P m
    → ((a : A) → P a → f a ≡ none)
    → (m >>= f) ≡ none
none->>= P none f h k = refl
none->>= P (some a) f h k = k a h

-- Either branch, with the test's result.
pub Returns-if_cases {ℓ} :
    {A : Type ℓ} (P : A → Type 0) (b : Bool) (m n : Option A)
    → (b ≡ true → Returns P m)
    → (b ≡ false → Returns P n)
    → Returns P (if b then m else n)
Returns-if_cases P true m n h k = h refl
Returns-if_cases P false m n h k = k refl
