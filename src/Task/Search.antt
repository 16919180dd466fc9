-- ===== src/Task/Search.antt =====
-- The search of `yield_now` for the next task.
use r_os.Common.{
  ℕ, zero, suc, ◌+◌, ◌%◌, ◌<◌, ◌≡◌, refl, sym, ap, ◌∙◌, subst, inl, inr, Bool, true, false, Option,
  none, some, List, [], ◌∷◌, arith, ◌==◌, if◌then◌else◌, Bool-cases, length, get_elem?,
}
use mathlib.Core.Option
use native.Mathlib.Nat.{mod-add-mod, mod-eq_of_lt, add-zero}
use r_os.Task.{Task, is_runnable, find_next, update_task}

pub get_elem?-total {ℓ} :
    {A : Type ℓ} (xs : List A) (i : ℕ) → i < length xs → (x : A) × (get_elem? xs i ≡ some x)
get_elem?-total [] i h = absurd (omega arith)
get_elem?-total (x ∷ xs) zero h = (x, refl)
get_elem?-total (x ∷ xs) (suc i) h = get_elem?-total xs i (omega arith)

pub get_elem?-update_task :
    (ts : List Task) (i j : ℕ) (f : Task → Task)
    → get_elem? (update_task ts i f) j
      ≡ (if i == j then Option.map f (get_elem? ts j) else get_elem? ts j)
get_elem?-update_task [] i j f = ground arith
get_elem?-update_task (t ∷ ts) zero zero f = refl
get_elem?-update_task (t ∷ ts) zero (suc j) f = ground arith
get_elem?-update_task (t ∷ ts) (suc i) zero f = ground arith
get_elem?-update_task (t ∷ ts) (suc i) (suc j) f = get_elem?-update_task ts i j f ∙ ground arith

pub length-update_task :
    (ts : List Task) (i : ℕ) (f : Task → Task) → length (update_task ts i f) ≡ length ts
length-update_task [] i f = refl
length-update_task (t ∷ ts) zero f = refl
length-update_task (t ∷ ts) (suc i) f = ap suc (length-update_task ts i f)

-- Whether the task at an index may run.
abbrev pub Runs : List Task → ℕ → Bool → Type 0
Runs ts i b = (t : Task) × (get_elem? ts i ≡ some t) × (is_runnable t.state ≡ b)

-- The search from index `i` ends at the first task on the way round that may run.
abbrev pub Searched : ℕ → List Task → ℕ → Option ℕ → Type 0
Searched rounds ts i none = (d : ℕ) → d < rounds → Runs ts ((i + d) % length ts) false
Searched rounds ts i (some j) =
    (d : ℕ) × (d < rounds)
    × (j ≡ (i + d) % length ts)
    × Runs ts j true
    × ((e : ℕ) → e < d → Runs ts ((i + e) % length ts) false)

-- One step further round.
pub round-suc : (i d n : ℕ) → ((i + 1) % n + d) % n ≡ (i + suc d) % n
round-suc i d n = rw mod-add-mod (ap (λ k. k % n) (omega arith))

pub round-zero : (i n : ℕ) → i < n → (i + 0) % n ≡ i
round-zero i n h = rw add-zero (mod-eq_of_lt h)

Searched-skip :
    (rounds : ℕ) (ts : List Task) (i : ℕ) (found : Option ℕ)
    → i < length ts
    → Runs ts i false
    → Searched rounds ts ((i + 1) % length ts) found
    → Searched (suc rounds) ts i found
Searched-skip rounds ts i none h asleep rest = go
  where
    go : (d : ℕ) → d < suc rounds → Runs ts ((i + d) % length ts) false
    go zero hd = subst (λ k. Runs ts k false) (sym (round-zero i (length ts) h)) asleep
    go (suc d) hd = subst (λ k. Runs ts k false) (round-suc i d (length ts)) (rest d (omega arith))
Searched-skip rounds ts i (some j) h asleep (d, hd, at, runs, before) =
    (suc d, omega arith, at ∙ round-suc i d (length ts), runs, go)
  where
    go : (e : ℕ) → e < suc d → Runs ts ((i + e) % length ts) false
    go zero he = subst (λ k. Runs ts k false) (sym (round-zero i (length ts) h)) asleep
    go (suc e) he =
        subst (λ k. Runs ts k false) (round-suc i e (length ts)) (before e (omega arith))

-- `find_next` finds the first task, going round from `i`, that may run, or tells that none may.
pub find_next-Searched :
    (rounds : ℕ) (ts : List Task) (i : ℕ)
    → i < length ts
    → Searched rounds ts i (find_next rounds ts i)
unfolding find_next
find_next-Searched zero ts i h = λ d hd. absurd (omega arith)
find_next-Searched (suc rounds) ts i h =
    let (t, here) = get_elem?-total ts i h in
    elim (Bool-cases (is_runnable t.state)) [
      | inl runs ↦
          rw (here, find_next)
            (rw runs (
              0,
              omega arith,
              sym (round-zero i (length ts) h),
              (t, here, runs),
              λ e he. absurd (omega arith),
            ))
      | inr asleep ↦
          rw (here, find_next)
            (rw asleep (
              Searched-skip rounds ts i (find_next rounds ts ((i + 1) % length ts)) h
                (t, here, asleep)
                (find_next-Searched rounds ts ((i + 1) % length ts) (omega arith))))
    ]
