-- ===== src/Task/Yield.antt =====
-- The round-robin choice of `yield_now`.
use r_os.Common.{
  ℕ, suc, ◌+◌, ◌-◌, ◌%◌, ◌≤◌, ◌<◌, ◌≡◌, refl, sym, ap, ◌∙◌, subst, ◌≢◌, ◌⊎◌, inl, inr, true, false,
  Option, none, some, arith, dec_lt, ℕ_discrete, length, get_elem?,
}
use native.Mathlib.Nat.{mod-eq-sub-mod, mod-eq_of_lt}
use r_os.Task.{
  Task, Scheduler, Kernel, is_runnable, find_next, switch_context, yield_now, switch_to,
}
use r_os.Task.Search.{Runs, Searched, round-suc, find_next-Searched}
use r_os.Task.Switched.{OneRunning, switched, switched-OneRunning}

-- A whole number of steps round comes back only after all of them.
round_back : (i d n : ℕ) → i < n → d < n → (i + suc d) % n ≡ i → suc d ≡ n
round_back i d n hi hd e = elim (dec_lt (i + suc d) n) [
  | yes below ↦ absurd (omega (arith, mod-eq_of_lt below))
  | no above ↦ omega (
    arith,
    mod-eq-sub-mod {n = i + suc d} {m = n} (omega arith),
    mod-eq_of_lt {n = i + suc d - n} {m = n} (omega arith),
  )
]

round_full : (i d n : ℕ) → i < n → suc d ≡ n → (i + suc d) % n ≡ i
round_full i d n h e = omega (
  arith,
  mod-eq-sub-mod {n = i + suc d} {m = n} (omega arith),
  mod-eq_of_lt {n = i + suc d - n} {m = n} (omega arith),
)

-- `yield_now` has gone to the task `d + 1` places round, the first that may run.
abbrev pub Goes : Kernel → Scheduler → ℕ → Type 0
Goes k sched d =
    let count = length sched.tasks in
    let j = (sched.current + suc d) % count in
    (t : Task) × (get_elem? sched.tasks j ≡ some t)
    × (is_runnable t.state ≡ true)
    × ((e : ℕ) → e < d → Runs sched.tasks ((sched.current + suc e) % count) false)
    × (yield_now k ≡ record k {
      scheduler = some (switched sched j (switch_context k.cpu t.context).1);
      cpu = (switch_context k.cpu t.context).0;
    })
    × OneRunning (switched sched j (switch_context k.cpu t.context).1)

-- `yield_now` has stayed, all other tasks being asleep.
abbrev pub Stays : Kernel → Scheduler → Type 0
Stays k sched =
    ((e : ℕ)
      → suc e < length sched.tasks
      → Runs sched.tasks ((sched.current + suc e) % length sched.tasks) false)
    × (yield_now k ≡ k)

module _ (k : Kernel) (sched : Scheduler) (up : k.scheduler ≡ some sched)
    (on : k.scheduler_running ≡ true) (v : OneRunning sched) (many : 2 ≤ length sched.tasks) where
  abbrev found_next : Option ℕ
  found_next = find_next (length sched.tasks) sched.tasks ((sched.current + 1) % length sched.tasks)

  yield_none : found_next ≡ none → yield_now k ≡ k
  unfolding yield_now
  yield_none e = ground arith

  yield_self : (j : ℕ) → found_next ≡ some j → j ≡ sched.current → yield_now k ≡ k
  unfolding yield_now
  yield_self j e self = ground arith

  yield_other :
      (j : ℕ) (t : Task)
      → found_next ≡ some j
      → j ≢ sched.current
      → get_elem? sched.tasks j ≡ some t
      → yield_now k ≡ record k {
        scheduler = some (switched sched j (switch_context k.cpu t.context).1);
        cpu = (switch_context k.cpu t.context).0;
      }
  unfolding yield_now switch_to
  yield_other j t e other here = ground arith

  -- The tasks before the `n`-th place round are asleep, said of the search and of the choice.
  asleep_before :
      (n : ℕ)
      → ((d : ℕ)
          → d < n
          → Runs sched.tasks
              (((sched.current + 1) % length sched.tasks + d) % length sched.tasks)
              false)
      → (d : ℕ) → d < n
      → Runs sched.tasks ((sched.current + suc d) % length sched.tasks) false
  asleep_before n all d hd =
      subst (λ i. Runs sched.tasks i false) (round-suc sched.current d (length sched.tasks))
        (all d hd)

  short :
      (d : ℕ)
      → d < length sched.tasks
      → (sched.current + suc d) % length sched.tasks ≢ sched.current
      → suc d < length sched.tasks
  short d hd other = elim (dec_lt (suc d) (length sched.tasks)) [
    | yes h ↦ h
    | no h ↦
        absurd (other (round_full sched.current d (length sched.tasks) v.current_in (omega arith)))
  ]

  choice :
      (found : Option ℕ)
      → found_next ≡ found
      → Searched (length sched.tasks) sched.tasks ((sched.current + 1) % length sched.tasks) found
      → ((d : ℕ) × (suc d < length sched.tasks) × Goes k sched d) ⊎ Stays k sched
  choice none e all =
      inr (λ d hd. asleep_before (length sched.tasks) all d (omega arith), yield_none e)
  choice (some j) e (d, hd, at, (t, here, runs), before) =
      let at' : j ≡ (sched.current + suc d) % length sched.tasks =
        at ∙ round-suc sched.current d (length sched.tasks) in
      elim (ℕ_discrete j sched.current) [
        | yes self ↦
            let last : suc d ≡ length sched.tasks =
              round_back sched.current d (length sched.tasks) v.current_in hd (sym at' ∙ self) in
            inr (λ f hf. asleep_before d before f (omega arith), yield_self j e self)
        | no other ↦
            let here' : get_elem? sched.tasks ((sched.current + suc d) % length sched.tasks)
                ≡ some t =
              rw at' at here in
            let other' : (sched.current + suc d) % length sched.tasks ≢ sched.current =
              λ q. other (at' ∙ q) in
            inl (
              d,
              short d hd other',
              (
                t,
                here',
                runs,
                asleep_before d before,
                yield_other ((sched.current + suc d) % length sched.tasks) t (e ∙ ap some at')
                    other' here',
                switched-OneRunning sched ((sched.current + suc d) % length sched.tasks)
                    (switch_context k.cpu t.context).1 (omega arith) v,
              ),
            )
      ]

  -- While the scheduler runs, with at least two tasks and the current one alone running, `yield_now` switches to the first task round
  -- from the current one that may run, which is then the one running task, with the machine
  -- switched to its context and its predecessor's saved; all tasks passed over are asleep. If all
  -- the others are asleep it changes nothing.
  pub yield_now-round_robin :
      ((d : ℕ) × (suc d < length sched.tasks) × Goes k sched d) ⊎ Stays k sched
  yield_now-round_robin = choice found_next refl (
      find_next-Searched (length sched.tasks) sched.tasks ((sched.current + 1) % length sched.tasks)
        (omega arith))
