-- ===== src/Ring/Inv.antt =====
-- The representation invariant of the ring buffer, and the entries that a ring holds.
use r_os.Common.{
  ℕ, zero, suc, ◌+◌, ◌-◌, ◌%◌, ◌≤◌, ◌<◌, ◌≡◌, refl, ap, ap₂, List, [], ◌∷◌, ◌++◌, arith, length,
  get_or, set, length-set, length-replicate, get_or-set_self, get_or-set_ne,
}
use r_os.Ring.{RingBuffer, buf_size, next_slot, empty_ring, push, pop}

pub record IsValid {A : Type 0} (r : RingBuffer A) : Type 0 where
  pub size : length r.slots ≡ buf_size
  pub head_in : r.head < buf_size
  pub tail_in : r.tail < buf_size

-- The number of entries between `tail` and `head`, going round the buffer.
abbrev pub used : ℕ → ℕ → ℕ
used head tail = (head + buf_size - tail) % buf_size

module _ {A : Type 0} (blank : A) where
  -- The `n` entries from slot `i` on, going round the buffer.
  abbrev pub window : List A → ℕ → ℕ → List A
  window slots i zero = []
  window slots i (suc n) = get_or slots i blank ∷ window slots (next_slot i) n

  abbrev pub contents : RingBuffer A → List A
  contents r = window r.slots r.tail (used r.head r.tail)

  pub length-window : (slots : List A) (i n : ℕ) → length (window slots i n) ≡ n
  length-window slots i zero = refl
  length-window slots i (suc n) = ap suc (length-window slots (next_slot i) n)

  -- A write outside a window leaves it alone.
  pub window-set_ne :
      (slots : List A) (v : A) (n i k : ℕ)
      → i < buf_size
      → k < buf_size
      → n ≤ used k i
      → window (set slots k v) i n ≡ window slots i n
  window-set_ne slots v zero i k hi hk h = refl
  window-set_ne slots v (suc n) i k hi hk h =
      ap₂ ◌∷◌ (get_or-set_ne slots k i v blank (omega arith))
        (window-set_ne slots v n (next_slot i) k (omega arith) hk (omega arith))

  -- One entry more in a window is the slot behind it.
  pub window-suc_append :
      (slots : List A) (n i k : ℕ)
      → i < buf_size
      → n < buf_size
      → k ≡ (i + n) % buf_size
      → window slots i (suc n) ≡ window slots i n ++ (get_or slots k blank ∷ [])
  window-suc_append slots zero i k hi hn e = let e' : i ≡ k = omega arith in rw e'
  window-suc_append slots (suc n) i k hi hn e =
      ap (λ l. get_or slots i blank ∷ l)
        (window-suc_append slots n (next_slot i) k (omega arith) (omega arith) (omega arith))

  -- A write just past a window extends it by what was written.
  pub window-set_end :
      (slots : List A) (v : A) (n i k : ℕ)
      → length slots ≡ buf_size
      → i < buf_size
      → n < buf_size
      → k ≡ (i + n) % buf_size
      → window (set slots k v) i (suc n) ≡ window slots i n ++ (v ∷ [])
  window-set_end slots v zero i k size hi hn e =
      let e' : i ≡ k = omega arith in rw e' (rw (get_or-set_self slots k v blank (omega arith)))
  window-set_end slots v (suc n) i k size hi hn e =
      ap₂ ◌∷◌ (get_or-set_ne slots k i v blank (omega arith))
        (window-set_end slots v n (next_slot i) k size (omega arith) (omega arith) (omega arith))

  -- `window` matches on `suc`, the code compares indices.
  pub window_of_pos :
      (slots : List A) (i n : ℕ)
      → 0 < n
      → window slots i n ≡ get_or slots i blank ∷ window slots (next_slot i) (n - 1)
  window_of_pos slots i zero h = absurd (omega arith)
  window_of_pos slots i (suc n) h = ap (λ k. window slots i (suc k)) (omega arith)

module _ {A : Type 0} where
  pub empty_ring-IsValid : (blank : A) → IsValid (empty_ring blank)
  empty_ring-IsValid blank = omega (arith, length-replicate buf_size blank)

  pub push-IsValid : (r : RingBuffer A) (v : A) → IsValid r → IsValid (push r v)
  unfolding push
  push-IsValid r v valid = ground (arith, length-set r.slots r.head v)

  pub pop-IsValid : (r : RingBuffer A) → IsValid r → IsValid (pop r).1
  unfolding pop
  pop-IsValid r valid = ground arith
