-- ===== src/Ring/Queue.antt =====
-- What a ring promises: a first-in first-out queue with room for one entry less than the buffer.
use r_os.Common.{ℕ, Option, none, some, List, [], ◌∷◌, ◌++◌, length, ltb, if◌then◌else◌}

abbrev pub room : ℕ
room = 127

module _ {A : Type 0} where
  unfoldable pub enqueue : List A → A → List A
  enqueue q v = if ltb (length q) room then q ++ (v ∷ []) else q

  unfoldable pub dequeue : List A → Option A × List A
  dequeue [] = (none, [])
  dequeue (v ∷ q) = (some v, q)
