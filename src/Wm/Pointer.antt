-- ===== src/Wm/Pointer.antt =====
-- The movement of the mouse cursor of kernel/src/wm.rs.
use r_os.Common.{◌-◌, ◌^◌, ◌≡◌, refl, inl, inr, false, some, arith, Bool-cases}
use r_os.Common.Int.{ℤ, pos, negsuc, ◌+ℤ◌, ◌-ℤ◌, ◌≤ℤ◌, ltb_ℤ}
use r_os.Common.Loops.{Returns, Returns->>=}
use r_os.Wm.Cursor.{CursorState, checked_i32, clamp, apply_delta}

-- A coordinate kept below a size: where it wants to be, if that is on the screen, else at an edge.
pub record Confined (size want got : ℤ) : Type 0 where
  pub low : pos 0 ≤ℤ got
  pub high : got +ℤ pos 1 ≤ℤ size
  pub free : pos 0 ≤ℤ want → want +ℤ pos 1 ≤ℤ size → got ≡ want
  pub left : want ≤ℤ pos 0 → got ≡ pos 0
  pub right : size ≤ℤ want → got +ℤ pos 1 ≡ size

clamp-Confined :
    (size want : ℤ)
    → pos 1 ≤ℤ size
    → Returns (Confined size want) (clamp want (pos 0) (size -ℤ pos 1))
unfolding ◌+ℤ◌ ◌-ℤ◌
clamp-Confined size want h =
    let edges : ltb_ℤ (size -ℤ pos 1) (pos 0) ≡ false = ground arith in
    elim (Bool-cases (ltb_ℤ want (pos 0))) [
      | inl under ↦
          rw (edges, under)
            (record {
              low = ground arith;
              high = ground arith;
              free = λ a b. ground arith;
              left = λ a. refl;
              right = λ a. ground arith;
            })
      | inr not_under ↦ elim (Bool-cases (ltb_ℤ (size -ℤ pos 1) want)) [
        | inl beyond ↦
            rw (edges, not_under, beyond)
              (record {
                low = ground arith;
                high = ground arith;
                free = λ a b. ground arith;
                left = λ a. ground arith;
                right = λ a. ground arith;
              })
        | inr inside ↦
            rw (edges, not_under, inside)
              (record {
                low = ground arith;
                high = ground arith;
                free = λ a b. refl;
                left = λ a. ground arith;
                right = λ a. ground arith;
              })
      ]
    ]

-- A coordinate on a screen whose size leaves room in an `i32` for any movement.
pub record IsAxis (size at : ℤ) : Type 0 where
  pub low : pos 0 ≤ℤ at
  pub high : at +ℤ pos 1 ≤ℤ size
  pub in_i32 : size ≤ℤ pos (2 ^ 31 - 2 ^ 15)

-- The values of an `i16`.
abbrev pub IsI16 : ℤ → Type 0
IsI16 v = (negsuc (2 ^ 15 - 1) ≤ℤ v) × (v ≤ℤ pos (2 ^ 15 - 1))

checked : (v : ℤ) → negsuc (2 ^ 31 - 1) ≤ℤ v → v ≤ℤ pos (2 ^ 31 - 1) → checked_i32 v ≡ some v
checked v low high = ground arith

checked_sum : (size at d : ℤ) → IsAxis size at → IsI16 d → checked_i32 (at +ℤ d) ≡ some (at +ℤ d)
unfolding ◌+ℤ◌
checked_sum size at d a i =
    let low = a.low in
    let high = a.high in let top = a.in_i32 in checked (at +ℤ d) (ground arith) (ground arith)

checked_difference :
    (size at d : ℤ) → IsAxis size at → IsI16 d → checked_i32 (at -ℤ d) ≡ some (at -ℤ d)
unfolding ◌+ℤ◌ ◌-ℤ◌
checked_difference size at d a i =
    let low = a.low in
    let high = a.high in let top = a.in_i32 in checked (at -ℤ d) (ground arith) (ground arith)

checked_last : (size at : ℤ) → IsAxis size at → checked_i32 (size -ℤ pos 1) ≡ some (size -ℤ pos 1)
unfolding ◌+ℤ◌ ◌-ℤ◌
checked_last size at a =
    let low = a.low in
    let high = a.high in let top = a.in_i32 in checked (size -ℤ pos 1) (ground arith) (ground arith)

some_size : (size at : ℤ) → IsAxis size at → pos 1 ≤ℤ size
unfolding ◌+ℤ◌
some_size size at a = let low = a.low in let high = a.high in ground arith

-- The place that a movement leads to is on the screen again.
pub Confined-IsAxis :
    (size at want got : ℤ) → IsAxis size at → Confined size want got → IsAxis size got
Confined-IsAxis size at want got a c = record { low = c.low; high = c.high; in_i32 = a.in_i32 }

-- With the cursor on a screen of at most 2^31 - 2^15 columns and rows, a movement by any two `i16`
-- does not panic: each coordinate goes where the movement takes it, upwards for a positive `dy`, if
-- that is on the screen, and else to the nearest edge.
pub apply_delta-Confined :
    (dx dy : ℤ) (cursor : CursorState)
    → IsI16 dx × IsI16 dy
    → IsAxis cursor.screen_width cursor.x
    → IsAxis cursor.screen_height cursor.y
    → Returns
        (λ c.
          Confined cursor.screen_width (cursor.x +ℤ dx) c.x
          × Confined cursor.screen_height (cursor.y -ℤ dy) c.y
          × (c ≡ record cursor { x = c.x; y = c.y }))
        (apply_delta dx dy cursor)
unfolding apply_delta
apply_delta-Confined dx dy cursor i ax ay =
    rw
      (
        checked_sum cursor.screen_width cursor.x dx ax i.0,
        checked_difference cursor.screen_height cursor.y dy ay i.1,
        checked_last cursor.screen_width cursor.x ax,
        checked_last cursor.screen_height cursor.y ay,
      )
      (Returns->>= (Confined cursor.screen_width (cursor.x +ℤ dx)) _
        (clamp (cursor.x +ℤ dx) (pos 0) (cursor.screen_width -ℤ pos 1)) _
        (clamp-Confined cursor.screen_width (cursor.x +ℤ dx)
          (some_size cursor.screen_width cursor.x ax))
        (λ x px.
          Returns->>= (Confined cursor.screen_height (cursor.y -ℤ dy)) _
            (clamp (cursor.y -ℤ dy) (pos 0) (cursor.screen_height -ℤ pos 1)) _
            (clamp-Confined cursor.screen_height (cursor.y -ℤ dy)
              (some_size cursor.screen_height cursor.y ay))
            (λ y py. (px, py, refl))))
