-- ===== src/Shell/Edit.antt =====
-- The line editor against a text that is edited at its end.
use r_os.Common.{
  ℕ, zero, suc, ◌+◌, ◌-◌, ◌≤◌, ◌<◌, ◌≡◌, refl, sym, ap, ◌∙◌, subst, inl, inr, true, false, ◌&&◌,
  ◌||◌, Option, some, List, [], ◌∷◌, ◌++◌, arith, ltb, ◌==◌, if◌then◌else◌, Bool-cases, length, set,
  take, length-set, length-take, take-set, All,
}
use r_os.Common.Loops.{Returns}
use r_os.Shell.{
  Call, console_write, Line, max_line, prompt, newline, rub_out, is_printable, run_line, and_then,
  handle_char,
}

-- The text of the line.
abbrev pub view : Line → List ℕ
view line = take line.len line.buf

abbrev pub IsPrintable : ℕ → Type 0
IsPrintable c = is_printable c ≡ true

pub record IsValid (line : Line) : Type 0 where
  pub size : length line.buf ≡ max_line
  pub len_in : line.len ≤ max_line
  pub printable : All IsPrintable (view line)

-- The text without its last character.
abbrev pub drop_last : List ℕ → List ℕ
drop_last [] = []
drop_last (c ∷ []) = []
drop_last (c ∷ d ∷ cs) = c ∷ drop_last (d ∷ cs)

-- What a key does to the text: enter runs it and begins an empty one, backspace takes the last
-- character away, a printable character is added while there is room, and others do nothing.
unfoldable pub edit : ℕ → List ℕ → List Call × List ℕ
edit c text =
    if c == 10 || c == 13
    then (console_write newline ∷ and_then (run_line text) (console_write prompt ∷ []), [])
    else if c == 8 || c == 127
    then (if ltb 0 (length text) then (console_write rub_out ∷ [], drop_last text) else ([], text))
    else if is_printable c && ltb (length text) max_line
    then (console_write (c ∷ []) ∷ [], text ++ (c ∷ []))
    else ([], text)

drop_last-take : (n : ℕ) (xs : List ℕ) → suc n ≤ length xs → drop_last (take (suc n) xs) ≡ take n xs
drop_last-take n [] h = absurd (omega arith)
drop_last-take zero (x ∷ xs) h = refl
drop_last-take (suc n) (x ∷ []) h = absurd (omega arith)
drop_last-take (suc n) (x ∷ y ∷ xs) h = ap (λ t. x ∷ t) (drop_last-take n (y ∷ xs) (omega arith))

All-take : (n : ℕ) (xs : List ℕ) → All IsPrintable (take (suc n) xs) → All IsPrintable (take n xs)
All-take zero xs h = tt
All-take (suc n) [] h = tt
All-take (suc n) (x ∷ xs) h = (h.0, All-take n xs h.1)

All-append :
    (xs : List ℕ) (c : ℕ) → All IsPrintable xs → IsPrintable c → All IsPrintable (xs ++ (c ∷ []))
All-append [] c h k = (k, tt)
All-append (x ∷ xs) c h k = (h.0, All-append xs c h.1 k)

-- A line without its last character.
erased :
    (c : ℕ) (line : Line)
    → IsValid line
    → 0 < line.len
    → let line' : Line = record line { len = line.len - 1 } in
      IsValid line'
      × ◌≡◌ {A = List Call × List ℕ}
          (console_write rub_out ∷ [], view line')
          (console_write rub_out ∷ [], drop_last (view line))
erased c line v h =
    let one_more : line.len ≡ suc (line.len - 1) = omega arith in
    (
      record {
        size = v.size;
        len_in = omega (arith, v.len_in);
        printable =
            All-take (line.len - 1) line.buf
              (subst (λ n. All IsPrintable (take n line.buf)) one_more v.printable);
      },
      ap (λ t. (console_write rub_out ∷ [], t))
          (sym (
            ap (λ n. drop_last (take n line.buf)) one_more
            ∙ drop_last-take (line.len - 1) line.buf (omega (arith, v.size, v.len_in)))),
    )

-- A line with a character more.
typed :
    (c : ℕ) (line : Line)
    → IsValid line
    → IsPrintable c
    → line.len < max_line
    → let line' : Line = record { buf = set line.buf line.len c; len = line.len + 1 } in
      IsValid line'
      × ◌≡◌ {A = List Call × List ℕ}
          (console_write (c ∷ []) ∷ [], view line')
          (console_write (c ∷ []) ∷ [], view line ++ (c ∷ []))
typed c line v shown h =
    let one_more : line.len + 1 ≡ suc line.len = omega arith in
    let added : take (line.len + 1) (set line.buf line.len c) ≡ view line ++ (c ∷ []) =
      ap (λ n. take n (set line.buf line.len c)) one_more
      ∙ take-set line.buf line.len c (omega (arith, v.size)) in
    (
      record {
        size = length-set line.buf line.len c ∙ v.size;
        len_in = omega arith;
        printable =
            subst (All IsPrintable) (sym added) (All-append (view line) c v.printable shown);
      },
      ap (λ t. (console_write (c ∷ []) ∷ [], t)) added,
    )

module _ (from_utf8 : List ℕ → Option (List ℕ))
    (decodes : (bytes : List ℕ) → All IsPrintable bytes → from_utf8 bytes ≡ some bytes) where
  -- On a valid line no key makes `handle_char` panic. The line stays valid, within its 256 bytes and
  -- all printable ASCII, and the calls and the text behind it are those of editing the text at its
  -- end.
  pub handle_char-edit :
      (c : ℕ) (line : Line)
      → IsValid line
      → Returns
          (λ r. IsValid r.1 × ((r.0, view r.1) ≡ edit c (view line)))
          (handle_char from_utf8 c line)
  unfolding handle_char edit
  handle_char-edit c line v =
      let whole : length (view line) ≡ line.len =
        omega (arith, length-take line.len line.buf, v.size, v.len_in) in
      elim (Bool-cases (c == 10 || c == 13)) [
        | inl enter ↦
            let fits : ltb (length line.buf) line.len ≡ false = ground (arith, v.size, v.len_in) in
            rw (enter, fits, decodes (view line) v.printable)
              (record { size = v.size; len_in = omega arith; printable = tt }, refl)
        | inr no_enter ↦ elim (Bool-cases (c == 8 || c == 127)) [
          | inl back ↦ elim (Bool-cases (ltb 0 line.len)) [
            | inl some_text ↦ rw (no_enter, back, whole, some_text) (erased c line v (ground arith))
            | inr no_text ↦ rw (no_enter, back, whole, no_text) (v, refl)
          ]
          | inr no_back ↦ elim (Bool-cases (is_printable c)) [
            | inl shown ↦ elim (Bool-cases (ltb line.len max_line)) [
              | inl room ↦
                  let fits : ltb line.len (length line.buf) ≡ true = ground (arith, v.size) in
                  rw (no_enter, no_back, shown, whole, room, fits)
                    (typed c line v shown (ground arith))
              | inr full ↦ rw (no_enter, no_back, shown, whole, full) (v, refl)
            ]
            | inr hidden ↦ rw (no_enter, no_back, hidden) (v, refl)
          ]
        ]
      ]
