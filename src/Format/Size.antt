-- ===== src/Format/Size.antt =====
-- Sizes with a binary unit.
use r_os.Common.{
  ℕ, ◌+◌, ◌*◌, ◌^◌, ◌≤◌, ◌<◌, max, ◌≡◌, refl, sym, ap, ◌∙◌, ◌⊎◌, inl, inr, List, [], ◌∷◌, ◌++◌,
  append-nil, arith, leb, Bool-cases, length, take, mul_mono,
}
use r_os.Common.Loops.{Returns, Returns->>=}
use r_os.Fb.{Buf}
use r_os.Format.{
  Text, put_byte, put_bytes, scale, write_u64_decimal, format_size, b_suffix, ib_suffix, kib, mib,
  gib,
}
use r_os.Format.Decimal.{
  at_most_20, Extends, Extends-trans, Extends-put_byte, IsDecimal, Printed,
  write_u64_decimal-Printed,
}

Extends-put_bytes :
    (cs : List ℕ) (t : Text) → t.pos + length cs ≤ length t.buf → Extends cs t (put_bytes cs t)
unfolding put_bytes
Extends-put_bytes [] t h = record {
  room = refl;
  advance = omega arith;
  text = sym (append-nil (take t.pos t.buf));
}
Extends-put_bytes (c ∷ cs) t h =
    let e : Extends (c ∷ []) t (put_byte c t) = Extends-put_byte c t (omega arith) in
    Extends-trans (c ∷ []) cs t (put_byte c t) (put_bytes cs (put_byte c t)) e
      (Extends-put_bytes cs (put_byte c t) (omega (arith, e.advance, e.room)))

-- The units and how they are written.
data IsUnit : ℕ → List ℕ → Type 0 where
  in_bytes : IsUnit 1 b_suffix
  in_kib : IsUnit kib (ib_suffix b'K')
  in_mib : IsUnit mib (ib_suffix b'M')
  in_gib : IsUnit gib (ib_suffix b'G')

-- A size as a whole number of its unit: the largest unit that it reaches.
record IsScaled (size val : ℕ) (suffix : List ℕ) : Type 0 where
  unit : ℕ
  is_unit : IsUnit unit suffix
  some_bytes : 1 ≤ unit
  whole : val * unit ≤ size
  rest : size < (val + 1) * unit
  reached : unit ≤ max 1 size
  largest : (val < 1024) ⊎ (unit ≡ gib)
  fits : length suffix ≤ 4

scale-IsScaled : (size : ℕ) → IsScaled size (scale size).0 (scale size).1
unfolding scale
scale-IsScaled size = elim (Bool-cases (leb gib size)) [
  | inl big ↦ rw big (record {
    unit = gib;
    is_unit = in_gib;
    some_bytes = omega arith;
    whole = omega arith;
    rest = omega arith;
    reached = ground arith;
    largest = inr refl;
    fits = omega arith;
  })
  | inr not_gib ↦ elim (Bool-cases (leb mib size)) [
    | inl big ↦
        rw (not_gib, big)
          (record {
            unit = mib;
            is_unit = in_mib;
            some_bytes = omega arith;
            whole = omega arith;
            rest = omega arith;
            reached = ground arith;
            largest = inl (ground arith);
            fits = omega arith;
          })
    | inr not_mib ↦ elim (Bool-cases (leb kib size)) [
      | inl big ↦
          rw (not_gib, not_mib, big)
            (record {
              unit = kib;
              is_unit = in_kib;
              some_bytes = omega arith;
              whole = omega arith;
              rest = omega arith;
              reached = ground arith;
              largest = inl (ground arith);
              fits = omega arith;
            })
      | inr small ↦
          rw (not_gib, not_mib, small)
            (record {
              unit = 1;
              is_unit = in_bytes;
              some_bytes = omega arith;
              whole = omega arith;
              rest = omega arith;
              reached = omega arith;
              largest = inl (ground arith);
              fits = omega arith;
            })
    ]
  ]
]

-- The line for a size: a numeral and a unit.
pub record SizePrinted (size : ℕ) (line : List ℕ) : Type 0 where
  val : ℕ
  numeral : List ℕ
  suffix : List ℕ
  decimal : IsDecimal val numeral
  scaled : IsScaled size val suffix
  whole : line ≡ numeral ++ suffix

-- On a buffer of 24 bytes, `format_size` does not panic on a 64-bit size and loses no byte of its
-- line: the decimal numeral of the size in the largest unit that it reaches, rounded down, and the
-- unit's name. The returned position lies in the buffer.
pub format_size-SizePrinted :
    (buf : Buf) (size : ℕ)
    → length buf ≡ 24
    → size < 2 ^ 64
    → Returns
        (λ t. SizePrinted size (take t.pos t.buf) × (t.pos ≤ length t.buf))
        (format_size buf size)
unfolding format_size
format_size-SizePrinted buf size e h =
    let start : Text = record { buf = buf; pos = 0 } in
    let val : ℕ = (scale size).0 in
    let suffix : List ℕ = (scale size).1 in
    let s : IsScaled size val suffix = scale-IsScaled size in
    Returns->>= (Printed val start) _ (write_u64_decimal start val) _
      (write_u64_decimal-Printed start val (below s) (omega arith))
      (λ t p.
        let few : length p.numeral ≤ 20 = at_most_20 val p.numeral (below s) p.decimal in
        let f : Extends suffix t (put_bytes suffix t) =
          Extends-put_bytes suffix t (omega (arith, p.extends.advance, p.extends.room, s.fits)) in
        (
          record {
            val = val;
            numeral = p.numeral;
            suffix = suffix;
            decimal = p.decimal;
            scaled = s;
            whole = f.text ∙ ap (λ l. l ++ suffix) p.extends.text;
          },
          omega (arith, f.advance, f.room, p.extends.advance, p.extends.room, s.fits, e),
        ))
  where
    below : IsScaled size (scale size).0 (scale size).1 → (scale size).0 < 2 ^ 64
    below s =
        let wide : 1 * (scale size).0 ≤ s.unit * (scale size).0 =
          mul_mono 1 s.unit (scale size).0 s.some_bytes in
        omega (arith, s.whole)
