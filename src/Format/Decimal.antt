-- ===== src/Format/Decimal.antt =====
-- Decimal output: the text that is written, and the number that it is read as.
use r_os.Common.Loops.{Returns, Returns-some, Returns->>=}
use r_os.Fb.{Buf}
use native.Mathlib.Nat.{pow-suc, pow-le-pow_right}
use r_os.Common.{
  ℕ, zero, suc, ◌+◌, ◌-◌, ◌*◌, ◌/◌, ◌%◌, ◌^◌, ◌≤◌, ◌<◌, max, ◌≡◌, refl, sym, ap, ◌∙◌, ◌≢◌, inl, inr,
  true, some, List, [], ◌∷◌, ◌++◌, append-nil, append_assoc, arith, dec_lt, ltb, ◌==◌, lt→ltb,
  Bool-cases, length, take, length-append, length-set, take-set, All,
}
use r_os.Format.{Text, put_byte, digits_of, write_back, write_u64_decimal, store_back, format_u64}

-- The number that the bytes of `cs` are, read after a number `n`.
unfoldable pub read_decimal : ℕ → List ℕ → ℕ
read_decimal n [] = n
read_decimal n (c ∷ cs) = read_decimal (n * 10 + (c - b'0')) cs

read_decimal-snoc :
    (n : ℕ) (cs : List ℕ) (c : ℕ)
    → read_decimal n (cs ++ (c ∷ [])) ≡ read_decimal n cs * 10 + (c - b'0')
unfolding read_decimal
read_decimal-snoc n [] c = refl
read_decimal-snoc n (d ∷ cs) c = read_decimal-snoc (n * 10 + (d - b'0')) cs c

-- The text `t'` is the text `t` followed by `cs`.
pub record Extends (cs : List ℕ) (t t' : Text) : Type 0 where
  pub room : length t'.buf ≡ length t.buf
  pub advance : t'.pos ≡ t.pos + length cs
  pub text : take t'.pos t'.buf ≡ take t.pos t.buf ++ cs

pub Extends-trans :
    (cs ds : List ℕ) (t t' t'' : Text)
    → Extends cs t t'
    → Extends ds t' t''
    → Extends (cs ++ ds) t t''
Extends-trans cs ds t t' t'' e f = record {
  room = f.room ∙ e.room;
  advance = omega (arith, e.advance, f.advance, length-append cs ds);
  text = f.text ∙ ap (λ l. l ++ ds) e.text ∙ append_assoc (take t.pos t.buf) cs ds;
}

pub Extends-put_byte : (c : ℕ) (t : Text) → t.pos < length t.buf → Extends (c ∷ []) t (put_byte c t)
unfolding put_byte
Extends-put_byte c t h = rw (lt→ltb t.pos (length t.buf) h) (record {
  room = length-set t.buf t.pos c;
  advance = refl;
  text = rw (add_one t.pos) (take-set t.buf t.pos c h);
})
  where
    add_one : (n : ℕ) → n + 1 ≡ suc n
    add_one n = omega arith

-- The bytes of `ds` from the last to the first.
unfoldable pub reverse : List ℕ → List ℕ
reverse [] = []
reverse (d ∷ ds) = reverse ds ++ (d ∷ [])

length-reverse : (ds : List ℕ) → length (reverse ds) ≡ length ds
unfolding reverse
length-reverse [] = refl
length-reverse (d ∷ ds) = omega (arith, length-append (reverse ds) (d ∷ []), length-reverse ds)

-- A byte of a decimal digit.
abbrev pub IsDigit : ℕ → Type 0
IsDigit c = (b'0' ≤ c) × (c ≤ b'9')

All-snoc : (cs : List ℕ) (c : ℕ) → All IsDigit cs → IsDigit c → All IsDigit (cs ++ (c ∷ []))
All-snoc [] c h k = (k, tt)
All-snoc (d ∷ cs) c h k = (h.0, All-snoc cs c h.1 k)

Extends-write_back :
    (ds : List ℕ) (t : Text)
    → t.pos + length ds ≤ length t.buf
    → Extends (reverse ds) t (write_back ds t)
unfolding write_back reverse
Extends-write_back [] t h = record {
  room = refl;
  advance = omega arith;
  text = sym (append-nil (take t.pos t.buf));
}
Extends-write_back (d ∷ ds) t h =
    let e : Extends (reverse ds) t (write_back ds t) = Extends-write_back ds t (omega arith) in
    Extends-trans (reverse ds) (d ∷ []) t (write_back ds t) (put_byte d (write_back ds t)) e
      (Extends-put_byte d (write_back ds t) (omega (arith, e.advance, e.room, length-reverse ds)))

-- The bytes of a decimal numeral: only digits, of the value, and no longer than they need be.
pub record IsDecimal (val : ℕ) (cs : List ℕ) : Type 0 where
  pub digits : All IsDigit cs
  pub value : read_decimal 0 cs ≡ val
  pub shortest : 10 ^ length cs ≤ 10 * max 1 val

-- The digits that the loop leaves, and their number.
record Digits (room n : ℕ) (ds : List ℕ) : Type 0 where
  numeral : IsDecimal n (reverse ds)
  tight : 10 ^ length (reverse ds) ≤ max 1 (10 * n)
  few : length ds ≤ room

last_round : (room n : ℕ) → n ≡ 0 → Digits room n []
unfolding reverse read_decimal
last_round room n e = record {
  numeral = record { digits = tt; value = sym e; shortest = omega arith };
  tight = omega arith;
  few = omega arith;
}

one_round :
    (room n : ℕ) (ds : List ℕ)
    → n ≢ 0
    → Digits room (n / 10) ds
    → Digits (suc room) n ((n % 10 + b'0') ∷ ds)
unfolding reverse
one_round room n ds some_left d = record {
  numeral = record {
    digits = All-snoc (reverse ds) (n % 10 + b'0') d.numeral.digits (omega arith, omega arith);
    value = omega (arith, read_decimal-snoc 0 (reverse ds) (n % 10 + b'0'), d.numeral.value);
    shortest = omega (arith, fits);
  };
  tight = fits;
  few = omega (arith, d.few);
}
  where
    longer : 10 ^ length (reverse ds ++ ((n % 10 + b'0') ∷ [])) ≡ 10 * 10 ^ length (reverse ds)
    longer =
        let one_more : length (reverse ds ++ ((n % 10 + b'0') ∷ [])) ≡ suc (length (reverse ds)) =
          omega (arith, length-append (reverse ds) ((n % 10 + b'0') ∷ [])) in
        ap (λ (k : ℕ). 10 ^ k) one_more ∙ omega (arith, pow-suc 10 (length (reverse ds)))

    fits : 10 ^ length (reverse ds ++ ((n % 10 + b'0') ∷ [])) ≤ max 1 (10 * n)
    fits = omega (arith, longer, d.tight)

digits_of-Digits : (room n : ℕ) → n < 10 ^ room → Returns (Digits room n) (digits_of room n)
unfolding digits_of
digits_of-Digits zero n h =
    let none_left : (n == 0) ≡ true = ground arith in rw none_left (last_round 0 n (omega arith))
digits_of-Digits (suc room) n h = elim (Bool-cases (n == 0)) [
  | inl none_left ↦ rw none_left (last_round (suc room) n (ground arith))
  | inr some_left ↦ rw some_left (
      Returns->>= (Digits room (n / 10)) (Digits (suc room) n) (digits_of room (n / 10)) _
        (digits_of-Digits room (n / 10) (omega (arith, pow-suc 10 room)))
        (λ ds d. one_round room n ds (ground arith) d))
]

-- A text followed by the numeral of a value.
pub record Printed (val : ℕ) (t t' : Text) : Type 0 where
  pub numeral : List ℕ
  pub decimal : IsDecimal val numeral
  pub extends : Extends numeral t t'

-- With twenty bytes free in the buffer, `write_u64_decimal` does not panic on a 64-bit value: it appends the
-- value's decimal numeral, which reads back as the value and has no leading zero, and keeps the
-- bytes before it.
pub write_u64_decimal-Printed :
    (t : Text) (val : ℕ)
    → val < 2 ^ 64
    → t.pos + 20 ≤ length t.buf
    → Returns (Printed val t) (write_u64_decimal t val)
unfolding write_u64_decimal read_decimal
write_u64_decimal-Printed t val h room = elim (Bool-cases (val == 0)) [
  | inl nothing ↦ rw nothing (record {
    numeral = b'0' ∷ [];
    decimal = record {
      digits = ((omega arith, omega arith), tt);
      value = ground arith;
      shortest = omega arith;
    };
    extends = Extends-put_byte b'0' t (omega arith);
  })
  | inr something ↦ rw something (
      Returns->>= (Digits 20 val) (Printed val t) (digits_of 20 val) _
        (digits_of-Digits 20 val (omega arith))
        (λ ds d. record {
          numeral = reverse ds;
          decimal = d.numeral;
          extends = Extends-write_back ds t (omega (arith, d.few));
        }))
]

-- The two ways to store the digits agree while there is room.
store_back-write_back :
    (ds : List ℕ) (buf : Buf)
    → length ds ≤ length buf
    → store_back ds buf ≡ some (write_back ds (record { buf = buf; pos = 0 })).buf
unfolding store_back write_back put_byte
store_back-write_back [] buf h = refl
store_back-write_back (d ∷ ds) buf h =
    let start : Text = record { buf = buf; pos = 0 } in
    let e : Extends (reverse ds) start (write_back ds start) =
      Extends-write_back ds start (omega arith) in
    let here : (write_back ds start).pos ≡ length ds =
      omega (arith, e.advance, length-reverse ds) in
    let fits : ltb (length ds) (length (write_back ds start).buf) ≡ true = ground (arith, e.room) in
    rw (store_back-write_back ds buf (omega arith), here, fits) refl

-- On a buffer of 24 bytes and a 64-bit value, `format_u64` of the shell and of the counter gives
-- what `write_u64_decimal` gives from the start of the buffer.
pub format_u64-write_u64_decimal :
    (buf : Buf) (val : ℕ)
    → length buf ≡ 24
    → val < 2 ^ 64
    → format_u64 buf val ≡ write_u64_decimal (record { buf = buf; pos = 0 }) val
unfolding format_u64 write_u64_decimal put_byte
format_u64-write_u64_decimal buf val e h = elim (Bool-cases (val == 0)) [
  | inl nothing ↦ rw (nothing, e) (ground arith)
  | inr something ↦
      let run : (ds : List ℕ) × ((digits_of 20 val ≡ some ds) × Digits 20 val ds) =
        Returns-some (Digits 20 val) (digits_of 20 val) (digits_of-Digits 20 val (omega arith)) in
      rw (something, run.1.0, store_back-write_back run.0 buf (omega (arith, e, run.1.1.few)))
        (ap
          (λ n.
            some (record { buf = (write_back run.0 (record { buf = buf; pos = 0 })).buf; pos = n }))
          (sym (end_of run.0 (omega (arith, e, run.1.1.few)))))
]
  where
    end_of :
        (ds : List ℕ)
        → length ds ≤ length buf
        → (write_back ds (record { buf = buf; pos = 0 })).pos ≡ length ds
    end_of ds few =
        let e : Extends (reverse ds) (record { buf = buf; pos = 0 })
            (write_back ds (record { buf = buf; pos = 0 })) =
          Extends-write_back ds (record { buf = buf; pos = 0 }) (omega arith) in
        omega (arith, e.advance, length-reverse ds)

-- A 64-bit value has at most twenty digits.
pub at_most_20 : (val : ℕ) (cs : List ℕ) → val < 2 ^ 64 → IsDecimal val cs → length cs ≤ 20
at_most_20 val cs hv d = elim (dec_lt 20 (length cs)) [
  | yes long ↦
      let big : 10 ^ 21 ≤ 10 ^ length cs = pow-le-pow_right (omega arith) {i = 21} (omega arith) in
      absurd (omega (arith, d.shortest))
  | no short ↦ omega arith
]
