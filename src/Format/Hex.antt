-- ===== src/Format/Hex.antt =====
-- Hexadecimal output: the text that is written, and the number that it is read as.
use native.Mathlib.Nat.{pow-suc, div-div-eq-div-mul}
use r_os.Common.{
  ℕ, zero, suc, ◌+◌, ◌-◌, ◌*◌, ◌/◌, ◌%◌, ◌^◌, ◌≤◌, ◌<◌, ◌≡◌, refl, sym, ap, ◌∙◌, inl, inr, Bool,
  true, false, ◌||◌, not, List, [], ◌∷◌, ◌++◌, append-nil, append_assoc, arith, ltb, leb, ◌==◌,
  if◌then◌else◌, lt→ltb, Bool-cases, length, take, length-append, length-set, take-set,
}
use r_os.Common.Loops.{Returns, Returns-imp, Returns->>=}
use r_os.Fb.{Buf}
use r_os.Format.{Text, store, hex_char, hex_rounds, write_hex, format_addr_range}
use r_os.Format.Decimal.{Extends, Extends-trans}

-- The digit of a byte `0`..`9` or `a`..`f`.
abbrev hex_digit : ℕ → ℕ
hex_digit c = if ltb c b'a' then c - b'0' else c - b'a' + 10

-- The number that the bytes of `cs` are, read after a number `n`.
unfoldable pub read_hex : ℕ → List ℕ → ℕ
read_hex n [] = n
read_hex n (c ∷ cs) = read_hex (n * 16 + hex_digit c) cs

read_hex-snoc :
    (n : ℕ) (cs : List ℕ) (c : ℕ) → read_hex n (cs ++ (c ∷ [])) ≡ read_hex n cs * 16 + hex_digit c
unfolding read_hex
read_hex-snoc n [] c = refl
read_hex-snoc n (d ∷ cs) c = read_hex-snoc (n * 16 + hex_digit d) cs c

hex_digit-hex_char : (nibble : ℕ) → nibble < 16 → hex_digit (hex_char nibble) ≡ nibble
hex_digit-hex_char nibble h = ground arith

Extends-store : (c : ℕ) (t : Text) → t.pos < length t.buf → Returns (Extends (c ∷ []) t) (store c t)
unfolding store
Extends-store c t h = rw (lt→ltb t.pos (length t.buf) h) (record {
  room = length-set t.buf t.pos c;
  advance = refl;
  text = rw (add_one t.pos) (take-set t.buf t.pos c h);
})
  where
    add_one : (n : ℕ) → n + 1 ≡ suc n
    add_one n = omega arith

-- The numeral so far, when the rounds from `k` - 1 on are left.
record Rounds (k val : ℕ) (t : Text) (s : Text × Bool) : Type 0 where
  numeral : List ℕ
  extends : Extends numeral t s.0
  value : read_hex 0 numeral ≡ val / 2 ^ (k * 4)
  short : length numeral + k ≤ 16
  wide : 4 ≤ length numeral + k
  nothing : s.1 ≡ false → read_hex 0 numeral ≡ 0

shifted : (k val : ℕ) → val / 2 ^ (suc k * 4) ≡ val / 2 ^ (k * 4) / 16
shifted k val =
    let n : ℕ = k * 4 in
    let more : suc k * 4 ≡ suc (suc (suc (suc n))) = omega arith in
    let powers : 2 ^ suc (suc (suc (suc n))) ≡ 2 ^ n * 16 = omega (
      arith,
      pow-suc 2 n,
      pow-suc 2 (suc n),
      pow-suc 2 (suc (suc n)),
      pow-suc 2 (suc (suc (suc n))),
    ) in
    rw (more, powers) (sym (div-div-eq-div-mul val (2 ^ (k * 4)) 16))

module _ (val limit : ℕ) (t : Text) (free : t.pos + 16 ≤ limit) (holds : limit ≤ length t.buf) where
  -- A round that writes.
  digit_written :
      (k : ℕ) (s : Text × Bool) (t' : Text) (r : Rounds (suc k) val t s)
      → Extends (hex_char (val / 2 ^ (k * 4) % 16) ∷ []) s.0 t'
      → Rounds k val t (t', true)
  digit_written k s t' r e =
      let nibble : ℕ = val / 2 ^ (k * 4) % 16 in
      let end_ : ℕ = length (r.numeral ++ (hex_char nibble ∷ [])) in
      let longer : end_ ≡ length r.numeral + 1 = length-append r.numeral (hex_char nibble ∷ []) in
      record {
        numeral = r.numeral ++ (hex_char nibble ∷ []);
        extends = Extends-trans r.numeral (hex_char nibble ∷ []) t s.0 t' r.extends e;
        value = omega (
          arith,
          read_hex-snoc 0 r.numeral (hex_char nibble),
          hex_digit-hex_char nibble (omega arith),
          shifted k val,
          r.value,
        );
        short = omega (arith, longer, r.short);
        wide = omega (arith, longer, r.wide);
        nothing = λ h. absurd (ground arith);
      }

  hex_rounds-Rounds :
      (k : ℕ) (s : Text × Bool)
      → Rounds k val t s
      → Returns (Rounds 0 val t) (hex_rounds k val limit s)
  unfolding hex_rounds
  hex_rounds-Rounds zero s r = r
  hex_rounds-Rounds (suc k) (t', started) r =
      let nibble : ℕ = val / 2 ^ (k * 4) % 16 in
      let below : ltb t'.pos limit ≡ true = ground (arith, r.extends.advance, r.short) in
      rw below (
        Returns->>= (Rounds k val t) (Rounds 0 val t) _ _
          (elim (Bool-cases (not (nibble == 0) || started || ltb k 4)) [
            | inl wanted ↦ rw wanted (
                Returns->>= (Extends (hex_char nibble ∷ []) t') (Rounds k val t)
                  (store (hex_char nibble) t') _
                  (Extends-store (hex_char nibble) t'
                    (omega (arith, r.extends.advance, r.extends.room, r.short)))
                  (λ t'' e. digit_written k (t', started) t'' r e))
            | inr skipped ↦ rw skipped (record {
              numeral = r.numeral;
              extends = r.extends;
              value =
                  omega
                    (arith, quiet skipped, r.nothing (not_started skipped), shifted k val, r.value);
              short = omega (arith, r.short);
              wide = wide_enough skipped;
              nothing = r.nothing;
            })
          ])
          (λ s' r'. hex_rounds-Rounds k s' r'))
    where
      quiet :
          (not (val / 2 ^ (k * 4) % 16 == 0) || started || ltb k 4) ≡ false
          → val / 2 ^ (k * 4) % 16 ≡ 0
      quiet skipped = ground arith

      not_started :
          (not (val / 2 ^ (k * 4) % 16 == 0) || started || ltb k 4) ≡ false → started ≡ false
      not_started skipped = ground arith

      wide_enough :
          (not (val / 2 ^ (k * 4) % 16 == 0) || started || ltb k 4) ≡ false
          → 4 ≤ length r.numeral + k
      wide_enough skipped = ground arith

-- A numeral of a 64-bit value: `0x` and at least four digits.
pub record IsHex (val : ℕ) (cs : List ℕ) : Type 0 where
  pub digits : List ℕ
  pub prefix : cs ≡ b'0' ∷ b'x' ∷ digits
  pub value : read_hex 0 digits ≡ val
  pub wide : 4 ≤ length digits
  pub short : length digits ≤ 16

-- A text followed by a numeral of a value.
pub record HexPrinted (val : ℕ) (t t' : Text) : Type 0 where
  pub numeral : List ℕ
  pub hex : IsHex val numeral
  pub extends : Extends numeral t t'

-- With eighteen bytes free below the limit, `write_hex` does not panic on a 64-bit value: it
-- appends `0x` and four to sixteen digits that read back as the value.
pub write_hex-HexPrinted :
    (val limit : ℕ) (t : Text)
    → val < 2 ^ 64
    → t.pos + 18 ≤ limit
    → limit ≤ length t.buf
    → Returns (HexPrinted val t) (write_hex t val limit)
unfolding write_hex read_hex
write_hex-HexPrinted val limit t h free holds =
    let enough : ltb limit (t.pos + 2) ≡ false = ground arith in
    rw enough (
      Returns->>= (Extends (b'0' ∷ []) t) (HexPrinted val t) (store b'0' t) _
        (Extends-store b'0' t (omega arith))
        (λ t1 e1.
          Returns->>= (Extends (b'x' ∷ []) t1) (HexPrinted val t) (store b'x' t1) _
            (Extends-store b'x' t1 (omega (arith, e1.advance, e1.room)))
            (λ t2 e2.
              Returns->>= (Rounds 0 val t2) (HexPrinted val t) (hex_rounds 16 val limit (t2, false))
                _
                (hex_rounds-Rounds val limit t2 (omega (arith, e1.advance, e2.advance))
                  (omega (arith, e1.room, e2.room)) 16 (t2, false) (start t2))
                (λ s r. done t1 t2 s e1 e2 r))))
  where
    start : (t2 : Text) → Rounds 16 val t2 (t2, false)
    start t2 = record {
      numeral = [];
      extends = record {
        room = refl;
        advance = omega arith;
        text = sym (append-nil (take t2.pos t2.buf));
      };
      value = omega arith;
      short = omega arith;
      wide = omega arith;
      nothing = λ h. refl;
    }

    done :
        (t1 t2 : Text) (s : Text × Bool)
        → Extends (b'0' ∷ []) t t1
        → Extends (b'x' ∷ []) t1 t2
        → Rounds 0 val t2 s
        → HexPrinted val t s.0
    done t1 t2 s e1 e2 r = record {
      numeral = b'0' ∷ b'x' ∷ r.numeral;
      hex = record {
        digits = r.numeral;
        prefix = refl;
        value = omega (arith, r.value);
        wide = omega (arith, r.wide);
        short = omega (arith, r.short);
      };
      extends =
          Extends-trans (b'0' ∷ b'x' ∷ []) r.numeral t t2 s.0
            (Extends-trans (b'0' ∷ []) (b'x' ∷ []) t t1 t2 e1 e2) r.extends;
    }

-- The line of the memory map for the range from `start` to `end_`.
pub record RangePrinted (start end_ : ℕ) (line : List ℕ) : Type 0 where
  pub from : List ℕ
  pub to : List ℕ
  pub from_hex : IsHex start from
  pub to_hex : IsHex end_ to
  pub whole : line ≡ from ++ (b'-' ∷ to)

-- On a buffer of 40 bytes, `format_addr_range` does not panic on 64-bit addresses, and what it
-- leaves up to the returned position is the two hexadecimal numerals, whole, with a `-` between
-- them. The position lies in the buffer.
pub format_addr_range-RangePrinted :
    (buf : Buf) (start end_ : ℕ)
    → length buf ≡ 40
    → start < 2 ^ 64
    → end_ < 2 ^ 64
    → Returns
        (λ t. RangePrinted start end_ (take t.pos t.buf) × (t.pos ≤ length t.buf))
        (format_addr_range buf start end_)
unfolding format_addr_range
format_addr_range-RangePrinted buf start end_ e hs he =
    Returns->>= (HexPrinted start zero_text) _ (write_hex zero_text start 40) _
      (write_hex-HexPrinted start 40 zero_text hs (omega arith) (omega arith))
      (λ t p.
        let few : length p.numeral ≤ 18 = rw p.hex.prefix (omega (arith, p.hex.short)) in
        let room : leb (t.pos + 1) 40 ≡ true = ground (arith, p.extends.advance) in
        rw room (
          Returns->>= (Extends (b'-' ∷ []) t) _ (store b'-' t) _
            (Extends-store b'-' t (omega (arith, p.extends.advance, p.extends.room)))
            (λ t' m.
              Returns-imp (HexPrinted end_ t') _ (write_hex t' end_ 40)
                (λ t'' q.
                  let few' : length q.numeral ≤ 18 = rw q.hex.prefix (omega (arith, q.hex.short)) in
                  (
                    record {
                      from = p.numeral;
                      to = q.numeral;
                      from_hex = p.hex;
                      to_hex = q.hex;
                      whole =
                          q.extends.text
                          ∙ ap (λ l. l ++ q.numeral) m.text
                          ∙ append_assoc (take t.pos t.buf) (b'-' ∷ []) q.numeral
                          ∙ ap (λ l. l ++ (b'-' ∷ q.numeral)) p.extends.text;
                    },
                    omega (
                      arith, q.extends.advance, q.extends.room, m.advance, m.room,
                      p.extends.advance, p.extends.room, e,
                    ),
                  ))
                (write_hex-HexPrinted end_ 40 t' he (omega (arith, p.extends.advance, m.advance))
                  (omega (arith, p.extends.room, m.room))))))
  where
    zero_text : Text
    zero_text = record { buf = buf; pos = 0 }
