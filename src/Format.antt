-- ===== src/Format.antt =====
-- The number formatting of kernel/src/framebuffer.rs, and format_u64 of kernel/src/shell.rs and
-- kernel/src/counter.rs. A buffer is its bytes and `none` is a panic of an index out of bounds.
pub mod Decimal
pub mod Hex
pub mod Size
mod Tests
use r_os.Common.Loops.{◌>>=◌}
use r_os.Fb.{Buf, write}
use r_os.Common.{
  ℕ, zero, suc, ◌+◌, ◌-◌, ◌*◌, ◌/◌, ◌%◌, ◌^◌, Bool, true, false, ◌&&◌, ◌||◌, not, Option, none,
  some, List, [], ◌∷◌, ltb, leb, ◌==◌, if◌then◌else◌, length, set,
}

-- A buffer and the position that the next byte goes to.
pub record Text : Type 0 where
  pub buf : Buf
  pub pos : ℕ

-- `if pos < buf.len() { buf[pos] = c; pos += 1; }`
unfoldable pub put_byte : ℕ → Text → Text
put_byte c t =
    if ltb t.pos (length t.buf) then record { buf = set t.buf t.pos c; pos = t.pos + 1 } else t

-- The `while` loop over `n`, on the slots of `digits` that are left: a digit too many is a panic.
-- The result is `digits[..dlen]`, the lowest digit first.
unfoldable pub digits_of : ℕ → ℕ → Option (List ℕ)
digits_of zero n = if n == 0 then some [] else none
digits_of (suc room) n =
    let rest = digits_of room (n / 10) in
    if n == 0 then some [] else rest >>= λ ds. some ((n % 10 + b'0') ∷ ds)

-- `for d in (0..dlen).rev()`: the digits from the last to the first.
unfoldable pub write_back : List ℕ → Text → Text
write_back [] t = t
write_back (d ∷ ds) t = put_byte d (write_back ds t)

unfoldable pub write_u64_decimal : Text → ℕ → Option Text
write_u64_decimal t val =
    if val == 0 then some (put_byte b'0' t) else digits_of 20 val >>= λ ds. some (write_back ds t)

unfoldable pub put_bytes : List ℕ → Text → Text
put_bytes [] t = t
put_bytes (c ∷ cs) t = put_bytes cs (put_byte c t)

abbrev pub b_suffix : List ℕ
b_suffix = b' ' ∷ b'B' ∷ []

-- The suffix " KiB", " MiB" or " GiB", by its letter.
abbrev pub ib_suffix : ℕ → List ℕ
ib_suffix c = b' ' ∷ c ∷ b'i' ∷ b'B' ∷ []

abbrev pub kib : ℕ
kib = 1024

abbrev pub mib : ℕ
mib = 1024 * 1024

abbrev pub gib : ℕ
gib = 1024 * 1024 * 1024

-- `val` and `suffix`.
unfoldable pub scale : ℕ → ℕ × List ℕ
scale size =
    if leb gib size
    then (size / gib, ib_suffix b'G')
    else if leb mib size
    then (size / mib, ib_suffix b'M')
    else if leb kib size
    then (size / kib, ib_suffix b'K')
    else (size, b_suffix)

-- The buffer has 24 bytes.
unfoldable pub format_size : Buf → ℕ → Option Text
format_size buf size = write_u64_decimal (record { buf = buf; pos = 0 }) (scale size).0 >>= λ t.
    some (put_bytes (scale size).1 t)

-- `buf[pos] = c; pos += 1;`
unfoldable pub store : ℕ → Text → Option Text
store c t = write t.pos c t.buf >>= λ buf. some (record { buf = buf; pos = t.pos + 1 })

abbrev pub hex_char : ℕ → ℕ
hex_char nibble = if ltb nibble 10 then b'0' + nibble else b'a' + nibble - 10

-- The rounds `shift` = k - 1 down to 0. The state is the text and `started`.
unfoldable pub hex_rounds : ℕ → ℕ → ℕ → Text × Bool → Option (Text × Bool)
hex_rounds zero val limit s = some s
hex_rounds (suc shift) val limit (t, started) =
    let nibble = val / 2 ^ (shift * 4) % 16 in
    (if (not (nibble == 0) || started || ltb shift 4) && ltb t.pos limit
      then (store (hex_char nibble) t >>= λ t'. some (t', true))
      else some (t, started))
    >>= λ s'. hex_rounds shift val limit s'

unfoldable pub write_hex : Text → ℕ → ℕ → Option Text
write_hex t val limit =
    if ltb limit (t.pos + 2)
    then some t
    else store b'0' t >>= λ t1.
        store b'x' t1 >>= λ t2. hex_rounds 16 val limit (t2, false) >>= λ s. some s.0

-- The buffer has 40 bytes.
unfoldable pub format_addr_range : Buf → ℕ → ℕ → Option Text
format_addr_range buf start end_ = write_hex (record { buf = buf; pos = 0 }) start 40 >>= λ t.
    (if leb (t.pos + 1) 40 then store b'-' t else some t) >>= λ t'. write_hex t' end_ 40

-- `for (i, d) in (0..dlen).rev().enumerate()`: the digit of index `d` goes to `dlen - 1 - d`.
unfoldable pub store_back : List ℕ → Buf → Option Buf
store_back [] buf = some buf
store_back (d ∷ ds) buf = store_back ds buf >>= λ buf'. write (length ds) d buf'

-- The buffer with the digits, and their number.
unfoldable pub format_u64 : Buf → ℕ → Option Text
format_u64 buf val =
    if val == 0
    then (write 0 b'0' buf >>= λ buf'. some (record { buf = buf'; pos = 1 }))
    else digits_of 20 val >>= λ ds.
        store_back ds buf >>= λ buf'. some (record { buf = buf'; pos = length ds })
