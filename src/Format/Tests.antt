-- ===== src/Format/Tests.antt =====
-- Runs of the formatting on concrete numbers.
use r_os.Common.{
  ℕ, ◌≤◌, ◌≡◌, refl, Option, none, some, List, [], ◌∷◌, arith, length, take, replicate,
}
use r_os.Common.Loops.{Returns}
use r_os.Fb.{Buf}
use r_os.Format.{Text, write_u64_decimal, format_u64, format_size, format_addr_range}
use r_os.Format.Decimal.{Printed, write_u64_decimal-Printed, format_u64-write_u64_decimal}
use r_os.Format.Hex.{RangePrinted, format_addr_range-RangePrinted}
use r_os.Format.Size.{SizePrinted, format_size-SizePrinted}

abbrev small_buf : Buf
small_buf = replicate 24 0

abbrev line_buf : Buf
line_buf = replicate 40 0

write_u64_decimal-Printed_example :
    Returns
      (Printed 8192 (record { buf = small_buf; pos = 0 }))
      (write_u64_decimal (record { buf = small_buf; pos = 0 }) 8192)
write_u64_decimal-Printed_example =
    write_u64_decimal-Printed (record { buf = small_buf; pos = 0 }) 8192 (omega arith) (omega arith)

format_u64-write_u64_decimal_example :
    format_u64 small_buf 8192 ≡ write_u64_decimal (record { buf = small_buf; pos = 0 }) 8192
format_u64-write_u64_decimal_example =
    format_u64-write_u64_decimal small_buf 8192 refl (omega arith)

format_size-SizePrinted_example :
    Returns
      (λ t. SizePrinted 8388608 (take t.pos t.buf) × (t.pos ≤ length t.buf))
      (format_size small_buf 8388608)
format_size-SizePrinted_example = format_size-SizePrinted small_buf 8388608 refl (omega arith)

format_addr_range-RangePrinted_example :
    Returns
      (λ t. RangePrinted 0x1000 0x9fc00 (take t.pos t.buf) × (t.pos ≤ length t.buf))
      (format_addr_range line_buf 0x1000 0x9fc00)
format_addr_range-RangePrinted_example =
    format_addr_range-RangePrinted line_buf 0x1000 0x9fc00 refl (omega arith) (omega arith)

-- The text of a run.
abbrev text_of : Option Text → List ℕ
text_of none = []
text_of (some t) = take t.pos t.buf

eight_mib : text_of (format_size small_buf 8388608) ≡ b'8' ∷ b' ' ∷ b'M' ∷ b'i' ∷ b'B' ∷ []
unfolding format_size write_u64_decimal r_os.Format.scale r_os.Format.digits_of
    r_os.Format.put_bytes r_os.Format.put_byte r_os.Format.write_back
eight_mib = refl
