-- ===== src/Keyboard/Tests.antt =====
-- A decoder that takes codes from 128 on for key releases, and runs of the reader with it.
use r_os.Common.{ℕ, ◌+◌, ◌≡◌, refl, none, some, [], ◌∷◌, ltb, if◌then◌else◌}
use r_os.Ring.{RingBuffer, push, buf_size}
use r_os.Ring.Inv.{IsValid, contents, empty_ring-IsValid, push-IsValid}
use r_os.Keyboard.{ByteResult, Decoder, scancode_queue, feed, try_read_key}
use r_os.Keyboard.Read.{first_key, Reads, try_read_key-Reads}

-- The state counts the bytes seen.
abbrev pub counting : Decoder
counting = record {
  State = ℕ;
  KeyEvent = ℕ;
  DecodedKey = ℕ;
  add_byte = λ n b. (ByteResult.ok (if ltb b 128 then some b else none), n + 1);
  process_keyevent = λ n e. (some e, n);
}

abbrev pub typed : RingBuffer ℕ
typed = push (push (push scancode_queue 200) 30) 31

pub typed-IsValid : IsValid typed
typed-IsValid = push-IsValid _ 31 (push-IsValid _ 30 (push-IsValid _ 200 (empty_ring-IsValid 0)))

-- The release is skipped, the key behind it returned, and the next one left.
first_key-typed : first_key counting (200 ∷ 30 ∷ 31 ∷ []) 0 ≡ (some 30, 31 ∷ [], 2)
unfolding first_key feed
first_key-typed = refl

try_read_key-Reads_example :
    Reads counting
      (try_read_key counting buf_size typed 0)
      (first_key counting (contents 0 typed) 0)
try_read_key-Reads_example = try_read_key-Reads counting typed 0 typed-IsValid
