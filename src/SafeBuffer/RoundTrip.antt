-- ===== src/SafeBuffer/RoundTrip.antt =====
-- A value that is encoded and read back, in front of any other bytes.
use web_tether.Common.{
  ℕ, ◌+◌, ◌*◌, ◌≤◌, ◌<◌, ◌≡◌, ◌++◌, ◌∙◌, false, Option, some, arith, length, length-append, ◌/◌,
  ◌%◌, ◌∷◌, ap, take-append_length, drop-append_length,
}
use web_tether.Common.Int.{ℤ, pos, negsuc, ◌≤ℤ◌}
use web_tether.SafeBuffer.{
  Bytes, SafeReader, advance, uint8, uint16, uint32, int32, data_of, encode_uint8, encode_uint16,
  encode_int32, encode_uint32, to_signed, to_unsigned,
}
use web_tether.SafeBuffer.Reads.{Left, Takes, byte-Left, ensure-Left, advance-Left}

-- Reading the bytes in front of the reader, one lemma for each width.
module _ (r : SafeReader) (a b c d : ℕ) (rest : Bytes) where
  pub uint8-Left : Left r (a ∷ rest) → Takes a rest (uint8 false r)
  unfolding uint8
  uint8-Left left = (
    advance false 1 r,
    rw (ensure-Left r _ left 1 (omega arith), byte-Left r _ left 0),
    advance-Left r _ left 1 (omega arith),
  )

  pub uint16-Left : Left r (a ∷ b ∷ rest) → Takes (a * 256 + b) rest (uint16 false r)
  unfolding uint16
  uint16-Left left = (
    advance false 2 r,
    rw (ensure-Left r _ left 2 (omega arith), byte-Left r _ left 0, byte-Left r _ left 1),
    advance-Left r _ left 2 (omega arith),
  )

  pub int32-Left :
      Left r (a ∷ b ∷ c ∷ d ∷ rest)
      → Takes (to_signed 4294967296 (a * 16777216 + b * 65536 + c * 256 + d)) rest (int32 false r)
  unfolding int32
  int32-Left left = (
    advance false 4 r,
    rw (
      ensure-Left r _ left 4 (omega arith),
      byte-Left r _ left 0,
      byte-Left r _ left 1,
      byte-Left r _ left 2,
      byte-Left r _ left 3,
    ),
    advance-Left r _ left 4 (omega arith),
  )

  pub uint32-Left :
      Left r (a ∷ b ∷ c ∷ d ∷ rest)
      → Takes (a * 16777216 + b * 65536 + c * 256 + d) rest (uint32 false r)
  unfolding uint32
  uint32-Left left = (
    advance false 4 r,
    rw (
      ensure-Left r _ left 4 (omega arith),
      byte-Left r _ left 0,
      byte-Left r _ left 1,
      byte-Left r _ left 2,
      byte-Left r _ left 3,
    ),
    advance-Left r _ left 4 (omega arith),
  )

-- A read that returns `a` where `a` is `b` returns `b`.
pub retake :
    {A : Type 0} {a b : A} (rest : Bytes) (o : Option (A × SafeReader))
    → a ≡ b
    → Takes a rest o
    → Takes b rest o
retake rest o p (r, e, left) = (r, e ∙ ap (λ x. some (x, r)) p, left)

-- Any byte, 16-bit and 32-bit number, signed or not, is read back as it was encoded.
pub uint8-encode_uint8 :
    (n : ℕ) (r : SafeReader) (rest : Bytes)
    → n < 256
    → Left r (encode_uint8 n ++ rest)
    → Takes n rest (uint8 false r)
unfolding encode_uint8
uint8-encode_uint8 n r rest h left =
    retake rest _ (omega arith) (uint8-Left r (n % 256) 0 0 0 rest left)

pub uint16-encode_uint16 :
    (n : ℕ) (r : SafeReader) (rest : Bytes)
    → n < 65536
    → Left r (encode_uint16 n ++ rest)
    → Takes n rest (uint16 false r)
unfolding encode_uint16
uint16-encode_uint16 n r rest h left =
    retake rest _ (omega arith) (uint16-Left r (n / 256 % 256) (n % 256) 0 0 rest left)

pub uint32-encode_uint32 :
    (n : ℕ) (r : SafeReader) (rest : Bytes)
    → n < 4294967296
    → Left r (encode_uint32 n ++ rest)
    → Takes n rest (uint32 false r)
unfolding encode_uint32
uint32-encode_uint32 n r rest h left = retake rest _ (omega arith) (uint32-Left r _ _ _ _ rest left)

-- The range of a signed 32-bit number.
abbrev pub IsInt32 : ℤ → Type 0
IsInt32 z = (negsuc 2147483647 ≤ℤ z) × (z ≤ℤ pos 2147483647)

-- Four base-256 digits of a number below 2 ^ 32 give it back.
digits_lem :
    (n : ℕ)
    → n < 4294967296
    → n / 16777216 % 256 * 16777216 + n / 65536 % 256 * 65536 + n / 256 % 256 * 256 + n % 256 ≡ n
digits_lem n h = omega arith

to_signed-to_unsigned : (z : ℤ) → IsInt32 z → to_signed 4294967296 (to_unsigned 4294967296 z) ≡ z
to_signed-to_unsigned (pos n) h = ground arith
to_signed-to_unsigned (negsuc n) h = ground arith

to_unsigned-lt : (z : ℤ) → to_unsigned 4294967296 z < 4294967296
to_unsigned-lt (pos n) = omega arith
to_unsigned-lt (negsuc n) = omega arith

-- A number of 32 signed bits, encoded with `encodeInt32` and read with `int32`, comes back as it was,
-- and the reader stands at the first byte behind it.
pub int32-encode_int32 :
    (z : ℤ) (r : SafeReader) (rest : Bytes)
    → IsInt32 z
    → Left r (encode_int32 z ++ rest)
    → Takes z rest (int32 false r)
unfolding encode_int32
int32-encode_int32 z r rest h left =
    retake rest _
      (ap (to_signed 4294967296) (digits_lem _ (to_unsigned-lt z)) ∙ to_signed-to_unsigned z h)
      (int32-Left r _ _ _ _ rest left)

pub data_of-Left :
    (r : SafeReader) (content rest : Bytes)
    → Left r (content ++ rest)
    → Takes content rest (data_of (length content) false r)
unfolding data_of
data_of-Left r content rest left =
    let fits : length content ≤ length (content ++ rest) =
      omega (arith, length-append content rest) in
    let (inside, same) = advance-Left r _ left (length content) fits in
    (
      advance false (length content) r,
      rw (ensure-Left r _ left (length content) fits, left.1, take-append_length content rest),
      (inside, same ∙ drop-append_length content rest),
    )
