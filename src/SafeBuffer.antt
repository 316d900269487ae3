-- ===== src/SafeBuffer.antt =====
-- src/common/safe-buffer.ts: the encoders, the bounds-checked reader and the comparison of buffers.
-- A buffer is the list of its bytes. A read that throws `outOfBufferError()` is `none`; a read
-- returns its value with the reader as it stands after it (`offset` is the closure's variable).
pub mod Reads
pub mod RoundTrip
pub mod Sized
pub mod Equal
mod Tests
use web_tether.Common.{
  ℕ, zero, suc, ◌+◌, ◌-◌, ◌*◌, ◌/◌, ◌%◌, ◌^◌, Bool, true, false, Option, none, some, List, [], ◌∷◌,
  ◌++◌, not, leb, ltb, ◌==◌, if◌then◌else◌, length, take, drop, get_or,
}
use web_tether.Common.Int.{ℤ, pos, negsuc}

abbrev pub Bytes : Type 0
Bytes = List ℕ

-- `if (length > buffer.byteLength) throw error();`
pub ensure_length : Bytes → ℕ → Option (Unit {0})
ensure_length buffer n = if ltb (length buffer) n then none else some tt

-- DataView setters store a number modulo 2 ^ w, big-endian.
abbrev pub be8 : ℕ → Bytes
be8 n = n % 256 ∷ []

abbrev pub be16 : ℕ → Bytes
be16 n = n / 256 % 256 ∷ n % 256 ∷ []

abbrev pub be32 : ℕ → Bytes
be32 n = n / 16777216 % 256 ∷ n / 65536 % 256 ∷ n / 256 % 256 ∷ n % 256 ∷ []

-- The bit pattern of width `2 ^ w = m` of a signed number.
abbrev pub to_unsigned : ℕ → ℤ → ℕ
to_unsigned m (pos n) = n % m
to_unsigned m (negsuc n) = m - 1 - n % m

-- The signed number of a bit pattern of width `2 ^ w = m`.
abbrev pub to_signed : ℕ → ℕ → ℤ
to_signed m n = if ltb n (m / 2) then pos n else negsuc (m - 1 - n)

unfoldable pub encode_uint8 : ℕ → Bytes
encode_uint8 n = be8 n

unfoldable pub encode_uint16 : ℕ → Bytes
encode_uint16 n = be16 n

unfoldable pub encode_uint32 : ℕ → Bytes
encode_uint32 n = be32 n

unfoldable pub encode_int8 : ℤ → Bytes
encode_int8 z = be8 (to_unsigned 256 z)

unfoldable pub encode_int16 : ℤ → Bytes
encode_int16 z = be16 (to_unsigned 65536 z)

unfoldable pub encode_int32 : ℤ → Bytes
encode_int32 z = be32 (to_unsigned 4294967296 z)

unfoldable pub encode_with_uint8_length : Bytes → Bytes
encode_with_uint8_length source = be8 (length source) ++ source

unfoldable pub encode_with_uint16_length : Bytes → Bytes
encode_with_uint16_length source = be16 (length source) ++ source

-- The source writes the length with `setUint16` into the first two of the four bytes.
unfoldable pub encode_with_uint32_length : Bytes → Bytes
encode_with_uint32_length source = be16 (length source) ++ (0 ∷ 0 ∷ source)

pub record SafeReader : Type 0 where
  pub buffer : Bytes
  pub offset : ℕ

unfoldable pub safe_reader : Bytes → SafeReader
safe_reader source = record { buffer = source; offset = 0 }

-- `if (!options?.ahead) offset += n;`
abbrev pub advance : Bool → ℕ → SafeReader → SafeReader
advance ahead n r = record r { offset = if ahead then r.offset else r.offset + n }

abbrev byte : SafeReader → ℕ → ℕ
byte r i = get_or r.buffer (r.offset + i) 0

abbrev word8 : SafeReader → ℕ
word8 r = byte r 0

abbrev word16 : SafeReader → ℕ
word16 r = byte r 0 * 256 + byte r 1

abbrev word32 : SafeReader → ℕ
word32 r = byte r 0 * 16777216 + byte r 1 * 65536 + byte r 2 * 256 + byte r 3

-- What follows a read or a check that may throw.
infixl 5 ◌>>=◌ ◌>>◌
abbrev pub ◌>>=◌ : {X Y : Type 0} → Option X → (X → Option Y) → Option Y
none >>= next = none
some x >>= next = next x

abbrev pub ◌>>◌ : {Y : Type 0} → Option (Unit {0}) → Option Y → Option Y
check >> next = check >>= λ _. next

unfoldable pub uint8 : Bool → SafeReader → Option (ℕ × SafeReader)
unfolding ensure_length
uint8 ahead r = do ensure_length r.buffer (r.offset + 1); some (word8 r, advance ahead 1 r)

unfoldable pub uint16 : Bool → SafeReader → Option (ℕ × SafeReader)
unfolding ensure_length
uint16 ahead r = do ensure_length r.buffer (r.offset + 2); some (word16 r, advance ahead 2 r)

unfoldable pub uint32 : Bool → SafeReader → Option (ℕ × SafeReader)
unfolding ensure_length
uint32 ahead r = do ensure_length r.buffer (r.offset + 4); some (word32 r, advance ahead 4 r)

unfoldable pub int8 : Bool → SafeReader → Option (ℤ × SafeReader)
unfolding ensure_length
int8 ahead r = do
  ensure_length r.buffer (r.offset + 1)
  some (to_signed 256 (word8 r), advance ahead 1 r)

unfoldable pub int16 : Bool → SafeReader → Option (ℤ × SafeReader)
unfolding ensure_length
int16 ahead r = do
  ensure_length r.buffer (r.offset + 2)
  some (to_signed 65536 (word16 r), advance ahead 2 r)

unfoldable pub int32 : Bool → SafeReader → Option (ℤ × SafeReader)
unfolding ensure_length
int32 ahead r = do
  ensure_length r.buffer (r.offset + 4)
  some (to_signed 4294967296 (word32 r), advance ahead 4 r)

-- The reader's `data`.
unfoldable pub data_of : ℕ → Bool → SafeReader → Option (Bytes × SafeReader)
unfolding ensure_length
data_of n ahead r = do
  ensure_length r.buffer (r.offset + n)
  some (take n (drop r.offset r.buffer), advance ahead n r)

-- `dataLeft`, which cannot throw.
unfoldable pub data_left : Bool → SafeReader → Bytes × SafeReader
data_left ahead r = let rest = drop r.offset r.buffer in (rest, advance ahead (length rest) r)

-- `data(uint8())` and `data(uint16())`: how the callers read what is sent with its length in front.
unfoldable pub sized8 : SafeReader → Option (Bytes × SafeReader)
sized8 r = uint8 false r >>= λ (n, r'). data_of n false r'

unfoldable pub sized16 : SafeReader → Option (Bytes × SafeReader)
sized16 r = uint16 false r >>= λ (n, r'). data_of n false r'

-- `for (let i = 0; i < a.length; ++i) if (a[i] !== b[i]) return false;` from index `i` with
-- `left` rounds to go.
bytes_agree : ℕ → ℕ → Bytes → Bytes → Bool
bytes_agree zero i a b = true
bytes_agree (suc left) i a b =
    let rest = bytes_agree left (i + 1) a b in
    if not (get_or a i 0 == get_or b i 0) then false else rest

unfoldable pub are_buffers_equal : Bytes → Bytes → Bool
unfolding bytes_agree
are_buffers_equal a b = if not (length a == length b) then false else bytes_agree (length a) 0 a b
