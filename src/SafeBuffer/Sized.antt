-- ===== src/SafeBuffer/Sized.antt =====
-- What is sent with its length in front, and read back.
use web_tether.Common.{◌*◌, ◌<◌, ◌++◌, ◌∙◌, arith, length, append_assoc, false, ◌/◌, ◌%◌}
use web_tether.SafeBuffer.{
  Bytes, SafeReader, sized8, sized16, uint32, encode_with_uint8_length, encode_with_uint16_length,
  encode_with_uint32_length, encode_uint16, encode_uint8,
}
use web_tether.SafeBuffer.Reads.{Left, Takes}
use web_tether.SafeBuffer.RoundTrip.{
  uint8-encode_uint8, uint16-encode_uint16, uint32-Left, data_of-Left, retake,
}

Left-assoc : (r : SafeReader) (a b c : Bytes) → Left r ((a ++ b) ++ c) → Left r (a ++ (b ++ c))
Left-assoc r a b c left = (left.0, left.1 ∙ append_assoc a b c)

-- Up to 255 bytes sent behind their 8-bit length are read back as they were sent, and the reader
-- stands at the first byte behind them.
pub sized8-encode_with_uint8_length :
    (source : Bytes) (r : SafeReader) (rest : Bytes)
    → length source < 256
    → Left r (encode_with_uint8_length source ++ rest)
    → Takes source rest (sized8 r)
unfolding sized8 encode_with_uint8_length encode_uint8
sized8-encode_with_uint8_length source r rest h left =
    let (r', e, left') =
      uint8-encode_uint8 (length source) r (source ++ rest) h
        (Left-assoc r (encode_uint8 (length source)) source rest left) in
    let (r'', e', left'') = data_of-Left r' source rest left' in (r'', rw e e', left'')

-- Up to 65535 bytes sent behind their 16-bit length are read back as they were sent, and the
-- reader stands at the first byte behind them.
pub sized16-encode_with_uint16_length :
    (source : Bytes) (r : SafeReader) (rest : Bytes)
    → length source < 65536
    → Left r (encode_with_uint16_length source ++ rest)
    → Takes source rest (sized16 r)
unfolding sized16 encode_with_uint16_length encode_uint16
sized16-encode_with_uint16_length source r rest h left =
    let (r', e, left') =
      uint16-encode_uint16 (length source) r (source ++ rest) h
        (Left-assoc r (encode_uint16 (length source)) source rest left) in
    let (r'', e', left'') = data_of-Left r' source rest left' in (r'', rw e e', left'')

-- Up to 65535 bytes sent behind a 32-bit length, whatever follows them: the reader takes the length
-- for 65536 times what it is, and stands at the first of the bytes.
pub uint32-encode_with_uint32_length :
    (source : Bytes) (r : SafeReader) (rest : Bytes)
    → length source < 65536
    → Left r (encode_with_uint32_length source ++ rest)
    → Takes (length source * 65536) (source ++ rest) (uint32 false r)
unfolding encode_with_uint32_length
uint32-encode_with_uint32_length source r rest h left =
    let n = length source in
    retake (source ++ rest) _ (omega arith)
      (uint32-Left r (n / 256 % 256) (n % 256) 0 0 (source ++ rest) left)
