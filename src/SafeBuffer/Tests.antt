-- ===== src/SafeBuffer/Tests.antt =====
-- Runs of the encoders and the reader, and the theorems at concrete buffers.
use web_tether.Common.{◌≡◌, ◌↔◌, refl, arith, true, false, [], ◌∷◌, ◌++◌}
use web_tether.Common.Int.{negsuc}
use web_tether.SafeBuffer.{
  Bytes, safe_reader, encode_int32, encode_with_uint8_length, encode_with_uint16_length,
  encode_with_uint32_length, uint8, uint16, uint32, int8, int16, int32, data_of, sized8, sized16,
  are_buffers_equal,
}
use web_tether.SafeBuffer.Reads.{Reads, Takes, Reads-all, safe_reader-Left}
use web_tether.SafeBuffer.RoundTrip.{int32-encode_int32}
use web_tether.SafeBuffer.Sized.{
  sized8-encode_with_uint8_length, sized16-encode_with_uint16_length,
  uint32-encode_with_uint32_length,
}
use web_tether.SafeBuffer.Equal.{are_buffers_equal_iff}

abbrev five : Bytes
five = 1 ∷ 2 ∷ 3 ∷ 4 ∷ 5 ∷ []

abbrev tail_bytes : Bytes
tail_bytes = 9 ∷ 9 ∷ []

Reads-all_example :
    Reads 1 false (safe_reader five) (uint8 false (safe_reader five))
    × Reads 2 false (safe_reader five) (uint16 false (safe_reader five))
    × Reads 4 false (safe_reader five) (uint32 false (safe_reader five))
    × Reads 1 false (safe_reader five) (int8 false (safe_reader five))
    × Reads 2 false (safe_reader five) (int16 false (safe_reader five))
    × Reads 4 false (safe_reader five) (int32 false (safe_reader five))
    × Reads 7 false (safe_reader five) (data_of 7 false (safe_reader five))
Reads-all_example = Reads-all 7 false (safe_reader five)

int32-encode_int32_example :
    Takes
      (negsuc 41)
      tail_bytes
      (int32 false (safe_reader (encode_int32 (negsuc 41) ++ tail_bytes)))
int32-encode_int32_example =
    int32-encode_int32 (negsuc 41) (safe_reader (encode_int32 (negsuc 41) ++ tail_bytes)) tail_bytes
      (omega arith, omega arith) (safe_reader-Left (encode_int32 (negsuc 41) ++ tail_bytes))

sized8-encode_with_uint8_length_example :
    Takes five tail_bytes (sized8 (safe_reader (encode_with_uint8_length five ++ tail_bytes)))
sized8-encode_with_uint8_length_example =
    sized8-encode_with_uint8_length five (safe_reader (encode_with_uint8_length five ++ tail_bytes))
      tail_bytes (omega arith) (safe_reader-Left (encode_with_uint8_length five ++ tail_bytes))

sized16-encode_with_uint16_length_example :
    Takes five tail_bytes (sized16 (safe_reader (encode_with_uint16_length five ++ tail_bytes)))
sized16-encode_with_uint16_length_example =
    sized16-encode_with_uint16_length five
      (safe_reader (encode_with_uint16_length five ++ tail_bytes)) tail_bytes (omega arith)
      (safe_reader-Left (encode_with_uint16_length five ++ tail_bytes))

uint32-encode_with_uint32_length_example :
    Takes 327680
      (five ++ tail_bytes)
      (uint32 false (safe_reader (encode_with_uint32_length five ++ tail_bytes)))
uint32-encode_with_uint32_length_example =
    uint32-encode_with_uint32_length five
      (safe_reader (encode_with_uint32_length five ++ tail_bytes)) tail_bytes (omega arith)
      (safe_reader-Left (encode_with_uint32_length five ++ tail_bytes))

are_buffers_equal_iff_example : (are_buffers_equal five tail_bytes ≡ true) ↔ (five ≡ tail_bytes)
are_buffers_equal_iff_example = are_buffers_equal_iff five tail_bytes

-- The encoded bytes.
encode_int32_run : encode_int32 (negsuc 1) ≡ 255 ∷ 255 ∷ 255 ∷ 254 ∷ []
unfolding encode_int32
encode_int32_run = refl

encode_with_uint32_length_run : encode_with_uint32_length (7 ∷ []) ≡ 0 ∷ 1 ∷ 0 ∷ 0 ∷ 7 ∷ []
unfolding encode_with_uint32_length
encode_with_uint32_length_run = refl
