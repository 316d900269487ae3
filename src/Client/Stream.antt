-- ===== src/Client/Stream.antt =====
-- src/tunnel/client/services/handle-stream.ts: the packets that the two halves of a stream send.
use web_tether.Common.{Bool, Option, none, some, List, [], ◌∷◌, ◌++◌, if◌then◌else◌}
use web_tether.Common.Int.{ℤ}
use web_tether.SafeBuffer.{Bytes, encode_int32}
use web_tether.Protocol.{RelayCommand, command_code, RelayServiceConnectionReason, reason_code}

-- What a half throws: one of the symbols with which the halves and the link end each other, or an
-- error of the tunnel.
pub data StreamError : Type 0 where
  ended_here interrupted unexpected_eof other : StreamError

-- What `reader.read()` gives, or the loop's test.
pub data ReadResult : Type 0 where
  got : Option Bytes → Bool → ReadResult
  thrown : StreamError → ReadResult
  signal_aborted : ReadResult

pub data WriteResult : Type 0 where
  written : WriteResult
  thrown : StreamError → WriteResult

unfoldable pub stream_packet : ℤ → Bytes → Bytes
stream_packet uid content = command_code RelayCommand.service_stream ∷ (encode_int32 uid ++ content)

unfoldable pub closed_packet : ℤ → RelayServiceConnectionReason → Bytes
closed_packet uid reason =
    command_code RelayCommand.service_closed ∷ (encode_int32 uid ++ (reason_code reason ∷ []))

-- The `catch` of either half.
unfoldable pub caught : ℤ → StreamError → List Bytes
caught uid ended_here = []
caught uid interrupted =
    closed_packet uid RelayServiceConnectionReason.transport_socket_interrupted ∷ []
caught uid unexpected_eof = closed_packet uid RelayServiceConnectionReason.transport_socket_eos ∷ []
caught uid other = closed_packet uid RelayServiceConnectionReason.unknown ∷ []

abbrev pub closed_cleanly : ℤ → List Bytes
closed_cleanly uid = closed_packet uid RelayServiceConnectionReason.transport_socket_closed ∷ []

abbrev pub value_packets : ℤ → Option Bytes → List Bytes
value_packets uid none = []
value_packets uid (some content) = stream_packet uid content ∷ []

-- `readAction`, over what its reads give.
unfoldable pub read_action : ℤ → List ReadResult → List Bytes
unfolding caught
read_action uid [] = []
read_action uid (got value finished ∷ results) =
    let rest = read_action uid results in
    value_packets uid value ++ (if finished then closed_cleanly uid else rest)
read_action uid (ReadResult.thrown e ∷ results) = caught uid e
read_action uid (signal_aborted ∷ results) = closed_cleanly uid

-- `writeAction`, over what its writes give.
unfoldable pub write_action : ℤ → List WriteResult → List Bytes
unfolding caught
write_action uid [] = []
write_action uid (written ∷ results) = write_action uid results
write_action uid (WriteResult.thrown e ∷ results) = caught uid e
