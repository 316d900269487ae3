-- ===== src/Socks.antt =====
-- src/proxy/socks.common.ts and the handshake of `handleSocksConnection` in
-- src/proxy/socks.server.ts. A protocol handler is an async generator: here a script, which asks for
-- bytes, sends bytes, dials a destination, and ends with the tunnel or without. The driver runs a
-- script against what the connection's reader delivers; `options.tunnel` is a parameter of it. The
-- abort signal takes effect where the driver reads.
pub mod Text
pub mod Socks5
pub mod Socks4
pub mod Protocol
pub mod Chunks
pub mod Gate
pub mod Asking
pub mod Socks5Laws
pub mod Socks4Laws
pub mod Admission
pub mod Handshake
mod Tests
use web_tether.Common.{
  ℕ, zero, suc, ◌+◌, Bool, true, false, Option, none, some, List, [], ◌∷◌, ◌++◌, ◌==◌, leb,
  if◌then◌else◌, length, take, drop,
}
use web_tether.SafeBuffer.{Bytes}

pub data Mode : Type 0 where
  ipv4 ipv6 domain : Mode

pub record SocksDestinationAddress : Type 0 where
  pub mode : Mode
  pub host : List ℕ
  pub port : ℕ

pub data ConnectionTunnelErrorReason : Type 0 where
  general_failure not_allowed network_unreachable : ConnectionTunnelErrorReason
  host_unreachable connection_refused ttl_expired : ConnectionTunnelErrorReason

-- What `options.tunnel` comes to: a tunnel (by its number), a refusal, or a rejected promise.
pub data SocksTunnelResponse : Type 0 where
  opened : ℕ → SocksTunnelResponse
  refused : ConnectionTunnelErrorReason → SocksTunnelResponse
  rejected : SocksTunnelResponse

pub data Want : Type 0 where
  size until : ℕ → Want

pub record SocksHandlerBufferRequest : Type 0 where
  pub timeout : ℕ
  pub want : Want
  pub do_not_consume : Bool

pub data Script : Type 0 where
  finish : Option ℕ → Script
  raise : Script
  ask : SocksHandlerBufferRequest → (Bytes → Script) → Script
  send : Bytes → Script → Script
  dial : SocksDestinationAddress → (SocksTunnelResponse → Script) → Script

abbrev pub init_timeout : ℕ
init_timeout = 10000

abbrev pub short_timeout : ℕ
short_timeout = 100

-- `SOCKS_REQUEST_TIMEOUT`
abbrev pub request_timeout : ℕ
request_timeout = 10000

-- `yield { timeout, size }` and `yield { timeout, until }`.
abbrev pub ask_size : ℕ → ℕ → (Bytes → Script) → Script
ask_size timeout n = ask (record { timeout = timeout; want = Want.size n; do_not_consume = false })

abbrev pub ask_until : ℕ → ℕ → (Bytes → Script) → Script
ask_until timeout b =
    ask (record { timeout = timeout; want = Want.until b; do_not_consume = false })

-- What the reader delivers: bytes, the end of the stream, or a deadline or abort that throws.
pub data Read : Type 0 where
  chunk : Bytes → Read
  closed interrupted : Read

-- How the handshake ends.
pub data Ending : Type 0 where
  tunnelled : Option ℕ → Ending
  end_of_stream thrown : Ending

pub record Outcome : Type 0 where
  pub sent : List Bytes
  pub dialled : List SocksDestinationAddress
  pub ending : Ending
  pub working_buffer : Bytes
  pub unread : List Read

-- `workingBuffer.indexOf(b)`
pub index_of : ℕ → Bytes → Option ℕ
index_of b [] = none
index_of b (x ∷ xs) =
    if x == b then some 0 else elim (index_of b xs) [ none ↦ none | some i ↦ some (suc i) ]

-- The loop's condition with `readTo`: how many bytes the request takes from the buffer, if it can.
unfoldable pub read_to : Want → Bytes → Option ℕ
unfolding index_of
read_to (Want.size n) buffer = if leb n (length buffer) then some n else none
read_to (Want.until b) buffer = elim (index_of b buffer) [ none ↦ none | some i ↦ some (i + 1) ]

pub data Fetch : Type 0 where
  got : ℕ → Bytes → List Read → Fetch
  stopped : Ending → Bytes → List Read → Fetch

-- Reading until the request can be met.
unfoldable pub fetch : Want → Bytes → List Read → Fetch
fetch w buffer [] = elim (read_to w buffer) [
  | some n ↦ got n buffer []
  | none ↦ stopped Ending.thrown buffer []
]
fetch w buffer (Read.chunk c ∷ reads) =
    let rest = fetch w (buffer ++ c) reads in
    elim (read_to w buffer) [ some n ↦ got n buffer (Read.chunk c ∷ reads) | none ↦ rest ]
fetch w buffer (Read.closed ∷ reads) = elim (read_to w buffer) [
  | some n ↦ got n buffer (Read.closed ∷ reads)
  | none ↦ stopped Ending.end_of_stream buffer reads
]
fetch w buffer (Read.interrupted ∷ reads) = elim (read_to w buffer) [
  | some n ↦ got n buffer (Read.interrupted ∷ reads)
  | none ↦ stopped Ending.thrown buffer reads
]

-- `options.tunnel`
abbrev pub Tunnel : Type 0
Tunnel = SocksDestinationAddress → SocksTunnelResponse

abbrev pub ended : Ending → Bytes → List Read → Outcome
ended how buffer reads = record {
  sent = [];
  dialled = [];
  ending = how;
  working_buffer = buffer;
  unread = reads;
}

-- The `handshake` loop. `thrown` stands for the throw that `finally` passes on.
unfoldable pub run : Tunnel → Script → Bytes → List Read → Outcome
unfolding fetch
run tunnel (finish t) buffer reads = ended (Ending.tunnelled t) buffer reads
run tunnel raise buffer reads = ended Ending.thrown buffer reads
run tunnel (send b k) buffer reads =
    let o = run tunnel k buffer reads in record o { sent = b ∷ o.sent }
run tunnel (dial to k) buffer reads =
    let o = run tunnel (k (tunnel to)) buffer reads in record o { dialled = to ∷ o.dialled }
run tunnel (ask q k) buffer reads = elim (fetch q.want buffer reads) [
  | got n b r ↦ run tunnel (k (take n b)) (if q.do_not_consume then b else drop n b) r
  | stopped e b r ↦ ended e b r
]
