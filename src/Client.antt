-- ===== src/Client.antt =====
-- src/tunnel/client/tunnel-handle.client.ts from the end of the authentication on: the tables of a
-- client, and what it does with a packet, with a connection that one of its local services accepts
-- and with the outcome of a dial. Of the options of `Deno.connect` the host name and the port are
-- kept. A promise `done` counts as settled, and its `finally` as run, where the code finalizes:
-- those callbacks run before the next packet is taken.
pub mod Requests
pub mod Commands
pub mod Dials
pub mod Stream
pub mod Opening
pub mod Loop
pub mod Tidy
pub mod Invariant
pub mod Packets
pub mod Linking
pub mod Exchange
pub mod Answers
pub mod Returned
mod Tests
mod ReturnedTests
use web_tether.Common.{ℕ, Bool, true, false, Option, none, some, List, [], ◌∷◌, ◌++◌, if◌then◌else◌}
use web_tether.Common.Int.{ℤ, pos}
use web_tether.Common.Dict.{Dict, get, delete, int_eq}
use web_tether.SafeBuffer.{Bytes, SafeReader}
use web_tether.Relay.{Text}
use web_tether.Socks.{ConnectionTunnelErrorReason}

pub record Address : Type 0 where
  pub hostname : Text
  pub port : ℕ

-- A service that this client offers; a raw socket has its destination with it.
pub data RegisteredService : Type 0 where
  proxied : RegisteredService
  forwarded : Address → RegisteredService

-- What `client.emit` is given.
pub data Answer : Type 0 where
  accepted : Answer
  failed : ConnectionTunnelErrorReason → Answer

pub record TunnelClientConnection : Type 0 where
  pub connected : Bool

-- The link object is known by the number of its dial.
pub record TunnelClientLink : Type 0 where
  pub dial : ℕ

pub record Client : Type 0 where
  pub registered : Dict Text RegisteredService
  pub connections : Dict ℤ TunnelClientConnection
  pub links : Dict ℤ TunnelClientLink
  pub local_uid : ℕ
  pub next_dial : ℕ

-- What the callbacks of a dial have in scope.
pub record Dial : Type 0 where
  pub uid : ℤ
  pub encoded_uid : Bytes
  pub number : ℕ

-- `sent` is a packet for the relay's writer, `pushed` a chunk for the output queue of an
-- identifier, `streaming` a start of `handleClientStream` and `closing` an end of a tunnel.
pub data ClientEffect : Type 0 where
  sent : Bytes → ClientEffect
  emitted : ℤ → Answer → ClientEffect
  dialled : Dial → Address → ClientEffect
  streaming : ℤ → ClientEffect
  pushed : ℤ → Bytes → ClientEffect
  closing : ℤ → ClientEffect

pub data ClientNext : Type 0 where
  going stopped buffer_too_short : ClientNext

pub record ClientTurn : Type 0 where
  pub client : Client
  pub effects : List ClientEffect
  pub next : ClientNext

-- The platform's `TextDecoder` and `TextEncoder`.
pub record Coding : Type 0 where
  pub decode : Bytes → Text
  pub encode : Text → Bytes

unfoldable pub new_client : Dict Text RegisteredService → Client
new_client registered = record {
  registered = registered;
  connections = [];
  links = [];
  local_uid = 1;
  next_dial = 0;
}

abbrev pub went_on : Client → List ClientEffect → ClientTurn
went_on c es = record { client = c; effects = es; next = going }

-- A read of the packet, which throws `buffer-too-short`, and what follows it.
unfoldable pub receiving :
    {A : Type 0} → Client → Option (A × SafeReader) → (A → SafeReader → ClientTurn) → ClientTurn
receiving c none k = record { client = c; effects = []; next = buffer_too_short }
receiving c (some (a, r)) k = k a r

-- `done.finally` of a connection.
unfoldable pub drop_connection : ℤ → TunnelClientConnection → Client → Client × List ClientEffect
drop_connection uid x c = (
  record c { connections = delete uid c.connections },
  closing uid
      ∷ (if x.connected
          then []
          else emitted uid (failed ConnectionTunnelErrorReason.general_failure) ∷ []),
)

unfoldable pub finalize_connection : ℤ → Client → Client × List ClientEffect
finalize_connection uid c = elim (get uid c.connections) [
  | none ↦ (c, [])
  | some x ↦ drop_connection uid x c
]

-- `done.finally` of a link.
unfoldable pub drop_link : ℤ → Client → Client × List ClientEffect
drop_link uid c = (record c { links = delete uid c.links }, closing uid ∷ [])

unfoldable pub finalize_link : ℤ → Client → Client × List ClientEffect
unfolding drop_link
finalize_link uid c = elim (get uid c.links) [ none ↦ (c, []) | some _ ↦ drop_link uid c ]
