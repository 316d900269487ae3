-- ===== src/Session.antt =====
-- src/tunnel/server/tunnel.relay.ts, `handleSocketRelay`: what the relay does with each packet of
-- an authenticated socket. A turn is one round of the command loop: the state it leaves, the
-- packets that it gives to writers, and whether the loop goes on, returns or throws.
pub mod Bind
pub mod Connect
pub mod Commands
pub mod BindLaws
pub mod ConnectLaws
pub mod Laws
pub mod Packets
pub mod World
pub mod Grants
pub mod Authority
pub mod Requests
mod Tests
use web_tether.Common.{ℕ, Bool, true, false, Option, none, some, List, [], ◌∷◌, ◌++◌, if◌then◌else◌}
use web_tether.Common.Result.{Result, ok, err}
use web_tether.SafeBuffer.{Bytes, SafeReader}
use web_tether.Relay.{Text, Relay, RelayError, Write}

-- `{ enabled: false } | { enabled: true; allowed }`
pub data Permission : Type 0 where
  disabled : Permission
  enabled : (Text → Bool) → Permission

-- What the session takes from elsewhere: the identity of its socket, the permissions of the
-- authenticated client, and the platform's `TextDecoder` and `TextEncoder`.
pub record Context : Type 0 where
  pub socket : ℕ
  pub bind : Permission
  pub connect : Permission
  pub decode : Bytes → Text
  pub encode : Text → Bytes

pub record Session : Type 0 where
  pub relay : Relay
  pub service_bound : Bool

pub data Next : Type 0 where
  continue stop : Next
  throw : RelayError → Next

pub record Turn : Type 0 where
  pub session : Session
  pub writes : List Write
  pub next : Next

pub data RelayFailure : Type 0 where
  bind_unauthorized bind_already_bound_socket bind_invalid_service_type : RelayFailure
  bind_unauthorized_services bind_already_bound_services : RelayFailure
  connect_unauthorized connect_invalid_uid connect_invalid_service_type : RelayFailure
  connect_unauthorized_service connect_service_not_found : RelayFailure
  connect_non_matching_service_type unsupported_command : RelayFailure

abbrev pub is_blocking_failure : RelayFailure → Bool
is_blocking_failure connect_service_not_found = false
is_blocking_failure connect_non_matching_service_type = false
is_blocking_failure bind_unauthorized = true
is_blocking_failure bind_already_bound_socket = true
is_blocking_failure bind_invalid_service_type = true
is_blocking_failure bind_unauthorized_services = true
is_blocking_failure bind_already_bound_services = true
is_blocking_failure connect_unauthorized = true
is_blocking_failure connect_invalid_uid = true
is_blocking_failure connect_invalid_service_type = true
is_blocking_failure connect_unauthorized_service = true
is_blocking_failure unsupported_command = true

-- A round that ends without another call.
abbrev pub done : Session → List Write → Turn
done s ws = record { session = s; writes = ws; next = Next.continue }

abbrev pub thrown : Session → List Write → RelayError → Turn
thrown s ws e = record { session = s; writes = ws; next = Next.throw e }

-- `writer.write(packet); if (isBlockingFailure(failure)) return; else break;`
unfoldable pub refuse : Context → Session → RelayFailure → Bytes → Turn
refuse ctx s failure packet = record {
  session = s;
  writes = (ctx.socket, packet) ∷ [];
  next = if is_blocking_failure failure then Next.stop else Next.continue;
}

-- A read of the packet, which throws `buffer-too-short`, and what follows it.
unfoldable pub reading :
    {A : Type 0} → Session → Option (A × SafeReader) → (A → SafeReader → Turn) → Turn
reading s none k = thrown s [] RelayError.buffer_too_short
reading s (some (a, r)) k = k a r

-- A call that may throw, and what follows it.
unfoldable pub calling :
    {A : Type 0} → Session → List Write → Result RelayError A → (A → Turn) → Turn
calling s ws (err e) k = thrown s ws e
calling s ws (ok a) k = k a
