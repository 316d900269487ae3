-- ===== src/Client/Requests.antt =====
-- src/tunnel/client/services/client-service-handler.ts: a connection that a local service accepts.
use web_tether.Common.{none, some, ℕ, ◌+◌, Bool, false, List, [], ◌∷◌, ◌++◌, if◌then◌else◌}
use web_tether.Common.Int.{ℤ, pos}
use web_tether.Common.Dict.{get, set, int_eq}
use web_tether.SafeBuffer.{Bytes, encode_int32, encode_uint16, encode_with_uint16_length}
use web_tether.Protocol.{RelayCommand, command_code, RelayServiceType, service_code}
use web_tether.Relay.{Text}
use web_tether.Socks.{ConnectionTunnelErrorReason}
use web_tether.Client.{
  Address, failed, Client, ClientEffect, sent, emitted, Coding, drop_connection,
}

-- A client of a local service; the handler of a raw socket has no destination.
pub data LocalTarget : Type 0 where
  raw : LocalTarget
  proxy : Address → LocalTarget

pub record LocalClient : Type 0 where
  pub service : Text
  pub target : LocalTarget
  pub expired : Bool

abbrev pub target_type : LocalTarget → RelayServiceType
target_type raw = RelayServiceType.raw_socket
target_type (proxy _) = RelayServiceType.socks_proxy

-- `serviceParameters`
unfoldable pub service_parameters : (Text → Bytes) → LocalTarget → Bytes
service_parameters encode raw = []
service_parameters encode (proxy a) =
    encode_with_uint16_length (encode a.hostname) ++ encode_uint16 a.port

unfoldable pub connect_request : (Text → Bytes) → ℕ → LocalClient → Bytes
connect_request encode uid l =
    command_code RelayCommand.service_connect
    ∷ (encode_int32 (pos uid)
        ++ (service_code (target_type l.target)
            ∷ (encode_with_uint16_length (encode l.service) ++ service_parameters encode l.target)))

-- One round of the loop, for a client that `service.handle.shift` returns, while the service's signal
-- is not aborted.
unfoldable pub serve_client : Coding → LocalClient → Client → Client × List ClientEffect
serve_client coding l c = if l.expired then (c, []) else (
  record c {
    local_uid = c.local_uid + 1;
    connections = set (pos c.local_uid) (record { connected = false }) c.connections;
  },
  sent (connect_request coding.encode c.local_uid l) ∷ [],
)

-- `onAbort`, which is cancelled once `done` is settled.
unfoldable pub abort_connection : ℤ → Client → Client × List ClientEffect
abort_connection uid c = elim (get uid c.connections) [
  | none ↦ (c, [])
  | some x ↦
      let (c', es) = drop_connection uid x c in
      (c', emitted uid (failed ConnectionTunnelErrorReason.general_failure) ∷ es)
]
