-- ===== src/Relay.antt =====
-- src/tunnel/server/tunnel.relay.ts, `createRelay`: the relay's table of bound services and of
-- registered sockets with their connections. A WebSocket is known by a number, which stands for the
-- identity of the object; a text is the list of its code units. What a method writes to a socket's
-- queue comes back as a list of writes. The closures `write`, `close`, `forward` and `notify` of a
-- connection go by its two ends, since each socket registers once.
pub mod Ends
pub mod Links
pub mod Invariant
pub mod Steps
pub mod Routing
pub mod Tests
use web_tether.Common.{
  ℕ, ◌+◌, Bool, true, false, Option, none, some, List, [], ◌∷◌, ◌++◌, ◌==◌, if◌then◌else◌, length,
}
use web_tether.Common.Int.{ℤ, pos, pred_ℤ}
use web_tether.Common.Dict.{
  Dict, get, set, delete, has, keys_where, delete_all, nat_eq, int_eq, text_eq,
}
use web_tether.Common.Result.{Result, ok, err, ◌>>=◌, ◌>>◌, or_throw, throw_if}
use web_tether.SafeBuffer.{Bytes, encode_int32, encode_with_uint16_length}
use web_tether.Protocol.{
  RelayServiceType, RelayCommand, command_code, RelayServiceConnectionReason, reason_code,
}

abbrev pub Text : Type 0
Text = List ℕ

-- What the relay's code throws. `type_error` is a property read of `undefined`.
pub data RelayError : Type 0 where
  buffer_too_short type_error already_bound service_not_found : RelayError

pub record RelayService : Type 0 where
  pub type : RelayServiceType
  pub service : Text

pub record End : Type 0 where
  pub socket : ℕ
  pub uid : ℤ

pub record RelayServiceConnection : Type 0 where
  pub client : End
  pub server : End

pub record RegisteredSocket : Type 0 where
  pub alias : Text
  pub relay_counter : ℤ
  pub connections : Dict ℤ RelayServiceConnection

pub record BoundService : Type 0 where
  pub socket : ℕ
  pub type : RelayServiceType

pub record Relay : Type 0 where
  pub bound_services : Dict Text BoundService
  pub registered_sockets : Dict ℕ RegisteredSocket

-- A packet given to the writer of a socket.
abbrev pub Write : Type 0
Write = ℕ × Bytes

unfoldable pub create_relay : Relay
create_relay = record { bound_services = []; registered_sockets = [] }

unfoldable pub connected : ℕ → Text → Relay → Relay
connected socket alias r = record r {
  registered_sockets =
      set socket (record { alias = alias; relay_counter = pos 0; connections = [] })
        r.registered_sockets;
}

abbrev pub change_connections :
    ℕ → (Dict ℤ RelayServiceConnection → Dict ℤ RelayServiceConnection) → Relay → Relay
change_connections socket f r = elim (get socket r.registered_sockets) [
  | none ↦ r
  | some x ↦ record r {
    registered_sockets =
        set socket (record x { connections = f x.connections }) r.registered_sockets;
  }
]

-- `x.connections.delete(uid)` of the socket's entry.
unfoldable pub delete_connection : End → Relay → Relay
delete_connection e = change_connections e.socket (delete e.uid)

-- `x.connections.set(uid, connection)` of the socket's entry.
unfoldable pub set_connection : End → RelayServiceConnection → Relay → Relay
set_connection e c = change_connections e.socket (set e.uid c)

-- `source === serverSocket ? connection.client : connection.server`
unfoldable pub target : RelayServiceConnection → ℕ → End
target c source = if source == c.server.socket then c.client else c.server

unfoldable pub close : RelayServiceConnection → ℕ → ℕ → Relay → Relay × Write
close c source reason r =
    let t = target c source in
    let packet = command_code RelayCommand.service_closed ∷ (encode_int32 t.uid ++ (reason ∷ [])) in
    (delete_connection c.server (delete_connection c.client r), (t.socket, packet))

unfoldable pub forward : RelayServiceConnection → ℕ → Bytes → Write
forward c source content =
    let t = target c source in
    (t.socket, command_code RelayCommand.service_stream ∷ (encode_int32 t.uid ++ content))

unfoldable pub notify : RelayServiceConnection → ℕ → ℕ → Write
notify c source reply =
    let t = target c source in
    (t.socket, command_code RelayCommand.service_connect ∷ (encode_int32 t.uid ++ (reply ∷ [])))

-- The connection that a socket has under an identifier; `none` also for an unknown socket.
unfoldable pub connection_at : ℕ → ℤ → Relay → Option RelayServiceConnection
connection_at socket uid r = elim (get socket r.registered_sockets) [
  | none ↦ none
  | some x ↦ get uid x.connections
]

-- `connections.values().forEach((c) => c.close(socket, …))` over the identifiers that the map had
-- at its start: an entry that an earlier round removed is not visited.
unfoldable pub close_each : ℕ → ℕ → List ℤ → Relay → Relay × List Write
close_each socket reason [] r = (r, [])
close_each socket reason (uid ∷ uids) r = elim (connection_at socket uid r) [
  | none ↦ close_each socket reason uids r
  | some c ↦
      let (r', w) = close c socket reason r in
      let (r'', ws) = close_each socket reason uids r' in (r'', w ∷ ws)
]

abbrev pub uids_of : Option RegisteredSocket → List ℤ
uids_of none = []
uids_of (some x) = keys_where (λ _. true) x.connections

unfoldable pub disconnected : ℕ → Relay → Relay × List Write
disconnected socket r =
    let unbound = record r {
      bound_services =
          delete_all (keys_where (λ b. b.socket == socket) r.bound_services) r.bound_services;
    } in
    let (closed, ws) =
      close_each socket (reason_code RelayServiceConnectionReason.transport_socket_closed)
        (uids_of (get socket r.registered_sockets)) unbound in
    (record closed { registered_sockets = delete socket closed.registered_sockets }, ws)

-- The remote alias and the type of a bound service.
unfoldable pub service : Text → Relay → Result RelayError (Option (Text × RelayServiceType))
service name r = elim (get name r.bound_services) [
  | none ↦ ok none
  | some b ↦ or_throw RelayError.type_error (get b.socket r.registered_sockets) >>= λ server.
      ok (some (server.alias, b.type))
]

-- `services.some((s) => boundServices.has(s.service))`
unfoldable pub some_bound : List RelayService → Relay → Bool
some_bound [] r = false
some_bound (s ∷ services) r = if has s.service r.bound_services then true else some_bound services r

unfoldable pub bind_each : ℕ → List RelayService → Dict Text BoundService → Dict Text BoundService
bind_each socket [] m = m
bind_each socket (s ∷ services) m =
    bind_each socket services (set s.service (record { socket = socket; type = s.type }) m)

unfoldable pub bind : ℕ → List RelayService → Relay → Result RelayError Relay
bind socket services r =
    throw_if (some_bound services r) RelayError.already_bound
    >> ok (record r { bound_services = bind_each socket services r.bound_services })

unfoldable pub connection : ℕ → ℤ → Relay → Result RelayError (Option RelayServiceConnection)
connection socket uid r = or_throw RelayError.type_error (get socket r.registered_sockets) >>= λ x.
    ok (get uid x.connections)

-- `link` for a client and a server that are registered: the counter, the two entries, the packet.
unfoldable pub link_with :
    (Text → Bytes) → ℕ → Text → ℤ → Bytes → ℕ → RegisteredSocket → Relay → Relay × Write
link_with encode client_socket name client_uid metadata server_socket server r =
    let server_uid = pred_ℤ server.relay_counter in
    let counted = record r {
      registered_sockets =
          set server_socket (record server { relay_counter = server_uid }) r.registered_sockets;
    } in
    let client_end : End = record { socket = client_socket; uid = client_uid } in
    let server_end : End = record { socket = server_socket; uid = server_uid } in
    let c : RelayServiceConnection = record { client = client_end; server = server_end } in
    let packet =
      command_code RelayCommand.service_link
      ∷ (encode_int32 server_uid ++ (encode_with_uint16_length (encode name) ++ metadata)) in
    (set_connection server_end c (set_connection client_end c counted), (server_socket, packet))

-- `encode` is `TextEncoder.encode`. A throw leaves this relay's state out of account: the code
-- reads the client's entry only after it has counted, but a caller's own socket is registered.
unfoldable pub link :
    (Text → Bytes) → ℕ → Text → ℤ → Bytes → Relay → Result RelayError (Relay × Write)
link encode client_socket name client_uid metadata r = do
  bound ← or_throw RelayError.service_not_found (get name r.bound_services)
  client ← or_throw RelayError.type_error (get client_socket r.registered_sockets)
  server ← or_throw RelayError.type_error (get bound.socket r.registered_sockets)
  ok (link_with encode client_socket name client_uid metadata bound.socket server r)
