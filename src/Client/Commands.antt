-- ===== src/Client/Commands.antt =====
-- src/tunnel/client/commands: what a client does with each command of the relay.
use web_tether.Common.{
  ℕ, ◌+◌, true, false, Option, none, some, List, [], ◌∷◌, ◌++◌, ◌==◌, if◌then◌else◌, not, ◌||◌,
}
use web_tether.Common.Int.{ℤ, is_positive, is_negative}
use web_tether.Common.Dict.{get, set, has, int_eq, text_eq}
use web_tether.SafeBuffer.{
  Bytes, SafeReader, safe_reader, uint8, uint16, int32, data_of, data_left, sized16,
}
use web_tether.Protocol.{
  RelayCommand, command_code, command_of, RelayConnectReply, connect_code, RelayLinkReply,
  link_code,
}
use web_tether.Socks.{ConnectionTunnelErrorReason}
use web_tether.Session.Commands.{gone_packet}
use web_tether.Client.{
  Address, RegisteredService, proxied, forwarded, accepted, failed, TunnelClientConnection, Client,
  ClientEffect, sent, emitted, dialled, streaming, pushed, stopped, ClientTurn, Coding, went_on,
  receiving, finalize_connection, finalize_link,
}

unfoldable pub receive_close : Client → ClientTurn
receive_close c = record {
  client = c;
  effects = sent (command_code RelayCommand.socket_close ∷ []) ∷ [];
  next = stopped;
}

unfoldable pub receive_bind : SafeReader → Client → ClientTurn
receive_bind r c = receiving c (uint8 false r) λ reply _. went_on c []

unfoldable pub receive_unsupported : SafeReader → Client → ClientTurn
receive_unsupported r c = receiving c (uint8 false r) λ command _. went_on c []

unfoldable pub receive_unknown : ℕ → Client → ClientTurn
receive_unknown command c =
    went_on c (sent (command_code RelayCommand.unsupported ∷ command ∷ []) ∷ [])

abbrev pub went_on_with : Client × List ClientEffect → ClientTurn
went_on_with (c, es) = went_on c es

unfoldable pub receive_closed : SafeReader → Client → ClientTurn
receive_closed r c = receiving c (int32 false r) λ uid r₁. receiving c (uint8 false r₁) λ reason _.
    if is_positive uid
    then went_on_with (finalize_connection uid c)
    else if is_negative uid
    then went_on_with (finalize_link uid c)
    else went_on c []

-- The `switch (reply)`.
unfoldable pub error_of : ℕ → ConnectionTunnelErrorReason
error_of reply =
    if reply == connect_code RelayConnectReply.not_allowed
    then ConnectionTunnelErrorReason.not_allowed
    else if reply == connect_code RelayConnectReply.network_unreachable
    then ConnectionTunnelErrorReason.network_unreachable
    else if reply == connect_code RelayConnectReply.host_unreachable
    then ConnectionTunnelErrorReason.host_unreachable
    else if reply == connect_code RelayConnectReply.connection_refused
    then ConnectionTunnelErrorReason.connection_refused
    else if reply == connect_code RelayConnectReply.ttl_expired
    then ConnectionTunnelErrorReason.ttl_expired
    else ConnectionTunnelErrorReason.general_failure

-- `service.onConnect()`
unfoldable pub on_connect : ℤ → Client → ClientTurn
on_connect uid c =
    went_on (record c { connections = set uid (record { connected = true }) c.connections })
      (emitted uid accepted ∷ streaming uid ∷ [])

-- `service.onError(reason)` and `service.close(…)`: both finalize.
unfoldable pub on_error : ℤ → ConnectionTunnelErrorReason → Client → ClientTurn
on_error uid reason c =
    let (c', es) = finalize_connection uid c in went_on c' (emitted uid (failed reason) ∷ es)

unfoldable pub connect_replied : Bytes → ℤ → ℕ → Client → Option TunnelClientConnection → ClientTurn
unfolding on_connect on_error
connect_replied encoded uid reply c none = went_on c (
    if reply == connect_code RelayConnectReply.success then sent (gone_packet encoded) ∷ [] else [])
connect_replied encoded uid reply c (some _) =
    if reply == connect_code RelayConnectReply.success
    then on_connect uid c
    else on_error uid (error_of reply) c

unfoldable pub receive_connect : SafeReader → Client → ClientTurn
unfolding connect_replied
receive_connect r c = receiving c (data_of 4 true r) λ encoded _.
    receiving c (int32 false r) λ uid r₁.
      receiving c (uint8 false r₁)
        λ reply _. connect_replied encoded uid reply c (get uid c.connections)

unfoldable pub receive_stream : SafeReader → Client → ClientTurn
receive_stream r c = receiving c (data_of 4 true r) λ encoded _.
    receiving c (int32 false r) λ uid r₁.
      let content = (data_left false r₁).0 in
      if is_positive uid
      then went_on c (
          if has uid c.connections
          then pushed uid content ∷ []
          else sent (gone_packet encoded) ∷ [])
      else if is_negative uid
      then went_on c
          (if has uid c.links then pushed uid content ∷ [] else sent (gone_packet encoded) ∷ [])
      else went_on c []

abbrev pub link_reply : Bytes → RelayLinkReply → Bytes
link_reply encoded reply =
    command_code RelayCommand.service_link ∷ (encoded ++ (link_code reply ∷ []))

-- From `Deno.connect(destination)` on.
unfoldable pub start_link : Bytes → ℤ → Address → Client → ClientTurn
start_link encoded uid destination c =
    went_on
      (record c {
        links = set uid (record { dial = c.next_dial }) c.links;
        next_dial = c.next_dial + 1;
      })
      (dialled (record { uid = uid; encoded_uid = encoded; number = c.next_dial }) destination ∷ [])

unfoldable pub link_service :
    Coding → Bytes → ℤ → SafeReader → Client → Option RegisteredService → ClientTurn
unfolding start_link
link_service coding encoded uid r c none =
    went_on c (sent (link_reply encoded RelayLinkReply.service_not_found) ∷ [])
link_service coding encoded uid r c (some proxied) = receiving c (sized16 r) λ hostname r₁.
    receiving c (uint16 false r₁)
      λ port _. start_link encoded uid (record { hostname = coding.decode hostname; port = port }) c
link_service coding encoded uid r c (some (forwarded destination)) =
    start_link encoded uid destination c

unfoldable pub receive_link : Coding → SafeReader → Client → ClientTurn
unfolding link_service
receive_link coding r c = receiving c (data_of 4 true r) λ encoded _.
    receiving c (int32 false r) λ uid r₁. receiving c (sized16 r₁) λ name r₂.
      if not (is_negative uid) || has uid c.links
      then went_on c (sent (link_reply encoded RelayLinkReply.service_invalid_identifier) ∷ [])
      else link_service coding encoded uid r₂ c (get (coding.decode name) c.registered)

-- `commandHandlers`
unfoldable pub receive_command : Coding → SafeReader → Client → RelayCommand → ClientTurn
receive_command coding r c RelayCommand.socket_close = receive_close c
receive_command coding r c RelayCommand.service_bind = receive_bind r c
receive_command coding r c RelayCommand.service_connect = receive_connect r c
receive_command coding r c RelayCommand.service_link = receive_link coding r c
receive_command coding r c RelayCommand.service_stream = receive_stream r c
receive_command coding r c RelayCommand.service_closed = receive_closed r c
receive_command coding r c RelayCommand.unsupported = receive_unsupported r c

-- The body of the loop, once the packet is there.
unfoldable pub receive_packet : Coding → Bytes → Client → ClientTurn
receive_packet coding packet c = receiving c (uint8 false (safe_reader packet)) λ command r.
    elim (command_of command) [
      | none ↦ receive_unknown command c
      | some known ↦ receive_command coding r c known
    ]
