-- ===== src/Client/Linking.antt =====
-- The relay's side of a connect request, for a request that it can link:
-- src/tunnel/server/tunnel.relay.ts.
use web_tether.Common.{
  ℕ, zero, suc, ◌≤◌, ◌<◌, ◌≡◌, refl, ap, ◌∙◌, Bool, true, none, some, [], ◌∷◌, ◌++◌, not,
  if◌then◌else◌, arith, length,
}
use web_tether.Common.Int.{ℤ, pos, is_positive}
use web_tether.Common.Dict.{get, int_eq, text_eq, nat_eq}
use web_tether.Common.Result.{ok}
use web_tether.SafeBuffer.{Bytes, SafeReader, data_left, encode_int32, encode_with_uint16_length}
use web_tether.SafeBuffer.Reads.{Left}
use web_tether.SafeBuffer.RoundTrip.{IsInt32, uint8-Left}
use web_tether.SafeBuffer.Sized.{sized16-encode_with_uint16_length}
use web_tether.Protocol.{
  RelayCommand, command_code, command_of-command_code, RelayConnectReply, RelayServiceType,
  service_code, service_of-service_code, service_beq,
}
use web_tether.Relay.{
  Text, Relay, BoundService, RegisteredSocket, Write, connection, service, link, link_with,
}
use web_tether.Session.{
  Context, Session, Turn, RelayFailure, refuse, enabled, done, reading, calling,
}
use web_tether.Session.Connect.{
  connect_reply, handle_connect, connect_with, connect_service, connect_found,
}
use web_tether.Session.Commands.{handle_packet, handle_command}
use web_tether.Client.Requests.{LocalClient, target_type, service_parameters, connect_request}
use web_tether.Client.Packets.{Reading, Reading-encode}

pub handle_packet-command :
    (ctx : Context) (view : ℕ → Relay) (s : Session) (k : RelayCommand) (uid : ℤ)
    (body packet : Bytes) (p : Reading (command_code k) uid body packet)
    → handle_packet ctx view packet s ≡ handle_command ctx view p.at_uid s k
unfolding handle_packet reading
handle_packet-command ctx view s k uid body packet p =
    rw (p.reads_command, reading) (rw (command_of-command_code k) refl)

service_beq_refl : (t : RelayServiceType) → service_beq t t ≡ true
service_beq_refl RelayServiceType.raw_socket = refl
service_beq_refl RelayServiceType.socks_proxy = refl

-- What the relay has to know for a request to be linked: the requester may connect to the service
-- and does not use the identifier yet, and the service is bound, with the type asked for, to a
-- socket that is registered.
pub record IsLinkable (ctx : Context) (s : Session) (n : ℕ) (l : LocalClient) (b : BoundService)
    (client server : RegisteredSocket) : Type 0 where
  pub allowed : Text → Bool
  pub permission : ctx.connect ≡ enabled allowed
  pub may : allowed l.service ≡ true
  pub same : ctx.decode (ctx.encode l.service) ≡ l.service
  pub short : length (ctx.encode l.service) < 65536
  pub fits : IsInt32 (pos n)
  pub counted : 1 ≤ n
  pub known : get ctx.socket s.relay.registered_sockets ≡ some client
  pub unused : get (pos n) client.connections ≡ none
  pub bound : get l.service s.relay.bound_services ≡ some b
  pub serving : get b.socket s.relay.registered_sockets ≡ some server
  pub typed : b.type ≡ target_type l.target

module _ (ctx : Context) (view : ℕ → Relay) (s : Session) (n : ℕ) (l : LocalClient)
    (b : BoundService) (client server : RegisteredSocket)
    (h : IsLinkable ctx s n l b client server) where
  -- The relay's link for the request, and its packet for the serving client.
  abbrev pub linking : Relay × Write
  linking =
      link_with ctx.encode ctx.socket l.service (pos n) (service_parameters ctx.encode l.target)
        b.socket server s.relay

  connection_unused : connection ctx.socket (pos n) s.relay ≡ ok none
  unfolding connection
  connection_unused = rw (h.known, connection) (rw (h.unused) refl)

  service_bound_there : service l.service s.relay ≡ ok (some (server.alias, b.type))
  unfolding service
  service_bound_there = rw (h.bound, service) (rw (h.serving, service) refl)

  link_there :
      link ctx.encode ctx.socket l.service (pos n) (service_parameters ctx.encode l.target) s.relay
      ≡ ok linking
  unfolding link
  link_there = rw (h.bound, link) (rw (h.known, link) (rw (h.serving, link) refl))

  pub positive : is_positive (pos n) ≡ true
  positive =
      elim n as (λ m. 1 ≤ m → is_positive (pos m) ≡ true) [
        | zero ↦ λ low. absurd (omega (arith, low))
        | suc m ↦ λ low. refl
      ]
        (h.counted)

  connect_found_there :
      (encoded : Bytes) (r : SafeReader)
      → Left r (service_parameters ctx.encode l.target)
      → connect_found ctx encoded (pos n) (target_type l.target) l.service r s
        ≡ done (record s { relay = linking.0 }) (linking.1 ∷ [])
  unfolding connect_found calling data_left
  connect_found_there encoded r left =
      rw (service_bound_there)
        (rw (h.typed, service_beq_refl (target_type l.target), left.1, link_there) refl)

  abbrev permitted : Bytes → SafeReader → Text → Turn
  permitted encoded r name =
      if not (h.allowed name)
      then refuse ctx s RelayFailure.connect_unauthorized_service
          (connect_reply encoded RelayConnectReply.service_unauthorized)
      else connect_found ctx encoded (pos n) (target_type l.target) name r s

  connect_service_there :
      (encoded : Bytes) (r : SafeReader)
      → Left r (
          service_code (target_type l.target)
          ∷ (encode_with_uint16_length (ctx.encode l.service)
              ++ service_parameters ctx.encode l.target))
      → connect_service ctx h.allowed encoded (pos n) r s
        ≡ done (record s { relay = linking.0 }) (linking.1 ∷ [])
  unfolding connect_service reading
  connect_service_there encoded r left =
      let parameters : Bytes = service_parameters ctx.encode l.target in
      let (r₁, e₁, left₁) =
        uint8-Left r (service_code (target_type l.target)) 0 0 0
          (encode_with_uint16_length (ctx.encode l.service) ++ parameters) left in
      let (r₂, e₂, left₂) =
        sized16-encode_with_uint16_length (ctx.encode l.service) r₁ parameters h.short left₁ in
      rw (e₁, reading)
        (rw (service_of-service_code (target_type l.target)) (
          rw (e₂, reading)
            (ap (permitted encoded r₂) (h.same)
              ∙ rw (h.may) (connect_found_there encoded r₂ left₂))))

  connect_with_there :
      (encoded : Bytes) (r : SafeReader)
      → Left r (
          service_code (target_type l.target)
          ∷ (encode_with_uint16_length (ctx.encode l.service)
              ++ service_parameters ctx.encode l.target))
      → connect_with ctx encoded (pos n) r s ctx.connect
        ≡ done (record s { relay = linking.0 }) (linking.1 ∷ [])
  unfolding connect_with calling
  connect_with_there encoded r left =
      ap (connect_with ctx encoded (pos n) r s) (h.permission)
      ∙ rw (positive, connection_unused) (connect_service_there encoded r left)

  -- The relay links an accepted request: it counts a link of the serving socket, stores the
  -- connection for both sockets, and writes one packet, to the serving socket.
  pub relay_links :
      handle_packet ctx view (connect_request ctx.encode n l) s
      ≡ done (record s { relay = linking.0 }) (linking.1 ∷ [])
  unfolding connect_request handle_command handle_connect reading
  relay_links =
      let p =
        Reading-encode (command_code RelayCommand.service_connect) (pos n)
          (service_code (target_type l.target)
            ∷ (encode_with_uint16_length (ctx.encode l.service)
                ++ service_parameters ctx.encode l.target))
          h.fits in
      handle_packet-command ctx view s RelayCommand.service_connect (pos n) _ _ p
      ∙ rw (p.reads_encoded)
          (rw (p.reads_uid) (connect_with_there (encode_int32 (pos n)) p.at_body p.reads_body))
