-- ===== src/Client/Returned.antt =====
-- A client that connects to a service of its own socket: src/tunnel/server/tunnel.relay.ts, from the
-- connect request to the packets that the relay forwards.
use web_tether.Common.{
  ℕ, ◌≡◌, ◌≢◌, sym, ap, none, some, [], ◌∷◌, arith, ==_iff, inl, inr, Option-cases, subst,
}
use web_tether.Common.Int.{ℤ, pos, pred_ℤ}
use web_tether.Common.Dict.{get, nat_eq, int_eq}
use web_tether.SafeBuffer.{Bytes}
use web_tether.SafeBuffer.RoundTrip.{IsInt32}
use web_tether.Relay.{
  Relay, BoundService, RegisteredSocket, RelayServiceConnection, connection_at, target,
}
use web_tether.Relay.Ends.{counter_of}
use web_tether.Relay.Links.{linked}
use web_tether.Relay.Invariant.{IsConsistent}
use web_tether.Relay.Invariant.Link.{at_client, at_server}
use web_tether.Session.{Context, Session}
use web_tether.Session.Commands.{handle_packet}
use web_tether.Client.Requests.{LocalClient, service_parameters, connect_request}
use web_tether.Client.Stream.{stream_packet}
use web_tether.Client.Linking.{IsLinkable, linking, positive, relay_links}
use web_tether.Client.Answers.{relay_streams}

connection_at_stored :
    (socket : ℕ) (uid : ℤ) (r : Relay) (c : RelayServiceConnection)
    → connection_at socket uid r ≡ some c
    → (x : RegisteredSocket) × (get socket r.registered_sockets ≡ some x)
      × (get uid x.connections ≡ some c)
unfolding connection_at
connection_at_stored socket uid r c h = elim (Option-cases (get socket r.registered_sockets)) [
  | inl e ↦ absurd (ground (arith, e))
  | inr (x, e) ↦ (x, e, ground (arith, e))
]

target-own : (c : RelayServiceConnection) (s : ℕ) → s ≡ c.server.socket → target c s ≡ c.client
unfolding target
target-own c s e = ground (arith, ==_iff s c.server.socket)

-- Under either identifier of a connection of the session's socket with itself.
own_streams :
    (ctx : Context) (view : ℕ → Relay) (s : Session) (uid : ℤ) (c : RelayServiceConnection)
    (content : Bytes)
    → connection_at ctx.socket uid s.relay ≡ some c
    → ctx.socket ≡ c.server.socket
    → IsInt32 uid
    → IsInt32 c.client.uid
    → (handle_packet ctx view (stream_packet uid content) s).writes
      ≡ (c.client.socket, stream_packet c.client.uid content) ∷ []
own_streams ctx view s uid c content there own fits fits_client =
    let (x, registered, stored) = connection_at_stored ctx.socket uid s.relay c there in
    ap (λ t. t.writes)
      (relay_streams ctx view s (record { socket = ctx.socket; uid = uid }) (c.client) c
        (record {
          known = x;
          registered = registered;
          stored = stored;
          opposite = target-own c ctx.socket own;
          fits = fits;
          fits_there = fits_client;
        })
        content)

counter_of_there :
    (socket : ℕ) (x : RegisteredSocket) (r : Relay)
    → get socket r.registered_sockets ≡ some x
    → counter_of socket r ≢ none
unfolding counter_of
counter_of_there socket x r e = rw (e, counter_of) (λ p. absurd (cc))

connection_at_free :
    (socket : ℕ) (uid : ℤ) (x : RegisteredSocket) (r : Relay)
    → get socket r.registered_sockets ≡ some x
    → get uid x.connections ≡ none
    → connection_at socket uid r ≡ none
unfolding connection_at
connection_at_free socket uid x r e free = rw (e, connection_at) free

-- A client asks, on a consistent relay that can link the request (`IsLinkable`), for a service that its
-- own socket has bound, and the identifier that the relay counts for the serving end has 32 bits.
-- Then the relay writes one packet for what the client streams under its own identifier, and one for
-- what it streams under the serving end's: both go back to the same socket, with the same bytes, under
-- the client's identifier.
pub own_service-returned :
    (ctx : Context) (view later : ℕ → Relay) (s : Session) (n : ℕ) (l : LocalClient)
    (b : BoundService) (client server : RegisteredSocket) (content : Bytes)
    → IsConsistent s.relay
    → IsLinkable ctx s n l b client server
    → b.socket ≡ ctx.socket
    → IsInt32 (pred_ℤ server.relay_counter)
    → let s' = (handle_packet ctx view (connect_request ctx.encode n l) s).session in
      ((handle_packet ctx later (stream_packet (pos n) content) s').writes
        ≡ (ctx.socket, stream_packet (pos n) content) ∷ [])
      × ((handle_packet ctx later (stream_packet (pred_ℤ server.relay_counter) content) s').writes
          ≡ (ctx.socket, stream_packet (pos n) content) ∷ [])
own_service-returned ctx view later s n l b client server content good h own fits =
    let c : RelayServiceConnection = linked ctx.socket (pos n) b.socket server in
    let parameters : Bytes = service_parameters ctx.encode l.target in
    let registered = counter_of_there ctx.socket client s.relay h.known in
    let counted = positive ctx view s n l b client server h in
    let unused = connection_at_free ctx.socket (pos n) client s.relay h.known h.unused in
    let after : Session = record s { relay = (linking ctx view s n l b client server h).0 } in
    let asks =
      own_streams ctx later after (pos n) c content
        (at_client ctx.encode ctx.socket l.service (pos n) parameters b.socket server s.relay good
          h.serving registered counted unused)
        (sym own) h.fits h.fits in
    let serves =
      own_streams ctx later after (pred_ℤ server.relay_counter) c content
        (subst (λ t. connection_at t (pred_ℤ server.relay_counter) after.relay ≡ some c) own
          (at_server ctx.encode ctx.socket l.service (pos n) parameters b.socket server s.relay good
            h.serving registered counted unused))
        (sym own) fits h.fits in
    rw (relay_links ctx view s n l b client server h) (asks, serves)
