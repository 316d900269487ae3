-- ===== src/Client/Exchange.antt =====
-- A client, the relay and the client that serves: a connection from the request to the dial, and its
-- answer back. The relay's side is src/tunnel/server/tunnel.relay.ts.
use web_tether.Common.{ℕ, ◌<◌, ◌≡◌, refl, ap, ◌∙◌, true, false, some, [], ◌∷◌, ◌++◌, length}
use web_tether.Common.Int.{ℤ, pred_ℤ, is_negative}
use web_tether.Common.Dict.{get, has, int_eq, text_eq, nat_eq}
use web_tether.SafeBuffer.{Bytes, encode_int32, encode_with_uint16_length}
use web_tether.SafeBuffer.RoundTrip.{IsInt32}
use web_tether.Protocol.{RelayCommand, command_code}
use web_tether.Relay.{Text, Relay, BoundService, RegisteredSocket, link_with, target}
use web_tether.Session.{Context, Session}
use web_tether.Session.Commands.{handle_packet}
use web_tether.Client.{
  Address, RegisteredService, proxied, forwarded, Client, sent, dialled, Coding,
}
use web_tether.Client.Requests.{
  LocalTarget, LocalClient, raw, proxy, service_parameters, connect_request, serve_client,
}
use web_tether.Client.Commands.{receive_packet, start_link}
use web_tether.Client.Packets.{receive_packet-forwarded, receive_packet-proxied}
use web_tether.Client.Linking.{IsLinkable, relay_links}

-- Where a serving client dials for a request: the destination that goes with the service, or, for its
-- proxy, the one that the request names, if that survives the wire.
abbrev pub Reaches :
    (Text → Bytes) → (Bytes → Text) → RegisteredService → LocalTarget → Address → Type 0
Reaches encode decode (forwarded a') target a = a' ≡ a
Reaches encode decode proxied raw a = ⊥
Reaches encode decode proxied (proxy a') a =
    (a' ≡ a)
    × (decode (encode a.hostname) ≡ a.hostname)
    × (length (encode a.hostname) < 65536)
    × (a.port < 65536)

abbrev pub link_packet : (Text → Bytes) → ℤ → LocalClient → Bytes
link_packet encode uid l =
    command_code RelayCommand.service_link
    ∷ (encode_int32 uid
        ++ (encode_with_uint16_length (encode l.service) ++ service_parameters encode l.target))

-- The serving client's part, by the kind of its service.
link_packet-dialled :
    (coding : Coding) (d : Client) (uid : ℤ) (l : LocalClient) (a : Address)
    (kind : RegisteredService) (target : LocalTarget)
    → l.target ≡ target
    → Reaches coding.encode coding.decode kind target a
    → get l.service d.registered ≡ some kind
    → IsInt32 uid
    → is_negative uid ≡ true
    → has uid d.links ≡ false
    → coding.decode (coding.encode l.service) ≡ l.service
    → length (coding.encode l.service) < 65536
    → receive_packet coding (link_packet coding.encode uid l) d
      ≡ start_link (encode_int32 uid) uid a d
link_packet-dialled coding d uid l a (forwarded a') target e reaches there fits down unused same
      short =
    receive_packet-forwarded coding d uid l.service (service_parameters coding.encode l.target) a
      fits down unused same short (there ∙ ap (λ b. some (forwarded b)) reaches)
link_packet-dialled coding d uid l a proxied raw e reaches there fits down unused same short =
    absurd reaches
link_packet-dialled coding d uid l a proxied (proxy a') e (reaches, same', short', port) there fits
      down unused same short =
    ap
      (λ t.
        receive_packet coding
          (command_code RelayCommand.service_link
            ∷ (encode_int32 uid
                ++ (encode_with_uint16_length (coding.encode l.service)
                    ++ service_parameters coding.encode t)))
          d)
      (e ∙ ap proxy reaches)
    ∙ receive_packet-proxied coding d uid l.service a fits down unused same short there same' short'
        port

-- From a local client to the dial: a client that accepts a connection, not expired, sends one
-- request; the relay, if it can link it (`IsLinkable`), answers with one packet, to the socket that has
-- the service bound; and the client there, if it offers the service and the identifier that the relay
-- has counted is negative, of 32 bits and not in use, dials exactly the address that the service or
-- the request names, under that identifier.
pub connect_request-dialled :
    (ctx : Context) (view : ℕ → Relay) (s : Session) (c d : Client) (l : LocalClient)
    (b : BoundService) (client server : RegisteredSocket) (a : Address) (kind : RegisteredService)
    (h : IsLinkable ctx s c.local_uid l b client server)
    → l.expired ≡ false
    → Reaches ctx.encode ctx.decode kind l.target a
    → get l.service d.registered ≡ some kind
    → IsInt32 (pred_ℤ server.relay_counter)
    → is_negative (pred_ℤ server.relay_counter) ≡ true
    → has (pred_ℤ server.relay_counter) d.links ≡ false
    → let coding : Coding = record { decode = ctx.decode; encode = ctx.encode } in
      let uid : ℤ = pred_ℤ server.relay_counter in
      (request : Bytes) × (forwarded_request : Bytes) × ((serve_client coding l c).1
        ≡ sent request ∷ [])
      × ((handle_packet ctx view request s).writes ≡ (b.socket, forwarded_request) ∷ [])
      × ((receive_packet coding forwarded_request d).effects
          ≡ dialled (record { uid = uid; encoded_uid = encode_int32 uid; number = d.next_dial }) a
            ∷ [])
unfolding serve_client start_link link_with
connect_request-dialled ctx view s c d l b client server a kind h fresh reaches there fits down
      unused =
    let coding : Coding = record { decode = ctx.decode; encode = ctx.encode } in
    let uid : ℤ = pred_ℤ server.relay_counter in
    (
      connect_request ctx.encode c.local_uid l,
      link_packet ctx.encode uid l,
      rw (fresh, serve_client) refl,
      ap (λ t. t.writes) (relay_links ctx view s c.local_uid l b client server h),
      ap (λ t. t.effects)
          (link_packet-dialled coding d uid l a kind l.target refl reaches there fits down unused
            h.same h.short),
    )
