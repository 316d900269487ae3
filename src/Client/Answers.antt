-- ===== src/Client/Answers.antt =====
-- The outcome of a dial, from the serving client over the relay to the client that asked, and what
-- streams between the two. The relay's side is src/tunnel/server/tunnel.relay.ts.
use web_tether.Common.{
  ℕ, ◌≡◌, ◌≢◌, ◌⊎◌, inl, inr, refl, sym, ap, ◌∙◌, false, none, some, [], ◌∷◌, ◌++◌, arith, ==_iff,
}
use web_tether.Common.Int.{ℤ, ℤ_beq_iff}
use web_tether.Common.Dict.{Dict, get, delete, get-delete, int_eq, text_eq, nat_eq}
use web_tether.Common.Result.{ok}
use web_tether.SafeBuffer.{Bytes, data_left, encode_int32}
use web_tether.SafeBuffer.RoundTrip.{IsInt32, uint8-Left}
use web_tether.Protocol.{RelayCommand, command_code, RelayLinkReply, link_code}
use web_tether.Relay.{
  Relay, End, RelayServiceConnection, forward, RegisteredSocket, connection, notify, target,
}
use web_tether.Session.{Context, Session, done, reading, calling}
use web_tether.Session.Commands.{handle_packet, handle_command, handle_link, handle_stream}
use web_tether.Client.{
  Dial, TunnelClientConnection, TunnelClientLink, Client, sent, emitted, streaming, pushed, closing,
  accepted, failed, Coding, went_on, drop_link, drop_connection, finalize_connection,
}
use web_tether.Client.Stream.{stream_packet}
use web_tether.Client.Commands.{
  receive_packet, link_reply, error_of, on_connect, on_error, connect_replied,
}
use web_tether.Socks.{ConnectionTunnelErrorReason}
use web_tether.Client.Dials.{finalize_dial, dial_succeeded, dial_failed}
use web_tether.Client.Linking.{handle_packet-command}
use web_tether.Client.Packets.{IsOpen, Reading-encode, receive_packet-reply, receive_packet-stream}

dial_failed_lem :
    (d : Dial) (serving : Client) (l : TunnelClientLink)
    → get d.uid serving.links ≡ some l
    → l.dial ≡ d.number
    → dial_failed d serving ≡ (
      record serving { links = delete d.uid serving.links },
      sent (link_reply d.encoded_uid RelayLinkReply.general_failure) ∷ closing d.uid ∷ [],
    )
unfolding dial_failed finalize_dial drop_link
dial_failed_lem d serving l linked counted =
    rw (linked, finalize_dial) (rw ((==_iff l.dial d.number).1 counted) refl)

connection_failed :
    (uid : ℤ) (encoded : Bytes) (k : Client)
    → get uid k.connections ≡ some (record { connected = false })
    → connect_replied encoded uid
        (link_code RelayLinkReply.general_failure)
        k
        (get uid k.connections)
      ≡ went_on
          (record k { connections = delete uid k.connections })
          (emitted uid (failed ConnectionTunnelErrorReason.general_failure)
            ∷ closing uid
            ∷ emitted uid (failed ConnectionTunnelErrorReason.general_failure)
            ∷ [])
unfolding connect_replied on_error finalize_connection drop_connection error_of
connection_failed uid encoded k asked =
    ap (connect_replied encoded uid (link_code RelayLinkReply.general_failure) k) asked
    ∙ rw (asked, finalize_connection) refl

delete_lem : {V : Type 0} (u : ℤ) (m : Dict ℤ V) → get u (delete u m) ≡ none
delete_lem u m = ground (arith, get-delete u u m, ℤ_beq_iff u u)

-- A connection that the relay has for the socket of a session, as its server or its client end.
pub record IsEnd (ctx : Context) (s : Session) (here there : End) (c : RelayServiceConnection)
    : Type 0 where
  pub known : RegisteredSocket
  pub registered : get ctx.socket s.relay.registered_sockets ≡ some known
  pub stored : get here.uid known.connections ≡ some c
  pub opposite : target c ctx.socket ≡ there
  pub fits : IsInt32 here.uid
  pub fits_there : IsInt32 there.uid

-- A connection that the relay has between the socket of a session, at `here`, and another socket, at
-- `there`: one of the two is its client's end and the other its server's.
pub record IsBetween (ctx : Context) (s : Session) (here there : End) (c : RelayServiceConnection)
    : Type 0 where
  pub known : RegisteredSocket
  pub registered : get ctx.socket s.relay.registered_sockets ≡ some known
  pub stored : get here.uid known.connections ≡ some c
  pub sides : ((c.client ≡ here) × (c.server ≡ there)) ⊎ ((c.server ≡ here) × (c.client ≡ there))
  pub mine : here.socket ≡ ctx.socket
  pub apart : there.socket ≢ ctx.socket
  pub fits : IsInt32 here.uid
  pub fits_there : IsInt32 there.uid

target-there :
    (c : RelayServiceConnection) (source : ℕ) (here there : End)
    → ((c.client ≡ here) × (c.server ≡ there)) ⊎ ((c.server ≡ here) × (c.client ≡ there))
    → here.socket ≡ source
    → there.socket ≢ source
    → target c source ≡ there
unfolding target
target-there c source here there (inl (_, e)) mine apart =
    let other : source ≢ c.server.socket = λ p. apart (sym (p ∙ ap (λ (t : End). t.socket) e)) in
    ground (arith, ==_iff source c.server.socket)
target-there c source here there (inr (e, e')) mine apart =
    let same : source ≡ c.server.socket = sym (ap (λ (t : End). t.socket) e ∙ mine) in
    ground (arith, ==_iff source c.server.socket)

IsBetween-IsEnd :
    (ctx : Context) (s : Session) (here there : End) (c : RelayServiceConnection)
    → IsBetween ctx s here there c
    → IsEnd ctx s here there c
IsBetween-IsEnd ctx s here there c h = record {
  known = h.known;
  registered = h.registered;
  stored = h.stored;
  opposite = target-there c ctx.socket here there h.sides h.mine h.apart;
  fits = h.fits;
  fits_there = h.fits_there;
}

module _ (ctx : Context) (view : ℕ → Relay) (s : Session) (here there : End)
    (c : RelayServiceConnection) (h : IsEnd ctx s here there c) where
  connection_stored : connection ctx.socket here.uid s.relay ≡ ok (some c)
  unfolding connection
  connection_stored = rw (h.registered, connection) (rw (h.stored) refl)

  -- What the relay makes of a link's answer: the same answer to a connect request, for the other end.
  relay_answers :
      (reply : ℕ)
      → handle_packet ctx view
          (command_code RelayCommand.service_link ∷ (encode_int32 here.uid ++ (reply ∷ [])))
          s
        ≡ done s (
            (
              there.socket,
              command_code RelayCommand.service_connect ∷ (encode_int32 there.uid ++ (reply ∷ [])),
            )
            ∷ [])
  unfolding handle_command handle_link reading calling notify
  relay_answers reply =
      let p =
        Reading-encode (command_code RelayCommand.service_link) here.uid (reply ∷ []) h.fits in
      let (r, e, left) = uint8-Left p.at_body reply 0 0 0 [] p.reads_body in
      handle_packet-command ctx view s RelayCommand.service_link here.uid _ _ p
      ∙ rw (p.reads_encoded) (rw (p.reads_uid) (rw e (rw connection_stored (rw (h.opposite) refl))))

  pub relay_streams :
      (content : Bytes)
      → handle_packet ctx view (stream_packet here.uid content) s
        ≡ done s ((there.socket, stream_packet there.uid content) ∷ [])
  unfolding handle_command handle_stream reading calling forward data_left stream_packet
  relay_streams content =
      let p = Reading-encode (command_code RelayCommand.service_stream) here.uid content h.fits in
      handle_packet-command ctx view s RelayCommand.service_stream here.uid _ _ p
      ∙ rw (p.reads_encoded)
          (rw (p.reads_uid) (rw connection_stored (rw (h.opposite, p.reads_body.1) refl)))

  -- A dial that succeeds, for a connection that the relay has with two identifiers of 32 bits: the
  -- serving client answers the link and streams, the relay passes the answer on, and the client that
  -- asked, if it still has the connection, tells its local client and streams.
  pub dial_succeeded-answered :
      (coding : Coding) (d : Dial) (serving k : Client) (x : TunnelClientConnection)
      → d.encoded_uid ≡ encode_int32 here.uid
      → get there.uid k.connections ≡ some x
      → (answer : Bytes) × (packet : Bytes) × ((dial_succeeded d serving).1
          ≡ sent answer ∷ streaming d.uid ∷ [])
        × ((handle_packet ctx view answer s).writes ≡ (there.socket, packet) ∷ [])
        × ((receive_packet coding packet k).effects
            ≡ emitted there.uid accepted ∷ streaming there.uid ∷ [])
  unfolding dial_succeeded on_connect connect_replied
  dial_succeeded-answered coding d serving k x same asked = (
    _,
    _,
    rw same refl,
    ap (λ t. t.writes) (relay_answers (link_code RelayLinkReply.success)),
    ap (λ t. t.effects)
          (receive_packet-reply coding k there.uid (link_code RelayLinkReply.success) h.fits_there)
        ∙ rw (asked, connect_replied) refl,
  )

  -- A dial that fails, for a connection that the relay has with two identifiers of 32 bits, while its
  -- link is still there and the client that asked is not connected yet: both clients forget the
  -- connection, the local client is told of a failure, and neither client sends anything after the
  -- answer; but the relay's session is as it was, the connection included.
  pub dial_failed-kept :
      (coding : Coding) (d : Dial) (serving k : Client) (l : TunnelClientLink)
      → d.encoded_uid ≡ encode_int32 here.uid
      → d.uid ≡ here.uid
      → get here.uid serving.links ≡ some l
      → l.dial ≡ d.number
      → get there.uid k.connections ≡ some (record { connected = false })
      → (answer : Bytes) × (packet : Bytes) × ((dial_failed d serving).1
          ≡ sent answer ∷ closing here.uid ∷ [])
        × (get here.uid (dial_failed d serving).0.links ≡ none)
        × ((handle_packet ctx view answer s).writes ≡ (there.socket, packet) ∷ [])
        × ((handle_packet ctx view answer s).session ≡ s)
        × ((receive_packet coding packet k).effects
            ≡ emitted there.uid (failed ConnectionTunnelErrorReason.general_failure)
              ∷ closing there.uid
              ∷ emitted there.uid (failed ConnectionTunnelErrorReason.general_failure)
              ∷ [])
        × (get there.uid (receive_packet coding packet k).client.connections ≡ none)
  dial_failed-kept coding d serving k l same this linked counted asked =
      let e = dial_failed_lem d serving l (ap (λ u. get u serving.links) this ∙ linked) counted in
      let reply : ℕ = link_code RelayLinkReply.general_failure in
      let f =
        receive_packet-reply coding k there.uid reply h.fits_there
        ∙ connection_failed there.uid (encode_int32 there.uid) k asked in
      let kept = relay_answers reply in
      (
        link_reply (encode_int32 here.uid) RelayLinkReply.general_failure,
        command_code RelayCommand.service_connect ∷ (encode_int32 there.uid ++ (reply ∷ [])),
        ap (λ p. p.1) e ∙ λ i.
            sent (link_reply (same i) RelayLinkReply.general_failure) ∷ closing (this i) ∷ [],
        ap (λ p. get here.uid p.0.links) e ∙ rw this (delete_lem here.uid serving.links),
        ap (λ t. t.writes) kept,
        ap (λ t. t.session) kept,
        ap (λ t. t.effects) f,
        ap (λ t. get there.uid t.client.connections) f ∙ delete_lem there.uid k.connections,
      )

-- Where the relay has a connection between the session's socket and another socket, with two
-- identifiers of 32 bits, whichever of the two has the server's end: bytes that this client reads from
-- its tunnel go through the relay, which writes one packet, to the socket of the other end, and come
-- out, as they are, in the output queue that the client there has for its own identifier, if it has it
-- in use.
pub stream-delivered :
    (ctx : Context) (view : ℕ → Relay) (s : Session) (here there : End) (c : RelayServiceConnection)
    (coding : Coding) (k : Client) (content : Bytes)
    → IsBetween ctx s here there c
    → IsOpen coding k there.uid
    → (packet : Bytes) × ((handle_packet ctx view (stream_packet here.uid content) s).writes
        ≡ (there.socket, packet) ∷ [])
      × ((receive_packet coding packet k).effects ≡ pushed there.uid content ∷ [])
stream-delivered ctx view s here there c coding k content h used =
    let end = IsBetween-IsEnd ctx s here there c h in
    (
      stream_packet there.uid content,
      ap (λ t. t.writes) (relay_streams ctx view s here there c end content),
      ap (λ t. t.effects) (receive_packet-stream coding k there.uid content h.fits_there used),
    )
