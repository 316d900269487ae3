-- ===== src/Client/Invariant.antt =====
-- What the tables of a client say of each other.
use web_tether.Common.{
  ℕ, ◌≡◌, refl, true, false, Option, none, some, List, [], ◌∷◌, not, ◌||◌, ◌==◌, arith, Bool-cases,
  Option-cases, inl, inr,
}
use web_tether.Common.Int.{ℤ, is_positive, is_negative}
use web_tether.Common.Dict.{get, has, int_eq, text_eq}
use web_tether.SafeBuffer.{Bytes, SafeReader}
use web_tether.Protocol.{RelayCommand, command_of, RelayConnectReply, connect_code}
use web_tether.Client.{
  RegisteredService, proxied, forwarded, TunnelClientConnection, Client, ClientTurn, Coding,
  receiving,
}
use web_tether.Client.Requests.{abort_connection}
use web_tether.Client.Commands.{
  receive_close, receive_bind, receive_unsupported, receive_unknown, receive_closed, on_error,
  connect_replied, receive_connect, receive_stream, link_service, receive_link, receive_command,
  receive_packet,
}
use web_tether.Client.Dials.{dial_succeeded, dial_failed}
use web_tether.Client.Loop.{
  ClientEvent, packet, local, aborting, reached, unreachable, connection_streamed, link_streamed,
  client_step, client_run,
}
use web_tether.Client.Tidy.{
  IsTidy, Shrinks-IsTidy, finalize_connection-Shrinks, abort_connection-Shrinks,
  finalize_link-Shrinks, finalize_dial-Shrinks, on_connect-Shrinks, start_link-IsTidy,
  serve_client-IsTidy,
}

receiving-IsTidy :
    {A : Type 0} (c : Client) (o : Option (A × SafeReader)) (k : A → SafeReader → ClientTurn)
    → IsTidy c
    → ((a : A) (r : SafeReader) → IsTidy (k a r).client)
    → IsTidy (receiving c o k).client
unfolding receiving
receiving-IsTidy c none k h f = h
receiving-IsTidy c (some (a, r)) k h f = f a r

module _ (c : Client) (h : IsTidy c) where
  receive_closed-IsTidy : (r : SafeReader) → IsTidy (receive_closed r c).client
  unfolding receive_closed
  receive_closed-IsTidy r = receiving-IsTidy c _ _ h λ uid r₁. receiving-IsTidy c _ _ h λ reason _.
      elim (Bool-cases (is_positive uid)) [
        | inl up ↦ rw up (Shrinks-IsTidy c _ h (finalize_connection-Shrinks uid c))
        | inr other ↦ elim (Bool-cases (is_negative uid)) [
          | inl down ↦ rw (other, down) (Shrinks-IsTidy c _ h (finalize_link-Shrinks uid c))
          | inr null ↦ rw (other, null) h
        ]
      ]

  connect_replied-IsTidy :
      (encoded : Bytes) (uid : ℤ) (reply : ℕ) (o : Option TunnelClientConnection)
      → get uid c.connections ≡ o
      → IsTidy (connect_replied encoded uid reply c o).client
  unfolding connect_replied on_error
  connect_replied-IsTidy encoded uid reply none e = h
  connect_replied-IsTidy encoded uid reply (some x) e =
      elim (Bool-cases (reply == connect_code RelayConnectReply.success)) [
        | inl fine ↦ rw fine (Shrinks-IsTidy c _ h (on_connect-Shrinks uid x c e))
        | inr bad ↦ rw bad (Shrinks-IsTidy c _ h (finalize_connection-Shrinks uid c))
      ]

  receive_connect-IsTidy : (r : SafeReader) → IsTidy (receive_connect r c).client
  unfolding receive_connect
  receive_connect-IsTidy r = receiving-IsTidy c _ _ h λ encoded _.
      receiving-IsTidy c _ _ h λ uid r₁.
        receiving-IsTidy c _ _ h λ reply _. connect_replied-IsTidy encoded uid reply _ refl

  receive_stream-IsTidy : (r : SafeReader) → IsTidy (receive_stream r c).client
  unfolding receive_stream
  receive_stream-IsTidy r = receiving-IsTidy c _ _ h λ encoded _. receiving-IsTidy c _ _ h λ uid r₁.
      elim (Bool-cases (is_positive uid)) [
        | inl up ↦ rw up h
        | inr other ↦ elim (Bool-cases (is_negative uid)) [
          | inl down ↦ rw (other, down) h
          | inr null ↦ rw (other, null) h
        ]
      ]

  link_service-IsTidy :
      (coding : Coding) (encoded : Bytes) (uid : ℤ) (r : SafeReader) (o : Option RegisteredService)
      → is_negative uid ≡ true
      → get uid c.links ≡ none
      → IsTidy (link_service coding encoded uid r c o).client
  unfolding link_service
  link_service-IsTidy coding encoded uid r none below unused = h
  link_service-IsTidy coding encoded uid r (some proxied) below unused =
      receiving-IsTidy c _ _ h λ name r₁. receiving-IsTidy c _ _ h λ port _.
        start_link-IsTidy encoded uid (record { hostname = coding.decode name; port = port }) c h
          below unused
  link_service-IsTidy coding encoded uid r (some (forwarded a)) below unused =
      start_link-IsTidy encoded uid a c h below unused

  has-none : (uid : ℤ) → has uid c.links ≡ false → get uid c.links ≡ none
  unfolding has
  has-none uid e = ground arith

  receive_link-IsTidy : (coding : Coding) (r : SafeReader) → IsTidy (receive_link coding r c).client
  unfolding receive_link
  receive_link-IsTidy coding r = receiving-IsTidy c _ _ h λ encoded _.
      receiving-IsTidy c _ _ h λ uid r₁. receiving-IsTidy c _ _ h λ name r₂.
        elim (Bool-cases (not (is_negative uid) || has uid c.links)) [
          | inl bad ↦ rw bad h
          | inr fine ↦ rw fine (
              link_service-IsTidy coding encoded uid r₂ _ (ground arith)
                (has-none uid (ground arith)))
        ]

  receive_command-IsTidy :
      (coding : Coding) (r : SafeReader) (k : RelayCommand)
      → IsTidy (receive_command coding r c k).client
  unfolding receive_command receive_close receive_bind receive_unsupported
  receive_command-IsTidy coding r RelayCommand.socket_close = h
  receive_command-IsTidy coding r RelayCommand.service_bind = receiving-IsTidy c _ _ h λ reply _. h
  receive_command-IsTidy coding r RelayCommand.service_connect = receive_connect-IsTidy r
  receive_command-IsTidy coding r RelayCommand.service_link = receive_link-IsTidy coding r
  receive_command-IsTidy coding r RelayCommand.service_stream = receive_stream-IsTidy r
  receive_command-IsTidy coding r RelayCommand.service_closed = receive_closed-IsTidy r
  receive_command-IsTidy coding r RelayCommand.unsupported = receiving-IsTidy c _ _ h λ reply _. h

  receive_packet-IsTidy :
      (coding : Coding) (bytes : Bytes) → IsTidy (receive_packet coding bytes c).client
  unfolding receive_packet receive_unknown
  receive_packet-IsTidy coding bytes = receiving-IsTidy c _ _ h λ command r.
      elim (Option-cases (command_of command)) [
        | inl unknown ↦ rw unknown h
        | inr (k, known) ↦ rw known (receive_command-IsTidy coding r k)
      ]

client_step-IsTidy :
    (coding : Coding) (e : ClientEvent) (c : Client) → IsTidy c → IsTidy (client_step coding e c).0
unfolding client_step abort_connection dial_succeeded dial_failed
client_step-IsTidy coding (packet bytes) c h = receive_packet-IsTidy c h coding bytes
client_step-IsTidy coding (local l) c h = serve_client-IsTidy coding l c h
client_step-IsTidy coding (aborting uid) c h = Shrinks-IsTidy c _ h (abort_connection-Shrinks uid c)
client_step-IsTidy coding (reached d) c h = h
client_step-IsTidy coding (unreachable d) c h = Shrinks-IsTidy c _ h (finalize_dial-Shrinks d c)
client_step-IsTidy coding (connection_streamed uid) c h =
    Shrinks-IsTidy c _ h (finalize_connection-Shrinks uid c)
client_step-IsTidy coding (link_streamed d) c h = Shrinks-IsTidy c _ h (finalize_dial-Shrinks d c)

-- Whatever happens to a client, in any order, it stays tidy: its connections have identifiers that it
-- counted itself, its links negative ones, and each dial belongs to one link.
pub client_run-IsTidy :
    (coding : Coding) (es : List ClientEvent) (c : Client)
    → IsTidy c
    → IsTidy (client_run coding es c).0
unfolding client_run
client_run-IsTidy coding [] c h = h
client_run-IsTidy coding (e ∷ es) c h =
    client_run-IsTidy coding es (client_step coding e c).0 (client_step-IsTidy coding e c h)
