-- ===== src/Session/Commands.antt =====
-- The other commands, and the `switch` over them.
use web_tether.Common.{ℕ, true, false, none, some, [], ◌∷◌, ◌++◌, if◌then◌else◌, ◌==◌}
use web_tether.SafeBuffer.{Bytes, SafeReader, safe_reader, uint8, int32, data_of, data_left}
use web_tether.Protocol.{
  RelayCommand, command_code, command_of, RelayLinkReply, link_code, RelayServiceConnectionReason,
  reason_code,
}
use web_tether.Relay.{Relay, connection, notify, forward, close}
use web_tether.Session.{Context, Session, Turn, Next, RelayFailure, done, refuse, reading, calling}
use web_tether.Session.Bind.{handle_bind}
use web_tether.Session.Connect.{handle_connect}

-- `SERVICE_CLOSED` with `CONNECTION_GONE`.
abbrev pub gone_packet : Bytes → Bytes
gone_packet encoded =
    command_code RelayCommand.service_closed
    ∷ (encoded ++ (reason_code RelayServiceConnectionReason.connection_gone ∷ []))

unfoldable pub handle_link : Context → SafeReader → Session → Turn
handle_link ctx r s = reading s (data_of 4 true r) λ encoded _. reading s (int32 false r) λ uid r₁.
    reading s (uint8 false r₁) λ reply _. calling s [] (connection ctx.socket uid s.relay) λ found.
      elim found [
        | none ↦ done s (
            if reply == link_code RelayLinkReply.success
            then (ctx.socket, gone_packet encoded) ∷ []
            else [])
        | some c ↦ done s (notify c ctx.socket reply ∷ [])
      ]

unfoldable pub handle_stream : Context → SafeReader → Session → Turn
handle_stream ctx r s = reading s (data_of 4 true r) λ encoded _.
    reading s (int32 false r) λ uid r₁. calling s [] (connection ctx.socket uid s.relay) λ found.
      elim found [
        | none ↦ done s ((ctx.socket, gone_packet encoded) ∷ [])
        | some c ↦ done s (forward c ctx.socket (data_left false r₁).0 ∷ [])
      ]

unfoldable pub handle_closed : Context → SafeReader → Session → Turn
handle_closed ctx r s = reading s (int32 false r) λ uid r₁. reading s (uint8 false r₁) λ reason _.
    calling s [] (connection ctx.socket uid s.relay) λ found. elim found [
      | none ↦ done s []
      | some c ↦
          let (relay, w) = close c ctx.socket reason s.relay in
          done (record s { relay = relay }) (w ∷ [])
    ]

-- `switch (command)` for a number that is a command. `view` is the relay that each permission
-- check of a bind request finds but the last one, which finds the relay of `s`.
unfoldable pub handle_command : Context → (ℕ → Relay) → SafeReader → Session → RelayCommand → Turn
handle_command ctx view r s RelayCommand.socket_close = record {
  session = s;
  writes = (ctx.socket, command_code RelayCommand.socket_close ∷ []) ∷ [];
  next = Next.stop;
}
handle_command ctx view r s RelayCommand.service_bind = handle_bind ctx view r s
handle_command ctx view r s RelayCommand.service_connect = handle_connect ctx r s
handle_command ctx view r s RelayCommand.service_link = handle_link ctx r s
handle_command ctx view r s RelayCommand.service_stream = handle_stream ctx r s
handle_command ctx view r s RelayCommand.service_closed = handle_closed ctx r s
handle_command ctx view r s RelayCommand.unsupported = reading s (uint8 false r) λ _ _. done s []

-- The body of the loop, once the packet is there.
unfoldable pub handle_packet : Context → (ℕ → Relay) → Bytes → Session → Turn
handle_packet ctx view packet s = reading s (uint8 false (safe_reader packet)) λ command r.
    elim (command_of command) [
      | none ↦
          refuse ctx s RelayFailure.unsupported_command
            (command_code RelayCommand.unsupported ∷ command ∷ [])
      | some c ↦ handle_command ctx view r s c
    ]
