-- ===== src/Session/Packets.antt =====
-- Any packet at all: the whole `switch`.
use web_tether.Common.{ℕ, ◌≢◌, none, [], inl, inr, refl, Option-cases}
use web_tether.SafeBuffer.{Bytes, SafeReader}
use web_tether.Protocol.{RelayCommand, command_of}
use web_tether.Relay.{Relay}
use web_tether.Relay.Ends.{counter_of}
use web_tether.Relay.Invariant.{IsConsistent}
use web_tether.Relay.Steps.{Act-IsConsistent, Act-registered}
use web_tether.Session.{Context, Session}
use web_tether.Session.Commands.{handle_packet, handle_command}
use web_tether.Session.Laws.{
  Moves, IsExpected, reading-Moves, done-Moves, refuse-Moves, handle_link-Moves,
  handle_stream-Moves, handle_closed-Moves,
}
use web_tether.Session.BindLaws.{handle_bind-Moves}
use web_tether.Session.ConnectLaws.{handle_connect-Moves}

module _ (ctx : Context) (view : ℕ → Relay) (s : Session) (good : IsConsistent s.relay)
    (known : counter_of ctx.socket s.relay ≢ none) (views : (i : ℕ) → IsConsistent (view i)) where
  handle_command-Moves :
      (c : RelayCommand) (r : SafeReader) → Moves ctx s.relay (handle_command ctx view r s c)
  unfolding handle_command
  handle_command-Moves RelayCommand.socket_close r = record { change = inl refl; expected = tt }
  handle_command-Moves RelayCommand.service_bind r = handle_bind-Moves ctx view r s good known views
  handle_command-Moves RelayCommand.service_connect r = handle_connect-Moves ctx s good known r
  handle_command-Moves RelayCommand.service_link r = handle_link-Moves ctx s good known r
  handle_command-Moves RelayCommand.service_stream r = handle_stream-Moves ctx s good known r
  handle_command-Moves RelayCommand.service_closed r = handle_closed-Moves ctx s good known r
  handle_command-Moves RelayCommand.unsupported r =
      reading-Moves ctx s good known _ _ λ n r'. done-Moves ctx s good known []

  pub handle_packet-Moves : (packet : Bytes) → Moves ctx s.relay (handle_packet ctx view packet s)
  unfolding handle_packet
  handle_packet-Moves packet = reading-Moves ctx s good known _ _ λ command r.
      elim (Option-cases (command_of command)) [
        | inl unknown ↦ rw unknown (refuse-Moves ctx s good known _ _)
        | inr (c, member) ↦ rw member (handle_command-Moves c r)
      ]

  -- Whatever bytes the client of a registered socket sends to a consistent relay, and however the
  -- relay looks while a bind request awaits its permission checks, the turn leaves the relay
  -- consistent and every registered socket registered, and it throws nothing but what a short
  -- packet or a lost race for a service name throws.
  pub handle_packet-IsSafe :
      (packet : Bytes)
      → let t = handle_packet ctx view packet s in
        IsConsistent t.session.relay
        × ((other : ℕ) → counter_of other s.relay ≢ none → counter_of other t.session.relay ≢ none)
        × IsExpected t.next
  handle_packet-IsSafe packet =
      let m = handle_packet-Moves packet in
      (
        elim m.change [ inl same ↦ rw same good | inr act ↦ Act-IsConsistent ctx.encode act good ],
        λ other h. elim m.change [
          | inl same ↦ rw same h
          | inr act ↦ Act-registered ctx.encode other act h
        ],
        m.expected,
      )
