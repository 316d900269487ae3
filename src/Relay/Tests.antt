-- ===== src/Relay/Tests.antt =====
-- A relay with a server (socket 1), a client (socket 2) and their connection; the theorems on it.
use web_tether.Common.{ℕ, list_beq, ◌≡◌, ◌≢◌, refl, arith, none, some, [], ◌∷◌}
use web_tether.Common.Int.{ℤ, pos, negsuc}
use web_tether.Common.Dict.{get, set, has, text_eq, nat_eq, int_eq}
use web_tether.SafeBuffer.{Bytes}
use web_tether.Protocol.{RelayServiceType, RelayCommand, command_code}
use web_tether.Relay.{
  Text, Relay, RelayService, RelayServiceConnection, RegisteredSocket, BoundService, create_relay,
  connected, bind, bind_each, some_bound, set_connection, link, link_with, disconnected, connection,
  connection_at, target, forward, close,
}
use web_tether.SafeBuffer.RoundTrip.{IsInt32}
use web_tether.Relay.Ends.{counter_of}
use web_tether.Relay.Invariant.{IsConsistent}
use web_tether.Relay.Invariant.Disconnect.{disconnected-forgets, disconnected-keeps}
use web_tether.Relay.Steps.{Act, Step, Reach, start, next, Reach-IsConsistent}
use web_tether.Relay.Routing.{IsPacket, forward-delivers, close-tells}

abbrev pub utf8 : Text → Bytes
utf8 t = t

abbrev pub web : Text
web = 119 ∷ []

abbrev pub web_service : RelayService
web_service = record { type = RelayServiceType.raw_socket; service = web }

-- Both sockets are connected.
abbrev pub joined : Relay
joined = connected 2 [] (connected 1 [] create_relay)

-- The server has bound its service.
abbrev pub serving : Relay
serving = record (joined) { bound_services = bind_each 1 (web_service ∷ []) [] }

abbrev pub server_entry : RegisteredSocket
server_entry = record { alias = []; relay_counter = pos 0; connections = [] }

-- The client is linked to it.
abbrev pub linked_relay : Relay
linked_relay = (link_with utf8 2 web (pos 5) [] 1 server_entry serving).0

abbrev pub pipe : RelayServiceConnection
pipe = record {
  client = record { socket = 2; uid = pos 5 };
  server = record { socket = 1; uid = negsuc 0 };
}

joined-Reach : Reach utf8 joined
unfolding connected create_relay counter_of get set
joined-Reach = next (next start (Step.connects 1 [] refl)) (Step.connects 2 [] refl)

pub serving-Reach : Reach utf8 serving
unfolding connected create_relay counter_of get set bind bind_each some_bound has
serving-Reach =
    next joined-Reach (Step.acts (Act.binds 1 (web_service ∷ []) (λ e. absurd (cc)) refl))

pub linked-Reach : Reach utf8 linked_relay
unfolding connected create_relay counter_of get set link bind_each connection list_beq
linked-Reach = next serving-Reach (
    Step.acts (
      Act.links 2 web (pos 5) [] (link_with utf8 2 web (pos 5) [] 1 server_entry serving).1 refl
        refl refl))

Reach-IsConsistent_example : IsConsistent linked_relay
Reach-IsConsistent_example = Reach-IsConsistent utf8 linked-Reach

pub consistent : IsConsistent linked_relay
consistent = Reach-IsConsistent utf8 linked-Reach

pub pipe_there : connection_at 2 (pos 5) linked_relay ≡ some pipe
unfolding connected create_relay get set link_with bind_each connection_at set_connection
pipe_there = refl

disconnected-forgets_example :
    (counter_of 1 (disconnected 1 linked_relay).0 ≡ none)
    × ((n : Text) (b : BoundService)
        → get n (disconnected 1 linked_relay).0.bound_services ≡ some b
        → b.socket ≢ 1)
    × ((s : ℕ) (u : ℤ) (c : RelayServiceConnection)
        → connection_at s u (disconnected 1 linked_relay).0 ≡ some c
        → (c.client.socket ≢ 1) × (c.server.socket ≢ 1))
disconnected-forgets_example = disconnected-forgets 1 linked_relay consistent

disconnected-keeps_example :
    ((s : ℕ) → s ≢ 1 → counter_of s (disconnected 1 linked_relay).0 ≡ counter_of s linked_relay)
    × ((n : Text) (b : BoundService)
        → get n linked_relay.bound_services ≡ some b
        → b.socket ≢ 1
        → get n (disconnected 1 linked_relay).0.bound_services ≡ some b)
    × ((s : ℕ) (u : ℤ) (c : RelayServiceConnection)
        → connection_at s u linked_relay ≡ some c
        → c.client.socket ≢ 1
        → c.server.socket ≢ 1
        → connection_at s u (disconnected 1 linked_relay).0 ≡ some c)
disconnected-keeps_example = disconnected-keeps 1 linked_relay consistent

ends_differ : pipe.client.socket ≢ pipe.server.socket
ends_differ = omega arith

target-IsInt32 : IsInt32 (target pipe 2).uid
unfolding target
target-IsInt32 = (omega arith, omega arith)

forward-delivers_example :
    ((forward pipe 2 (7 ∷ [])).0 ≢ 2)
    × (connection_at (forward pipe 2 (7 ∷ [])).0 (target pipe 2).uid linked_relay ≡ some pipe)
    × IsPacket
        (command_code RelayCommand.service_stream)
        (target pipe 2).uid
        (7 ∷ [])
        (forward pipe 2 (7 ∷ [])).1
forward-delivers_example =
    forward-delivers 2 (pos 5) pipe (7 ∷ []) linked_relay consistent pipe_there ends_differ
      target-IsInt32

close-tells_example :
    ((close pipe 2 1 linked_relay).1.0 ≢ 2)
    × IsPacket
        (command_code RelayCommand.service_closed)
        (target pipe 2).uid
        (1 ∷ [])
        (close pipe 2 1 linked_relay).1.1
    × (connection_at 2 (pos 5) (close pipe 2 1 linked_relay).0 ≡ none)
    × (connection_at
          (close pipe 2 1 linked_relay).1.0
          (target pipe 2).uid
          (close pipe 2 1 linked_relay).0
        ≡ none)
    × ((t : ℕ) (v : ℤ) (d : RelayServiceConnection)
        → d ≢ pipe
        → connection_at t v linked_relay ≡ some d
        → connection_at t v (close pipe 2 1 linked_relay).0 ≡ some d)
close-tells_example =
    close-tells 2 (pos 5) pipe 1 linked_relay consistent pipe_there ends_differ target-IsInt32

-- Socket 1 linked with itself.
