-- ===== src/Session/Tests.antt =====
-- Sessions on a relay with a server and a client: the theorems at concrete packets.
use web_tether.Common.{
  ℕ, ◌≡◌, ◌≢◌, refl, arith, Bool, true, false, none, some, List, [], ◌∷◌, map, list_beq,
}
use web_tether.Common.Dict.{get, set, has, contains, text_eq, nat_eq, int_eq}
use web_tether.SafeBuffer.{Bytes}
use web_tether.Protocol.{RelayBindReply, RelayServiceType}
use web_tether.Relay.{
  Text, RelayService, RelayError, BoundService, create_relay, connected, bind_each, some_bound,
  link_with, set_connection,
}
use web_tether.Relay.Ends.{counter_of}
use web_tether.Relay.Invariant.{IsConsistent}
use web_tether.Relay.Tests.{utf8, web, web_service, joined, serving, linked_relay, consistent}
use web_tether.Session.{Context, Session, Next, enabled, disabled}
use web_tether.Session.Bind.{bind_reply}
use web_tether.Session.Commands.{handle_packet}
use web_tether.Session.Laws.{IsExpected}
use web_tether.Session.Packets.{handle_packet-IsSafe}
use web_tether.Session.World.{
  Live, World, empty_world, join, deliver, turn_of, IsSound, Reachable, begin, joins, receives,
  Reachable-IsSound, turn_of-IsExpected,
}
use web_tether.Session.Authority.{handle_packet-Grants}
use web_tether.Session.Grants.{Grants}
use web_tether.Session.Requests.{bind_request, bind_request-succeeds, bind_request-raced}

abbrev all_allowed : Text → Bool
all_allowed name = true

abbrev client : Context
client = record {
  socket = 2;
  bind = enabled all_allowed;
  connect = disabled;
  decode = utf8;
  encode = utf8;
}

abbrev on_linked : Session
on_linked = record { relay = linked_relay; service_bound = false }

abbrev on_joined : Session
on_joined = record { relay = joined; service_bound = false }

abbrev on_serving : Session
on_serving = record { relay = serving; service_bound = false }

-- A stream packet of the client's connection 5.
abbrev stream_packet : Bytes
stream_packet = 5 ∷ 0 ∷ 0 ∷ 0 ∷ 5 ∷ 1 ∷ 2 ∷ []

client-known : counter_of 2 linked_relay ≢ none
unfolding connected create_relay counter_of get set link_with set_connection
client-known e = absurd (cc)

handle_packet-IsSafe_example :
    IsConsistent (handle_packet client (λ i. linked_relay) stream_packet on_linked).session.relay
    × ((other : ℕ)
        → counter_of other linked_relay ≢ none
        → counter_of other
            (handle_packet client (λ i. linked_relay) stream_packet on_linked).session.relay
          ≢ none)
    × IsExpected (handle_packet client (λ i. linked_relay) stream_packet on_linked).next
handle_packet-IsSafe_example =
    handle_packet-IsSafe client (λ i. linked_relay) on_linked consistent client-known
      (λ i. consistent) stream_packet

handle_packet-Grants_example :
    Grants client linked_relay
      (handle_packet client (λ i. linked_relay) stream_packet on_linked).session.relay
handle_packet-Grants_example =
    handle_packet-Grants client on_linked (λ i. linked_relay) stream_packet

-- The client joins and binds its service.
abbrev joined_world : World
joined_world = join client [] empty_world

abbrev bound_world : World
bound_world = (deliver 2 (λ i. linked_relay) (bind_request utf8 (web_service ∷ [])) joined_world).0

joined_world-Reachable : Reachable joined_world
unfolding empty_world create_relay counter_of get
joined_world-Reachable = joins client [] begin refl

bound_world-Reachable : Reachable bound_world
bound_world-Reachable =
    receives 2 (λ i. linked_relay) (bind_request utf8 (web_service ∷ [])) joined_world-Reachable
      (λ i. consistent)

Reachable-IsSound_example : IsSound bound_world
Reachable-IsSound_example = Reachable-IsSound bound_world-Reachable

abbrev live_client : Live
live_client = record { context = client; service_bound = false }

client-lives : get 2 joined_world.sessions ≡ some live_client
unfolding join empty_world get set
client-lives = refl

turn_of-IsExpected_example :
    IsExpected (turn_of live_client (λ i. linked_relay) stream_packet joined_world.relay).next
turn_of-IsExpected_example =
    turn_of-IsExpected 2 live_client (λ i. linked_relay) stream_packet joined_world-Reachable
      client-lives (λ i. consistent)

free_in_joined : get web joined.bound_services ≡ none
unfolding connected create_relay get
free_in_joined = refl

bind_request-succeeds_example :
    ((handle_packet client (λ i. joined) (bind_request utf8 (web_service ∷ [])) on_joined).writes
      ≡ (2, bind_reply RelayBindReply.success) ∷ [])
    × ((handle_packet client (λ i. joined) (bind_request utf8 (web_service ∷ [])) on_joined).next
        ≡ Next.continue)
    × ((handle_packet client
          (λ i. joined)
          (bind_request utf8 (web_service ∷ []))
          on_joined).session.service_bound
        ≡ true)
    × ((n : Text)
        → contains n (map (λ x. x.service) (web_service ∷ [])) ≡ true
        → (b : BoundService) × (get n
              (handle_packet client
                (λ i. joined)
                (bind_request utf8 (web_service ∷ []))
                on_joined).session.relay.bound_services
            ≡ some b)
          × (b.socket ≡ 2))
bind_request-succeeds_example =
    bind_request-succeeds client all_allowed refl (λ i. joined) (web_service ∷ []) on_joined
      (omega arith) ((refl, omega arith), tt) (refl, tt) ((λ j. free_in_joined), tt) refl
      (free_in_joined, tt)

-- The server binds `web` while the check of `mail` is awaited.
abbrev mail_service : RelayService
mail_service = record { type = RelayServiceType.raw_socket; service = 109 ∷ [] }

abbrev both_services : List RelayService
both_services = web_service ∷ mail_service ∷ []

free_in_serving : get (109 ∷ []) serving.bound_services ≡ none
unfolding connected create_relay bind_each get set list_beq
free_in_serving = refl

taken_in_serving : some_bound both_services serving ≡ true
unfolding connected create_relay some_bound has bind_each get set list_beq
taken_in_serving = refl

bind_request-raced_example :
    ((handle_packet client (λ i. joined) (bind_request utf8 both_services) on_serving).writes
      ≡ (2, bind_reply RelayBindReply.success) ∷ [])
    × ((handle_packet client (λ i. joined) (bind_request utf8 both_services) on_serving).next
        ≡ Next.throw RelayError.already_bound)
    × ((handle_packet client
          (λ i. joined)
          (bind_request utf8 both_services)
          on_serving).session.relay
        ≡ serving)
bind_request-raced_example =
    bind_request-raced client all_allowed refl (λ i. joined) both_services on_serving (omega arith)
      ((refl, omega arith), ((refl, omega arith), tt)) (refl, (refl, tt))
      (free_in_joined, (free_in_serving, tt)) refl taken_in_serving
