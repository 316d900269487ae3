-- ===== src/Client/ReturnedTests.antt =====
-- A server that connects to the service that it has bound itself.
use web_tether.Common.{◌≡◌, refl, arith, Bool, true, false, [], ◌∷◌, list_beq}
use web_tether.Common.Int.{pos, negsuc}
use web_tether.Common.Dict.{get, set, text_eq, nat_eq, int_eq}
use web_tether.Protocol.{RelayServiceType}
use web_tether.Relay.{Text, BoundService, create_relay, connected, bind_each}
use web_tether.Relay.Tests.{utf8, web, serving, serving-Reach, server_entry}
use web_tether.Relay.Steps.{Reach-IsConsistent}
use web_tether.Session.{Context, Session, enabled, disabled}
use web_tether.Session.Commands.{handle_packet}
use web_tether.Client.Requests.{LocalClient, raw, connect_request}
use web_tether.Client.Stream.{stream_packet}
use web_tether.Client.Linking.{IsLinkable}
use web_tether.Client.Returned.{own_service-returned}

abbrev all_allowed : Text → Bool
all_allowed name = true

abbrev own_context : Context
own_context = record {
  socket = 1;
  bind = disabled;
  connect = enabled all_allowed;
  decode = utf8;
  encode = utf8;
}

abbrev serving_session : Session
serving_session = record { relay = serving; service_bound = true }

abbrev caller : LocalClient
caller = record { service = web; target = raw; expired = false }

abbrev own_bound : BoundService
own_bound = record { socket = 1; type = RelayServiceType.raw_socket }

own-IsLinkable : IsLinkable own_context serving_session 1 caller own_bound server_entry server_entry
unfolding connected create_relay get set bind_each list_beq
own-IsLinkable = record {
  allowed = all_allowed;
  permission = refl;
  may = refl;
  same = refl;
  short = omega arith;
  fits = omega arith;
  counted = omega arith;
  known = refl;
  unused = refl;
  bound = refl;
  serving = refl;
  typed = refl;
}

own_service-returned_example :
    ((handle_packet own_context
        (λ i. serving)
        (stream_packet (pos 1) (7 ∷ []))
        (handle_packet own_context
          (λ i. serving)
          (connect_request utf8 1 caller)
          serving_session).session).writes
      ≡ (1, stream_packet (pos 1) (7 ∷ [])) ∷ [])
    × ((handle_packet own_context
          (λ i. serving)
          (stream_packet (negsuc 0) (7 ∷ []))
          (handle_packet own_context
            (λ i. serving)
            (connect_request utf8 1 caller)
            serving_session).session).writes
        ≡ (1, stream_packet (pos 1) (7 ∷ [])) ∷ [])
own_service-returned_example =
    own_service-returned own_context (λ i. serving) (λ i. serving) serving_session 1 caller
      own_bound server_entry server_entry (7 ∷ []) (Reach-IsConsistent utf8 serving-Reach)
      own-IsLinkable refl (omega arith, omega arith)
