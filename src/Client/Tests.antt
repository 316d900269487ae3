-- ===== src/Client/Tests.antt =====
-- Two clients and the relay between them: the theorems at concrete values.
use web_tether.Common.{
  ◌≡◌, refl, arith, Bool, true, false, none, some, List, [], ◌∷◌, inl, inr, list_beq,
}
use web_tether.Common.Int.{pos, negsuc}
use web_tether.Common.Dict.{get, has, int_eq, text_eq, nat_eq}
use web_tether.SafeBuffer.{Bytes, encode_int32}
use web_tether.Protocol.{RelayServiceType}
use web_tether.Relay.{Text, Relay, RelayServiceConnection, BoundService, RegisteredSocket, target}
use web_tether.Socks.{ConnectionTunnelErrorReason}
use web_tether.Session.{Context, Session, disabled, enabled}
use web_tether.Session.Commands.{handle_packet}
use web_tether.Client.{
  Address, Dial, forwarded, proxied, accepted, failed, TunnelClientConnection, TunnelClientLink,
  Client, sent, emitted, dialled, streaming, pushed, closing, Coding, new_client,
}
use web_tether.Client.Requests.{LocalClient, proxy, serve_client}
use web_tether.Client.Stream.{stream_packet}
use web_tether.Client.Commands.{receive_packet}
use web_tether.Client.Dials.{dial_succeeded, dial_failed}
use web_tether.Client.Loop.{ClientEvent, packet, local, aborting, client_run}
use web_tether.Client.Invariant.{client_run-IsTidy}
use web_tether.Client.Tidy.{IsTidy, new_client-IsTidy}
use web_tether.Client.Exchange.{connect_request-dialled}
use web_tether.Client.Linking.{IsLinkable}
use web_tether.Client.Answers.{
  IsEnd, IsBetween, stream-delivered, dial_succeeded-answered, dial_failed-kept,
}

abbrev bytes_text : Bytes → Text
bytes_text b = b

abbrev codes : Coding
codes = record { decode = bytes_text; encode = bytes_text }

abbrev web : Text
web = 119 ∷ []

abbrev home : Address
home = record { hostname = 104 ∷ []; port = 80 }

-- A client that offers its proxy under the name of `web`.
abbrev offering : Client
offering = record {
  registered = (web, proxied) ∷ [];
  connections = [];
  links = [];
  local_uid = 1;
  next_dial = 0;
}

abbrev asking : Client
asking = record { registered = []; connections = []; links = []; local_uid = 1; next_dial = 0 }

abbrev visitor : LocalClient
visitor = record { service = web; target = proxy home; expired = false }

abbrev everything : List ClientEvent
everything =
    local visitor ∷ packet (19 ∷ 255 ∷ 255 ∷ 255 ∷ 255 ∷ 0 ∷ 1 ∷ 119 ∷ []) ∷ aborting (pos 1) ∷ []

client_run-IsTidy_example :
    IsTidy (client_run codes everything (new_client ((web, forwarded home) ∷ []))).0
client_run-IsTidy_example =
    client_run-IsTidy codes everything (new_client ((web, forwarded home) ∷ []))
      (new_client-IsTidy ((web, forwarded home) ∷ []))

abbrev web_bound : BoundService
web_bound = record { socket = 1; type = RelayServiceType.socks_proxy }

abbrev server_entry : RegisteredSocket
server_entry = record { alias = 115 ∷ []; relay_counter = pos 0; connections = [] }

abbrev client_entry : RegisteredSocket
client_entry = record { alias = 99 ∷ []; relay_counter = pos 0; connections = [] }

abbrev both_joined : Relay
both_joined = record {
  bound_services = (web, web_bound) ∷ [];
  registered_sockets = (1, server_entry) ∷ (2, client_entry) ∷ [];
}

abbrev open_session : Session
open_session = record { relay = both_joined; service_bound = false }

abbrev anything : Text → Bool
anything name = true

abbrev client_context : Context
client_context = record {
  socket = 2;
  bind = disabled;
  connect = enabled anything;
  decode = bytes_text;
  encode = bytes_text;
}

visitor-IsLinkable :
    IsLinkable client_context open_session 1 visitor web_bound client_entry server_entry
unfolding get list_beq
visitor-IsLinkable = record {
  allowed = anything;
  permission = refl;
  may = refl;
  same = refl;
  short = omega arith;
  fits = omega arith;
  counted = omega arith;
  known = refl;
  unused = refl;
  bound = refl;
  serving = refl;
  typed = refl;
}

offered : get web offering.registered ≡ some proxied
unfolding get list_beq
offered = refl

unlinked : has (negsuc 0) offering.links ≡ false
unfolding has get
unlinked = refl

connect_request-dialled_example :
    (request : Bytes) × (forwarded_request : Bytes) × ((serve_client codes visitor asking).1
      ≡ sent request ∷ [])
    × ((handle_packet client_context (λ i. both_joined) request open_session).writes
        ≡ (1, forwarded_request) ∷ [])
    × ((receive_packet codes forwarded_request offering).effects
        ≡ dialled
            (record { uid = negsuc 0; encoded_uid = encode_int32 (negsuc 0); number = 0 })
            home
          ∷ [])
connect_request-dialled_example =
    connect_request-dialled client_context (λ i. both_joined) open_session asking offering visitor
      web_bound client_entry server_entry home proxied visitor-IsLinkable refl
      (refl, refl, omega arith, omega arith) offered (omega arith) refl unlinked

-- The connection that the relay has after that.
abbrev connection_made : RelayServiceConnection
connection_made = record {
  client = record { socket = 2; uid = pos 1 };
  server = record { socket = 1; uid = negsuc 0 };
}

abbrev server_linked : RegisteredSocket
server_linked = record {
  alias = 115 ∷ [];
  relay_counter = negsuc 0;
  connections = (negsuc 0, connection_made) ∷ [];
}

abbrev client_linked : RegisteredSocket
client_linked = record {
  alias = 99 ∷ [];
  relay_counter = pos 0;
  connections = (pos 1, connection_made) ∷ [];
}

abbrev linked_session : Session
linked_session = record {
  relay = record {
    bound_services = (web, web_bound) ∷ [];
    registered_sockets = (1, server_linked) ∷ (2, client_linked) ∷ [];
  };
  service_bound = true;
}

abbrev server_context : Context
server_context = record {
  socket = 1;
  bind = enabled anything;
  connect = disabled;
  decode = bytes_text;
  encode = bytes_text;
}

server-IsEnd :
    IsEnd server_context linked_session
      (connection_made.server)
      (connection_made.client)
      connection_made
unfolding get target
server-IsEnd = record {
  known = server_linked;
  registered = refl;
  stored = refl;
  opposite = refl;
  fits = omega arith;
  fits_there = omega arith;
}

server-IsBetween :
    IsBetween server_context linked_session
      (connection_made.server)
      (connection_made.client)
      connection_made
unfolding get
server-IsBetween = record {
  known = server_linked;
  registered = refl;
  stored = refl;
  sides = inr (refl, refl);
  mine = refl;
  apart = omega arith;
  fits = omega arith;
  fits_there = omega arith;
}

abbrev pending_connection : TunnelClientConnection
pending_connection = record { connected = false }

abbrev asking_linked : Client
asking_linked = record (asking) { connections = (pos 1, pending_connection) ∷ []; local_uid = 2 }

abbrev first_link : TunnelClientLink
first_link = record { dial = 0 }

abbrev offering_linked : Client
offering_linked = record (offering) { links = (negsuc 0, first_link) ∷ []; next_dial = 1 }

abbrev first_dial : Dial
first_dial = record { uid = negsuc 0; encoded_uid = encode_int32 (negsuc 0); number = 0 }

asking-asks : get (pos 1) asking_linked.connections ≡ some pending_connection
unfolding get
asking-asks = refl

asking-has : has (pos 1) asking_linked.connections ≡ true
unfolding has get
asking-has = refl

offering-links : get (negsuc 0) offering_linked.links ≡ some first_link
unfolding get
offering-links = refl

stream-delivered_example :
    (forwarded_packet : Bytes) × ((handle_packet server_context
        (λ i. both_joined)
        (stream_packet (negsuc 0) (1 ∷ 2 ∷ []))
        linked_session).writes
      ≡ (2, forwarded_packet) ∷ [])
    × ((receive_packet codes forwarded_packet asking_linked).effects
        ≡ pushed (pos 1) (1 ∷ 2 ∷ []) ∷ [])
stream-delivered_example =
    stream-delivered server_context (λ i. both_joined) linked_session (connection_made.server)
      (connection_made.client) connection_made codes asking_linked (1 ∷ 2 ∷ []) server-IsBetween
      (inl (refl, asking-has))

dial_succeeded-answered_example :
    (answer : Bytes) × (passed_on : Bytes) × ((dial_succeeded first_dial offering_linked).1
      ≡ sent answer ∷ streaming (negsuc 0) ∷ [])
    × ((handle_packet server_context (λ i. both_joined) answer linked_session).writes
        ≡ (2, passed_on) ∷ [])
    × ((receive_packet codes passed_on asking_linked).effects
        ≡ emitted (pos 1) accepted ∷ streaming (pos 1) ∷ [])
dial_succeeded-answered_example =
    dial_succeeded-answered server_context (λ i. both_joined) linked_session
      (connection_made.server) (connection_made.client) connection_made server-IsEnd codes
      first_dial offering_linked asking_linked pending_connection refl asking-asks

dial_failed-kept_example :
    (answer : Bytes) × (passed_on : Bytes) × ((dial_failed first_dial offering_linked).1
      ≡ sent answer ∷ closing (negsuc 0) ∷ [])
    × (get (negsuc 0) (dial_failed first_dial offering_linked).0.links ≡ none)
    × ((handle_packet server_context (λ i. both_joined) answer linked_session).writes
        ≡ (2, passed_on) ∷ [])
    × ((handle_packet server_context (λ i. both_joined) answer linked_session).session
        ≡ linked_session)
    × ((receive_packet codes passed_on asking_linked).effects
        ≡ emitted (pos 1) (failed ConnectionTunnelErrorReason.general_failure)
          ∷ closing (pos 1)
          ∷ emitted (pos 1) (failed ConnectionTunnelErrorReason.general_failure)
          ∷ [])
    × (get (pos 1) (receive_packet codes passed_on asking_linked).client.connections ≡ none)
dial_failed-kept_example =
    dial_failed-kept server_context (λ i. both_joined) linked_session (connection_made.server)
      (connection_made.client) connection_made server-IsEnd codes first_dial offering_linked
      asking_linked first_link refl refl offering-links refl asking-asks
