-- ===== src/Client/Opening.antt =====
-- src/tunnel/client/tunnel-handle.client.ts: the services that a client offers, and its first packet.
use web_tether.Common.{Option, none, some, List, [], ◌∷◌, map}
use web_tether.Common.Dict.{Dict, set, IsDistinct, set-IsDistinct, text_eq}
use web_tether.SafeBuffer.{Bytes}
use web_tether.Protocol.{RelayServiceType}
use web_tether.Relay.{Text, RelayService}
use web_tether.Session.Requests.{bind_request}
use web_tether.Client.{Address, RegisteredService, proxied, forwarded}

-- `options.services.bind.forEach(…)`, onto the services that are there.
unfoldable pub register_binds :
    List (Text × Address) → Dict Text RegisteredService → Dict Text RegisteredService
register_binds [] m = m
register_binds ((service, destination) ∷ binds) m =
    register_binds binds (set service (forwarded destination) m)

-- The proxy server's service, where it is enabled, and the bound ones.
unfoldable pub registered_services :
    Option Text → List (Text × Address) → Dict Text RegisteredService
unfolding register_binds
registered_services none binds = register_binds binds []
registered_services (some service) binds = register_binds binds (set service proxied [])

abbrev pub relay_type : RegisteredService → RelayServiceType
relay_type proxied = RelayServiceType.socks_proxy
relay_type (forwarded destination) = RelayServiceType.raw_socket

unfoldable pub relay_services : Dict Text RegisteredService → List RelayService
relay_services =
    map (λ (p : Text × RegisteredService). record { service = p.0; type = relay_type p.1 })

-- What is written before the loop: nothing where nothing is offered.
unfoldable pub opening_packets : (Text → Bytes) → Dict Text RegisteredService → List Bytes
unfolding relay_services
opening_packets encode [] = []
opening_packets encode (first ∷ others) = bind_request encode (relay_services (first ∷ others)) ∷ []

register_binds-IsDistinct :
    (binds : List (Text × Address)) (m : Dict Text RegisteredService)
    → IsDistinct m
    → IsDistinct (register_binds binds m)
unfolding register_binds
register_binds-IsDistinct [] m h = h
register_binds-IsDistinct ((service, destination) ∷ binds) m h =
    register_binds-IsDistinct binds (set service (forwarded destination) m)
      (set-IsDistinct service (forwarded destination) m h)

-- A client asks for each of its services once, however often its options name it.
pub registered_services-IsDistinct :
    (proxy : Option Text) (binds : List (Text × Address))
    → IsDistinct (registered_services proxy binds)
unfolding registered_services
registered_services-IsDistinct none binds = register_binds-IsDistinct binds [] tt
registered_services-IsDistinct (some service) binds =
    register_binds-IsDistinct binds (set service proxied []) (set-IsDistinct service proxied [] tt)
