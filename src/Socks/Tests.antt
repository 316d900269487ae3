-- ===== src/Socks/Tests.antt =====
-- Handshakes of concrete clients.
use web_tether.Common.{◌≡◌, refl, Bool, true, Option, some, List, [], ◌∷◌, ◌++◌}
use web_tether.SafeBuffer.{Bytes}
use web_tether.Socks.{Mode, SocksDestinationAddress, SocksTunnelResponse, Tunnel, run, read_to}
use web_tether.Socks.Text.{Text}
use web_tether.Socks.Socks5.{enabled, handle_socks5, includes}
use web_tether.Socks.Socks4.{UserValidation}
use web_tether.Socks.Chunks.{flatten, chunks, Agree, run-chunks}
use web_tether.Socks.Handshake.{credentials, domain_request, logged_in, login_handshake}
use web_tether.Socks.Protocol.{handle_protocol, handle_socks_connection, Piping}
use web_tether.Socks.Admission.{
  validating, Admitted, dials-Admitted, handle_socks_connection-Admitted,
}

abbrev text : Bytes → Text
text b = b

-- Anything can be reached, through tunnel 7.
abbrev open_tunnel : Tunnel
open_tunnel to = SocksTunnelResponse.opened 7

abbrev any_login : Text → Text → Option Bool
any_login username password = some true

abbrev any_user : Text → Option UserValidation
any_user user = some UserValidation.valid

abbrev alice : Bytes
alice = 97 ∷ []

abbrev host : Bytes
host = 104 ∷ []

-- The client's bytes, cut into two chunks.
abbrev first_chunk : Bytes
first_chunk = 5 ∷ 1 ∷ []

abbrev second_chunk : Bytes
second_chunk = 2 ∷ (credentials alice alice ++ (domain_request host 0 80 ++ (1 ∷ [])))

abbrev arrivals : List Bytes
arrivals = first_chunk ∷ second_chunk ∷ []

abbrev to_host : SocksDestinationAddress
to_host = record { mode = Mode.domain; host = host; port = 80 }

run-chunks_example :
    Agree
      (run open_tunnel (handle_socks5 (enabled true any_login) text) [] (chunks arrivals))
      (run open_tunnel (handle_socks5 (enabled true any_login) text) ([] ++ flatten arrivals) [])
run-chunks_example =
    run-chunks open_tunnel (handle_socks5 (enabled true any_login) text) [] arrivals

offers_password : includes 2 (2 ∷ []) ≡ true
unfolding includes
offers_password = refl

login_handshake_example :
    Agree
      (run open_tunnel (handle_socks5 (enabled true any_login) text) [] (chunks arrivals))
      (logged_in open_tunnel text (some true) to_host (domain_request host 0 80) (1 ∷ []))
login_handshake_example =
    login_handshake open_tunnel text true any_login (2 ∷ []) alice alice host 0 80 (1 ∷ []) arrivals
      offers_password refl

abbrev admitting : Piping
admitting = record { tunnel = 7; remaining = some (1 ∷ []) }

piped :
    handle_socks_connection (validating any_user any_login) text open_tunnel (chunks arrivals)
    ≡ some admitting
unfolding handle_socks_connection read_to
piped = refl

dialled :
    (run open_tunnel
      (handle_protocol (validating any_user any_login) text)
      []
      (chunks arrivals)).dialled
    ≡ to_host ∷ []
unfolding handle_socks_connection read_to
dialled = refl

handle_socks_connection-Admitted_example :
    Admitted any_user any_login text open_tunnel (flatten arrivals)
handle_socks_connection-Admitted_example =
    handle_socks_connection-Admitted any_user any_login text open_tunnel arrivals admitting piped

dials-Admitted_example : Admitted any_user any_login text open_tunnel (flatten arrivals)
dials-Admitted_example =
    dials-Admitted any_user any_login text open_tunnel arrivals (λ e. absurd (cc dialled))
