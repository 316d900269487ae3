-- ===== src/Socks/Socks5.antt =====
-- src/proxy/socks5.handler.ts: the handler of a SOCKS5 handshake. `TextDecoder` is the parameter
-- `decode`; `socks5.auth.validate` is part of the configuration, and `none` when its promise is
-- rejected.
use web_tether.Common.{
  ℕ, ◌+◌, ◌*◌, Bool, true, false, not, ◌&&◌, ◌||◌, Option, none, some, List, [], ◌∷◌, map, ◌==◌,
  if◌then◌else◌, get_or,
}
use web_tether.SafeBuffer.{Bytes}
use web_tether.Socks.{
  Mode, SocksDestinationAddress, ConnectionTunnelErrorReason, SocksTunnelResponse, Script, finish,
  raise, send, dial, init_timeout, short_timeout, request_timeout, ask_size,
}
use web_tether.Socks.Text.{Text, decimal, hexadecimal, join}

pub data Socks5Auth : Type 0 where
  disabled : Socks5Auth
  enabled : (required : Bool) → (validate : Text → Text → Option Bool) → Socks5Auth

abbrev pub socks5_version : ℕ
socks5_version = 5

-- `Socks5Methods`
abbrev pub no_authentication_required : ℕ
no_authentication_required = 0

abbrev pub username_password : ℕ
username_password = 2

abbrev pub no_acceptable_methods : ℕ
no_acceptable_methods = 255

pub data Socks5Reply : Type 0 where
  succeeded general_socks_server_failure connection_not_allowed_by_ruleset : Socks5Reply
  network_unreachable host_unreachable connection_refused ttl_expired : Socks5Reply
  command_not_supported address_type_not_supported : Socks5Reply

abbrev pub reply_code : Socks5Reply → ℕ
reply_code Socks5Reply.succeeded = 0
reply_code Socks5Reply.general_socks_server_failure = 1
reply_code Socks5Reply.connection_not_allowed_by_ruleset = 2
reply_code Socks5Reply.network_unreachable = 3
reply_code Socks5Reply.host_unreachable = 4
reply_code Socks5Reply.connection_refused = 5
reply_code Socks5Reply.ttl_expired = 6
reply_code Socks5Reply.command_not_supported = 7
reply_code Socks5Reply.address_type_not_supported = 8

-- `createResponse`
abbrev pub create_response : Socks5Reply → Bytes
create_response reply = socks5_version ∷ reply_code reply ∷ 0 ∷ 1 ∷ 0 ∷ 0 ∷ 0 ∷ 0 ∷ 0 ∷ 0 ∷ []

-- `methods.includes(m)`
unfoldable pub includes : ℕ → Bytes → Bool
includes m [] = false
includes m (x ∷ xs) = let later = includes m xs in (x == m) || later

abbrev is_enabled : Socks5Auth → Bool
is_enabled disabled = false
is_enabled (enabled required validate) = true

-- `!socks5.auth.enabled || !socks5.auth.required`
abbrev is_optional : Socks5Auth → Bool
is_optional disabled = true
is_optional (enabled required validate) = not required

unfoldable pub choose_method : Socks5Auth → Bytes → ℕ
unfolding includes
choose_method auth methods =
    if is_enabled auth && includes username_password methods
    then username_password
    else if is_optional auth && includes no_authentication_required methods
    then no_authentication_required
    else no_acceptable_methods

-- `socks5.auth.enabled && (await socks5.auth.validate(username, password))`
abbrev pub validated : Socks5Auth → Text → Text → Option Bool
validated disabled username password = some false
validated (enabled required validate) username password = validate username password

unfoldable pub reply_of : ConnectionTunnelErrorReason → Socks5Reply
reply_of ConnectionTunnelErrorReason.not_allowed = Socks5Reply.connection_not_allowed_by_ruleset
reply_of ConnectionTunnelErrorReason.network_unreachable = Socks5Reply.network_unreachable
reply_of ConnectionTunnelErrorReason.host_unreachable = Socks5Reply.host_unreachable
reply_of ConnectionTunnelErrorReason.connection_refused = Socks5Reply.connection_refused
reply_of ConnectionTunnelErrorReason.ttl_expired = Socks5Reply.ttl_expired
reply_of ConnectionTunnelErrorReason.general_failure = Socks5Reply.general_socks_server_failure

-- The handler from `createTunnel` on. A rejected promise counts as `general-failure`.
unfoldable pub tunnel_reply : SocksTunnelResponse → Script
unfolding reply_of
tunnel_reply (SocksTunnelResponse.opened t) =
    send (create_response Socks5Reply.succeeded) (finish (some t))
tunnel_reply (SocksTunnelResponse.refused why) = send (create_response (reply_of why)) (finish none)
tunnel_reply SocksTunnelResponse.rejected =
    send (create_response Socks5Reply.general_socks_server_failure) (finish none)

abbrev pub create_tunnel : SocksDestinationAddress → Script
create_tunnel destination = dial destination tunnel_reply

-- `view.getUint16(0)`
abbrev pub get_uint16 : Bytes → ℕ
get_uint16 b = get_or b 0 0 * 256 + get_or b 1 0

-- The 16-bit parts of an address.
unfoldable pub parts_of : Bytes → List ℕ
parts_of (x ∷ y ∷ rest) = (x * 256 + y) ∷ parts_of rest
parts_of (x ∷ []) = []
parts_of [] = []

unfoldable pub ipv4_host : Bytes → Text
unfolding decimal join
ipv4_host b = join 46 (map decimal b)

unfoldable pub ipv6_host : Bytes → Text
unfolding hexadecimal join parts_of
ipv6_host b = join 58 (map hexadecimal (parts_of b))

-- The port, which ends each form of address.
abbrev read_port : Mode → Text → Script
read_port mode host =
    ask_size request_timeout 2
      (λ b. create_tunnel (record { mode = mode; host = host; port = get_uint16 b }))

unfoldable pub parse_destination : (Bytes → Text) → ℕ → Script
unfolding ipv4_host ipv6_host tunnel_reply
parse_destination decode address_type =
    if address_type == 1
    then ask_size request_timeout 4 (λ b. read_port Mode.ipv4 (ipv4_host b))
    else if address_type == 4
    then ask_size request_timeout 16 (λ b. read_port Mode.ipv6 (ipv6_host b))
    else if address_type == 3
    then ask_size request_timeout 1
        (λ n. ask_size request_timeout (get_or n 0 0) (λ b. read_port Mode.domain (decode b)))
    else send (create_response Socks5Reply.address_type_not_supported) (finish none)

unfoldable pub request : (Bytes → Text) → Script
unfolding parse_destination
request decode = ask_size init_timeout 4 (λ b.
    if not (get_or b 0 0 == socks5_version)
    then finish none
    else if not (get_or b 1 0 == 1)
    then send (create_response Socks5Reply.command_not_supported) (finish none)
    else parse_destination decode (get_or b 3 0))

-- The result of the credentials' validation.
unfoldable pub authenticated : (Bytes → Text) → Option Bool → Script
unfolding request
authenticated decode none = raise
authenticated decode (some true) = send (1 ∷ 0 ∷ []) (request decode)
authenticated decode (some false) = send (1 ∷ 1 ∷ []) (finish none)

unfoldable pub authentication : Socks5Auth → (Bytes → Text) → Script
unfolding authenticated
authentication auth decode = ask_size init_timeout 2 (λ b.
    if not (get_or b 0 0 == 1)
    then finish none
    else ask_size short_timeout (get_or b 1 0) (λ username. ask_size short_timeout 1 (λ n.
      ask_size short_timeout (get_or n 0 0)
        (λ password. authenticated decode (validated auth (decode username) (decode password))))))

-- The handler from the choice of a method on.
unfoldable pub negotiated : Socks5Auth → (Bytes → Text) → ℕ → Script
unfolding authentication request
negotiated auth decode method = send (socks5_version ∷ method ∷ []) (
    if method == no_acceptable_methods
    then finish none
    else if method == username_password
    then authentication auth decode
    else request decode)

-- `handleSocks5`
unfoldable pub handle_socks5 : Socks5Auth → (Bytes → Text) → Script
unfolding choose_method negotiated
handle_socks5 auth decode = ask_size short_timeout 2 (λ b.
    if not (get_or b 0 0 == socks5_version)
    then finish none
    else ask_size short_timeout (get_or b 1 0)
        (λ methods. negotiated auth decode (choose_method auth methods)))
