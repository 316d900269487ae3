-- ===== src/Protocol.antt =====
-- The numbers of the wire protocol: the enums of src/tunnel/server/tunnel.relay.ts and
-- src/tunnel/common/tunnel.const.ts. `code` is the number of a member, `of_code` the member with a
-- number, if there is one (what `n in Enum` and a `switch` over the enum ask).
use web_tether.Common.{ℕ, ◌≡◌, refl, Bool, true, false, Option, none, some, ◌==◌, if◌then◌else◌}

-- `RelayVersion7`
abbrev pub relay_version7 : ℕ
relay_version7 = 0x07

pub data RelayAuthentication : Type 0 where
  basic_auth advanced_auth authorized unauthorized unsupported_auth : RelayAuthentication

abbrev pub auth_code : RelayAuthentication → ℕ
auth_code basic_auth = 0x01
auth_code advanced_auth = 0x02
auth_code authorized = 0xf0
auth_code unauthorized = 0xf1
auth_code unsupported_auth = 0xff

pub data RelayBindReply : Type 0 where
  success socket_already_bound service_already_bound service_invalid_type unauthorized :
      RelayBindReply

abbrev pub bind_code : RelayBindReply → ℕ
bind_code RelayBindReply.success = 0x01
bind_code RelayBindReply.socket_already_bound = 0x30
bind_code RelayBindReply.service_already_bound = 0x31
bind_code RelayBindReply.service_invalid_type = 0x32
bind_code RelayBindReply.unauthorized = 0xfe

pub data RelayConnectReply : Type 0 where
  success general_failure not_allowed network_unreachable host_unreachable : RelayConnectReply
  connection_refused ttl_expired : RelayConnectReply
  service_invalid_type service_not_found service_invalid_identifier : RelayConnectReply
  service_unauthorized : RelayConnectReply

abbrev pub connect_code : RelayConnectReply → ℕ
connect_code RelayConnectReply.success = 0x00
connect_code RelayConnectReply.general_failure = 0x10
connect_code RelayConnectReply.not_allowed = 0x11
connect_code RelayConnectReply.network_unreachable = 0x12
connect_code RelayConnectReply.host_unreachable = 0x13
connect_code RelayConnectReply.connection_refused = 0x14
connect_code RelayConnectReply.ttl_expired = 0x15
connect_code RelayConnectReply.service_invalid_type = 0x32
connect_code RelayConnectReply.service_not_found = 0x33
connect_code RelayConnectReply.service_invalid_identifier = 0x34
connect_code RelayConnectReply.service_unauthorized = 0xfe

pub data RelayLinkReply : Type 0 where
  success general_failure not_allowed network_unreachable host_unreachable : RelayLinkReply
  connection_refused ttl_expired service_not_found service_invalid_identifier : RelayLinkReply

abbrev pub link_code : RelayLinkReply → ℕ
link_code RelayLinkReply.success = 0x00
link_code RelayLinkReply.general_failure = 0x10
link_code RelayLinkReply.not_allowed = 0x11
link_code RelayLinkReply.network_unreachable = 0x12
link_code RelayLinkReply.host_unreachable = 0x13
link_code RelayLinkReply.connection_refused = 0x14
link_code RelayLinkReply.ttl_expired = 0x15
link_code RelayLinkReply.service_not_found = 0x33
link_code RelayLinkReply.service_invalid_identifier = 0x34

pub data RelayCommand : Type 0 where
  socket_close service_bind service_connect service_stream service_link : RelayCommand
  service_closed unsupported : RelayCommand

abbrev pub command_code : RelayCommand → ℕ
command_code socket_close = 0x00
command_code service_bind = 0x10
command_code service_connect = 0x11
command_code service_stream = 0x12
command_code service_link = 0x13
command_code service_closed = 0x14
command_code unsupported = 0xff

-- The `case` of `switch (command)` that is taken; `none` is `default`.
abbrev pub command_of : ℕ → Option RelayCommand
command_of n =
    if n == 0x00
    then some socket_close
    else if n == 0x10
    then some service_bind
    else if n == 0x11
    then some service_connect
    else if n == 0x13
    then some service_link
    else if n == 0x12
    then some service_stream
    else if n == 0x14
    then some service_closed
    else if n == 0xff
    then some unsupported
    else none

pub data RelayServiceType : Type 0 where
  raw_socket socks_proxy : RelayServiceType

abbrev pub service_code : RelayServiceType → ℕ
service_code raw_socket = 0x00
service_code socks_proxy = 0x01

-- `serviceType in RelayServiceType`, with the member.
abbrev pub service_of : ℕ → Option RelayServiceType
service_of n = if n == 0x00 then some raw_socket else if n == 0x01 then some socks_proxy else none

-- `a === b` of two service types.
abbrev pub service_beq : RelayServiceType → RelayServiceType → Bool
service_beq raw_socket raw_socket = true
service_beq raw_socket socks_proxy = false
service_beq socks_proxy raw_socket = false
service_beq socks_proxy socks_proxy = true

pub data RelayServiceConnectionReason : Type 0 where
  transport_socket_eos transport_socket_interrupted : RelayServiceConnectionReason
  transport_socket_closed transport_forward_failed : RelayServiceConnectionReason
  transport_socket_start_failed connection_gone unknown : RelayServiceConnectionReason

abbrev pub reason_code : RelayServiceConnectionReason → ℕ
reason_code transport_socket_eos = 0x00
reason_code transport_socket_interrupted = 0x02
reason_code transport_socket_closed = 0x03
reason_code transport_forward_failed = 0x04
reason_code transport_socket_start_failed = 0x05
reason_code connection_gone = 0xfe
reason_code unknown = 0xff

-- Every command and every service type is found under its own number.
pub command_of-command_code : (c : RelayCommand) → command_of (command_code c) ≡ some c
command_of-command_code socket_close = refl
command_of-command_code _ = refl

pub service_of-service_code : (t : RelayServiceType) → service_of (service_code t) ≡ some t
service_of-service_code raw_socket = refl
service_of-service_code _ = refl
