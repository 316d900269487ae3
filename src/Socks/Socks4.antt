-- ===== src/Socks/Socks4.antt =====
-- src/proxy/socks4.handler.ts: the handler of a SOCKS4 or SOCKS4a handshake. `TextDecoder` is the
-- parameter `decode`; `socks4.auth.validate` is part of the configuration, and `none` when its
-- promise is rejected.
use web_tether.Common.{
  ℕ, ◌+◌, ◌-◌, ◌*◌, Bool, not, ◌&&◌, Option, none, some, [], ◌∷◌, ◌++◌, map, ◌==◌, if◌then◌else◌,
  get_or, length, take, drop, list_beq,
}
use web_tether.SafeBuffer.{Bytes}
use web_tether.Socks.{
  Mode, SocksDestinationAddress, SocksTunnelResponse, Script, finish, raise, send, dial,
  short_timeout, ask_size, ask_until,
}
use web_tether.Socks.Text.{Text, decimal, join}

-- What `socks4.auth.validate` answers: a match, or a reason.
pub data UserValidation : Type 0 where
  valid no_provider no_match : UserValidation

pub data Socks4Auth : Type 0 where
  disabled : Socks4Auth
  enabled : (validate : Text → Option UserValidation) → Socks4Auth

pub data Socks4Reply : Type 0 where
  success failure user_rejected_no_provider user_rejected_no_match : Socks4Reply

abbrev pub reply_code : Socks4Reply → ℕ
reply_code Socks4Reply.success = 90
reply_code Socks4Reply.failure = 91
reply_code Socks4Reply.user_rejected_no_provider = 92
reply_code Socks4Reply.user_rejected_no_match = 93

abbrev pub create_response : Socks4Reply → Bytes
create_response reply = 0 ∷ reply_code reply ∷ 0 ∷ 0 ∷ 0 ∷ 0 ∷ 0 ∷ 0 ∷ []

-- A reply, and the end without a tunnel.
abbrev reply_with : Socks4Reply → Script
reply_with reply = send (create_response reply) (finish none)

-- The handler from `options.tunnel` on, whose rejection nothing catches.
unfoldable pub tunnel_reply : SocksTunnelResponse → Script
tunnel_reply (SocksTunnelResponse.opened t) =
    send (create_response Socks4Reply.success) (finish (some t))
tunnel_reply (SocksTunnelResponse.refused why) = reply_with Socks4Reply.failure
tunnel_reply SocksTunnelResponse.rejected = raise

abbrev create_tunnel : SocksDestinationAddress → Script
create_tunnel destination = dial destination tunnel_reply

-- `host.startsWith("0.0.0.")`
abbrev zero_prefix : Text
zero_prefix = 48 ∷ 46 ∷ 48 ∷ 46 ∷ 48 ∷ 46 ∷ []

-- `host.startsWith("0.0.0.") && host !== "0.0.0.0"`
unfoldable pub is_socks4a : Text → Bool
is_socks4a host =
    list_beq (take 6 host) zero_prefix && not (list_beq host (zero_prefix ++ (48 ∷ [])))

-- `b.subarray(0, b.length - 1)`, which drops the terminating zero.
abbrev pub without_last : Bytes → Bytes
without_last b = take (length b - 1) b

unfoldable pub parse_destination : (Bytes → Text) → Text → ℕ → Script
unfolding is_socks4a tunnel_reply
parse_destination decode host port =
    if is_socks4a host
    then ask_until short_timeout 0 (λ b.
      create_tunnel (record { mode = Mode.domain; host = decode (without_last b); port = port }))
    else create_tunnel (record { mode = Mode.ipv4; host = host; port = port })

-- What follows the answer of `validate`.
unfoldable pub judged : Option UserValidation → Script → Script
judged none next = raise
judged (some UserValidation.no_provider) next = reply_with Socks4Reply.user_rejected_no_provider
judged (some UserValidation.no_match) next = reply_with Socks4Reply.user_rejected_no_match
judged (some UserValidation.valid) next = next

unfoldable pub authenticate : Socks4Auth → Text → Script → Script
unfolding judged
authenticate disabled user next = next
authenticate (enabled validate) user next = judged (validate user) next

-- `handleSocks4`, once `socks4.enabled` holds.
unfoldable pub handle_socks4 : Socks4Auth → (Bytes → Text) → Script
unfolding parse_destination authenticate decimal join
handle_socks4 auth decode = ask_size short_timeout 8 (λ b.
    if not (get_or b 0 0 == 4)
    then finish none
    else if not (get_or b 1 0 == 1)
    then reply_with Socks4Reply.failure
    else ask_until short_timeout 0 (λ user. authenticate auth (decode (without_last user)) (
        parse_destination decode (join 46 (map decimal (drop 4 b)))
          (get_or b 2 0 * 256 + get_or b 3 0))))
