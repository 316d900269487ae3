-- ===== src/Session/Connect.antt =====
-- `case RelayCommand.SERVICE_CONNECT`.
use web_tether.Common.{Bool, true, false, Option, none, some, [], ◌∷◌, ◌++◌, if◌then◌else◌, not}
use web_tether.Common.Int.{ℤ, is_positive}
use web_tether.SafeBuffer.{Bytes, SafeReader, uint8, int32, sized16, data_of, data_left}
use web_tether.Protocol.{
  RelayCommand, command_code, RelayConnectReply, connect_code, RelayServiceType, service_of,
  service_beq,
}
use web_tether.Relay.{Text, connection, service, link}
use web_tether.Session.{
  Permission, disabled, enabled, Context, Session, Turn, RelayFailure, done, refuse, reading,
  calling,
}

abbrev pub connect_reply : Bytes → RelayConnectReply → Bytes
connect_reply encoded reply =
    command_code RelayCommand.service_connect ∷ (encoded ++ (connect_code reply ∷ []))

abbrev pub is_some : {A : Type 0} → Option A → Bool
is_some none = false
is_some (some _) = true

-- From `relay.service(serviceName)` on.
unfoldable pub connect_found :
    Context → Bytes → ℤ → RelayServiceType → Text → SafeReader → Session → Turn
connect_found ctx encoded uid type name r s = calling s [] (service name s.relay) λ found.
    elim found [
      | none ↦
          refuse ctx s RelayFailure.connect_service_not_found
            (connect_reply encoded RelayConnectReply.service_not_found)
      | some (remote, kind) ↦
          if not (service_beq kind type)
          then refuse ctx s RelayFailure.connect_non_matching_service_type
              (connect_reply encoded RelayConnectReply.service_invalid_type)
          else calling s [] (link ctx.encode ctx.socket name uid (data_left false r).0 s.relay)
              λ (relay, w). done (record s { relay = relay }) (w ∷ [])
    ]

-- From `buffer.uint8()`, the service type, on.
unfoldable pub connect_service : Context → (Text → Bool) → Bytes → ℤ → SafeReader → Session → Turn
unfolding connect_found
connect_service ctx allowed encoded uid r s = reading s (uint8 false r) λ type r₁.
    elim (service_of type) [
      | none ↦
          refuse ctx s RelayFailure.connect_invalid_service_type
            (connect_reply encoded RelayConnectReply.service_invalid_type)
      | some t ↦ reading s (sized16 r₁) λ name r₂.
          if not (allowed (ctx.decode name))
          then refuse ctx s RelayFailure.connect_unauthorized_service
              (connect_reply encoded RelayConnectReply.service_unauthorized)
          else connect_found ctx encoded uid t (ctx.decode name) r₂ s
    ]

-- From the test of `security.permissions.connect.enabled` on.
unfoldable pub connect_with : Context → Bytes → ℤ → SafeReader → Session → Permission → Turn
connect_with ctx encoded uid r s disabled =
    refuse ctx s RelayFailure.connect_unauthorized
      (connect_reply encoded RelayConnectReply.service_unauthorized)
connect_with ctx encoded uid r s (enabled allowed) =
    let invalid =
      refuse ctx s RelayFailure.connect_invalid_uid
        (connect_reply encoded RelayConnectReply.service_invalid_identifier) in
    if not (is_positive uid)
    then invalid
    else calling s [] (connection ctx.socket uid s.relay)
        λ used. if is_some used then invalid else connect_service ctx allowed encoded uid r s

unfoldable pub handle_connect : Context → SafeReader → Session → Turn
unfolding connect_with
handle_connect ctx r s =
    reading s (data_of 4 true r)
      λ encoded _. reading s (int32 false r) λ uid r₁. connect_with ctx encoded uid r₁ s ctx.connect
