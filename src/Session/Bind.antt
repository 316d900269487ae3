-- ===== src/Session/Bind.antt =====
-- `case RelayCommand.SERVICE_BIND`.
use web_tether.Common.{
  ℕ, zero, suc, ◌+◌, Bool, true, false, Option, none, some, List, [], ◌∷◌, ◌++◌, if◌then◌else◌, not,
  ◌==◌,
}
use web_tether.Common.Result.{Result, ok, ◌>>=◌, or_throw}
use web_tether.SafeBuffer.{Bytes, SafeReader, uint8, uint16, sized16}
use web_tether.Protocol.{
  RelayCommand, command_code, RelayBindReply, bind_code, RelayServiceType, service_of,
}
use web_tether.Relay.{Text, Relay, RelayService, RelayError, Write, bind, service}
use web_tether.Session.{
  Permission, disabled, enabled, Context, Session, Turn, RelayFailure, done, refuse, reading,
  calling,
}

-- The variables of the loop over the requested services.
pub record Scan : Type 0 where
  pub unavailable : Bool
  pub unauthorized : Bool
  pub invalid : Bool
  pub services : List RelayService

abbrev pub no_services : Scan
no_services = record { unavailable = false; unauthorized = false; invalid = false; services = [] }

-- `if (relay.service(serviceName) != null) { … continue; } services.push(…)`
abbrev pub place_service : Text → RelayServiceType → Scan → Option (Text × RelayServiceType) → Scan
place_service name t acc (some _) = record acc { unavailable = true }
place_service name t acc none = record acc {
  services = acc.services ++ (record { service = name; type = t } ∷ []);
}

-- One round of the loop, once the service has been read: `view` is the relay as it stands when
-- the permission check of this service has been awaited.
unfoldable pub check_service : (Text → Bool) → Relay → ℕ → Text → Scan → Result RelayError Scan
check_service allowed view type name acc = elim (service_of type) [
  | none ↦ ok (record acc { invalid = true })
  | some t ↦
      if not (allowed name)
      then ok (record acc { unauthorized = true })
      else service name view >>= λ found. ok (place_service name t acc found)
]

-- The loop over the services, with `left` rounds to go from index `i`. Other sockets may act while
-- a permission check is awaited, so that each index has a relay of its own.
unfoldable pub scan :
    (Bytes → Text)
    → (Text → Bool)
    → (ℕ → Relay)
    → (left i : ℕ) → SafeReader
    → Scan
    → Result RelayError Scan
scan decode allowed view zero i r acc = ok acc
scan decode allowed view (suc left) i r acc =
    or_throw RelayError.buffer_too_short (uint8 false r) >>= λ (type, r₁).
    or_throw RelayError.buffer_too_short (sized16 r₁) >>= λ (name, r₂).
    check_service allowed (view i) type (decode name) acc >>= λ acc'.
    scan decode allowed view left (i + 1) r₂ acc'

abbrev pub bind_reply : RelayBindReply → Bytes
bind_reply reply = command_code RelayCommand.service_bind ∷ bind_code reply ∷ []

-- The relay that the check of each index finds, in a loop of `count` rounds. Nothing is awaited
-- between the last check and `relay.bind`, so that the last check finds the relay `now`, as it stands
-- when the loop has ended. (For a last service whose type is invalid nothing is awaited, but then
-- the request is refused whatever the other checks have found.)
abbrev pub found_by_checks : ℕ → Relay → (ℕ → Relay) → ℕ → Relay
found_by_checks count now view i = if i + 1 == count then now else view i

-- What follows the loop; `s.relay` is the relay as it stands then.
unfoldable pub finish_bind : Context → Session → Scan → Turn
finish_bind ctx s found =
    if found.invalid
    then refuse ctx s RelayFailure.bind_invalid_service_type
        (bind_reply RelayBindReply.service_invalid_type)
    else if found.unauthorized
    then refuse ctx s RelayFailure.bind_unauthorized_services
        (bind_reply RelayBindReply.unauthorized)
    else if found.unavailable
    then refuse ctx s RelayFailure.bind_already_bound_services
        (bind_reply RelayBindReply.service_already_bound)
    else let ws : List Write = (ctx.socket, bind_reply RelayBindReply.success) ∷ [] in
      calling s ws (bind ctx.socket found.services s.relay) λ r. done (record s { relay = r }) ws

-- From the test of `security.permissions.bind.enabled` on.
unfoldable pub bind_with : Context → (ℕ → Relay) → SafeReader → Session → Permission → Turn
bind_with ctx view r s disabled =
    refuse ctx s RelayFailure.bind_unauthorized (bind_reply RelayBindReply.unauthorized)
bind_with ctx view r s (enabled allowed) =
    if s.service_bound
    then refuse ctx s RelayFailure.bind_already_bound_socket
        (bind_reply RelayBindReply.socket_already_bound)
    else let s' = record s { service_bound = true } in
      reading s' (uint16 false r) λ count r₁.
        calling s' []
          (scan ctx.decode allowed (found_by_checks count s.relay view) count 0 r₁ no_services)
          (finish_bind ctx s')

unfoldable pub handle_bind : Context → (ℕ → Relay) → SafeReader → Session → Turn
unfolding bind_with
handle_bind ctx view r s = bind_with ctx view r s ctx.bind
