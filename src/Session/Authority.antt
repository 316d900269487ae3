-- ===== src/Session/Authority.antt =====
-- A packet binds no service and opens no connection that the client's permissions do not allow.
use web_tether.Common.{ℕ, ◌≡◌, sym, refl, subst, inl, inr, true, [], Option-cases, Bool-cases, All}
use web_tether.Common.Dict.{text_eq, nat_eq}
use web_tether.SafeBuffer.{Bytes, SafeReader}
use web_tether.Protocol.{RelayCommand, command_of}
use web_tether.Relay.{Relay}
use web_tether.Session.{Context, Session, Turn, Permission, disabled, enabled}
use web_tether.Session.Bind.{no_services, found_by_checks, bind_with, handle_bind}
use web_tether.Session.Commands.{handle_packet, handle_command}
use web_tether.Session.BindLaws.{scan-Yields}
use web_tether.Session.Grants.{
  Allows, Grants, Grants-refl, Keeps, reading-Keeps, calling-Keeps, refuse-Keeps, done-Keeps,
  handle_link-Keeps, handle_stream-Keeps, handle_closed-Keeps, handle_connect-Keeps,
  finish_bind-Keeps,
}

-- The session once `serviceBound` is set has the same relay.
Keeps-first :
    (ctx : Context) (s : Session) (t : Turn)
    → Keeps ctx (record s { service_bound = true }) t
    → Keeps ctx s t
Keeps-first ctx s t h = record { grants = h.grants }

bind_with-Keeps :
    (ctx : Context) (s : Session) (view : ℕ → Relay) (r : SafeReader) (p : Permission)
    → ctx.bind ≡ p
    → Keeps ctx s (bind_with ctx view r s p)
unfolding bind_with
bind_with-Keeps ctx s view r disabled e = refuse-Keeps ctx s _ _
bind_with-Keeps ctx s view r (enabled allowed) e = elim (Bool-cases s.service_bound) [
  | inl again ↦ simp again (refuse-Keeps ctx s _ _)
  | inr first ↦
      let s' : Session = record s { service_bound = true } in
      simp first (
        Keeps-first ctx s _ (
          reading-Keeps ctx s' _ _ λ count r₁. calling-Keeps ctx s' _ _ _ λ found h.
            finish_bind-Keeps ctx s' found (
              subst (λ p. All (λ x. Allows p x.service) found.services) (sym e)
                (scan-Yields ctx.decode allowed (found_by_checks count s.relay view) count 0 r₁
                  no_services tt found h))))
]

handle_command-Keeps :
    (ctx : Context) (s : Session) (view : ℕ → Relay) (r : SafeReader) (c : RelayCommand)
    → Keeps ctx s (handle_command ctx view r s c)
unfolding handle_command handle_bind
handle_command-Keeps ctx s view r RelayCommand.socket_close = record {
  grants = Grants-refl ctx s.relay;
}
handle_command-Keeps ctx s view r RelayCommand.service_bind =
    bind_with-Keeps ctx s view r ctx.bind refl
handle_command-Keeps ctx s view r RelayCommand.service_connect = handle_connect-Keeps ctx s r
handle_command-Keeps ctx s view r RelayCommand.service_link = handle_link-Keeps ctx s r
handle_command-Keeps ctx s view r RelayCommand.service_stream = handle_stream-Keeps ctx s r
handle_command-Keeps ctx s view r RelayCommand.service_closed = handle_closed-Keeps ctx s r
handle_command-Keeps ctx s view r RelayCommand.unsupported =
    reading-Keeps ctx s _ _ λ n r'. done-Keeps ctx s []

handle_packet-Keeps :
    (ctx : Context) (s : Session) (view : ℕ → Relay) (packet : Bytes)
    → Keeps ctx s (handle_packet ctx view packet s)
unfolding handle_packet
handle_packet-Keeps ctx s view packet = reading-Keeps ctx s _ _ λ command r.
    elim (Option-cases (command_of command)) [
      | inl unknown ↦ rw unknown (refuse-Keeps ctx s _ _)
      | inr (c, member) ↦ rw member (handle_command-Keeps ctx s view r c)
    ]

-- Whatever bytes a client sends, and whatever relays its permission checks find: a service that is bound after its turn was bound before, or is
-- bound to the client's own socket under a name that the client may bind; and a connection that the
-- relay has after its turn was there before, or leads from the client's own socket to the socket of
-- a bound service that the client may connect to.
pub handle_packet-Grants :
    (ctx : Context) (s : Session) (view : ℕ → Relay) (packet : Bytes)
    → Grants ctx s.relay (handle_packet ctx view packet s).session.relay
handle_packet-Grants ctx s view packet = (handle_packet-Keeps ctx s view packet).grants
