-- ===== src/Socks/Admission.antt =====
-- src/proxy/socks.server.ts: `handleSocksConnection` with authentication, whatever the client sends and
-- however the network cuts it.
use web_tether.Common.{
  ℕ, ◌≡◌, ◌≢◌, refl, sym, ◌∙◌, ◌⊎◌, inl, inr, Bool, true, Option, none, some, List, [], ◌==◌,
  Bool-cases,
}
use web_tether.SafeBuffer.{Bytes}
use web_tether.Socks.{Tunnel, Ending, run}
use web_tether.Socks.Chunks.{flatten, chunks, run-chunks}
use web_tether.Socks.Gate.{IsSilent, SilentOr, at_finish, at_peek}
use web_tether.Socks.Text.{Text}
use web_tether.Socks.Socks5.{Socks5Auth}
use web_tether.Socks.Socks4.{Socks4Auth, UserValidation}
use web_tether.Socks.Socks5Laws.{IsLogin, LoginGuarded, handle_socks5-Guarded}
use web_tether.Socks.Socks4Laws.{IsUser, UserGuarded, handle_socks4-Guarded}
use web_tether.Socks.Protocol.{Options, handle_protocol, handle_socks_connection, piping, Piping}

piping-tunnelled :
    (how : Ending) (buffer : Bytes) (p : Piping)
    → piping how buffer ≡ some p
    → (t : ℕ) × (how ≡ Ending.tunnelled (some t))
unfolding piping
piping-tunnelled (Ending.tunnelled (some t)) buffer p e = (t, refl)
piping-tunnelled (Ending.tunnelled none) buffer p e = absurd (cc)
piping-tunnelled Ending.end_of_stream buffer p e = absurd (cc)
piping-tunnelled Ending.thrown buffer p e = absurd (cc)

-- Both protocols, with validation.
abbrev pub validating : (Text → Option UserValidation) → (Text → Text → Option Bool) → Options
validating user login = record {
  socks4 = some (Socks4Auth.enabled user);
  socks5 = some (Socks5Auth.enabled true login);
}

module _ (user : Text → Option UserValidation) (login : Text → Text → Option Bool)
    (decode : Bytes → Text) (tunnel : Tunnel) where
  abbrev pub Admitted : Bytes → Type 0
  Admitted stream = IsLogin login decode stream ⊎ IsUser user decode stream

  handle_protocol-Guarded :
      (stream : Bytes)
      → SilentOr tunnel (Admitted stream) (handle_protocol (validating user login) decode) stream
  unfolding handle_protocol UserGuarded LoginGuarded
  handle_protocol-Guarded stream = at_peek tunnel _ _ _ stream (λ x. elim (Bool-cases (x == 4)) [
    | inl v ↦ rw v (elim (handle_socks4-Guarded user decode tunnel stream) [
      | inl h ↦ inl h
      | inr a ↦ inr (inr a)
    ])
    | inr v ↦ elim (Bool-cases (x == 5)) [
      | inl w ↦
          rw (v, w)
            (elim (handle_socks5-Guarded login decode tunnel stream) [
              | inl h ↦ inl h
              | inr a ↦ inr (inl a)
            ])
      | inr w ↦ rw (v, w) (at_finish tunnel _ stream)
    ]
  ])

  -- However the bytes of `stream` arrive, nothing is dialled and no tunnel comes of it unless the
  -- stream is admitted.
  run-handle_protocol :
      (cs : List Bytes)
      → IsSilent (run tunnel (handle_protocol (validating user login) decode) [] (chunks cs))
        ⊎ Admitted (flatten cs)
  run-handle_protocol cs =
      let (s, d, e, r) = run-chunks tunnel (handle_protocol (validating user login) decode) [] cs in
      elim (handle_protocol-Guarded (flatten cs)) [
        | inl h ↦ inl (record {
          dials_nothing = d ∙ h.dials_nothing;
          yields_nothing = λ t f. h.yields_nothing t (sym e ∙ f);
        })
        | inr a ↦ inr a
      ]

  -- On a server that validates both protocols, for whatever bytes come in whatever chunks: when the
  -- handshake dials a destination, the bytes begin with a SOCKS5 greeting that offers the password and
  -- with credentials that the validation accepts, or with a SOCKS4 connect request whose user
  -- identifier the validation accepts.
  pub dials-Admitted :
      (cs : List Bytes)
      → (run tunnel (handle_protocol (validating user login) decode) [] (chunks cs)).dialled ≢ []
      → Admitted (flatten cs)
  dials-Admitted cs dials = elim (run-handle_protocol cs) [
    | inl h ↦ absurd (dials h.dials_nothing)
    | inr a ↦ a
  ]

  -- On a server that validates both protocols, for whatever bytes come in whatever chunks: when
  -- `handleSocksConnection` pipes a tunnel, the bytes begin with a SOCKS5 greeting that offers the
  -- password and with credentials that the validation accepts, or with a SOCKS4 connect request whose
  -- user identifier the validation accepts.
  pub handle_socks_connection-Admitted :
      (cs : List Bytes) (p : Piping)
      → handle_socks_connection (validating user login) decode tunnel (chunks cs) ≡ some p
      → Admitted (flatten cs)
  unfolding handle_socks_connection
  handle_socks_connection-Admitted cs p piped = elim (run-handle_protocol cs) [
    | inl h ↦ let (t, e) = piping-tunnelled _ _ p piped in absurd (h.yields_nothing t e)
    | inr a ↦ a
  ]
