-- ===== src/Session/Grants.antt =====
-- What a turn may add to the relay, and that the single commands keep within it.
use web_tether.Common.{
  ℕ, ◌≡◌, ◌≢◌, ◌⊎◌, ◌∙◌, sym, ap, refl, subst, inl, inr, Bool, true, not, Option, none, some, List,
  arith, Option-cases, Bool-cases, All,
}
use web_tether.Common.Int.{ℤ, is_positive}
use web_tether.Common.Dict.{get, text_eq, nat_eq}
use web_tether.Common.Result.{Result, ok, err}
use web_tether.SafeBuffer.{Bytes, SafeReader}
use web_tether.Protocol.{RelayServiceType, service_of, service_beq}
use web_tether.Relay.{
  Text, Relay, RelayService, RelayServiceConnection, RelayError, Write, BoundService,
  RegisteredSocket, link_with, connection_at, bind, link, close,
}
use web_tether.Relay.Ends.{counter_of, connection_at-close, bound_services-close}
use web_tether.Relay.Links.{linked, connection_at-link_with, bound_services-link_with}
use web_tether.Relay.Invariant.Bind.{bind_sound, connection_at-bind}
use web_tether.Relay.Steps.{link-Linked}
use web_tether.Session.{
  Context, Session, Turn, Permission, disabled, enabled, done, refuse, reading, calling,
  RelayFailure,
}
use web_tether.Session.Bind.{Scan, finish_bind}
use web_tether.Session.Connect.{handle_connect, connect_with, connect_service, connect_found}
use web_tether.Session.Commands.{handle_link, handle_stream, handle_closed}

-- Permission to bind, or to connect to, a service by its name.
abbrev pub Allows : Permission → Text → Type 0
Allows disabled name = ⊥
Allows (enabled allowed) name = allowed name ≡ true

-- What a turn may add to the relay: services that the client may bind, bound to its own socket, and
-- connections from its own socket to the socket of a bound service that it may connect to.
pub record Grants (ctx : Context) (r r' : Relay) : Type 0 where
  pub binds :
      (n : Text) (b : BoundService)
      → get n r'.bound_services ≡ some b
      → (get n r.bound_services ≡ some b) ⊎ ((b.socket ≡ ctx.socket) × Allows ctx.bind n)
  pub connects :
      (s : ℕ) (u : ℤ) (c : RelayServiceConnection)
      → connection_at s u r' ≡ some c
      → (connection_at s u r ≡ some c)
        ⊎ ((c.client.socket ≡ ctx.socket)
            × ((name : Text) × (b : BoundService) × (get name r.bound_services ≡ some b)
                × (b.socket ≡ c.server.socket)
                × Allows ctx.connect name))

pub Grants-refl : (ctx : Context) (r : Relay) → Grants ctx r r
Grants-refl ctx r = record { binds = λ n b h. inl h; connects = λ s u c h. inl h }

-- A turn that keeps within the permissions.
pub record Keeps (ctx : Context) (s : Session) (t : Turn) : Type 0 where
  pub grants : Grants ctx s.relay t.session.relay

module _ (ctx : Context) (s : Session) where
  pub reading-Keeps :
      {A : Type 0} (o : Option (A × SafeReader)) (k : A → SafeReader → Turn)
      → ((a : A) (r : SafeReader) → Keeps ctx s (k a r))
      → Keeps ctx s (reading s o k)
  unfolding reading
  reading-Keeps none k h = record { grants = Grants-refl ctx s.relay }
  reading-Keeps (some (a, r)) k h = h a r

  pub calling-Keeps :
      {A : Type 0} (ws : List Write) (m : Result RelayError A) (k : A → Turn)
      → ((a : A) → m ≡ ok a → Keeps ctx s (k a))
      → Keeps ctx s (calling s ws m k)
  unfolding calling
  calling-Keeps ws (err e) k h = record { grants = Grants-refl ctx s.relay }
  calling-Keeps ws (ok a) k h = h a refl

  pub refuse-Keeps : (f : RelayFailure) (packet : Bytes) → Keeps ctx s (refuse ctx s f packet)
  unfolding refuse
  refuse-Keeps f packet = record { grants = Grants-refl ctx s.relay }

  pub done-Keeps : (ws : List Write) → Keeps ctx s (done s ws)
  done-Keeps ws = record { grants = Grants-refl ctx s.relay }

  close-Grants :
      (c : RelayServiceConnection) (reason : ℕ)
      → Grants ctx s.relay (close c ctx.socket reason s.relay).0
  close-Grants c reason = record {
    binds = λ n b h. inl (ap (get n) (sym (bound_services-close c ctx.socket reason s.relay)) ∙ h);
    connects = λ t u d h. inl (ground (arith, connection_at-close c ctx.socket reason t u s.relay));
  }

  link_origin :
      (name : Text) (uid : ℤ) (metadata : Bytes) (t : ℕ) (x : RegisteredSocket)
      → get t s.relay.registered_sockets ≡ some x
      → counter_of ctx.socket s.relay ≢ none
      → (q : ℕ) (u : ℤ) (c : RelayServiceConnection)
      → connection_at q u (link_with ctx.encode ctx.socket name uid metadata t x s.relay).0 ≡ some c
      → (connection_at q u s.relay ≡ some c) ⊎ (c ≡ linked ctx.socket uid t x)
  link_origin name uid metadata t x known client q u c h = ground (
    arith,
    connection_at-link_with ctx.encode ctx.socket name uid metadata t x s.relay known client q u,
  )

  link-Grants :
      (name : Text) (uid : ℤ) (metadata : Bytes) (result : Relay × Write)
      → Allows ctx.connect name
      → link ctx.encode ctx.socket name uid metadata s.relay ≡ ok result
      → Grants ctx s.relay result.0
  link-Grants name uid metadata result allowed h =
      let parts = link-Linked ctx.encode ctx.socket name uid metadata s.relay result h in
      let b = parts.bound in
      subst (λ q. Grants ctx s.relay q) (ap (λ p. p.0) parts.same)
        (record {
          binds = λ n d g. inl (
              ap (get n) (
                sym (
                  bound_services-link_with ctx.encode ctx.socket name uid metadata b.socket
                    parts.server s.relay))
              ∙ g);
          connects = λ t u c g.
              elim (link_origin name uid metadata b.socket parts.server parts.known parts.client t u
                c g) [
                  | inl old ↦ inl old
                  | inr new ↦ inr (
                    ap (λ k. k.client.socket) new,
                    (name, b, parts.found, ap (λ k. k.server.socket) (sym new), allowed),
                  )
                ];
        })

  pub handle_link-Keeps : (r : SafeReader) → Keeps ctx s (handle_link ctx r s)
  unfolding handle_link
  handle_link-Keeps r = reading-Keeps _ _ λ encoded _. reading-Keeps _ _ λ uid r₁.
      reading-Keeps _ _ λ reply _.
        calling-Keeps _ _ _ (elim [ none ↦ λ e. done-Keeps _ | some c ↦ λ e. done-Keeps _ ])

  pub handle_stream-Keeps : (r : SafeReader) → Keeps ctx s (handle_stream ctx r s)
  unfolding handle_stream
  handle_stream-Keeps r = reading-Keeps _ _ λ encoded _.
      reading-Keeps _ _ λ uid r₁.
        calling-Keeps _ _ _ (elim [ none ↦ λ e. done-Keeps _ | some c ↦ λ e. done-Keeps _ ])

  pub handle_closed-Keeps : (r : SafeReader) → Keeps ctx s (handle_closed ctx r s)
  unfolding handle_closed
  handle_closed-Keeps r = reading-Keeps _ _ λ uid r₁. reading-Keeps _ _ λ reason _.
      calling-Keeps _ _ _ (elim [
        | none ↦ λ e. done-Keeps _
        | some c ↦ λ e. record { grants = close-Grants c reason }
      ])

  connect_found-Keeps :
      (encoded : Bytes) (uid : ℤ) (t : RelayServiceType) (name : Text) (r : SafeReader)
      → Allows ctx.connect name
      → Keeps ctx s (connect_found ctx encoded uid t name r s)
  unfolding connect_found
  connect_found-Keeps encoded uid t name r allowed = calling-Keeps _ _ _ (elim [
    | none ↦ λ e. refuse-Keeps _ _
    | some (remote, kind) ↦ λ e. elim (Bool-cases (not (service_beq kind t))) [
      | inl differ ↦ rw differ (refuse-Keeps _ _)
      | inr same ↦ rw same (
          calling-Keeps _ _ _
            λ result h. record { grants = link-Grants name uid _ result allowed h })
    ]
  ])

  connect_service-Keeps :
      (allowed : Text → Bool) (encoded : Bytes) (uid : ℤ) (r : SafeReader)
      → ctx.connect ≡ enabled allowed
      → Keeps ctx s (connect_service ctx allowed encoded uid r s)
  unfolding connect_service
  connect_service-Keeps allowed encoded uid r permission = reading-Keeps _ _ λ type r₁.
      elim (Option-cases (service_of type)) [
        | inl unknown ↦ rw unknown (refuse-Keeps _ _)
        | inr (t, member) ↦ rw member (
            reading-Keeps _ _ λ name r₂. elim (Bool-cases (allowed (ctx.decode name))) [
              | inr refused ↦ rw refused (refuse-Keeps _ _)
              | inl fine ↦ rw fine (
                  connect_found-Keeps encoded uid t (ctx.decode name) r₂
                    (subst (λ p. Allows p (ctx.decode name)) (sym permission) fine))
            ])
      ]

  connect_with-Keeps :
      (encoded : Bytes) (uid : ℤ) (r : SafeReader) (p : Permission)
      → ctx.connect ≡ p
      → Keeps ctx s (connect_with ctx encoded uid r s p)
  unfolding connect_with
  connect_with-Keeps encoded uid r disabled e = refuse-Keeps _ _
  connect_with-Keeps encoded uid r (enabled allowed) e = elim (Bool-cases (not (is_positive uid))) [
    | inl bad ↦ rw bad (refuse-Keeps _ _)
    | inr positive ↦ rw positive (
        calling-Keeps _ _ _ (elim [
          | none ↦ λ unused. connect_service-Keeps allowed encoded uid r e
          | some c ↦ λ used. refuse-Keeps _ _
        ]))
  ]

  pub handle_connect-Keeps : (r : SafeReader) → Keeps ctx s (handle_connect ctx r s)
  unfolding handle_connect
  handle_connect-Keeps r =
      reading-Keeps _ _
        λ encoded _. reading-Keeps _ _ λ uid r₁. connect_with-Keeps encoded uid r₁ ctx.connect refl

  bind-Grants :
      (services : List RelayService) (r : Relay)
      → All (λ x. Allows ctx.bind x.service) services
      → bind ctx.socket services s.relay ≡ ok r
      → Grants ctx s.relay r
  bind-Grants services r permitted h = record {
    binds = λ n b g.
        elim (bind_sound ctx.socket services s.relay r h (Allows ctx.bind) n b permitted g) [
          | inl new ↦ inr new
          | inr old ↦ inl old
        ];
    connects = λ t u c g. inl (sym (connection_at-bind ctx.socket services s.relay r h t u) ∙ g);
  }

  pub finish_bind-Keeps :
      (found : Scan)
      → All (λ x. Allows ctx.bind x.service) found.services
      → Keeps ctx s (finish_bind ctx s found)
  unfolding finish_bind
  finish_bind-Keeps found permitted = elim (Bool-cases found.invalid) [
    | inl yes₁ ↦ rw (yes₁, finish_bind) (refuse-Keeps _ _)
    | inr no₁ ↦
        rw (no₁, finish_bind)
          (elim (Bool-cases found.unauthorized) [
            | inl yes₂ ↦ rw yes₂ (refuse-Keeps _ _)
            | inr no₂ ↦ rw no₂ (elim (Bool-cases found.unavailable) [
              | inl yes₃ ↦ rw yes₃ (refuse-Keeps _ _)
              | inr no₃ ↦ rw no₃ (
                  calling-Keeps _ _ _
                    λ r h. record { grants = bind-Grants found.services r permitted h })
            ])
          ])
  ]
