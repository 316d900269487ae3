-- ===== src/Relay/Invariant/Disconnect.antt =====
-- `disconnected`: the socket leaves no trace in the relay's tables, and nothing else is lost.
use web_tether.Common.{
  ℕ, ◌≡◌, ◌≢◌, ◌∙◌, refl, sym, ap, inl, inr, true, none, some, arith, Option-cases, ◌==◌,
  if◌then◌else◌,
}
use web_tether.Common.Int.{ℤ}
use web_tether.Common.Dict.{
  get, keys_where, delete_all, contains, get-delete, get-delete_all, contains-keys_where,
  contains-keys_where-false, delete_all-IsDistinct, text_eq, nat_eq, int_eq,
}
use web_tether.Protocol.{RelayServiceConnectionReason, reason_code}
use web_tether.Relay.{
  Text, Relay, BoundService, RelayServiceConnection, connection_at, close_each, disconnected,
  uids_of,
}
use web_tether.Relay.Ends.{counter_of, at_end_sound}
use web_tether.Relay.Invariant.{IsConsistent}
use web_tether.Relay.Invariant.Closing.{Closes, close_each-Closes}

-- Every connection of the socket is among those that `disconnected` visits.
visited :
    (socket : ℕ) (u : ℤ) (c : RelayServiceConnection) (r : Relay)
    → connection_at socket u r ≡ some c
    → contains u (uids_of (get socket r.registered_sockets)) ≡ true
unfolding connection_at
visited socket u c r h = elim (Option-cases (get socket r.registered_sockets)) [
  | inl unknown ↦ absurd (ground (arith, unknown))
  | inr (x, known) ↦
      rw known
        (contains-keys_where (λ _. true) u c x.connections (rw (known, connection_at) at h) refl)
]

module _ (socket : ℕ) (r : Relay) (good : IsConsistent r) where
  abbrev unbound : Relay
  unbound = record r {
    bound_services =
        delete_all (keys_where (λ b. b.socket == socket) r.bound_services) r.bound_services;
  }

  abbrev cleared : Relay
  cleared = (disconnected socket r).0

  get-unbound :
      (n : Text) (b : BoundService)
      → get n unbound.bound_services ≡ some b
      → (get n r.bound_services ≡ some b) × (b.socket ≢ socket)
  get-unbound n b h =
      let gone = contains-keys_where (λ b. b.socket == socket) n b r.bound_services in
      let view =
        get-delete_all n (keys_where (λ b. b.socket == socket) r.bound_services) r.bound_services in
      (ground (arith, view), ground (arith, view, gone))

  unbound-IsConsistent : IsConsistent unbound
  unfolding connection_at counter_of
  unbound-IsConsistent = record {
    bound = λ n b h. good.bound n b (get-unbound n b h).0;
    ends = good.ends;
    client = good.client;
    server = good.server;
    client_uid = good.client_uid;
    server_uid = good.server_uid;
    counted = good.counted;
    counters = good.counters;
    distinct = delete_all-IsDistinct _ r.bound_services good.distinct;
  }

  abbrev closed : Relay
  closed =
      (close_each socket (reason_code RelayServiceConnectionReason.transport_socket_closed)
        (uids_of (get socket r.registered_sockets)) unbound).0

  closed-Closes : Closes socket (uids_of (get socket r.registered_sockets)) unbound closed
  closed-Closes = close_each-Closes socket _ _ unbound unbound-IsConsistent

  connection_at-cleared :
      (s : ℕ) (u : ℤ)
      → connection_at s u cleared ≡ (if socket == s then none else connection_at s u closed)
  unfolding connection_at disconnected
  connection_at-cleared s u = ground (arith, get-delete s socket closed.registered_sockets)

  counter_of-cleared :
      (s : ℕ) → counter_of s cleared ≡ (if socket == s then none else counter_of s r)
  unfolding counter_of disconnected
  counter_of-cleared s =
      ground (arith, get-delete s socket closed.registered_sockets, closed-Closes.counter s)

  bound_services-cleared : cleared.bound_services ≡ unbound.bound_services
  unfolding disconnected
  bound_services-cleared = closed-Closes.bound

  -- A connection of the closed relay was there before, and is not the socket's.
  before_closed :
      (s : ℕ) (u : ℤ) (c : RelayServiceConnection)
      → connection_at s u closed ≡ some c
      → connection_at s u r ≡ some c
  unfolding connection_at
  before_closed s u c h = closed-Closes.older s u c h

  none-closed : (u : ℤ) → connection_at socket u closed ≡ none
  none-closed u = elim (Option-cases (connection_at socket u closed)) [
    | inl absent ↦ absent
    | inr (c, here) ↦ closed-Closes.gone u (visited socket u c r (before_closed socket u c here))
  ]

  in_closed :
      (s : ℕ) (u : ℤ) (c : RelayServiceConnection)
      → connection_at s u cleared ≡ some c
      → connection_at s u closed ≡ some c
  in_closed s u c h = ground (arith, connection_at-cleared s u)

  elsewhere :
      (s : ℕ) (u : ℤ) (c : RelayServiceConnection)
      → connection_at s u cleared ≡ some c
      → (c.client.socket ≢ socket) × (c.server.socket ≢ socket)
  elsewhere s u c h =
      let client = closed-Closes.good.client s u c (in_closed s u c h) in
      let server = closed-Closes.good.server s u c (in_closed s u c h) in
      (
        λ e. cc (none-closed c.client.uid, ap (λ t. connection_at t c.client.uid closed) e, client),
        λ e. cc (none-closed c.server.uid, ap (λ t. connection_at t c.server.uid closed) e, server),
      )

  to_cleared :
      (s : ℕ) (u : ℤ) (c : RelayServiceConnection)
      → s ≢ socket
      → connection_at s u closed ≡ some c
      → connection_at s u cleared ≡ some c
  to_cleared s u c ne h = ground (arith, connection_at-cleared s u)

  -- The relay stays consistent when a socket disconnects.
  pub disconnected-IsConsistent : IsConsistent cleared
  disconnected-IsConsistent = record {
    bound = λ n b h.
        let (was, ne) = get-unbound n b (ap (get n) (sym bound_services-cleared) ∙ h) in
        ground (arith, counter_of-cleared b.socket, good.bound n b was);
    ends = λ s u c h. closed-Closes.good.ends s u c (in_closed s u c h);
    client = λ s u c h.
        to_cleared _ _ c (elsewhere s u c h).0
          (closed-Closes.good.client s u c (in_closed s u c h));
    server = λ s u c h.
        to_cleared _ _ c (elsewhere s u c h).1
          (closed-Closes.good.server s u c (in_closed s u c h));
    client_uid = λ s u c h. closed-Closes.good.client_uid s u c (in_closed s u c h);
    server_uid = λ s u c h. closed-Closes.good.server_uid s u c (in_closed s u c h);
    counted = λ s u k c h n e.
        good.counted s u k c (before_closed s u c (in_closed s u c h)) n
          (ground (arith, counter_of-cleared s));
    counters = λ s k e. good.counters s k (ground (arith, counter_of-cleared s));
    distinct = rw bound_services-cleared unbound-IsConsistent.distinct;
  }

  -- Once a socket of a consistent relay has disconnected, it is not registered, no service is bound
  -- to it, and no connection has it at either end.
  pub disconnected-forgets :
      (counter_of socket cleared ≡ none)
      × ((n : Text) (b : BoundService) → get n cleared.bound_services ≡ some b → b.socket ≢ socket)
      × ((s : ℕ) (u : ℤ) (c : RelayServiceConnection)
          → connection_at s u cleared ≡ some c
          → (c.client.socket ≢ socket) × (c.server.socket ≢ socket))
  disconnected-forgets = (
    ground (arith, counter_of-cleared socket),
    λ n b h. (get-unbound n b (ap (get n) (sym bound_services-cleared) ∙ h)).1,
    elsewhere,
  )

  -- When a socket of a consistent relay disconnects, every other socket keeps its registration,
  -- its services, and each connection that it has with a socket other than the disconnected one.
  pub disconnected-keeps :
      ((s : ℕ) → s ≢ socket → counter_of s cleared ≡ counter_of s r)
      × ((n : Text) (b : BoundService)
          → get n r.bound_services ≡ some b
          → b.socket ≢ socket
          → get n cleared.bound_services ≡ some b)
      × ((s : ℕ) (u : ℤ) (c : RelayServiceConnection)
          → connection_at s u r ≡ some c
          → c.client.socket ≢ socket
          → c.server.socket ≢ socket
          → connection_at s u cleared ≡ some c)
  unfolding connection_at
  disconnected-keeps = (
    λ s ne. ground (arith, counter_of-cleared s),
    λ n b h ne.
        ap (get n) bound_services-cleared
        ∙ ground (
          arith,
          get-delete_all n (keys_where (λ b. b.socket == socket) r.bound_services) r.bound_services,
          contains-keys_where-false (λ b. b.socket == socket) n b r.bound_services good.distinct h,
        ),
    λ s u c h nc ns.
        to_cleared s u c
          (elim (good.ends s u c h) [
            | inl p ↦ λ e. nc ((at_end_sound c.client s u p).0 ∙ e)
            | inr p ↦ λ e. ns ((at_end_sound c.server s u p).0 ∙ e)
          ])
          (closed-Closes.stays s u c h nc ns),
  )
