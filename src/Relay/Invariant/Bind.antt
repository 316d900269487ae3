-- ===== src/Relay/Invariant/Bind.antt =====
-- `bind`: all of the services are bound to the socket, or none is; and the tables stay consistent.
use web_tether.Common.{
  ℕ, ◌≡◌, ◌≢◌, ◌⊎◌, ◌∙◌, refl, sym, inl, inr, true, none, some, arith, Bool-cases, List, [], ◌∷◌,
  All, map, subst,
}
use web_tether.Common.Int.{ℤ}
use web_tether.Common.Dict.{
  Dict, get, set, get-set, set-IsDistinct, IsDistinct, contains, text_eq, nat_eq,
}
use web_tether.Common.Result.{ok}
use web_tether.Relay.{Text, Relay, BoundService, RelayService, bind_each, bind, connection_at}
use web_tether.Relay.Ends.{counter_of}
use web_tether.Relay.Invariant.{IsConsistent}

-- A name bound after `bind_each` is bound to the socket, and shares what holds of every service
-- given, or it was bound before.
bind_each_sound :
    (P : Text → Type 0) (n : Text) (socket : ℕ) (services : List RelayService)
    (m : Dict Text BoundService) (b : BoundService)
    → All (λ s. P s.service) services
    → get n (bind_each socket services m) ≡ some b
    → ((b.socket ≡ socket) × P n) ⊎ (get n m ≡ some b)
unfolding bind_each
bind_each_sound P n socket [] m b p h = inr h
bind_each_sound P n socket (s ∷ services) m b p h =
    let e : BoundService = record { socket = socket; type = s.type } in
    elim (bind_each_sound P n socket services (set s.service e m) b p.1 h) [
      | inl here ↦ inl here
      | inr there ↦ elim (Bool-cases (text_eq.beq s.service n)) [
        | inl same ↦ inl (
          ground (arith, get-set n s.service e m, same),
          subst P ((text_eq.beq_iff s.service n).0 same) p.0,
        )
        | inr other ↦ inr (ground (arith, get-set n s.service e m, other))
      ]
    ]

-- Every service given is bound afterwards, to the socket.
bind_each_complete :
    (n : Text) (socket : ℕ) (services : List RelayService) (m : Dict Text BoundService)
    → ((b : BoundService) × (get n m ≡ some b) × (b.socket ≡ socket))
      ⊎ (contains n (map (λ s. s.service) services) ≡ true)
    → (b : BoundService) × (get n (bind_each socket services m) ≡ some b) × (b.socket ≡ socket)
unfolding bind_each contains
bind_each_complete n socket [] m (inl found) = found
bind_each_complete n socket [] m (inr h) = absurd (cc)
bind_each_complete n socket (s ∷ services) m h =
    let e : BoundService = record { socket = socket; type = s.type } in
    bind_each_complete n socket services (set s.service e m)
      (elim (Bool-cases (text_eq.beq s.service n)) [
        | inl same ↦ inl (e, ground (arith, get-set n s.service e m, same), refl)
        | inr other ↦ elim h [
          | inl (b, found, mine) ↦ inl (b, ground (arith, get-set n s.service e m, other), mine)
          | inr rest ↦ inr (ground (arith, other))
        ]
      ])

All-unit : (services : List RelayService) → All (λ s. Unit {0}) services
All-unit [] = tt
All-unit (s ∷ services) = (tt, All-unit services)

bind_each-IsDistinct :
    (socket : ℕ) (services : List RelayService) (m : Dict Text BoundService)
    → IsDistinct m
    → IsDistinct (bind_each socket services m)
unfolding bind_each
bind_each-IsDistinct socket [] m d = d
bind_each-IsDistinct socket (s ∷ services) m d =
    bind_each-IsDistinct socket services _ (set-IsDistinct s.service _ m d)

module _ (socket : ℕ) (services : List RelayService) (r r' : Relay)
    (done : bind socket services r ≡ ok r') where
  bind_result : r' ≡ record r { bound_services = bind_each socket services r.bound_services }
  unfolding bind
  bind_result = ground arith

  pub counter_of-bind : (s : ℕ) → counter_of s r' ≡ counter_of s r
  unfolding counter_of
  counter_of-bind s = rw bind_result

  pub connection_at-bind : (s : ℕ) (u : ℤ) → connection_at s u r' ≡ connection_at s u r
  unfolding connection_at
  connection_at-bind s u = rw bind_result

  -- A name that is bound afterwards belongs to the socket and is one of the given, or was bound
  -- before as it is now.
  pub bind_sound :
      (P : Text → Type 0) (n : Text) (b : BoundService)
      → All (λ s. P s.service) services
      → get n r'.bound_services ≡ some b
      → ((b.socket ≡ socket) × P n) ⊎ (get n r.bound_services ≡ some b)
  bind_sound P n b p h =
      bind_each_sound P n socket services r.bound_services b p (rw bind_result at h)

  pub bind_complete :
      (n : Text)
      → contains n (map (λ s. s.service) services) ≡ true
      → (b : BoundService) × (get n r'.bound_services ≡ some b) × (b.socket ≡ socket)
  bind_complete n h = rw bind_result (bind_each_complete n socket services r.bound_services (inr h))

  pub bind-IsConsistent : IsConsistent r → counter_of socket r ≢ none → IsConsistent r'
  bind-IsConsistent good registered = record {
    bound = λ n b h.
        rw (counter_of-bind b.socket) (elim (bind_sound (λ _. Unit {0}) n b (All-unit services) h) [
          | inl (here, _) ↦ rw here registered
          | inr there ↦ good.bound n b there
        ]);
    ends = λ s u c h. good.ends s u c (sym (connection_at-bind s u) ∙ h);
    client =
        λ s u c h. connection_at-bind _ _ ∙ good.client s u c (sym (connection_at-bind s u) ∙ h);
    server =
        λ s u c h. connection_at-bind _ _ ∙ good.server s u c (sym (connection_at-bind s u) ∙ h);
    client_uid = λ s u c h. good.client_uid s u c (sym (connection_at-bind s u) ∙ h);
    server_uid = λ s u c h. good.server_uid s u c (sym (connection_at-bind s u) ∙ h);
    counted = λ s u k c h n e.
        good.counted s u k c (sym (connection_at-bind s u) ∙ h) n (sym (counter_of-bind s) ∙ e);
    counters = λ s k e. good.counters s k (sym (counter_of-bind s) ∙ e);
    distinct = rw bind_result (bind_each-IsDistinct socket services r.bound_services good.distinct);
  }
