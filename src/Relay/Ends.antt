-- ===== src/Relay/Ends.antt =====
-- What the updates of the relay's tables do to a lookup: of the counter of a socket, and of the
-- connection that a socket has under an identifier.
use web_tether.Common.{
  ℕ, ◌≡◌, ◌≢◌, ◌∙◌, ap, Bool, true, Option, none, some, ◌&&◌, ◌==◌, if◌then◌else◌, arith,
  Option-cases, inl, inr,
}
use web_tether.Common.Int.{ℤ, ℤ_beq, ℤ_beq_iff}
use web_tether.Common.Dict.{get, set, delete, get-set, get-delete, nat_eq, int_eq, text_eq}
use web_tether.Relay.{
  Relay, End, RelayServiceConnection, delete_connection, set_connection, connection_at, close,
}

-- `relayCounter` of a registered socket.
unfoldable pub counter_of : ℕ → Relay → Option ℤ
counter_of s r = elim (get s r.registered_sockets) [ none ↦ none | some x ↦ some x.relay_counter ]

-- Whether `(s, u)` is the end `e`.
abbrev pub at_end : End → ℕ → ℤ → Bool
at_end e s u = e.socket == s && ℤ_beq e.uid u

pub at_end_sound : (e : End) (s : ℕ) (u : ℤ) → at_end e s u ≡ true → (e.socket ≡ s) × (e.uid ≡ u)
at_end_sound e s u h = (ground arith, ground (arith, ℤ_beq_iff e.uid u))

pub at_end_refl : (e : End) → at_end e e.socket e.uid ≡ true
at_end_refl e = ground (arith, ℤ_beq_iff e.uid e.uid)

-- What `set_connection` and `delete_connection` do to the entries of the end's socket.
pub connection_at-delete_connection :
    (e : End) (s : ℕ) (u : ℤ) (r : Relay)
    → connection_at s u (delete_connection e r)
      ≡ (if at_end e s u then none else connection_at s u r)
unfolding connection_at delete_connection
connection_at-delete_connection e s u r = elim (Option-cases (get e.socket r.registered_sockets)) [
  | inl unknown ↦ ground (arith, unknown)
  | inr (x, known) ↦ ground (
    arith,
    known,
    get-set s e.socket (record x { connections = delete e.uid x.connections }) r.registered_sockets,
    get-delete u e.uid x.connections,
    ℤ_beq_iff e.uid u,
  )
]

pub counter_of-delete_connection :
    (e : End) (s : ℕ) (r : Relay) → counter_of s (delete_connection e r) ≡ counter_of s r
unfolding counter_of delete_connection
counter_of-delete_connection e s r = elim (Option-cases (get e.socket r.registered_sockets)) [
  | inl unknown ↦ ground (arith, unknown)
  | inr (x, known) ↦ ground (
    arith,
    known,
    get-set s e.socket (record x { connections = delete e.uid x.connections }) r.registered_sockets,
  )
]

pub connection_at-set_connection :
    (e : End) (c : RelayServiceConnection) (s : ℕ) (u : ℤ) (r : Relay)
    → counter_of e.socket r ≢ none
    → connection_at s u (set_connection e c r)
      ≡ (if at_end e s u then some c else connection_at s u r)
unfolding connection_at set_connection counter_of
connection_at-set_connection e c s u r h = elim (Option-cases (get e.socket r.registered_sockets)) [
  | inl unknown ↦ absurd (h (rw (unknown, counter_of)))
  | inr (x, known) ↦ ground (
    arith,
    known,
    get-set s e.socket (record x { connections = set e.uid c x.connections }) r.registered_sockets,
    get-set u e.uid c x.connections,
    ℤ_beq_iff e.uid u,
  )
]

pub counter_of-set_connection :
    (e : End) (c : RelayServiceConnection) (s : ℕ) (r : Relay)
    → counter_of s (set_connection e c r) ≡ counter_of s r
unfolding counter_of set_connection
counter_of-set_connection e c s r = elim (Option-cases (get e.socket r.registered_sockets)) [
  | inl unknown ↦ ground (arith, unknown)
  | inr (x, known) ↦ ground (
    arith,
    known,
    get-set s e.socket (record x { connections = set e.uid c x.connections }) r.registered_sockets,
  )
]

pub connection_at-none :
    (s : ℕ) (u : ℤ) (r : Relay) → counter_of s r ≡ none → connection_at s u r ≡ none
unfolding connection_at counter_of
connection_at-none s u r h = ground arith

pub counter_of-some :
    (s : ℕ) (u : ℤ) {c : RelayServiceConnection} (r : Relay)
    → connection_at s u r ≡ some c
    → counter_of s r ≢ none
unfolding connection_at counter_of
counter_of-some s u r h n = ground arith

-- A connection's two entries go when it is closed, and no other; the bound services stay.
pub connection_at-close :
    (c : RelayServiceConnection) (source reason s : ℕ) (u : ℤ) (r : Relay)
    → connection_at s u (close c source reason r).0 ≡ (
        if at_end c.server s u
        then none
        else if at_end c.client s u
        then none
        else connection_at s u r)
unfolding close
connection_at-close c source reason s u r =
    connection_at-delete_connection c.server s u (delete_connection c.client r)
    ∙ ap (λ o. if at_end c.server s u then none else o)
        (connection_at-delete_connection c.client s u r)

pub counter_of-close :
    (c : RelayServiceConnection) (source reason s : ℕ) (r : Relay)
    → counter_of s (close c source reason r).0 ≡ counter_of s r
unfolding close
counter_of-close c source reason s r =
    counter_of-delete_connection c.server s (delete_connection c.client r)
    ∙ counter_of-delete_connection c.client s r

bound_services-delete_connection :
    (e : End) (r : Relay) → (delete_connection e r).bound_services ≡ r.bound_services
unfolding delete_connection
bound_services-delete_connection e r = ground arith

pub bound_services-set_connection :
    (e : End) (c : RelayServiceConnection) (r : Relay)
    → (set_connection e c r).bound_services ≡ r.bound_services
unfolding set_connection
bound_services-set_connection e c r = ground arith

pub bound_services-close :
    (c : RelayServiceConnection) (source reason : ℕ) (r : Relay)
    → (close c source reason r).0.bound_services ≡ r.bound_services
unfolding close
bound_services-close c source reason r =
    bound_services-delete_connection c.server (delete_connection c.client r)
    ∙ bound_services-delete_connection c.client r
