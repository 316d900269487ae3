-- ===== src/Relay/Links.antt =====
-- What `link` and `connected` do to a lookup.
use web_tether.Common.{ℕ, ◌≡◌, ◌≢◌, ◌∙◌, none, some, ◌==◌, if◌then◌else◌, arith, []}
use web_tether.Common.Int.{ℤ, pos, pred_ℤ}
use web_tether.Common.Dict.{get, set, get-set, nat_eq, int_eq}
use web_tether.SafeBuffer.{Bytes}
use web_tether.Relay.{
  Text, Relay, RelayServiceConnection, RegisteredSocket, connected, set_connection, connection_at,
  link_with,
}
use web_tether.Relay.Ends.{
  counter_of, at_end, connection_at-set_connection, counter_of-set_connection,
  bound_services-set_connection,
}

pub connection_at-connected :
    (t : ℕ) (alias : Text) (s : ℕ) (u : ℤ) (r : Relay)
    → connection_at s u (connected t alias r) ≡ (if t == s then none else connection_at s u r)
unfolding connection_at connected get
connection_at-connected t alias s u r = ground (
  arith,
  get-set s t (record { alias = alias; relay_counter = pos 0; connections = [] })
      r.registered_sockets,
)

pub counter_of-connected :
    (t : ℕ) (alias : Text) (s : ℕ) (r : Relay)
    → counter_of s (connected t alias r) ≡ (if t == s then some (pos 0) else counter_of s r)
unfolding counter_of connected
counter_of-connected t alias s r = ground (
  arith,
  get-set s t (record { alias = alias; relay_counter = pos 0; connections = [] })
      r.registered_sockets,
)

-- The state of `link` once it has counted.
abbrev counted : ℕ → RegisteredSocket → Relay → Relay
counted t x r = record r {
  registered_sockets =
      set t (record x { relay_counter = pred_ℤ x.relay_counter }) r.registered_sockets;
}

connection_at-counted :
    (t : ℕ) (x : RegisteredSocket) (s : ℕ) (u : ℤ) (r : Relay)
    → get t r.registered_sockets ≡ some x
    → connection_at s u (counted t x r) ≡ connection_at s u r
unfolding connection_at
connection_at-counted t x s u r h =
    ground (
      arith,
      get-set s t (record x { relay_counter = pred_ℤ x.relay_counter }) r.registered_sockets,
    )

counter_of-counted :
    (t : ℕ) (x : RegisteredSocket) (s : ℕ) (r : Relay)
    → counter_of s (counted t x r)
      ≡ (if t == s then some (pred_ℤ x.relay_counter) else counter_of s r)
unfolding counter_of
counter_of-counted t x s r =
    ground (
      arith,
      get-set s t (record x { relay_counter = pred_ℤ x.relay_counter }) r.registered_sockets,
    )

-- The connection that `link` makes.
abbrev pub linked : ℕ → ℤ → ℕ → RegisteredSocket → RelayServiceConnection
linked cs uid t x = record {
  client = record { socket = cs; uid = uid };
  server = record { socket = t; uid = pred_ℤ x.relay_counter };
}

module _ (encode : Text → Bytes) (cs : ℕ) (name : Text) (uid : ℤ) (metadata : Bytes) (t : ℕ)
    (x : RegisteredSocket) (r : Relay) where
  pub counter_of-link_with :
      (s : ℕ)
      → counter_of s (link_with encode cs name uid metadata t x r).0
        ≡ (if t == s then some (pred_ℤ x.relay_counter) else counter_of s r)
  unfolding link_with
  counter_of-link_with s =
      counter_of-set_connection _ _ s _
      ∙ counter_of-set_connection _ _ s _
      ∙ counter_of-counted t x s r

  pub bound_services-link_with :
      (link_with encode cs name uid metadata t x r).0.bound_services ≡ r.bound_services
  unfolding link_with
  bound_services-link_with =
      bound_services-set_connection _ _ _ ∙ bound_services-set_connection _ _ _

  module _ (known : get t r.registered_sockets ≡ some x) (client : counter_of cs r ≢ none) where
    client_counted : counter_of cs (counted t x r) ≢ none
    client_counted = ground (arith, counter_of-counted t x cs r)

    server_counted :
        counter_of t (set_connection (linked cs uid t x).client (linked cs uid t x) (counted t x r))
        ≢ none
    server_counted = ground (
      arith,
      counter_of-set_connection (linked cs uid t x).client (linked cs uid t x) t (counted t x r),
      counter_of-counted t x t r,
    )

    pub connection_at-link_with :
        (s : ℕ) (u : ℤ)
        → connection_at s u (link_with encode cs name uid metadata t x r).0 ≡ (
            if at_end (linked cs uid t x).server s u
            then some (linked cs uid t x)
            else if at_end (linked cs uid t x).client s u
            then some (linked cs uid t x)
            else connection_at s u r)
    unfolding link_with
    connection_at-link_with s u =
        let c = linked cs uid t x in
        ground (
          arith,
          connection_at-set_connection c.server c s u (set_connection c.client c (counted t x r))
              server_counted,
          connection_at-set_connection c.client c s u (counted t x r) client_counted,
          connection_at-counted t x s u r known,
        )
