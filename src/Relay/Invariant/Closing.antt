-- ===== src/Relay/Invariant/Closing.antt =====
-- What closing the connections of a socket one by one keeps and removes.
use web_tether.Common.{
  ℕ, ◌≡◌, ◌≢◌, ◌∙◌, refl, sym, ap, inl, inr, true, false, none, some, arith, Bool-cases,
  Option-cases, List, [], ◌∷◌,
}
use web_tether.Common.Int.{ℤ, ℤ_beq, ℤ_beq_iff}
use web_tether.Common.Dict.{contains, text_eq, nat_eq, int_eq}
use web_tether.Relay.{Relay, RelayServiceConnection, connection_at, close, close_each}
use web_tether.Relay.Ends.{
  counter_of, at_end, at_end_sound, connection_at-close, counter_of-close, bound_services-close,
}
use web_tether.Relay.Invariant.{IsConsistent}
use web_tether.Relay.Invariant.Keeps.{close-IsConsistent}

-- What closing connections one by one keeps.
pub record Closes (socket : ℕ) (uids : List ℤ) (r r' : Relay) : Type 0 where
  pub good : IsConsistent r'
  pub bound : r'.bound_services ≡ r.bound_services
  pub counter : (s : ℕ) → counter_of s r' ≡ counter_of s r
  pub older :
      (s : ℕ) (u : ℤ) (d : RelayServiceConnection)
      → connection_at s u r' ≡ some d
      → connection_at s u r ≡ some d
  pub gone : (u : ℤ) → contains u uids ≡ true → connection_at socket u r' ≡ none
  pub stays :
      (s : ℕ) (u : ℤ) (d : RelayServiceConnection)
      → connection_at s u r ≡ some d
      → d.client.socket ≢ socket
      → d.server.socket ≢ socket
      → connection_at s u r' ≡ some d

none_stays :
    (s : ℕ) (u : ℤ) (r r' : Relay)
    → ((d : RelayServiceConnection) → connection_at s u r' ≡ some d → connection_at s u r ≡ some d)
    → connection_at s u r ≡ none
    → connection_at s u r' ≡ none
none_stays s u r r' older h = elim (Option-cases (connection_at s u r')) [
  | inl e ↦ e
  | inr (d, e) ↦ absurd (cc (older d e))
]

-- A connection whose ends are both elsewhere is not the one that the socket has.
other_connection :
    (socket s : ℕ) (u v : ℤ) (c d : RelayServiceConnection) (r : Relay)
    → IsConsistent r
    → connection_at socket v r ≡ some c
    → connection_at s u r ≡ some d
    → d.client.socket ≢ socket
    → d.server.socket ≢ socket
    → (at_end c.client s u ≡ false) × (at_end c.server s u ≡ false)
other_connection socket s u v c d r good hc hd nc ns =
    let place = good.ends socket v c hc in
    let back = good.client socket v c hc in
    let back' = good.server socket v c hc in
    let differ : c ≢ d = λ e. elim place [
      | inl p ↦ nc (ap (λ k. k.client.socket) (sym e) ∙ (at_end_sound c.client socket v p).0)
      | inr p ↦ ns (ap (λ k. k.server.socket) (sym e) ∙ (at_end_sound c.server socket v p).0)
    ] in
    (ground (arith, at_end_sound c.client s u), ground (arith, at_end_sound c.server s u))

-- A round for an identifier that has gone changes nothing.
Closes-skip :
    (socket : ℕ) (v : ℤ) (uids : List ℤ) (r r' : Relay)
    → connection_at socket v r ≡ none
    → Closes socket uids r r'
    → Closes socket (v ∷ uids) r r'
unfolding contains
Closes-skip socket v uids r r' absent rest = record {
  good = rest.good;
  bound = rest.bound;
  counter = rest.counter;
  older = rest.older;
  gone = λ u h. elim (Bool-cases (ℤ_beq v u)) [
    | inl same ↦
        rw (← (ℤ_beq_iff v u).0 same) (none_stays socket v r r' (rest.older socket v) absent)
    | inr other ↦ rest.gone u (ground (arith, other))
  ];
  stays = rest.stays;
}

-- A round that closes a connection, and the rounds behind it.
Closes-step :
    (socket reason : ℕ) (v : ℤ) (uids : List ℤ) (c : RelayServiceConnection) (r r' : Relay)
    → IsConsistent r
    → connection_at socket v r ≡ some c
    → Closes socket uids (close c socket reason r).0 r'
    → Closes socket (v ∷ uids) r r'
unfolding contains
Closes-step socket reason v uids c r r' good here rest =
    let next = (close c socket reason r).0 in
    let view = λ (s : ℕ) (u : ℤ). connection_at-close c socket reason s u r in
    record {
      good = rest.good;
      bound = rest.bound ∙ bound_services-close c socket reason r;
      counter = λ s. rest.counter s ∙ counter_of-close c socket reason s r;
      older = λ s u d h. ground (arith, rest.older s u d h, view s u);
      gone = λ u h. elim (Bool-cases (ℤ_beq v u)) [
        | inl same ↦ rw (← (ℤ_beq_iff v u).0 same) (
            none_stays socket v next r' (rest.older socket v) (elim (good.ends socket v c here) [
              | inl p ↦ ground (arith, view socket v)
              | inr p ↦ ground (arith, view socket v)
            ]))
        | inr other ↦ rest.gone u (ground (arith, other))
      ];
      stays = λ s u d h nc ns.
          let apart = other_connection socket s u v c d r good here h nc ns in
          rest.stays s u d (ground (arith, view s u, apart.0, apart.1)) nc ns;
    }

pub close_each-Closes :
    (socket reason : ℕ) (uids : List ℤ) (r : Relay)
    → IsConsistent r
    → Closes socket uids r (close_each socket reason uids r).0
unfolding close_each contains
close_each-Closes socket reason [] r good = record {
  good = good;
  bound = refl;
  counter = λ s. refl;
  older = λ s u d h. h;
  gone = λ u h. cc;
  stays = λ s u d h nc ns. h;
}
close_each-Closes socket reason (v ∷ uids) r good = elim (Option-cases (connection_at socket v r)) [
  | inl absent ↦
      let rest = close_each-Closes socket reason uids r good in
      rw (absent, close_each) (Closes-skip socket v uids r _ absent rest)
  | inr (c, here) ↦
      let next = (close c socket reason r).0 in
      let rest =
        close_each-Closes socket reason uids next
          (close-IsConsistent c socket reason socket v r good here) in
      rw (here, close_each) (Closes-step socket reason v uids c r _ good here rest)
]
