-- ===== src/Relay/Invariant/Keeps.antt =====
-- Every operation of the relay keeps its tables consistent.
use web_tether.Common.{ℕ, ◌≡◌, ◌≢◌, ◌∙◌, sym, ap, inl, inr, some, arith}
use web_tether.Common.Int.{ℤ}
use web_tether.Common.Dict.{get, text_eq, nat_eq}
use web_tether.Relay.{Relay, End, RelayServiceConnection, create_relay, close, connection_at}
use web_tether.Relay.Ends.{
  counter_of, at_end_sound, connection_at-close, counter_of-close, bound_services-close,
}
use web_tether.Relay.Invariant.{IsConsistent}

some-eq : {A : Type 0} {a b : A} → some a ≡ some b → a ≡ b
some-eq h = cc

-- The empty relay.
pub create_relay-IsConsistent : IsConsistent create_relay
unfolding create_relay counter_of connection_at get
create_relay-IsConsistent = record {
  bound = λ n b h. cc;
  ends = λ s u c h. cc;
  client = λ s u c h. cc;
  server = λ s u c h. cc;
  client_uid = λ s u c h. cc;
  server_uid = λ s u c h. cc;
  counted = λ s u k c h. cc;
  counters = λ s k h. cc;
  distinct = tt;
}

module _ (c : RelayServiceConnection) (source reason s₀ : ℕ) (u₀ : ℤ) (r : Relay)
    (good : IsConsistent r) (here : connection_at s₀ u₀ r ≡ some c) where
  -- What is left after `close` was there, and is another connection.
  survivor :
      (s : ℕ) (u : ℤ) (d : RelayServiceConnection)
      → connection_at s u (close c source reason r).0 ≡ some d
      → (connection_at s u r ≡ some d) × (d ≢ c)
  survivor s u d h = (
    ground (arith, connection_at-close c source reason s u r),
    λ e. elim (good.ends s u c (ground (arith, connection_at-close c source reason s u r))) [
      | inl p ↦ ground (arith, connection_at-close c source reason s u r)
      | inr p ↦ ground (arith, connection_at-close c source reason s u r)
    ],
  )

  -- Either end of another connection keeps its entry.
  pub kept :
      (e : End) (d : RelayServiceConnection)
      → connection_at e.socket e.uid r ≡ some d
      → d ≢ c
      → connection_at e.socket e.uid (close c source reason r).0 ≡ some d
  kept e d h ne = ground (
    arith,
    connection_at-close c source reason e.socket e.uid r,
    at_end_sound c.server e.socket e.uid,
    at_end_sound c.client e.socket e.uid,
    good.client s₀ u₀ c here,
    good.server s₀ u₀ c here,
  )

  pub close-IsConsistent : IsConsistent (close c source reason r).0
  close-IsConsistent = record {
    bound = λ n b h.
        rw (counter_of-close c source reason b.socket r)
          (good.bound n b (ap (get n) (sym (bound_services-close c source reason r)) ∙ h));
    ends = λ s u d h. good.ends s u d (survivor s u d h).0;
    client =
        λ s u d h. let (was, ne) = survivor s u d h in kept d.client d (good.client s u d was) ne;
    server =
        λ s u d h. let (was, ne) = survivor s u d h in kept d.server d (good.server s u d was) ne;
    client_uid = λ s u d h. good.client_uid s u d (survivor s u d h).0;
    server_uid = λ s u d h. good.server_uid s u d (survivor s u d h).0;
    counted = λ s u k d h n e.
        good.counted s u k d (survivor s u d h).0 n
          (sym (counter_of-close c source reason s r) ∙ e);
    counters = λ s k e. good.counters s k (sym (counter_of-close c source reason s r) ∙ e);
    distinct = rw (bound_services-close c source reason r) good.distinct;
  }
