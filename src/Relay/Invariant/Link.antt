-- ===== src/Relay/Invariant/Link.antt =====
-- A new socket and a new connection keep the relay's tables consistent.
use web_tether.Common.{
  ℕ, ◌≡◌, ◌≢◌, ◌⊎◌, ◌∙◌, refl, sym, ap, inl, inr, true, none, some, arith, Option-cases,
}
use web_tether.Common.Int.{ℤ, pos, ◌≤ℤ◌, is_positive, is_negative, pred_ℤ}
use web_tether.Common.Dict.{get, text_eq, nat_eq}
use web_tether.SafeBuffer.{Bytes}
use web_tether.Relay.{
  Text, Relay, RelayServiceConnection, RegisteredSocket, connected, link_with, connection_at,
}
use web_tether.Relay.Ends.{counter_of, at_end, at_end_sound, at_end_refl, connection_at-none}
use web_tether.Relay.Links.{
  linked, connection_at-connected, counter_of-connected, connection_at-link_with,
  counter_of-link_with, bound_services-link_with,
}
use web_tether.Relay.Invariant.{IsConsistent}

bound_services-connected :
    (t : ℕ) (alias : Text) (r : Relay) → (connected t alias r).bound_services ≡ r.bound_services
unfolding connected
bound_services-connected t alias r = refl

module _ (t : ℕ) (alias : Text) (r : Relay) (good : IsConsistent r)
    (new : counter_of t r ≡ none) where
  older :
      (s : ℕ) (u : ℤ) (c : RelayServiceConnection)
      → connection_at s u (connected t alias r) ≡ some c
      → connection_at s u r ≡ some c
  older s u c h = ground (arith, connection_at-connected t alias s u r)

  stays :
      (s : ℕ) (u : ℤ) (c : RelayServiceConnection)
      → connection_at s u r ≡ some c
      → connection_at s u (connected t alias r) ≡ some c
  stays s u c h = ground (arith, connection_at-connected t alias s u r, connection_at-none s u r)

  pub connected-IsConsistent : IsConsistent (connected t alias r)
  connected-IsConsistent = record {
    bound = λ n b h. ground (
      arith,
      counter_of-connected t alias b.socket r,
      good.bound n b (ap (get n) (sym (bound_services-connected t alias r)) ∙ h),
    );
    ends = λ s u c h. good.ends s u c (older s u c h);
    client = λ s u c h. stays _ _ c (good.client s u c (older s u c h));
    server = λ s u c h. stays _ _ c (good.server s u c (older s u c h));
    client_uid = λ s u c h. good.client_uid s u c (older s u c h);
    server_uid = λ s u c h. good.server_uid s u c (older s u c h);
    counted = λ s u k c h n e.
        good.counted s u k c (older s u c h) n (
          ground
            (arith, counter_of-connected t alias s r, connection_at-none s u r, older s u c h));
    counters = λ s k e. ground (arith, counter_of-connected t alias s r, good.counters s k);
    distinct = rw (bound_services-connected t alias r) good.distinct;
  }

below_pred : (k : ℤ) → k ≤ℤ pos 0 → ¬ (k ≤ℤ pred_ℤ k)
below_pred k h = ground arith

pred_negative : (k : ℤ) → k ≤ℤ pos 0 → is_negative (pred_ℤ k) ≡ true
pred_negative k h = ground arith

pred_low : (k : ℤ) → k ≤ℤ pos 0 → pred_ℤ k ≤ℤ pos 0
pred_low k h = ground arith

pred_le : (k u : ℤ) → k ≤ℤ u → k ≤ℤ pos 0 → pred_ℤ k ≤ℤ u
pred_le k u h low = ground arith

module _ (encode : Text → Bytes) (cs : ℕ) (name : Text) (uid : ℤ) (metadata : Bytes) (t : ℕ)
    (x : RegisteredSocket) (r : Relay) (good : IsConsistent r)
    (known : get t r.registered_sockets ≡ some x) (registered : counter_of cs r ≢ none)
    (positive : is_positive uid ≡ true) (unused : connection_at cs uid r ≡ none) where
  abbrev next : Relay
  next = (link_with encode cs name uid metadata t x r).0

  abbrev new : RelayServiceConnection
  new = linked cs uid t x

  counter : counter_of t r ≡ some x.relay_counter
  unfolding counter_of
  counter = rw (known, counter_of)

  counter_low : x.relay_counter ≤ℤ pos 0
  counter_low = good.counters t x.relay_counter counter

  server_negative : is_negative (pred_ℤ x.relay_counter) ≡ true
  server_negative = pred_negative x.relay_counter counter_low

  -- No connection of the server goes by its next identifier.
  pub fresh : connection_at t (pred_ℤ x.relay_counter) r ≡ none
  fresh = elim (Option-cases (connection_at t (pred_ℤ x.relay_counter) r)) [
    | inl free ↦ free
    | inr (d, taken) ↦ absurd (
        below_pred x.relay_counter counter_low
          (good.counted t _ x.relay_counter d taken server_negative counter))
  ]

  -- What the new state has is the new connection at one of its ends, or was there.
  origin :
      (s : ℕ) (u : ℤ) (d : RelayServiceConnection)
      → connection_at s u next ≡ some d
      → ((d ≡ new) × ((at_end new.client s u ≡ true) ⊎ (at_end new.server s u ≡ true)))
        ⊎ (connection_at s u r ≡ some d)
  origin s u d h =
      ground (arith, connection_at-link_with encode cs name uid metadata t x r known registered s u)

  stays_linked :
      (s : ℕ) (u : ℤ) (d : RelayServiceConnection)
      → connection_at s u r ≡ some d
      → connection_at s u next ≡ some d
  stays_linked s u d h = ground (
    arith,
    connection_at-link_with encode cs name uid metadata t x r known registered s u,
    at_end_sound new.server s u,
    at_end_sound new.client s u,
    fresh,
  )

  pub at_client : connection_at cs uid next ≡ some new
  at_client = ground (
    arith,
    connection_at-link_with encode cs name uid metadata t x r known registered cs uid,
    at_end_refl new.client,
  )

  pub at_server : connection_at t (pred_ℤ x.relay_counter) next ≡ some new
  at_server = ground (
    arith,
    connection_at-link_with encode cs name uid metadata t x r known registered t
        (pred_ℤ x.relay_counter),
    at_end_refl new.server,
  )

  counted_linked :
      (s : ℕ) (u k : ℤ) (d : RelayServiceConnection)
      → connection_at s u next ≡ some d
      → is_negative u ≡ true
      → counter_of s next ≡ some k
      → k ≤ℤ u
  counted_linked s u k d h n e = elim (origin s u d h) [
    | inl (_, inl c) ↦ absurd (ground (arith, at_end_sound new.client s u c))
    | inl (_, inr p) ↦ ground (
      arith,
      at_end_sound new.server s u p,
      counter_of-link_with encode cs name uid metadata t x r s,
    )
    | inr old ↦ ground (
      arith,
      counter_of-link_with encode cs name uid metadata t x r s,
      good.counted s u x.relay_counter d old n,
      good.counted s u k d old n,
      counter,
      pred_le x.relay_counter u,
      counter_low,
    )
  ]

  pub link_with-IsConsistent : IsConsistent next
  link_with-IsConsistent = record {
    bound = λ n b h. ground (
      arith,
      counter_of-link_with encode cs name uid metadata t x r b.socket,
      good.bound n b
          (ap (get n) (sym (bound_services-link_with encode cs name uid metadata t x r)) ∙ h),
    );
    ends = λ s u d h. elim (origin s u d h) [
      | inl (same, place) ↦ rw same place
      | inr old ↦ good.ends s u d old
    ];
    client = λ s u d h. elim (origin s u d h) [
      | inl (same, _) ↦ rw same at_client
      | inr old ↦ stays_linked _ _ d (good.client s u d old)
    ];
    server = λ s u d h. elim (origin s u d h) [
      | inl (same, _) ↦ rw same at_server
      | inr old ↦ stays_linked _ _ d (good.server s u d old)
    ];
    client_uid = λ s u d h. elim (origin s u d h) [
      | inl (same, _) ↦ rw same positive
      | inr old ↦ good.client_uid s u d old
    ];
    server_uid = λ s u d h. elim (origin s u d h) [
      | inl (same, _) ↦ rw same server_negative
      | inr old ↦ good.server_uid s u d old
    ];
    counted = counted_linked;
    counters = λ s k e. ground (
      arith,
      counter_of-link_with encode cs name uid metadata t x r s,
      good.counters s k,
      pred_low x.relay_counter counter_low,
    );
    distinct = rw (bound_services-link_with encode cs name uid metadata t x r) good.distinct;
  }
