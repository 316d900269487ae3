-- ===== src/Session/Laws.antt =====
-- Whatever a client sends, a turn of its session changes the relay by one of the relay's own steps
-- or not at all, and never reads a property of `undefined`.
use web_tether.Common.{
  ℕ, ◌≡◌, ◌≢◌, ◌⊎◌, refl, inl, inr, Option, none, some, List, arith, Option-cases,
}
use web_tether.Common.Int.{ℤ}
use web_tether.Common.Dict.{get, text_eq, nat_eq}
use web_tether.Common.Result.{Result, ok, err}
use web_tether.SafeBuffer.{Bytes, SafeReader}
use web_tether.Protocol.{RelayServiceType}
use web_tether.Relay.{
  Text, Relay, RelayError, Write, BoundService, service, connection, connection_at,
}
use web_tether.Relay.Ends.{counter_of}
use web_tether.Relay.Invariant.{IsConsistent}
use web_tether.Relay.Steps.{Act, connection-eq-ok}
use web_tether.Session.{Context, Session, Turn, Next, RelayFailure, done, refuse, reading, calling}
use web_tether.Session.Commands.{handle_link, handle_stream, handle_closed}

-- Errors that the packets and the other sockets can cause; the others would be faults of the relay.
abbrev pub IsExpected : Next → Type 0
IsExpected Next.continue = Unit
IsExpected Next.stop = Unit
IsExpected (Next.throw RelayError.buffer_too_short) = Unit
IsExpected (Next.throw RelayError.already_bound) = Unit
IsExpected (Next.throw RelayError.type_error) = ⊥
IsExpected (Next.throw RelayError.service_not_found) = ⊥

-- The relay's change in a turn, and the turn's end.
pub record Moves (ctx : Context) (r : Relay) (t : Turn) : Type 0 where
  pub change : (t.session.relay ≡ r) ⊎ Act ctx.encode r t.session.relay
  pub expected : IsExpected t.next

pub service_total :
    (name : Text) (r : Relay)
    → IsConsistent r
    → (o : Option (Text × RelayServiceType)) × (service name r ≡ ok o)
unfolding service counter_of
service_total name r good = elim (Option-cases (get name r.bound_services)) [
  | inl free ↦ (none, rw (free, service))
  | inr (b, found) ↦ elim (Option-cases (get b.socket r.registered_sockets)) [
    | inl absent ↦ absurd (good.bound name b found (rw (absent, counter_of)))
    | inr (x, known) ↦ (some (x.alias, b.type), rw (found, service, known))
  ]
]

pub service-eq-some :
    (name : Text) (r : Relay) (p : Text × RelayServiceType)
    → service name r ≡ ok (some p)
    → (b : BoundService) × (get name r.bound_services ≡ some b)
unfolding service
service-eq-some name r p h = elim (Option-cases (get name r.bound_services)) [
  | inl free ↦ absurd (ground (arith, free))
  | inr found ↦ found
]

pub connection_total :
    (s : ℕ) (u : ℤ) (r : Relay)
    → counter_of s r ≢ none
    → connection s u r ≡ ok (connection_at s u r)
unfolding connection counter_of connection_at
connection_total s u r h = ground arith

module _ (ctx : Context) (s : Session) (good : IsConsistent s.relay)
    (known : counter_of ctx.socket s.relay ≢ none) where
  pub reading-Moves :
      {A : Type 0} (o : Option (A × SafeReader)) (k : A → SafeReader → Turn)
      → ((a : A) (r : SafeReader) → Moves ctx s.relay (k a r))
      → Moves ctx s.relay (reading s o k)
  unfolding reading
  reading-Moves none k h = record { change = inl refl; expected = tt }
  reading-Moves (some (a, r)) k h = h a r

  pub calling-Moves :
      {A : Type 0} (ws : List Write) (m : Result RelayError A) (k : A → Turn)
      → ((e : RelayError) → m ≡ err e → IsExpected (Next.throw e))
      → ((a : A) → m ≡ ok a → Moves ctx s.relay (k a))
      → Moves ctx s.relay (calling s ws m k)
  unfolding calling
  calling-Moves ws (err e) k expected h = record { change = inl refl; expected = expected e refl }
  calling-Moves ws (ok a) k expected h = h a refl

  pub done-Moves : (ws : List Write) → Moves ctx s.relay (done s ws)
  done-Moves ws = record { change = inl refl; expected = tt }

  pub refuse-Moves : (f : RelayFailure) (packet : Bytes) → Moves ctx s.relay (refuse ctx s f packet)
  unfolding refuse
  refuse-Moves f packet = record { change = inl refl; expected = ground arith }

  pub connection_never :
      (uid : ℤ) (e : RelayError)
      → connection ctx.socket uid s.relay ≡ err e
      → IsExpected (Next.throw e)
  connection_never uid e h = absurd (cc (connection_total ctx.socket uid s.relay known))

  pub service_never :
      (name : Text) (e : RelayError) → service name s.relay ≡ err e → IsExpected (Next.throw e)
  service_never name e h = let (o, fine) = service_total name s.relay good in absurd (cc)

  pub handle_link-Moves : (r : SafeReader) → Moves ctx s.relay (handle_link ctx r s)
  unfolding handle_link
  handle_link-Moves r = reading-Moves _ _ λ encoded _. reading-Moves _ _ λ uid r₁.
      reading-Moves _ _ λ reply _.
        calling-Moves _ _ _ (connection_never uid)
          (elim [ none ↦ λ e. done-Moves _ | some c ↦ λ e. done-Moves _ ])

  pub handle_stream-Moves : (r : SafeReader) → Moves ctx s.relay (handle_stream ctx r s)
  unfolding handle_stream
  handle_stream-Moves r = reading-Moves _ _ λ encoded _. reading-Moves _ _ λ uid r₁.
      calling-Moves _ _ _ (connection_never uid)
        (elim [ none ↦ λ e. done-Moves _ | some c ↦ λ e. done-Moves _ ])

  pub handle_closed-Moves : (r : SafeReader) → Moves ctx s.relay (handle_closed ctx r s)
  unfolding handle_closed
  handle_closed-Moves r = reading-Moves _ _ λ uid r₁. reading-Moves _ _ λ reason _.
      calling-Moves _ _ _ (connection_never uid) (elim [
        | none ↦ λ e. done-Moves _
        | some c ↦ λ e. record {
          change = inr (
              Act.closes ctx.socket uid c ctx.socket reason
                (connection-eq-ok ctx.socket uid s.relay e).1);
          expected = tt;
        }
      ])
