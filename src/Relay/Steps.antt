-- ===== src/Relay/Steps.antt =====
-- The relay's life: a step relation over its methods, each under the guard that its caller in
-- `handleSocketRelay` has checked.
use web_tether.Common.{
  ℕ, ◌≡◌, ◌≢◌, ap, true, Option, none, some, List, arith, Option-cases, inl, inr, subst,
}
use web_tether.Common.Int.{ℤ, is_positive}
use web_tether.Common.Dict.{get, text_eq, nat_eq}
use web_tether.Common.Result.{ok, or_throw, >>=-eq-ok, or_throw-eq-ok}
use web_tether.SafeBuffer.{Bytes}
use web_tether.Relay.{
  Text, Relay, RelayService, RelayServiceConnection, RegisteredSocket, BoundService, RelayError,
  Write, create_relay, connected, bind, link, link_with, connection, connection_at, close,
  disconnected,
}
use web_tether.Relay.Ends.{counter_of, counter_of-close}
use web_tether.Relay.Links.{counter_of-link_with}
use web_tether.Relay.Invariant.{IsConsistent}
use web_tether.Relay.Invariant.Keeps.{create_relay-IsConsistent, close-IsConsistent}
use web_tether.Relay.Invariant.Link.{connected-IsConsistent, link_with-IsConsistent}
use web_tether.Relay.Invariant.Bind.{bind-IsConsistent, counter_of-bind}
use web_tether.Relay.Invariant.Disconnect.{disconnected-IsConsistent}

-- What a registered socket can do: bind, link (a client's identifier is positive and not in use),
-- and close a connection of the relay.
pub data Act (encode : Text → Bytes) : Relay → Relay → Type 0 where
  binds :
      {r r' : Relay} (s : ℕ) (services : List RelayService)
      → counter_of s r ≢ none
      → bind s services r ≡ ok r'
      → Act encode r r'
  links :
      {r r' : Relay} (s : ℕ) (name : Text) (uid : ℤ) (metadata : Bytes) (w : Write)
      → is_positive uid ≡ true
      → connection s uid r ≡ ok none
      → link encode s name uid metadata r ≡ ok (r', w)
      → Act encode r r'
  closes :
      {r : Relay} (s : ℕ) (uid : ℤ) (c : RelayServiceConnection) (source reason : ℕ)
      → connection_at s uid r ≡ some c
      → Act encode r (close c source reason r).0

-- A socket connects once, acts, and disconnects.
pub data Step (encode : Text → Bytes) : Relay → Relay → Type 0 where
  connects :
      {r : Relay} (s : ℕ) (alias : Text)
      → counter_of s r ≡ none
      → Step encode r (connected s alias r)
  acts : {r r' : Relay} → Act encode r r' → Step encode r r'
  disconnects : {r : Relay} (s : ℕ) → Step encode r (disconnected s r).0

pub data Reach (encode : Text → Bytes) : Relay → Type 0 where
  start : Reach encode create_relay
  next : {r r' : Relay} → Reach encode r → Step encode r r' → Reach encode r'

-- What `connection` says of a registered socket.
pub connection-eq-ok :
    (s : ℕ) (uid : ℤ) (r : Relay) {o : Option RelayServiceConnection}
    → connection s uid r ≡ ok o
    → (counter_of s r ≢ none) × (connection_at s uid r ≡ o)
unfolding connection connection_at counter_of
connection-eq-ok s uid r h = (ground arith, ground arith)

-- A `link` that returns has gone through `link_with` for a registered client and server.
pub record Linked (encode : Text → Bytes) (s : ℕ) (name : Text) (uid : ℤ) (metadata : Bytes)
    (r : Relay) (result : Relay × Write) : Type 0 where
  pub bound : BoundService
  pub server : RegisteredSocket
  pub found : get name r.bound_services ≡ some bound
  pub known : get bound.socket r.registered_sockets ≡ some server
  pub client : counter_of s r ≢ none
  pub same : link_with encode s name uid metadata bound.socket server r ≡ result

known-counter :
    (s : ℕ) (r : Relay) {x : RegisteredSocket}
    → get s r.registered_sockets ≡ some x
    → counter_of s r ≢ none
unfolding counter_of
known-counter s r h e = ground arith

pub link-Linked :
    (encode : Text → Bytes) (s : ℕ) (name : Text) (uid : ℤ) (metadata : Bytes) (r : Relay)
    (result : Relay × Write)
    → link encode s name uid metadata r ≡ ok result
    → Linked encode s name uid metadata r result
unfolding link
link-Linked encode s name uid metadata r result h =
    let (b, found, h₁) =
      >>=-eq-ok (or_throw RelayError.service_not_found (get name r.bound_services)) _ h in
    let (x, client, h₂) =
      >>=-eq-ok (or_throw RelayError.type_error (get s r.registered_sockets)) _ h₁ in
    let (y, server, h₃) =
      >>=-eq-ok (or_throw RelayError.type_error (get b.socket r.registered_sockets)) _ h₂ in
    record {
      bound = b;
      server = y;
      found = or_throw-eq-ok _ _ found;
      known = or_throw-eq-ok _ _ server;
      client = known-counter s r (or_throw-eq-ok _ _ client);
      same = cc;
    }

-- On a consistent relay a registered socket can link to any service that is bound.
pub link-IsOk :
    (encode : Text → Bytes) (s : ℕ) (name : Text) (uid : ℤ) (metadata : Bytes) (r : Relay)
    (b : BoundService)
    → IsConsistent r
    → counter_of s r ≢ none
    → get name r.bound_services ≡ some b
    → (x : RegisteredSocket) × (get b.socket r.registered_sockets ≡ some x)
      × (link encode s name uid metadata r ≡ ok (link_with encode s name uid metadata b.socket x r))
unfolding link counter_of
link-IsOk encode s name uid metadata r b good client found =
    let server = good.bound name b found in
    elim (Option-cases (get s r.registered_sockets)) [
      | inl absent ↦ absurd (client (rw (absent, counter_of)))
      | inr (y, here) ↦ elim (Option-cases (get b.socket r.registered_sockets)) [
        | inl absent ↦ absurd (server (rw (absent, counter_of)))
        | inr (x, there) ↦ (x, there, rw (found, here, there))
      ]
    ]

pub Act-IsConsistent :
    (encode : Text → Bytes) {r r' : Relay} → Act encode r r' → IsConsistent r → IsConsistent r'
Act-IsConsistent encode {r} {r'} (Act.binds s services registered done) good =
    bind-IsConsistent s services r r' done good registered
Act-IsConsistent encode {r} {r'} (Act.links s name uid metadata w positive unused done) good =
    let parts = link-Linked encode s name uid metadata r (r', w) done in
    subst IsConsistent (ap (λ p. p.0) parts.same) (
      link_with-IsConsistent encode s name uid metadata parts.bound.socket parts.server r good
        parts.known parts.client positive (connection-eq-ok s uid r unused).1)
Act-IsConsistent encode {r} (Act.closes s uid c source reason here) good =
    close-IsConsistent c source reason s uid r good here

-- No act takes a socket's registration away.
pub Act-registered :
    (encode : Text → Bytes) (t : ℕ) {r r' : Relay}
    → Act encode r r'
    → counter_of t r ≢ none
    → counter_of t r' ≢ none
Act-registered encode t {r} {r'} (Act.binds s services registered done) h =
    rw (counter_of-bind s services r r' done t) h
Act-registered encode t {r} {r'} (Act.links s name uid metadata w positive unused done) h =
    let parts = link-Linked encode s name uid metadata r (r', w) done in
    subst (λ q. counter_of t q ≢ none) (ap (λ p. p.0) parts.same)
      (ground (
        arith,
        counter_of-link_with encode s name uid metadata parts.bound.socket parts.server r t,
      ))
Act-registered encode t {r} (Act.closes s uid c source reason here) h =
    rw (counter_of-close c source reason t r) h

pub Step-IsConsistent :
    (encode : Text → Bytes) {r r' : Relay} → Step encode r r' → IsConsistent r → IsConsistent r'
Step-IsConsistent encode {r} (Step.connects s alias new) good =
    connected-IsConsistent s alias r good new
Step-IsConsistent encode (Step.acts a) good = Act-IsConsistent encode a good
Step-IsConsistent encode {r} (Step.disconnects s) good = disconnected-IsConsistent s r good

-- Every state that the relay reaches from the empty one is consistent: bound services belong to
-- registered sockets, each connection is stored under both of its ends and nowhere else, and no
-- identifier that the relay gives out is in use.
pub Reach-IsConsistent : (encode : Text → Bytes) {r : Relay} → Reach encode r → IsConsistent r
Reach-IsConsistent encode start = create_relay-IsConsistent
Reach-IsConsistent encode (next reached step) =
    Step-IsConsistent encode step (Reach-IsConsistent encode reached)
