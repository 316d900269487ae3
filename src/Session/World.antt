-- ===== src/Session/World.antt =====
-- Every session of the relay server at once: sockets join after authentication, their packets are
-- handled one at a time in any order, and a session that returns, throws or is interrupted ends
-- with the `finally` block of `handleSocketRelay`.
use web_tether.Common.{
  ℕ, ◌≡◌, ◌≢◌, Bool, false, none, some, List, [], ◌++◌, arith, inl, inr, refl, Option-cases, ◌⊎◌,
}
use web_tether.Common.Dict.{Dict, get, set, delete, get-set, get-delete, nat_eq}
use web_tether.SafeBuffer.{Bytes}
use web_tether.Relay.{Text, Relay, RelayError, Write, create_relay, connected, disconnected}
use web_tether.Relay.Ends.{counter_of}
use web_tether.Relay.Links.{counter_of-connected}
use web_tether.Relay.Invariant.{IsConsistent}
use web_tether.Relay.Invariant.Keeps.{create_relay-IsConsistent}
use web_tether.Relay.Invariant.Link.{connected-IsConsistent}
use web_tether.Relay.Invariant.Disconnect.{disconnected-IsConsistent, disconnected-keeps}
use web_tether.Session.{Context, Turn, Next}
use web_tether.Session.Commands.{handle_packet}
use web_tether.Session.Laws.{IsExpected}
use web_tether.Session.Packets.{handle_packet-IsSafe}

-- A session in its command loop.
pub record Live : Type 0 where
  pub context : Context
  pub service_bound : Bool

-- The relay and the sessions, by socket.
pub record World : Type 0 where
  pub relay : Relay
  pub sessions : Dict ℕ Live

unfoldable pub empty_world : World
empty_world = record { relay = create_relay; sessions = [] }

-- `relay.connected(socket, writer.write, security.alias)`, and the loop begins.
unfoldable pub join : Context → Text → World → World
join ctx alias w = record {
  relay = connected ctx.socket alias w.relay;
  sessions = set ctx.socket (record { context = ctx; service_bound = false }) w.sessions;
}

-- The `finally` block.
unfoldable pub finish : ℕ → World → World × List Write
finish socket w =
    let (relay, ws) = disconnected socket w.relay in
    (record { relay = relay; sessions = delete socket w.sessions }, ws)

-- What follows a round: the loop goes on, or the session ends.
unfoldable pub after_turn : ℕ → Context → Dict ℕ Live → Turn → World × List Write
unfolding finish
after_turn socket ctx sessions t =
    let live : Live = record { context = ctx; service_bound = t.session.service_bound } in
    elim t.next [
      | Next.continue ↦
          (record { relay = t.session.relay; sessions = set socket live sessions }, t.writes)
      | _ ↦
          let (w, ws) = finish socket (record { relay = t.session.relay; sessions = sessions }) in
          (w, t.writes ++ ws)
    ]

-- The round of a session for a packet.
unfoldable pub turn_of : Live → (ℕ → Relay) → Bytes → Relay → Turn
turn_of live view packet relay =
    handle_packet live.context view packet
      (record { relay = relay; service_bound = live.service_bound })

unfoldable pub deliver : ℕ → (ℕ → Relay) → Bytes → World → World × List Write
unfolding after_turn turn_of
deliver socket view packet w = elim (get socket w.sessions) [
  | none ↦ (w, [])
  | some live ↦ after_turn socket live.context w.sessions (turn_of live view packet w.relay)
]

-- Every session's socket is registered with a consistent relay.
pub record IsSound (w : World) : Type 0 where
  pub consistent : IsConsistent w.relay
  pub registered :
      (s : ℕ) (live : Live)
      → get s w.sessions ≡ some live
      → (live.context.socket ≡ s) × (counter_of s w.relay ≢ none)

-- The reachable worlds. A socket joins once; the relays that a bind request finds while it awaits
-- its permission checks are any consistent ones, and so stand for all that others may do meanwhile.
pub data Reachable : World → Type 0 where
  begin : Reachable empty_world
  joins :
      {w : World} (ctx : Context) (alias : Text)
      → Reachable w
      → counter_of ctx.socket w.relay ≡ none
      → Reachable (join ctx alias w)
  receives :
      {w : World} (socket : ℕ) (view : ℕ → Relay) (packet : Bytes)
      → Reachable w
      → ((i : ℕ) → IsConsistent (view i))
      → Reachable (deliver socket view packet w).0
  leaves : {w : World} (socket : ℕ) → Reachable w → Reachable (finish socket w).0

join-IsSound :
    (ctx : Context) (alias : Text) (w : World)
    → IsSound w
    → counter_of ctx.socket w.relay ≡ none
    → IsSound (join ctx alias w)
unfolding join
join-IsSound ctx alias w sound new = record {
  consistent = connected-IsConsistent ctx.socket alias w.relay sound.consistent new;
  registered = λ s live h. elim (Option-cases (get s w.sessions)) [
    | inl absent ↦ ground (
      arith,
      get-set s ctx.socket (record { context = ctx; service_bound = false }) w.sessions,
      counter_of-connected ctx.socket alias s w.relay,
    )
    | inr (old, there) ↦ ground (
      arith,
      get-set s ctx.socket (record { context = ctx; service_bound = false }) w.sessions,
      counter_of-connected ctx.socket alias s w.relay,
      sound.registered s old there,
    )
  ];
}

finish-IsSound : (socket : ℕ) (w : World) → IsSound w → IsSound (finish socket w).0
unfolding finish
finish-IsSound socket w sound = record {
  consistent = disconnected-IsConsistent socket w.relay sound.consistent;
  registered = λ s live h.
      let was : get s w.sessions ≡ some live = ground (arith, get-delete s socket w.sessions) in
      let other : s ≢ socket = ground (arith, get-delete s socket w.sessions) in
      let (same, known) = sound.registered s live was in
      (same, rw ((disconnected-keeps socket w.relay sound.consistent).0 s other) known);
}

-- The same sessions over a relay in which every registered socket is still registered.
over_relay :
    (w : World) (r : Relay)
    → IsSound w
    → IsConsistent r
    → ((s : ℕ) → counter_of s w.relay ≢ none → counter_of s r ≢ none)
    → IsSound (record { relay = r; sessions = w.sessions })
over_relay w r sound good stays = record {
  consistent = good;
  registered = λ s live h. let (same, known) = sound.registered s live h in (same, stays s known);
}

set-IsSound :
    (socket : ℕ) (ctx : Context) (bound : Bool) (w : World)
    → IsSound w
    → (ctx.socket ≡ socket) × (counter_of socket w.relay ≢ none)
    → IsSound (record {
      relay = w.relay;
      sessions = set socket (record { context = ctx; service_bound = bound }) w.sessions;
    })
set-IsSound socket ctx bound w sound place = record {
  consistent = sound.consistent;
  registered = λ s live h. elim (Option-cases (get s w.sessions)) [
    | inl absent ↦
        ground
          (arith, get-set s socket (record { context = ctx; service_bound = bound }) w.sessions)
    | inr (old, there) ↦ ground (
      arith,
      get-set s socket (record { context = ctx; service_bound = bound }) w.sessions,
      sound.registered s old there,
      sound.registered s live,
    )
  ];
}

Next-cases :
    (n : Next) → (n ≡ Next.continue) ⊎ ((n ≡ Next.stop) ⊎ ((e : RelayError) × (n ≡ Next.throw e)))
Next-cases Next.continue = inl refl
Next-cases Next.stop = inr (inl refl)
Next-cases (Next.throw e) = inr (inr (e, refl))

empty_world-IsSound : IsSound empty_world
unfolding empty_world get
empty_world-IsSound = record {
  consistent = create_relay-IsConsistent;
  registered = λ s live h. absurd (cc);
}

after_turn-IsSound :
    (socket : ℕ) (ctx : Context) (w : World) (t : Turn)
    → IsSound w
    → IsConsistent t.session.relay
    → ((s : ℕ) → counter_of s w.relay ≢ none → counter_of s t.session.relay ≢ none)
    → (ctx.socket ≡ socket) × (counter_of socket w.relay ≢ none)
    → IsSound (after_turn socket ctx w.sessions t).0
unfolding after_turn
after_turn-IsSound socket ctx w t sound good stays (same, known) =
    let w' : World = record { relay = t.session.relay; sessions = w.sessions } in
    let sound' = over_relay w t.session.relay sound good stays in
    elim (Next-cases t.next) [
      | inl e ↦
          rw (e, after_turn)
            (set-IsSound socket ctx t.session.service_bound w' sound' (same, stays socket known))
      | inr (inl e) ↦ rw (e, after_turn) (finish-IsSound socket w' sound')
      | inr (inr (fault, e)) ↦ rw (e, after_turn) (finish-IsSound socket w' sound')
    ]

turn_of-IsSafe :
    (socket : ℕ) (live : Live) (view : ℕ → Relay) (packet : Bytes) (w : World)
    → IsSound w
    → get socket w.sessions ≡ some live
    → ((i : ℕ) → IsConsistent (view i))
    → let t = turn_of live view packet w.relay in
      IsConsistent t.session.relay
      × ((s : ℕ) → counter_of s w.relay ≢ none → counter_of s t.session.relay ≢ none)
      × IsExpected t.next
unfolding turn_of
turn_of-IsSafe socket live view packet w sound here views =
    let (same, known) = sound.registered socket live here in
    handle_packet-IsSafe live.context view
      (record { relay = w.relay; service_bound = live.service_bound }) sound.consistent
      (rw same known) views packet

deliver-IsSound :
    (socket : ℕ) (view : ℕ → Relay) (packet : Bytes) (w : World)
    → IsSound w
    → ((i : ℕ) → IsConsistent (view i))
    → IsSound (deliver socket view packet w).0
unfolding deliver
deliver-IsSound socket view packet w sound views = elim (Option-cases (get socket w.sessions)) [
  | inl absent ↦ rw (absent, deliver) sound
  | inr (live, here) ↦
      let safe = turn_of-IsSafe socket live view packet w sound here views in
      rw (here, deliver)
        (after_turn-IsSound socket live.context w (turn_of live view packet w.relay) sound safe.0
          safe.1 (sound.registered socket live here))
]

-- In every reachable world the relay is consistent and the socket of every session is registered.
pub Reachable-IsSound : {w : World} → Reachable w → IsSound w
Reachable-IsSound begin = empty_world-IsSound
Reachable-IsSound (joins ctx alias reached new) =
    join-IsSound ctx alias _ (Reachable-IsSound reached) new
Reachable-IsSound (receives {w} socket view packet reached views) =
    deliver-IsSound socket view packet w (Reachable-IsSound reached) views
Reachable-IsSound (leaves {w} socket reached) = finish-IsSound socket w (Reachable-IsSound reached)

-- In every reachable world, whatever bytes a live session receives, its round reads no property of
-- `undefined` and finds every service that it links to: it throws nothing but what a short packet
-- or a lost race for a service name throws.
pub turn_of-IsExpected :
    {w : World} (socket : ℕ) (live : Live) (view : ℕ → Relay) (packet : Bytes)
    → Reachable w
    → get socket w.sessions ≡ some live
    → ((i : ℕ) → IsConsistent (view i))
    → IsExpected (turn_of live view packet w.relay).next
turn_of-IsExpected {w} socket live view packet reached here views =
    (turn_of-IsSafe socket live view packet w (Reachable-IsSound reached) here views).2
