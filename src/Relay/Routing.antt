-- ===== src/Relay/Routing.antt =====
-- Where the packets of a connection go, and what their receiver reads in them.
use web_tether.Common.{
  ℕ, ◌≡◌, ◌≢◌, ◌⊎◌, sym, refl, subst, true, false, none, some, [], ◌∷◌, ◌++◌, arith, inl, inr,
  ==_iff,
}
use web_tether.Common.Int.{ℤ}
use web_tether.SafeBuffer.{Bytes, SafeReader, safe_reader, uint8, int32, encode_int32}
use web_tether.SafeBuffer.Reads.{Left, safe_reader-Left}
use web_tether.SafeBuffer.RoundTrip.{uint8-Left, int32-encode_int32, IsInt32}
use web_tether.Protocol.{RelayCommand, command_code}
use web_tether.Relay.{Relay, End, RelayServiceConnection, connection_at, target, forward, close}
use web_tether.Relay.Ends.{at_end, at_end_sound, at_end_refl, connection_at-close}
use web_tether.Relay.Invariant.Keeps.{kept}
use web_tether.Relay.Invariant.{IsConsistent}

-- A packet of a command byte, a connection's identifier and a body, read as its receivers read it.
pub record IsPacket (command : ℕ) (uid : ℤ) (body : Bytes) (packet : Bytes) : Type 0 where
  pub at_uid : SafeReader
  pub at_body : SafeReader
  pub reads_command : uint8 false (safe_reader packet) ≡ some (command, at_uid)
  pub reads_uid : int32 false at_uid ≡ some (uid, at_body)
  pub reads_body : Left at_body body

pub IsPacket-encode :
    (command : ℕ) (uid : ℤ) (body : Bytes)
    → IsInt32 uid
    → IsPacket command uid body (command ∷ (encode_int32 uid ++ body))
IsPacket-encode command uid body h =
    let (r, e, left) =
      uint8-Left _ command 0 0 0 _ (safe_reader-Left (command ∷ (encode_int32 uid ++ body))) in
    let (r', e', left') = int32-encode_int32 uid r body h left in
    record { at_uid = r; at_body = r'; reads_command = e; reads_uid = e'; reads_body = left' }

-- The end of a connection that a socket is not.
target-other :
    (c : RelayServiceConnection) (s : ℕ)
    → c.client.socket ≢ c.server.socket
    → (c.client.socket ≡ s) ⊎ (c.server.socket ≡ s)
    → ((target c s).socket ≢ s)
      × (((target c s ≡ c.server) × (c.client.socket ≡ s))
          ⊎ ((target c s ≡ c.client) × (c.server.socket ≡ s)))
unfolding target
target-other c s differ (inl e) = ground (arith, ==_iff s c.server.socket)
target-other c s differ (inr e) = ground (arith, ==_iff s c.server.socket)

place :
    (c : RelayServiceConnection) (s : ℕ) (u : ℤ)
    → (at_end c.client s u ≡ true) ⊎ (at_end c.server s u ≡ true)
    → (c.client.socket ≡ s) ⊎ (c.server.socket ≡ s)
place c s u (inl p) = inl (at_end_sound c.client s u p).0
place c s u (inr p) = inr (at_end_sound c.server s u p).0

-- On a consistent relay, what a socket forwards over a connection with another socket goes to that
-- other socket, as a stream packet; the receiver reads in it its own identifier of the connection
-- (under which the relay stores the same connection for it) and then exactly the forwarded bytes.
pub forward-delivers :
    (s : ℕ) (u : ℤ) (c : RelayServiceConnection) (content : Bytes) (r : Relay)
    → IsConsistent r
    → connection_at s u r ≡ some c
    → c.client.socket ≢ c.server.socket
    → IsInt32 (target c s).uid
    → let (receiver, packet) = forward c s content in
      (receiver ≢ s)
      × (connection_at receiver (target c s).uid r ≡ some c)
      × IsPacket (command_code RelayCommand.service_stream) (target c s).uid content packet
unfolding forward
forward-delivers s u c content r good here differ h =
    let (away, which) = target-other c s differ (place c s u (good.ends s u c here)) in
    (
      away,
      elim which [
        | inl (e, _) ↦
            subst (λ (t : End). connection_at t.socket t.uid r ≡ some c) (sym e)
              (good.server s u c here)
        | inr (e, _) ↦
            subst (λ (t : End). connection_at t.socket t.uid r ≡ some c) (sym e)
              (good.client s u c here)
      ],
      IsPacket-encode _ _ content h,
    )

gone_end :
    (c : RelayServiceConnection) (source reason s : ℕ) (u : ℤ) (r : Relay)
    → (at_end c.client s u ≡ true) ⊎ (at_end c.server s u ≡ true)
    → connection_at s u (close c source reason r).0 ≡ none
gone_end c source reason s u r (inl p) = ground (arith, connection_at-close c source reason s u r)
gone_end c source reason s u r (inr p) = ground (arith, connection_at-close c source reason s u r)

target-end :
    (c : RelayServiceConnection) (s : ℕ)
    → (at_end c.client (target c s).socket (target c s).uid ≡ true)
      ⊎ (at_end c.server (target c s).socket (target c s).uid ≡ true)
unfolding target
target-end c s = ground (arith, at_end_refl c.client, at_end_refl c.server)

close-packet :
    (c : RelayServiceConnection) (s reason : ℕ) (r : Relay)
    → (close c s reason r).1 ≡ (
      (target c s).socket,
      command_code RelayCommand.service_closed ∷ (encode_int32 (target c s).uid ++ (reason ∷ [])),
    )
unfolding close
close-packet c s reason r = refl

-- Closing tells the other socket once, with its own identifier and the reason, and takes both
-- entries away; every other entry stays.
pub close-tells :
    (s : ℕ) (u : ℤ) (c : RelayServiceConnection) (reason : ℕ) (r : Relay)
    → IsConsistent r
    → connection_at s u r ≡ some c
    → c.client.socket ≢ c.server.socket
    → IsInt32 (target c s).uid
    → let (r', (receiver, packet)) = close c s reason r in
      (receiver ≢ s)
      × IsPacket (command_code RelayCommand.service_closed) (target c s).uid (reason ∷ []) packet
      × (connection_at s u r' ≡ none)
      × (connection_at receiver (target c s).uid r' ≡ none)
      × ((t : ℕ) (v : ℤ) (d : RelayServiceConnection)
          → d ≢ c
          → connection_at t v r ≡ some d
          → connection_at t v r' ≡ some d)
close-tells s u c reason r good here differ h =
    let e = close-packet c s reason r in
    (
      rw e (target-other c s differ (place c s u (good.ends s u c here))).0,
      rw e (IsPacket-encode _ _ (reason ∷ []) h),
      gone_end c s reason s u r (good.ends s u c here),
      rw e (gone_end c s reason _ _ r (target-end c s)),
      λ t v d ne old. kept c s reason s u r good here (record { socket = t; uid = v }) d old ne,
    )
