-- ===== src/Relay/Invariant.antt =====
-- The relay's tables are consistent: what the code takes for granted when it reads
-- `registeredSockets.get(…)!` and when it deletes a connection under both of its ends.
pub mod Keeps
pub mod Link
pub mod Bind
pub mod Closing
pub mod Disconnect
use web_tether.Common.{ℕ, ◌≡◌, ◌≢◌, ◌⊎◌, Bool, true, false, Option, none, some}
use web_tether.Common.Int.{ℤ, pos, ◌≤ℤ◌, is_positive, is_negative}
use web_tether.Common.Dict.{get, IsDistinct, text_eq}
use web_tether.Relay.{Text, Relay, BoundService, RelayServiceConnection, connection_at}
use web_tether.Relay.Ends.{counter_of, at_end}

-- Every bound service belongs to a registered socket; a connection is stored under its two ends
-- and nowhere else, with the client's identifier positive and the server's negative; and no
-- negative identifier of a socket lies below its counter, so that the next one is new.
pub record IsConsistent (r : Relay) : Type 0 where
  pub bound :
      (n : Text) (b : BoundService) → get n r.bound_services ≡ some b → counter_of b.socket r ≢ none
  pub ends :
      (s : ℕ) (u : ℤ) (c : RelayServiceConnection)
      → connection_at s u r ≡ some c
      → (at_end c.client s u ≡ true) ⊎ (at_end c.server s u ≡ true)
  pub client :
      (s : ℕ) (u : ℤ) (c : RelayServiceConnection)
      → connection_at s u r ≡ some c
      → connection_at c.client.socket c.client.uid r ≡ some c
  pub server :
      (s : ℕ) (u : ℤ) (c : RelayServiceConnection)
      → connection_at s u r ≡ some c
      → connection_at c.server.socket c.server.uid r ≡ some c
  pub client_uid :
      (s : ℕ) (u : ℤ) (c : RelayServiceConnection)
      → connection_at s u r ≡ some c
      → is_positive c.client.uid ≡ true
  pub server_uid :
      (s : ℕ) (u : ℤ) (c : RelayServiceConnection)
      → connection_at s u r ≡ some c
      → is_negative c.server.uid ≡ true
  pub counted :
      (s : ℕ) (u k : ℤ) (c : RelayServiceConnection)
      → connection_at s u r ≡ some c
      → is_negative u ≡ true
      → counter_of s r ≡ some k
      → k ≤ℤ u
  pub counters : (s : ℕ) (k : ℤ) → counter_of s r ≡ some k → k ≤ℤ pos 0
  pub distinct : IsDistinct r.bound_services
