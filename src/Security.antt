-- ===== src/Security.antt =====
-- src/tunnel/common/tunnel.security.ts: the initialisation vectors and the counters of a tunnel's
-- ciphering. AES-GCM is a parameter: a cipher for each key, whose decryption is `none` where the
-- platform throws.
pub mod Vectors
pub mod Lockstep
mod Tests
use web_tether.Common.{ℕ, ◌+◌, ◌*◌, ◌/◌, ◌%◌, ◌^◌, Option, none, some, List, [], ◌∷◌, ◌++◌, drop}
use web_tether.SafeBuffer.{Bytes, be32}

pub data TunnelSecurityRole : Type 0 where
  relay client : TunnelSecurityRole

-- `view.setBigUint64(4, low)`
abbrev pub be64 : ℕ → Bytes
be64 n = be32 (n / 4294967296) ++ be32 n

abbrev pub role_byte : TunnelSecurityRole → ℕ
role_byte relay = 1
role_byte client = 2

-- The 12 bytes of `encodeIV`: `iv[0]` overwrites the highest byte of `high`.
unfoldable pub encode_iv : TunnelSecurityRole → ℕ → Bytes
encode_iv role counter =
    let c = counter % 309485009821345068724781056 in
    let high = c / 18446744073709551616 in
    let low = c % 18446744073709551616 in role_byte role ∷ (drop 1 (be32 high) ++ be64 low)

-- AES-GCM for one key.
pub record Cipher : Type 0 where
  pub seal : Bytes → Bytes → Bytes
  pub unseal : Bytes → Bytes → Option Bytes

-- The closure of `createTunnelSecurity`.
pub record TunnelSecurity : Type 0 where
  pub role : TunnelSecurityRole
  pub cipher : Cipher
  pub local_counter : ℕ
  pub remote_counter : ℕ

abbrev pub opposite : TunnelSecurityRole → TunnelSecurityRole
opposite relay = client
opposite client = relay

unfoldable pub create_tunnel_security : TunnelSecurityRole → Cipher → TunnelSecurity
create_tunnel_security role cipher = record {
  role = role;
  cipher = cipher;
  local_counter = 0;
  remote_counter = 0;
}

-- The counter goes up before the cipher is called, also when that throws.
unfoldable pub encrypt : Bytes → TunnelSecurity → Bytes × TunnelSecurity
unfolding encode_iv
encrypt plaintext t = (
  t.cipher.seal (encode_iv t.role t.local_counter) plaintext,
  record t { local_counter = t.local_counter + 1 },
)

unfoldable pub decrypt : Bytes → TunnelSecurity → Option Bytes × TunnelSecurity
unfolding encode_iv
decrypt ciphertext t = (
  t.cipher.unseal (encode_iv (opposite t.role) t.remote_counter) ciphertext,
  record t { remote_counter = t.remote_counter + 1 },
)
