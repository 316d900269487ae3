-- ===== src/Security/Lockstep.antt =====
-- The two ends of a tunnel count the same messages.
use web_tether.Common.{◌+◌, ◌≡◌, refl, ap, Option, some, List, [], ◌∷◌}
use web_tether.SafeBuffer.{Bytes}
use web_tether.Security.{TunnelSecurity, opposite, encode_iv, encrypt, decrypt}

-- The ciphertexts of messages in the order of their encryption.
unfoldable pub encrypt_all : List Bytes → TunnelSecurity → List Bytes × TunnelSecurity
encrypt_all [] t = ([], t)
encrypt_all (m ∷ ms) t =
    let (c, t₁) = encrypt m t in let (cs, t₂) = encrypt_all ms t₁ in (c ∷ cs, t₂)

-- The plaintexts of ciphertexts in the order of their decryption.
unfoldable pub decrypt_all : List Bytes → TunnelSecurity → List (Option Bytes) × TunnelSecurity
decrypt_all [] t = ([], t)
decrypt_all (c ∷ cs) t =
    let (m, t₁) = decrypt c t in let (ms, t₂) = decrypt_all cs t₁ in (m ∷ ms, t₂)

abbrev pub all_some : List Bytes → List (Option Bytes)
all_some [] = []
all_some (m ∷ ms) = some m ∷ all_some ms

decrypt-encrypt :
    (m : Bytes) (s r : TunnelSecurity)
    → ((iv m : Bytes) → r.cipher.unseal iv (s.cipher.seal iv m) ≡ some m)
    → opposite r.role ≡ s.role
    → r.remote_counter ≡ s.local_counter
    → r.cipher.unseal
        (encode_iv (opposite r.role) r.remote_counter)
        (s.cipher.seal (encode_iv s.role s.local_counter) m)
      ≡ some m
decrypt-encrypt m s r opens facing level = rw (facing, level) (opens _ m)

-- With a cipher that opens what it has sealed with the same vector: messages that one end encrypts are
-- decrypted by the other end, in the same order, to the same messages, if the receiver has decrypted
-- as many messages as the sender had encrypted; and it has again afterwards. The counters of the other
-- direction stay as they were.
pub decrypt_all-encrypt_all :
    (ms : List Bytes) (s r : TunnelSecurity)
    → ((iv m : Bytes) → r.cipher.unseal iv (s.cipher.seal iv m) ≡ some m)
    → opposite r.role ≡ s.role
    → r.remote_counter ≡ s.local_counter
    → let (cs, s') = encrypt_all ms s in
      let (out, r') = decrypt_all cs r in
      (out ≡ all_some ms)
      × (r'.remote_counter ≡ s'.local_counter)
      × (s'.remote_counter ≡ s.remote_counter)
      × (r'.local_counter ≡ r.local_counter)
unfolding encrypt_all decrypt_all encrypt decrypt
decrypt_all-encrypt_all [] s r opens facing level = (refl, level, refl, refl)
decrypt_all-encrypt_all (m ∷ ms) s r opens facing level =
    let (e, f, g, h) =
      decrypt_all-encrypt_all ms (encrypt m s).1 (decrypt (encrypt m s).0 r).1 opens facing
        (ap (λ n. n + 1) level) in
    (rw (decrypt-encrypt m s r opens facing level) (ap (λ l. some m ∷ l) e), f, g, h)
