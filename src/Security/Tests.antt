-- ===== src/Security/Tests.antt =====
-- A tunnel whose cipher puts the vector in front of the message.
use web_tether.Common.{ℕ, ◌≡◌, refl, arith, some, List, [], ◌∷◌}
use web_tether.SafeBuffer.{Bytes}
use web_tether.Security.{relay, client, Cipher, TunnelSecurity, encode_iv, create_tunnel_security}
use web_tether.Security.Vectors.{encode_iv_injective}
use web_tether.Security.Lockstep.{encrypt_all, decrypt_all, all_some, decrypt_all-encrypt_all}

abbrev clear : Cipher
clear = record { seal = λ iv m. m; unseal = λ iv c. some c }

abbrev relay_end : TunnelSecurity
relay_end = create_tunnel_security relay clear

abbrev client_end : TunnelSecurity
client_end = create_tunnel_security client clear

abbrev greetings : List Bytes
greetings = (1 ∷ []) ∷ (2 ∷ 3 ∷ []) ∷ []

encode_iv_injective_example : (relay ≡ relay) × ◌≡◌ {A = ℕ} 65536 65536
encode_iv_injective_example =
    encode_iv_injective relay relay 65536 65536 (omega arith) (omega arith) refl

decrypt_all-encrypt_all_example :
    ((decrypt_all (encrypt_all greetings relay_end).0 client_end).0 ≡ all_some greetings)
    × ((decrypt_all (encrypt_all greetings relay_end).0 client_end).1.remote_counter
        ≡ (encrypt_all greetings relay_end).1.local_counter)
    × ((encrypt_all greetings relay_end).1.remote_counter ≡ relay_end.remote_counter)
    × ((decrypt_all (encrypt_all greetings relay_end).0 client_end).1.local_counter
        ≡ client_end.local_counter)
unfolding create_tunnel_security
decrypt_all-encrypt_all_example =
    decrypt_all-encrypt_all greetings relay_end client_end (λ iv m. refl) refl refl

encode_iv_run : encode_iv client 258 ≡ 2 ∷ 0 ∷ 0 ∷ 0 ∷ 0 ∷ 0 ∷ 0 ∷ 0 ∷ 0 ∷ 0 ∷ 1 ∷ 2 ∷ []
unfolding encode_iv
encode_iv_run = refl
