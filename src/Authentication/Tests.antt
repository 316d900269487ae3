-- ===== src/Authentication/Tests.antt =====
-- A client that knows its credentials, and one whose answer is wrong.
use web_tether.Common.{◌≡◌, refl, Option, some, List, [], ◌∷◌}
use web_tether.SafeBuffer.{Bytes, safe_reader, SafeReader, uint8, data_of}
use web_tether.Security.{Cipher, TunnelSecurity, create_tunnel_security, decrypt, relay}
use web_tether.Protocol.{authorized}
use web_tether.Authentication.{
  Text, Platform, Client, Verdict, verdict_packet, check_solution, handle_credentials, trying,
}
use web_tether.Authentication.Credentials.{IsKnown, check_solution_any, handle_credentials-IsKnown}

abbrev clear : Cipher
clear = record { seal = λ iv m. m; unseal = λ iv c. some c }

-- Hashes of one byte.
abbrev platform : Platform
platform = record {
  decode = λ b. b;
  random_values = λ i n. [];
  digest = λ b. [];
  generate_key = λ n. 9 ∷ [];
  handshake_cipher = λ k. clear;
  session_cipher = λ k. clear;
  pbkdf2 = λ answer salt. 0 ∷ [];
}

abbrev alice : Client
alice = record { alias = 97 ∷ []; salt = []; hash = 1 ∷ [] }

abbrev security : TunnelSecurity
security = create_tunnel_security relay clear

check_solution_any_example :
    check_solution platform alice [] security (some (7 ∷ 1 ∷ 2 ∷ 5 ∷ 6 ∷ []))
    ≡ record { sent = verdict_packet authorized ∷ []; verdict = Verdict.secured (97 ∷ []) security }
check_solution_any_example = check_solution_any platform alice [] security (5 ∷ 6 ∷ []) [] refl

abbrev anyone : Text → Option Client
anyone name = some alice

abbrev hello : SafeReader
hello = safe_reader (1 ∷ 97 ∷ [])

abbrev solutions : List Bytes
solutions = (7 ∷ 1 ∷ 2 ∷ 5 ∷ 6 ∷ []) ∷ []

secured_alice :
    (handle_credentials platform anyone hello solutions).verdict
    ≡ Verdict.secured (97 ∷ []) (decrypt (7 ∷ 1 ∷ 2 ∷ 5 ∷ 6 ∷ []) security).1
unfolding handle_credentials check_solution trying safe_reader uint8 data_of decrypt
    create_tunnel_security
secured_alice = refl

abbrev alice_tunnel : TunnelSecurity
alice_tunnel = (decrypt (7 ∷ 1 ∷ 2 ∷ 5 ∷ 6 ∷ []) security).1

handle_credentials-IsKnown_example :
    IsKnown platform anyone hello solutions
      (handle_credentials platform anyone hello solutions).sent
      (97 ∷ [])
      alice_tunnel
handle_credentials-IsKnown_example =
    handle_credentials-IsKnown platform anyone (97 ∷ []) alice_tunnel hello solutions secured_alice
