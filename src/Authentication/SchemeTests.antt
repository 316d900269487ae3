-- ===== src/Authentication/SchemeTests.antt =====
-- Whole authentications at concrete values, with a cipher in clear and one with a tag.
use web_tether.Common.{
  ℕ, zero, suc, ap, sym, ◌/◌, ◌≡◌, refl, arith, Option, none, some, [], ◌∷◌, ◌++◌, length,
  length-append,
}
use web_tether.SafeBuffer.{Bytes, SafeReader, safe_reader, sized8, uint8, data_of}
use web_tether.Security.{Cipher, encrypt, create_tunnel_security}
use web_tether.Authentication.{
  Text, Platform, Client, IdentityScheme, authenticate_relay, handle_credentials,
}
use web_tether.Authentication.Identity.{
  IdentityClient, IdentityPlatform, handle_identity, sealed_challenge,
}
use web_tether.Authentication.Clients.{credentials_client, identity_client}
use web_tether.Authentication.Exchange.{Conversation, IsRegistered, crypto_of, credentials_exchange}
use web_tether.Authentication.IdentityExchange.{IsIdentified, keys_of, identity_exchange}
use web_tether.Authentication.Enumeration.{first_length, HasSizes, credentials_enumeration}

abbrev plain : Cipher
plain = record { seal = λ iv m. m; unseal = λ iv c. some c }

abbrev zeros : Bytes
zeros = 0 ∷ 0 ∷ 0 ∷ 0 ∷ 0 ∷ 0 ∷ 0 ∷ 0 ∷ 0 ∷ 0 ∷ 0 ∷ 0 ∷ 0 ∷ 0 ∷ 0 ∷ 0 ∷ []

abbrev tagging : Cipher
tagging = record { seal = λ iv m. m ++ zeros; unseal = λ iv c. none }

-- Random bytes and hashes of one byte.
abbrev small_platform : Platform
small_platform = record {
  decode = λ b. b;
  random_values = λ i n. 8 ∷ [];
  digest = λ b. 3 ∷ [];
  generate_key = λ n. 9 ∷ [];
  handshake_cipher = λ k. plain;
  session_cipher = λ k. plain;
  pbkdf2 = λ answer salt. 0 ∷ [];
}

abbrev repeated : ℕ → Bytes
repeated zero = []
repeated (suc n) = 0 ∷ repeated n

abbrev tagging_platform : Platform
tagging_platform = record (small_platform) {
  random_values = λ i n. repeated n;
  digest = λ m. repeated 32;
  generate_key = λ n. repeated (n / 8);
  handshake_cipher = λ k. tagging;
}

abbrev carol : Client
carol = record { alias = 99 ∷ []; salt = 2 ∷ []; hash = 0 ∷ [] }

abbrev look_up : Text → Option Client
look_up name = some carol

abbrev unchanged : Text → Bytes
unchanged name = name

abbrev no_identity : IdentityScheme
no_identity = none

carol-IsRegistered : IsRegistered small_platform unchanged look_up (99 ∷ []) (42 ∷ []) carol
carol-IsRegistered = record {
  decoded = refl;
  found = refl;
  registered = refl;
  handshake_opens = λ iv m. refl;
  session_opens = λ iv m. refl;
  name_fits = omega arith;
  salt_fits = omega arith;
  iv_fits = omega arith;
  key_fits = omega arith;
  answer_fits = omega arith;
}

credentials_exchange_example :
    Conversation
      (99 ∷ [])
      (credentials_client (crypto_of unchanged small_platform) (99 ∷ []) (42 ∷ []))
      (authenticate_relay small_platform (some look_up) no_identity)
credentials_exchange_example =
    credentials_exchange small_platform unchanged look_up no_identity (99 ∷ []) (42 ∷ []) carol
      carol-IsRegistered

abbrev identity_platform : IdentityPlatform
identity_platform = record {
  session_salt = 6 ∷ [];
  session_challenge = 7 ∷ 7 ∷ [];
  mock_secret = 1 ∷ [];
  derive_raw_secret = λ private public. 5 ∷ [];
  derive_session_key = λ secret salt info. 5 ∷ [];
  session_cipher = λ k. plain;
}

abbrev dave : IdentityClient
dave = record { alias = 100 ∷ []; key = 1 ∷ [] }

abbrev identify : Bytes → Option IdentityClient
identify hash = some dave

dave-IsIdentified :
    IsIdentified identity_platform identify (11 ∷ []) (12 ∷ []) (13 ∷ []) (14 ∷ []) dave
unfolding encrypt create_tunnel_security sealed_challenge
dave-IsIdentified = record {
  found = refl;
  agree = refl;
  opens = λ iv m. refl;
  hash_fits = omega arith;
  salt_fits = omega arith;
  sealed_fits = omega arith;
}

identity_exchange_example :
    Conversation
      (100 ∷ [])
      (identity_client (keys_of identity_platform (11 ∷ []) (12 ∷ []) (13 ∷ [])))
      (authenticate_relay small_platform
        (some look_up)
        (some (handle_identity identity_platform (14 ∷ []) identify)))
identity_exchange_example =
    identity_exchange small_platform (some look_up) identity_platform identify (11 ∷ []) (12 ∷ [])
      (13 ∷ []) (14 ∷ []) dave dave-IsIdentified

repeated-length : (n : ℕ) → length (repeated n) ≡ n
repeated-length zero = refl
repeated-length (suc n) = ap suc (repeated-length n)

tagging_platform-HasSizes : HasSizes tagging_platform
tagging_platform-HasSizes = record {
  drawn = λ i n h. repeated-length n;
  digested = λ m. refl;
  generated = refl;
  tagged = λ key iv m. omega (arith, length-append m zeros);
}

abbrev erin : Client
erin = record { alias = 101 ∷ []; salt = zeros; hash = 0 ∷ [] }

-- Of this server every name is known but the empty one.
abbrev named_known : Text → Option Client
named_known [] = none
named_known (_ ∷ _) = some erin

named_known-salted : (name : Text) (c : Client) → named_known name ≡ some c → length c.salt ≡ 16
named_known-salted [] c e = absurd (cc)
named_known-salted (_ ∷ _) c e = let same : erin ≡ c = cc in ap (λ c. length c.salt) (sym same)

abbrev hello_nobody : SafeReader
hello_nobody = safe_reader (0 ∷ [])

nobody_read : sized8 hello_nobody ≡ some ([], record { buffer = 0 ∷ []; offset = 1 })
unfolding sized8 uint8 data_of safe_reader
nobody_read = refl

credentials_enumeration_example :
    first_length (handle_credentials tagging_platform named_known hello_nobody []).sent ≡ 69
credentials_enumeration_example =
    credentials_enumeration tagging_platform named_known hello_nobody
      (record { buffer = 0 ∷ []; offset = 1 }) [] tagging_platform-HasSizes named_known-salted
      nobody_read
