-- ===== src/Authentication/IdentityExchange.antt =====
-- The identity scheme in conversation.
use web_tether.Common.{
  ◌%◌, ◌<◌, ◌≡◌, refl, sym, ◌∙◌, subst, true, Option, some, List, [], ◌∷◌, ◌++◌, length, append-nil,
  ==_refl,
}
use web_tether.SafeBuffer.{Bytes, encode_with_uint8_length, encode_uint8}
use web_tether.SafeBuffer.Reads.{Left, safe_reader-Left}
use web_tether.SafeBuffer.RoundTrip.{uint8-Left, data_of-Left}
use web_tether.Protocol.{advanced_auth, authorized}
use web_tether.Security.{
  TunnelSecurity, Cipher, relay, client, encode_iv, create_tunnel_security, encrypt, decrypt,
}
use web_tether.Authentication.{
  Text, Verdict, Client, Platform, verdict_packet, choose_schema, authenticate_relay, trying,
  same_hash,
}
use web_tether.Authentication.Identity.{
  IdentityClient, IdentityPlatform, session_info, identity_challenge, sealed_challenge,
  check_identity, challenge_identity, identity_looked_up, identity_read, handle_identity,
}
use web_tether.Authentication.Clients.{
  IdentityKeys, ClientVerdict, identity_hello, solve_identity, identity_client, attempting,
}
use web_tether.Authentication.Exchange.{
  IsLevel-AreConnected, Opens, Conversation, sized8-Left, check_header-Left, check_result-joins,
  authenticate_relay-mode,
}

same_hash_refl : (b : Bytes) → same_hash b b ≡ true
unfolding same_hash
same_hash_refl [] = refl
same_hash_refl (x ∷ b) = rw (==_refl x, same_hash_refl b) refl

-- The right answer to the challenge is accepted.
check_identity-secures :
    (p : IdentityPlatform) (alias : Text) (sent : List Bytes) (security : TunnelSecurity)
    → check_identity p alias sent security (some (7 ∷ 2 ∷ p.session_challenge)) ≡ record {
      sent = sent ++ (verdict_packet authorized ∷ []);
      verdict = Verdict.secured alias security;
    }
unfolding check_identity trying
check_identity-secures p alias sent security =
    let answer = p.session_challenge in
    let (r, e, left) = uint8-Left _ 7 0 0 0 _ (safe_reader-Left (7 ∷ 2 ∷ answer)) in
    let (r₁, e₁, left₁) = uint8-Left r 2 0 0 0 _ left in
    let (r₂, e₂, left₂) =
      data_of-Left r₁ answer [] (subst (Left r₁) (sym (append-nil answer)) left₁) in
    rw (e, e₁, e₂, same_hash_refl answer) refl

-- The client's keys over the same platform.
abbrev pub keys_of : IdentityPlatform → Bytes → Bytes → Bytes → IdentityKeys
keys_of p key_hash private_key server_key = record {
  key_hash = key_hash;
  private_key = private_key;
  server_key = server_key;
  derive_raw_secret = p.derive_raw_secret;
  derive_session_key = p.derive_session_key;
  session_cipher = p.session_cipher;
}

module _ (p : IdentityPlatform) (key_hash private_key server_key server_private : Bytes)
    (c : IdentityClient) where
  abbrev pub secret : Bytes
  secret = p.derive_raw_secret server_private c.key

  abbrev pub session : Cipher
  session = p.session_cipher (p.derive_session_key secret p.session_salt session_info)

  -- The challenge on the wire, and the server after it.
  abbrev pub sealed : Bytes
  sealed = (sealed_challenge p secret).0

  abbrev server_waiting : TunnelSecurity
  server_waiting = (sealed_challenge p secret).1

  abbrev client_solving : TunnelSecurity
  client_solving = (decrypt sealed (create_tunnel_security client session)).1

  abbrev answer : Bytes
  answer = 7 ∷ 2 ∷ p.session_challenge

  abbrev answer_packet : Bytes
  answer_packet = (encrypt answer client_solving).0

  abbrev client_ready : TunnelSecurity
  client_ready = (encrypt answer client_solving).1

  abbrev server_ready : TunnelSecurity
  server_ready = (decrypt answer_packet server_waiting).1

  identity_client-joins :
      p.derive_raw_secret private_key server_key ≡ secret
      → length p.session_salt < 256
      → length sealed < 256
      → Opens session
      → identity_client
          (keys_of p key_hash private_key server_key)
          (identity_challenge p.session_salt sealed ∷ verdict_packet authorized ∷ [])
        ≡ record {
          sent = identity_hello key_hash ∷ answer_packet ∷ [];
          verdict = ClientVerdict.joined client_ready;
        }
  unfolding identity_client attempting solve_identity decrypt create_tunnel_security
      sealed_challenge encrypt
  identity_client-joins agree low₁ low₂ opens =
      let sealed_on : Bytes = length sealed % 256 ∷ sealed in
      let (r, left, e) =
        check_header-Left (identity_hello key_hash ∷ []) advanced_auth
          ((length p.session_salt % 256 ∷ p.session_salt) ++ sealed_on) _ in
      let (r₁, e₁, left₁) = sized8-Left r p.session_salt sealed_on low₁ left in
      let (r₂, e₂, left₂) =
        sized8-Left r₁ sealed [] low₂ (subst (Left r₁) (sym (append-nil sealed_on)) left₁) in
      e
      ∙ rw (e₁, e₂, agree, opens (encode_iv relay 0) p.session_challenge)
          (check_result-joins (identity_hello key_hash ∷ answer_packet ∷ []) client_ready)

  authenticate_relay-secures_identity :
      (platform : Platform) (credentials : Option (Text → Option Client))
      (lookup : Bytes → Option IdentityClient)
      → lookup key_hash ≡ some c
      → length key_hash < 256
      → Opens session
      → authenticate_relay platform credentials
          (some (handle_identity p server_private lookup))
          (identity_hello key_hash ∷ answer_packet ∷ [])
        ≡ record {
          sent = identity_challenge p.session_salt sealed ∷ verdict_packet authorized ∷ [];
          verdict = Verdict.secured c.alias server_ready;
        }
  unfolding choose_schema handle_identity identity_read identity_looked_up challenge_identity
      sealed_challenge decrypt encrypt create_tunnel_security encode_with_uint8_length encode_uint8
  authenticate_relay-secures_identity platform credentials lookup found low opens =
      let (r, left, e) =
        authenticate_relay-mode platform credentials
          (some (handle_identity p server_private lookup)) 2 (length key_hash % 256 ∷ key_hash)
          (answer_packet ∷ []) in
      let (r₁, e₁, left₁) =
        sized8-Left r key_hash [] low (subst (Left r) (sym (append-nil _)) left) in
      e
      ∙ rw (e₁, found, opens (encode_iv client 0) answer)
          (check_identity-secures p c.alias (identity_challenge p.session_salt sealed ∷ [])
            server_ready)

-- A client whose key is known to the server, with keys that agree on the shared secret (as those of
-- ECDH do), fields that fit their length bytes, and a cipher that opens what it has sealed.
pub record IsIdentified (p : IdentityPlatform) (lookup : Bytes → Option IdentityClient)
    (key_hash private_key server_key server_private : Bytes) (c : IdentityClient) : Type 0 where
  pub found : lookup key_hash ≡ some c
  pub agree :
      p.derive_raw_secret private_key server_key
      ≡ secret p key_hash private_key server_key server_private c
  pub opens : Opens (session p key_hash private_key server_key server_private c)
  pub hash_fits : length key_hash < 256
  pub salt_fits : length p.session_salt < 256
  pub sealed_fits : length (sealed p key_hash private_key server_key server_private c) < 256

-- A client whose public key the server knows is authenticated by its identity: there are packets such
-- that each side, reading the packets of the other, sends its own; the client gets a tunnel, the server
-- gets one under the client's alias, and from then on each end decrypts all that the other encrypts, in
-- both directions, although the challenge has already been encrypted under the same key.
pub identity_exchange :
    (platform : Platform) (credentials : Option (Text → Option Client)) (p : IdentityPlatform)
    (lookup : Bytes → Option IdentityClient)
    (key_hash private_key server_key server_private : Bytes) (c : IdentityClient)
    → IsIdentified p lookup key_hash private_key server_key server_private c
    → Conversation c.alias
        (identity_client (keys_of p key_hash private_key server_key))
        (authenticate_relay platform credentials (some (handle_identity p server_private lookup)))
unfolding encrypt decrypt create_tunnel_security sealed_challenge
identity_exchange platform credentials p lookup key_hash private_key server_key server_private c h =
    record {
      requests =
          identity_hello key_hash
          ∷ answer_packet p key_hash private_key server_key server_private c
          ∷ [];
      replies =
          identity_challenge p.session_salt
            (sealed p key_hash private_key server_key server_private c)
          ∷ verdict_packet authorized
          ∷ [];
      client_end = client_ready p key_hash private_key server_key server_private c;
      server_end = server_ready p key_hash private_key server_key server_private c;
      client_runs =
          identity_client-joins p key_hash private_key server_key server_private c h.agree
            h.salt_fits h.sealed_fits h.opens;
      server_runs =
          authenticate_relay-secures_identity p key_hash private_key server_key server_private c
            platform credentials lookup h.found h.hash_fits h.opens;
      connected = IsLevel-AreConnected _ _ (record {
        opens = h.opens;
        opened = h.opens;
        facing = (refl, refl);
        counts = (refl, refl);
      });
    }
