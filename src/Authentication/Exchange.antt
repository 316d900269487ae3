-- ===== src/Authentication/Exchange.antt =====
-- The two sides of an authentication in conversation.
use web_tether.Common.{
  ℕ, ◌%◌, ◌<◌, ◌≡◌, refl, sym, ap, ◌∙◌, subst, Option, some, List, [], ◌∷◌, ◌++◌, ==_refl, arith,
  length, append-nil,
}
use web_tether.SafeBuffer.{Bytes, SafeReader, sized8, encode_with_uint8_length, encode_uint8}
use web_tether.SafeBuffer.Reads.{Left, Takes, safe_reader-Left}
use web_tether.SafeBuffer.RoundTrip.{uint8-Left}
use web_tether.SafeBuffer.Sized.{sized8-encode_with_uint8_length}
use web_tether.Protocol.{basic_auth, authorized, RelayAuthentication, auth_code}
use web_tether.Security.{
  TunnelSecurity, Cipher, relay, client, opposite, encode_iv, create_tunnel_security, encrypt,
  decrypt,
}
use web_tether.Authentication.{
  Text, Verdict, Authenticated, Client, Platform, handshake_iv, session_key, IdentityScheme,
  challenge, verdict_packet, challenge_client, looked_up, identified, handle_credentials,
  choose_schema, read_handshake, authenticate_relay,
}
use web_tether.Security.Lockstep.{encrypt_all, decrypt_all, all_some, decrypt_all-encrypt_all}
use web_tether.Authentication.Credentials.{check_solution_any}
use web_tether.Authentication.Clients.{
  Crypto, ClientEnd, ClientVerdict, credentials_hello, credentials_solution, solve_credentials,
  credentials_client, attempting, check_header, check_result,
}

-- Two ends of one tunnel: each opens what the other seals, they face each other, and each has opened
-- as many messages as the other has sealed.
pub record IsLevel (a b : TunnelSecurity) : Type 0 where
  pub opens : (iv m : Bytes) → b.cipher.unseal iv (a.cipher.seal iv m) ≡ some m
  pub opened : (iv m : Bytes) → a.cipher.unseal iv (b.cipher.seal iv m) ≡ some m
  pub facing : (opposite b.role ≡ a.role) × (opposite a.role ≡ b.role)
  pub counts : (b.remote_counter ≡ a.local_counter) × (a.remote_counter ≡ b.local_counter)

-- AES-GCM opens what it has sealed with the same vector.
abbrev pub Opens : Cipher → Type 0
Opens c = (iv m : Bytes) → c.unseal iv (c.seal iv m) ≡ some m

pub sized8-Left :
    (r : SafeReader) (b rest : Bytes)
    → length b < 256
    → Left r ((length b % 256 ∷ b) ++ rest)
    → Takes b rest (sized8 r)
unfolding encode_with_uint8_length encode_uint8
sized8-Left r b rest h left = sized8-encode_with_uint8_length b r rest h left

-- A packet with the right header, read to its body.
pub check_header-Left :
    (sent : List Bytes) (expected : RelayAuthentication) (body : Bytes)
    (next : SafeReader → ClientEnd)
    → (r : SafeReader) × Left r body
      × (check_header sent expected (7 ∷ auth_code expected ∷ body) next ≡ next r)
unfolding check_header attempting
check_header-Left sent expected body next =
    let (r, e, left) = uint8-Left _ 7 0 0 0 _ (safe_reader-Left (7 ∷ auth_code expected ∷ body)) in
    let (r₁, e₁, left₁) = uint8-Left r (auth_code expected) 0 0 0 body left in
    (r₁, left₁, rw (e, e₁, ==_refl (auth_code expected)) refl)

pub check_result-joins :
    (sent : List Bytes) (security : TunnelSecurity)
    → check_result sent security (verdict_packet authorized ∷ [])
      ≡ record { sent = sent; verdict = ClientVerdict.joined security }
unfolding check_result
check_result-joins sent security = (check_header-Left sent authorized [] _).2

-- A first packet with the right version, read to its body.
pub authenticate_relay-mode :
    (p : Platform) (credentials : Option (Text → Option Client)) (identity : IdentityScheme)
    (mode : ℕ) (body : Bytes) (packets : List Bytes)
    → (r : SafeReader) × Left r body
      × (authenticate_relay p credentials identity ((7 ∷ mode ∷ body) ∷ packets)
          ≡ choose_schema p credentials identity mode r packets)
unfolding authenticate_relay read_handshake
authenticate_relay-mode p credentials identity mode body packets =
    let (r, e, left) = uint8-Left _ 7 0 0 0 _ (safe_reader-Left (7 ∷ mode ∷ body)) in
    let (r₁, e₁, left₁) = uint8-Left r mode 0 0 0 _ left in
    (r₁, left₁, rw (e, e₁, read_handshake) refl)

-- The client's and the server's cryptography are the same platform's.
abbrev pub crypto_of : (Text → Bytes) → Platform → Crypto
crypto_of encode p = record {
  encode = encode;
  handshake_cipher = p.handshake_cipher;
  session_cipher = p.session_cipher;
  pbkdf2 = p.pbkdf2;
}

module _ (p : Platform) (encode : Text → Bytes) (identifier passkey : Text) (c : Client) where
  -- The answer that the client derives from its passkey.
  abbrev pub derived : Bytes
  derived = p.pbkdf2 (encode passkey) c.salt

  abbrev pub key_packet : Bytes
  key_packet = (p.handshake_cipher c.hash).seal (handshake_iv p) (session_key p)

  abbrev client_start : TunnelSecurity
  client_start = create_tunnel_security client (p.session_cipher (session_key p))

  abbrev pub solution_packet : Bytes
  solution_packet = (encrypt (credentials_solution derived) client_start).0

  abbrev client_ready : TunnelSecurity
  client_ready = (encrypt (credentials_solution derived) client_start).1

  abbrev server_ready : TunnelSecurity
  server_ready =
      (decrypt solution_packet (create_tunnel_security relay (p.session_cipher (session_key p)))).1

  -- The client's part of the conversation.
  credentials_client-joins :
      c.hash ≡ p.pbkdf2 derived c.salt
      → length c.salt < 256
      → length (handshake_iv p) < 256
      → length key_packet < 256
      → Opens (p.handshake_cipher c.hash)
      → credentials_client
          (crypto_of encode p)
          identifier
          passkey
          (challenge c.salt (handshake_iv p) key_packet ∷ verdict_packet authorized ∷ [])
        ≡ record {
          sent = credentials_hello (encode identifier) ∷ solution_packet ∷ [];
          verdict = ClientVerdict.joined client_ready;
        }
  unfolding credentials_client attempting solve_credentials
  credentials_client-joins registered low₁ low₂ low₃ opens =
      let iv_on : Bytes = length (handshake_iv p) % 256 ∷ handshake_iv p in
      let key_on : Bytes = length key_packet % 256 ∷ key_packet in
      let (r, left, e) =
        check_header-Left (credentials_hello (encode identifier) ∷ []) basic_auth
          ((length c.salt % 256 ∷ c.salt) ++ (iv_on ++ key_on)) _ in
      let (r₁, e₁, left₁) = sized8-Left r c.salt (iv_on ++ key_on) low₁ left in
      let (r₂, e₂, left₂) = sized8-Left r₁ (handshake_iv p) key_on low₂ left₁ in
      let (r₃, e₃, left₃) =
        sized8-Left r₂ key_packet [] low₃ (subst (Left r₂) (sym (append-nil key_on)) left₂) in
      e
      ∙ rw (e₁, e₂, e₃, sym registered, opens (handshake_iv p) (session_key p))
          (check_result-joins (credentials_hello (encode identifier) ∷ solution_packet ∷ [])
            client_ready)

  -- The server's part.
  authenticate_relay-secures :
      (lookup : Text → Option Client) (identity : IdentityScheme)
      → p.decode (encode identifier) ≡ identifier
      → lookup identifier ≡ some c
      → length (encode identifier) < 256
      → length derived < 256
      → c.hash ≡ p.pbkdf2 derived c.salt
      → Opens (p.session_cipher (session_key p))
      → authenticate_relay p
          (some lookup)
          identity
          (credentials_hello (encode identifier) ∷ solution_packet ∷ [])
        ≡ record {
          sent = challenge c.salt (handshake_iv p) key_packet ∷ verdict_packet authorized ∷ [];
          verdict = Verdict.secured c.alias server_ready;
        }
  unfolding choose_schema handle_credentials identified looked_up challenge_client decrypt encrypt
      create_tunnel_security
  authenticate_relay-secures lookup identity decoded found low low' registered opens =
      let name : Bytes = encode identifier in
      let (r, left, e) =
        authenticate_relay-mode p (some lookup) identity 1 (length name % 256 ∷ name)
          (solution_packet ∷ []) in
      let (r₁, e₁, left₁) = sized8-Left r name [] low (subst (Left r) (sym (append-nil _)) left) in
      let opened = opens (encode_iv client 0) (credentials_solution derived) in
      let short : length derived % 256 ≡ length derived = omega arith in
      let answer : credentials_solution derived ≡ 7 ∷ 1 ∷ length derived ∷ (derived ++ []) =
        rw (short, append-nil derived) refl in
      e
      ∙ rw (e₁, decoded, found, opened, answer)
          (check_solution_any p c _ server_ready derived [] (ap length (sym registered)))

-- A client whose identifier and passkey are the ones of `c`, with fields that fit their length bytes,
-- and ciphers that open what they have sealed.
pub record IsRegistered (p : Platform) (encode : Text → Bytes) (lookup : Text → Option Client)
    (identifier passkey : Text) (c : Client) : Type 0 where
  pub decoded : p.decode (encode identifier) ≡ identifier
  pub found : lookup identifier ≡ some c
  pub registered : c.hash ≡ p.pbkdf2 (derived p encode identifier passkey c) c.salt
  pub handshake_opens : Opens (p.handshake_cipher c.hash)
  pub session_opens : Opens (p.session_cipher (session_key p))
  pub name_fits : length (encode identifier) < 256
  pub salt_fits : length c.salt < 256
  pub iv_fits : length (handshake_iv p) < 256
  pub key_fits : length (key_packet p encode identifier passkey c) < 256
  pub answer_fits : length (derived p encode identifier passkey c) < 256

-- Two ends of which each decrypts what the other encrypts from now on.
pub record AreConnected (a b : TunnelSecurity) : Type 0 where
  pub forth : (ms : List Bytes) → (decrypt_all (encrypt_all ms a).0 b).0 ≡ all_some ms
  pub back : (ms : List Bytes) → (decrypt_all (encrypt_all ms b).0 a).0 ≡ all_some ms

pub IsLevel-AreConnected : (a b : TunnelSecurity) → IsLevel a b → AreConnected a b
IsLevel-AreConnected a b h = record {
  forth = λ ms. (decrypt_all-encrypt_all ms a b h.opens h.facing.0 h.counts.0).0;
  back = λ ms. (decrypt_all-encrypt_all ms b a h.opened h.facing.1 h.counts.1).0;
}

-- The end of a conversation: each side has sent what the other side has read, the client holds a
-- tunnel and the server the other end of it, under the alias.
pub record Conversation (alias : Text) (from_client : List Bytes → ClientEnd)
    (from_server : List Bytes → Authenticated) : Type 0 where
  pub requests : List Bytes
  pub replies : List Bytes
  pub client_end : TunnelSecurity
  pub server_end : TunnelSecurity
  pub client_runs :
      from_client replies ≡ record { sent = requests; verdict = ClientVerdict.joined client_end }
  pub server_runs :
      from_server requests ≡ record { sent = replies; verdict = Verdict.secured alias server_end }
  pub connected : AreConnected client_end server_end

-- A client that is registered, and whose passkey is the registered one, is authenticated by its
-- credentials: there are packets such that each side, reading the packets of the other, sends its own;
-- the client gets a tunnel, the server gets one under the client's alias, and from then on each end
-- decrypts all that the other encrypts, in both directions.
pub credentials_exchange :
    (p : Platform) (encode : Text → Bytes) (lookup : Text → Option Client)
    (identity : IdentityScheme) (identifier passkey : Text) (c : Client)
    → IsRegistered p encode lookup identifier passkey c
    → Conversation c.alias
        (credentials_client (crypto_of encode p) identifier passkey)
        (authenticate_relay p (some lookup) identity)
unfolding encrypt decrypt create_tunnel_security
credentials_exchange p encode lookup identity identifier passkey c h = record {
  requests =
      credentials_hello (encode identifier) ∷ solution_packet p encode identifier passkey c ∷ [];
  replies =
      challenge c.salt (handshake_iv p) (key_packet p encode identifier passkey c)
      ∷ verdict_packet authorized
      ∷ [];
  client_end = client_ready p encode identifier passkey c;
  server_end = server_ready p encode identifier passkey c;
  client_runs =
      credentials_client-joins p encode identifier passkey c h.registered h.salt_fits h.iv_fits
        h.key_fits h.handshake_opens;
  server_runs =
      authenticate_relay-secures p encode identifier passkey c lookup identity h.decoded h.found
        h.name_fits h.answer_fits h.registered h.session_opens;
  connected = IsLevel-AreConnected _ _ (record {
    opens = h.session_opens;
    opened = h.session_opens;
    facing = (refl, refl);
    counts = (refl, refl);
  });
}
