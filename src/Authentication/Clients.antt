-- ===== src/Authentication/Clients.antt =====
-- src/tunnel/client/auth: the client's side of both schemes, as functions from the packets that arrive
-- to the packets sent and the end. The platform's functions are parameters.
use web_tether.Common.{
  ◌%◌, false, not, Option, none, some, List, [], ◌∷◌, ◌==◌, if◌then◌else◌, length,
}
use web_tether.SafeBuffer.{Bytes, SafeReader, safe_reader, uint8, sized8, encode_with_uint8_length}
use web_tether.Protocol.{
  relay_version7, RelayAuthentication, basic_auth, advanced_auth, authorized, auth_code,
}
use web_tether.Security.{TunnelSecurity, Cipher, create_tunnel_security, encrypt, decrypt, client}
use web_tether.Authentication.{Text, Failure}
use web_tether.Authentication.Identity.{session_info}

-- The end on the client: a security, or a throw.
pub data ClientVerdict : Type 0 where
  joined : TunnelSecurity → ClientVerdict
  gives_up : Failure → ClientVerdict

pub record ClientEnd : Type 0 where
  pub sent : List Bytes
  pub verdict : ClientVerdict

abbrev pub gave_up : List Bytes → Failure → ClientEnd
gave_up sent why = record { sent = sent; verdict = ClientVerdict.gives_up why }

-- A read that throws `buffer-too-short`, and what follows it.
unfoldable pub attempting :
    {A : Type 0} → List Bytes → Option (A × SafeReader) → (A → SafeReader → ClientEnd) → ClientEnd
attempting sent none next = gave_up sent Failure.buffer_too_short
attempting sent (some (a, r)) next = next a r

-- The version and the mode in front of a packet.
unfoldable pub check_header :
    List Bytes → RelayAuthentication → Bytes → (SafeReader → ClientEnd) → ClientEnd
unfolding attempting
check_header sent expected packet next =
    attempting sent (uint8 false (safe_reader packet)) λ version r.
      if not (version == relay_version7)
      then gave_up sent Failure.unknown_version
      else attempting sent (uint8 false r) λ mode r₁.
        if not (mode == auth_code expected)
        then gave_up sent Failure.auth_mode_unexpected
        else next r₁

-- The wait for the result.
unfoldable pub check_result : List Bytes → TunnelSecurity → List Bytes → ClientEnd
unfolding check_header
check_result sent security [] = gave_up sent Failure.timeout
check_result sent security (packet ∷ later) =
    check_header sent authorized packet
      λ r. record { sent = sent; verdict = ClientVerdict.joined security }

-- What the credentials scheme takes from the platform.
pub record Crypto : Type 0 where
  pub encode : Text → Bytes
  pub handshake_cipher : Bytes → Cipher
  pub session_cipher : Bytes → Cipher
  pub pbkdf2 : Bytes → Bytes → Bytes

abbrev pub credentials_hello : Bytes → Bytes
credentials_hello identifier =
    relay_version7 ∷ auth_code basic_auth ∷ length identifier % 256 ∷ identifier

-- The answer to the challenge.
abbrev pub credentials_solution : Bytes → Bytes
credentials_solution hash = relay_version7 ∷ auth_code basic_auth ∷ length hash % 256 ∷ hash

-- From the decryption of the session key on.
unfoldable pub solve_credentials : Crypto → Bytes → Bytes → List Bytes → Option Bytes → ClientEnd
unfolding check_result
solve_credentials k hello hash later none = gave_up (hello ∷ []) Failure.cipher_error
solve_credentials k hello hash later (some key) =
    let (solution, security) =
      encrypt (credentials_solution hash) (create_tunnel_security client (k.session_cipher key)) in
    check_result (hello ∷ solution ∷ []) security later

-- `handleClientCredentialsAuthentication`
unfoldable pub credentials_client : Crypto → Text → Text → List Bytes → ClientEnd
unfolding check_header solve_credentials
credentials_client k identifier passkey packets =
    let hello = credentials_hello (k.encode identifier) in
    elim packets [
      | [] ↦ gave_up (hello ∷ []) Failure.timeout
      | packet ∷ later ↦ check_header (hello ∷ []) basic_auth packet λ r.
          attempting (hello ∷ []) (sized8 r) λ salt r₁. attempting (hello ∷ []) (sized8 r₁) λ iv r₂.
            attempting (hello ∷ []) (sized8 r₂) λ ciphered r₃.
              let hash = k.pbkdf2 (k.encode passkey) salt in
              solve_credentials k hello hash later
                ((k.handshake_cipher (k.pbkdf2 hash salt)).unseal iv ciphered)
    ]

-- The keys of the identity scheme on the client.
pub record IdentityKeys : Type 0 where
  pub key_hash : Bytes
  pub private_key : Bytes
  pub server_key : Bytes
  pub derive_raw_secret : Bytes → Bytes → Bytes
  pub derive_session_key : Bytes → Bytes → Bytes → Bytes
  pub session_cipher : Bytes → Cipher

abbrev pub identity_hello : Bytes → Bytes
identity_hello key_hash =
    relay_version7 ∷ auth_code advanced_auth ∷ encode_with_uint8_length key_hash

-- From the decryption of the challenge on.
unfoldable pub solve_identity : Bytes → List Bytes → Option Bytes × TunnelSecurity → ClientEnd
unfolding check_result
solve_identity hello later (none, security) = gave_up (hello ∷ []) Failure.cipher_error
solve_identity hello later (some challenge, security) =
    let (solution, security') =
      encrypt (relay_version7 ∷ auth_code advanced_auth ∷ challenge) security in
    check_result (hello ∷ solution ∷ []) security' later

-- `handleClientIdentityAuthentication`
unfoldable pub identity_client : IdentityKeys → List Bytes → ClientEnd
unfolding check_header solve_identity
identity_client k packets =
    let hello = identity_hello k.key_hash in
    elim packets [
      | [] ↦ gave_up (hello ∷ []) Failure.timeout
      | packet ∷ later ↦ check_header (hello ∷ []) advanced_auth packet λ r.
          attempting (hello ∷ []) (sized8 r) λ salt r₁.
            attempting (hello ∷ []) (sized8 r₁) λ encrypted r₂.
              let secret = k.derive_raw_secret k.private_key k.server_key in
              let key = k.derive_session_key secret salt session_info in
              solve_identity hello later
                (decrypt encrypted (create_tunnel_security client (k.session_cipher key)))
    ]

-- `auth`, with what its scheme takes from the platform.
pub data ClientAuth : Type 0 where
  credentials : Crypto → Text → Text → ClientAuth
  identity : IdentityKeys → ClientAuth

-- `handleClientAuthentication`
unfoldable pub client_authentication : ClientAuth → List Bytes → ClientEnd
unfolding credentials_client identity_client
client_authentication (credentials k identifier passkey) packets =
    credentials_client k identifier passkey packets
client_authentication (identity k) packets = identity_client k packets
