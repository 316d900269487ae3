-- ===== src/Authentication.antt =====
-- The authentication of a client before its session: `authenticateRelay` of
-- src/tunnel/server/tunnel.relay.ts and `handleCredentialsAuthenticationServer` of
-- src/tunnel/server/auth/credentials-authentication.server.ts. The packets that the queue delivers are
-- a list, whose end is the timeout of `queue.shift`. The server's handler of the identity scheme is an
-- argument here (`Identity` has it), and the random bytes, the hashes and the ciphers are parameters.
-- The random waits are left out.
pub mod Credentials
pub mod Identity
pub mod Clients
pub mod Exchange
pub mod IdentityExchange
pub mod Enumeration
mod Tests
mod SchemeTests
use web_tether.Common.{
  ℕ, ◌%◌, Bool, true, false, not, Option, none, some, List, [], ◌∷◌, ◌++◌, ◌==◌, if◌then◌else◌,
  length, get_or, take,
}
use web_tether.SafeBuffer.{Bytes, SafeReader, safe_reader, uint8, data_of, sized8}
use web_tether.Protocol.{
  relay_version7, RelayAuthentication, basic_auth, advanced_auth, authorized, unauthorized,
  unsupported_auth, auth_code,
}
use web_tether.Security.{TunnelSecurity, Cipher, create_tunnel_security, decrypt, relay}

abbrev pub Text : Type 0
Text = List ℕ

-- The reasons of `TunnelServerError` here, and the errors of ciphering.
pub data Failure : Type 0 where
  timeout buffer_too_short unknown_version auth_mode_unexpected : Failure
  auth_unknown_client auth_challenge_failed cipher_error : Failure

-- The end of an authentication: a security, `undefined`, or a throw.
pub data Verdict : Type 0 where
  secured : Text → TunnelSecurity → Verdict
  rejected : Verdict
  fails : Failure → Verdict

-- The packets sent in the clear, and the end.
pub record Authenticated : Type 0 where
  pub sent : List Bytes
  pub verdict : Verdict

-- What `auth.lookup` finds.
pub record Client : Type 0 where
  pub alias : Text
  pub salt : Bytes
  pub hash : Bytes

-- What the platform provides: `TextDecoder`, `crypto.getRandomValues` for the number of the draw and the
-- number of bytes, SHA-256, the raw export of a generated AES-GCM key of a number of bits, and the
-- ciphers and the key derivation.
pub record Platform : Type 0 where
  pub decode : Bytes → Text
  pub random_values : ℕ → ℕ → Bytes
  pub digest : Bytes → Bytes
  pub generate_key : ℕ → Bytes
  pub handshake_cipher : Bytes → Cipher
  pub session_cipher : Bytes → Cipher
  pub pbkdf2 : Bytes → Bytes → Bytes

-- Drawn once, when the module is loaded.
abbrev pub instance_mock_salt : Platform → Bytes
instance_mock_salt p = p.random_values 0 16

-- The made-up values for an unknown client.
abbrev pub mock_salt : Platform → Bytes → Bytes
mock_salt p identifier = take 16 (p.digest (instance_mock_salt p ++ identifier))

abbrev pub mock_iv : Platform → Bytes
mock_iv p = p.random_values 1 16

abbrev pub mock_key : Platform → Bytes
mock_key p = p.random_values 2 32

-- The values of the exchange with a known client.
abbrev pub handshake_iv : Platform → Bytes
handshake_iv p = p.random_values 1 16

abbrev pub session_key : Platform → Bytes
session_key p = p.generate_key 256

-- The challenge, made up or not.
abbrev pub challenge : Bytes → Bytes → Bytes → Bytes
challenge salt iv key =
    relay_version7
    ∷ auth_code basic_auth
    ∷ ((length salt % 256 ∷ salt) ++ ((length iv % 256 ∷ iv) ++ (length key % 256 ∷ key)))

abbrev pub verdict_packet : RelayAuthentication → Bytes
verdict_packet reply = relay_version7 ∷ auth_code reply ∷ []

-- `client.hash[i] === hashedSolution[i]` for every index of `hash`; an index out of range is `undefined`.
unfoldable pub same_hash : Bytes → Bytes → Bool
same_hash [] hashed = true
same_hash (x ∷ hash) [] = false
same_hash (x ∷ hash) (y ∷ hashed) =
    let rest = same_hash hash hashed in if x == y then rest else false

-- The comparison of the hashes, as the code guards it.
unfoldable pub accepts_hash : Bytes → Bytes → Bool
unfolding same_hash
accepts_hash hash hashed =
    if not (length hashed == length hash) then same_hash hash hashed else true

abbrev pub unauthorized_with : List Bytes → Failure → Authenticated
unauthorized_with sent why = record {
  sent = sent ++ (verdict_packet unauthorized ∷ []);
  verdict = Verdict.fails why;
}

-- A read of the `try` block, which throws `buffer-too-short`.
unfoldable pub trying :
    {A : Type 0}
    → List Bytes
    → Option (A × SafeReader)
    → (A → SafeReader → Authenticated)
    → Authenticated
trying sent none next = unauthorized_with sent Failure.buffer_too_short
trying sent (some (a, r)) next = next a r

-- The `try` block, for the decrypted solution.
unfoldable pub check_solution :
    Platform → Client → List Bytes → TunnelSecurity → Option Bytes → Authenticated
unfolding accepts_hash
check_solution p c sent security none = unauthorized_with sent Failure.cipher_error
check_solution p c sent security (some solution) =
    trying sent (uint8 false (safe_reader solution)) λ version r.
      if not (version == relay_version7)
      then unauthorized_with sent Failure.unknown_version
      else trying sent (uint8 false r) λ mode r₁.
        if not (mode == auth_code basic_auth)
        then unauthorized_with sent Failure.auth_mode_unexpected
        else trying sent (uint8 false r₁) λ n r₂. trying sent (data_of n false r₂) λ answer _.
          if accepts_hash c.hash (p.pbkdf2 answer c.salt)
          then record {
            sent = sent ++ (verdict_packet authorized ∷ []);
            verdict = Verdict.secured c.alias security;
          }
          else unauthorized_with sent Failure.auth_challenge_failed

-- The exchange with a known client.
unfoldable pub challenge_client : Platform → Client → List Bytes → Authenticated
unfolding check_solution
challenge_client p c packets =
    let ciphered = (p.handshake_cipher c.hash).seal (handshake_iv p) (session_key p) in
    let sent = challenge c.salt (handshake_iv p) ciphered ∷ [] in
    elim packets [
      | [] ↦ record { sent = sent; verdict = Verdict.fails Failure.timeout }
      | packet ∷ _ ↦
          let (solution, security) =
            decrypt packet (create_tunnel_security relay (p.session_cipher (session_key p))) in
          check_solution p c sent security solution
    ]

-- The exchange with an unknown client.
unfoldable pub challenge_stranger : Platform → Bytes → List Bytes → Authenticated
challenge_stranger p identifier packets =
    let sent = challenge (mock_salt p identifier) (mock_iv p) (mock_key p) ∷ [] in
    elim packets [
      | [] ↦ record { sent = sent; verdict = Verdict.fails Failure.timeout }
      | packet ∷ _ ↦ unauthorized_with sent Failure.auth_unknown_client
    ]

-- From `auth.lookup(…)` on, with what it finds.
unfoldable pub looked_up : Platform → Bytes → List Bytes → Option Client → Authenticated
unfolding challenge_client challenge_stranger
looked_up p identifier packets none = challenge_stranger p identifier packets
looked_up p identifier packets (some c) = challenge_client p c packets

-- From `decoder.decode(identifier)` on, with the identifier that was read.
unfoldable pub identified :
    Platform → (Text → Option Client) → List Bytes → Option (Bytes × SafeReader) → Authenticated
unfolding looked_up
identified p lookup packets none = record {
  sent = [];
  verdict = Verdict.fails Failure.buffer_too_short;
}
identified p lookup packets (some (identifier, r)) =
    looked_up p identifier packets (lookup (p.decode identifier))

-- `handleCredentialsAuthenticationServer`
unfoldable pub handle_credentials :
    Platform → (Text → Option Client) → SafeReader → List Bytes → Authenticated
unfolding identified sized8
handle_credentials p lookup r packets = identified p lookup packets (sized8 r)

-- The identity scheme, which the server may have disabled.
abbrev pub IdentityScheme : Type 0
IdentityScheme = Option (SafeReader → List Bytes → Authenticated)

abbrev unsupported : Authenticated
unsupported = record { sent = verdict_packet unsupported_auth ∷ []; verdict = Verdict.rejected }

-- `authenticateRelay` from the schema's number on; `credentials` is `none` when it is not enabled.
unfoldable pub choose_schema :
    Platform
    → Option (Text → Option Client)
    → IdentityScheme
    → ℕ
    → SafeReader
    → List Bytes
    → Authenticated
unfolding handle_credentials
choose_schema p credentials identity mode r packets =
    if mode == auth_code basic_auth
    then elim credentials [
      | none ↦ unsupported
      | some lookup ↦ handle_credentials p lookup r packets
    ]
    else if mode == auth_code advanced_auth
    then elim identity [ none ↦ unsupported | some handle ↦ handle r packets ]
    else unsupported

-- A throw before anything is sent.
abbrev pub failing : Failure → Authenticated
failing why = record { sent = []; verdict = Verdict.fails why }

-- `authenticateRelay`, once the first packet is there.
unfoldable pub read_handshake :
    Platform → Option (Text → Option Client) → IdentityScheme → Bytes → List Bytes → Authenticated
unfolding choose_schema
read_handshake p credentials identity packet packets = elim (uint8 false (safe_reader packet)) [
  | none ↦ failing Failure.buffer_too_short
  | some (version, r) ↦
      if not (version == relay_version7)
      then failing Failure.unknown_version
      else elim (uint8 false r) [
        | none ↦ failing Failure.buffer_too_short
        | some (mode, r₁) ↦ choose_schema p credentials identity mode r₁ packets
      ]
]

unfoldable pub authenticate_relay :
    Platform → Option (Text → Option Client) → IdentityScheme → List Bytes → Authenticated
unfolding read_handshake
authenticate_relay p credentials identity [] = failing Failure.timeout
authenticate_relay p credentials identity (packet ∷ packets) =
    read_handshake p credentials identity packet packets
