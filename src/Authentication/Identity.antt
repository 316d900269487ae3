-- ===== src/Authentication/Identity.antt =====
-- src/tunnel/server/auth/identity-authentication.server.ts. A private or public key and the raw secrets
-- are bytes; `deriveRawSecret`, `deriveSessionKey` and the ciphers are the platform's.
use web_tether.Common.{
  ◌%◌, false, not, Option, none, some, List, [], ◌∷◌, ◌++◌, ◌==◌, if◌then◌else◌, length,
}
use web_tether.SafeBuffer.{Bytes, SafeReader, safe_reader, uint8, data_of, sized8}
use web_tether.Protocol.{relay_version7, advanced_auth, authorized, auth_code}
use web_tether.Security.{TunnelSecurity, Cipher, create_tunnel_security, encrypt, decrypt, relay}
use web_tether.Authentication.{
  Text, Failure, Verdict, Authenticated, verdict_packet, same_hash, unauthorized_with, trying,
}

-- What `auth.lookupClient` finds.
pub record IdentityClient : Type 0 where
  pub alias : Text
  pub key : Bytes

-- The platform, with the random bytes of one authentication.
pub record IdentityPlatform : Type 0 where
  pub session_salt : Bytes
  pub session_challenge : Bytes
  pub mock_secret : Bytes
  pub derive_raw_secret : Bytes → Bytes → Bytes
  pub derive_session_key : Bytes → Bytes → Bytes → Bytes
  pub session_cipher : Bytes → Cipher

-- `sessionInfo`
abbrev pub session_info : Bytes
session_info = relay_version7 ∷ auth_code advanced_auth ∷ []

abbrev pub identity_challenge : Bytes → Bytes → Bytes
identity_challenge salt encrypted =
    relay_version7
    ∷ auth_code advanced_auth
    ∷ ((length salt % 256 ∷ salt) ++ (length encrypted % 256 ∷ encrypted))

-- The security for a shared secret, and the challenge encrypted with it.
unfoldable pub sealed_challenge : IdentityPlatform → Bytes → Bytes × TunnelSecurity
sealed_challenge p secret = encrypt p.session_challenge (
    create_tunnel_security relay
      (p.session_cipher (p.derive_session_key secret p.session_salt session_info)))

-- The `try` block, for the decrypted solution.
unfoldable pub check_identity :
    IdentityPlatform → Text → List Bytes → TunnelSecurity → Option Bytes → Authenticated
unfolding same_hash
check_identity p alias sent security none = unauthorized_with sent Failure.cipher_error
check_identity p alias sent security (some solution) =
    trying sent (uint8 false (safe_reader solution)) λ version r.
      if not (version == relay_version7)
      then unauthorized_with sent Failure.unknown_version
      else trying sent (uint8 false r) λ mode r₁.
        if not (mode == auth_code advanced_auth)
        then unauthorized_with sent Failure.auth_mode_unexpected
        else trying sent (data_of (length p.session_challenge) false r₁) λ answer _.
          if same_hash p.session_challenge answer
          then record {
            sent = sent ++ (verdict_packet authorized ∷ []);
            verdict = Verdict.secured alias security;
          }
          else unauthorized_with sent Failure.auth_challenge_failed

-- The exchange with a known client.
unfoldable pub challenge_identity :
    IdentityPlatform → Bytes → IdentityClient → List Bytes → Authenticated
unfolding sealed_challenge check_identity
challenge_identity p private c packets =
    let (encrypted, security) = sealed_challenge p (p.derive_raw_secret private c.key) in
    let sent = identity_challenge p.session_salt encrypted ∷ [] in
    elim packets [
      | [] ↦ record { sent = sent; verdict = Verdict.fails Failure.timeout }
      | packet ∷ _ ↦
          let (solution, security') = decrypt packet security in
          check_identity p c.alias sent security' solution
    ]

-- The exchange with an unknown client.
unfoldable pub challenge_unknown : IdentityPlatform → List Bytes → Authenticated
unfolding sealed_challenge
challenge_unknown p packets =
    let sent = identity_challenge p.session_salt (sealed_challenge p p.mock_secret).0 ∷ [] in
    elim packets [
      | [] ↦ record { sent = sent; verdict = Verdict.fails Failure.timeout }
      | packet ∷ _ ↦ unauthorized_with sent Failure.auth_unknown_client
    ]

-- From `auth.lookupClient(…)` on, with what it finds.
unfoldable pub identity_looked_up :
    IdentityPlatform → Bytes → List Bytes → Option IdentityClient → Authenticated
unfolding challenge_identity challenge_unknown
identity_looked_up p private packets none = challenge_unknown p packets
identity_looked_up p private packets (some c) = challenge_identity p private c packets

-- From the key's hash on, if it was read.
unfoldable pub identity_read :
    IdentityPlatform
    → Bytes
    → (Bytes → Option IdentityClient)
    → List Bytes
    → Option (Bytes × SafeReader)
    → Authenticated
unfolding identity_looked_up
identity_read p private lookup packets none = record {
  sent = [];
  verdict = Verdict.fails Failure.buffer_too_short;
}
identity_read p private lookup packets (some (key_hash, r)) =
    identity_looked_up p private packets (lookup key_hash)

-- `handleAdvencedAuthenticationServer`
unfoldable pub handle_identity :
    IdentityPlatform
    → Bytes
    → (Bytes → Option IdentityClient)
    → SafeReader
    → List Bytes
    → Authenticated
unfolding identity_read
handle_identity p private lookup r packets = identity_read p private lookup packets (sized8 r)
