-- ===== src/Authentication/Enumeration.antt =====
-- What the length of the first reply tells of the client that was named. The made-up challenge of the
-- credentials scheme has a key as long as the session key, without the tag that its encryption adds.
use web_tether.Common.{
  ◌≤◌, length-take, Option, none, some, refl, ℕ, ◌+◌, ◌≡◌, arith, List, [], ◌∷◌, ◌++◌, length,
  length-append, ◌%◌, get_or,
}
use web_tether.SafeBuffer.{Bytes, SafeReader, sized8}
use web_tether.Security.{encrypt, create_tunnel_security}
use web_tether.Authentication.{
  Text, Client, Platform, instance_mock_salt, mock_salt, mock_iv, mock_key, handshake_iv,
  session_key, challenge, challenge_client, challenge_stranger, looked_up, identified,
  handle_credentials,
}
use web_tether.Authentication.Identity.{
  IdentityPlatform, IdentityClient, identity_challenge, sealed_challenge, challenge_identity,
  challenge_unknown,
}

-- The length of the first packet sent.
abbrev pub first_length : List Bytes → ℕ
first_length sent = length (get_or sent 0 [])

length-challenge :
    (salt iv key : Bytes)
    → length (challenge salt iv key) ≡ length salt + length iv + length key + 5
length-challenge salt iv key = omega (
  arith,
  length-append (length salt % 256 ∷ salt) ((length iv % 256 ∷ iv) ++ (length key % 256 ∷ key)),
  length-append (length iv % 256 ∷ iv) (length key % 256 ∷ key),
)

length-identity_challenge :
    (salt encrypted : Bytes)
    → length (identity_challenge salt encrypted) ≡ length salt + length encrypted + 4
length-identity_challenge salt encrypted =
    omega (arith, length-append (length salt % 256 ∷ salt) (length encrypted % 256 ∷ encrypted))

-- The bytes of the challenge, by what `auth.lookup` finds.
abbrev pub challenge_size : Option Client → ℕ
challenge_size none = 69
challenge_size (some _) = 85

-- What the platform documents of sizes: a draw has the bytes asked for, up to 65536, a SHA-256 digest
-- has 32, a raw key of 256 bits 32 as well, and AES-GCM adds a tag of 16 bytes.
pub record HasSizes (p : Platform) : Type 0 where
  pub drawn : (i n : ℕ) → n ≤ 65536 → length (p.random_values i n) ≡ n
  pub digested : (m : Bytes) → length (p.digest m) ≡ 32
  pub generated : length (p.generate_key 256) ≡ 32
  pub tagged : (key iv m : Bytes) → length ((p.handshake_cipher key).seal iv m) ≡ length m + 16

challenge_client-size :
    (p : Platform) (c : Client)
    → HasSizes p
    → length c.salt ≡ 16
    → first_length (challenge_client p c []).sent ≡ 85
unfolding challenge_client
challenge_client-size p c sizes salted = omega (
  arith,
  length-challenge c.salt (handshake_iv p)
      ((p.handshake_cipher c.hash).seal (handshake_iv p) (session_key p)),
  salted,
  sizes.drawn 1 16 (omega arith),
  sizes.generated,
  sizes.tagged c.hash (handshake_iv p) (session_key p),
)

challenge_stranger-size :
    (p : Platform) (identifier : Bytes)
    → HasSizes p
    → first_length (challenge_stranger p identifier []).sent ≡ 69
unfolding challenge_stranger
challenge_stranger-size p identifier sizes =
    let digest : Bytes = p.digest (instance_mock_salt p ++ identifier) in
    omega (
      arith,
      length-challenge (mock_salt p identifier) (mock_iv p) (mock_key p),
      length-take 16 digest (omega (arith, sizes.digested (instance_mock_salt p ++ identifier))),
      sizes.drawn 1 16 (omega arith),
      sizes.drawn 2 32 (omega arith),
    )

looked_up-size :
    (p : Platform) (identifier : Bytes) (o : Option Client)
    → HasSizes p
    → ((c : Client) → o ≡ some c → length c.salt ≡ 16)
    → first_length (looked_up p identifier [] o).sent ≡ challenge_size o
unfolding looked_up
looked_up-size p identifier none sizes salted = challenge_stranger-size p identifier sizes
looked_up-size p identifier (some c) sizes salted = challenge_client-size p c sizes (salted c refl)

-- The credentials scheme, on a platform with the documented sizes (`HasSizes`), where the salts of the
-- known clients have 16 bytes: once the server has read an identifier, the first packet that it sends,
-- before an answer comes, has 85 bytes if a client is known under the identifier and 69 if not.
pub credentials_enumeration :
    (p : Platform) (lookup : Text → Option Client) (r after : SafeReader) (identifier : Bytes)
    → HasSizes p
    → ((name : Text) (c : Client) → lookup name ≡ some c → length c.salt ≡ 16)
    → sized8 r ≡ some (identifier, after)
    → first_length (handle_credentials p lookup r []).sent
      ≡ challenge_size (lookup (p.decode identifier))
unfolding handle_credentials identified
credentials_enumeration p lookup r after identifier sizes salted read = rw read (
    looked_up-size p identifier (lookup (p.decode identifier)) sizes (salted (p.decode identifier)))

-- The identity scheme, where encryption with any key adds the same number of bytes: what the server
-- sends before an answer comes has the same length for a known and for an unknown client.
pub identity_enumeration :
    (p : IdentityPlatform) (private : Bytes) (c : IdentityClient) (tag : ℕ)
    → ((key iv m : Bytes) → length ((p.session_cipher key).seal iv m) ≡ length m + tag)
    → first_length (challenge_identity p private c []).sent
      ≡ first_length (challenge_unknown p []).sent
unfolding challenge_identity challenge_unknown sealed_challenge encrypt create_tunnel_security
identity_enumeration p private c tag tagged =
    let real = (sealed_challenge p (p.derive_raw_secret private c.key)).0 in
    let made_up = (sealed_challenge p p.mock_secret).0 in
    omega (
      arith,
      length-identity_challenge p.session_salt real,
      length-identity_challenge p.session_salt made_up,
      tagged _ _ p.session_challenge,
    )
