-- ===== src/Authentication/Credentials.antt =====
-- What an authentication by credentials requires, and what it does not.
use web_tether.Common.{
  ◌≡◌, refl, inl, inr, true, Option, none, some, List, [], ◌∷◌, ◌++◌, ◌==◌, arith, Bool-cases,
  length,
}
use web_tether.SafeBuffer.{Bytes, SafeReader, sized8}
use web_tether.SafeBuffer.Reads.{safe_reader-Left}
use web_tether.SafeBuffer.RoundTrip.{uint8-Left, data_of-Left}
use web_tether.Security.{TunnelSecurity, client, encode_iv, create_tunnel_security, decrypt, relay}
use web_tether.Authentication.{
  Text, Failure, Verdict, Authenticated, Client, Platform, handshake_iv, session_key, challenge,
  verdict_packet, accepts_hash, check_solution, challenge_client, challenge_stranger, looked_up,
  identified, handle_credentials, trying, unauthorized_with,
}
use web_tether.Protocol.{authorized}

-- The code's comparison of hashes holds for any two hashes of the same length.
accepts_hash-length :
    (hash hashed : Bytes) → length hashed ≡ length hash → accepts_hash hash hashed ≡ true
unfolding accepts_hash
accepts_hash-length hash hashed e = ground (arith, e)

-- A client that is known and answers the challenge with a well-formed packet is authorized whatever its
-- answer is, if the hash of the answer has as many bytes as the stored hash.
pub check_solution_any :
    (p : Platform) (c : Client) (sent : List Bytes) (security : TunnelSecurity)
    (answer rest : Bytes)
    → length (p.pbkdf2 answer c.salt) ≡ length c.hash
    → check_solution p c sent security (some (7 ∷ 1 ∷ length answer ∷ (answer ++ rest))) ≡ record {
      sent = sent ++ (verdict_packet authorized ∷ []);
      verdict = Verdict.secured c.alias security;
    }
unfolding check_solution trying
check_solution_any p c sent security answer rest same =
    let solution = 7 ∷ 1 ∷ length answer ∷ (answer ++ rest) in
    let (r, e, left) = uint8-Left _ 7 0 0 0 _ (safe_reader-Left solution) in
    let (r₁, e₁, left₁) = uint8-Left r 1 0 0 0 _ left in
    let (r₂, e₂, left₂) = uint8-Left r₁ (length answer) 0 0 0 _ left₁ in
    let (r₃, e₃, left₃) = data_of-Left r₂ answer rest left₂ in
    rw (e, e₁, e₂, e₃, accepts_hash-length c.hash (p.pbkdf2 answer c.salt) same) refl

-- An authorization: the client found under the identifier that was read from `r`, what was sent to it,
-- and what came back. The session key is sealed for the client in the first packet, and the client's
-- answer opens, as its first message, under the session key.
pub record IsKnown (p : Platform) (lookup : Text → Option Client) (r : SafeReader)
    (packets sent : List Bytes) (alias : Text) (t : TunnelSecurity) : Type 0 where
  pub identifier : Bytes
  pub after : SafeReader
  pub who : Client
  pub packet : Bytes
  pub later : List Bytes
  pub solution : Bytes
  pub read : sized8 r ≡ some (identifier, after)
  pub found : lookup (p.decode identifier) ≡ some who
  pub named : alias ≡ who.alias
  pub told :
      sent
      ≡ challenge who.salt
          (handshake_iv p)
          ((p.handshake_cipher who.hash).seal (handshake_iv p) (session_key p))
        ∷ verdict_packet authorized
        ∷ []
  pub arrived : packets ≡ packet ∷ later
  pub opened : (p.session_cipher (session_key p)).unseal (encode_iv client 0) packet ≡ some solution
  pub tunnel :
      t ≡ (decrypt packet (create_tunnel_security relay (p.session_cipher (session_key p)))).1

-- An end that secures a tunnel only under the alias of `c`, with `security`, and that then has sent
-- the verdict behind `sent`.
record IsNamed (c : Client) (sent : List Bytes) (security : TunnelSecurity) (a : Authenticated)
    : Type 0 where
  names :
      (alias : Text) (t : TunnelSecurity)
      → a.verdict ≡ Verdict.secured alias t
      → (alias ≡ c.alias) × (t ≡ security) × (a.sent ≡ sent ++ (verdict_packet authorized ∷ []))

module _ (c : Client) (sent : List Bytes) (security : TunnelSecurity) where
  refused-IsNamed : (why : Failure) → IsNamed c sent security (unauthorized_with sent why)
  refused-IsNamed why = record { names = λ alias t e. absurd (cc) }

  trying-IsNamed :
      {A : Type 0} (o : Option (A × SafeReader)) (next : A → SafeReader → Authenticated)
      → ((a : A) (r : SafeReader) → IsNamed c sent security (next a r))
      → IsNamed c sent security (trying sent o next)
  unfolding trying
  trying-IsNamed none next h = refused-IsNamed _
  trying-IsNamed (some (a, r)) next h = h a r

  secured-IsNamed : IsNamed c sent security (record {
    sent = sent ++ (verdict_packet authorized ∷ []);
    verdict = Verdict.secured c.alias security;
  })
  secured-IsNamed = record { names = λ alias u e. (cc, cc, refl) }

  check_solution-IsNamed :
      (p : Platform) (o : Option Bytes)
      → IsNamed c sent security (check_solution p c sent security o)
  unfolding check_solution
  check_solution-IsNamed p none = refused-IsNamed _
  check_solution-IsNamed p (some solution) = trying-IsNamed _ _ (λ version r.
      elim (Bool-cases (version == 7)) [
        | inr v ↦ rw v (refused-IsNamed _)
        | inl v ↦ rw v (
            trying-IsNamed _ _ (λ mode r₁. elim (Bool-cases (mode == 1)) [
              | inr m ↦ rw m (refused-IsNamed _)
              | inl m ↦ rw m (
                  trying-IsNamed _ _ (λ n r₂. trying-IsNamed _ _ (λ answer r₃.
                    elim (Bool-cases (accepts_hash c.hash (p.pbkdf2 answer c.salt))) [
                      | inl h ↦ rw h secured-IsNamed
                      | inr h ↦ rw h (refused-IsNamed _)
                    ])))
            ]))
      ])

-- Without a solution nothing is secured.
check_solution_none :
    (p : Platform) (c : Client) (sent : List Bytes) (security : TunnelSecurity) (alias : Text)
    (t : TunnelSecurity) (o : Option Bytes)
    → (check_solution p c sent security o).verdict ≡ Verdict.secured alias t
    → (solution : Bytes) × (o ≡ some solution)
unfolding check_solution
check_solution_none p c sent security alias t none e = absurd (cc)
check_solution_none p c sent security alias t (some solution) e = (solution, refl)

module _ (p : Platform) (lookup : Text → Option Client) (alias : Text) (t : TunnelSecurity)
    (r : SafeReader) (packets : List Bytes) where
  -- Of the end `a`: if it secures a tunnel, the client is known.
  abbrev Secures : Authenticated → Type 0
  Secures a = a.verdict ≡ Verdict.secured alias t → IsKnown p lookup r packets a.sent alias t

  challenge_client_secured :
      (identifier : Bytes) (after : SafeReader) (c : Client) (arrived : List Bytes)
      → packets ≡ arrived
      → sized8 r ≡ some (identifier, after)
      → lookup (p.decode identifier) ≡ some c
      → Secures (challenge_client p c arrived)
  unfolding challenge_client decrypt create_tunnel_security
  challenge_client_secured identifier after c [] came read found e = absurd (cc)
  challenge_client_secured identifier after c (packet ∷ later) came read found e =
      let sent : List Bytes =
        challenge c.salt (handshake_iv p)
          ((p.handshake_cipher c.hash).seal (handshake_iv p) (session_key p))
        ∷ [] in
      let (o, security) =
        decrypt packet (create_tunnel_security relay (p.session_cipher (session_key p))) in
      let (solution, opened) = check_solution_none p c sent security alias t o e in
      let (named, tunnel, told) = (check_solution-IsNamed c sent security p o).names alias t e in
      record {
        identifier = identifier;
        after = after;
        who = c;
        packet = packet;
        later = later;
        solution = solution;
        read = read;
        found = found;
        named = named;
        told = told;
        arrived = came;
        opened = opened;
        tunnel = tunnel;
      }

  challenge_stranger_secured :
      (identifier : Bytes) (arrived : List Bytes)
      → Secures (challenge_stranger p identifier arrived)
  unfolding challenge_stranger
  challenge_stranger_secured identifier [] e = absurd (cc)
  challenge_stranger_secured identifier (packet ∷ later) e = absurd (cc)

  looked_up_secured :
      (identifier : Bytes) (after : SafeReader) (o : Option Client)
      → sized8 r ≡ some (identifier, after)
      → lookup (p.decode identifier) ≡ o
      → Secures (looked_up p identifier packets o)
  unfolding looked_up
  looked_up_secured identifier after none read found e =
      challenge_stranger_secured identifier packets e
  looked_up_secured identifier after (some c) read found e =
      challenge_client_secured identifier after c packets refl read found e

  identified_secured :
      (o : Option (Bytes × SafeReader)) → sized8 r ≡ o → Secures (identified p lookup packets o)
  unfolding identified
  identified_secured none read e = absurd (cc)
  identified_secured (some (identifier, after)) read e =
      looked_up_secured identifier after _ read refl e

-- When the authentication by credentials yields a tunnel: a client was found under the identifier
-- that was read, the tunnel has this client's alias, the server sent this client a challenge in which
-- the session key is sealed under the client's hash and then the verdict, the packet that answered
-- opens under that session key as the client's first message, and the tunnel is the one of that
-- session key after this message.
pub handle_credentials-IsKnown :
    (p : Platform) (lookup : Text → Option Client) (alias : Text) (t : TunnelSecurity)
    (r : SafeReader) (packets : List Bytes)
    → (handle_credentials p lookup r packets).verdict ≡ Verdict.secured alias t
    → IsKnown p lookup r packets (handle_credentials p lookup r packets).sent alias t
unfolding handle_credentials
handle_credentials-IsKnown p lookup alias t r packets e =
    identified_secured p lookup alias t r packets (sized8 r) refl e
