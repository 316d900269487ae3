-- ===== src/Client/Packets.antt =====
-- What a client reads in the packets of the relay that name a connection.
use web_tether.Common.{
  ℕ, ◌<◌, ◌≡◌, refl, sym, subst, append-nil, ◌∙◌, true, false, some, [], ◌∷◌, ◌++◌, arith, ◌⊎◌, inl,
  inr, length, take-append_length, length-append,
}
use web_tether.Common.Int.{ℤ, is_positive, is_negative}
use web_tether.Common.Dict.{get, has, int_eq, text_eq}
use web_tether.SafeBuffer.{
  Bytes, SafeReader, safe_reader, uint8, int32, data_of, data_left, encode_int32,
  encode_with_uint16_length, encode_uint16,
}
use web_tether.SafeBuffer.Reads.{Left, safe_reader-Left, ensure-Left}
use web_tether.SafeBuffer.RoundTrip.{IsInt32, uint8-Left, uint16-encode_uint16, int32-encode_int32}
use web_tether.SafeBuffer.Sized.{sized16-encode_with_uint16_length}
use web_tether.Protocol.{RelayCommand, command_code, command_of-command_code}
use web_tether.Client.{Address, proxied, forwarded, Client, pushed, Coding, went_on, receiving}
use web_tether.Relay.{Text}
use web_tether.Client.Stream.{stream_packet}
use web_tether.Client.Requests.{service_parameters, proxy}
use web_tether.Client.Commands.{
  receive_connect, receive_stream, receive_link, receive_command, receive_packet, connect_replied,
  link_service, start_link,
}

pub data_of-ahead :
    (content rest : Bytes) (r : SafeReader)
    → Left r (content ++ rest)
    → data_of (length content) true r ≡ some (content, r)
unfolding data_of
data_of-ahead content rest r left =
    rw
      (
        ensure-Left r _ left (length content) (omega (arith, length-append content rest)),
        left.1,
        take-append_length content rest,
      )
      refl

-- A command byte, an identifier and a body: what the readers give.
pub record Reading (command : ℕ) (uid : ℤ) (body : Bytes) (packet : Bytes) : Type 0 where
  pub at_uid : SafeReader
  pub at_body : SafeReader
  pub reads_command : uint8 false (safe_reader packet) ≡ some (command, at_uid)
  pub reads_encoded : data_of 4 true at_uid ≡ some (encode_int32 uid, at_uid)
  pub reads_uid : int32 false at_uid ≡ some (uid, at_body)
  pub reads_body : Left at_body body

pub Reading-encode :
    (command : ℕ) (uid : ℤ) (body : Bytes)
    → IsInt32 uid
    → Reading command uid body (command ∷ (encode_int32 uid ++ body))
Reading-encode command uid body h =
    let (r, e, left) =
      uint8-Left _ command 0 0 0 _ (safe_reader-Left (command ∷ (encode_int32 uid ++ body))) in
    let (r', e', left') = int32-encode_int32 uid r body h left in
    record {
      at_uid = r;
      at_body = r';
      reads_command = e;
      reads_encoded = unfold encode_int32 in data_of-ahead (encode_int32 uid) body r left;
      reads_uid = e';
      reads_body = left';
    }

negative-positive : (uid : ℤ) → is_negative uid ≡ true → is_positive uid ≡ false
negative-positive uid h = ground arith

module _ (coding : Coding) (c : Client) where
  receive_packet-command :
      (k : RelayCommand) (uid : ℤ) (body packet : Bytes)
      (p : Reading (command_code k) uid body packet)
      → receive_packet coding packet c ≡ receive_command coding p.at_uid c k
  unfolding receive_packet receiving
  receive_packet-command k uid body packet p =
      rw (p.reads_command, receiving) (rw (command_of-command_code k) refl)

  -- The answer to a connect request.
  pub receive_packet-reply :
      (uid : ℤ) (reply : ℕ)
      → IsInt32 uid
      → receive_packet coding
          (command_code RelayCommand.service_connect ∷ (encode_int32 uid ++ (reply ∷ [])))
          c
        ≡ connect_replied (encode_int32 uid) uid reply c (get uid c.connections)
  unfolding receive_command receive_connect receiving
  receive_packet-reply uid reply h =
      let p = Reading-encode (command_code RelayCommand.service_connect) uid (reply ∷ []) h in
      let (r, e, left) = uint8-Left p.at_body reply 0 0 0 [] p.reads_body in
      receive_packet-command RelayCommand.service_connect uid _ _ p
      ∙ rw (p.reads_encoded) (rw (p.reads_uid) (rw e refl))

  -- An identifier that the client has in use.
  abbrev pub IsOpen : ℤ → Type 0
  IsOpen uid =
      ((is_positive uid ≡ true) × (has uid c.connections ≡ true))
      ⊎ ((is_negative uid ≡ true) × (has uid c.links ≡ true))

  -- What streams over a connection in use.
  pub receive_packet-stream :
      (uid : ℤ) (content : Bytes)
      → IsInt32 uid
      → IsOpen uid
      → receive_packet coding (stream_packet uid content) c ≡ went_on c (pushed uid content ∷ [])
  unfolding receive_command receive_stream receiving data_left stream_packet
  receive_packet-stream uid content h (inl (up, used)) =
      let p = Reading-encode (command_code RelayCommand.service_stream) uid content h in
      receive_packet-command RelayCommand.service_stream uid _ _ p
      ∙ rw (p.reads_encoded) (rw (p.reads_uid) (rw (up, used, p.reads_body.1) refl))
  receive_packet-stream uid content h (inr (down, used)) =
      let p = Reading-encode (command_code RelayCommand.service_stream) uid content h in
      receive_packet-command RelayCommand.service_stream uid _ _ p
      ∙ rw (p.reads_encoded)
          (rw (p.reads_uid) (rw (negative-positive uid down, down, used, p.reads_body.1) refl))

  receive_packet-link :
      (uid : ℤ) (name : Text) (metadata : Bytes)
      → IsInt32 uid
      → is_negative uid ≡ true
      → has uid c.links ≡ false
      → coding.decode (coding.encode name) ≡ name
      → length (coding.encode name) < 65536
      → (r : SafeReader) × (receive_packet coding
            (command_code RelayCommand.service_link
              ∷ (encode_int32 uid ++ (encode_with_uint16_length (coding.encode name) ++ metadata)))
            c
          ≡ link_service coding (encode_int32 uid) uid r c (get name c.registered))
        × Left r metadata
  unfolding receive_command receive_link receiving
  receive_packet-link uid name metadata h down unused same short =
      let p =
        Reading-encode (command_code RelayCommand.service_link) uid
          (encode_with_uint16_length (coding.encode name) ++ metadata) h in
      let (r, e, left) =
        sized16-encode_with_uint16_length (coding.encode name) p.at_body metadata short
          p.reads_body in
      (
        r,
        receive_packet-command RelayCommand.service_link uid _ _ p
            ∙ rw (p.reads_encoded) (rw (p.reads_uid) (rw e (rw (down, unused, same) refl))),
        left,
      )

  -- A link request for a service of the client's own: it dials the destination that goes with the
  -- service.
  pub receive_packet-forwarded :
      (uid : ℤ) (name : Text) (metadata : Bytes) (a : Address)
      → IsInt32 uid
      → is_negative uid ≡ true
      → has uid c.links ≡ false
      → coding.decode (coding.encode name) ≡ name
      → length (coding.encode name) < 65536
      → get name c.registered ≡ some (forwarded a)
      → receive_packet coding
          (command_code RelayCommand.service_link
            ∷ (encode_int32 uid ++ (encode_with_uint16_length (coding.encode name) ++ metadata)))
          c
        ≡ start_link (encode_int32 uid) uid a c
  unfolding link_service
  receive_packet-forwarded uid name metadata a h down unused same short there =
      let (r, e, left) = receive_packet-link uid name metadata h down unused same short in
      e ∙ rw (there, link_service) refl

  -- A link request for its proxy: it dials the host and the port that the request names.
  pub receive_packet-proxied :
      (uid : ℤ) (name : Text) (a : Address)
      → IsInt32 uid
      → is_negative uid ≡ true
      → has uid c.links ≡ false
      → coding.decode (coding.encode name) ≡ name
      → length (coding.encode name) < 65536
      → get name c.registered ≡ some proxied
      → coding.decode (coding.encode a.hostname) ≡ a.hostname
      → length (coding.encode a.hostname) < 65536
      → a.port < 65536
      → receive_packet coding
          (command_code RelayCommand.service_link
            ∷ (encode_int32 uid
                ++ (encode_with_uint16_length (coding.encode name)
                    ++ service_parameters coding.encode (proxy a))))
          c
        ≡ start_link (encode_int32 uid) uid a c
  unfolding link_service service_parameters receiving
  receive_packet-proxied uid name a h down unused same short there same' short' port =
      let metadata : Bytes =
        encode_with_uint16_length (coding.encode a.hostname) ++ encode_uint16 a.port in
      let (r, e, left) = receive_packet-link uid name metadata h down unused same short in
      let (r₁, e₁, left₁) =
        sized16-encode_with_uint16_length (coding.encode a.hostname) r (encode_uint16 a.port) short'
          left in
      let (r₂, e₂, left₂) =
        uint16-encode_uint16 a.port r₁ [] port
          (subst (Left r₁) (sym (append-nil (encode_uint16 a.port))) left₁) in
      e ∙ rw (there, link_service) (rw e₁ (rw (e₂, same') refl))
