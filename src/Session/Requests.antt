-- ===== src/Session/Requests.antt =====
-- The requests that a client's own code encodes, and what the relay makes of them.
use web_tether.Common.{
  Bool-cases, ◌==◌, inl, inr, ℕ, ◌+◌, ◌<◌, ◌≡◌, ◌∙◌, sym, ap, refl, Bool, true, false, none, some,
  List, [], ◌∷◌, ◌++◌, append_assoc, append-nil, arith, All, length, map,
}
use web_tether.Common.Dict.{get, has, contains, text_eq, nat_eq}
use web_tether.Common.Result.{ok}
use web_tether.SafeBuffer.{Bytes, SafeReader, encode_uint16, encode_with_uint16_length}
use web_tether.SafeBuffer.Reads.{Left, safe_reader-Left}
use web_tether.SafeBuffer.RoundTrip.{uint8-Left, uint16-encode_uint16}
use web_tether.SafeBuffer.Sized.{sized16-encode_with_uint16_length}
use web_tether.Protocol.{
  RelayCommand, command_code, service_code, service_of-service_code, RelayBindReply,
}
use web_tether.Relay.{
  Text, Relay, RelayService, RelayError, BoundService, service, some_bound, bind, bind_each,
}
use web_tether.Relay.Invariant.Bind.{bind_complete}
use web_tether.Session.{Context, Session, Next, enabled, reading, calling}
use web_tether.Session.Bind.{
  Scan, no_services, found_by_checks, check_service, scan, finish_bind, bind_with, handle_bind,
  bind_reply,
}
use web_tether.Session.Commands.{handle_packet, handle_command}

-- src/tunnel/client/tunnel-handle.client.ts: one service of the bind request.
abbrev pub service_entry : (Text → Bytes) → RelayService → Bytes
service_entry encode s = service_code s.type ∷ encode_with_uint16_length (encode s.service)

abbrev pub service_entries : (Text → Bytes) → List RelayService → Bytes
service_entries encode [] = []
service_entries encode (s ∷ services) = service_entry encode s ++ service_entries encode services

unfoldable pub bind_request : (Text → Bytes) → List RelayService → Bytes
bind_request encode services =
    command_code RelayCommand.service_bind
    ∷ (encode_uint16 (length services) ++ service_entries encode services)

-- A service name that survives the wire: `TextDecoder` gives back what `TextEncoder` was given, and
-- the encoding fits its length field.
abbrev pub IsSendable : (Text → Bytes) → (Bytes → Text) → Text → Type 0
IsSendable encode decode name = (decode (encode name) ≡ name) × (length (encode name) < 65536)

service_free :
    (name : Text) (r : Relay) → get name r.bound_services ≡ none → service name r ≡ ok none
unfolding service
service_free name r h = rw (h, service)

check_service_free :
    (allowed : Text → Bool) (view : Relay) (s : RelayService) (acc : Scan)
    → allowed s.service ≡ true
    → get s.service view.bound_services ≡ none
    → check_service allowed view (service_code s.type) s.service acc
      ≡ ok (record acc { services = acc.services ++ (s ∷ []) })
unfolding check_service
check_service_free allowed view s acc fine free =
    rw (service_of-service_code s.type, check_service) (rw (fine, service_free s.service view free))

-- Each service is free in the relay that its own check finds, from index `i` on.
abbrev pub FreeWhenChecked : (ℕ → Relay) → ℕ → List RelayService → Type 0
FreeWhenChecked view i [] = Unit
FreeWhenChecked view i (s ∷ services) =
    (get s.service (view i).bound_services ≡ none) × FreeWhenChecked view (i + 1) services

free-FreeWhenChecked :
    (count : ℕ) (now : Relay) (view : ℕ → Relay) (i : ℕ) (services : List RelayService)
    → All (λ s. (j : ℕ) → get s.service (view j).bound_services ≡ none) services
    → All (λ s. get s.service now.bound_services ≡ none) services
    → FreeWhenChecked (found_by_checks count now view) i services
free-FreeWhenChecked count now view i [] free free_now = tt
free-FreeWhenChecked count now view i (s ∷ services) free free_now = (
  elim (Bool-cases (i + 1 == count)) [
    | inl last ↦ rw last (free_now.0)
    | inr before ↦ rw before (free.0 i)
  ],
  free-FreeWhenChecked count now view (i + 1) services free.1 free_now.1,
)

-- The loop collects every service of the request, in order, if each is permitted and free.
scan-service_entries :
    (encode : Text → Bytes) (decode : Bytes → Text) (allowed : Text → Bool) (view : ℕ → Relay)
    (services : List RelayService) (i : ℕ) (r : SafeReader) (acc : Scan)
    → Left r (service_entries encode services)
    → All (λ s. IsSendable encode decode s.service) services
    → All (λ s. allowed s.service ≡ true) services
    → FreeWhenChecked view i services
    → scan decode allowed view (length services) i r acc
      ≡ ok (record acc { services = acc.services ++ services })
unfolding scan
scan-service_entries encode decode allowed view [] i r acc left send fine free =
    ap (λ l. ok (record acc { services = l })) (sym (append-nil acc.services))
scan-service_entries encode decode allowed view (s ∷ services) i r acc left send fine free =
    let rest = service_entries encode services in
    let (r₁, e₁, left₁) =
      uint8-Left r (service_code s.type) 0 0 0
        (encode_with_uint16_length (encode s.service) ++ rest) left in
    let (r₂, e₂, left₂) =
      sized16-encode_with_uint16_length (encode s.service) r₁ rest send.0.1 left₁ in
    let ih =
      scan-service_entries encode decode allowed view services (i + 1) r₂
        (record acc { services = acc.services ++ (s ∷ []) }) left₂ send.1 fine.1 free.1 in
    rw (e₁, e₂, send.0.0, check_service_free allowed (view i) s acc fine.0 free.0)
      (ih
        ∙ ap (λ l. ok (record acc { services = l })) (append_assoc acc.services (s ∷ []) services))

some_bound_free :
    (services : List RelayService) (r : Relay)
    → All (λ s. get s.service r.bound_services ≡ none) services
    → some_bound services r ≡ false
unfolding some_bound has
some_bound_free [] r h = refl
some_bound_free (s ∷ services) r h = ground (arith, some_bound_free services r h.1)

module _ (ctx : Context) (allowed : Text → Bool) (permission : ctx.bind ≡ enabled allowed)
    (view : ℕ → Relay) (services : List RelayService) (s : Session)
    (count : length services < 65536)
    (send : All (λ x. IsSendable ctx.encode ctx.decode x.service) services)
    (fine : All (λ x. allowed x.service ≡ true) services) where
  -- The request passes the loop and comes to `relay.bind` with exactly the services sent.
  bind_request_scanned :
      FreeWhenChecked (found_by_checks (length services) s.relay view) 0 services
      → s.service_bound ≡ false
      → handle_packet ctx view (bind_request ctx.encode services) s
        ≡ finish_bind ctx
            (record s { service_bound = true })
            (record no_services { services = services })
  unfolding handle_packet handle_command handle_bind bind_with bind_request reading calling
  bind_request_scanned free first =
      let body = service_entries ctx.encode services in
      let (r, e, left) = uint8-Left _ (command_code RelayCommand.service_bind) 0 0 0 _ (
        safe_reader-Left
          (command_code RelayCommand.service_bind ∷ (encode_uint16 (length services) ++ body))) in
      let (r₁, e₁, left₁) = uint16-encode_uint16 (length services) r body count left in
      rw (e, permission)
        (simp (first, e₁)
          (rw (
            scan-service_entries ctx.encode ctx.decode allowed
              (found_by_checks (length services) s.relay view) services 0 r₁ no_services left₁ send
              fine free)))

  -- A client that may bind, and has not bound yet, sends its bind request for services that it may
  -- bind and that are free throughout. The relay answers SUCCESS alone, goes on, and has every one
  -- of the services bound to the client's socket.
  pub bind_request-succeeds :
      All (λ x. (j : ℕ) → get x.service (view j).bound_services ≡ none) services
      → s.service_bound ≡ false
      → All (λ x. get x.service s.relay.bound_services ≡ none) services
      → let t = handle_packet ctx view (bind_request ctx.encode services) s in
        (t.writes ≡ (ctx.socket, bind_reply RelayBindReply.success) ∷ [])
        × (t.next ≡ Next.continue)
        × (t.session.service_bound ≡ true)
        × ((n : Text)
            → contains n (map (λ x. x.service) services) ≡ true
            → (b : BoundService) × (get n t.session.relay.bound_services ≡ some b)
              × (b.socket ≡ ctx.socket))
  unfolding finish_bind calling bind
  bind_request-succeeds free first now =
      let looked = free-FreeWhenChecked (length services) s.relay view 0 services free now in
      let free_now = some_bound_free services s.relay now in
      let after : Relay = record (s.relay) {
        bound_services = bind_each ctx.socket services s.relay.bound_services;
      } in
      rw (bind_request_scanned looked first) (
        rw free_now (
          refl,
          refl,
          refl,
          λ n h. bind_complete ctx.socket services s.relay after (rw (free_now, bind)) n h,
        ))

  -- A client that may bind, and has not bound yet, sends its bind request for services that it may
  -- bind. Each is free in the relay that its own check finds, where the last check finds the relay as
  -- it stands when the loop has ended; but one of them is bound there, as when another socket binds it
  -- while the check of a later service is awaited. The relay answers SUCCESS, then throws "Already
  -- bound", and its tables stay as they were.
  pub bind_request-raced :
      FreeWhenChecked (found_by_checks (length services) s.relay view) 0 services
      → s.service_bound ≡ false
      → some_bound services s.relay ≡ true
      → let t = handle_packet ctx view (bind_request ctx.encode services) s in
        (t.writes ≡ (ctx.socket, bind_reply RelayBindReply.success) ∷ [])
        × (t.next ≡ Next.throw RelayError.already_bound)
        × (t.session.relay ≡ s.relay)
  unfolding finish_bind calling bind
  bind_request-raced looked first taken =
      rw (bind_request_scanned looked first) (rw taken (refl, refl, refl))
