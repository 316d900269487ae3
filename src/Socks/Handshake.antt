-- ===== src/Socks/Handshake.antt =====
-- src/proxy/socks5.handler.ts: the handshake of a client with a username, a password and a domain name.
use web_tether.Common.{
  ℕ, ◌+◌, ◌*◌, ◌≡◌, refl, ap, subst, ◌∙◌, Bool, true, false, Option, none, some, List, [], ◌∷◌,
  ◌++◌, length, append_assoc,
}
use web_tether.SafeBuffer.{Bytes}
use web_tether.Socks.{
  Mode, SocksDestinationAddress, SocksTunnelResponse, ConnectionTunnelErrorReason, Script, send,
  Tunnel, Ending, Outcome, run,
}
use web_tether.Socks.Asking.{run-ask_size}
use web_tether.Socks.Chunks.{flatten, chunks, Agree, run-chunks}
use web_tether.Socks.Text.{Text}
use web_tether.Socks.Socks5.{
  enabled, Socks5Reply, create_response, includes, choose_method, authenticated, authentication,
  negotiated, handle_socks5, create_tunnel, tunnel_reply, request, parse_destination,
}

-- The reply that answers a tunnel's creation, and the tunnel that the handshake yields.
abbrev pub reply_for : SocksTunnelResponse → Socks5Reply
reply_for (SocksTunnelResponse.opened t) = Socks5Reply.succeeded
reply_for (SocksTunnelResponse.refused ConnectionTunnelErrorReason.not_allowed) =
    Socks5Reply.connection_not_allowed_by_ruleset
reply_for (SocksTunnelResponse.refused ConnectionTunnelErrorReason.network_unreachable) =
    Socks5Reply.network_unreachable
reply_for (SocksTunnelResponse.refused ConnectionTunnelErrorReason.host_unreachable) =
    Socks5Reply.host_unreachable
reply_for (SocksTunnelResponse.refused ConnectionTunnelErrorReason.connection_refused) =
    Socks5Reply.connection_refused
reply_for (SocksTunnelResponse.refused ConnectionTunnelErrorReason.ttl_expired) =
    Socks5Reply.ttl_expired
reply_for (SocksTunnelResponse.refused ConnectionTunnelErrorReason.general_failure) =
    Socks5Reply.general_socks_server_failure
reply_for SocksTunnelResponse.rejected = Socks5Reply.general_socks_server_failure

abbrev pub tunnel_of : SocksTunnelResponse → Option ℕ
tunnel_of (SocksTunnelResponse.opened t) = some t
tunnel_of (SocksTunnelResponse.refused why) = none
tunnel_of SocksTunnelResponse.rejected = none

-- What a client sends: the greeting, the credentials, and the request of a domain name.
abbrev pub greeting : Bytes → Bytes
greeting methods = 5 ∷ length methods ∷ methods

abbrev pub credentials : Bytes → Bytes → Bytes
credentials username password = (1 ∷ length username ∷ username) ++ (length password ∷ password)

abbrev pub domain_request : Bytes → ℕ → ℕ → Bytes
domain_request host high low = (5 ∷ 1 ∷ 0 ∷ 3 ∷ length host ∷ host) ++ (high ∷ low ∷ [])

module _ (tunnel : Tunnel) (decode : Bytes → Text) where
  run-tunnel_reply :
      (response : SocksTunnelResponse) (rest : Bytes)
      → run tunnel (tunnel_reply response) rest [] ≡ record {
        sent = create_response (reply_for response) ∷ [];
        dialled = [];
        ending = Ending.tunnelled (tunnel_of response);
        working_buffer = rest;
        unread = [];
      }
  unfolding run tunnel_reply
  run-tunnel_reply (SocksTunnelResponse.opened t) rest = refl
  run-tunnel_reply (SocksTunnelResponse.refused ConnectionTunnelErrorReason.not_allowed) rest = refl
  run-tunnel_reply (SocksTunnelResponse.refused ConnectionTunnelErrorReason.network_unreachable)
        rest =
      refl
  run-tunnel_reply (SocksTunnelResponse.refused ConnectionTunnelErrorReason.host_unreachable) rest =
      refl
  run-tunnel_reply (SocksTunnelResponse.refused ConnectionTunnelErrorReason.connection_refused)
        rest =
      refl
  run-tunnel_reply (SocksTunnelResponse.refused ConnectionTunnelErrorReason.ttl_expired) rest = refl
  run-tunnel_reply (SocksTunnelResponse.refused ConnectionTunnelErrorReason.general_failure) rest =
      refl
  run-tunnel_reply SocksTunnelResponse.rejected rest = refl

  -- The outcome of a request for `to`.
  abbrev pub answered : SocksDestinationAddress → Bytes → Outcome
  answered to rest = record {
    sent = create_response (reply_for (tunnel to)) ∷ [];
    dialled = to ∷ [];
    ending = Ending.tunnelled (tunnel_of (tunnel to));
    working_buffer = rest;
    unread = [];
  }

  run-dial :
      (to : SocksDestinationAddress) (rest : Bytes)
      → run tunnel (create_tunnel to) rest [] ≡ answered to rest
  unfolding run
  run-dial to rest =
      ap {A = Outcome} (λ o. record o { dialled = to ∷ o.dialled })
        (run-tunnel_reply (tunnel to) rest)

  run-request :
      (host : Bytes) (high low : ℕ) (rest : Bytes)
      → run tunnel (request decode) (domain_request host high low ++ rest) []
        ≡ answered (record { mode = Mode.domain; host = decode host; port = high * 256 + low }) rest
  unfolding request parse_destination
  run-request host high low rest =
      ap (λ l. run tunnel (request decode) l [])
        (append_assoc (5 ∷ 1 ∷ 0 ∷ 3 ∷ length host ∷ host) (high ∷ low ∷ []) rest)
      ∙ run-ask_size tunnel _ 4 _ (5 ∷ 1 ∷ 0 ∷ 3 ∷ []) _ refl
      ∙ run-ask_size tunnel _ 1 _ (length host ∷ []) _ refl
      ∙ run-ask_size tunnel _ (length host) _ host _ refl
      ∙ run-ask_size tunnel _ 2 _ (high ∷ low ∷ []) _ refl
      ∙ run-dial _ rest

  -- Once the credentials are accepted.
  run-authentication :
      (required : Bool) (validate : Text → Text → Option Bool) (username password more : Bytes)
      → run tunnel
          (authentication (enabled required validate) decode)
          (credentials username password ++ more)
          []
        ≡ run tunnel (authenticated decode (validate (decode username) (decode password))) more []
  unfolding authentication
  run-authentication required validate username password more =
      ap (λ l. run tunnel (authentication (enabled required validate) decode) l [])
        (append_assoc (1 ∷ length username ∷ username) (length password ∷ password) more)
      ∙ run-ask_size tunnel _ 2 _ (1 ∷ length username ∷ []) _ refl
      ∙ run-ask_size tunnel _ (length username) _ username _ refl
      ∙ run-ask_size tunnel _ 1 _ (length password ∷ []) _ refl
      ∙ run-ask_size tunnel _ (length password) _ password _ refl

  run-greeting :
      (required : Bool) (validate : Text → Text → Option Bool) (methods more : Bytes)
      → includes 2 methods ≡ true
      → run tunnel (handle_socks5 (enabled required validate) decode) (greeting methods ++ more) []
        ≡ run tunnel (send (5 ∷ 2 ∷ []) (authentication (enabled required validate) decode)) more []
  unfolding handle_socks5 negotiated choose_method
  run-greeting required validate methods more offered =
      run-ask_size tunnel _ 2 _ (5 ∷ length methods ∷ []) _ refl
      ∙ run-ask_size tunnel _ (length methods) _ methods _ refl
      ∙ rw offered refl

  run-send-cong :
      (b : Bytes) (s s2 : Script) (stream stream2 : Bytes)
      → run tunnel s stream [] ≡ run tunnel s2 stream2 []
      → run tunnel (send b s) stream [] ≡ run tunnel (send b s2) stream2 []
  unfolding run
  run-send-cong b s s2 stream stream2 e = ap {A = Outcome} (λ o. record o { sent = b ∷ o.sent }) e

  -- What the server sends and does for a login.
  abbrev pub logged_in : Option Bool → SocksDestinationAddress → Bytes → Bytes → Outcome
  logged_in none to asked rest = record {
    sent = (5 ∷ 2 ∷ []) ∷ [];
    dialled = [];
    ending = Ending.thrown;
    working_buffer = asked ++ rest;
    unread = [];
  }
  logged_in (some false) to asked rest = record {
    sent = (5 ∷ 2 ∷ []) ∷ (1 ∷ 1 ∷ []) ∷ [];
    dialled = [];
    ending = Ending.tunnelled none;
    working_buffer = asked ++ rest;
    unread = [];
  }
  logged_in (some true) to asked rest = record {
    sent = (5 ∷ 2 ∷ []) ∷ (1 ∷ 0 ∷ []) ∷ create_response (reply_for (tunnel to)) ∷ [];
    dialled = to ∷ [];
    ending = Ending.tunnelled (tunnel_of (tunnel to));
    working_buffer = rest;
    unread = [];
  }

  run-verdict :
      (verdict : Option Bool) (host : Bytes) (high low : ℕ) (rest : Bytes)
      → run tunnel
          (send (5 ∷ 2 ∷ []) (authenticated decode verdict))
          (domain_request host high low ++ rest)
          []
        ≡ logged_in verdict
            (record { mode = Mode.domain; host = decode host; port = high * 256 + low })
            (domain_request host high low)
            rest
  unfolding run authenticated
  run-verdict none host high low rest = refl
  run-verdict (some false) host high low rest = refl
  run-verdict (some true) host high low rest = rw (run-request host high low rest) refl

  -- A SOCKS5 client that offers the password method among others, sends its username and password,
  -- and asks for a domain name, with `rest` behind, however its bytes are cut into chunks: the
  -- server's messages, the destinations dialled and the end of the handshake are those of
  -- `logged_in` for the validation's verdict. That is one dial and a reply for the answer of the
  -- tunnel when it accepts, a refusal without a dial when it does not, and no further message when
  -- its promise is rejected.
  pub login_handshake :
      (required : Bool) (validate : Text → Text → Option Bool)
      (methods username password host : Bytes) (high low : ℕ) (rest : Bytes) (cs : List Bytes)
      → includes 2 methods ≡ true
      → flatten cs
        ≡ greeting methods
          ++ (credentials username password ++ (domain_request host high low ++ rest))
      → Agree (run tunnel (handle_socks5 (enabled required validate) decode) [] (chunks cs)) (
          logged_in
            (validate (decode username) (decode password))
            (record { mode = Mode.domain; host = decode host; port = high * 256 + low })
            (domain_request host high low)
            rest)
  login_handshake required validate methods username password host high low rest cs offered bytes =
      let whole = run-chunks tunnel (handle_socks5 (enabled required validate) decode) [] cs in
      let outcome =
        ap (λ l. run tunnel (handle_socks5 (enabled required validate) decode) l []) bytes
        ∙ run-greeting required validate methods _ offered
        ∙ run-send-cong (5 ∷ 2 ∷ []) _ _ _ _
            (run-authentication required validate username password _)
        ∙ run-verdict (validate (decode username) (decode password)) host high low rest in
      subst (Agree (run tunnel (handle_socks5 (enabled required validate) decode) [] (chunks cs)))
        outcome whole
