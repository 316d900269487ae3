-- ===== src/Socks/Protocol.antt =====
-- src/proxy/socks.server.ts: `handleProtocol`, which looks at the version without consuming it, and
-- what `handleSocksConnection` makes of a handshake.
use web_tether.Common.{ℕ, true, Option, none, some, List, [], ◌∷◌, ◌==◌, if◌then◌else◌, get_or}
use web_tether.SafeBuffer.{Bytes}
use web_tether.Socks.{Script, finish, ask, Want, init_timeout, Tunnel, Read, Ending, run}
use web_tether.Socks.Text.{Text}
use web_tether.Socks.Socks5.{Socks5Auth, handle_socks5, socks5_version}
use web_tether.Socks.Socks4.{Socks4Auth, handle_socks4}

-- The part of `CreateSocksServerOptions` that the handlers read: an entry is `none` when its
-- protocol is not enabled.
pub record Options : Type 0 where
  pub socks4 : Option Socks4Auth
  pub socks5 : Option Socks5Auth

-- `handleProtocol`
unfoldable pub handle_protocol : Options → (Bytes → Text) → Script
unfolding handle_socks4 handle_socks5
handle_protocol options decode =
    ask (record { timeout = init_timeout; want = Want.size 1; do_not_consume = true })
      (λ b.
        if get_or b 0 0 == 4
        then elim options.socks4 [ none ↦ finish none | some auth ↦ handle_socks4 auth decode ]
        else if get_or b 0 0 == socks5_version
        then elim options.socks5 [ none ↦ finish none | some auth ↦ handle_socks5 auth decode ]
        else finish none)

-- What a connection comes to: the tunnel to pipe with the bytes written to it first, if any.
pub record Piping : Type 0 where
  pub tunnel : ℕ
  pub remaining : Option Bytes

-- `workingBuffer`, when it has a length.
abbrev remaining_of : Bytes → Option Bytes
remaining_of [] = none
remaining_of (x ∷ xs) = some (x ∷ xs)

-- `if (tunnel) { if (workingBuffer.length) { ... } ... }`
unfoldable pub piping : Ending → Bytes → Option Piping
piping (Ending.tunnelled (some t)) buffer =
    some (record { tunnel = t; remaining = remaining_of buffer })
piping (Ending.tunnelled none) buffer = none
piping Ending.end_of_stream buffer = none
piping Ending.thrown buffer = none

-- `handleSocksConnection`, up to the piping.
unfoldable pub handle_socks_connection :
    Options → (Bytes → Text) → Tunnel → List Read → Option Piping
unfolding handle_protocol run piping
handle_socks_connection options decode tunnel reads =
    let o = run tunnel (handle_protocol options decode) [] reads in piping o.ending o.working_buffer
