-- ===== src/Client/Loop.antt =====
-- A client's life after the authentication: what happens to it, in any order.
use web_tether.Common.{List, [], ◌∷◌, ◌++◌}
use web_tether.Common.Int.{ℤ}
use web_tether.SafeBuffer.{Bytes}
use web_tether.Client.{Client, Dial, ClientEffect, Coding, finalize_connection}
use web_tether.Client.Requests.{LocalClient, serve_client, abort_connection}
use web_tether.Client.Commands.{receive_packet}
use web_tether.Client.Dials.{finalize_dial, dial_succeeded, dial_failed}

-- A stream that ends finalizes its connection, or the link whose dial it has.
pub data ClientEvent : Type 0 where
  packet : Bytes → ClientEvent
  local : LocalClient → ClientEvent
  aborting : ℤ → ClientEvent
  reached unreachable : Dial → ClientEvent
  connection_streamed : ℤ → ClientEvent
  link_streamed : Dial → ClientEvent

unfoldable pub client_step : Coding → ClientEvent → Client → Client × List ClientEffect
client_step coding (packet bytes) c = let t = receive_packet coding bytes c in (t.client, t.effects)
client_step coding (local l) c = serve_client coding l c
client_step coding (aborting uid) c = abort_connection uid c
client_step coding (reached d) c = dial_succeeded d c
client_step coding (unreachable d) c = dial_failed d c
client_step coding (connection_streamed uid) c = finalize_connection uid c
client_step coding (link_streamed d) c = finalize_dial d c

unfoldable pub client_run : Coding → List ClientEvent → Client → Client × List ClientEffect
client_run coding [] c = (c, [])
client_run coding (e ∷ es) c =
    let (c', out) = client_step coding e c in
    let (c'', more) = client_run coding es c' in (c'', out ++ more)
