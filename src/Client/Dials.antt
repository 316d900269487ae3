-- ===== src/Client/Dials.antt =====
-- src/tunnel/client/commands/handle-SERVICE_LINK.ts: the outcome of `Deno.connect`, and the end of a
-- link's or a connection's stream.
use web_tether.Common.{none, some, List, [], ◌∷◌, ◌==◌, if◌then◌else◌}
use web_tether.Common.Dict.{get, int_eq}
use web_tether.Protocol.{RelayLinkReply}
use web_tether.Client.{Client, Dial, ClientEffect, sent, streaming, drop_link}
use web_tether.Client.Commands.{link_reply}

-- `finalize` of the link that made the dial: nothing where `done` is settled.
unfoldable pub finalize_dial : Dial → Client → Client × List ClientEffect
finalize_dial d c = elim (get d.uid c.links) [
  | none ↦ (c, [])
  | some l ↦ if l.dial == d.number then drop_link d.uid c else (c, [])
]

-- The `then` of the dial.
unfoldable pub dial_succeeded : Dial → Client → Client × List ClientEffect
dial_succeeded d c =
    (c, sent (link_reply d.encoded_uid RelayLinkReply.success) ∷ streaming d.uid ∷ [])

-- The `catch` of the dial.
unfoldable pub dial_failed : Dial → Client → Client × List ClientEffect
unfolding finalize_dial
dial_failed d c =
    let (c', es) = finalize_dial d c in
    (c', sent (link_reply d.encoded_uid RelayLinkReply.general_failure) ∷ es)
