-- ===== src/Lib.antt =====
-- web-tether: a relay that joins clients over WebSockets, a client that binds and reaches services
-- through it, and a SOCKS proxy. This library models the core of the relay, of the client and of the
-- proxy as definitions that run, and proves the theorems listed below.
--
-- The parts, and the files that model them:
-- * src/common/safe-buffer.ts (SafeBuffer): `encodeUint8` … `encodeWithUint32Length` are
--   `encode_uint8` … `encode_with_uint32_length`; `safeReader` is the record `SafeReader`, with its
--   offset as state that each read (`uint8` … `int32`, `data_of`, `data_left`) hands on;
--   `areBuffersEqual` is `are_buffers_equal`. A buffer is the list of its bytes, and a read that
--   throws is `none`. Signed numbers are two's complement, written out.
-- * src/tunnel/server/tunnel.relay.ts and src/tunnel/common/tunnel.const.ts, the numbers of the wire
--   protocol (Protocol): one data type for each enum, with the functions to and from the numbers.
-- * src/tunnel/server/tunnel.relay.ts, `createRelay` (Relay): the tables of bound services and of
--   registered sockets are association lists, a WebSocket is a number, and the writer of a socket is
--   the list of packets that a method returns. `Relay.Steps` has the step relation over the methods.
-- * src/tunnel/server/tunnel.relay.ts, `handleSocketRelay` (Session): `handle_packet` is one round of
--   the command loop, with one function for each command. Where the code awaits a permission check
--   other sockets may act: the relay that each check of a bind request finds is a parameter (`view`),
--   but for the last one, after which nothing is awaited before the relay is changed. `Session.World`
--   joins every session of the server, and `Session.Requests` has the bind request of
--   src/tunnel/client/tunnel-handle.client.ts.
-- * src/proxy (Socks): the generators `handleSocks4`, `handleSocks5` and `handleProtocol` are scripts
--   that ask for bytes, send bytes and dial; `run` is the handshake loop of `handleSocksConnection`.
--   The bytes come from a list of reads, each of them a chunk, the end of the stream, or a deadline or
--   abort that throws.
-- * src/tunnel/common/tunnel.security.ts (Security): `encodeIV`, and the counters of
--   `createTunnelSecurity`; AES-GCM is a parameter.
-- * `authenticateRelay` of src/tunnel/server/tunnel.relay.ts and src/tunnel/server/auth
--   (Authentication, and Authentication.Identity for the identity scheme): functions from the
--   packets that arrive to the packets sent and the end of the authentication;
--   src/tunnel/client/auth (Authentication.Clients) in the same way. Authentication.Exchange and
--   Authentication.IdentityExchange run both sides against each other.
-- * src/common/utils.ts, `consumableAsyncQueue` (Queue): the calls are functions on a record of the
--   closure's variables, a promise is a number, and what settles comes back as effects. The turns of
--   the event loop are calls of their own (`process`, `cancel_shift`, `cancel_wait`), so that a list
--   of calls is one interleaving. Queue.View and Queue.Fifo have the abstract queue, and
--   Queue.Deciphered has `createDecipheredQueue` of src/common/communication.ts.
-- * src/tunnel/client/tunnel-handle.client.ts, src/tunnel/client/commands and, of
--   src/tunnel/client/services, client-service-handler.ts and handle-stream.ts (Client): the tables
--   of a client, one function for each command (`handle_SERVICE_LINK` is `receive_link`), for an
--   accepted local client (`serve_client`) and for the outcome of a dial; what goes out is a list of
--   effects. Client.Exchange and Client.Answers join two clients with a session of the relay, and
--   Client.Returned has a client that connects to a service of its own.
--
-- The server authenticates a socket before its session begins. The session calls the relay, which
-- keeps all connections and gives packets to the writers of their sockets; the client answers its
-- packets and starts connections of its own; the authentication, the session and the client read and
-- write bytes with the buffers. Packets and accepted clients wait in queues. The proxy stands by
-- itself.
--
-- Recursion is on lists, scripts and counts, so that nothing runs out; `digits` prints at most three
-- decimal and four hexadecimal digits, enough for 8 and for 16 bits. Numbers have no upper bound but
-- where the code encodes them. `relayCounter` counts down without a bound, as it does in the code up to
-- 2 ^ 53, and the client's `localUID` counts up likewise; the theorems on packets ask for an identifier
-- of 32 bits.
--
-- Parameters, since they are the platform's or the configuration's: `TextEncoder` and `TextDecoder`,
-- the permission checks (their answers do not change over time), the validation of SOCKS users, the
-- tunnel that the proxy dials, the random bytes, the hashes, the key derivations and the ciphers.
--
-- Not modelled: the cryptography (src/common/security.ts) and the joined streams of
-- src/common/communication.ts; how the two halves of a stream end each other
-- (src/tunnel/client/services/handle-stream.ts; the packets of each half are in Client.Stream); the
-- listeners of raw sockets and of the proxy with their timeouts; and what is input and output only
-- (the HTTP server, logs, the command line). A packet reaches a session or a client decrypted and in
-- order.
pub mod Common
pub mod SafeBuffer
pub mod Protocol
pub mod Relay
pub mod Session
pub mod Socks
pub mod Security
pub mod Authentication
pub mod Queue
pub mod Client
