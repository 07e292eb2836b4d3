-- ===== src/Lib.antt =====
-- Quantum-Go: the wire formats, the key schedule, the sessions, the datagram handshake and the connection
-- pool of the tunnel.
--
-- The program is a Go library for an encrypted tunnel. pkg/protocol defines the messages and their
-- wire formats, of the stream transport (codec.go, messages.go) and of the datagram transport
-- (datagram_codec.go). pkg/tunnel runs the tunnels: for datagrams, a handshake message is split
-- into frames (dgram_handshake.go), collected from frames (reassembly.go), and drives a state
-- machine (dgram_handshake_fsm.go) under a driver that retransmits (dgram_handshake_driver.go);
-- data frames pass a replay filter (replay.go). A session (session.go, dgram_session.go) holds the
-- keys that pkg/crypto derives, seals and opens records, and changes its keys by a rekey with the
-- hybrid KEM of pkg/chkem, for datagrams by sealed control messages (dgram_rekey.go); a ticket
-- (ticket.go) carries its secret to a later session. Cookies (dgram_cookie.go) and a connection limit
-- (limiter.go) keep strangers from using up memory. A pool (pool.go) shares established connections
-- among callers, with the settings that pool_config.go checks.
--
-- Which file models which part:
--   Base: Go's error returns and panics as `Result`, slices as lists, big-endian integers, bits of
--     machine words, maps as association lists, reading positions in a buffer.
--   Messages: pkg/protocol/messages.go and version.go, and `IsSupported` of
--     internal/constants/constants.go.
--   Codec: pkg/protocol/codec.go. Codec/Fields has the length-prefixed and optional fields,
--     Codec/ClientHello and Codec/ServerHello the two hellos, Codec/Records the short messages and
--     `ReadMessage`.
--   Datagram: pkg/protocol/datagram_codec.go.
--   Fragment: pkg/tunnel/dgram_handshake.go, `fragmentHandshake`.
--   Reassembly: pkg/tunnel/reassembly.go, `Reassembler` with `Add` and `Drop`.
--     Reassembly/EndToEnd feeds it the frames of Fragment, as pkg/tunnel/datagram.go does.
--   Replay: pkg/tunnel/replay.go, `DatagramReplayWindow` with `Check` and `Admissible`.
--     Replay/Model is the abstract filter that it implements.
--   Handshake: the interface of the flight builders. Handshake/Machine is
--     pkg/tunnel/dgram_handshake_fsm.go, Handshake/Driver is pkg/tunnel/dgram_handshake_driver.go.
--   Crypto: pkg/crypto. Crypto/Kdf is kdf.go, Crypto/Aead is aead.go and aead_inplace.go;
--     Crypto/Toy is an instance of the primitives for the examples.
--   Chkem: pkg/chkem/chkem.go with the wrappers of pkg/crypto/x25519.go and mlkem.go, for the default
--     suite. It fills the interface `Kem` of Session/Rekeying.
--   Session: pkg/tunnel/session.go, the state and the keys; Session/Records has `Encrypt` and
--     `Decrypt`, Session/Rekeying the rekey of the stream, Session/Tickets the tickets of a session,
--     Session/Epochs dgram_session.go. Session/Interleaving interleaves the calls that seal as steps.
--   DatagramRekey: pkg/tunnel/dgram_rekey.go, the control messages, both ends' handling of them, and
--     the responder's cached answer.
--   Ticket: pkg/tunnel/ticket.go.
--   Limiter: `IPRateLimiter` of pkg/tunnel/limiter.go.
--   Cookie: pkg/tunnel/dgram_cookie.go.
--   PoolConfig: pkg/tunnel/pool_config.go.
--   Pool: pkg/tunnel/pool.go, what runs under the pool's mutex. Pool/Steps interleaves callers,
--     waiters, `Close` and the health check; a dial is in flight between two steps.
--
-- A byte and a machine word are natural numbers; where Go's arithmetic can wrap, the wrap-around is
-- written out, and the theorems that need a field to fit its Go type say so. A function that returns
-- an error or can panic gives a `Result`, in which a panic is a value of its own; slices have no
-- spare capacity, as those that `make` gives. Methods under a mutex are single steps. The clock's
-- reading is an argument.
--
-- Fuel: two loops need it. That of `fragmentHandshake` gets one more than the message's length, each
-- round takes at least one byte, and running out of it is a panic in the model. That of
-- `tryGetIdleLocked` gets the number of idle connections, of which each round takes one. All other
-- loops are structural recursion.
--
-- Parameters: the builders of pkg/tunnel/handshake.go (`Builders` in Handshake), each of which may
-- change the handshake's own state also when it fails; the keyed hash of the cookies; SHAKE-256,
-- SHA3-256 and the two ciphers (`Primitives` in Crypto), the curve and ML-KEM (`Curves` in Chkem),
-- with their documented behaviour as the hypotheses `IsLawful` and `AreLawful`; whether a connection
-- of the pool is healthy. A source address, a source string, a pooled connection and a waiter's
-- channel are only compared, and are numbers where nothing else is done with them.
--
-- Not modelled: the other KEM suites, random numbers and wiping, the builders of handshake.go, the
-- initiator's rekey driver with its timer, the transports and the endpoint of pkg/tunnel, the pool's
-- contexts, timers and statistics, the metrics, the command line program. The token bucket of
-- limiter.go computes with floating-point numbers.
pub mod Base
pub mod Replay
pub mod Datagram
pub mod Fragment
pub mod Reassembly
pub mod Messages
pub mod Codec
pub mod Handshake
pub mod Limiter
pub mod PoolConfig
pub mod Pool
pub mod Cookie
pub mod Crypto
pub mod Ticket
pub mod Chkem
pub mod Session
pub mod DatagramRekey
