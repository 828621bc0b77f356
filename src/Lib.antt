-- ===== src/Lib.antt =====
-- A model of the parts of this repository that hold its own protocol logic, with proofs.
--
-- The program is a web client for remote desktop sessions. `shared/src` has the wire formats and
-- the models that the browser (`frontend/src`), the Node backend (`backend/src`) and the Cloudflare
-- worker (`cloudflare/src`) have in common. The browser talks to the remote machine over data
-- channels, in protobuf messages that it writes and reads itself; the backend keeps one control
-- service per remote session and relays the signalling.
--
-- - Wire: shared/src/streamer/internal/protobufWire.ts. `pushVarint`, `pushFieldKey` and the push
--   functions append to a list of bytes and may throw; `readProtobufFields` is `read_fields`, its
--   loop `read_loop`, the body of a round `read_field`. Wire/Varint is about one varint,
--   Wire/Entries about messages as lists of entries, Wire/Reader about reading a written message,
--   Wire/Bounds and Wire/Inside about arbitrary bytes. The other codecs call this one.
-- - Clipboard: shared/src/streamer/clipboardProtocol.ts, clipboardV3.ts, clipboardV4.ts,
--   internal/clipboardSchema.ts and internal/clipboardWire.ts. Clipboard/Schema has the constants,
--   Fields the field reads and the envelope, Decode and Encode the messages of both versions.
-- - Sessions: backend/src/services/remoteControlSessionRegistry.ts. A registry is a record that the
--   operations return anew; `getOrCreate` is `get_or_create`, and so on.
-- - Control: shared/src/streamer/controlChannelEncode.ts, controlChannelDecode.ts,
--   controlChannelProtocol.ts and internal/controlChannelSchema.ts. Schema has the constants, Encode
--   the encoder, Model what the decoder returns, Decode its functions, where a loop over fields is a
--   fold of a step; Fold relates such a fold to a written message. `JSON.parse`, the regular
--   expression engine, the lossy `TextDecoder` and the reader of doubles are the parameter `Platform`.
-- - Touch: shared/src/streamer/internal/inputLegacy.ts, the touch tracker. A message is its slots and
--   coordinates, not the string that is sent; the ratios of a point are floating, the parameter `Ratios`.
-- - EventLog: backend/src/services/remoteControlService.ts, the log of signalling events
--   (`recordSignalEvent`, `pruneSignalEvents`, `getSignalGatewayEvents`).
-- - Servers: shared/src/signalGateway/status.ts, `orderSignalGatewayServers`.
-- - Json: the values that the code takes as `unknown`, and shared/src/streamer/internal/unknown.ts.
-- - Ack: shared/src/streamer/signalControl.ts and internal/signalControlErrors.ts: what a control
--   request is acknowledged with. Ack/Refused says of the JSON itself when it is a failure.
-- - Readiness: shared/src/streamer/readiness.ts. `analyze_readiness` is `analyzeRemoteSignalReadiness`,
--   `analyze_event` the body of its loop; Readiness/Payload is what it looks for in a payload. How texts
--   are trimmed, measured and cut is the parameter `TextOps`. Readiness/Carried says what it is for a
--   payload to carry a type, Readiness/Counted for which events a counter stands.
-- - Requests: shared/src/signalGateway/requests.ts. `parse_soac_request` is `parseSignalSoacRequest`, and so
--   on; Requests/Readers is about the tests of one field.
-- - Gateway: backend/src/services/remoteControlService.ts, the connection (`startSignalGateway`,
--   `stopSignalGateway`, `sendSignalControl`, `sendSignalSoac`, the callbacks). An operation is cut at
--   each `await`; Gateway/World lets the pieces run in any order. A connector is taken to report a
--   connection as closed or failed, under the current generation, only when the connection that is
--   held is gone, as backend/src/services/socketIoSignalGatewayConnector.ts does. Effects is about one piece, Tasks
--   about the lists of a world, Closing about a service that was stopped.
-- - Payloads: shared/src/signalGateway/payload.ts, shared/src/streamer/signalSoac.ts and
--   backend/src/services/nodeSignalGatewayBinaryCodec.ts. `soac_payload` is `buildSignalGatewaySoacPayload`,
--   `normalize` is `normalizeSignalGatewayPayload`.
-- - Packets and PacketText: cloudflare/src/signal/socketIoWire.ts. `deconstructBinary` is
--   `deconstruct_binary`; a text of a packet is a list of code units, and what `JSON.parse`,
--   `JSON.stringify` and the rounding to doubles do, and the text of an integer above the safe ones,
--   is the parameter `JsonText`.
-- - Prelude: numbers, lists, options, exceptions as values (`Outcome`), JavaScript's `Map`
--   (Prelude/OrderedMap), its integers (Prelude/Int) and texts (Prelude/Text).
--
-- In Gateway, Requests and Readiness, Model has the data.
--
-- Conventions. Bytes are numbers, and a `Uint8Array` is a list of them; the code never changes an
-- array that it shares, so `subarray` is a copy. A text is the list of its UTF-16 code
-- units, or a native `String` where it is only compared.
-- `TextEncoder` and the fatal `TextDecoder` are the parameter `TextCodec`, with the documented
-- facts that the code relies on: a text without lone surrogates that does not begin with the byte
-- order mark U+FEFF is read back as it was (the decoder drops one mark from the front), and the
-- empty text is no bytes. A number that the source tests with `Number.isSafeInteger` is of type
-- `Numeric`, which has the integers of either type and what is no integer. Bit operations are
-- written with `*`, `/`, `%` and `+`, and `(fieldNumber << 3) | wireType` wraps at 32 bits.
-- A session's identifier is a value of any type with decidable equality, the clock is an argument,
-- and a control service is the number of its creation.
--
-- Loops. `varint_loop` takes the value as fuel, which falls in each round; `read_loop` takes the
-- number of bytes, and Wire/Inside shows that any more is the same. `decimal_loop` takes one more than
-- the number that it writes. The other loops are structural.
--
-- Not modelled: the React interface, the browser session and its WebRTC objects, the routes and the
-- sockets, which call platform objects that are not in the repository; the normalisation of
-- inbound signalling events, and the worker. The clipboard's `toUint8Array` is
-- the identity on lists.
pub mod Ack
pub mod Clipboard
pub mod Control
pub mod EventLog
pub mod Gateway
pub mod Json
pub mod PacketText
pub mod Packets
pub mod Payloads
pub mod Prelude
pub mod Readiness
pub mod Requests
pub mod Servers
pub mod Sessions
pub mod Touch
pub mod Wire
