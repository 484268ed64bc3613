-- ===== src/Lib.antt =====
-- node-fast: a JSON-over-TCP RPC protocol, with a client and a server for Node.
--
-- The program's parts. lib/fast_protocol.js encodes messages into bytes and decodes a stream of
-- bytes into messages. lib/fast_client.js issues requests over a transport: it writes a message
-- per request to an encoder, takes the messages that a decoder emits, and drives one object
-- stream per request (lib/fast_client_request.js). lib/fast_server.js accepts connections, and
-- lib/subr.js allocates the identifiers of messages and connections. lib/demo_server.js has methods
-- for a server, and lib/bench.js calls one of them again and again.
--
-- Which file models which part.
--   Base           Outcomes of calls (a value or an exception), tests, lists of bytes, and
--                  Base/Map: a JavaScript object with numeric property names, kept in the order
--                  in which `for ... in` visits them.
--   Json           JSON values, property reads and type tests.
--   Subr           lib/subr.js: `IdAllocator` (IdAllocator/Defs: the state is `min`, `max` and
--                  `next_id`, the callback `isAllocated` is an argument of `alloc`) and
--                  `summarizeSocketAddrs` (SocketAddrs).
--   Protocol       lib/fast_protocol.js. Wire: constants and Buffer accesses. Encode:
--                  `fastMessageEncode` and `FastMessageEncoder`. Decode: `validateCrc` and
--                  `fastMessageDecode`. Decoder: `FastMessageDecoder`, with `transform` for
--                  `_transform`, `flush` for `_flush` and `decode` with its loop; the modules
--                  below it relate it to `Parses`, a description of the byte stream without
--                  buffers or chunks.
--   Client         lib/fast_client.js and lib/fast_client_request.js. Request: the request object
--                  and the events of its stream. State: the `fc_` fields. Completion:
--                  `requestComplete`, `requestFail`, `requestAbandon`, `requestAbandonAll`,
--                  `fatalError`. Messages: `onMessage`, `requestEmitData`. Api: `rpc`, `detach`,
--                  `abandon`, the timer, and the handlers that `attach` installs; `handle` is one
--                  step, whatever the event. Invariant: what every step preserves. Delivery: what
--                  a message does to its request. Streams: what a caller can rely on. Identifiers:
--                  which message identifiers a step gives up. Buffer: the listeners of
--                  `rpcBufferAndCallback`, on a request's stream. Sending: what the client sends is
--                  well formed. Kang: the queries over kang.
--   Server         lib/fast_server.js. State: the `fs_` fields, connections and requests. Response:
--                  `requestMakeMessage` and the response encoder. Lifecycle: `connDrain`,
--                  `connTerminate`, `connDisconnectRequests`, `requestFail`, `requestComplete`,
--                  `requestDisconnect`, `requestCleanup`. Messages: `onMessage`. Api: the calls
--                  and events; `handle` is one step. Contract: what client and server rely on in
--                  each other's messages. Invariant:
--                  what every step preserves. Replies: what a handler does with its context, and
--                  what is sent for it. Effects: what a step does to one connection. Proper:
--                  what the server sends is well formed. Kang: the queries over kang.
--   Demo           lib/demo_server.js: the seven handlers and their table (Handlers), that each
--                  keeps to its part (Replying), and how much it does (Limits). Errors: how an
--                  Error or a VError looks when it is sent.
--   System         Client and server together. Hearing: the messages of a reply at the client.
--                  Call: one call from `rpc` to the end of its reply. Methods: calls of the demo
--                  server's methods. Network: a client and one connection with the messages under
--                  way in both directions, under any interleaving of steps. Wire: their messages
--                  through the encoder and the decoder.
--   Bench          lib/bench.js: the workloads' calls and the listeners on their streams.
--   Tests          Concrete runs and inputs.
--
-- How code and model correspond. A call is a function from the state to an `Outcome`; a failed
-- `mod_assertplus` check and a `throw` are the outcome `throw`. Requests are shared objects: the
-- tables, the timers and the caller name a request by its place in the client's heap. What the
-- source defers with `setImmediate` waits in a queue, and the event `immediate` runs the oldest
-- entry. The interleaving of calls, messages, timers and transport events is any sequence of
-- events (`Reaches`). A handler of an RPC method is a function from the call's arguments to the
-- list of what it does with its context (`Action`); what follows a `setTimeout` or `setImmediate`
-- of the handler comes later in the list, and `perform` lets the actions reach the server. In a network (`Runs`) the channels keep the order of the
-- messages and lose none that is read later; the bytes in between are the matter of Protocol.
--
-- Bounds and fuel. The loop of `IdAllocator.alloc` has as much fuel as the range has
-- identifiers, and it is shown to end with a result or with its own exception before the fuel
-- does. The decoder's loop has one round more than the buffer has bytes: each round but the last
-- takes a header of 15 bytes. Message identifiers are at most 2 ^ 31 - 1, checksums have 16 bits,
-- and the fields of the header are written as the Buffer methods write them, with their range
-- errors.
--
-- What is a parameter. JSON texts, UTF-8 and the two CRC packages are a `Codec`: the sources call
-- them and do not contain them. A round trip assumes of each value that is sent that its text
-- survives (`Transmits`). Numbers in JSON values are whole. The package `verror` and the engine's
-- Error are `Errors`; a theorem on an error's contents assumes what the documentation of `verror`
-- says (`IsDocumented`). The time, the word file, the pace of an encoder and
-- `deepEqual` are arguments.
--
-- What is not modelled. Logging, DTrace probes and metrics, which only report, and the times in
-- the answers to kang. A consumer that calls the client back while the data of one message are
-- being pushed, and a listener of the client's `error` event that does so: events are recorded
-- instead, and the next call comes after the handler has returned. The `error` event is taken to
-- have a listener. Flow control between streams, but for the objects that a handler writes: they
-- wait in the context and in the request's encoder until the encoder takes them, at any pace
-- (`arrivals`), and those that wait when the handler fails are dropped. A payload without `d`, at
-- which the client would throw a TypeError: the decoder passes none on. Methods named
-- `hasOwnProperty` or `__proto__`, which break the server's table of handlers. The command-line
-- programs under bin, and lib/fast.js, which only passes names on.
pub mod Base
pub mod Subr
pub mod Json
pub mod Protocol
pub mod Client
pub mod Server
pub mod Demo
pub mod System
pub mod Bench
pub mod Tests
