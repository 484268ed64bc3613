-- ===== src/Server/Response.antt =====
-- What a request of lib/fast_server.js sends: `requestMakeMessage` and `FastRpcResponseEncoder`.
use node_fast.Base.{
  ℕ, ◌+◌, String, Bool, true, false, Option, none, some, [], ◌∷◌, ◌++◌, if◌then◌else◌, Outcome, ok,
  assert, ◌>>◌,
}
use node_fast.Base.Int.{pos}
use node_fast.Json.{Json, Fields, null, num, str, arr, obj, nil, cons, field, end, is_object}
use node_fast.Protocol.{Message, status_data, status_end, status_error}
use node_fast.Server.State.{
  Request, RequestState, running, complete, RpcError, Server, put_request, put_connection,
}

-- A property that is undefined is left out of the text.
abbrev pub optional_field : String → Option Json → Fields → Fields
optional_field k none fs = fs
optional_field k (some v) fs = field k v fs

abbrev pub error_datum : RpcError → Json
error_datum e = obj (
    field "name" (str e.name) (
      field "message" (str e.message) (
        field "context" e.context
          (field "info" e.info (optional_field "ase_errors" e.ase_errors end)))))

abbrev method_name : Option String → Json
method_name none = null
method_name (some name) = str name

-- `requestMakeMessage`, for each of the three calls that the source makes; `uts` is the time.
abbrev pub response : ℕ → Request → ℕ → Json → Message
response uts r status datum = record {
  msgid = r.msgid;
  status = status;
  payload = obj (
      field "m" (obj (field "uts" (num (pos uts)) (field "name" (method_name r.rpcmethod) end)))
        (field "d" datum end));
  version = r.version;
}

abbrev pub data_message : ℕ → Request → Json → Message
data_message uts r value = response uts r status_data (arr (cons value nil))

abbrev pub end_message : ℕ → Request → Message
end_message uts r = response uts r status_end (arr nil)

abbrev pub error_message : ℕ → Request → RpcError → Message
error_message uts r e = response uts r status_error (error_datum e)

abbrev pub is_running : RequestState → Bool
is_running running = true
is_running _ = false

abbrev pub is_complete : RequestState → Bool
is_complete complete = true
is_complete _ = false

-- A message is written to the connection's encoder.
abbrev pub write : ℕ → Message → Server → Server
write h m s =
    let c = s.connections h in put_connection h (record c { outgoing = c.outgoing ++ m ∷ [] }) s

-- What the encoder emits goes to the connection while it is piped to it.
abbrev pub emit : Request → Message → Server → Server
emit r m s = if r.attached then write r.conn m s else s

-- `_transform` of the response encoder, for an object that the handler has written.
unfoldable pub encoder_transform : ℕ → ℕ → Json → Server → Outcome Server
encoder_transform uts id value s =
    let r = s.requests id in
    elim (is_running r.state) [
      | false ↦ ok (put_request id (record r { ndropped = r.ndropped + 1 }) s)
      | true ↦ do assert (is_object value); ok (emit r (data_message uts r value) s)
    ]

-- `_flush`, when the handler has ended the context.
unfoldable pub encoder_flush : ℕ → ℕ → Server → Server
encoder_flush uts id s =
    let r = s.requests id in if is_running r.state then emit r (end_message uts r) s else s
