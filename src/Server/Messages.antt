-- ===== src/Server/Messages.antt =====
-- `onMessage` of lib/fast_server.js: messages from clients become requests.
use Prim.Native.String.{◌++◌ as text_append}
use text.Mathlib.Text.{◌==◌ as str_eq}
use node_fast.Base.{
  ℕ, suc, ◌+◌, String, true, not, ◌||◌, Option, none, some, [], ◌∷◌, ◌++◌, ◌==◌, if◌then◌else◌,
  Outcome, ok, assert, ◌>>◌,
}
use node_fast.Base.Int.{pos}
use node_fast.Base.Map.{lookup, has_own_property, insert}
use node_fast.Json.{Json, Items, num, str, arr, obj, field, end, get, get?, is_object}
use node_fast.Protocol.{Message, status_data, status_end, status_error}
use node_fast.Server.State.{
  running, RpcError, unexpected_end, duplicate_msgid, Handler, Server, update, put_request,
  put_connection, new_request,
}
use node_fast.Server.Lifecycle.{request_fail, conn_terminate}

-- The message as the decoder made it, with its connection.
abbrev message_json : ℕ → Message → Json
message_json connid m = obj (
    field "status" (num (pos m.status)) (
      field "msgid" (num (pos m.msgid)) (
        field "data" m.payload
          (field "version" (num (pos m.version)) (field "connId" (num (pos connid)) end)))))

-- 'RPC request is not well-formed'
abbrev pub bad_data : ℕ → Message → RpcError
bad_data connid m = record {
  name = "FastError";
  message = "RPC request is not well-formed";
  context = obj end;
  info = obj (
      field "fastReason" (str "bad_data")
        (field "rpcMsgid" (num (pos m.msgid)) (field "rpcMessage" (message_json connid m) end)));
  ase_errors = none;
}

-- 'unsupported RPC method: "%s"'
abbrev pub bad_method : String → Message → RpcError
bad_method name m = record {
  name = "FastError";
  message = text_append "unsupported RPC method: \"" (text_append name "\"");
  context = obj end;
  info = obj (
      field "fastReason" (str "bad_method")
        (field "rpcMethod" (str name) (field "rpcMsgid" (num (pos m.msgid)) end)));
  ase_errors = none;
}

-- The name and the arguments of a call, when the payload is well-formed: `m.name` is a text that
-- is not empty and `d` is an array.
abbrev name_of : Option Json → Option String
name_of (some (str name)) = if str_eq name "" then none else some name
name_of _ = none

abbrev args_of : Option Json → Option Items
args_of (some (arr vs)) = some vs
args_of _ = none

abbrev pub call_of : Json → Option (String × Items)
call_of payload = elim (name_of (get? "name" (get "m" payload))) [
  | none ↦ none
  | some name ↦ elim (args_of (get "d" payload)) [ none ↦ none | some args ↦ some (name, args) ]
]

-- A new request is registered with its connection.
abbrev pub register : ℕ → Message → Server → Server
register h m s =
    let c = s.connections h in
    record (put_connection h
      (record c { nstarted = c.nstarted + 1; pending = insert m.msgid s.nrequests c.pending }) s) {
        requests = update s.requests s.nrequests (new_request h m);
        nrequests = suc s.nrequests;
        nrequests_started = s.nrequests_started + 1;
      }

-- Its handler is called.
abbrev pub invoke : ℕ → String → Handler → Server → Server
invoke id name f s =
    record (put_request id
      (record (s.requests id) { handler = some name; state = running; attached = true }) s) {
        handlers = λ k.
            if str_eq k name then some (record f { nstarted = f.nstarted + 1 }) else s.handlers k;
        invoked = s.invoked ++ id ∷ [];
      }

-- The request's name and arguments are filled in, and its method is looked up.
abbrev pub start_call : ℕ → ℕ → Message → String × Items → Server → Outcome Server
start_call uts id m (name, args) s =
    let t = put_request id (record (s.requests id) { rpcmethod = some name; rpcargs = args }) s in
    elim (s.handlers name) [
      | none ↦ request_fail uts id (bad_method name m) t
      | some f ↦ ok (invoke id name f t)
    ]

-- A DATA message whose identifier is not in use.
unfoldable pub start_request : ℕ → ℕ → ℕ → Message → Server → Outcome Server
start_request uts connid h m s = do
  let id = s.nrequests
  let t = register h m s
  assert (is_object m.payload)
  elim (call_of m.payload) [
    | none ↦ request_fail uts id (bad_data connid m) t
    | some call ↦ start_call uts id m call t
  ]

-- What follows the tests of the connection.
unfoldable pub dispatch : ℕ → ℕ → ℕ → Message → Server → Outcome Server
dispatch uts connid h m s =
    if m.status == status_end
    then conn_terminate h unexpected_end s
    else if m.status == status_error
    then ok (record s { nignored_aborts = s.nignored_aborts + 1 })
    else assert (m.status == status_data)
      >> (if has_own_property m.msgid (s.connections h).pending
          then conn_terminate h (duplicate_msgid m.msgid) s
          else start_request uts connid h m s)

-- `onMessage`, for a message that the connection's decoder has tagged with `connid`.
unfoldable pub on_message : ℕ → ℕ → Message → Server → Outcome Server
on_message uts connid m s = do
  assert (not (connid == 0))
  elim (lookup connid s.conns) [
    | none ↦ ok (record s { nignored_noconn = s.nignored_noconn + 1 })
    | some h ↦
        if (s.connections h).is_ended || (s.connections h).socket_error
        then ok (record s { nignored_badconn = s.nignored_badconn + 1 })
        else dispatch uts connid h m s
  ]
