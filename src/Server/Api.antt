-- ===== src/Server/Api.antt =====
-- The calls and events that drive the server of lib/fast_server.js.
use text.Mathlib.Text.{◌==◌ as str_eq}
use node_fast.Base.{
  ℕ, suc, ◌+◌, String, true, false, not, none, some, List, [], ◌∷◌, ◌++◌, ◌==◌, if◌then◌else◌,
  is_none, Outcome, ok, throw, assertion, assert, ◌>>=◌, ◌>>◌,
}
use node_fast.Base.Map.{lookup, has_own_property, insert, keys}
use node_fast.Json.{Json}
use node_fast.Protocol.{Message}
use node_fast.Subr.IdAllocator
use node_fast.Subr.SocketAddrs.{Socket, summarize_socket_addrs}
use node_fast.Server.State.{
  Request, RpcError, ConnFault, shutting_down, Connection, Server, max_connid, update,
  put_connection, new_connection,
}
use node_fast.Server.Response.{encoder_transform, encoder_flush}
use node_fast.Server.Lifecycle.{
  holds, is_empty, disconnect_requests, conn_drain, conn_terminate, request_fail, request_complete,
}
use node_fast.Server.Messages.{on_message}

-- `new FastServer(args)`. The objects in the heaps before any is made do not matter.
unfoldable pub create : Connection → Request → Outcome Server
unfolding IdAllocator.create
create no_connection no_request = do
  alloc ← IdAllocator.create 1 max_connid
  ok (record {
    requests = λ _. no_request;
    nrequests = 0;
    connections = λ _. no_connection;
    nconnections = 0;
    handlers = λ _. none;
    conns = [];
    callbacks = [];
    immediates = [];
    connallocator = alloc;
    is_closed = false;
    nignored_noconn = 0;
    nignored_badconn = 0;
    nignored_aborts = 0;
    nconnections_created = 0;
    nrequests_started = 0;
    nrequests_completed = 0;
    nrequests_failed = 0;
    invoked = [];
  })

-- `registerRpcMethod`
unfoldable pub register_rpc_method : String → Server → Outcome Server
register_rpc_method name s = do
  assert (is_none (s.handlers name))
  ok (record s {
    handlers = λ k.
        if str_eq k name
        then some (record { nstarted = 0; ncompleted = 0; nerrors = 0 })
        else s.handlers k;
  })

-- The connection is registered.
abbrev pub accept : ℕ → Socket → Server → Server
accept connid sock s = record s {
  connections =
      update s.connections s.nconnections (new_connection connid (summarize_socket_addrs sock));
  nconnections = suc s.nconnections;
  nconnections_created = s.nconnections_created + 1;
  conns = insert connid s.nconnections s.conns;
}

-- What may be passed to `connTerminate`.
pub data Argument : Type 0 where
  a_connection : ℕ → Argument
  an_error : ConnFault → Argument
  undefined : Argument

-- `connTerminate(conn, err)` with its checks of the arguments.
abbrev pub call_terminate : Argument → Argument → Server → Outcome Server
call_terminate (a_connection h) (an_error fault) s = conn_terminate h fault s
call_terminate _ _ s = throw assertion

-- `connCreate`. After a shutdown the source calls `connTerminate` with the error alone.
unfoldable pub conn_create : Socket → Server → Outcome Server
conn_create sock s = do
  (connid, alloc) ← IdAllocator.alloc s.connallocator (λ id. has_own_property id s.conns)
  assert (not (connid == 0))
  assert (not (has_own_property connid s.conns))
  if s.is_closed
      then call_terminate (an_error shutting_down) undefined
          (accept connid sock (record s { connallocator = alloc }))
      else ok (accept connid sock (record s { connallocator = alloc }))

-- `onConnectionEnd`
unfoldable pub on_connection_end : ℕ → ℕ → Server → Outcome Server
on_connection_end connid h s = do
  assert (holds connid h s.conns)
  let c = s.connections h
  if c.socket_error then ok s else conn_drain h (put_connection h (record c { is_ended = true }) s)

-- `onConnectionError`
unfoldable pub on_connection_error : ℕ → ℕ → Server → Outcome Server
on_connection_error connid h s = do
  assert (holds connid h s.conns)
  let c = s.connections h
  assert (not c.socket_error)
  let t = put_connection h (record c { socket_error = true }) s
  if is_none c.server_error then (do u ← disconnect_requests h t; conn_drain h u) else ok t

-- `onConnsDestroyed`
unfoldable pub on_conns_destroyed : ℕ → Server → Server
on_conns_destroyed callback s =
    if is_empty s.conns
    then record s { immediates = s.immediates ++ callback ∷ [] }
    else record s { callbacks = s.callbacks ++ callback ∷ [] }

-- The loop of `close`: a connection that has gone by then is not visited.
unfoldable pub terminate_each : List ℕ → Server → Outcome Server
terminate_each [] s = ok s
terminate_each (connid ∷ rest) s = do
  t ← elim (lookup connid s.conns) [ none ↦ ok s | some h ↦ conn_terminate h shutting_down s ]
  terminate_each rest t

-- `close`
unfoldable pub close : Server → Outcome Server
close s = elim s.is_closed [
  | true ↦ ok s
  | false ↦ terminate_each (keys s.conns) (record s { is_closed = true })
]

-- `NullSink`'s `_write`
abbrev pub sink : ℕ → Server → Server
sink id s = record s {
  requests =
      update s.requests id (record (s.requests id) { nwritten = (s.requests id).nwritten + 1 });
}

-- An object that a handler has written to its context reaches the encoder, or the sink.
unfoldable pub context_write : ℕ → ℕ → Json → Server → Outcome Server
context_write uts id value s =
    if (s.requests id).blackhole then ok (sink id s) else encoder_transform uts id value s

-- The handler has ended its context, and the pipeline behind it has drained.
unfoldable pub context_end : ℕ → ℕ → Server → Outcome Server
context_end uts id s =
    request_complete id (if (s.requests id).blackhole then s else encoder_flush uts id s)

-- Everything that can happen to a server. `uts` is the time that `microtime` gives.
pub data Event : Type 0 where
  connection : Socket → Event
  connection_end connection_error : ℕ → ℕ → Event
  incoming : ℕ → ℕ → Message → Event
  handler_writes : ℕ → ℕ → Json → Event
  handler_ends : ℕ → ℕ → Event
  handler_fails : ℕ → ℕ → RpcError → Event
  call_register : String → Event
  call_conns_destroyed : ℕ → Event
  call_close : Event

unfoldable pub handle : Event → Server → Outcome Server
handle (connection sock) s = conn_create sock s
handle (connection_end connid h) s = on_connection_end connid h s
handle (connection_error connid h) s = on_connection_error connid h s
handle (incoming uts connid m) s = on_message uts connid m s
handle (handler_writes uts id value) s = context_write uts id value s
handle (handler_ends uts id) s = context_end uts id s
handle (handler_fails uts id e) s = request_fail uts id e s
handle (call_register name) s = register_rpc_method name s
handle (call_conns_destroyed callback) s = ok (on_conns_destroyed callback s)
handle call_close s = close s
