-- ===== src/Server/State.antt =====
-- The objects of lib/fast_server.js: the server, its connections and their requests. Connections
-- and requests are shared objects, named by their places in two heaps.
use node_fast.Base.{ℕ, ◌^◌, String, Bool, false, Option, none, List, [], ◌==◌, if◌then◌else◌}
use node_fast.Base.Map.{Map}
use node_fast.Json.{Json, Items}
use node_fast.Protocol.{Message}
use node_fast.Subr.IdAllocator.{IdAllocator}
use node_fast.Subr.SocketAddrs.{Summary}

-- `FS_MAX_CONNID`
abbrev pub max_connid : ℕ
max_connid = 2 ^ 30

-- The states of the request's life.
pub data RequestState : Type 0 where
  init queued running complete : RequestState

-- What is sent of an Error: `context` is the object that it carries or the empty one, `info` is
-- `VError.info`.
pub record RpcError : Type 0 where
  pub name : String
  pub message : String
  pub context : Json
  pub info : Json
  pub ase_errors : Option Json

-- Why the server terminates a connection.
pub data ConnFault : Type 0 where
  unexpected_end shutting_down : ConnFault
  duplicate_msgid : ℕ → ConnFault

-- The `fsr_` fields. `attached` tells whether what the request's encoder emits reaches the
-- connection, and `blackhole` whether the context is piped to a `NullSink`.
pub record Request : Type 0 where
  pub msgid : ℕ
  pub conn : ℕ
  pub version : ℕ
  pub rpcmethod : Option String
  pub rpcargs : Items
  pub handler : Option String
  pub state : RequestState
  pub error : Option RpcError
  pub attached : Bool
  pub blackhole : Bool
  pub ndropped : ℕ
  pub nwritten : ℕ

-- The `fc_` fields of a connection. `outgoing` is what was written to its message encoder, oldest
-- first, and `ndestroyed` counts the calls of `destroy` on its socket.
pub record Connection : Type 0 where
  pub connid : ℕ
  pub addrinfo : Summary
  pub pending : Map ℕ
  pub nstarted : ℕ
  pub ncompleted : ℕ
  pub nfailed : ℕ
  pub is_ended : Bool
  pub socket_error : Bool
  pub server_error : Option ConnFault
  pub draining : Bool
  pub outgoing : List Message
  pub ndestroyed : ℕ
  pub unpiped : Bool

-- The counters of a registered method.
pub record Handler : Type 0 where
  pub nstarted : ℕ
  pub ncompleted : ℕ
  pub nerrors : ℕ

-- The `fs_` fields. `callbacks` wait for the last connection to go, `immediates` in the queue of
-- `setImmediate`; `invoked` are the requests whose handler was called. All are oldest first.
pub record Server : Type 0 where
  pub requests : ℕ → Request
  pub nrequests : ℕ
  pub connections : ℕ → Connection
  pub nconnections : ℕ
  pub handlers : String → Option Handler
  pub conns : Map ℕ
  pub callbacks : List ℕ
  pub immediates : List ℕ
  pub connallocator : IdAllocator
  pub is_closed : Bool
  pub nignored_noconn : ℕ
  pub nignored_badconn : ℕ
  pub nignored_aborts : ℕ
  pub nconnections_created : ℕ
  pub nrequests_started : ℕ
  pub nrequests_completed : ℕ
  pub nrequests_failed : ℕ
  pub invoked : List ℕ

abbrev pub update {ℓ} : {A : Type ℓ} → (ℕ → A) → ℕ → A → ℕ → A
update heap k a j = if j == k then a else heap j

abbrev pub put_request : ℕ → Request → Server → Server
put_request id r s = record s { requests = update s.requests id r }

abbrev pub put_connection : ℕ → Connection → Server → Server
put_connection h c s = record s { connections = update s.connections h c }

-- `new FastRpcConnection(args)`
abbrev pub new_connection : ℕ → Summary → Connection
new_connection connid addrinfo = record {
  connid = connid;
  addrinfo = addrinfo;
  pending = [];
  nstarted = 0;
  ncompleted = 0;
  nfailed = 0;
  is_ended = false;
  socket_error = false;
  server_error = none;
  draining = false;
  outgoing = [];
  ndestroyed = 0;
  unpiped = false;
}

-- `new FastRpcServerRequest(args)`
abbrev pub new_request : ℕ → Message → Request
new_request conn m = record {
  msgid = m.msgid;
  conn = conn;
  version = m.version;
  rpcmethod = none;
  rpcargs = Items.nil;
  handler = none;
  state = init;
  error = none;
  attached = false;
  blackhole = false;
  ndropped = 0;
  nwritten = 0;
}
