-- ===== src/Tests/Server.antt =====
-- The server of lib/fast_server.js on one connection, and its theorems at concrete inputs.
use node_fast.Base.{◌≡◌, refl, inr, false, none, some, List, [], ◌∷◌, ok, throw, arith}
use node_fast.Base.Map.{lookup, insert, erase}
use node_fast.Json.{arr, obj, str, nil, field, end, get}
use node_fast.Protocol.{Message, status_data, version_2, check_data}
use node_fast.Protocol.Decoder.WellFormed.{IsWellFormed}
use node_fast.Subr.IdAllocator
use node_fast.Subr.SocketAddrs.{Socket, summarize_socket_addrs}
use node_fast.Client.Messages.{error_of}
use node_fast.Client.Api.{rpc_message}
use node_fast.Client.Delivery.Reference.{values}
use node_fast.Server.State.{RpcError, Server, new_connection, new_request}
use node_fast.Server.Response.{
  data_message, end_message, error_message, encoder_transform, encoder_flush,
}
use node_fast.Server.Lifecycle.{conn_drain, request_cleanup, request_complete}
use node_fast.Server.Messages.{call_of, start_request, dispatch, on_message}
use node_fast.Server.Api.{
  register_rpc_method, conn_create, on_connection_end, context_write, context_end, Event,
  connection, connection_end, incoming, handler_writes, handler_ends, call_register, handle,
}
use node_fast.Server.Contract.{call_of-rpc_message, response-IsWellFormed, response-read}
use node_fast.Base.{◌+◌, ◌<◌, ◌⊎◌, length, Returns, Outcome}
use node_fast.Server.Api
use node_fast.Server.Invariant.{IsConsistent}
use node_fast.Server.Invariant.Handle.{
  Reaches, created, after, handle-IsConsistent, Reaches-IsConsistent, Reaches-connection,
}
use node_fast.Tests.Fixture.{echo_args, busy}

abbrev pub socket : Socket
socket = record { local = none; remote_address = none; remote_port = none; remote_family = none }

abbrev pub call_message : Message
call_message = record {
  msgid = 7;
  status = status_data;
  payload = obj (field "m" (obj (field "name" (str "echo") end)) (field "d" (arr nil) end));
  version = version_2;
}

abbrev pub blank : Server
blank = record {
  requests = λ _. new_request 0 call_message;
  nrequests = 0;
  connections = λ _. new_connection 0 (summarize_socket_addrs socket);
  nconnections = 0;
  handlers = λ _. none;
  conns = [];
  callbacks = [];
  immediates = [];
  connallocator = record { min = 1; max = 4; next_id = 1 };
  is_closed = false;
  nignored_noconn = 0;
  nignored_badconn = 0;
  nignored_aborts = 0;
  nconnections_created = 0;
  nrequests_started = 0;
  nrequests_completed = 0;
  nrequests_failed = 0;
  invoked = [];
}

abbrev run : List Event → Server → Server
run [] s = s
run (e ∷ es) s = elim (handle e s) [ ok t ↦ run es t | throw x ↦ blank ]

abbrev serving : Server
serving = run (call_register "echo" ∷ connection socket ∷ incoming 0 1 call_message ∷ []) blank

-- The request runs, and its connection waits for it after the end of the client's stream.
serving-run :
    (serving.invoked ≡ 0 ∷ []) × ((run (connection_end 1 0 ∷ []) serving).conns ≡ (1, 0) ∷ [])
unfolding handle register_rpc_method conn_create IdAllocator.alloc IdAllocator.alloc_loop lookup
    insert erase on_message dispatch start_request on_connection_end conn_drain
    summarize_socket_addrs
serving-run = (refl, refl)

-- It answers and ends; then the connection goes.
serving-answers :
    ((run (connection_end 1 0 ∷ handler_writes 0 0 (arr nil) ∷ handler_ends 0 0 ∷ []) serving).conns
      ≡ [])
    × (((run (handler_writes 0 0 (arr nil) ∷ handler_ends 0 0 ∷ []) serving).connections 0).outgoing
        ≡ data_message 0 (serving.requests 0) (arr nil) ∷ end_message 0 (serving.requests 0) ∷ [])
unfolding handle register_rpc_method conn_create IdAllocator.alloc IdAllocator.alloc_loop lookup
    insert erase on_message dispatch start_request on_connection_end conn_drain
    summarize_socket_addrs context_write context_end encoder_transform encoder_flush
    request_complete request_cleanup
serving-answers = (refl, refl)

abbrev pub failure : RpcError
failure = record {
  name = "Error";
  message = "no";
  context = obj end;
  info = obj end;
  ase_errors = none;
}

call_of-rpc_message_example :
    (check_data (rpc_message busy 7 echo_args).status (rpc_message busy 7 echo_args).payload ≡ none)
    × (call_of (rpc_message busy 7 echo_args).payload
        ≡ some (echo_args.rpcmethod, echo_args.rpcargs))
call_of-rpc_message_example = call_of-rpc_message busy 7 echo_args refl

response-IsWellFormed_example :
    IsWellFormed (data_message 0 (new_request 0 call_message) (arr nil))
    × IsWellFormed (end_message 0 (new_request 0 call_message))
    × IsWellFormed (error_message 0 (new_request 0 call_message) failure)
response-IsWellFormed_example =
    response-IsWellFormed 0 (new_request 0 call_message) (arr nil) failure (omega arith) (inr refl)

response-read_example :
    (values (data_message 0 (new_request 0 call_message) (str "x")) ≡ str "x" ∷ [])
    × (values (end_message 0 (new_request 0 call_message)) ≡ [])
    × (error_of (get "d" (error_message 0 (new_request 0 call_message) failure).payload) ≡ record {
      name = some (str failure.name);
      message = some (str failure.message);
      info = some failure.info;
      stack = none;
      context = some failure.context;
      ase_errors = failure.ase_errors;
    })
response-read_example = response-read 0 (new_request 0 call_message) (str "x") failure

abbrev pub result : Outcome Server → Server
result (ok s) = s
result (throw e) = blank

abbrev new_server : Server
new_server = result (Api.create (blank.connections 0) (blank.requests 0))

abbrev pub with_method : Server
with_method = result (handle (call_register "echo") new_server)

abbrev pub connected : Server
connected = result (handle (connection socket) with_method)

abbrev pub at_work : Server
at_work = result (handle (incoming 0 1 call_message) connected)

call_message-IsWellFormed : IsWellFormed call_message
unfolding check_data
call_message-IsWellFormed = record {
  msgid_ok = omega arith;
  status_ok = refl;
  version_ok = inr refl;
  data_ok = refl;
}

new_server-Reaches : Reaches new_server
unfolding Api.create IdAllocator.create
new_server-Reaches = created (blank.connections 0) (blank.requests 0) new_server refl

with_method-Reaches : Reaches with_method
unfolding Api.create IdAllocator.create handle register_rpc_method
with_method-Reaches =
    after (call_register "echo") new_server with_method new_server-Reaches refl refl

pub connected-Reaches : Reaches connected
unfolding Api.create IdAllocator.create handle register_rpc_method conn_create IdAllocator.alloc
    IdAllocator.alloc_loop lookup insert
connected-Reaches =
    after (connection socket) with_method connected with_method-Reaches (refl, omega arith) refl

pub at_work-Reaches : Reaches at_work
unfolding Api.create IdAllocator.create handle register_rpc_method conn_create IdAllocator.alloc
    IdAllocator.alloc_loop lookup insert on_message dispatch start_request
at_work-Reaches =
    after (incoming 0 1 call_message) connected at_work connected-Reaches
      (omega arith, call_message-IsWellFormed) refl

pub at_work_facts : (0 < at_work.nconnections) × (lookup 1 at_work.conns ≡ some 0)
unfolding Api.create IdAllocator.create handle register_rpc_method conn_create IdAllocator.alloc
    IdAllocator.alloc_loop lookup insert on_message dispatch start_request
at_work_facts = (omega arith, refl)

handle-IsConsistent_example : Returns IsConsistent (handle (connection_end 1 0) at_work)
handle-IsConsistent_example =
    handle-IsConsistent (connection_end 1 0) at_work (Reaches-IsConsistent at_work at_work-Reaches)
      at_work_facts.1

Reaches-connection_example :
    ((at_work.connections 0).nstarted
      ≡ (at_work.connections 0).ncompleted + length (at_work.connections 0).pending)
    × ((lookup (at_work.connections 0).connid at_work.conns ≡ some 0)
        ⊎ ((at_work.connections 0).nstarted ≡ (at_work.connections 0).ncompleted))
Reaches-connection_example = Reaches-connection at_work 0 at_work-Reaches at_work_facts.0
