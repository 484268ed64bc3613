-- ===== src/Tests/Fixture.antt =====
-- The client of lib/fast_client.js with three requests: one pending, one with its timer set, and
-- one that the caller has abandoned. The runs to it compute.
use node_fast.Base.{
  ℕ, ◌+◌, ◌<◌, ◌≡◌, refl, inr, false, Option, none, some, [], ◌==◌, length, arith, Outcome, ok,
  throw,
}
use node_fast.Base.Map.{lookup, insert, erase}
use node_fast.Json.{obj, str, nil, field, end, null}
use node_fast.Protocol.{Message, status_error, version_2, check_data, msgid_max}
use node_fast.Protocol.Decoder.WellFormed.{IsWellFormed}
use node_fast.Subr.IdAllocator
use node_fast.Client.Request.{
  Request, Cause, transport_error, unexpected_end, is_pending, Stream, open_, closed, stream_state,
}
use node_fast.Client.Request
use node_fast.Client.State.{Client, put}
use node_fast.Client.State
use node_fast.Client.Completion.{request_complete, request_fail, request_abandon}
use node_fast.Client.Api.{RpcArgs, rpc, abandon, Event, call_rpc, call_abandon, handle}
use node_fast.Client.Invariant.{IsValid}
use node_fast.Client.Invariant.Handle.{Reaches, created, after, Reaches-IsValid}
use node_fast.Client.Delivery.Reference.{values, tolerates, nulls}
use node_fast.Tests.Wire.{data_message}

abbrev blank : Client
blank = record {
  heap = λ _. Request.create 0 "" null false;
  nrequests = 0;
  version = 0;
  nrecent = 0;
  pending = [];
  abandoned = [];
  nrpc_started = 0;
  nrpc_done = 0;
  recentrpc = [];
  error = none;
  nerrors = 0;
  rqidalloc = record { min = 0; max = 0; next_id = 0 };
  detached = false;
  transport_ended = false;
  outgoing = [];
  immediates = [];
  emitted = [];
}

abbrev pub result : Outcome Client → Client
result (ok s) = s
result (throw e) = blank

abbrev pub echo_args : RpcArgs
echo_args = record {
  rpcmethod = "echo";
  rpcargs = nil;
  timeout = none;
  ignore_null_values = false;
  uts = 0;
}

abbrev call : Option ℕ → Event
call timeout = call_rpc (record echo_args { timeout = timeout })

abbrev pub new_client : Client
new_client = result (State.create none 10)

abbrev pub one_request : Client
one_request = result (handle (call none) new_client)

abbrev two_requests : Client
two_requests = result (handle (call (some 1000)) one_request)

abbrev three_requests : Client
three_requests = result (handle (call none) two_requests)

abbrev pub busy : Client
busy = result (handle (call_abandon 2) three_requests)

pub new_client-Reaches : Reaches new_client
unfolding State.create IdAllocator.create
new_client-Reaches = created none 10 new_client refl

pub one_request-Reaches : Reaches one_request
unfolding State.create IdAllocator.create handle rpc IdAllocator.alloc IdAllocator.alloc_loop lookup
    insert
one_request-Reaches =
    after (call none) new_client one_request new_client-Reaches (refl, omega arith) refl

two_requests-Reaches : Reaches two_requests
unfolding State.create IdAllocator.create handle rpc IdAllocator.alloc IdAllocator.alloc_loop lookup
    insert
two_requests-Reaches =
    after (call (some 1000)) one_request two_requests one_request-Reaches (refl, omega arith) refl

three_requests-Reaches : Reaches three_requests
unfolding State.create IdAllocator.create handle rpc IdAllocator.alloc IdAllocator.alloc_loop lookup
    insert
three_requests-Reaches =
    after (call none) two_requests three_requests two_requests-Reaches (refl, omega arith) refl

pub busy-Reaches : Reaches busy
unfolding State.create IdAllocator.create handle rpc IdAllocator.alloc IdAllocator.alloc_loop lookup
    insert erase abandon request_abandon request_fail request_complete
busy-Reaches = after (call_abandon 2) three_requests busy three_requests-Reaches (omega arith) refl

pub busy-IsValid : IsValid busy
busy-IsValid = Reaches-IsValid busy busy-Reaches

pub busy_tables :
    (lookup 1 busy.pending ≡ some 0)
    × (lookup 3 busy.abandoned ≡ some 2)
    × (busy.detached ≡ false)
    × (busy.error ≡ none)
    × (busy.nrequests ≡ 3)
unfolding State.create IdAllocator.create handle rpc IdAllocator.alloc IdAllocator.alloc_loop lookup
    insert erase abandon request_abandon request_fail request_complete
busy_tables = (refl, refl, refl, refl, refl)

pub busy_made : 2 < busy.nrequests
unfolding State.create IdAllocator.create handle rpc IdAllocator.alloc IdAllocator.alloc_loop lookup
    insert erase abandon request_abandon request_fail request_complete
busy_made = omega arith

pub busy_room : length busy.pending + length busy.abandoned < msgid_max
unfolding State.create IdAllocator.create handle rpc IdAllocator.alloc IdAllocator.alloc_loop lookup
    insert erase abandon request_abandon request_fail request_complete
busy_room = omega arith

pub busy_tolerates : (m : Message) → tolerates (busy.heap 0) (values m) ≡ (nulls (values m) == 0)
unfolding State.create IdAllocator.create handle rpc IdAllocator.alloc IdAllocator.alloc_loop lookup
    insert erase abandon request_abandon request_fail request_complete
busy_tolerates m = refl

pub data_message-IsWellFormed : IsWellFormed data_message
unfolding check_data
data_message-IsWellFormed = record {
  msgid_ok = omega arith;
  status_ok = refl;
  version_ok = inr refl;
  data_ok = refl;
}

abbrev pub error_message : Message
error_message = record {
  msgid = 1;
  status = status_error;
  payload =
      obj (field "d" (obj (field "name" (str "Error") (field "message" (str "failed") end))) end);
  version = version_2;
}

abbrev pub late_message : Message
late_message = record data_message { msgid = 3 }
