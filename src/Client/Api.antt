-- ===== src/Client/Api.antt =====
-- The calls and events that drive the client of lib/fast_client.js: `rpc`, `detach`, the
-- request's `abandon`, timers, the transport's and the decoder's events, and `setImmediate`.
use node_fast.Base.{
  ℕ, suc, ◌+◌, String, Bool, true, false, not, ◌||◌, Option, none, some, List, [], ◌∷◌, ◌++◌, ltb,
  if◌then◌else◌, is_some, Outcome, ok, assert, ◌>>=◌, ◌>>◌,
}
use node_fast.Base.Int.{pos}
use node_fast.Base.Map.{has_own_property, insert}
use node_fast.Json.{Items, arr, num, str, obj, field, end}
use node_fast.Protocol.{Message, ProtocolError, status_data}
use node_fast.Subr.IdAllocator
use node_fast.Client.Request.{
  Request, Cause, transport_detached, client_detached, transport_error, unexpected_end,
  decoder_error, timed_out, abandoned_by_user, failed, emit,
}
use node_fast.Client.Request
use node_fast.Client.State.{Client, update, put}
use node_fast.Client.Completion.{request_fail, request_abandon, request_abandon_all, fatal_error}
use node_fast.Client.Messages.{on_message}

-- The arguments of `rpc`; `uts` is the time that `microtime` gives.
pub record RpcArgs : Type 0 where
  pub rpcmethod : String
  pub rpcargs : Items
  pub timeout : Option ℕ
  pub ignore_null_values : Bool
  pub uts : ℕ

-- `isReqIdAllocated`
abbrev pub is_req_id_allocated : Client → ℕ → Bool
is_req_id_allocated s id = has_own_property id s.pending || has_own_property id s.abandoned

abbrev pub timeout_ok : Option ℕ → Bool
timeout_ok none = true
timeout_ok (some ms) = ltb 0 ms

abbrev pub rpc_message : Client → ℕ → RpcArgs → Message
rpc_message s msgid args = record {
  msgid = msgid;
  status = status_data;
  payload = obj (
      field "m" (obj (field "uts" (num (pos args.uts)) (field "name" (str args.rpcmethod) end)))
        (field "d" (arr args.rpcargs) end));
  version = s.version;
}

-- No request is sent any more.
abbrev pub is_unusable : Client → Bool
is_unusable s = is_some s.error || (s.detached || s.transport_ended)

-- The new request is registered.
abbrev pub register : ℕ → RpcArgs → Client → Client
register msgid args s = record s {
  heap =
      update s.heap s.nrequests
        (Request.create msgid args.rpcmethod (arr args.rpcargs) args.ignore_null_values);
  nrequests = suc s.nrequests;
  pending = insert msgid s.nrequests s.pending;
  nrpc_started = s.nrpc_started + 1;
}

-- It is sent, and its timer is set.
abbrev pub send : ℕ → ℕ → RpcArgs → Client → Client
send id msgid args s = record (put id (record (s.heap id) { timeout = is_some args.timeout }) s) {
  outgoing = s.outgoing ++ rpc_message s msgid args ∷ [];
}

-- Or it is failed without being sent.
abbrev pub skip : ℕ → Client → Outcome Client
skip id s = request_fail id transport_detached (put id (record (s.heap id) { skip = true }) s)

-- The result is the handle of the request.
unfoldable pub rpc : RpcArgs → Client → Outcome (ℕ × Client)
rpc args s = do
  assert (timeout_ok args.timeout)
  (msgid, alloc) ← IdAllocator.alloc s.rqidalloc (is_req_id_allocated s)
  assert (not (has_own_property msgid s.pending))
  let id = s.nrequests
  let t = register msgid args (record s { rqidalloc = alloc })
  u ← (if is_unusable t then skip id t else ok (send id msgid args t))
  ok (id, u)

unfoldable pub detach : Client → Outcome Client
detach s = elim s.detached [
  | true ↦ ok s
  | false ↦ request_abandon_all client_detached (record s { detached = true })
]

-- `request.abandon()`
unfoldable pub abandon : ℕ → Client → Outcome Client
abandon id s = request_abandon id abandoned_by_user s

-- `onRpcTimeout`; a timer that was cleared does not fire.
unfoldable pub on_timeout : ℕ → Client → Outcome Client
on_timeout id s = if (s.heap id).timeout then request_abandon id timed_out s else ok s

-- `onTransportEnd`: the decoder has seen the end of the stream.
unfoldable pub on_transport_end : Client → Outcome Client
on_transport_end s =
    let t = record s { transport_ended = true } in
    if ltb s.nrpc_done s.nrpc_started then fatal_error unexpected_end t else ok t

-- `onTransportError`; `detach` removes the listener.
unfoldable pub on_transport_error : Client → Outcome Client
on_transport_error s = elim s.detached [ true ↦ ok s | false ↦ fatal_error transport_error s ]

-- `onDecoderError`
unfoldable pub on_decoder_error : ProtocolError → Client → Outcome Client
on_decoder_error e s = fatal_error (decoder_error e) s

-- The oldest function in the queue of `setImmediate` runs: the request emits its error.
abbrev pub run_first : List ℕ → Client → Client
run_first [] s = s
run_first (id ∷ rest) s = record (put id (emit (failed (s.heap id).error) (s.heap id)) s) {
  immediates = rest;
}

unfoldable pub run_immediate : Client → Client
run_immediate s = run_first s.immediates s

-- Everything that can happen to a client.
pub data Event : Type 0 where
  call_rpc : RpcArgs → Event
  call_detach : Event
  call_abandon timer : ℕ → Event
  message : Message → Event
  transport_end transport_failure : Event
  decoder_failure : ProtocolError → Event
  immediate : Event

unfoldable pub handle : Event → Client → Outcome Client
handle (call_rpc args) s = do r ← rpc args s; ok r.1
handle call_detach s = detach s
handle (call_abandon id) s = abandon id s
handle (timer id) s = on_timeout id s
handle (message m) s = on_message m s
handle transport_end s = on_transport_end s
handle transport_failure s = on_transport_error s
handle (decoder_failure e) s = on_decoder_error e s
handle immediate s = ok (run_immediate s)
