-- ===== src/Client/Messages.antt =====
-- What the client of lib/fast_client.js does with a message from the server: `onMessage` and
-- `requestEmitData`. A consumer that reacts to a datum at once is not modelled: the data of one
-- message are pushed without a call in between.
use node_fast.Base.{
  ℕ, ◌+◌, Bool, true, false, not, Option, none, some, List, [], ◌∷◌, ◌==◌, if◌then◌else◌, is_none,
  Outcome, ok, assert, ◌>>=◌, ◌>>◌,
}
use node_fast.Base.Map.{lookup, erase}
use node_fast.Json.{Json, null, get, get?, is_truthy, elements?}
use node_fast.Protocol.{Message, status_data, status_end, status_error}
use node_fast.Client.Request.{
  ServerError, unknown_msgid, null_value, server_error, is_pending, emit, datum, ended,
}
use node_fast.Client.State.{Client, put}
use node_fast.Client.Completion.{request_complete, request_fail, request_abandon, fatal_error}

-- A payload without `d`, which the decoder never passes on, is read as one without values; the source
-- would throw a TypeError. The loop of `requestEmitData` over the values of a message. The result tells whether all were
-- in order.
unfoldable pub emit_values : ℕ → List Json → Client → Outcome (Bool × Client)
emit_values id [] s = ok (true, s)
emit_values id (null ∷ ds) s =
    let ignored =
      emit_values id ds
        (put id (record (s.heap id) { nignored_null = (s.heap id).nignored_null + 1 }) s) in
    elim (s.heap id).ignore_null [
      | true ↦ ignored
      | false ↦ do t ← request_abandon id null_value s; ok (false, t)
    ]
emit_values id (d ∷ ds) s = emit_values id ds (put id (emit (datum d) (s.heap id)) s)

unfoldable pub request_emit_data : ℕ → Message → Client → Outcome (Bool × Client)
request_emit_data id message s = do
  assert (is_pending (s.heap id))
  emit_values id (elements? (get "d" message.payload)) s

-- An END message for a request that is pending.
abbrev pub end_request : ℕ → Bool → Client → Outcome Client
end_request id false s = ok s
end_request id true s = do
  t ← request_complete id (put id (record (s.heap id) { done_graceful = true }) s)
  ok (put id (emit ended (t.heap id)) t)

abbrev if_truthy : Option Json → Option Json
if_truthy none = none
if_truthy (some v) = if is_truthy v then some v else none

-- The error that an ERROR message carries; a stack that is falsy is not taken over. The decoder never
-- passes on an ERROR message without `d`, at which the source would throw a TypeError.
abbrev pub error_of : Option Json → ServerError
error_of d = record {
  name = get? "name" d;
  message = get? "message" d;
  info = get? "info" d;
  stack = if_truthy (get? "stack" d);
  context = get? "context" d;
  ase_errors = get? "ase_errors" d;
}

-- The END of a request: an abandoned one is forgotten, and one that is pending completes.
abbrev pub deliver_end : ℕ → Bool → Message → Client → Outcome Client
deliver_end id true message s = ok (record s { abandoned = erase (s.heap id).msgid s.abandoned })
deliver_end id false message s = request_emit_data id message s >>= λ r. end_request id r.0 r.1

abbrev pub deliver_data : ℕ → Message → Client → Outcome Client
deliver_data id message s =
    request_emit_data id message (put id (record (s.heap id) { ndata = (s.heap id).ndata + 1 }) s)
    >>= λ r. ok r.1

abbrev pub deliver_error : ℕ → Message → Client → Outcome Client
deliver_error id message s = do
  assert (message.status == status_error)
  request_fail id (server_error (error_of (get "d" message.payload)))
      (put id (record (s.heap id) { done_graceful = true }) s)

abbrev pub deliver_active : ℕ → Message → Client → Outcome Client
deliver_active id message s =
    assert (is_none (s.heap id).error)
    >> (if message.status == status_data
        then deliver_data id message s
        else deliver_error id message s)

abbrev pub deliver_other : ℕ → Bool → Message → Client → Outcome Client
deliver_other id true message s =
    ok (put id (record (s.heap id) { nignored = (s.heap id).nignored + 1 }) s)
deliver_other id false message s = deliver_active id message s

-- What follows the look-up of the request.
unfoldable pub deliver : ℕ → Bool → Message → Client → Outcome Client
deliver id abandoned message s = do
  assert (not (s.heap id).done_graceful)
  let t = put id (record (s.heap id) { last = some message }) s
  if message.status == status_end
      then deliver_end id abandoned message t
      else deliver_other id abandoned message t

unfoldable pub on_message : Message → Client → Outcome Client
on_message message s = elim (lookup message.msgid s.pending) [
  | some id ↦ do assert (not (s.heap id).abandoned); deliver id false message s
  | none ↦ elim (lookup message.msgid s.abandoned) [
    | some id ↦ do assert (s.heap id).abandoned; deliver id true message s
    | none ↦ fatal_error (unknown_msgid message.msgid) s
  ]
]
