-- ===== src/System/Hearing.antt =====
-- What the caller of lib/fast_client.js hears of the reply that a handler of lib/fast_server.js
-- has made.
pub mod Values
pub mod Reply
use node_fast.Base.{
  ℕ, suc, ◌≤◌, ◌≡◌, refl, sym, ap, ◌∙◌, subst, ◌⊎◌, true, false, Option, none, some, List, [], ◌∷◌,
  ◌++◌, Outcome, ok, ◌>>=◌, ok_injective, Returns, append_assoc, append-nil, arith,
}
use node_fast.Base.Map.{lookup, erase, lookup-erase}
use node_fast.Json.{Json, null, str, is_object}
use node_fast.Protocol.{Message, msgid_max, version_1, version_2}
use node_fast.Protocol.Decoder.WellFormed.{IsWellFormed}
use node_fast.Client.Request.{
  ServerError, Cause, server_error, StreamEvent, datum, ended, is_pending,
}
use node_fast.Client.Request
use node_fast.Client.State.{Client, put}
use node_fast.Client.Messages.{on_message}
use node_fast.Client.Invariant.{IsValid}
use node_fast.Client.Invariant.Updates.{finish}
use node_fast.Client.Invariant.Operations.{update_self}
use node_fast.Client.Invariant.Messages.{ended_request}
use node_fast.Client.Invariant.Delivery.{on_message-IsValid}
use node_fast.Client.Delivery.Reference.{
  values, data_events, delivered, tolerates, noting, counting, on_message-data,
}
use node_fast.Client.Delivery.Ending.{failed_by_server, on_message-end, on_message-error}
use node_fast.Server.State.{RpcError, Request}
use node_fast.Server.Response.{data_message, end_message, error_message}
use node_fast.Server.Contract.{response-IsWellFormed}
use node_fast.Server.Lifecycle.{is_empty}
use node_fast.Server.Replies.{
  Action, write, fail, set_timeout, set_immediate, is_reply, reply_messages, failure,
}
use node_fast.Server.Replies

-- The client takes the messages one after the other.
unfoldable pub receive : List Message → Client → Outcome Client
receive [] s = ok s
receive (m ∷ ms) s = on_message m s >>= receive ms

-- The events that the actions of a handler amount to, in the order in which they reach the server.
abbrev pub told : List Action → List StreamEvent
told [] = []
told (write value ∷ rest) = datum value ∷ told rest
told (Replies.finish ∷ rest) = ended ∷ told rest
told (fail e ∷ rest) = []
told (set_timeout ms ∷ rest) = told rest
told (set_immediate ∷ rest) = told rest

-- An error as the client puts it together again: without its stack.
abbrev pub as_received : Option RpcError → Option Cause
as_received none = none
as_received (some e) = some (
    server_error (record {
      name = some (str e.name);
      message = some (str e.message);
      info = some e.info;
      stack = none;
      context = some e.context;
      ase_errors = e.ase_errors;
    }))

abbrev pub queued : ℕ → Option RpcError → List ℕ
queued id none = []
queued id (some e) = id ∷ []

-- The request is done. Its stream has got the values and the `end` that the actions amount to, or
-- it has the error that they end with, and the `error` event is queued.
pub record Hears (id : ℕ) (acts : List Action) (s t : Client) : Type 0 where
  pub valid : IsValid t
  pub events : (t.heap id).events ≡ (s.heap id).events ++ told acts
  pub error : (t.heap id).error ≡ as_received (failure acts)
  pub done : is_pending (t.heap id) ≡ false
  pub gone : lookup (s.heap id).msgid t.pending ≡ none
  pub waits : t.immediates ≡ s.immediates ++ queued id (failure acts)

-- A client with a request under the identifier of the server's.
pub record IsAwaiting (id : ℕ) (r : Request) (s : Client) : Type 0 where
  pub valid : IsValid s
  pub held : lookup r.msgid s.pending ≡ some id
  pub small : r.msgid ≤ msgid_max
  pub known : (r.version ≡ version_1) ⊎ (r.version ≡ version_2)
