-- ===== src/Server/Replies.antt =====
-- What the handler of an RPC method does with its context in lib/fast_server.js, and the messages
-- that the server sends for it.
pub mod Quiet
pub mod Arriving
pub mod Ending
pub mod Outgoing
pub mod Called
use node_fast.Base.{
  ℕ, suc, ◌++◌, map, take, drop, is_some, if◌then◌else◌, Bool, true, false, ◌&&◌, Option, none,
  some, List, [], ◌∷◌, Outcome, ok, ◌>>=◌,
}
use node_fast.Base.Int.{ℤ}
use node_fast.Json.{Json, is_object}
use node_fast.Protocol.{Message}
use node_fast.Server.State.{Request, RpcError, Server}
use node_fast.Server.Response.{data_message, end_message, error_message}
use node_fast.Server.Lifecycle.{is_empty, request_fail}
use node_fast.Server.Api.{context_write, context_end}

-- `rpc.write(value)`, `rpc.end()` and `rpc.fail(error)`. What follows `set_timeout` or
-- `set_immediate` in a list is done by the function that the handler passes to `setTimeout` or
-- `setImmediate`.
pub data Action : Type 0 where
  write : Json → Action
  finish : Action
  fail : RpcError → Action
  set_timeout : ℤ → Action
  set_immediate : Action

-- What reaches the server, one after the other: an object that the request's encoder takes, the
-- end of the context, or `fail`. The clock gives the time of each message.
unfoldable pub take_effect : (ℕ → ℕ) → ℕ → ℕ → List Action → Server → Outcome Server
take_effect clock n id [] s = ok s
take_effect clock n id (write value ∷ rest) s =
    context_write (clock n) id value s >>= take_effect clock (suc n) id rest
take_effect clock n id (finish ∷ rest) s =
    context_end (clock n) id s >>= take_effect clock (suc n) id rest
take_effect clock n id (fail e ∷ rest) s =
    request_fail (clock n) id e s >>= take_effect clock (suc n) id rest
take_effect clock n id (set_timeout ms ∷ rest) s = take_effect clock n id rest s
take_effect clock n id (set_immediate ∷ rest) s = take_effect clock n id rest s

abbrev pub writes : List Json → List Action
writes = map write

-- The order in which the actions of a handler reach the server. Objects that are written wait in
-- the context and in the encoder, which takes `pace k` of them after the handler's action number
-- `k`; an object whose message has not left the encoder counts as waiting. The end of the context
-- waits for all of them, `fail` waits for none, and the encoder takes what is left in the end.
unfoldable pub arrivals : (ℕ → ℕ) → ℕ → List Json → List Action → List Action
arrivals pace k queue [] = writes queue
arrivals pace k queue (write value ∷ rest) =
    let waiting = queue ++ value ∷ [] in
    writes (take (pace k) waiting) ++ arrivals pace (suc k) (drop (pace k) waiting) rest
arrivals pace k queue (finish ∷ rest) = writes queue ++ finish ∷ arrivals pace (suc k) [] rest
arrivals pace k queue (fail e ∷ rest) = fail e ∷ arrivals pace (suc k) queue rest
arrivals pace k queue (set_timeout ms ∷ rest) =
    writes (take (pace k) queue) ++ arrivals pace (suc k) (drop (pace k) queue) rest
arrivals pace k queue (set_immediate ∷ rest) =
    writes (take (pace k) queue) ++ arrivals pace (suc k) (drop (pace k) queue) rest

-- The actions of the request's handler, when the encoder keeps the pace.
unfoldable pub perform : (ℕ → ℕ) → (ℕ → ℕ) → ℕ → ℕ → List Action → Server → Outcome Server
perform clock pace n id acts s = take_effect clock n id (arrivals pace 0 [] acts) s

abbrev pub only_writes : List Action → Bool
only_writes [] = true
only_writes (write value ∷ rest) = only_writes rest
only_writes (_ ∷ rest) = false

-- A handler keeps to its part when it writes objects only until it either ends its context, as the
-- last thing that it does, or fails, after which it may write but does nothing else.
abbrev pub is_reply : List Action → Bool
is_reply [] = false
is_reply (write value ∷ rest) = is_object value && is_reply rest
is_reply (finish ∷ rest) = is_empty rest
is_reply (fail e ∷ rest) = only_writes rest
is_reply (set_timeout ms ∷ rest) = is_reply rest
is_reply (set_immediate ∷ rest) = is_reply rest

-- The messages that the actions stand for, in the order in which they reach the server. Nothing is
-- sent after a failure.
abbrev pub reply_messages : (ℕ → ℕ) → ℕ → Request → List Action → List Message
reply_messages clock n r [] = []
reply_messages clock n r (write value ∷ rest) =
    data_message (clock n) r value ∷ reply_messages clock (suc n) r rest
reply_messages clock n r (finish ∷ rest) =
    end_message (clock n) r ∷ reply_messages clock (suc n) r rest
reply_messages clock n r (fail e ∷ rest) = error_message (clock n) r e ∷ []
reply_messages clock n r (set_timeout ms ∷ rest) = reply_messages clock n r rest
reply_messages clock n r (set_immediate ∷ rest) = reply_messages clock n r rest

-- The values that are written before a failure.
abbrev pub written : List Action → List Json
written [] = []
written (write value ∷ rest) = value ∷ written rest
written (fail e ∷ rest) = []
written (_ ∷ rest) = written rest

-- The error that they end with.
abbrev pub failure : List Action → Option RpcError
failure [] = none
failure (write value ∷ rest) = failure rest
failure (finish ∷ rest) = failure rest
failure (fail e ∷ rest) = some e
failure (set_timeout ms ∷ rest) = failure rest
failure (set_immediate ∷ rest) = failure rest

-- What arrives of the values: all of them when the handler ends its context, and the first `count`
-- when it fails.
abbrev pub delivered : ℕ → List Action → List Json
delivered count acts = if is_some (failure acts) then take count (written acts) else written acts

-- The messages of a reply with these values and this error, if any.
abbrev pub answer : (ℕ → ℕ) → ℕ → Request → List Json → Option RpcError → List Message
answer clock n r [] none = end_message (clock n) r ∷ []
answer clock n r [] (some e) = error_message (clock n) r e ∷ []
answer clock n r (value ∷ rest) o = data_message (clock n) r value ∷ answer clock (suc n) r rest o
