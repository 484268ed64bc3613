-- ===== src/Tests/System.antt =====
-- Calls from end to end at concrete inputs: a new client, and a server with one connection.
use text.Mathlib.Text.{◌==◌ as str_eq}
use node_fast.Base.{
  ℕ, take, ◌==◌, if◌then◌else◌, ◌+◌, ◌<◌, ◌≡◌, ◌≢◌, refl, ap, inr, String, true, false, none, some,
  List, [], ◌∷◌, ◌++◌, length, ok, Returns, arith,
}
use node_fast.Base.Int.{pos}
use node_fast.Base.Map.{lookup, lookup-empty, insert}
use node_fast.Json.{Json, nil, cons, null, str, num, obj, field, end, arr}
use node_fast.Protocol.{msgid_max}
use node_fast.Subr.IdAllocator
use node_fast.Client.Request.{ended}
use node_fast.Client.State.{Client}
use node_fast.Client.State
use node_fast.Client.Api.{RpcArgs}
use node_fast.Client.Invariant.Handle.{Reaches-IsValid}
use node_fast.Server.State.{Server, Request, Handler, new_request}
use node_fast.Server.Messages.{on_message, dispatch, start_request}
use node_fast.Server.Api
use node_fast.Server.Api.{handle, conn_create, register_rpc_method}
use node_fast.Server.Invariant.Updates.{counters-IsConsistent}
use node_fast.Server.Invariant.Handle.{Reaches-IsConsistent}
use node_fast.Server.Replies.{
  Action, write, finish, fail, perform, take_effect, arrivals, reply_messages, answer, delivered,
}
use node_fast.Server.Replies as Replies
use node_fast.Server.Replies.Outgoing.{perform-Answered}
use node_fast.Server.Replies.Ending.{IsServed, Answered}
use node_fast.Server.Replies.Called.{IsCall, IsStarted, on_message-IsStarted}
use node_fast.Demo.Errors.{Errors, IsDocumented}
use node_fast.Demo.Handlers.{Surroundings, fast_rpc_echo, fast_rpc_fail, fast_rpc_fastbench}
use node_fast.System.Hearing.{receive, IsAwaiting, Hears}
use node_fast.System.Hearing.Reply.{receive-Hears}
use node_fast.System.Call.{exchange, AreLinked, HasHeard, exchange-HasHeard}
use node_fast.System.Methods.{
  Hearing, value_events, errspec, returned_error, echo-Hearing, fail-Hearing,
}
use node_fast.Bench.{sync, next_request}
use node_fast.Bench.Workloads.{IsExpected, next_request-IsExpected}
use node_fast.Tests.Fixture.{
  new_client, new_client-Reaches, busy, busy-IsValid, busy_tables, echo_args,
}
use node_fast.Tests.Server.{
  connected, connected-Reaches, at_work, at_work-Reaches, call_message, failure,
}

abbrev answering : List Action
answering = write (arr nil) ∷ finish ∷ []

-- The encoder takes one object after each action.
abbrev pace : ℕ → ℕ
pace k = 1

-- The handler fails behind two values, of which the encoder has taken the first.
abbrev failing : List Action
failing = write (obj end) ∷ write (arr nil) ∷ fail failure ∷ []

failing-arrivals :
    arrivals (λ k. if k == 0 then 1 else 0) 0 [] failing
    ≡ write (obj end) ∷ fail failure ∷ write (arr nil) ∷ []
unfolding arrivals
failing-arrivals = refl

abbrev clock : ℕ → ℕ
clock n = n

at_work-IsServed : IsServed at_work 0
unfolding Api.create IdAllocator.create handle register_rpc_method conn_create IdAllocator.alloc
    IdAllocator.alloc_loop lookup insert on_message dispatch start_request
at_work-IsServed = record { made = omega arith; runs = refl; piped = refl; linked = refl }

perform-Answered_example :
    (count : ℕ) × Returns
      (Answered 0 0
        (answer clock 0 (at_work.requests 0) (delivered count failing) (Replies.failure failing))
        at_work)
      (perform clock pace 0 0 failing at_work)
perform-Answered_example =
    perform-Answered clock pace 0 0 0 failing at_work (Reaches-IsConsistent at_work at_work-Reaches)
      at_work-IsServed refl

abbrev no_calls : Handler
no_calls = record { nstarted = 0; ncompleted = 0; nerrors = 0 }

connected-IsCall : IsCall 1 0 call_message "echo" nil no_calls connected
unfolding Api.create IdAllocator.create handle register_rpc_method conn_create IdAllocator.alloc
    IdAllocator.alloc_loop lookup insert
connected-IsCall = record {
  positive = refl;
  found = refl;
  running = refl;
  is_data = refl;
  unused = refl;
  object = refl;
  call = refl;
  known = refl;
}

on_message-IsStarted_example :
    Returns (IsStarted 0 call_message "echo" nil connected) (on_message 0 1 call_message connected)
on_message-IsStarted_example =
    on_message-IsStarted 0 1 0 call_message "echo" nil no_calls connected
      (Reaches-IsConsistent connected connected-Reaches) connected-IsCall

abbrev first_request : Request
first_request = record (new_request 0 call_message) { msgid = 1 }

busy-IsAwaiting : IsAwaiting 0 first_request busy
busy-IsAwaiting = record {
  valid = busy-IsValid;
  held = busy_tables.0;
  small = omega arith;
  known = inr refl;
}

receive-Hears_example :
    Returns
      (Hears 0 (write (arr nil) ∷ fail failure ∷ []) busy)
      (receive (reply_messages clock 0 first_request (write (arr nil) ∷ fail failure ∷ [])) busy)
receive-Hears_example =
    receive-Hears clock 0 0 first_request (write (arr nil) ∷ fail failure ∷ []) busy busy-IsAwaiting
      refl

-- A server with every method registered.
abbrev ready : Server
ready = record connected { handlers = λ _. some no_calls }

linked : AreLinked 1 0 new_client ready
unfolding Api.create IdAllocator.create handle register_rpc_method conn_create IdAllocator.alloc
    IdAllocator.alloc_loop lookup insert State.create
linked = record {
  client_valid = Reaches-IsValid new_client new_client-Reaches;
  server_valid =
      counters-IsConsistent connected (Reaches-IsConsistent connected connected-Reaches) _ _ _ _ _ _
        _ _ _ _ _ _;
  usable = refl;
  known = inr refl;
  positive = refl;
  found = refl;
  running = refl;
  shared = λ k free. lookup-empty k;
}

room : length new_client.pending + length new_client.abandoned < msgid_max
unfolding State.create IdAllocator.create
room = omega arith

abbrev call_args : RpcArgs
call_args = record echo_args { rpcargs = cons (str "a") (cons (num (pos 2)) nil) }

exchange-HasHeard_example :
    Returns
      (HasHeard answering)
      (exchange clock pace 1 0 (λ _. ok answering) call_args new_client ready)
exchange-HasHeard_example =
    exchange-HasHeard clock pace 1 0 (λ _. ok answering) call_args no_calls answering new_client
      ready linked refl room refl refl refl refl

echo-Hearing_example :
    Returns
      (Hearing (value_events (str "a" ∷ num (pos 2) ∷ []) ++ ended ∷ []) none)
      (exchange clock pace 1 0 fast_rpc_echo call_args new_client ready)
echo-Hearing_example =
    echo-Hearing clock pace 1 0 call_args no_calls new_client ready linked refl room refl refl

-- Errors as an engine and a package that keep to their documentation make them.
abbrev errors : Errors
errors = record {
  plain = λ message. record failure { message = message };
  named = λ name info message. record failure { name = name; info = info; message = message };
  informed = λ info message. record failure { name = "VError"; info = info; message = message };
  caused = λ cause path. record failure { name = "VError"; message = cause };
}

errors-IsDocumented : IsDocumented errors
errors-IsDocumented = record {
  name_kept = λ name message fs named. refl;
  message_kept = λ name message fs. refl;
  info_kept = λ name message fs. refl;
  no_context = λ name message fs. refl;
  no_errors = λ name message fs. refl;
}

abbrev fail_args : RpcArgs
fail_args = record echo_args {
  rpcmethod = "fail";
  rpcargs = cons (errspec "MyError" "no" end (obj (field "a" null end)) (cons (str "x") nil)) nil;
}

bool_clash : false ≢ true
bool_clash e = cc

named_error : ◌≢◌ {A = String} "MyError" ""
named_error e = bool_clash (ap (λ t. str_eq t "") e)

fail-Hearing_example :
    Returns
      (λ r.
        (count : ℕ) × Hearing
          (take count (value_events (str "x" ∷ [])))
          (some (returned_error "MyError" "no" end (obj (field "a" null end))))
          r)
      (exchange clock pace 1 0 (fast_rpc_fail errors) fail_args new_client ready)
fail-Hearing_example =
    fail-Hearing errors clock pace 1 0 fail_args no_calls new_client ready "MyError" "no" end
      (obj (field "a" null end)) (cons (str "x") nil) errors-IsDocumented linked refl room refl refl
      refl named_error refl

next_request-IsExpected_example :
    Returns
      (IsExpected (λ _ _. true))
      (exchange clock pace 1 0 (fast_rpc_fastbench errors) (next_request sync 7) new_client ready)
next_request-IsExpected_example =
    next_request-IsExpected errors (λ _ _. true) clock pace 1 0 7 sync no_calls new_client ready
      linked room refl refl

abbrev around : Surroundings
around = record {
  time = pos 0;
  iso8601 = "1970-01-01T00:00:00.000Z";
  file = record { words = "a" ∷ "b" ∷ []; fault = some ("EIO", "c" ∷ []) };
}

abbrev yes_argument : Json
yes_argument = obj (field "value" (str "y") (field "count" (num (pos 3)) end))
