-- ===== src/System/Methods.antt =====
-- Calls of the methods of lib/demo_server.js, from end to end.
use text.Mathlib.Text.{◌==◌ as str_eq}
use node_fast.Base.{
  ℕ, ◌+◌, ◌<◌, ◌≡◌, ◌≢◌, refl, ap, ◌∙◌, String, true, false, Option, none, some, List, [], ◌∷◌,
  ◌++◌, zero, suc, take, map, length, Returns,
}
use node_fast.Json.{Json, Fields, Items, nil, cons, str, arr, obj, field, end, is_truthy, to_list}
use node_fast.Protocol.{msgid_max}
use node_fast.Client.Request.{StreamEvent, Cause, datum, ended, server_error}
use node_fast.Client.State.{Client}
use node_fast.Client.Api.{RpcArgs, timeout_ok}
use node_fast.Server.State.{Handler, Server}
use node_fast.Server.Replies.{Action, finish, fail, set_immediate, failure, written}
use node_fast.Demo.Errors.{Errors, IsDocumented}
use node_fast.Demo.Handlers.{value_object, write_each, asked_error, fast_rpc_echo, fast_rpc_fail}
use node_fast.Demo.Replying.{write_each-is_reply}
use node_fast.System.Hearing.{as_received}
use node_fast.System.Call.{exchange, AreLinked, exchange-HasHeard, heard_whole, heard_failure}

-- The events of `{ 'value': v }` for each of the values.
abbrev pub value_events : List Json → List StreamEvent
value_events = map (λ v. datum (value_object v))

written-write_each :
    (vs : List Json) (rest : List Action)
    → written (write_each vs ++ rest) ≡ map value_object vs ++ written rest
written-write_each [] rest = refl
written-write_each (v ∷ vs) rest = ap (λ l. value_object v ∷ l) (written-write_each vs rest)

all_events : (vs : List Json) → map datum (map value_object vs ++ []) ≡ value_events vs
all_events [] = refl
all_events (v ∷ vs) = ap (λ l. datum (value_object v) ∷ l) (all_events vs)

first_events :
    (count : ℕ) (vs : List Json)
    → map datum (take count (map value_object vs ++ [])) ≡ take count (value_events vs)
first_events zero vs = refl
first_events (suc count) [] = refl
first_events (suc count) (v ∷ vs) = ap (λ l. datum (value_object v) ∷ l) (first_events count vs)

failure-write_each :
    (vs : List Json) (rest : List Action) → failure (write_each vs ++ rest) ≡ failure rest
failure-write_each [] rest = refl
failure-write_each (v ∷ vs) rest = failure-write_each vs rest

-- What the caller has heard of a request.
abbrev pub Hearing : List StreamEvent → Option Cause → ℕ × Client × Server → Type 0
Hearing events error r = ((r.1.heap r.0).events ≡ events) × ((r.1.heap r.0).error ≡ error)

-- A call of `echo` over an open connection: the caller hears each argument of the call once and in
-- order, as the property `value` of an object, and then the end of the stream, and the request has
-- no error, at whatever pace the server's encoder takes the objects. The timeout is usable, a message identifier is free, and `echo` is registered.
pub echo-Hearing :
    (clock pace : ℕ → ℕ) (connid h : ℕ) (args : RpcArgs) (f : Handler) (s : Client) (u : Server)
    → AreLinked connid h s u
    → timeout_ok args.timeout ≡ true
    → length s.pending + length s.abandoned < msgid_max
    → args.rpcmethod ≡ "echo"
    → u.handlers args.rpcmethod ≡ some f
    → Returns
        (Hearing (value_events (to_list args.rpcargs) ++ ended ∷ []) none)
        (exchange clock pace connid h fast_rpc_echo args s u)
unfolding fast_rpc_echo
echo-Hearing clock pace connid h args f s u l timely room method e =
    let vs = to_list args.rpcargs in
    let acts = write_each vs ++ finish ∷ [] in
    let named : str_eq args.rpcmethod "" ≡ false = ap (λ t. str_eq t "") method in
    let (r, g, heard) =
      exchange-HasHeard clock pace connid h fast_rpc_echo args f acts s u l timely room named e refl
        (write_each-is_reply vs (finish ∷ [])) in
    let (events, error) = heard_whole acts r heard (failure-write_each vs (finish ∷ [])) in
    let all = ap (map datum) (written-write_each vs (finish ∷ [])) ∙ all_events vs in
    (r, g, (events ∙ ap (λ l. l ++ ended ∷ []) all, error))

-- The argument of `fail`: the error that the caller wants, and the values that come before it.
abbrev pub errspec : String → String → Fields → Json → Items → Json
errspec name message info context values = obj (
    field "name" (str name) (
      field "message" (str message)
        (field "info" (obj info) (field "context" context (field "data" (arr values) end)))))

-- The error as the caller gets it back.
abbrev pub returned_error : String → String → Fields → Json → Cause
returned_error name message info context = server_error (record {
  name = some (str name);
  message = some (str message);
  info = some (obj info);
  stack = none;
  context = some context;
  ase_errors = none;
})

asked-returned :
    (errors : Errors) (name message : String) (info : Fields) (context : Json) (values : Items)
    → IsDocumented errors
    → name ≢ ""
    → is_truthy context ≡ true
    → as_received
        (some (asked_error errors (some (str name)) (errspec name message info context values)))
      ≡ some (returned_error name message info context)
asked-returned errors name message info context values doc named truthy =
    rw
      (
        truthy,
        doc.name_kept name message info named,
        doc.message_kept name message info,
        doc.info_kept name message info,
        doc.no_errors name message info,
      )
      refl

-- A call of `fail` over an open connection, with an error that has a name, a message, an info
-- object and a context that is truthy, and with values: at whatever pace the server's encoder takes
-- the objects, the caller hears some first part of the values in order, no end of the stream, and
-- the request fails with an error of the same name, message, info and context. The package `verror` keeps name, message and properties as its documentation says.
pub fail-Hearing :
    (errors : Errors) (clock pace : ℕ → ℕ) (connid h : ℕ) (args : RpcArgs) (f : Handler)
    (s : Client) (u : Server) (name message : String) (info : Fields) (context : Json)
    (values : Items)
    → IsDocumented errors
    → AreLinked connid h s u
    → timeout_ok args.timeout ≡ true
    → length s.pending + length s.abandoned < msgid_max
    → args.rpcmethod ≡ "fail"
    → args.rpcargs ≡ cons (errspec name message info context values) nil
    → u.handlers args.rpcmethod ≡ some f
    → name ≢ ""
    → is_truthy context ≡ true
    → Returns
        (λ r.
          (count : ℕ) × Hearing
            (take count (value_events (to_list values)))
            (some (returned_error name message info context))
            r)
        (exchange clock pace connid h (fast_rpc_fail errors) args s u)
unfolding fast_rpc_fail
fail-Hearing errors clock pace connid h args f s u name message info context values doc l timely
      room method given e named truthy =
    let spec = errspec name message info context values in
    let last = set_immediate ∷ fail (asked_error errors (some (str name)) spec) ∷ [] in
    let acts = write_each (to_list values) ++ last in
    let not_empty : str_eq args.rpcmethod "" ≡ false = ap (λ t. str_eq t "") method in
    let (r, g, heard) =
      exchange-HasHeard clock pace connid h (fast_rpc_fail errors) args f acts s u l timely room
        not_empty e (ap (λ vs. fast_rpc_fail errors (to_list vs)) given)
        (write_each-is_reply (to_list values) last) in
    let (events, error) = heard_failure acts _ r heard (failure-write_each (to_list values) last) in
    (
      r,
      g,
      (
        heard.count,
        (
          events
              ∙ ap (λ vs. map datum (take heard.count vs))
                  (written-write_each (to_list values) last)
              ∙ first_events heard.count (to_list values),
          error ∙ asked-returned errors name message info context values doc named truthy,
        ),
      ),
    )
