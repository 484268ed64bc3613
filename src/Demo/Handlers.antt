-- ===== src/Demo/Handlers.antt =====
-- The handlers of lib/demo_server.js. A handler takes the arguments of the call and returns what
-- it does with its context.
use node_fast.Base.{
  ℕ, zero, suc, String, Bool, true, false, not, ◌&&◌, ◌||◌, Option, none, some, List, [], ◌∷◌, ◌++◌,
  map, leb, if◌then◌else◌, is_none, Outcome, ok, throw, type_error, ◌>>=◌,
}
use node_fast.Base.Int.{ℤ, pos, negsuc}
use node_fast.Json.{
  Json, null, num, str, obj, field, end, get, is_array?, is_string?, is_object?, is_object,
  is_truthy, elements?,
}
use node_fast.Server.State.{RpcError}
use node_fast.Server.Response.{optional_field}
use node_fast.Server.Replies.{Action, write, finish, fail, set_timeout, set_immediate}
use node_fast.Demo.Errors.{Errors}

-- `value.name`, which throws when the value is `null`.
abbrev pub read : String → Json → Outcome (Option Json)
read k null = throw type_error
read k v = ok (get k v)

-- `{ 'value': v }`
abbrev pub value_object : Json → Json
value_object v = obj (field "value" v end)

-- `values.forEach(function (a) { rpc.write({ 'value': a }); })`
abbrev pub write_each : List Json → List Action
write_each = map (λ a. write (value_object a))

-- The number that a property has, when it has one.
abbrev pub number? : Option Json → Option ℤ
number? (some (num n)) = some n
number? _ = none

-- `fastRpcDate`; the two arguments are what `getTime` and `toISOString` give.
unfoldable pub fast_rpc_date : Errors → ℤ → String → List Json → Outcome (List Action)
fast_rpc_date errors time iso [] =
    ok (write (obj (field "timestamp" (num time) (field "iso8601" (str iso) end))) ∷ finish ∷ [])
fast_rpc_date errors time iso (_ ∷ _) = ok (fail (errors.plain "expected no arguments") ∷ [])

-- `fastRpcEcho`
unfoldable pub fast_rpc_echo : List Json → Outcome (List Action)
fast_rpc_echo argv = ok (write_each argv ++ finish ∷ [])

-- `errspec.info` is absent, or `typeof` gives 'object'.
abbrev pub info_ok : Option Json → Bool
info_ok none = true
info_ok (some null) = true
info_ok o = is_object? o

-- `value || {}`
abbrev pub or_empty : Option Json → Json
or_empty none = obj end
or_empty (some v) = if is_truthy v then v else obj end

abbrev string_of : Option Json → String
string_of (some (str t)) = t
string_of _ = ""

-- `rv.context = errspec.context`, unless that is falsy. An error without a context is sent with
-- an empty one.
abbrev pub set_context : Option Json → RpcError → RpcError
set_context none e = e
set_context (some v) e = if is_truthy v then record e { context = v } else e

abbrev pub bad_errspec : Option Json → Json → Bool
bad_errspec name errspec =
    not (is_string? name)
    || (not (is_string? (get "message" errspec)) || not (info_ok (get "info" errspec)))

-- The error that the client has asked for.
abbrev pub asked_error : Errors → Option Json → Json → RpcError
asked_error errors name errspec = set_context (get "context" errspec) (
    errors.named (string_of name) (or_empty (get "info" errspec))
      (string_of (get "message" errspec)))

-- `fastRpcFail`
unfoldable pub fast_rpc_fail : Errors → List Json → Outcome (List Action)
fast_rpc_fail errors (errspec ∷ []) = do
  name ← read "name" errspec
  if bad_errspec name errspec
      then ok (fail (errors.plain "bad arguments") ∷ [])
      else ok (
          write_each (elements? (get "data" errspec))
          ++ set_immediate ∷ fail (asked_error errors name errspec) ∷ [])
fast_rpc_fail errors _ = ok (fail (errors.plain "expected argument") ∷ [])

-- `fastRpcFastbenchFinish`
unfoldable pub fast_rpc_fastbench_finish : List Json → List Action
fast_rpc_fastbench_finish values = write_each values ++ finish ∷ []

-- What follows the checks of the argument.
abbrev pub fastbench_reply : Option ℤ → List Json → List Action
fastbench_reply none values = fast_rpc_fastbench_finish values
fastbench_reply (some ms) values = set_timeout ms ∷ fast_rpc_fastbench_finish values

-- `fastRpcFastbench`. The argument's own property `hasOwnProperty`, which no JSON value makes a
-- function, hides the method.
unfoldable pub fast_rpc_fastbench : Errors → List Json → Outcome (List Action)
fast_rpc_fastbench errors (args ∷ []) =
    if not (is_object args)
    then ok (fail (errors.plain "expected exactly one object argument") ∷ [])
    else if not (is_none (get "hasOwnProperty" args))
    then throw type_error
    else if is_array? (get "echo" args)
    then ok (fastbench_reply (number? (get "delay" args)) (elements? (get "echo" args)))
    else ok (fail (errors.plain "expected arg.echo") ∷ [])
fast_rpc_fastbench errors _ = ok (fail (errors.plain "expected exactly one object argument") ∷ [])

-- 30 minutes
abbrev pub maxtimems : ℕ
maxtimems = 1800000

abbrev pub within : ℕ → ℕ → ℤ → Bool
within lo hi (pos n) = leb lo n && leb n hi
within lo hi (negsuc n) = false

abbrev pub sleep_reply : Errors → Option ℤ → List Action
sleep_reply errors none = fail (errors.plain "bad value for \"ms\"") ∷ []
sleep_reply errors (some ms) =
    if within 0 maxtimems ms
    then set_timeout ms ∷ finish ∷ []
    else fail (errors.plain "bad value for \"ms\"") ∷ []

-- `fastRpcSleep`
unfoldable pub fast_rpc_sleep : Errors → List Json → Outcome (List Action)
fast_rpc_sleep errors (arg ∷ []) = do ms ← read "ms" arg; ok (sleep_reply errors (number? ms))
fast_rpc_sleep errors _ = ok (fail (errors.plain "expected one argument") ∷ [])

-- What the file gives: the lines that come through the transform stream and, when an error ends
-- the reading, its message and the lines that come through after it. The stream stays piped to the
-- context then, and does not end.
pub record WordFile : Type 0 where
  pub words : List String
  pub fault : Option (String × List String)

abbrev pub write_words : List String → List Action
write_words = map (λ c. write (obj (field "word" (str c) end)))

abbrev pub words_end : Errors → Option (String × List String) → List Action
words_end errors none = finish ∷ []
words_end errors (some (message, rest)) =
    fail (errors.caused message "/usr/dict/words") ∷ write_words rest

-- `fastRpcWords`: each word waits for its turn in the transform stream.
unfoldable pub fast_rpc_words : Errors → WordFile → List Json → Outcome (List Action)
fast_rpc_words errors file [] = ok (write_words file.words ++ words_end errors file.fault)
fast_rpc_words errors file (_ ∷ _) = ok (fail (errors.plain "expected 0 arguments") ∷ [])

-- The loop of `fastRpcYes`.
unfoldable pub repeat_write : ℕ → Json → List Action
repeat_write zero v = []
repeat_write (suc n) v = write v ∷ repeat_write n v

abbrev pub maxcount : ℕ
maxcount = 102400

abbrev found_value : Option Json → Json
found_value count = obj (
    optional_field "foundValue" count
      (field "minValue" (num (pos 1)) (field "maxValue" (num (pos maxcount)) end)))

abbrev pub bad_count : Errors → Option Json → List Action
bad_count errors count =
    fail (errors.informed (found_value count) "count must be an integer in range [1, 102400]") ∷ []

abbrev pub yes_reply : Errors → Option Json → Option Json → List Action
yes_reply errors value (some (num (pos n))) =
    if within 1 maxcount (pos n)
    then repeat_write n (obj (optional_field "value" value end)) ++ finish ∷ []
    else bad_count errors (some (num (pos n)))
yes_reply errors value count = bad_count errors count

-- `fastRpcYes`
unfoldable pub fast_rpc_yes : Errors → List Json → Outcome (List Action)
fast_rpc_yes errors (arg ∷ []) = do
  value ← read "value" arg
  let count = get "count" arg
  ok (yes_reply errors value count)
fast_rpc_yes errors _ = ok (fail (errors.plain "expected one argument") ∷ [])

-- What the handlers find around them: the time, and the file of words.
pub record Surroundings : Type 0 where
  pub time : ℤ
  pub iso8601 : String
  pub file : WordFile

-- `demoRpc`, as `demoRpcs` returns it.
unfoldable pub demo_rpcs :
    Errors → Surroundings → List (String × (List Json → Outcome (List Action)))
demo_rpcs errors around =
    ("date", fast_rpc_date errors around.time around.iso8601)
    ∷ ("echo", fast_rpc_echo)
    ∷ ("fail", fast_rpc_fail errors)
    ∷ ("fastbench", fast_rpc_fastbench errors)
    ∷ ("sleep", fast_rpc_sleep errors)
    ∷ ("words", fast_rpc_words errors around.file)
    ∷ ("yes", fast_rpc_yes errors)
    ∷ []
