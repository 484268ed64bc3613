-- ===== src/Bench.antt =====
-- lib/bench.js: the requests of the benchmark's workloads, and the listeners on their streams.
pub mod Workloads
use node_fast.Base.{
  ℕ, ◌+◌, String, Bool, Option, none, some, List, [], ◌∷◌, ◌++◌, ◌==◌, if◌then◌else◌, Outcome, ok,
  assert, ◌>>=◌, ◌>>◌,
}
use node_fast.Base.Int.{ℤ, pos}
use node_fast.Json.{Json, Items, Fields, nil, cons, num, arr, obj, field, end}
use node_fast.Client.Request.{Cause, StreamEvent, datum, ended, failed}
use node_fast.Client.Api.{RpcArgs}

-- An array of small numbers.
abbrev numbers : List ℕ → Items
numbers [] = nil
numbers (n ∷ ns) = cons (num (pos n)) (numbers ns)

-- `[ 0, 1, 2, 3, 4, 5, 6, 7, 8, 9 ]`
abbrev pub row : Json
row = arr (numbers (0 ∷ 1 ∷ 2 ∷ 3 ∷ 4 ∷ 5 ∷ 6 ∷ 7 ∷ 8 ∷ 9 ∷ []))

abbrev delay_field : Option ℤ → Fields
delay_field none = end
delay_field (some ms) = field "delay" (num ms) end

-- The argument of the call: the rows to echo, and the delay unless it is `null`.
abbrev pub bench_argument : Option ℤ → Json
bench_argument delay =
    obj (field "echo" (arr (cons row (cons row (cons row (cons row nil))))) (delay_field delay))

-- The call that `fastWorkloadRequest` makes, at time `uts`.
abbrev pub bench_args : Option ℤ → ℕ → RpcArgs
bench_args delay uts = record {
  rpcmethod = "fastbench";
  rpcargs = cons (bench_argument delay) nil;
  timeout = none;
  ignore_null_values = Bool.false;
  uts = uts;
}

-- What the callback is called with.
pub data Result : Type 0 where
  success : Result
  unexpected_data : Result
  unexpected_server_error : Option Cause → Result

-- The listeners' variable `ndata`, and the calls of the callback, oldest first.
pub record Listener : Type 0 where
  pub ndata : ℕ
  pub results : List Result

abbrev pub no_data : Listener
no_data = record { ndata = 0; results = [] }

abbrev call_back : Result → Listener → Listener
call_back result l = record l { results = l.results ++ result ∷ [] }

-- The listeners of `fastWorkloadRequest`; the first argument is `deepEqual` of Node's `assert`.
unfoldable pub on_event : (Json → Json → Bool) → StreamEvent → Listener → Outcome Listener
on_event deep_equal (datum d) l = do
  assert (deep_equal d (obj (field "value" row end)))
  ok (record l { ndata = l.ndata + 1 })
on_event deep_equal ended l = ok (call_back (if l.ndata == 4 then success else unexpected_data) l)
on_event deep_equal (failed cause) l = ok (call_back (unexpected_server_error cause) l)

unfoldable pub listen : (Json → Json → Bool) → List StreamEvent → Listener → Outcome Listener
listen deep_equal [] l = ok l
listen deep_equal (e ∷ es) l = on_event deep_equal e l >>= listen deep_equal es

-- The delay of a workload's requests: `FastWorkloadSync` and `FastWorkloadSleep150`.
pub data Workload : Type 0 where
  sync sleep150 : Workload

abbrev pub delay_of : Workload → Option ℤ
delay_of sync = none
delay_of sleep150 = some (pos 150)

-- `nextRequest`
abbrev pub next_request : Workload → ℕ → RpcArgs
next_request workload uts = bench_args (delay_of workload) uts
