-- ===== src/Bench/Workloads.antt =====
-- The benchmark's requests of lib/bench.js against the method `fastbench` of lib/demo_server.js.
use node_fast.Base.{
  ℕ, ◌+◌, ◌<◌, ◌≡◌, refl, ap, ◌∙◌, Bool, true, Option, none, some, List, [], ◌∷◌, ◌++◌, map, length,
  ok, Returns,
}
use node_fast.Base.Int.{ℤ}
use node_fast.Json.{Json, to_list, obj, field, end}
use node_fast.Protocol.{msgid_max}
use node_fast.Client.Request.{datum, ended}
use node_fast.Client.State.{Client}
use node_fast.Server.State.{Handler, Server}
use node_fast.Server.Replies.{is_reply, failure, written}
use node_fast.Demo.Errors.{Errors}
use node_fast.Demo.Handlers.{fastbench_reply, fast_rpc_fastbench, fast_rpc_fastbench_finish}
use node_fast.System.Call.{exchange, AreLinked, exchange-HasHeard, heard_whole}
use node_fast.Bench.{
  row, bench_args, success, no_data, on_event, listen, Workload, delay_of, next_request,
}

-- The rows that the call asks for.
rows : List Json
rows = row ∷ row ∷ row ∷ row ∷ []

fastbench-bench_argument :
    (errors : Errors) (delay : Option ℤ)
    → fast_rpc_fastbench errors (to_list (bench_args delay 0).rpcargs)
      ≡ ok (fastbench_reply delay rows)
unfolding fast_rpc_fastbench rows
fastbench-bench_argument errors none = refl
fastbench-bench_argument errors (some ms) = refl

reply-is_reply : (delay : Option ℤ) → is_reply (fastbench_reply delay rows) ≡ true
unfolding fast_rpc_fastbench_finish rows
reply-is_reply none = refl
reply-is_reply (some ms) = refl

-- The listeners have seen four rows and the end, and have called back once, without an error.
listen-reply :
    (deep_equal : Json → Json → Bool) (delay : Option ℤ)
    → deep_equal (obj (field "value" row end)) (obj (field "value" row end)) ≡ true
    → (listen deep_equal (map datum (written (fastbench_reply delay rows)) ++ ended ∷ []) no_data
        ≡ ok (record { ndata = 4; results = success ∷ [] }))
      × (failure (fastbench_reply delay rows) ≡ none)
unfolding fast_rpc_fastbench_finish rows listen on_event
listen-reply deep_equal none e = (rw e refl, refl)
listen-reply deep_equal (some ms) e = (rw e refl, refl)

-- The benchmark has got what it expects: its callback was called once, without an error, after
-- four data.
abbrev pub IsExpected : (Json → Json → Bool) → ℕ × Client × Server → Type 0
IsExpected deep_equal r =
    (listen deep_equal (r.1.heap r.0).events no_data
      ≡ ok (record { ndata = 4; results = success ∷ [] }))
    × ((r.1.heap r.0).error ≡ none)

-- The next request of either workload, over an open connection to a server on which `fastbench` is
-- registered, whether the handler delays its answer or not, and at whatever pace the
-- server's encoder takes the objects: no listener of the benchmark throws,
-- and its callback is called exactly once and without an error, after four data. A message
-- identifier is free, and Node's `deepEqual` finds the datum equal to itself.
pub next_request-IsExpected :
    (errors : Errors) (deep_equal : Json → Json → Bool) (clock pace : ℕ → ℕ) (connid h uts : ℕ)
    (workload : Workload) (f : Handler) (s : Client) (u : Server)
    → AreLinked connid h s u
    → length s.pending + length s.abandoned < msgid_max
    → u.handlers "fastbench" ≡ some f
    → deep_equal (obj (field "value" row end)) (obj (field "value" row end)) ≡ true
    → Returns
        (IsExpected deep_equal)
        (exchange clock pace connid h (fast_rpc_fastbench errors) (next_request workload uts) s u)
next_request-IsExpected errors deep_equal clock pace connid h uts workload f s u l room e same =
    let delay = delay_of workload in
    let acts = fastbench_reply delay rows in
    let (r, g, heard) =
      exchange-HasHeard clock pace connid h (fast_rpc_fastbench errors) (next_request workload uts)
        f acts s u l refl room refl e (fastbench-bench_argument errors delay)
        (reply-is_reply delay) in
    let (listened, graceful) = listen-reply deep_equal delay same in
    let (events, error) = heard_whole acts r heard graceful in
    (r, g, (ap (λ es. listen deep_equal es no_data) events ∙ listened, error))
