-- ===== src/Server/Lifecycle.antt =====
-- The life of connections and requests in lib/fast_server.js.
use node_fast.Base.{
  ℕ, ◌+◌, String, Bool, true, false, not, ◌&&◌, Option, none, some, List, [], ◌∷◌, ◌++◌, ◌==◌, ltb,
  if◌then◌else◌, is_none, is_some, Outcome, ok, assert, ◌>>=◌, ◌>>◌,
}
use text.Mathlib.Text.{◌==◌ as str_eq}
use node_fast.Base.Map.{Map, lookup, erase}
use node_fast.Server.State.{
  Request, complete, RpcError, ConnFault, Connection, Server, put_request, put_connection,
}
use node_fast.Server.Response.{is_running, is_complete, write, error_message}

-- `table[key] == object`
abbrev pub holds : ℕ → ℕ → Map ℕ → Bool
holds key h table = elim (lookup key table) [ none ↦ false | some j ↦ j == h ]

abbrev pub is_empty {ℓ} : {A : Type ℓ} → List A → Bool
is_empty [] = true
is_empty (_ ∷ _) = false

-- `requestDisconnect`
unfoldable pub request_disconnect : ℕ → Server → Outcome Server
request_disconnect id s =
    let r = s.requests id in
    elim (is_running r.state) [
      | false ↦ do assert (is_complete r.state); ok s
      | true ↦ do
        assert (is_none r.error)
        assert (not r.blackhole)
        ok (put_request id (record r { attached = false; blackhole = true }) s)
    ]

-- The loop of `connDisconnectRequests` over the pending requests.
unfoldable pub disconnect_each : List (ℕ × ℕ) → Server → Outcome Server
disconnect_each [] s = ok s
disconnect_each ((_, id) ∷ rest) s = do t ← request_disconnect id s; disconnect_each rest t

abbrev pub destroy_socket : ℕ → Server → Server
destroy_socket h s =
    let c = s.connections h in put_connection h (record c { ndestroyed = c.ndestroyed + 1 }) s

unfoldable pub disconnect_requests : ℕ → Server → Outcome Server
disconnect_requests h s = do
  t ← disconnect_each (s.connections h).pending s
  ok (destroy_socket h t)

-- The end of a connection whose requests are done.
abbrev pub close_pipeline : ℕ → Server → Server
close_pipeline h s =
    let c = s.connections h in
    if c.socket_error
    then put_connection h (record c { unpiped = true }) s
    else if is_none c.server_error
    then destroy_socket h s
    else s

-- The callbacks are scheduled when the last connection is gone.
abbrev pub run_callbacks : Server → Server
run_callbacks s =
    if is_empty s.conns
    then record s { immediates = s.immediates ++ s.callbacks; callbacks = [] }
    else s

-- `connDrain`
unfoldable pub conn_drain : ℕ → Server → Outcome Server
conn_drain h s = do
  let c = s.connections h
  assert (holds c.connid h s.conns)
  if not (is_empty c.pending)
      then (do
        assert (ltb c.ncompleted c.nstarted)
        ok (put_connection h (record c { draining = true }) s))
      else (do
        assert (c.nstarted == c.ncompleted)
        ok (run_callbacks (close_pipeline h (record s { conns = erase c.connid s.conns }))))

-- `connTerminate`
unfoldable pub conn_terminate : ℕ → ConnFault → Server → Outcome Server
conn_terminate h fault s =
    let c = s.connections h in
    elim (is_none c.server_error && not c.socket_error) [
      | false ↦ ok s
      | true ↦ do
        t ← disconnect_requests h (put_connection h (record c { server_error = some fault }) s)
        conn_drain h t
    ]

-- The counters of the method that served a request.
abbrev pub count_handler : Option String → Bool → Server → Server
count_handler none has_failed s = s
count_handler (some name) has_failed s = record s {
  handlers = λ k. elim (s.handlers k) [
    | none ↦ none
    | some f ↦ some (
        if str_eq k name
        then record f {
          ncompleted = f.ncompleted + 1;
          nerrors = f.nerrors + (if has_failed then 1 else 0);
        }
        else f)
  ];
}

-- The connection and the server after a request is done.
abbrev pub count_connection : Bool → Request → Connection → Connection
count_connection has_failed r c = record c {
  pending = erase r.msgid c.pending;
  ncompleted = c.ncompleted + 1;
  nfailed = c.nfailed + (if has_failed then 1 else 0);
}

-- `requestCleanup`
unfoldable pub request_cleanup : ℕ → Server → Outcome Server
request_cleanup id s = do
  let r = s.requests id
  let c = s.connections r.conn
  let has_failed = is_some r.error
  assert (is_complete r.state)
  assert (holds r.msgid id c.pending)
  let t = record (put_connection r.conn (count_connection has_failed r c) s) {
    nrequests_completed = s.nrequests_completed + 1;
    nrequests_failed = s.nrequests_failed + (if has_failed then 1 else 0);
  }
  if c.draining
      then conn_drain r.conn (count_handler r.handler has_failed t)
      else ok (count_handler r.handler has_failed t)

-- `requestFail`
unfoldable pub request_fail : ℕ → ℕ → RpcError → Server → Outcome Server
request_fail uts id e s =
    let r = record (s.requests id) { error = some e; state = complete; attached = false } in
    request_cleanup id (write r.conn (error_message uts r e) (put_request id r s))

-- `requestComplete`
unfoldable pub request_complete : ℕ → Server → Outcome Server
request_complete id s = do
  let r = s.requests id
  assert (is_running r.state)
  request_cleanup id (put_request id (record r { state = complete }) s)
