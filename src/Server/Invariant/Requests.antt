-- ===== src/Server/Invariant/Requests.antt =====
-- The end of requests in lib/fast_server.js on a valid server: `requestCleanup`,
-- `requestComplete` and `requestFail`.
use node_fast.Base.{
  ℕ, ◌+◌, ◌<◌, ◌≡◌, refl, ◌∙◌, String, Bool, true, false, Option, none, some, is_some,
  if◌then◌else◌, arith, ok, Returns,
}
use node_fast.Base.Map.{lookup}
use node_fast.Protocol.{Message}
use node_fast.Server.State.{Request, RpcError, complete, Server, put_request}
use node_fast.Server.Response.{is_running, is_complete, write, error_message}
use node_fast.Server.Lifecycle.{
  holds, count_handler, conn_drain, request_cleanup, request_fail, request_complete,
}
use node_fast.Server.Invariant.{IsConsistent}
use node_fast.Server.Invariant.Updates.{update_self, counters-IsConsistent, flags-IsConsistent}
use node_fast.Server.Invariant.Draining.{conn_drain-IsConsistent}
use node_fast.Server.Invariant.Settling.{
  cleaned, conn_made, settled_state, settled-IsConsistent, settled-active, own,
}

count_handler-Returns :
    (o : Option String) (b drains : Bool) (h : ℕ) (s : Server)
    → IsConsistent s
    → h < s.nconnections
    → lookup (s.connections h).connid s.conns ≡ some h
    → Returns IsConsistent
        (if drains then conn_drain h (count_handler o b s) else ok (count_handler o b s))
count_handler-Returns none b true h s v made here = conn_drain-IsConsistent s h v made here
count_handler-Returns none b false h s v made here = (s, refl, v)
count_handler-Returns (some name) b true h s v made here =
    conn_drain-IsConsistent (count_handler (some name) b s) h
      (counters-IsConsistent s v _ _ _ _ _ _ _ _ _ _ _ _) made here
count_handler-Returns (some name) b false h s v made here =
    (_, refl, counters-IsConsistent s v _ _ _ _ _ _ _ _ _ _ _ _)

request_cleanup-eq :
    (s : Server) (id : ℕ) (r : Request)
    → is_complete r.state ≡ true
    → holds r.msgid id (s.connections r.conn).pending ≡ true
    → request_cleanup id (put_request id r s) ≡ (
        if (s.connections r.conn).draining
        then conn_drain r.conn (
            count_handler r.handler (is_some r.error) (record (cleaned id (is_some r.error) r s) {
              nrequests_completed = s.nrequests_completed + 1;
              nrequests_failed = s.nrequests_failed + (if is_some r.error then 1 else 0);
            }))
        else ok (
            count_handler r.handler (is_some r.error) (record (cleaned id (is_some r.error) r s) {
              nrequests_completed = s.nrequests_completed + 1;
              nrequests_failed = s.nrequests_failed + (if is_some r.error then 1 else 0);
            })))
unfolding request_cleanup
request_cleanup-eq s id r over held = rw (update_self s.requests id r, over, held) refl

-- A request that was running and is now complete is taken out and counted, and a connection that
-- waited for it may go.
pub request_cleanup-IsConsistent :
    (s : Server) (id : ℕ) (r : Request)
    → IsConsistent s
    → id < s.nrequests
    → is_running (s.requests id).state ≡ true
    → r.msgid ≡ (s.requests id).msgid
    → r.conn ≡ (s.requests id).conn
    → is_complete r.state ≡ true
    → Returns IsConsistent (request_cleanup id (put_request id r s))
request_cleanup-IsConsistent s id r v made runs same_msgid same_conn over =
    let b = is_some r.error in
    let held : holds r.msgid id (s.connections r.conn).pending ≡ true =
      ground (arith, own s id r b v made runs same_msgid same_conn over) in
    let (t, e, w) =
      count_handler-Returns r.handler b (s.connections r.conn).draining r.conn
        (settled_state s id r b v made runs same_msgid same_conn over)
        (settled-IsConsistent s id r b v made runs same_msgid same_conn over)
        (conn_made s id r b v made runs same_msgid same_conn over)
        (settled-active s id r b v made runs same_msgid same_conn over) in
    (t, request_cleanup-eq s id r over held ∙ e, w)

-- `requestComplete` of a request that is running.
pub request_complete-IsConsistent :
    (s : Server) (id : ℕ)
    → IsConsistent s
    → id < s.nrequests
    → is_running (s.requests id).state ≡ true
    → Returns IsConsistent (request_complete id s)
unfolding request_complete
request_complete-IsConsistent s id v made runs = rw runs (
    request_cleanup-IsConsistent s id (record (s.requests id) { state = complete }) v made runs refl
      refl refl)

-- A message written to a connection changes nothing else.
pub write-IsConsistent :
    (s : Server) (h : ℕ) (m : Message) → IsConsistent s → IsConsistent (write h m s)
write-IsConsistent s h m v = flags-IsConsistent s h _ v refl refl refl refl (λ q. q)

-- `requestFail` of a request that is running.
pub request_fail-IsConsistent :
    (uts : ℕ) (s : Server) (id : ℕ) (e : RpcError)
    → IsConsistent s
    → id < s.nrequests
    → is_running (s.requests id).state ≡ true
    → Returns IsConsistent (request_fail uts id e s)
unfolding request_fail
request_fail-IsConsistent uts s id e v made runs =
    let r = record (s.requests id) { error = some e; state = complete; attached = false } in
    let m = error_message uts r e in
    request_cleanup-IsConsistent (write r.conn m s) id r (write-IsConsistent s r.conn m v) made runs
      refl refl refl
