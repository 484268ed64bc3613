-- ===== src/Server/Proper/Answers.antt =====
-- The replies of lib/fast_server.js are well formed, whatever the handler does.
use node_fast.Base.{
  ℕ, ◌+◌, ◌<◌, refl, String, Bool, false, Option, none, some, is_some, if◌then◌else◌, ok, Whenever,
  assert-Whenever, if-Whenever, branch-Whenever,
}
use node_fast.Json.{Json, is_object, null}
use node_fast.Server.State.{RpcError, Server, complete, put_connection, put_request}
use node_fast.Server.Response.{
  is_running, data_message, end_message, error_message, emit, write, encoder_transform,
  encoder_flush,
}
use node_fast.Server.Lifecycle.{
  count_handler, count_connection, request_cleanup, request_fail, request_complete, conn_drain,
}
use node_fast.Server.Api.{sink, context_write, context_end}
use node_fast.Server.Contract.{response-IsWellFormed}
use node_fast.Server.Proper.{
  IsProper, put_request-IsProper, put_connection-IsProper, write-IsProper, if-IsProper,
}
use node_fast.Server.Proper.Lives.{conn_drain-IsProper}

-- Any error serves to read off what is said of the other messages.
abbrev plain_error : RpcError
plain_error = record { name = ""; message = ""; context = null; info = null; ase_errors = none }

module _ {n : ℕ} where
  count_handler-IsProper :
      (o : Option String) (b : Bool) (s : Server) → IsProper n s → IsProper n (count_handler o b s)
  count_handler-IsProper none b s p = p
  count_handler-IsProper (some name) b s p = p

  request_cleanup-IsProper :
      (id : ℕ) (s : Server) → IsProper n s → Whenever (IsProper n) (request_cleanup id s)
  unfolding request_cleanup
  request_cleanup-IsProper id s p =
      let r = s.requests id in
      let b = is_some r.error in
      let t = record (put_connection r.conn (count_connection b r (s.connections r.conn)) s) {
        nrequests_completed = s.nrequests_completed + 1;
        nrequests_failed = s.nrequests_failed + (if b then 1 else 0);
      } in
      let counted : IsProper n (count_handler r.handler b t) =
        count_handler-IsProper r.handler b t (put_connection-IsProper r.conn _ s p refl refl) in
      let drained : Whenever (IsProper n) (conn_drain r.conn (count_handler r.handler b t)) =
        conn_drain-IsProper r.conn _ counted in
      search (assert-Whenever, if-Whenever, counted, drained)

  pub request_fail-IsProper :
      (uts id : ℕ) (e : RpcError) (s : Server)
      → IsProper n s
      → id < s.nrequests
      → Whenever (IsProper n) (request_fail uts id e s)
  unfolding request_fail
  request_fail-IsProper uts id e s p made =
      let r = record (s.requests id) { error = some e; state = complete; attached = false } in
      let (small, known) = p.0 id made in
      request_cleanup-IsProper id _ (
        write-IsProper r.conn (error_message uts r e) (put_request id r s)
          (put_request-IsProper id r s p refl refl)
          (response-IsWellFormed uts r null e small known).2)

  request_complete-IsProper :
      (id : ℕ) (s : Server) → IsProper n s → Whenever (IsProper n) (request_complete id s)
  unfolding request_complete
  request_complete-IsProper id s p =
      assert-Whenever (IsProper n) (is_running (s.requests id).state) _
        (request_cleanup-IsProper id _ (put_request-IsProper id _ s p refl refl))

  pub context_write-IsProper :
      (uts id : ℕ) (value : Json) (s : Server)
      → IsProper n s
      → id < s.nrequests
      → Whenever (IsProper n) (context_write uts id value s)
  unfolding context_write encoder_transform
  context_write-IsProper uts id value s p made =
      let r = s.requests id in
      let m = data_message uts r value in
      let (small, known) = p.0 id made in
      let good = (response-IsWellFormed uts r value plain_error small known).0 in
      if-Whenever (IsProper n) r.blackhole (ok (sink id s)) _
        (put_request-IsProper id _ s p refl refl)
        (branch-Whenever (IsProper n) (is_running r.state) _ _
          (put_request-IsProper id _ s p refl refl)
          (assert-Whenever (IsProper n) (is_object value) (ok (emit r m s))
            (if-IsProper r.attached (write r.conn m s) s (write-IsProper r.conn m s p good) p)))

  pub context_end-IsProper :
      (uts id : ℕ) (s : Server)
      → IsProper n s
      → id < s.nrequests
      → Whenever (IsProper n) (context_end uts id s)
  unfolding context_end encoder_flush
  context_end-IsProper uts id s p made =
      let r = s.requests id in
      let m = end_message uts r in
      let (small, known) = p.0 id made in
      let good = (response-IsWellFormed uts r null plain_error small known).1 in
      request_complete-IsProper id _ (
        if-IsProper r.blackhole s _ p (
          if-IsProper (is_running r.state) _ s
            (if-IsProper r.attached (write r.conn m s) s (write-IsProper r.conn m s p good) p) p))
