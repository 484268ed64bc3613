-- ===== src/Server/Proper/Lives.antt =====
-- The life of connections in lib/fast_server.js sends nothing that is ill-formed.
use node_fast.Base.{
  ℕ, ◌<◌, ◌≡◌, refl, ◌&&◌, true, not, some, List, [], ◌∷◌, ◌==◌, String, is_none, Outcome, ok,
  throw, assertion, ◌>>=◌, Whenever, bind-Whenever, assert-Whenever, assert_split-Whenever,
  if-Whenever, branch-Whenever, cases-Whenever, arith, suc,
}
use node_fast.Base.Map.{lookup, has_own_property, erase, keys}
use node_fast.Subr.IdAllocator
use node_fast.Subr.IdAllocator.{IdAllocator}
use node_fast.Subr.SocketAddrs.{Socket}
use node_fast.Server.State.{Connection, ConnFault, shutting_down, Server, put_connection}
use node_fast.Server.Response.{is_running, is_complete}
use node_fast.Server.Lifecycle.{
  holds, is_empty, close_pipeline, run_callbacks, request_disconnect, disconnect_each,
  disconnect_requests, conn_drain, conn_terminate,
}
use node_fast.Server.Api.{
  register_rpc_method, conn_create, accept, on_connection_end, on_connection_error,
  on_conns_destroyed, terminate_each, close,
}
use node_fast.Server.Invariant.Updates.{update_cases}
use node_fast.Server.Proper.{
  Speaks, IsProper, put_request-IsProper, put_connection-IsProper, if-IsProper,
}

module _ {n : ℕ} where
  close_pipeline-IsProper : (h : ℕ) (s : Server) → IsProper n s → IsProper n (close_pipeline h s)
  close_pipeline-IsProper h s p =
      if-IsProper (s.connections h).socket_error _ _ (put_connection-IsProper h _ s p refl refl) (
        if-IsProper (is_none (s.connections h).server_error) _ s
          (put_connection-IsProper h _ s p refl refl) p)

  run_callbacks-IsProper : (s : Server) → IsProper n s → IsProper n (run_callbacks s)
  run_callbacks-IsProper s p = if-IsProper (is_empty s.conns) _ s p p

  pub conn_drain-IsProper :
      (h : ℕ) (s : Server) → IsProper n s → Whenever (IsProper n) (conn_drain h s)
  unfolding conn_drain
  conn_drain-IsProper h s p =
      let t = record s { conns = erase (s.connections h).connid s.conns } in
      let waits : IsProper n (put_connection h (record (s.connections h) { draining = true }) s) =
        put_connection-IsProper h _ s p refl refl in
      let ends : IsProper n (run_callbacks (close_pipeline h t)) =
        run_callbacks-IsProper (close_pipeline h t) (close_pipeline-IsProper h t p) in
      search (assert-Whenever, if-Whenever, waits, ends)

  request_disconnect-IsProper :
      (id : ℕ) (s : Server) → IsProper n s → Whenever (IsProper n) (request_disconnect id s)
  unfolding request_disconnect
  request_disconnect-IsProper id s p =
      let r = s.requests id in
      branch-Whenever (IsProper n) (is_running r.state) _ _
        (assert-Whenever (IsProper n) (is_complete r.state) (ok s) p)
        (assert-Whenever (IsProper n) (is_none r.error) _ (
          assert-Whenever (IsProper n) (not r.blackhole) _
            (put_request-IsProper id _ s p refl refl)))

  disconnect_each-IsProper :
      (rest : List (ℕ × ℕ)) (s : Server)
      → IsProper n s
      → Whenever (IsProper n) (disconnect_each rest s)
  unfolding disconnect_each
  disconnect_each-IsProper [] s p = p
  disconnect_each-IsProper ((k, id) ∷ rest) s p =
      bind-Whenever (IsProper n) (IsProper n) (request_disconnect id s) (disconnect_each rest)
        (request_disconnect-IsProper id s p) (disconnect_each-IsProper rest)

  disconnect_requests-IsProper :
      (h : ℕ) (s : Server) → IsProper n s → Whenever (IsProper n) (disconnect_requests h s)
  unfolding disconnect_requests
  disconnect_requests-IsProper h s p =
      bind-Whenever (IsProper n) (IsProper n) (disconnect_each (s.connections h).pending s) _
        (disconnect_each-IsProper (s.connections h).pending s p)
        (λ t q. put_connection-IsProper h _ t q refl refl)

  -- A connection that is torn down.
  torn_down :
      (h : ℕ) (c : Connection) (s : Server)
      → IsProper n s
      → c.connid ≡ (s.connections h).connid
      → c.outgoing ≡ (s.connections h).outgoing
      → Whenever (IsProper n) (disconnect_requests h (put_connection h c s) >>= conn_drain h)
  torn_down h c s p e f =
      let t = put_connection h c s in
      bind-Whenever (IsProper n) (IsProper n) (disconnect_requests h t) (conn_drain h)
        (disconnect_requests-IsProper h t (put_connection-IsProper h c s p e f))
        (conn_drain-IsProper h)

  pub conn_terminate-IsProper :
      (h : ℕ) (fault : ConnFault) (s : Server)
      → IsProper n s
      → Whenever (IsProper n) (conn_terminate h fault s)
  unfolding conn_terminate
  conn_terminate-IsProper h fault s p =
      let c = s.connections h in
      branch-Whenever (IsProper n) (is_none c.server_error && not c.socket_error) _ _ p
        (torn_down h (record c { server_error = some fault }) s p refl refl)

  pub on_connection_end-IsProper :
      (k h : ℕ) (s : Server) → IsProper n s → Whenever (IsProper n) (on_connection_end k h s)
  unfolding on_connection_end
  on_connection_end-IsProper k h s p =
      let c = record (s.connections h) { is_ended = true } in
      assert-Whenever (IsProper n) (holds k h s.conns) _ (
        if-Whenever (IsProper n) (s.connections h).socket_error (ok s) _ p (
          conn_drain-IsProper h (put_connection h c s) (put_connection-IsProper h c s p refl refl)))

  pub on_connection_error-IsProper :
      (k h : ℕ) (s : Server) → IsProper n s → Whenever (IsProper n) (on_connection_error k h s)
  unfolding on_connection_error
  on_connection_error-IsProper k h s p =
      let c = record (s.connections h) { socket_error = true } in
      assert-Whenever (IsProper n) (holds k h s.conns) _ (
        assert-Whenever (IsProper n) (not (s.connections h).socket_error) _ (
          if-Whenever (IsProper n) (is_none (s.connections h).server_error) _ _
            (torn_down h c s p refl refl) (put_connection-IsProper h c s p refl refl)))

  pub on_conns_destroyed-IsProper :
      (callback : ℕ) (s : Server) → IsProper n s → IsProper n (on_conns_destroyed callback s)
  unfolding on_conns_destroyed
  on_conns_destroyed-IsProper callback s p = if-IsProper (is_empty s.conns) _ _ p p

  terminate_each-IsProper :
      (ks : List ℕ) (s : Server) → IsProper n s → Whenever (IsProper n) (terminate_each ks s)
  unfolding terminate_each
  terminate_each-IsProper [] s p = p
  terminate_each-IsProper (k ∷ ks) s p =
      bind-Whenever (IsProper n) (IsProper n) _ (terminate_each ks)
        (cases-Whenever (IsProper n) (lookup k s.conns) (ok s)
          (λ h. conn_terminate h shutting_down s) (λ _. p)
          (λ h _. conn_terminate-IsProper h shutting_down s p))
        (terminate_each-IsProper ks)

  pub close-IsProper : (s : Server) → IsProper n s → Whenever (IsProper n) (close s)
  unfolding close
  close-IsProper s p =
      branch-Whenever (IsProper n) s.is_closed _ _
        (terminate_each-IsProper (keys s.conns) (record s { is_closed = true }) p) p

  pub register_rpc_method-IsProper :
      (name : String) (s : Server)
      → IsProper n s
      → Whenever (IsProper n) (register_rpc_method name s)
  unfolding register_rpc_method
  register_rpc_method-IsProper name s p =
      assert-Whenever (IsProper n) (is_none (s.handlers name)) _ p

  accept-IsProper :
      (sock : Socket) (connid : ℕ) (alloc : IdAllocator) (s : Server)
      → IsProper n s
      → 0 < connid
      → IsProper n (accept connid sock (record s { connallocator = alloc }))
  accept-IsProper sock connid alloc s (range, speaks, many) positive = (
    range,
    λ i made.
        update_cases (λ j x. j < suc s.nconnections → Speaks x) s.connections s.nconnections _ i
          (λ _ _. (positive, tt)) (λ ne there. speaks i (omega (arith, ne, there))) made,
    omega (arith, many),
  )

  pub conn_create-IsProper :
      (sock : Socket) (s : Server) → IsProper n s → Whenever (IsProper n) (conn_create sock s)
  unfolding conn_create
  conn_create-IsProper sock s p =
      bind-Whenever (λ _. Unit {0}) (IsProper n)
        (IdAllocator.alloc s.connallocator (λ id. has_own_property id s.conns)) _ (anything _)
        (λ r _. assert_split-Whenever (IsProper n) (not (r.0 == 0)) _ (λ positive.
          assert-Whenever (IsProper n) (not (has_own_property r.0 s.conns)) _ (
            if-Whenever (IsProper n) s.is_closed (throw assertion) _ tt
              (accept-IsProper sock r.0 r.1 s p (ground arith)))))
    where
      anything : (m : Outcome (ℕ × IdAllocator)) → Whenever (λ _. Unit {0}) m
      anything (ok r) = tt
      anything (throw x) = tt
