-- ===== src/Server/Effects/Still.antt =====
-- Steps of lib/fast_server.js after which every connection has sent, and has pending, what it had.
use node_fast.Base.{
  ℕ, ◌≡◌, refl, ◌∙◌, Bool, true, false, not, ◌&&◌, some, List, [], ◌∷◌, if◌then◌else◌, is_none, ok,
  ◌>>=◌, Whenever, bind-Whenever, assert-Whenever, if-Whenever, branch-Whenever, cases-Whenever,
  Whenever-mono, String,
}
use node_fast.Base.Map.{lookup, keys}
use node_fast.Server.State.{Connection, ConnFault, shutting_down, Server, put_connection}
use node_fast.Server.Response.{is_running, is_complete}
use node_fast.Server.Lifecycle.{
  holds, is_empty, request_disconnect, disconnect_each, disconnect_requests, conn_drain,
  conn_terminate, destroy_socket,
}
use node_fast.Server.Api.{
  register_rpc_method, on_connection_end, on_connection_error, on_conns_destroyed, terminate_each,
  close,
}
use node_fast.Server.Replies.Quiet.{Quiet, put-Quiet, conn_drain-Quiet}

-- Every connection has sent, and has pending, what it had.
abbrev pub Still : Server → Server → Type 0
Still s t =
    (j : ℕ)
    → ((t.connections j).pending ≡ (s.connections j).pending)
      × ((t.connections j).outgoing ≡ (s.connections j).outgoing)

pub Still-trans : (s t u : Server) → Still s t → Still t u → Still s u
Still-trans s t u e f j = ((f j).0 ∙ (e j).0, (f j).1 ∙ (e j).1)

drained : (h : ℕ) (s t : Server) → Still s t → Whenever (Still s) (conn_drain h t)
drained h s t e =
    Whenever-mono (Quiet t) (Still s) (conn_drain h t) (conn_drain-Quiet h t)
      (λ u q. Still-trans s t u e q.1)

request_disconnect-Still : (id : ℕ) (s : Server) → Whenever (Still s) (request_disconnect id s)
unfolding request_disconnect
request_disconnect-Still id s =
    branch-Whenever (Still s) (is_running (s.requests id).state) _ _
      (assert-Whenever (Still s) (is_complete (s.requests id).state) (ok s) (λ j. (refl, refl)))
      (assert-Whenever (Still s) (is_none (s.requests id).error) _
        (assert-Whenever (Still s) (not (s.requests id).blackhole) _ (λ j. (refl, refl))))

disconnect_each-Still :
    (rest : List (ℕ × ℕ)) (s : Server) → Whenever (Still s) (disconnect_each rest s)
unfolding disconnect_each
disconnect_each-Still [] s = λ j. (refl, refl)
disconnect_each-Still ((k, id) ∷ rest) s =
    bind-Whenever (Still s) (Still s) (request_disconnect id s) (disconnect_each rest)
      (request_disconnect-Still id s)
      (λ t e.
        Whenever-mono (Still t) (Still s) (disconnect_each rest t) (disconnect_each-Still rest t)
          (λ u f. Still-trans s t u e f))

disconnect_requests-Still : (h : ℕ) (s : Server) → Whenever (Still s) (disconnect_requests h s)
unfolding disconnect_requests
disconnect_requests-Still h s =
    bind-Whenever (Still s) (Still s) (disconnect_each (s.connections h).pending s) _
      (disconnect_each-Still (s.connections h).pending s)
      (λ t e. Still-trans s t (destroy_socket h t) e (put-Quiet t h _ refl refl).1)

-- A connection that is torn down.
torn_down :
    (h : ℕ) (c : Connection) (s : Server)
    → c.pending ≡ (s.connections h).pending
    → c.outgoing ≡ (s.connections h).outgoing
    → Whenever (Still s) (disconnect_requests h (put_connection h c s) >>= conn_drain h)
torn_down h c s e f =
    let t = put_connection h c s in
    bind-Whenever (Still t) (Still s) (disconnect_requests h t) (conn_drain h)
      (disconnect_requests-Still h t)
      (λ u g. drained h s u (Still-trans s t u (put-Quiet s h c e f).1 g))

pub conn_terminate-Still :
    (h : ℕ) (fault : ConnFault) (s : Server) → Whenever (Still s) (conn_terminate h fault s)
unfolding conn_terminate
conn_terminate-Still h fault s =
    let c = s.connections h in
    branch-Whenever (Still s) (is_none c.server_error && not c.socket_error) _ _ (λ j. (refl, refl))
      (torn_down h (record c { server_error = some fault }) s refl refl)

pub on_connection_end-Still : (k h : ℕ) (s : Server) → Whenever (Still s) (on_connection_end k h s)
unfolding on_connection_end
on_connection_end-Still k h s =
    let c = record (s.connections h) { is_ended = true } in
    assert-Whenever (Still s) (holds k h s.conns) _ (
      if-Whenever (Still s) (s.connections h).socket_error (ok s) _ (λ j. (refl, refl))
        (drained h s (put_connection h c s) (put-Quiet s h c refl refl).1))

pub on_connection_error-Still :
    (k h : ℕ) (s : Server) → Whenever (Still s) (on_connection_error k h s)
unfolding on_connection_error
on_connection_error-Still k h s =
    let c = record (s.connections h) { socket_error = true } in
    assert-Whenever (Still s) (holds k h s.conns) _ (
      assert-Whenever (Still s) (not (s.connections h).socket_error) _ (
        if-Whenever (Still s) (is_none (s.connections h).server_error) _ _
          (torn_down h c s refl refl) (put-Quiet s h c refl refl).1))

pub on_conns_destroyed-Still : (callback : ℕ) (s : Server) → Still s (on_conns_destroyed callback s)
unfolding on_conns_destroyed
on_conns_destroyed-Still callback s j = chosen (is_empty s.conns) _ _ refl refl
  where
    chosen :
        (b : Bool) (x y : Server)
        → x.connections ≡ s.connections
        → y.connections ≡ s.connections
        → (((if b then x else y).connections j).pending ≡ (s.connections j).pending)
          × (((if b then x else y).connections j).outgoing ≡ (s.connections j).outgoing)
    chosen true x y e f = rw e (refl, refl)
    chosen false x y e f = rw f (refl, refl)

terminate_each-Still : (ks : List ℕ) (s : Server) → Whenever (Still s) (terminate_each ks s)
unfolding terminate_each
terminate_each-Still [] s = λ j. (refl, refl)
terminate_each-Still (k ∷ ks) s =
    bind-Whenever (Still s) (Still s) _ (terminate_each ks)
      (cases-Whenever (Still s) (lookup k s.conns) (ok s) (λ h. conn_terminate h shutting_down s)
        (λ _ j. (refl, refl)) (λ h _. conn_terminate-Still h shutting_down s))
      (λ t e.
        Whenever-mono (Still t) (Still s) (terminate_each ks t) (terminate_each-Still ks t)
          (λ u f. Still-trans s t u e f))

pub close-Still : (s : Server) → Whenever (Still s) (close s)
unfolding close
close-Still s =
    branch-Whenever (Still s) s.is_closed _ _
      (terminate_each-Still (keys s.conns) (record s { is_closed = true })) (λ j. (refl, refl))

pub register-Still : (name : String) (s : Server) → Whenever (Still s) (register_rpc_method name s)
unfolding register_rpc_method
register-Still name s = assert-Whenever (Still s) (is_none (s.handlers name)) _ (λ j. (refl, refl))
