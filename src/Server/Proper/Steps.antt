-- ===== src/Server/Proper/Steps.antt =====
-- Every step of lib/fast_server.js sends well-formed messages only.
use node_fast.Base.{
  ℕ, suc, ◌<◌, refl, String, ◌||◌, not, some, ◌==◌, ok_injective, Returns, subst, Whenever,
  assert-Whenever, if-Whenever, cases-Whenever, sym, ◌∙◌, arith,
}
use node_fast.Base.Map.{lookup, has_own_property}
use node_fast.Json.{Items, is_object}
use node_fast.Subr.IdAllocator
use node_fast.Protocol.{Message, status_data, status_end, status_error}
use node_fast.Protocol.Decoder.WellFormed.{IsWellFormed}
use node_fast.Server.State.{
  Request, Connection, Server, put_request, new_request, unexpected_end, duplicate_msgid,
}
use node_fast.Server.Messages.{
  register, start_call, start_request, dispatch, on_message, call_of, bad_data, bad_method,
}
use node_fast.Server.Api.{
  Event, connection, connection_end, connection_error, incoming, handler_writes, handler_ends,
  handler_fails, call_register, call_conns_destroyed, call_close, handle, create,
}
use node_fast.Server.Invariant.Handle.{Allowed, Reaches, created, after}
use node_fast.Server.Invariant.Updates.{update_cases}
use node_fast.Server.Proper.{InRange, IsProper, put_request-IsProper, put_connection-IsProper}
use node_fast.Server.Proper.Lives.{
  conn_terminate-IsProper, conn_create-IsProper, on_connection_end-IsProper,
  on_connection_error-IsProper, on_conns_destroyed-IsProper, close-IsProper,
  register_rpc_method-IsProper,
}
use node_fast.Server.Proper.Answers.{
  request_fail-IsProper, context_write-IsProper, context_end-IsProper,
}

module _ {n : ℕ} where
  register-IsProper :
      (c : ℕ) (m : Message) (s : Server)
      → IsProper n s
      → IsWellFormed m
      → IsProper n (register c m s)
  register-IsProper c m s p good = (
    λ i made.
        update_cases (λ j x. j < suc s.nrequests → InRange x) s.requests s.nrequests
          (new_request c m) i (λ _ _. (good.msgid_ok, good.version_ok))
          (λ ne there. p.0 i (omega (arith, ne, there))) made,
    (put_connection-IsProper c _ s p refl refl).1,
    p.2,
  )

  start_call-IsProper :
      (uts id : ℕ) (m : Message) (name : String) (args : Items) (s : Server)
      → IsProper n s
      → id < s.nrequests
      → Whenever (IsProper n) (start_call uts id m (name, args) s)
  start_call-IsProper uts id m name args s p made =
      let q = record (s.requests id) { rpcmethod = some name; rpcargs = args } in
      let u = put_request id q s in
      let named : IsProper n u = put_request-IsProper id q s p refl refl in
      cases-Whenever (IsProper n) (s.handlers name) _ _
        (λ _. request_fail-IsProper uts id (bad_method name m) u named made)
        (λ f _. put_request-IsProper id _ u named refl refl)

  start_request-IsProper :
      (uts connid c : ℕ) (m : Message) (s : Server)
      → IsProper n s
      → IsWellFormed m
      → Whenever (IsProper n) (start_request uts connid c m s)
  unfolding start_request
  start_request-IsProper uts connid c m s p good =
      let t = register c m s in
      let q = register-IsProper c m s p good in
      assert-Whenever (IsProper n) (is_object m.payload) _ (
        cases-Whenever (IsProper n) (call_of m.payload) _ _
          (λ _. request_fail-IsProper uts s.nrequests (bad_data connid m) t q (omega arith))
          (λ call _. start_call-IsProper uts s.nrequests m call.0 call.1 t q (omega arith)))

  dispatch-IsProper :
      (uts connid c : ℕ) (m : Message) (s : Server)
      → IsProper n s
      → IsWellFormed m
      → Whenever (IsProper n) (dispatch uts connid c m s)
  unfolding dispatch
  dispatch-IsProper uts connid c m s p good =
      if-Whenever (IsProper n) (m.status == status_end) _ _
        (conn_terminate-IsProper c unexpected_end s p)
        (if-Whenever (IsProper n) (m.status == status_error) _ _ p (
          assert-Whenever (IsProper n) (m.status == status_data) _ (
            if-Whenever (IsProper n) (has_own_property m.msgid (s.connections c).pending) _ _
              (conn_terminate-IsProper c (duplicate_msgid m.msgid) s p)
              (start_request-IsProper uts connid c m s p good))))

  on_message-IsProper :
      (uts connid : ℕ) (m : Message) (s : Server)
      → IsProper n s
      → IsWellFormed m
      → Whenever (IsProper n) (on_message uts connid m s)
  unfolding on_message
  on_message-IsProper uts connid m s p good = assert-Whenever (IsProper n) (not (connid == 0)) _ (
      cases-Whenever (IsProper n) (lookup connid s.conns) _ _ (λ _. p)
        (λ c _.
          if-Whenever (IsProper n) ((s.connections c).is_ended || (s.connections c).socket_error) _
            _ p (dispatch-IsProper uts connid c m s p good)))

  pub handle-IsProper :
      (event : Event) (s : Server)
      → IsProper n s
      → Allowed event s
      → Whenever (IsProper n) (handle event s)
  unfolding handle
  handle-IsProper (connection sock) s p a = conn_create-IsProper sock s p
  handle-IsProper (connection_end k h) s p a = on_connection_end-IsProper k h s p
  handle-IsProper (connection_error k h) s p a = on_connection_error-IsProper k h s p
  handle-IsProper (incoming uts k m) s p (_, good) = on_message-IsProper uts k m s p good
  handle-IsProper (handler_writes uts id value) s p (made, _) =
      context_write-IsProper uts id value s p made
  handle-IsProper (handler_ends uts id) s p (there, _) = context_end-IsProper uts id s p there
  handle-IsProper (handler_fails uts id e) s p (there, _) = request_fail-IsProper uts id e s p there
  handle-IsProper (call_register name) s p a = register_rpc_method-IsProper name s p
  handle-IsProper (call_conns_destroyed callback) s p a = on_conns_destroyed-IsProper callback s p
  handle-IsProper call_close s p a = close-IsProper s p

create-IsProper :
    (no_connection : Connection) (no_request : Request)
    → Returns (IsProper 0) (create no_connection no_request)
unfolding create IdAllocator.create
create-IsProper no_connection no_request =
    (_, refl, (λ id made. absurd (omega arith), λ h made. absurd (omega arith), omega arith))

pub Reaches-IsProper : (s : Server) → Reaches s → IsProper 0 s
Reaches-IsProper s (created no_connection no_request _ e) =
    let (t, f, p) = create-IsProper no_connection no_request in
    subst (IsProper 0) (ok_injective (sym f ∙ e)) p
Reaches-IsProper t (after event s _ r a e) =
    subst (Whenever (IsProper 0)) e (handle-IsProper event s (Reaches-IsProper s r) a)
