-- ===== src/Server/Effects/Acting.antt =====
-- Every step of lib/fast_server.js but the reading of a message on the connection itself, as it
-- changes one connection.
use node_fast.Base.{ℕ, ◌≡◌, ◌≢◌, subst, ok, Outcome, Whenever, Whenever-mono}
use node_fast.Server.State.{Server}
use node_fast.Server.Api.{
  Event, connection, connection_end, connection_error, incoming, handler_writes, handler_ends,
  handler_fails, call_register, call_conns_destroyed, call_close, handle, on_conns_destroyed,
}
use node_fast.Server.Invariant.{IsConsistent}
use node_fast.Server.Invariant.Handle.{Allowed}
use node_fast.Server.Effects.Still.{
  Still, on_connection_end-Still, on_connection_error-Still, on_conns_destroyed-Still, close-Still,
  register-Still,
}
use node_fast.Server.Effects.Answering.{no_credit, Affects, context_write-Affects}
use node_fast.Server.Effects.Ending.{context_end-Affects, request_fail-Affects}
use node_fast.Server.Effects.Starting.{Still-Affects, other_message-Affects, conn_create-Affects}

-- A new connection is another one, and a message comes on another one.
abbrev pub Elsewhere : ℕ → Event → Server → Type 0
Elsewhere h (connection sock) s = h ≢ s.nconnections
Elsewhere h (incoming uts connid m) s = connid ≢ (s.connections h).connid
Elsewhere h _ s = Unit

pub acting-Affects :
    (h : ℕ) (event : Event) (s t : Server)
    → IsConsistent s
    → Allowed event s
    → Elsewhere h event s
    → handle event s ≡ ok t
    → Affects no_credit h s t
unfolding handle
acting-Affects h event s t v a other e =
    subst (Whenever (Affects no_credit h s)) e (acts event a other)
  where
    still : (m : Outcome Server) → Whenever (Still s) m → Whenever (Affects no_credit h s) m
    still m q = Whenever-mono (Still s) (Affects no_credit h s) m q (Still-Affects no_credit h s)

    acts :
        (event : Event)
        → Allowed event s
        → Elsewhere h event s
        → Whenever (Affects no_credit h s) (handle event s)
    acts (connection sock) b o = conn_create-Affects sock h s o
    acts (connection_end k c) b o = still _ (on_connection_end-Still k c s)
    acts (connection_error k c) b o = still _ (on_connection_error-Still k c s)
    acts (incoming uts k m) b o = other_message-Affects uts k h m s v o
    acts (handler_writes uts id value) (made, _) o = context_write-Affects uts id h value s v made
    acts (handler_ends uts id) (there, runs) o = context_end-Affects uts id h s v there runs
    acts (handler_fails uts id x) (there, runs) o = request_fail-Affects uts id h x s v there runs
    acts (call_register name) b o = still _ (register-Still name s)
    acts (call_conns_destroyed callback) b o =
        still (ok (on_conns_destroyed callback s)) (on_conns_destroyed-Still callback s)
    acts call_close b o = still _ (close-Still s)
