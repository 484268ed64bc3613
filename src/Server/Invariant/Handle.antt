-- ===== src/Server/Invariant/Handle.antt =====
-- The server of lib/fast_server.js: no event that may come makes it throw.
use node_fast.Base.{
  ℕ, ◌+◌, ◌<◌, ◌≡◌, refl, sym, ◌∙◌, subst, inl, inr, true, false, none, some, length, arith, ok, [],
  ◌∷◌, ◌⊎◌, Returns, ok_injective,
}
use node_fast.Base.Map.{Map, lookup, lookup-empty}
use node_fast.Json.{is_object}
use node_fast.Protocol.Decoder.WellFormed.{IsWellFormed}
use node_fast.Subr.IdAllocator
use node_fast.Server.State.{Request, Connection, Server, max_connid}
use node_fast.Server.Response.{is_running}
use node_fast.Server.Invariant.{IsConsistent}
use node_fast.Server.Invariant.Updates.{counters-IsConsistent}
use node_fast.Server.Invariant.Requests.{request_fail-IsConsistent}
use node_fast.Server.Invariant.Steps.{on_message-IsConsistent}
use node_fast.Server.Invariant.Connections.{
  on_connection_end-IsConsistent, on_connection_error-IsConsistent, on_conns_destroyed-IsConsistent,
  close-IsConsistent,
}
use node_fast.Server.Invariant.Accepting.{conn_create-IsConsistent}
use node_fast.Server.Api
use node_fast.Server.Api.{
  sink, context_write, context_end, register_rpc_method, Event, connection, connection_end,
  connection_error, incoming, handler_writes, handler_ends, handler_fails, call_register,
  call_conns_destroyed, call_close, handle,
}
use node_fast.Server.Invariant.Contexts.{context_write-IsConsistent, context_end-IsConsistent}

-- What the environment owes the server: the listening socket is closed before the server is, and
-- a connection identifier is free; the events of a socket come while its connection is active, its
-- error once; messages come from decoders; a handler writes objects only, and either ends its
-- context or fails, once; and no method is registered twice.
abbrev pub Allowed : Event → Server → Type 0
Allowed (connection sock) s = (s.is_closed ≡ false) × (length s.conns < max_connid)
Allowed (connection_end k h) s = lookup k s.conns ≡ some h
Allowed (connection_error k h) s =
    (lookup k s.conns ≡ some h) × ((s.connections h).socket_error ≡ false)
Allowed (incoming uts k m) s = (0 < k) × IsWellFormed m
Allowed (handler_writes uts id value) s = (id < s.nrequests) × (is_object value ≡ true)
Allowed (handler_ends uts id) s = (id < s.nrequests) × (is_running (s.requests id).state ≡ true)
Allowed (handler_fails uts id e) s = (id < s.nrequests) × (is_running (s.requests id).state ≡ true)
Allowed (call_register name) s = s.handlers name ≡ none
Allowed _ s = Unit

-- An event that may come makes no check of lib/fast_server.js fail on a valid server, and leaves it
-- valid: a connection while the server is open and an identifier is free, the end of an active
-- connection or its first error, a well-formed message, an object that the handler of a request
-- writes, the end or the failure of a request that is running, a method that is not registered
-- yet, and `close` and `onConnsDestroyed` at any time.
pub handle-IsConsistent :
    (event : Event) (s : Server)
    → IsConsistent s
    → Allowed event s
    → Returns IsConsistent (handle event s)
unfolding handle register_rpc_method
handle-IsConsistent (connection sock) s v (going, room) =
    conn_create-IsConsistent sock s v going room
handle-IsConsistent (connection_end k h) s v a = on_connection_end-IsConsistent k h s v a
handle-IsConsistent (connection_error k h) s v (a, clean) =
    on_connection_error-IsConsistent k h s v a clean
handle-IsConsistent (incoming uts k m) s v (positive, good) =
    on_message-IsConsistent uts k m s v positive good
handle-IsConsistent (handler_writes uts id value) s v (made, good) =
    context_write-IsConsistent uts id value s v good
handle-IsConsistent (handler_ends uts id) s v (made, runs) =
    context_end-IsConsistent uts id s v made runs
handle-IsConsistent (handler_fails uts id e) s v (made, runs) =
    request_fail-IsConsistent uts s id e v made runs
handle-IsConsistent (call_register name) s v a =
    rw a (_, refl, counters-IsConsistent s v _ _ _ _ _ _ _ _ _ _ _ _)
handle-IsConsistent (call_conns_destroyed callback) s v a =
    (_, refl, on_conns_destroyed-IsConsistent callback s v)
handle-IsConsistent call_close s v a = close-IsConsistent s v

-- A server that was just created is valid.
pub create-IsConsistent :
    (no_connection : Connection) (no_request : Request)
    → Returns IsConsistent (Api.create no_connection no_request)
unfolding Api.create IdAllocator.create
create-IsConsistent no_connection no_request = (
  _,
  refl,
  record {
    alloc_ok = record { ordered = omega arith; from_min = omega arith; to_max = omega arith };
    alloc_min = refl;
    alloc_max = refl;
    conns_sorted = tt;
    conns_entry = λ k h e. absurd (cc (e, lookup-empty k));
    connection = λ h there. absurd (omega arith);
    running = λ id there. absurd (omega arith);
  },
)

-- The servers that calls and events lead to.
pub data Reaches : Server → Type 0 where
  created :
      (no_connection : Connection) (no_request : Request) (s : Server)
      → Api.create no_connection no_request ≡ ok s
      → Reaches s
  after :
      (event : Event) (s t : Server)
      → Reaches s
      → Allowed event s
      → handle event s ≡ ok t
      → Reaches t

pub Reaches-IsConsistent : (s : Server) → Reaches s → IsConsistent s
Reaches-IsConsistent s (created no_connection no_request _ e) =
    let (t, f, v) = create-IsConsistent no_connection no_request in
    subst IsConsistent (ok_injective (sym f ∙ e)) v
Reaches-IsConsistent t (after event s _ r a e) =
    let (u, f, v) = handle-IsConsistent event s (Reaches-IsConsistent s r) a in
    subst IsConsistent (ok_injective (sym f ∙ e)) v

-- Every connection that a server in use has made has started as many requests as it has completed
-- and has pending. It is still in the table of active connections, or it has completed all its
-- requests.
pub Reaches-connection :
    (s : Server) (h : ℕ)
    → Reaches s
    → h < s.nconnections
    → ((s.connections h).nstarted ≡ (s.connections h).ncompleted + length (s.connections h).pending)
      × ((lookup (s.connections h).connid s.conns ≡ some h)
          ⊎ ((s.connections h).nstarted ≡ (s.connections h).ncompleted))
Reaches-connection s h r made =
    let c = (Reaches-IsConsistent s r).connection h made in
    (c.counted, waits (s.connections h).pending c.counted c.active)
  where
    waits :
        (p : Map ℕ)
        → (s.connections h).nstarted ≡ (s.connections h).ncompleted + length p
        → (0 < length p → lookup (s.connections h).connid s.conns ≡ some h)
        → (lookup (s.connections h).connid s.conns ≡ some h)
          ⊎ ((s.connections h).nstarted ≡ (s.connections h).ncompleted)
    waits [] even act = inr (omega arith)
    waits (_ ∷ p) even act = inl (act (omega arith))
