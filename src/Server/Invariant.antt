-- ===== src/Server/Invariant.antt =====
-- The invariant of the server of lib/fast_server.js, between two events.
pub mod Updates
pub mod Ending
pub mod Draining
pub mod Settling
pub mod Requests
pub mod Registration
pub mod Starting
pub mod Steps
pub mod Accepting
pub mod Connections
pub mod Contexts
pub mod Handle
use node_fast.Base.{
  ℕ, ◌+◌, ◌<◌, ◌≤◌, ◌≡◌, Bool, true, false, not, ◌&&◌, Option, none, some, is_none, length,
}
use node_fast.Base.Map.{lookup, Sorted}
use node_fast.Subr.IdAllocator
use node_fast.Server.State.{Request, Connection, Server, max_connid}
use node_fast.Server.Response.{is_running}

-- The server has not begun to tear the connection down.
abbrev pub is_sound : Connection → Bool
is_sound c = is_none c.server_error && not c.socket_error

-- What an entry of a connection's pending table says of the request that it names.
pub record IsEntry (n h k id : ℕ) (sound : Bool) (r : Request) : Type 0 where
  pub made : id < n
  pub msgid_eq : r.msgid ≡ k
  pub conn_eq : r.conn ≡ h
  pub runs : is_running r.state ≡ true
  pub clean : is_none r.error ≡ true
  pub piped : sound ≡ true → r.blackhole ≡ false

-- One connection object, given the entry of its identifier among the active ones.
pub record IsConnection (n h : ℕ) (requests : ℕ → Request) (c : Connection) (entry : Option ℕ)
    : Type 0 where
  pub pending_sorted : Sorted c.pending
  pub counted : c.nstarted ≡ c.ncompleted + length c.pending
  pub active : 0 < length c.pending → entry ≡ some h
  pub entries :
      (k id : ℕ) → lookup k c.pending ≡ some id → IsEntry n h k id (is_sound c) (requests id)

-- A request that is running belongs to a connection, which has it in its table.
pub record IsHeld (nconns id : ℕ) (connections : ℕ → Connection) (r : Request) : Type 0 where
  pub conn_made : r.conn < nconns
  pub held : lookup r.msgid (connections r.conn).pending ≡ some id

pub record IsConsistent (s : Server) : Type 0 where
  pub alloc_ok : IdAllocator.IsValid s.connallocator
  pub alloc_min : s.connallocator.min ≡ 1
  pub alloc_max : s.connallocator.max ≡ max_connid
  pub conns_sorted : Sorted s.conns
  pub conns_entry :
      (k h : ℕ) → lookup k s.conns ≡ some h → (h < s.nconnections) × ((s.connections h).connid ≡ k)
  pub connection :
      (h : ℕ)
      → h < s.nconnections
      → IsConnection s.nrequests h s.requests
          (s.connections h)
          (lookup (s.connections h).connid s.conns)
  pub running :
      (id : ℕ)
      → id < s.nrequests
      → is_running (s.requests id).state ≡ true
      → IsHeld s.nconnections id s.connections (s.requests id)
