-- ===== src/Server/Kang.antt =====
-- The queries over kang in lib/fast_server.js. The identifier of an object stands as the list of
-- its parts between `/`; keys that are numbers stand for their texts. Times are left out.
pub mod Found
use node_fast.Base.{
  ℕ, String, Bool, true, false, Option, none, some, List, [], ◌∷◌, ◌++◌, map, length, Outcome, ok,
  throw, assertion, type_error, ◌>>=◌, ◌==◌,
}
use node_fast.Base.Map.{Map, lookup, keys}
use node_fast.Json.{Items}
use node_fast.Subr.SocketAddrs.{Summary}
use node_fast.Server.State.{Request, RequestState, RpcError, ConnFault, Connection, Server}

-- The result of `kangStats`.
pub record Stats : Type 0 where
  pub n_connections_active : ℕ
  pub n_ignored_messages_no_conn : ℕ
  pub n_ignored_messages_bad_conn : ℕ
  pub n_ignored_messages_aborts : ℕ
  pub n_connections_created : ℕ
  pub n_requests_started : ℕ
  pub n_requests_completed : ℕ
  pub n_requests_failed : ℕ

-- `kangStats`
unfoldable pub kang_stats : Server → Stats
kang_stats s = record {
  n_connections_active = length (keys s.conns);
  n_ignored_messages_no_conn = s.nignored_noconn;
  n_ignored_messages_bad_conn = s.nignored_badconn;
  n_ignored_messages_aborts = s.nignored_aborts;
  n_connections_created = s.nconnections_created;
  n_requests_started = s.nrequests_started;
  n_requests_completed = s.nrequests_completed;
  n_requests_failed = s.nrequests_failed;
}

-- The types of objects: 'fastconnection', 'fastrequest', and any other text.
pub data ObjectType : Type 0 where
  fastconnection fastrequest other_type : ObjectType

-- `kangListTypes`
abbrev pub kang_list_types : List ObjectType
kang_list_types = fastconnection ∷ fastrequest ∷ []

-- `cid + '/' + msgid` for each request that is pending.
abbrev pub request_ids : ℕ → Map ℕ → List (List ℕ)
request_ids cid = map (λ e. cid ∷ e.0 ∷ [])

-- The loop over the active connections.
unfoldable pub list_requests : (ℕ → Connection) → Map ℕ → List (List ℕ)
list_requests connections [] = []
list_requests connections ((cid, h) ∷ rest) =
    request_ids cid (connections h).pending ++ list_requests connections rest

-- `kangListObjects`
unfoldable pub kang_list_objects : ObjectType → Server → Outcome (List (List ℕ))
kang_list_objects fastconnection s = ok (map (λ e. e.0 ∷ []) s.conns)
kang_list_objects fastrequest s = ok (list_requests s.connections s.conns)
kang_list_objects other_type s = throw assertion

-- The result of `kangGetObject`.
pub data KangObject : Type 0 where
  connection_object :
      (connid : ℕ) (addrinfo : Summary) (nstarted ncompleted nfailed : ℕ)
      (draining socket_error : Bool) (server_error : Option ConnFault)
      → KangObject
  request_object :
      (connid msgid : ℕ) (rpcmethod : Option String) (rpcargs : Items) (state : RequestState)
      (error : Option RpcError) (blackholed : Bool)
      → KangObject

abbrev pub connection_view : Connection → KangObject
connection_view c =
    connection_object c.connid c.addrinfo c.nstarted c.ncompleted c.nfailed c.draining
      c.socket_error c.server_error

abbrev pub request_view : ℕ → ℕ → Request → KangObject
request_view connid msgid r =
    request_object connid msgid r.rpcmethod r.rpcargs r.state r.error r.blackhole

-- A read of a property of the object that a table has under a key: `undefined` has none.
abbrev pub entry : ℕ → Map ℕ → Outcome ℕ
entry k table = elim (lookup k table) [ none ↦ throw type_error | some j ↦ ok j ]

-- `kangGetObject`
unfoldable pub kang_get_object : ObjectType → List ℕ → Server → Outcome KangObject
kang_get_object fastconnection (cid ∷ []) s = do
  h ← entry cid s.conns
  ok (connection_view (s.connections h))
kang_get_object fastconnection _ s = throw type_error
kang_get_object fastrequest (cid ∷ msgid ∷ []) s = do
  h ← entry cid s.conns
  id ← entry msgid (s.connections h).pending
  ok (request_view cid msgid (s.requests id))
kang_get_object fastrequest _ s = throw assertion
kang_get_object other_type id s = throw assertion
