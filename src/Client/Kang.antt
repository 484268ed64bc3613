-- ===== src/Client/Kang.antt =====
-- The queries over kang in lib/fast_client.js. The client's own identifier is a number; keys stand
-- for their texts.
use node_fast.Base.{
  ℕ, String, Bool, Option, none, some, List, [], ◌∷◌, ◌++◌, ◌==◌, Outcome, ok, throw, assertion,
  type_error, assert, ◌>>=◌, ◌>>◌,
}
use node_fast.Base.Map.{lookup, keys}
use node_fast.Client.Request.{Cause, Request}
use node_fast.Client.State.{Client}

-- The types of objects: 'fastclient', 'fastrequest', and any other text.
pub data ObjectType : Type 0 where
  fastclient fastrequest other_type : ObjectType

-- `kangListTypes`
abbrev pub kang_list_types : List ObjectType
kang_list_types = fastclient ∷ fastrequest ∷ []

-- `kangListObjects`, for the client with identifier `dtid`
unfoldable pub kang_list_objects : ObjectType → ℕ → Client → Outcome (List ℕ)
kang_list_objects fastclient dtid s = ok (dtid ∷ [])
kang_list_objects fastrequest dtid s = ok (keys s.pending ++ keys s.abandoned)
kang_list_objects other_type dtid s = throw assertion

-- The result of `kangGetObject`.
pub data KangObject : Type 0 where
  client_object :
      (id nrpc_started nrpc_done nerrors : ℕ) (error : Option Cause)
      (detached transport_ended : Bool)
      → KangObject
  request_object :
      (client_id msgid : ℕ) (skipped : Bool) (rpcmethod : String)
      (ndata_emitted nmessages_ignored : ℕ) (error : Option Cause)
      (abandoned done_graceful has_timeout : Bool)
      → KangObject

abbrev pub request_view : ℕ → ℕ → Request → KangObject
request_view dtid id r =
    request_object dtid id r.skip r.rpcmethod r.ndata r.nignored r.error r.abandoned r.done_graceful
      r.timeout

-- The request that either table has: the pending one goes first, and `undefined` has no properties.
abbrev pub find_request : ℕ → Client → Outcome ℕ
find_request id s = elim (lookup id s.pending) [
  | some j ↦ ok j
  | none ↦ elim (lookup id s.abandoned) [ some j ↦ ok j | none ↦ throw type_error ]
]

-- `kangGetObject`
unfoldable pub kang_get_object : ObjectType → ℕ → ℕ → Client → Outcome KangObject
kang_get_object fastclient id dtid s = do
  assert (id == dtid)
  ok (client_object id s.nrpc_started s.nrpc_done s.nerrors s.error s.detached s.transport_ended)
kang_get_object fastrequest id dtid s = do
  j ← find_request id s
  ok (request_view dtid id (s.heap j))
kang_get_object other_type id dtid s = throw assertion
