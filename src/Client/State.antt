-- ===== src/Client/State.antt =====
-- The state of a `FastClient` of lib/fast_client.js. Requests are shared objects: the caller's
-- handle, the tables and the timers name one request by the place that it has in `heap`.
use node_fast.Base.{
  ℕ, Bool, false, Option, none, some, List, [], ◌==◌, if◌then◌else◌, Outcome, ok, ◌>>=◌,
}
use node_fast.Base.Map.{Map}
use node_fast.Json.{Json}
use node_fast.Protocol.{Message, msgid_max, version_current}
use node_fast.Subr.IdAllocator.{IdAllocator}
use node_fast.Subr.IdAllocator
use node_fast.Client.Request.{Request, Cause}
use node_fast.Client.Request

-- The `fc_` fields. `nrequests` counts the request objects made so far. `outgoing` is what was
-- written to the message encoder, `immediates` the requests whose `error` event waits in the
-- queue of `setImmediate`, and `emitted` the client's own `error` events; all oldest first.
pub record Client : Type 0 where
  pub heap : ℕ → Request
  pub nrequests : ℕ
  pub version : ℕ
  pub nrecent : ℕ
  pub pending : Map ℕ
  pub abandoned : Map ℕ
  pub nrpc_started : ℕ
  pub nrpc_done : ℕ
  pub recentrpc : List ℕ
  pub error : Option Cause
  pub nerrors : ℕ
  pub rqidalloc : IdAllocator
  pub detached : Bool
  pub transport_ended : Bool
  pub outgoing : List Message
  pub immediates : List ℕ
  pub emitted : List Cause

-- `args.version || FP_VERSION_CURRENT`
abbrev chosen_version : Option ℕ → ℕ
chosen_version none = version_current
chosen_version (some v) = if v == 0 then version_current else v

-- `new FastClient(args)`
unfoldable pub create : Option ℕ → ℕ → Outcome Client
unfolding IdAllocator.create
create version nrecent = do
  alloc ← IdAllocator.create 1 msgid_max
  ok (record {
    heap = λ _. Request.create 0 "" Json.null false;
    nrequests = 0;
    version = chosen_version version;
    nrecent = nrecent;
    pending = [];
    abandoned = [];
    nrpc_started = 0;
    nrpc_done = 0;
    recentrpc = [];
    error = none;
    nerrors = 0;
    rqidalloc = alloc;
    detached = false;
    transport_ended = false;
    outgoing = [];
    immediates = [];
    emitted = [];
  })

abbrev pub update : (ℕ → Request) → ℕ → Request → ℕ → Request
update heap id r j = if j == id then r else heap j

-- A write to the object with handle `id`.
abbrev pub put : ℕ → Request → Client → Client
put id r s = record s { heap = update s.heap id r }
