-- ===== src/Client/Completion.antt =====
-- The end of a request in lib/fast_client.js: `requestComplete`, `requestFail`,
-- `requestAbandon`, `requestAbandonAll` and `fatalError`. Log lines, DTrace probes and metrics
-- are left out.
use node_fast.Base.{
  ℕ, ◌+◌, Bool, true, false, not, none, some, List, [], ◌∷◌, ◌++◌, ◌==◌, ltb, if◌then◌else◌,
  is_none, length, Outcome, ok, assert, ◌>>=◌, ◌>>◌,
}
use node_fast.Base.Map.{Map, lookup, has_own_property, insert, erase, keys}
use node_fast.Client.Request.{Cause, is_pending}
use node_fast.Client.State.{Client, put}

-- `table[msgid] == request`
abbrev pub holds : ℕ → ℕ → Map ℕ → Bool
holds msgid id table = elim (lookup msgid table) [ none ↦ false | some j ↦ j == id ]

-- `fc_recentrpc.push(request)`, and the oldest is dropped when there are too many.
abbrev drop_oldest : List ℕ → List ℕ
drop_oldest [] = []
drop_oldest (_ ∷ rest) = rest

abbrev pub push_recent : ℕ → ℕ → List ℕ → List ℕ
push_recent nrecent id recent =
    let pushed = recent ++ id ∷ [] in
    if ltb nrecent (length pushed) then drop_oldest pushed else pushed

unfoldable pub request_complete : ℕ → Client → Outcome Client
request_complete id s = do
  let r = record (s.heap id) { timeout = false }
  assert (not (is_pending r))
  assert (holds r.msgid id s.pending)
  ok (record (put id r s) {
    pending = erase r.msgid s.pending;
    nrpc_done = s.nrpc_done + 1;
    recentrpc = push_recent s.nrecent id s.recentrpc;
  })

-- The `error` event is deferred by `setImmediate`.
unfoldable pub request_fail : ℕ → Cause → Client → Outcome Client
request_fail id cause s = do
  assert (is_none (s.heap id).error)
  t ← request_complete id (put id (record (s.heap id) { error = some cause }) s)
  ok (record t { immediates = t.immediates ++ id ∷ [] })

unfoldable pub request_abandon : ℕ → Cause → Client → Outcome Client
request_abandon id cause s = elim (is_pending (s.heap id)) [
  | false ↦ ok s
  | true ↦ do
    assert (holds (s.heap id).msgid id s.pending)
    request_fail id cause (record (put id (record (s.heap id) { abandoned = true }) s) {
      abandoned = insert (s.heap id).msgid id s.abandoned;
    })
]

-- One round of the `for ... in` loop. A property that is gone by then is not visited.
unfoldable pub abandon_property : ℕ → Cause → Client → Outcome Client
abandon_property msgid cause s = elim (lookup msgid s.pending) [
  | none ↦ ok s
  | some id ↦ do
    assert (is_pending (s.heap id))
    t ← request_abandon id cause s
    assert (not (has_own_property msgid t.pending))
    ok t
]

unfoldable pub abandon_properties : List ℕ → Cause → Client → Outcome Client
abandon_properties [] cause s = ok s
abandon_properties (msgid ∷ rest) cause s = do
  t ← abandon_property msgid cause s
  abandon_properties rest cause t

unfoldable pub request_abandon_all : Cause → Client → Outcome Client
request_abandon_all cause s = abandon_properties (keys s.pending) cause s

-- The first error is emitted and ends all requests; later ones are only counted.
unfoldable pub fatal_error : Cause → Client → Outcome Client
fatal_error cause s = elim s.error [
  | some _ ↦ ok (record s { nerrors = s.nerrors + 1 })
  | none ↦
      request_abandon_all cause (record s {
        nerrors = s.nerrors + 1;
        error = some cause;
        emitted = s.emitted ++ cause ∷ [];
      })
]
