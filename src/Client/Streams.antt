-- ===== src/Client/Streams.antt =====
-- What the callers of lib/fast_client.js can rely on: the event stream of every request, over the
-- whole life of a client.
use node_fast.Base.{
  ℕ, zero, suc, ◌≤◌, ◌<◌, ◌≡◌, refl, ap, ◌∙◌, ◌⊎◌, inl, inr, true, false, Bool-cases, none, List,
  [], ◌∷◌, ltb, if◌then◌else◌, length, arith, ok, Returns,
}
use node_fast.Base.Map.{lookup, lookup-empty}
use node_fast.Client.Request.{
  Request, Cause, client_detached, unexpected_end, is_pending, open_, closed, stream_state,
}
use node_fast.Client.State.{Client}
use node_fast.Client.Completion.{fatal_error}
use node_fast.Client.Api.{detach, on_transport_end, run_first, run_immediate}
use node_fast.Client.Invariant.{count}
use node_fast.Client.Invariant.Shutdown.{
  flags-IsValid, IsIdle, request_abandon_all-IsIdle, first_error, fatal_error-first,
}
use node_fast.Client.Invariant.Handle.{Reaches, Reaches-IsValid, run_immediate-IsValid}

-- In a client that calls and events have led to, a request that is pending has an open stream.
-- The stream of any other request is closed, by exactly one `end` or `error`, or its error waits
-- in the queue exactly once. Nothing was emitted after an `end` or `error`.
pub Reaches-stream :
    (s : Client) (id : ℕ)
    → Reaches s
    → id < s.nrequests
    → (stream_state (s.heap id).events ≡ open_)
        × ((is_pending (s.heap id) ≡ true) × (count id s.immediates ≡ 0)
            ⊎ (is_pending (s.heap id) ≡ false) × (count id s.immediates ≡ 1))
      ⊎ (stream_state (s.heap id).events ≡ closed)
        × (is_pending (s.heap id) ≡ false)
        × (count id s.immediates ≡ 0)
Reaches-stream s id r made =
    let f = (Reaches-IsValid s r).fits id made in
    elim (Bool-cases (is_pending (s.heap id))) [
      | inl p ↦ let (opened, unqueued) = f.running p in inl (opened, inl (p, unqueued))
      | inr over ↦ elim (f.finishing over) [
        | inl (opened, once, _) ↦ inl (opened, inr (over, once))
        | inr (shut, unqueued) ↦ inr (shut, over, unqueued)
      ]
    ]

-- The queue of `setImmediate` runs until it is empty.
abbrev pub drain : ℕ → Client → Client
drain zero s = s
drain (suc n) s = drain n (run_immediate s)

run_immediate-rest :
    (s : Client) (n : ℕ) → length s.immediates ≡ suc n → length (run_immediate s).immediates ≡ n
unfolding run_immediate
run_immediate-rest s n e = rest s.immediates e
  where
    rest : (queue : List ℕ) → length queue ≡ suc n → length (run_first queue s).immediates ≡ n
    rest [] h = absurd (omega (arith, h))
    rest (_ ∷ more_ids) h = omega (arith, h)

run_immediate-pending : (s : Client) → (run_immediate s).pending ≡ s.pending
unfolding run_immediate
run_immediate-pending s = same s.immediates
  where
    same : (queue : List ℕ) → (run_first queue s).pending ≡ s.pending
    same [] = refl
    same (_ ∷ _) = refl

-- Once the queue has run, nothing is queued, and no request has come or gone.
drain-empty :
    (n : ℕ) (s : Client)
    → IsIdle s
    → length s.immediates ≡ n
    → IsIdle (drain n s) × ((drain n s).immediates ≡ [])
drain-empty zero s idle e = (idle, length-zero s.immediates e)
  where
    length-zero : (xs : List ℕ) → length xs ≡ 0 → xs ≡ []
    length-zero [] h = refl
    length-zero (_ ∷ _) h = absurd (omega (arith, h))
drain-empty (suc n) s (v, none_left) e =
    drain-empty n (run_immediate s) (run_immediate-IsValid s v, run_immediate-pending s ∙ none_left)
      (run_immediate-rest s n e)

-- No request is pending and none has an error that waits: every stream is closed.
settled-closed :
    (s : Client) (id : ℕ)
    → IsIdle s
    → s.immediates ≡ []
    → id < s.nrequests
    → stream_state (s.heap id).events ≡ closed
settled-closed s id (v, none_left) quiet made =
    let f = v.fits id made in
    let unowned : lookup (s.heap id).msgid s.pending ≡ none =
      ap (lookup (s.heap id).msgid) none_left ∙ lookup-empty (s.heap id).msgid in
    let unqueued : count id s.immediates ≡ 0 = ap (count id) quiet in
    ground (arith, f.registered, f.finishing)

-- The streams of the requests made so far have all ended.
abbrev pub AllClosed : ℕ → (ℕ → Request) → Type 0
AllClosed zero heap = Unit {0}
AllClosed (suc n) heap = AllClosed n heap × (stream_state (heap n).events ≡ closed)

settled-AllClosed :
    (n : ℕ) (s : Client) → IsIdle s → s.immediates ≡ [] → n ≤ s.nrequests → AllClosed n s.heap
settled-AllClosed zero s idle quiet h = tt
settled-AllClosed (suc n) s idle quiet h =
    (settled-AllClosed n s idle quiet (omega arith), settled-closed s n idle quiet (omega arith))

-- What shutting down has done: no request is pending, and once the queue of `setImmediate` has
-- run, the stream of every request is closed.
abbrev pub IsSettled : Client → Type 0
IsSettled t =
    let u = drain (length t.immediates) t in (t.pending ≡ []) × AllClosed u.nrequests u.heap

idle-IsSettled : (t : Client) → IsIdle t → IsSettled t
idle-IsSettled t idle =
    let (left, quiet) = drain-empty (length t.immediates) t idle refl in
    (idle.1, settled-AllClosed _ _ left quiet (omega arith))

-- The first `detach` returns on a client that is in use, and ends every request: none is pending,
-- and once the queue of `setImmediate` has run, the stream of every request has ended.
pub detach-IsSettled : (s : Client) → Reaches s → s.detached ≡ false → Returns IsSettled (detach s)
unfolding detach
detach-IsSettled s r e =
    let v = Reaches-IsValid s r in
    let (t, f, idle) =
      request_abandon_all-IsIdle (record s { detached = true }) client_detached
        (flags-IsValid s v _ _ _ _ _ _) in
    (t, ground arith, idle-IsSettled t idle)

-- The first fatal error of a client that is in use ends every request: the call returns, none is
-- pending, and once the queue of `setImmediate` has run, the stream of every request has ended.
pub fatal_error-IsSettled :
    (s : Client) (cause : Cause)
    → Reaches s
    → s.error ≡ none
    → Returns IsSettled (fatal_error cause s)
fatal_error-IsSettled s cause r e =
    let v = Reaches-IsValid s r in
    let (t, f, idle) =
      request_abandon_all-IsIdle (first_error cause s) cause (flags-IsValid s v _ _ _ _ _ _) in
    (t, fatal_error-first s cause e ∙ f, idle-IsSettled t idle)

-- The end of the server's stream is an error exactly when a request is pending, on any client
-- that is in use; otherwise it is only noted.
pub on_transport_end-pending :
    (s : Client)
    → Reaches s
    → on_transport_end s ≡ (
        if ltb 0 (length s.pending)
        then fatal_error unexpected_end (record s { transport_ended = true })
        else ok (record s { transport_ended = true }))
unfolding on_transport_end
on_transport_end-pending s r =
    let v = Reaches-IsValid s r in
    let same : ltb s.nrpc_done s.nrpc_started ≡ ltb 0 (length s.pending) =
      ground (arith, v.counted) in
    rw same refl
