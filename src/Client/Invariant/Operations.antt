-- ===== src/Client/Invariant/Operations.antt =====
-- The operations that end requests in lib/fast_client.js never throw on a valid client, and keep
-- it valid.
use mathlib.Core.Path.{fun_ext}
use node_fast.Base.{
  ℕ, ◌+◌, ◌<◌, ◌≡◌, refl, ap, ◌∙◌, ◌≢◌, inl, inr, true, false, Bool-cases, none, some, [], ◌∷◌,
  ◌++◌, is_some, is_none, arith, ok, Returns,
}
use node_fast.Base.Map.{lookup, insert, erase, lookup-insert, insert-Sorted}
use node_fast.Client.Request.{Request, Cause, is_pending, stream_state}
use node_fast.Client.State.{Client, update, put}
use node_fast.Client.Completion.{
  holds, push_recent, request_complete, request_fail, request_abandon,
}
use node_fast.Client.Invariant.{count, count-append, Fits, IsValid}
use node_fast.Client.Invariant.Updates.{finish, finish-IsValid}

pub update_self : (heap : ℕ → Request) (id : ℕ) (r : Request) → update heap id r id ≡ r
update_self heap id r = ground arith

pub update-update :
    (heap : ℕ → Request) (id : ℕ) (q r : Request)
    → update (update heap id q) id r ≡ update heap id r
update-update heap id q r = fun_ext λ j. ground arith

pub request_complete-put :
    (id : ℕ) (r : Request) (s : Client)
    → is_pending r ≡ false
    → holds r.msgid id s.pending ≡ true
    → request_complete id (put id r s)
      ≡ ok (record (put id (record r { timeout = false }) s) {
        pending = erase r.msgid s.pending;
        nrpc_done = s.nrpc_done + 1;
        recentrpc = push_recent s.nrecent id s.recentrpc;
      })
unfolding request_complete
request_complete-put id r s over own =
    simp (update_self s.heap id r, update-update s.heap id r, over, own)

abbrev failed_request : Cause → Request → Request
failed_request cause r = record r { error = some cause; timeout = false }

pub request_fail-put :
    (id : ℕ) (cause : Cause) (r : Request) (s : Client)
    → is_none r.error ≡ true
    → holds r.msgid id s.pending ≡ true
    → request_fail id cause (put id r s)
      ≡ ok (record (put id (failed_request cause r) s) {
        pending = erase r.msgid s.pending;
        nrpc_done = s.nrpc_done + 1;
        recentrpc = push_recent s.nrecent id s.recentrpc;
        immediates = s.immediates ++ id ∷ [];
      })
unfolding request_fail
request_fail-put id cause r s clean own = simp (
  update_self s.heap id r,
  update-update s.heap id r,
  clean,
  request_complete-put id (record r { error = some cause }) s (ground arith) own,
)

abbrev abandoned_request : Cause → Request → Request
abandoned_request cause r = record r { abandoned = true; error = some cause; timeout = false }

pub request_abandon-eq :
    (id : ℕ) (cause : Cause) (s : Client)
    → is_pending (s.heap id) ≡ true
    → holds (s.heap id).msgid id s.pending ≡ true
    → request_abandon id cause s
      ≡ ok (
          finish id
            (abandoned_request cause (s.heap id))
            (insert (s.heap id).msgid id s.abandoned)
            (s.immediates ++ id ∷ [])
            s)
unfolding request_abandon
request_abandon-eq id cause s pending own =
    let clean : is_none (s.heap id).error ≡ true = ground arith in
    rw (pending, request_abandon, own)
      (request_fail-put id cause (record (s.heap id) { abandoned = true })
        (record s { abandoned = insert (s.heap id).msgid id s.abandoned }) clean own)

-- What a valid client says of a request that is pending.
pub pending-holds :
    (s : Client) (id : ℕ)
    → IsValid s
    → id < s.nrequests
    → is_pending (s.heap id) ≡ true
    → holds (s.heap id).msgid id s.pending ≡ true
pending-holds s id v made pending = ground (arith, (v.fits id made).registered pending)

-- A failed request fits: its error event is queued once.
pub failed-Fits :
    (s : Client) (id : ℕ) (r : Request)
    → IsValid s
    → id < s.nrequests
    → is_pending (s.heap id) ≡ true
    → is_some r.error ≡ true
    → r.timeout ≡ false
    → r.events ≡ (s.heap id).events
    → (r.abandoned ≡ true → r.done_graceful ≡ false)
    → Fits id r none (count id (s.immediates ++ id ∷ []))
failed-Fits s id r v made pending failed stopped same mark =
    let (opened, unqueued) = (v.fits id made).running pending in
    let n = count-append id id s.immediates in
    record {
      registered = λ p. ground arith;
      running = λ p. absurd (ground arith);
      finishing = λ _. inl (ap stream_state same ∙ opened, ground arith, failed);
      given_up = λ a. (failed, mark a);
      timed = λ t. cc;
    }

-- An entry that was there before is not the one of a request that is pending.
not_abandoned :
    (s : Client) (id k : ℕ)
    → IsValid s
    → id < s.nrequests
    → is_pending (s.heap id) ≡ true
    → lookup k s.abandoned ≢ some id
not_abandoned s id k v made pending e =
    let entry = v.abandoned_entry k id e in
    let (failed, _) = (v.fits id made).given_up entry.marked in ground arith

-- The state after a request that was pending has been abandoned.
abbrev pub abandoned_state : ℕ → Cause → Client → Client
abandoned_state id cause s =
    finish id (abandoned_request cause (s.heap id)) (insert (s.heap id).msgid id s.abandoned)
      (s.immediates ++ id ∷ []) s

pub abandoned_state-IsValid :
    (s : Client) (id : ℕ) (cause : Cause)
    → IsValid s
    → id < s.nrequests
    → is_pending (s.heap id) ≡ true
    → IsValid (abandoned_state id cause s)
abandoned_state-IsValid s id cause v made pending =
    finish-IsValid s id _ _ _ v made pending refl
      (insert-Sorted _ id s.abandoned v.abandoned_sorted)
      (λ k j e. ground (
        arith,
        lookup-insert (s.heap id).msgid k id s.abandoned,
        not_abandoned s id k v made pending,
      ))
      (λ k ne. ground (arith, lookup-insert (s.heap id).msgid k id s.abandoned))
      (λ j ne. ground (arith, count-append j id s.immediates))
      (failed-Fits s id _ v made pending refl refl refl (λ _. ground arith))

-- `requestAbandon` returns, and keeps a valid client valid: it ends the request, or finds it done
-- and changes nothing.
pub request_abandon-IsValid :
    (s : Client) (id : ℕ) (cause : Cause)
    → IsValid s
    → id < s.nrequests
    → Returns IsValid (request_abandon id cause s)
unfolding request_abandon
request_abandon-IsValid s id cause v made = elim (Bool-cases (is_pending (s.heap id))) [
  | inr over ↦ (s, rw (over, request_abandon), v)
  | inl pending ↦ (
    abandoned_state id cause s,
    request_abandon-eq id cause s pending (pending-holds s id v made pending),
    abandoned_state-IsValid s id cause v made pending,
  )
]
