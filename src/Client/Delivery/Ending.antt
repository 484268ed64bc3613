-- ===== src/Client/Delivery/Ending.antt =====
-- The END and ERROR messages of lib/fast_client.js against a description of what they do to
-- their request.
use node_fast.Base.{
  ℕ, ◌+◌, ◌≡◌, refl, sym, ap, ◌∙◌, subst, true, false, some, [], ◌∷◌, ◌++◌, ◌==◌, is_none, arith,
  ok, ok_injective,
}
use node_fast.Base.Map.{lookup, erase}
use node_fast.Json.{get}
use node_fast.Protocol.{Message, status_data, status_end, status_error}
use node_fast.Client.Request.{Request, server_error, is_pending}
use node_fast.Client.State.{Client, update, put}
use node_fast.Client.Completion.{holds, push_recent}
use node_fast.Client.Messages.{deliver_end, deliver_active, error_of, on_message}
use node_fast.Client.Invariant.{IsValid}
use node_fast.Client.Invariant.Updates.{finish}
use node_fast.Client.Invariant.Operations.{
  update_self, update-update, request_fail-put, pending-holds,
}
use node_fast.Client.Invariant.Messages.{
  IsServing, Emits, request_emit_data-Emits, end_request-eq, ended_request, ended_state,
  put-IsServing, note-IsValid,
}
use node_fast.Client.Invariant.Delivery.{noted}
use node_fast.Client.Delivery.Reference.{
  values, delivered, tolerates, noting, serving, put_modify, emit_data-delivered,
  on_message-deliver,
}

noted-IsServing : (id : ℕ) (m : Message) (s : Client) → IsServing id s → IsServing id (noted id m s)
noted-IsServing id m s v = put-IsServing s id _ v (note-IsValid s id v.valid _ _ _ _ _) v.still

delivered-IsServing :
    (id : ℕ) (m : Message) (s : Client)
    → IsServing id s
    → tolerates (s.heap id) (values m) ≡ true
    → IsServing id (put id (delivered (values m) (noting m (s.heap id))) s)
delivered-IsServing id m s v t =
    let (r, e, x) = request_emit_data-Emits id m (noted id m s) (noted-IsServing id m s v) in
    subst (Emits id)
      (ok_injective (sym e ∙ emit_data-delivered id m (noting m (s.heap id)) s v.still t)) x

ended_state-put :
    (id : ℕ) (r : Request) (s : Client)
    → r.msgid ≡ (s.heap id).msgid
    → ended_state id (put id r s) ≡ finish id (ended_request r) s.abandoned s.immediates s
ended_state-put id r s same = simp (update_self s.heap id r, update-update s.heap id r, same)

deliver_end-eq :
    (id : ℕ) (m : Message) (r : Request) (s : Client)
    → is_pending r ≡ true
    → tolerates r (values m) ≡ true
    → IsServing id (put id (delivered (values m) r) s)
    → deliver_end id false m (put id r s) ≡ ok (ended_state id (put id (delivered (values m) r) s))
deliver_end-eq id m r s still t w =
    rw (emit_data-delivered id m r s still t) (end_request-eq id _ w)

-- An END message for a request that is pending on a valid client, with no null among its values
-- unless the request ignores them: the values that it carries reach the caller in order, then the
-- stream ends, and the request is removed and counted.
pub on_message-end :
    (id : ℕ) (m : Message) (s : Client)
    → IsValid s
    → lookup m.msgid s.pending ≡ some id
    → (m.status == status_end) ≡ true
    → tolerates (s.heap id) (values m) ≡ true
    → on_message m s
      ≡ ok (
          finish id
            (ended_request (delivered (values m) (noting m (s.heap id))))
            s.abandoned
            s.immediates
            s)
on_message-end id m s v e status t =
    let w = serving id m s v e in
    on_message-deliver id m s w e
    ∙ rw status
        (deliver_end-eq id m (noting m (s.heap id)) s w.still t (delivered-IsServing id m s w t))
    ∙ ap ok (ended_state-put id (delivered (values m) (noting m (s.heap id))) s refl)

-- The request of an ERROR message.
abbrev pub failed_by_server : Message → Request → Request
failed_by_server m r = record r {
  done_graceful = true;
  error = some (server_error (error_of (get "d" m.payload)));
  timeout = false;
}

deliver_active-error :
    (id : ℕ) (m : Message) (r : Request) (s : Client)
    → is_none r.error ≡ true
    → (m.status == status_error) ≡ true
    → holds r.msgid id s.pending ≡ true
    → deliver_active id m (put id r s)
      ≡ ok (record (put id (failed_by_server m r) s) {
        pending = erase r.msgid s.pending;
        nrpc_done = s.nrpc_done + 1;
        recentrpc = push_recent s.nrecent id s.recentrpc;
        immediates = s.immediates ++ id ∷ [];
      })
deliver_active-error id m r s clean e own =
    let other : (m.status == status_data) ≡ false = ground arith in
    let alive : is_none (update s.heap id r id).error ≡ true =
      ap (λ q. is_none (Request.error q)) (update_self s.heap id r) ∙ clean in
    rw (alive, other, e, put_modify id r s (λ q. record q { done_graceful = true }))
      (request_fail-put id (server_error (error_of (get "d" m.payload)))
        (record r { done_graceful = true }) s clean own)

-- An ERROR message for a request that is pending on a valid client: the request is removed with the error that the
-- message carries, and its `error` event is queued.
pub on_message-error :
    (id : ℕ) (m : Message) (s : Client)
    → IsValid s
    → lookup m.msgid s.pending ≡ some id
    → (m.status == status_error) ≡ true
    → on_message m s
      ≡ ok (
          finish id
            (failed_by_server m (noting m (s.heap id)))
            s.abandoned
            (s.immediates ++ id ∷ [])
            s)
on_message-error id m s v e status =
    let w = serving id m s v e in
    let clean : is_none (s.heap id).error ≡ true = let p = w.still in ground arith in
    let other : (m.status == status_end) ≡ false = ground arith in
    on_message-deliver id m s w e
    ∙ rw other (
        deliver_active-error id m (noting m (s.heap id)) s clean status
          (pending-holds s id v w.made w.still))
