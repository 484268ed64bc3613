-- ===== src/System/Hearing/Reply.antt =====
-- A whole reply as the client of lib/fast_client.js takes it.
use node_fast.Base.{
  ℕ, suc, ◌≡◌, refl, sym, ap, ◌∙◌, subst, true, false, none, List, [], ◌∷◌, ◌++◌, Outcome, ok,
  ◌>>=◌, Returns, append-nil, arith,
}
use node_fast.Base.Map.{lookup, erase, lookup-erase}
use node_fast.Json.{null, is_object}
use node_fast.Client.Request.{
  ServerError, Cause, server_error, StreamEvent, datum, ended, is_pending,
}
use node_fast.Client.Request
use node_fast.Client.State.{Client}
use node_fast.Client.Messages.{on_message}
use node_fast.Client.Invariant.{IsValid}
use node_fast.Client.Invariant.Updates.{finish}
use node_fast.Client.Invariant.Operations.{update_self}
use node_fast.Client.Invariant.Messages.{ended_request}
use node_fast.Client.Delivery.Reference.{delivered, noting}
use node_fast.Client.Delivery.Ending.{failed_by_server, on_message-end, on_message-error}
use node_fast.Server.State.{RpcError, Request}
use node_fast.Server.Response.{data_message, end_message, error_message}
use node_fast.Server.Contract.{response-IsWellFormed}
use node_fast.Server.Lifecycle.{is_empty}
use node_fast.Server.Replies.{
  Action, write, fail, set_timeout, set_immediate, is_reply, reply_messages, failure,
}
use node_fast.Server.Replies
use node_fast.System.Hearing.{receive, told, as_received, queued, Hears, IsAwaiting}
use node_fast.System.Hearing.Values.{
  given, given-eq, given-IsAwaiting, given-Hears, valid_after, no_error,
}

forgotten : (k : ℕ) (s : Client) → lookup k (erase k s.pending) ≡ none
forgotten k s = ground (arith, lookup-erase k k s.pending)

-- A request that ends becomes `q`.
finish-Hears :
    (id : ℕ) (acts : List Action) (q : Request.Request) (s : Client)
    → IsValid (finish id q s.abandoned (s.immediates ++ queued id (failure acts)) s)
    → q.events ≡ (s.heap id).events ++ told acts
    → q.error ≡ as_received (failure acts)
    → is_pending q ≡ false
    → Hears id acts s (finish id q s.abandoned (s.immediates ++ queued id (failure acts)) s)
finish-Hears id acts q s v e f over =
    let here = update_self s.heap id q in
    record {
      valid = v;
      events = ap (λ x. Request.Request.events x) here ∙ e;
      error = ap (λ x. Request.Request.error x) here ∙ f;
      done = ap is_pending here ∙ over;
      gone = forgotten (s.heap id).msgid s;
      waits = refl;
    }

pending-clean : (q : Request.Request) → is_pending q ≡ true → q.error ≡ none
pending-clean q e = ground arith

-- The END of the reply.
end-Hears :
    (id uts : ℕ) (r : Request) (s : Client)
    → IsAwaiting id r s
    → Returns (Hears id (Replies.finish ∷ []) s) (on_message (end_message uts r) s)
end-Hears id uts r s a =
    let m = end_message uts r in
    let q = ended_request (delivered [] (noting m (s.heap id))) in
    let still = (a.valid.pending_entry r.msgid id a.held).still in
    let e = on_message-end id m s a.valid a.held refl (ground arith) in
    let same : finish id q s.abandoned s.immediates s
        ≡ finish id q s.abandoned (s.immediates ++ []) s =
      ap (λ l. finish id q s.abandoned l s) (sym (append-nil s.immediates)) in
    let v =
      valid_after id r m s a e (response-IsWellFormed uts r null no_error a.small a.known).1 in
    (
      _,
      e ∙ ap ok same,
      finish-Hears id (Replies.finish ∷ []) q s (subst IsValid same v)
          (ap (λ l. l ++ ended ∷ []) (append-nil (s.heap id).events))
          (pending-clean (s.heap id) still) refl,
    )

error-Hears :
    (id uts : ℕ) (r : Request) (e : RpcError) (s : Client)
    → IsAwaiting id r s
    → Returns (Hears id (fail e ∷ []) s) (on_message (error_message uts r e) s)
error-Hears id uts r e s a =
    let m = error_message uts r e in
    let q = failed_by_server m (noting m (s.heap id)) in
    let f = on_message-error id m s a.valid a.held refl in
    let v = valid_after id r m s a f (response-IsWellFormed uts r null e a.small a.known).2 in
    (
      _,
      f,
      finish-Hears id (fail e ∷ []) q s v (sym (append-nil (s.heap id).events)) (ground arith) refl,
    )

heard_nothing_after :
    (clock : ℕ → ℕ) (n id : ℕ) (r : Request) (first : Action) (rest : List Action) (s : Client)
    (call : Outcome Client)
    → is_empty rest ≡ true
    → Returns (Hears id (first ∷ []) s) call
    → Returns (Hears id (first ∷ rest) s) (call >>= receive (reply_messages clock n r rest))
unfolding receive
heard_nothing_after clock n id r first [] s call e (t, f, h) = (t, rw f refl, h)
heard_nothing_after clock n id r first (_ ∷ _) s call e h = cc

alike-Hears :
    (id : ℕ) (acts bcts : List Action) (s t : Client)
    → told bcts ≡ told acts
    → failure bcts ≡ failure acts
    → Hears id bcts s t
    → Hears id acts s t
alike-Hears id acts bcts s t e f h = record {
  valid = h.valid;
  events = h.events ∙ ap (λ l. (s.heap id).events ++ l) e;
  error = h.error ∙ ap as_received f;
  done = h.done;
  gone = h.gone;
  waits = h.waits ∙ ap (λ o. s.immediates ++ queued id o) f;
}

-- The reply that a handler makes to the request which a client has pending: the client takes all
-- its messages without an exception and stays valid. The caller hears the values of the
-- actions that have reached the server, in their order, and then the end of the stream; or, when
-- the handler has failed, the request gets the error with the name, the message, the info, the context and the
-- `ase_errors` that the handler gave it, and its `error` event is queued once, behind the others.
-- The request is pending no more.
pub receive-Hears :
    (clock : ℕ → ℕ) (n id : ℕ) (r : Request) (acts : List Action) (s : Client)
    → IsAwaiting id r s
    → is_reply acts ≡ true
    → Returns (Hears id acts s) (receive (reply_messages clock n r acts) s)
unfolding receive
receive-Hears clock n id r [] s a good = cc
receive-Hears clock n id r (write v ∷ rest) s a good =
    let object : is_object v ≡ true = ground arith in
    let (t, e, h) =
      receive-Hears clock (suc n) id r rest (given id (data_message (clock n) r v) s)
        (given-IsAwaiting id (clock n) r v s a object) (ground arith) in
    (t, rw (given-eq id (clock n) r v s a object) e, given-Hears id (clock n) r v rest s t object h)
receive-Hears clock n id r (Replies.finish ∷ rest) s a good =
    heard_nothing_after clock (suc n) id r Replies.finish rest s _ good
      (end-Hears id (clock n) r s a)
receive-Hears clock n id r (fail e ∷ rest) s a good =
    let (t, f, h) = error-Hears id (clock n) r e s a in
    (t, rw f refl, alike-Hears id _ (fail e ∷ []) s t refl refl h)
receive-Hears clock n id r (set_timeout ms ∷ rest) s a good =
    let (t, e, h) = receive-Hears clock n id r rest s a good in
    (t, e, alike-Hears id _ rest s t refl refl h)
receive-Hears clock n id r (set_immediate ∷ rest) s a good =
    let (t, e, h) = receive-Hears clock n id r rest s a good in
    (t, e, alike-Hears id _ rest s t refl refl h)
