-- ===== src/Client/Invariant/Handle.antt =====
-- The client of lib/fast_client.js under any sequence of calls and events.
use node_fast.Base.{
  ℕ, ◌+◌, ◌<◌, ◌≡◌, refl, sym, ap, ◌∙◌, subst, inl, inr, true, false, Bool-cases, Option, List, [],
  ◌∷◌, ◌==◌, ltb, if◌then◌else◌, length, arith, ok, Returns, ok_injective,
}
use node_fast.Base.Map.{lookup, lookup-empty}
use node_fast.Protocol.{msgid_max}
use node_fast.Protocol.Decoder.WellFormed.{IsWellFormed}
use node_fast.Subr.IdAllocator
use node_fast.Client.Request.{
  client_detached, transport_error, unexpected_end, decoder_error, timed_out, abandoned_by_user,
  failed, is_pending, open_, stream_state, stream_state-append,
}
use node_fast.Client.State.{Client, update, put}
use node_fast.Client.State
use node_fast.Client.Api.{
  timeout_ok, detach, abandon, on_timeout, on_transport_end, on_transport_error, on_decoder_error,
  run_first, run_immediate, Event, call_rpc, call_detach, call_abandon, timer, message,
  transport_end, transport_failure, decoder_failure, immediate, handle,
}
use node_fast.Client.Invariant.{count, Fits, IsValid}
use node_fast.Client.Invariant.Updates.{update_cases}
use node_fast.Client.Invariant.Operations.{request_abandon-IsValid}
use node_fast.Client.Invariant.Shutdown.{
  flags-IsValid, request_abandon_all-IsIdle, fatal_error-IsValid,
}
use node_fast.Client.Invariant.Delivery.{on_message-IsValid}
use node_fast.Client.Invariant.Issue.{rpc-IsIssued}

-- A client that was just created is valid.
pub create-IsValid :
    (version : Option ℕ) (nrecent : ℕ) → Returns IsValid (State.create version nrecent)
unfolding State.create IdAllocator.create
create-IsValid version nrecent = (
  _,
  refl,
  record {
    alloc_ok = record { ordered = omega arith; from_min = omega arith; to_max = omega arith };
    alloc_min = refl;
    alloc_max = refl;
    pending_sorted = tt;
    abandoned_sorted = tt;
    counted = refl;
    recent = omega arith;
    pending_entry = λ k id e. absurd (cc (e, lookup-empty k));
    abandoned_entry = λ k id e. absurd (cc (e, lookup-empty k));
    disjoint = λ k id e. lookup-empty k;
    queued = λ id h. absurd (omega arith);
    fits = λ id h. absurd (omega arith);
  },
)

detach-IsValid : (s : Client) → IsValid s → Returns IsValid (detach s)
unfolding detach
detach-IsValid s v = elim (Bool-cases s.detached) [
  | inl e ↦ (s, ground arith, v)
  | inr e ↦
      let (t, f, idle) =
        request_abandon_all-IsIdle (record s { detached = true }) client_detached
          (flags-IsValid s v _ _ _ _ _ _) in
      (t, ground arith, idle.0)
]

on_timeout-IsValid :
    (s : Client) (id : ℕ) → IsValid s → id < s.nrequests → Returns IsValid (on_timeout id s)
unfolding on_timeout
on_timeout-IsValid s id v made = elim (Bool-cases (s.heap id).timeout) [
  | inl e ↦ rw e (request_abandon-IsValid s id timed_out v made)
  | inr e ↦ rw e (s, refl, v)
]

on_transport_end-IsValid : (s : Client) → IsValid s → Returns IsValid (on_transport_end s)
unfolding on_transport_end
on_transport_end-IsValid s v =
    let w : IsValid (record s { transport_ended = true }) = flags-IsValid s v _ _ _ _ _ _ in
    elim (Bool-cases (ltb s.nrpc_done s.nrpc_started)) [
      | inl e ↦ rw e (fatal_error-IsValid _ unexpected_end w)
      | inr e ↦ rw e (_, refl, w)
    ]

on_transport_error-IsValid : (s : Client) → IsValid s → Returns IsValid (on_transport_error s)
unfolding on_transport_error
on_transport_error-IsValid s v = elim (Bool-cases s.detached) [
  | inl e ↦ (s, ground arith, v)
  | inr e ↦ let (t, f, w) = fatal_error-IsValid s transport_error v in (t, ground arith, w)
]

-- The queued error of a request is emitted: its stream ends.
run_first-IsValid :
    (s : Client) (id : ℕ) (rest : List ℕ)
    → IsValid s
    → s.immediates ≡ id ∷ rest
    → IsValid (run_first (id ∷ rest) s)
run_first-IsValid s id rest v e =
    let counts : (j : ℕ) → count j s.immediates ≡ (if id == j then 1 else 0) + count j rest =
      λ j. ap (count j) e in
    let made : id < s.nrequests = ground (arith, counts id, v.queued id) in
    let f = v.fits id made in
    let once : count id s.immediates ≡ 1 + count id rest = ground (arith, counts id) in
    let over : is_pending (s.heap id) ≡ false = ground (arith, once, f.running) in
    let ending : (stream_state (s.heap id).events ≡ open_) × (count id rest ≡ 0) =
      ground (arith, once, f.finishing over) in
    let last = stream_state-append (s.heap id).events (failed (s.heap id).error) in
    record {
      alloc_ok = v.alloc_ok;
      alloc_min = v.alloc_min;
      alloc_max = v.alloc_max;
      pending_sorted = v.pending_sorted;
      abandoned_sorted = v.abandoned_sorted;
      counted = v.counted;
      recent = v.recent;
      pending_entry = λ k j h. ground (arith, v.pending_entry k j h, over);
      abandoned_entry = λ k j h. ground (arith, v.abandoned_entry k j h);
      disjoint = v.disjoint;
      queued = λ j h. omega (arith, counts j, v.queued j);
      fits = λ j h.
          update_cases (λ i x. Fits i x (lookup x.msgid s.pending) (count i rest)) s.heap id _ j
            (λ same. record {
              registered = f.registered;
              running = λ p. absurd (cc (p, over));
              finishing = λ _. inr (ground arith, ending.1);
              given_up = f.given_up;
              timed = f.timed;
            })
            (λ ne.
              subst (Fits j (s.heap j) (lookup (s.heap j).msgid s.pending))
                (ground (arith, counts j)) (v.fits j h));
    }

pub run_immediate-IsValid : (s : Client) → IsValid s → IsValid (run_immediate s)
unfolding run_immediate
run_immediate-IsValid s v = first s.immediates refl
  where
    first : (queue : List ℕ) → s.immediates ≡ queue → IsValid (run_first queue s)
    first [] e = v
    first (id ∷ rest) e = run_first-IsValid s id rest v e

-- What the environment owes: `rpc` is called with a usable timeout while a message identifier is
-- free, a handle or a timer belongs to a request that was made, and the decoder passes on
-- well-formed messages only.
abbrev pub Allowed : Event → Client → Type 0
Allowed (call_rpc args) s =
    (timeout_ok args.timeout ≡ true) × (length s.pending + length s.abandoned < msgid_max)
Allowed (call_abandon id) s = id < s.nrequests
Allowed (timer id) s = id < s.nrequests
Allowed (message m) s = IsWellFormed m
Allowed _ s = Unit

-- An event that may come makes no assertion of lib/fast_client.js fail on a valid client, and
-- leaves it valid: `rpc` with a usable timeout while a message identifier is free, `abandon` and
-- the timer of a request that was made, a well-formed message, and `detach`, the end or an error
-- of the transport, an error of the decoder and the next deferred event at any time.
pub handle-IsValid :
    (event : Event) (s : Client) → IsValid s → Allowed event s → Returns IsValid (handle event s)
unfolding handle abandon on_decoder_error
handle-IsValid (call_rpc args) s v (timely, room) =
    let (r, e, w) = rpc-IsIssued args s v timely room in (r.1, rw e refl, w.valid)
handle-IsValid call_detach s v a = detach-IsValid s v
handle-IsValid (call_abandon id) s v a = request_abandon-IsValid s id abandoned_by_user v a
handle-IsValid (timer id) s v a = on_timeout-IsValid s id v a
handle-IsValid (message m) s v a = on_message-IsValid s m v a
handle-IsValid transport_end s v a = on_transport_end-IsValid s v
handle-IsValid transport_failure s v a = on_transport_error-IsValid s v
handle-IsValid (decoder_failure e) s v a = fatal_error-IsValid s (decoder_error e) v
handle-IsValid immediate s v a = (run_immediate s, refl, run_immediate-IsValid s v)

-- The clients that calls and events lead to.
pub data Reaches : Client → Type 0 where
  created :
      (version : Option ℕ) (nrecent : ℕ) (s : Client)
      → State.create version nrecent ≡ ok s
      → Reaches s
  after :
      (event : Event) (s t : Client)
      → Reaches s
      → Allowed event s
      → handle event s ≡ ok t
      → Reaches t

pub Reaches-IsValid : (s : Client) → Reaches s → IsValid s
Reaches-IsValid s (created version nrecent _ e) =
    let (t, f, v) = create-IsValid version nrecent in subst IsValid (ok_injective (sym f ∙ e)) v
Reaches-IsValid t (after event s _ r a e) =
    let (u, f, v) = handle-IsValid event s (Reaches-IsValid s r) a in
    subst IsValid (ok_injective (sym f ∙ e)) v

-- No call or event that may come makes a client that is in use throw, and it leads to a client
-- that is in use.
pub Reaches-Returns :
    (event : Event) (s : Client) → Reaches s → Allowed event s → Returns Reaches (handle event s)
Reaches-Returns event s r a =
    let (t, e, v) = handle-IsValid event s (Reaches-IsValid s r) a in (t, e, after event s t r a e)
