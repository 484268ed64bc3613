-- ===== src/Client/Invariant/Issue.antt =====
-- What `rpc` of lib/fast_client.js does on a valid client, whether the request is sent or failed.
use node_fast.Base.{
  ℕ, suc, ◌+◌, ◌≤◌, ◌<◌, ◌≡◌, ◌≢◌, ◌||◌, refl, ap, ◌⊎◌, inl, inr, true, false, Bool-cases, none,
  some, [], ◌∷◌, ◌++◌, if◌then◌else◌, is_some, length, arith, ok, Returns, ◌>>=◌,
}
use node_fast.Base.Map.{Map, lookup, has_own_property, insert, erase, lookup-insert, lookup-erase}
use node_fast.Json.{arr}
use node_fast.Protocol.{msgid_max}
use node_fast.Subr.IdAllocator.{IdAllocator}
use node_fast.Subr.IdAllocator
use node_fast.Subr.IdAllocator.Allocation.{alloc-Fresh}
use node_fast.Client.Request.{Request, Cause, transport_detached, is_pending}
use node_fast.Client.Request
use node_fast.Client.State.{Client}
use node_fast.Client.Api.{
  RpcArgs, is_req_id_allocated, is_unusable, register, rpc_message, send, skip, rpc, timeout_ok,
}
use node_fast.Client.Invariant.{IsValid}
use node_fast.Client.Invariant.Operations.{update_self}
use node_fast.Client.Invariant.Messages.{IsServing}
use node_fast.Client.Invariant.Registration.{registered-IsValid}
use node_fast.Client.Invariant.Rpc.{
  skipped_state, skip-eq, skipped_state-IsValid, send-IsValid, free_identifier,
}

-- The request that a call has made, by its handle, and the client after the call.
pub record IsIssued (args : RpcArgs) (s : Client) (r : ℕ × Client) : Type 0 where
  pub valid : IsValid r.1
  pub handle_eq : r.0 ≡ s.nrequests
  pub made : r.1.nrequests ≡ suc s.nrequests
  pub from_min : 1 ≤ (r.1.heap r.0).msgid
  pub to_max : (r.1.heap r.0).msgid ≤ msgid_max
  pub unused : is_req_id_allocated s (r.1.heap r.0).msgid ≡ false
  pub same_version : r.1.version ≡ s.version
  pub silent : (r.1.heap r.0).events ≡ []
  pub kept : (k : ℕ) → is_req_id_allocated s k ≡ true → is_req_id_allocated r.1 k ≡ true
  pub outcome :
      ((is_unusable s ≡ false)
        × (is_pending (r.1.heap r.0) ≡ true)
        × (r.1.outgoing ≡ s.outgoing ++ rpc_message s (r.1.heap r.0).msgid args ∷ [])
        × (r.1.immediates ≡ s.immediates))
      ⊎ ((is_unusable s ≡ true)
          × ((r.1.heap r.0).error ≡ some transport_detached)
          × (r.1.outgoing ≡ s.outgoing)
          × (r.1.immediates ≡ s.immediates ++ r.0 ∷ []))

-- The client with the new request registered, before it is sent.
abbrev issued : ℕ → IdAllocator → RpcArgs → Client → Client
issued msgid alloc args s = register msgid args (record s { rqidalloc = alloc })

rpc-eq :
    (args : RpcArgs) (s : Client) (msgid : ℕ) (alloc : IdAllocator)
    → timeout_ok args.timeout ≡ true
    → IdAllocator.alloc s.rqidalloc (is_req_id_allocated s) ≡ ok (msgid, alloc)
    → has_own_property msgid s.pending ≡ false
    → rpc args s ≡ (
        (if is_unusable s
          then skip s.nrequests (issued msgid alloc args s)
          else ok (send s.nrequests msgid args (issued msgid alloc args s)))
        >>= λ u. ok (s.nrequests, u))
unfolding rpc
rpc-eq args s msgid alloc timely got free = rw (timely, got, free) refl

issued-IsServing :
    (args : RpcArgs) (s : Client) (msgid : ℕ) (alloc : IdAllocator)
    → IsValid (issued msgid alloc args s)
    → IsServing s.nrequests (issued msgid alloc args s)
issued-IsServing args s msgid alloc v = record {
  valid = v;
  made = omega arith;
  still = ap is_pending (update_self s.heap s.nrequests _);
}

sent_heap :
    (args : RpcArgs) (s : Client) (msgid : ℕ) (alloc : IdAllocator)
    → (send s.nrequests msgid args (issued msgid alloc args s)).heap s.nrequests
      ≡ record (Request.create msgid args.rpcmethod (arr args.rpcargs) args.ignore_null_values) {
        timeout = is_some args.timeout;
      }
sent_heap args s msgid alloc = ground arith

skipped_heap :
    (args : RpcArgs) (s : Client) (msgid : ℕ) (alloc : IdAllocator)
    → (skipped_state s.nrequests (issued msgid alloc args s)).heap s.nrequests
      ≡ record (Request.create msgid args.rpcmethod (arr args.rpcargs) args.ignore_null_values) {
        skip = true;
        error = some transport_detached;
      }
skipped_heap args s msgid alloc = ground arith

sent-kept :
    (k msgid id : ℕ) (p a : Map ℕ)
    → (has_own_property k p || has_own_property k a) ≡ true
    → (has_own_property k (insert msgid id p) || has_own_property k a) ≡ true
sent-kept k msgid id p a h = ground (arith, lookup-insert msgid k id p)

skipped-kept :
    (k msgid id : ℕ) (p a : Map ℕ)
    → (has_own_property msgid p || has_own_property msgid a) ≡ false
    → (has_own_property k p || has_own_property k a) ≡ true
    → (has_own_property k (erase msgid (insert msgid id p)) || has_own_property k a) ≡ true
skipped-kept k msgid id p a free h =
    let ne : k ≢ msgid =
      λ e. cc (ap (λ j. has_own_property j p || has_own_property j a) e, free, h) in
    ground (arith, lookup-insert msgid k id p, lookup-erase msgid k (insert msgid id p))

sent-IsIssued :
    (args : RpcArgs) (s : Client) (msgid : ℕ) (alloc : IdAllocator)
    → IsValid (issued msgid alloc args s)
    → 1 ≤ msgid
    → msgid ≤ msgid_max
    → is_req_id_allocated s msgid ≡ false
    → is_unusable s ≡ false
    → IsIssued args s (s.nrequests, send s.nrequests msgid args (issued msgid alloc args s))
sent-IsIssued args s msgid alloc v lo hi free usable =
    let here = sent_heap args s msgid alloc in
    let id_eq = ap (λ r. Request.msgid r) here in
    record {
      valid = send-IsValid s.nrequests msgid args _ (issued-IsServing args s msgid alloc v);
      handle_eq = refl;
      made = refl;
      from_min = rw id_eq lo;
      to_max = rw id_eq hi;
      unused = rw id_eq free;
      same_version = refl;
      silent = ap (λ r. Request.events r) here;
      kept = λ k. sent-kept k msgid s.nrequests s.pending s.abandoned;
      outcome = inl (usable, ap is_pending here, rw id_eq refl, refl);
    }

skipped-IsIssued :
    (args : RpcArgs) (s : Client) (msgid : ℕ) (alloc : IdAllocator)
    → IsValid (issued msgid alloc args s)
    → 1 ≤ msgid
    → msgid ≤ msgid_max
    → is_req_id_allocated s msgid ≡ false
    → is_unusable s ≡ true
    → IsIssued args s (s.nrequests, skipped_state s.nrequests (issued msgid alloc args s))
skipped-IsIssued args s msgid alloc v lo hi free unusable =
    let here = skipped_heap args s msgid alloc in
    let id_eq = ap (λ r. Request.msgid r) here in
    record {
      valid = skipped_state-IsValid s.nrequests _ (issued-IsServing args s msgid alloc v);
      handle_eq = refl;
      made = refl;
      from_min = rw id_eq lo;
      to_max = rw id_eq hi;
      unused = rw id_eq free;
      same_version = refl;
      silent = ap (λ r. Request.events r) here;
      kept = λ k h.
          let r = Request.create msgid args.rpcmethod (arr args.rpcargs) args.ignore_null_values in
          let same = ap (λ q. Request.msgid q) (update_self s.heap s.nrequests r) in
          rw same (skipped-kept k msgid s.nrequests s.pending s.abandoned free h);
      outcome = inr (unusable, ap (λ r. Request.error r) here, refl, refl);
    }

issue :
    (args : RpcArgs) (s : Client) (msgid : ℕ) (alloc : IdAllocator)
    → IsValid (issued msgid alloc args s)
    → 1 ≤ msgid
    → msgid ≤ msgid_max
    → is_req_id_allocated s msgid ≡ false
    → Returns (IsIssued args s) (
        (if is_unusable s
          then skip s.nrequests (issued msgid alloc args s)
          else ok (send s.nrequests msgid args (issued msgid alloc args s)))
        >>= λ u. ok (s.nrequests, u))
issue args s msgid alloc v lo hi free = elim (Bool-cases (is_unusable s)) [
  | inl e ↦ (
    _,
    rw (e, skip-eq s.nrequests _ (issued-IsServing args s msgid alloc v)) refl,
    skipped-IsIssued args s msgid alloc v lo hi free e,
  )
  | inr e ↦ (_, rw e refl, sent-IsIssued args s msgid alloc v lo hi free e)
]

-- `rpc` with a usable timeout returns on a valid client while some message identifier is free: the
-- request gets an identifier of the range that no other one holds, and it is sent, or, on a client
-- that has ended, failed with its error queued.
pub rpc-IsIssued :
    (args : RpcArgs) (s : Client)
    → IsValid s
    → timeout_ok args.timeout ≡ true
    → length s.pending + length s.abandoned < msgid_max
    → Returns (IsIssued args s) (rpc args s)
rpc-IsIssued args s v timely room =
    let (id, lo, hi, open_id) = free_identifier s v room in
    let ((msgid, alloc), got, fresh) =
      alloc-Fresh s.rqidalloc (is_req_id_allocated s) v.alloc_ok id (omega (arith, v.alloc_min))
        (omega (arith, v.alloc_max)) open_id in
    let (free, from_min, to_max, ordered, min_same, max_same) = fresh in
    let absent : lookup msgid s.pending ≡ none = ground arith in
    let unused : lookup msgid s.abandoned ≡ none = ground arith in
    let w = registered-IsValid s msgid alloc args v ordered min_same max_same absent unused in
    rw (rpc-eq args s msgid alloc timely got (ground arith))
      (issue args s msgid alloc w (omega (arith, v.alloc_min)) (omega (arith, v.alloc_max)) free)
