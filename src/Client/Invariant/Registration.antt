-- ===== src/Client/Invariant/Registration.antt =====
-- `rpc` of lib/fast_client.js: a new request gets an identifier of its own, and is sent or failed.
use node_fast.Base.{
  ℕ, zero, suc, ◌+◌, ◌≤◌, ◌<◌, ◌≡◌, refl, ◌∙◌, inl, inr, true, ◌||◌, none, Option-cases, length,
  arith,
}
use node_fast.Base.Map.{
  Map, lookup, has_own_property, insert, erase, Sorted, lookup-insert, lookup-erase, insert-Sorted,
  erase-Sorted, length-insert, length-erase,
}
use node_fast.Subr.IdAllocator.{IdAllocator}
use node_fast.Subr.IdAllocator
use node_fast.Json.{arr}
use node_fast.Client.Request.{
  Request, Cause, transport_detached, is_pending, Stream, open_, closed, stream_state,
}
use node_fast.Client.Request
use node_fast.Client.State.{Client}
use node_fast.Client.Api.{RpcArgs, register}
use node_fast.Client.Invariant.{count, Fits, IsValid}
use node_fast.Client.Invariant.Updates.{update_cases}

-- Two tables that hold the identifiers from 1 to `n` have `n` entries.
pub pigeonhole :
    (n : ℕ) (p a : Map ℕ)
    → Sorted p
    → Sorted a
    → ((k : ℕ) → k < n → has_own_property (suc k) p || has_own_property (suc k) a ≡ true)
    → n ≤ length p + length a
pigeonhole zero p a sp sa all = omega arith
pigeonhole (suc n) p a sp sa all = elim (Option-cases (lookup (suc n) p)) [
  | inr (v, e) ↦
      let rest =
        pigeonhole n (erase (suc n) p) a (erase-Sorted (suc n) p sp) sa
          (λ k h. ground (arith, all k (omega arith), lookup-erase (suc n) (suc k) p)) in
      omega (arith, rest, length-erase (suc n) v p sp e)
  | inl absent ↦ elim (Option-cases (lookup (suc n) a)) [
    | inr (v, e) ↦
        let rest =
          pigeonhole n p (erase (suc n) a) sp (erase-Sorted (suc n) a sa)
            (λ k h. ground (arith, all k (omega arith), lookup-erase (suc n) (suc k) a)) in
        omega (arith, rest, length-erase (suc n) v a sa e)
    | inl missing ↦ absurd (let last = all n (omega arith) in ground arith)
  ]
]

module _ (s : Client) (msgid : ℕ) (alloc : IdAllocator) (args : RpcArgs) (v : IsValid s)
    (alloc_ok : IdAllocator.IsValid alloc) (min_same : alloc.min ≡ s.rqidalloc.min)
    (max_same : alloc.max ≡ s.rqidalloc.max) (free : lookup msgid s.pending ≡ none)
    (unused : lookup msgid s.abandoned ≡ none) where
  -- The client with the request registered.
  abbrev pub registered_state : Client
  registered_state = register msgid args (record s { rqidalloc = alloc })

  abbrev new_request : Request
  new_request = Request.create msgid args.rpcmethod (arr args.rpcargs) args.ignore_null_values

  unqueued : count s.nrequests s.immediates ≡ 0
  unqueued = ground (arith, v.queued s.nrequests)

  new-Fits :
      Fits s.nrequests new_request
        (lookup msgid (insert msgid s.nrequests s.pending))
        (count s.nrequests s.immediates)
  new-Fits = record {
    registered = λ _. ground (arith, lookup-insert msgid msgid s.nrequests s.pending);
    running = λ _. (refl, unqueued);
    finishing = λ over. cc;
    given_up = λ a. cc;
    timed = λ t. cc;
  }

  old-Fits :
      (j : ℕ)
      → j < s.nrequests
      → Fits j
          (s.heap j)
          (lookup (s.heap j).msgid (insert msgid s.nrequests s.pending))
          (count j s.immediates)
  old-Fits j h =
      let f = v.fits j h in
      record {
        registered = λ p.
            ground
              (arith, lookup-insert msgid (s.heap j).msgid s.nrequests s.pending, f.registered p);
        running = f.running;
        finishing = f.finishing;
        given_up = f.given_up;
        timed = f.timed;
      }

  pub registered-IsValid : IsValid registered_state
  registered-IsValid = record {
    alloc_ok = alloc_ok;
    alloc_min = min_same ∙ v.alloc_min;
    alloc_max = max_same ∙ v.alloc_max;
    pending_sorted = insert-Sorted msgid s.nrequests s.pending v.pending_sorted;
    abandoned_sorted = v.abandoned_sorted;
    counted = omega (arith, v.counted, length-insert msgid s.nrequests s.pending free);
    recent = v.recent;
    pending_entry =
        λ k j e. ground (arith, lookup-insert msgid k s.nrequests s.pending, v.pending_entry k j);
    abandoned_entry = λ k j e. ground (arith, v.abandoned_entry k j e);
    disjoint = λ k j e. ground (arith, lookup-insert msgid k s.nrequests s.pending, v.disjoint k j);
    queued = λ j h. omega (arith, v.queued j h);
    fits = λ j h.
        update_cases
          (λ i x.
            Fits i x (lookup x.msgid (insert msgid s.nrequests s.pending)) (count i s.immediates))
          s.heap s.nrequests new_request j (λ _. new-Fits) (λ ne. old-Fits j (omega arith));
  }
