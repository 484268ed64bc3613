-- ===== src/Client/Invariant/Updates.antt =====
-- The writes by which the operations of lib/fast_client.js change a client, and that each keeps
-- the invariant.
use node_fast.Base.{
  ℕ, ◌+◌, ◌≤◌, ◌<◌, ◌≡◌, sym, subst, ◌≢◌, ◌⊎◌, inl, inr, true, Bool-cases, none, some, List, [],
  ◌∷◌, ◌==◌, length, arith, length-append,
}
use node_fast.Base.Map.{Map, lookup, erase, Sorted, lookup-erase, erase-Sorted, length-erase}
use node_fast.Client.Request.{Request, is_pending}
use node_fast.Client.State.{Client, update, put}
use node_fast.Client.Completion.{push_recent}
use node_fast.Client.Invariant.{count, Fits, IsPendingEntry, IsAbandonedEntry, IsValid}

-- After a write a request is the one that was written, or another one as before.
pub update_cases {ℓ} :
    (P : ℕ → Request → Type ℓ) (heap : ℕ → Request) (id : ℕ) (r : Request) (j : ℕ)
    → (j ≡ id → P id r)
    → (j ≢ id → P j (heap j))
    → P j (update heap id r j)
update_cases P heap id r j hit miss = elim (Bool-cases (j == id)) [
  | inl e ↦ let same : j ≡ id = ground arith in rw (e, same) (hit same)
  | inr e ↦ rw e (miss (ground arith))
]

-- A write to one request that leaves its identifier, its flag and whether it is pending alone.
pub put-IsValid :
    (s : Client) (id : ℕ) (r : Request)
    → IsValid s
    → r.msgid ≡ (s.heap id).msgid
    → is_pending r ≡ is_pending (s.heap id)
    → r.abandoned ≡ (s.heap id).abandoned
    → (id < s.nrequests → Fits id r (lookup (s.heap id).msgid s.pending) (count id s.immediates))
    → IsValid (put id r s)
put-IsValid s id r v same still flag fit = record {
  alloc_ok = v.alloc_ok;
  alloc_min = v.alloc_min;
  alloc_max = v.alloc_max;
  pending_sorted = v.pending_sorted;
  abandoned_sorted = v.abandoned_sorted;
  counted = v.counted;
  recent = v.recent;
  pending_entry = λ k j e. ground (arith, v.pending_entry k j e);
  abandoned_entry = λ k j e. ground (arith, v.abandoned_entry k j e);
  disjoint = v.disjoint;
  queued = v.queued;
  fits = λ j h.
      update_cases (λ i x. Fits i x (lookup x.msgid s.pending) (count i s.immediates)) s.heap id r j
        (λ e.
          subst (λ k. Fits id r (lookup k s.pending) (count id s.immediates)) (sym same)
            (fit (subst (λ i. i < s.nrequests) e h)))
        (λ _. v.fits j h);
}

-- The end of a request that is pending: its object becomes `r`, its entry is gone, and the two
-- tables behind it may have gained it.
abbrev pub finish : ℕ → Request → Map ℕ → List ℕ → Client → Client
finish id r abandoned immediates s = record (put id r s) {
  pending = erase (s.heap id).msgid s.pending;
  abandoned = abandoned;
  nrpc_done = s.nrpc_done + 1;
  recentrpc = push_recent s.nrecent id s.recentrpc;
  immediates = immediates;
}

length-push_recent :
    (nrecent id : ℕ) (recent : List ℕ)
    → length recent ≤ nrecent
    → length (push_recent nrecent id recent) ≤ nrecent
length-push_recent nrecent id [] h = ground arith
length-push_recent nrecent id (x ∷ recent) h = ground (arith, length-append recent (id ∷ []))

-- A request that does not own the identifier of the one that ends loses nothing.
Fits-erase :
    (j id : ℕ) (x : Request) (k : ℕ) (pending : Map ℕ) (w : ℕ)
    → j ≢ id
    → lookup k pending ≡ some id
    → Fits j x (lookup x.msgid pending) w
    → Fits j x (lookup x.msgid (erase k pending)) w
Fits-erase j id x k pending w ne e f = record {
  registered = λ p. ground (arith, lookup-erase k x.msgid pending, f.registered p);
  running = f.running;
  finishing = f.finishing;
  given_up = f.given_up;
  timed = f.timed;
}

module _ (s : Client) (id : ℕ) (r : Request) (ab : Map ℕ) (q : List ℕ) (v : IsValid s)
    (made : id < s.nrequests) (pending : is_pending (s.heap id) ≡ true)
    (same : r.msgid ≡ (s.heap id).msgid) (sorted : Sorted ab)
    (entries : (k j : ℕ)
      → lookup k ab ≡ some j
      → ((j ≢ id) × (lookup k s.abandoned ≡ some j))
        ⊎ ((j ≡ id) × (k ≡ (s.heap id).msgid) × (r.abandoned ≡ true)))
    (others : (k : ℕ) → k ≢ (s.heap id).msgid → lookup k ab ≡ lookup k s.abandoned)
    (queue : (j : ℕ) → j ≢ id → count j q ≡ count j s.immediates)
    (fit : Fits id r none (count id q)) where
  owns : lookup (s.heap id).msgid s.pending ≡ some id
  owns = (v.fits id made).registered pending

  gone : lookup r.msgid (erase (s.heap id).msgid s.pending) ≡ none
  gone = ground (arith, lookup-erase (s.heap id).msgid r.msgid s.pending)

  finish-IsPendingEntry :
      (k j : ℕ)
      → lookup k (erase (s.heap id).msgid s.pending) ≡ some j
      → IsPendingEntry s.nrequests k j (update s.heap id r j)
  finish-IsPendingEntry k j e =
      ground (arith, lookup-erase (s.heap id).msgid k s.pending, v.pending_entry k j)

  finish-IsAbandonedEntry :
      (k j : ℕ) → lookup k ab ≡ some j → IsAbandonedEntry s.nrequests k j (update s.heap id r j)
  finish-IsAbandonedEntry k j e = ground (arith, entries k j e, v.abandoned_entry k j)

  finish-Fits :
      (j : ℕ)
      → j < s.nrequests
      → Fits j
          (update s.heap id r j)
          (lookup (update s.heap id r j).msgid (erase (s.heap id).msgid s.pending))
          (count j q)
  finish-Fits j h =
      update_cases
        (λ i x. Fits i x (lookup x.msgid (erase (s.heap id).msgid s.pending)) (count i q)) s.heap id
        r j (λ e. subst (λ o. Fits id r o (count id q)) (sym gone) fit)
        (λ ne.
          rw (queue j ne)
            (Fits-erase j id (s.heap j) (s.heap id).msgid s.pending _ ne owns (v.fits j h)))

  pub finish-IsValid : IsValid (finish id r ab q s)
  finish-IsValid = record {
    alloc_ok = v.alloc_ok;
    alloc_min = v.alloc_min;
    alloc_max = v.alloc_max;
    pending_sorted = erase-Sorted _ s.pending v.pending_sorted;
    abandoned_sorted = sorted;
    counted =
        omega (arith, v.counted, length-erase (s.heap id).msgid id s.pending v.pending_sorted owns);
    recent = length-push_recent s.nrecent id s.recentrpc v.recent;
    pending_entry = finish-IsPendingEntry;
    abandoned_entry = finish-IsAbandonedEntry;
    disjoint = λ k j e.
        ground (arith, lookup-erase (s.heap id).msgid k s.pending, others k, v.disjoint k j);
    queued = λ j h. ground (arith, queue j, v.queued j);
    fits = finish-Fits;
  }
