-- ===== src/Client/Invariant/Shutdown.antt =====
-- `requestAbandonAll` and `fatalError` of lib/fast_client.js never throw on a valid client, and
-- leave no request pending.
use node_fast.Base.{
  ℕ, ◌+◌, ◌≡◌, refl, sym, ap, ◌∙◌, inl, inr, Bool, false, Option, none, some, Option-cases, List,
  [], ◌∷◌, ◌++◌, arith, ok, Returns,
}
use node_fast.Base.Map.{
  lookup, erase, keys, has_own_property, erase_absent, erase_all, erase_all-keys, lookup-erase,
}
use node_fast.Protocol.{Message}
use node_fast.Client.Request.{Cause}
use node_fast.Client.State.{Client}
use node_fast.Client.Completion.{
  abandon_property, abandon_properties, request_abandon_all, fatal_error,
}
use node_fast.Client.Invariant.{IsValid}
use node_fast.Client.Invariant.Operations.{
  request_abandon-eq, pending-holds, abandoned_state, abandoned_state-IsValid,
}

-- The client's own flags, counters and logs do not matter to the invariant.
pub flags-IsValid :
    (s : Client)
    → IsValid s
    → (error : Option Cause) (nerrors : ℕ) (emitted : List Cause) (detached ended : Bool)
      (outgoing : List Message)
    → IsValid (record s {
      error = error;
      nerrors = nerrors;
      emitted = emitted;
      detached = detached;
      transport_ended = ended;
      outgoing = outgoing;
    })
flags-IsValid s v error nerrors emitted detached ended outgoing = record {
  alloc_ok = v.alloc_ok;
  alloc_min = v.alloc_min;
  alloc_max = v.alloc_max;
  pending_sorted = v.pending_sorted;
  abandoned_sorted = v.abandoned_sorted;
  counted = v.counted;
  recent = v.recent;
  pending_entry = v.pending_entry;
  abandoned_entry = v.abandoned_entry;
  disjoint = v.disjoint;
  queued = v.queued;
  fits = v.fits;
}

-- One round of the loop of `requestAbandonAll`: the property is gone, and no other has appeared.
abandon_property-step :
    (s : Client) (msgid : ℕ) (cause : Cause)
    → IsValid s
    → (t : Client) × (abandon_property msgid cause s ≡ ok t)
      × IsValid t
      × (t.pending ≡ erase msgid s.pending)
unfolding abandon_property
abandon_property-step s msgid cause v = elim (Option-cases (lookup msgid s.pending)) [
  | inl absent ↦ (s, rw (absent, abandon_property), v, sym (erase_absent msgid s.pending absent))
  | inr (id, e) ↦
      let entry = v.pending_entry msgid id e in
      let pending = entry.still in
      (
        abandoned_state id cause s,
        rw (e, abandon_property, pending)
            (rw (
              request_abandon-eq id cause s pending (pending-holds s id v entry.made pending),
              gone id entry.msgid_eq,
            )),
        abandoned_state-IsValid s id cause v entry.made pending,
        ap (λ k. erase k s.pending) entry.msgid_eq,
      )
]
  where
    gone :
        (id : ℕ)
        → (s.heap id).msgid ≡ msgid
        → has_own_property msgid (erase (s.heap id).msgid s.pending) ≡ false
    gone id e = ground (arith, lookup-erase (s.heap id).msgid msgid s.pending)

abandon_properties-IsValid :
    (ks : List ℕ) (s : Client) (cause : Cause)
    → IsValid s
    → (t : Client) × (abandon_properties ks cause s ≡ ok t)
      × IsValid t
      × (t.pending ≡ erase_all ks s.pending)
unfolding abandon_properties erase_all
abandon_properties-IsValid [] s cause v = (s, refl, v, refl)
abandon_properties-IsValid (k ∷ ks) s cause v =
    let (t, e, w, p) = abandon_property-step s k cause v in
    let (u, f, x, q) = abandon_properties-IsValid ks t cause w in
    (u, rw (e, f), x, q ∙ ap (erase_all ks) p)

-- A client with no request left.
abbrev pub IsIdle : Client → Type 0
IsIdle s = IsValid s × (s.pending ≡ [])

pub request_abandon_all-IsIdle :
    (s : Client) (cause : Cause) → IsValid s → Returns IsIdle (request_abandon_all cause s)
unfolding request_abandon_all
request_abandon_all-IsIdle s cause v =
    let (t, e, w, p) = abandon_properties-IsValid (keys s.pending) s cause v in
    (t, e, (w, p ∙ erase_all-keys s.pending v.pending_sorted))

-- The client after its first fatal error, before its requests are abandoned.
abbrev pub first_error : Cause → Client → Client
first_error cause s = record s {
  nerrors = s.nerrors + 1;
  error = some cause;
  emitted = s.emitted ++ cause ∷ [];
}

pub fatal_error-first :
    (s : Client) (cause : Cause)
    → s.error ≡ none
    → fatal_error cause s ≡ request_abandon_all cause (first_error cause s)
unfolding fatal_error
fatal_error-first s cause e = ground arith

fatal_error-later :
    (s : Client) (cause x : Cause)
    → s.error ≡ some x
    → fatal_error cause s ≡ ok (record s { nerrors = s.nerrors + 1 })
unfolding fatal_error
fatal_error-later s cause x e = ground arith

-- A fatal error is survived, and the first one ends every request.
pub fatal_error-IsValid :
    (s : Client) (cause : Cause) → IsValid s → Returns IsValid (fatal_error cause s)
fatal_error-IsValid s cause v = elim (Option-cases s.error) [
  | inr (x, e) ↦ (_, fatal_error-later s cause x e, flags-IsValid s v _ _ _ _ _ _)
  | inl e ↦
      let (t, f, idle) =
        request_abandon_all-IsIdle (first_error cause s) cause (flags-IsValid s v _ _ _ _ _ _) in
      (t, fatal_error-first s cause e ∙ f, idle.0)
]
