-- ===== src/Client/Invariant/Delivery.antt =====
-- `onMessage` of lib/fast_client.js never throws on a valid client, whatever well-formed message
-- arrives, and keeps the client valid.
use node_fast.Base.{
  ℕ, ◌+◌, ◌≡◌, refl, inl, inr, Bool, true, false, Bool-cases, some, Option-cases, [], ◌∷◌, ◌++◌,
  ◌==◌, if◌then◌else◌, is_none, arith, Returns,
}
use node_fast.Base.Map.{lookup, erase, lookup-erase, erase-Sorted}
use node_fast.Json.{get}
use node_fast.Protocol.{Message, status_data, status_end, status_error, is_status}
use node_fast.Client.Request.{Cause}
use node_fast.Client.State.{Client, put}
use node_fast.Client.Messages.{
  deliver_end, deliver_data, deliver_error, deliver_active, deliver_other, deliver, on_message,
}
use node_fast.Client.Invariant.{count-append, IsValid}
use node_fast.Client.Invariant.Updates.{finish, finish-IsValid}
use node_fast.Client.Invariant.Operations.{request_fail-put, pending-holds, failed-Fits}
use node_fast.Client.Invariant.Shutdown.{fatal_error-IsValid}
use node_fast.Protocol.Decoder.WellFormed.{IsWellFormed}
use node_fast.Client.Messages.{error_of}
use node_fast.Client.Request.{server_error, unknown_msgid}
use node_fast.Client.Invariant.Messages.{
  note-IsValid, IsServing, put-IsServing, Emits, request_emit_data-Emits, end_request-IsValid,
  pending-not_abandoned,
}

-- An abandoned request is forgotten.
forget-IsValid :
    (s : Client) (k : ℕ) → IsValid s → IsValid (record s { abandoned = erase k s.abandoned })
forget-IsValid s k v = record {
  alloc_ok = v.alloc_ok;
  alloc_min = v.alloc_min;
  alloc_max = v.alloc_max;
  pending_sorted = v.pending_sorted;
  abandoned_sorted = erase-Sorted k s.abandoned v.abandoned_sorted;
  counted = v.counted;
  recent = v.recent;
  pending_entry = v.pending_entry;
  abandoned_entry = λ j id e. ground (arith, lookup-erase k j s.abandoned, v.abandoned_entry j id);
  disjoint = λ j id e. ground (arith, lookup-erase k j s.abandoned, v.disjoint j id e);
  queued = v.queued;
  fits = v.fits;
}

deliver_data-IsValid :
    (id : ℕ) (m : Message) (s : Client) → IsServing id s → Returns IsValid (deliver_data id m s)
deliver_data-IsValid id m s v =
    let t = put id (record (s.heap id) { ndata = (s.heap id).ndata + 1 }) s in
    let w : IsServing id t = put-IsServing s id _ v (note-IsValid s id v.valid _ _ _ _ _) v.still in
    let (r, e, x) = request_emit_data-Emits id m t w in (r.1, rw e, emitted-IsValid r x)
  where
    emitted-IsValid : (r : Bool × Client) → Emits id r → IsValid r.1
    emitted-IsValid (true, u) x = x.valid
    emitted-IsValid (false, u) x = x

-- The state after the server has failed a request.
abbrev server_failed : ℕ → Cause → Client → Client
server_failed id cause s =
    finish id (record (s.heap id) { done_graceful = true; error = some cause; timeout = false })
      s.abandoned (s.immediates ++ id ∷ []) s

server_failed-IsValid :
    (id : ℕ) (cause : Cause) (s : Client) → IsServing id s → IsValid (server_failed id cause s)
server_failed-IsValid id cause s v =
    let fresh = pending-not_abandoned s id v in
    finish-IsValid s id _ s.abandoned _ v.valid v.made v.still refl v.valid.abandoned_sorted
      (λ k j e. ground (arith, fresh, v.valid.abandoned_entry k j e)) (λ k ne. refl)
      (λ j ne. ground (arith, count-append j id s.immediates))
      (failed-Fits s id _ v.valid v.made v.still refl refl refl (λ a. absurd (fresh a)))

deliver_error-IsValid :
    (id : ℕ) (m : Message) (s : Client)
    → IsServing id s
    → (m.status == status_error) ≡ true
    → Returns IsValid (deliver_error id m s)
deliver_error-IsValid id m s v e =
    let cause = server_error (error_of (get "d" m.payload)) in
    let clean : is_none (s.heap id).error ≡ true = let p = v.still in ground arith in
    (
      server_failed id cause s,
      rw e (
          request_fail-put id cause (record (s.heap id) { done_graceful = true }) s clean
            (pending-holds s id v.valid v.made v.still)),
      server_failed-IsValid id cause s v,
    )

deliver_active-IsValid :
    (id : ℕ) (m : Message) (s : Client)
    → IsServing id s
    → is_status m.status ≡ true
    → (m.status == status_end) ≡ false
    → Returns IsValid (deliver_active id m s)
deliver_active-IsValid id m s v known more =
    let clean : is_none (s.heap id).error ≡ true = let p = v.still in ground arith in
    rw clean (elim (Bool-cases (m.status == status_data)) [
      | inl e ↦ rw e (deliver_data-IsValid id m s v)
      | inr e ↦ rw e (deliver_error-IsValid id m s v (ground arith))
    ])

deliver_end-IsValid :
    (id : ℕ) (m : Message) (s : Client)
    → IsServing id s
    → Returns IsValid (deliver_end id false m s)
deliver_end-IsValid id m s v =
    let (r, e, x) = request_emit_data-Emits id m s v in rw e (end_request-IsValid id r x)

abbrev pub noted : ℕ → Message → Client → Client
noted id m s = put id (record (s.heap id) { last = some m }) s

pub deliver-eq :
    (id : ℕ) (abandoned : Bool) (m : Message) (s : Client)
    → (s.heap id).done_graceful ≡ false
    → deliver id abandoned m s ≡ (
        if m.status == status_end
        then deliver_end id abandoned m (noted id m s)
        else deliver_other id abandoned m (noted id m s))
unfolding deliver
deliver-eq id abandoned m s e = ground arith

deliver_pending-IsValid :
    (id : ℕ) (m : Message) (s : Client)
    → IsServing id s
    → is_status m.status ≡ true
    → Returns IsValid (deliver id false m s)
deliver_pending-IsValid id m s v known =
    let running : (s.heap id).done_graceful ≡ false = let p = v.still in ground arith in
    let w : IsServing id (noted id m s) =
      put-IsServing s id _ v (note-IsValid s id v.valid _ _ _ _ _) v.still in
    rw (deliver-eq id false m s running) (elim (Bool-cases (m.status == status_end)) [
      | inl e ↦ rw e (deliver_end-IsValid id m (noted id m s) w)
      | inr e ↦ rw e (deliver_active-IsValid id m (noted id m s) w known e)
    ])

deliver_abandoned-IsValid :
    (id : ℕ) (m : Message) (s : Client)
    → IsValid s
    → (s.heap id).done_graceful ≡ false
    → Returns IsValid (deliver id true m s)
deliver_abandoned-IsValid id m s v running =
    let w : IsValid (noted id m s) = note-IsValid s id v _ _ _ _ _ in
    rw (deliver-eq id true m s running) (elim (Bool-cases (m.status == status_end)) [
      | inl e ↦ rw e (_, refl, forget-IsValid (noted id m s) _ w)
      | inr e ↦ rw e (_, refl, note-IsValid (noted id m s) id w _ _ _ _ _)
    ])

-- Any well-formed message is taken without an exception: none of the assertions of `onMessage`,
-- `requestEmitData`, `requestComplete`, `requestFail` and `requestAbandon` fails.
pub on_message-IsValid :
    (s : Client) (m : Message) → IsValid s → IsWellFormed m → Returns IsValid (on_message m s)
unfolding on_message
on_message-IsValid s m v good = elim (Option-cases (lookup m.msgid s.pending)) [
  | inr (id, e) ↦
      let entry = v.pending_entry m.msgid id e in
      let w : IsServing id s = record { valid = v; made = entry.made; still = entry.still } in
      let fresh : (s.heap id).abandoned ≡ false = ground (arith, pending-not_abandoned s id w) in
      rw (e, on_message, fresh) (deliver_pending-IsValid id m s w good.status_ok)
  | inl absent ↦
      rw (absent, on_message)
        (elim (Option-cases (lookup m.msgid s.abandoned)) [
          | inr (id, e) ↦
              let entry = v.abandoned_entry m.msgid id e in
              let (_, running) = (v.fits id entry.made).given_up entry.marked in
              rw (e, entry.marked) (deliver_abandoned-IsValid id m s v running)
          | inl unknown ↦ rw unknown (fatal_error-IsValid s (unknown_msgid m.msgid) v)
        ])
]
