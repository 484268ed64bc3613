-- ===== src/Client/Identifiers/Reading.antt =====
-- `onMessage` of lib/fast_client.js: the identifier of the message is given up at most by the
-- message that ends its request.
use node_fast.Base.{
  ℕ, ◌+◌, ◌≡◌, refl, ap, subst, ◌∙◌, Bool, true, false, not, ◌&&◌, some, ◌==◌, if◌then◌else◌,
  is_none, assert, ◌>>◌, Whenever, bind-Whenever, assert-Whenever, if-Whenever, cases-Whenever,
  Whenever-mono, arith,
}
use node_fast.Base.Map.{lookup}
use node_fast.Json.{get}
use node_fast.Protocol.{Message, is_final, status_data, status_end, status_error}
use node_fast.Client.Request.{Request, unknown_msgid, server_error}
use node_fast.Client.State.{Client, put}
use node_fast.Client.Completion.{request_fail, fatal_error}
use node_fast.Client.Messages.{
  request_emit_data, end_request, deliver_end, deliver_data, deliver_error, deliver_other, deliver,
  on_message, error_of,
}
use node_fast.Client.Api.{is_req_id_allocated}
use node_fast.Client.Invariant.{IsValid}
use node_fast.Client.Invariant.Operations.{update_self}
use node_fast.Client.Identifiers.{
  SameRequests, Keeps, Keeps-trans, put-Keeps, Frees, request_fail-Frees, fatal_error-Keeps,
}
use node_fast.Client.Identifiers.Values.{
  LosesOnly, after-LosesOnly, forgotten_elsewhere, Frees-LosesOnly, request_emit_data-Keeps,
  end_request-LosesOnly,
}

-- The identifier of a message that ends its request alone may be given up.
abbrev pub KeepsBut : Message → Client → Client → Type 0
KeepsBut m s t =
    SameRequests s t
    × ((k : ℕ)
        → is_req_id_allocated s k ≡ true
        → (k == m.msgid && is_final m) ≡ false
        → is_req_id_allocated t k ≡ true)

Keeps-KeepsBut : (m : Message) (s t : Client) → Keeps s t → KeepsBut m s t
Keeps-KeepsBut m s t (same, held) = (same, λ k h _. held k h)

LosesOnly-KeepsBut :
    (m : Message) (s t : Client) → is_final m ≡ true → LosesOnly m.msgid s t → KeepsBut m s t
LosesOnly-KeepsBut m s t e (same, held) = (same, λ k h ne. held k h (ground arith))

after-KeepsBut : (m : Message) (s t u : Client) → Keeps s t → KeepsBut m t u → KeepsBut m s u
after-KeepsBut m s t u ((a, b), c) ((d, e), f) = ((d ∙ a, λ i. e i ∙ b i), λ k h. f k (c k h))

deliver_end-LosesOnly :
    (id : ℕ) (abandoned : Bool) (m : Message) (s : Client)
    → (s.heap id).msgid ≡ m.msgid
    → Whenever (LosesOnly m.msgid s) (deliver_end id abandoned m s)
deliver_end-LosesOnly id true m s e =
    ((refl, λ i. refl), λ k h ne. rw e (forgotten_elsewhere m.msgid k s.pending s.abandoned h ne))
deliver_end-LosesOnly id false m s e =
    bind-Whenever (λ r. Keeps s r.1) (LosesOnly m.msgid s) (request_emit_data id m s) _
      (request_emit_data-Keeps id m s)
      (λ r h.
        Whenever-mono (LosesOnly (r.1.heap id).msgid r.1) (LosesOnly m.msgid s)
          (end_request id r.0 r.1) (end_request-LosesOnly id r.0 r.1)
          (λ t g.
            after-LosesOnly m.msgid s r.1 t h (subst (λ j. LosesOnly j r.1 t) (h.0.1 id ∙ e) g)))

deliver_data-Keeps : (id : ℕ) (m : Message) (s : Client) → Whenever (Keeps s) (deliver_data id m s)
deliver_data-Keeps id m s =
    let r = record (s.heap id) { ndata = (s.heap id).ndata + 1 } in
    bind-Whenever (λ x. Keeps (put id r s) x.1) (Keeps s) (request_emit_data id m (put id r s)) _
      (request_emit_data-Keeps id m (put id r s))
      (λ x h. Keeps-trans s (put id r s) x.1 (put-Keeps id r s refl) h)

failed-LosesOnly :
    (id : ℕ) (m : Message) (s : Client)
    → (s.heap id).msgid ≡ m.msgid
    → Whenever (LosesOnly m.msgid s) (
        request_fail id
          (server_error (error_of (get "d" m.payload)))
          (put id (record (s.heap id) { done_graceful = true }) s))
failed-LosesOnly id m s e =
    let r = record (s.heap id) { done_graceful = true } in
    let u = put id r s in
    let here = ap (λ q. Request.msgid q) (update_self s.heap id r) ∙ e in
    Whenever-mono (Frees (u.heap id).msgid u) (LosesOnly m.msgid s) (request_fail id _ u)
      (request_fail-Frees id _ u)
      (λ t f.
        after-LosesOnly m.msgid s u t (put-Keeps id r s refl)
          (Frees-LosesOnly _ m.msgid u t f here))

deliver_error-KeepsBut :
    (id : ℕ) (m : Message) (s : Client)
    → (s.heap id).msgid ≡ m.msgid
    → Whenever (KeepsBut m s) (deliver_error id m s)
deliver_error-KeepsBut id m s e = checked (m.status == status_error) refl
  where
    checked :
        (b : Bool)
        → (m.status == status_error) ≡ b
        → Whenever (KeepsBut m s) (
            assert b
            >> request_fail id
                (server_error (error_of (get "d" m.payload)))
                (put id (record (s.heap id) { done_graceful = true }) s))
    checked false f = tt
    checked true f =
        Whenever-mono (LosesOnly m.msgid s) (KeepsBut m s) _ (failed-LosesOnly id m s e)
          (λ t. LosesOnly-KeepsBut m s t (ground arith))

deliver_other-KeepsBut :
    (id : ℕ) (abandoned : Bool) (m : Message) (s : Client)
    → (s.heap id).msgid ≡ m.msgid
    → Whenever (KeepsBut m s) (deliver_other id abandoned m s)
deliver_other-KeepsBut id true m s e =
    let r = record (s.heap id) { nignored = (s.heap id).nignored + 1 } in
    Keeps-KeepsBut m s (put id r s) (put-Keeps id r s refl)
deliver_other-KeepsBut id false m s e =
    assert-Whenever (KeepsBut m s) (is_none (s.heap id).error) _ (
      if-Whenever (KeepsBut m s) (m.status == status_data) (deliver_data id m s)
        (deliver_error id m s)
        (Whenever-mono (Keeps s) (KeepsBut m s) (deliver_data id m s) (deliver_data-Keeps id m s)
          (Keeps-KeepsBut m s))
        (deliver_error-KeepsBut id m s e))

deliver-KeepsBut :
    (id : ℕ) (abandoned : Bool) (m : Message) (s : Client)
    → (s.heap id).msgid ≡ m.msgid
    → Whenever (KeepsBut m s) (deliver id abandoned m s)
unfolding deliver
deliver-KeepsBut id abandoned m s e =
    let r = record (s.heap id) { last = some m } in
    let u = put id r s in
    let here = ap (λ q. Request.msgid q) (update_self s.heap id r) ∙ e in
    assert-Whenever (KeepsBut m s) (not (s.heap id).done_graceful) _
      (ended_or (m.status == status_end) refl u (put-Keeps id r s refl) here)
  where
    ended_or :
        (b : Bool)
        → (m.status == status_end) ≡ b
        → (u : Client) → Keeps s u
        → (u.heap id).msgid ≡ m.msgid
        → Whenever
            (KeepsBut m s)
            (if b then deliver_end id abandoned m u else deliver_other id abandoned m u)
    ended_or true f u h g =
        Whenever-mono (LosesOnly m.msgid u) (KeepsBut m s) _
          (deliver_end-LosesOnly id abandoned m u g)
          (λ t x. after-KeepsBut m s u t h (LosesOnly-KeepsBut m u t (ground arith) x))
    ended_or false f u h g =
        Whenever-mono (KeepsBut m u) (KeepsBut m s) _ (deliver_other-KeepsBut id abandoned m u g)
          (λ t x. after-KeepsBut m s u t h x)

-- `onMessage` on a valid client.
pub on_message-KeepsBut :
    (m : Message) (s : Client) → IsValid s → Whenever (KeepsBut m s) (on_message m s)
unfolding on_message
on_message-KeepsBut m s v =
    cases-Whenever (KeepsBut m s) (lookup m.msgid s.pending) _ _
      (λ _.
        cases-Whenever (KeepsBut m s) (lookup m.msgid s.abandoned) _ _
          (λ _.
            Whenever-mono (Keeps s) (KeepsBut m s) (fatal_error (unknown_msgid m.msgid) s)
              (fatal_error-Keeps (unknown_msgid m.msgid) s) (Keeps-KeepsBut m s))
          (λ id e.
            assert-Whenever (KeepsBut m s) (s.heap id).abandoned _
              (deliver-KeepsBut id true m s (v.abandoned_entry m.msgid id e).msgid_eq)))
      (λ id e.
        assert-Whenever (KeepsBut m s) (not (s.heap id).abandoned) _
          (deliver-KeepsBut id false m s (v.pending_entry m.msgid id e).msgid_eq))
